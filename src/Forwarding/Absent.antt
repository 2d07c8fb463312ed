-- ===== src/Forwarding/Absent.antt =====
-- `forward_table_cas_insert` of an address that `ft_find` does not find, with no other writer: it does
-- what `forward_table_insert` does.
use stopless_java_gc.Base.{
  ℕ, ◌<◌, ◌≡◌, ◌≢◌, sym, ap, ◌∙◌, inl, inr, Bool, true, Option, none, some, arith, length, ne→==,
}
use stopless_java_gc.Cheri.{Cheri, Documented}
use stopless_java_gc.ForwardTable.{Table, slot_at, key_at, find, put, insert_at}
use stopless_java_gc.ForwardTable.Slots.{search_stop}
use stopless_java_gc.ForwardTable.State.{IsTable, Filled, entry, seek_lem, find_present}
use stopless_java_gc.ForwardTable.Insert.{search_ends}
use stopless_java_gc.Forwarding.{Forwarding, returned, rebuilt, insert, cas_insert}
use stopless_java_gc.Forwarding.Derive.{Fits, Tight, rebuilt-Tight, derive_fits}
use stopless_java_gc.Forwarding.Cas.{cas_claims}

-- In a table without half-written slots, what `ft_find` misses stands in no slot.
pub missed_everywhere :
    {g : Table} (h : IsTable g) (key : ℕ)
    → Filled g
    → key ≢ 0
    → find g key ≡ none
    → (i : ℕ) → i < length h.array
    → key_at h.array i ≢ key
missed_everywhere {g} h key filled ne out i li e =
    let nz : (slot_at h.array i).new_addr ≢ 0 = filled h.array i h.slots li (λ z. ne (sym e ∙ z)) in
    let read : entry (slot_at h.array i) ≡ none = sym (find_present h i key li e ne) ∙ out in
    absurd (ground (arith, read, ne→== _ _ nz))

module _ {Cap : Type 0} ⦃ch : Cheri Cap⦄ (doc : Documented ch) (base : Cap)
    (root : ch.tag base ≡ true) where
  -- The state that both functions leave, and the capability that the caller gets.
  pub record Inserted (memory : Bool) (f : Forwarding Cap) (key : ℕ) (new_cap : Cap) : Type 0 where
    pub after : Forwarding Cap
    pub winner : Cap
    pub inserts : insert memory f key new_cap ≡ some after
    pub claims : cas_insert memory f key new_cap ≡ returned (some winner) after
    pub tight : Tight doc base (ch.address new_cap) (ch.len new_cap) winner

  pub cas_insert_absent :
      (memory : Bool) (f : Forwarding Cap) (key : ℕ) (new_cap : Cap)
      → f.arena_base ≡ some base
      → IsTable f.table
      → Filled f.table
      → f.table.size < f.table.capacity
      → key ≢ 0
      → find f.table key ≡ none
      → ch.address new_cap ≢ 0
      → Fits doc base (ch.address new_cap) (ch.len new_cap)
      → Inserted memory f key new_cap
  unfolding insert insert_at
  cas_insert_absent memory f key new_cap rooted h filled room ne missing nz fits =
      let a = ch.address new_cap in
      let l = ch.len new_cap in
      let (p, found) = search_ends h.valid key (rw (← h.counted, ← h.capacity) room) in
      let (lp, stop) = search_stop h.valid key p found in
      let free : key_at h.array p ≡ 0 = elim stop [
        | inl z ↦ z
        | inr q ↦ absurd (missed_everywhere h key filled ne missing p lp q)
      ] in
      let f' : Forwarding Cap = record f { table = put f.table h.array p key a l } in
      let derived = derive_fits doc root fits f' rooted nz in
      record {
        after = f';
        winner = rebuilt base a l;
        inserts = ground (arith, h.slots, seek_lem h key, found);
        claims =
            cas_claims memory f key new_cap h p found free ne
            ∙ ap (λ (r : Option Cap × Forwarding Cap). returned r.0 r.1) derived;
        tight = rebuilt-Tight doc root fits;
      }
