-- ===== src/Forwarding/Cas.antt =====
-- `forward_table_cas_insert` with no other writer: the first call decides, later calls agree with it.
use stopless_java_gc.Base.{
  ℕ, ◌<◌, ◌≡◌, ◌≢◌, refl, sym, ap, ◌∙◌, inl, inr, Bool, true, Option, none, some, ◌==◌, arith, List,
  false, eq→==, ne→==, length, set, length-set, get_or-set_self,
}
use stopless_java_gc.Cheri.{Cheri, Documented}
use stopless_java_gc.ForwardTable
use stopless_java_gc.ForwardTable.{
  Slot, Table, empty_slot, slot_at, key_at, seek, find, put, insert_at,
}
use stopless_java_gc.ForwardTable.Slots.{search_of, search_stop, search_present}
use stopless_java_gc.ForwardTable.State.{IsTable, seek_lem}
use stopless_java_gc.ForwardTable.Insert.{search_ends, put-IsTable, find-put}
use stopless_java_gc.Forwarding.{
  Forwarding, returned, spins, chase, chase_max, rebuilt, derive, lookup, insert, cas_insert,
}
use stopless_java_gc.Forwarding.Chase.{last, chase_of_Leads}
use stopless_java_gc.Forwarding.Derive.{Fits, Tight, rebuilt-Tight, derive_fits}
use stopless_java_gc.Forwarding.Lookup.{lookup_run, lookup_miss}

pub init_present : {g : Table} (memory : Bool) → IsTable g → ForwardTable.init memory g ≡ g
unfolding ForwardTable.init
init_present memory h = ground (arith, h.slots)

module _ {Cap : Type 0} ⦃ch : Cheri Cap⦄ (memory : Bool) (f : Forwarding Cap) (key : ℕ)
    (new_cap : Cap) (slots : List Slot) (p : ℕ) (c : Option Cap) where
  cas_found :
      ForwardTable.init memory f.table ≡ f.table
      → f.table.slots ≡ some slots
      → seek f.table slots key ≡ some p
      → (key_at slots p == key) ≡ true
      → ((slot_at slots p).new_addr == 0) ≡ false
      → lookup f key ≡ (c, f)
      → cas_insert memory f key new_cap ≡ returned c f
  unfolding cas_insert
  cas_found same there sought here nz run = ground arith

module _ {Cap : Type 0} ⦃ch : Cheri Cap⦄ (memory : Bool) (f : Forwarding Cap) (key : ℕ)
    (new_cap : Cap) (h : IsTable f.table) (p : ℕ) (found : search_of h.array key ≡ some p) where
  -- at a free slot
  pub cas_claims :
      key_at h.array p ≡ 0
      → key ≢ 0
      → cas_insert memory f key new_cap ≡ (
          let (c, f') =
            derive
              (record f { table = put f.table h.array p key (ch.address new_cap) (ch.len new_cap) })
              (ch.address new_cap)
              (ch.len new_cap) in
          returned c f')
  unfolding cas_insert
  cas_claims free ne = ground (arith, init_present memory h, h.slots, seek_lem h key, free, found)

  -- at a slot with the key whose address is there
  cas_finds :
      (c : Option Cap)
      → key_at h.array p ≡ key
      → (slot_at h.array p).new_addr ≢ 0
      → lookup f key ≡ (c, f)
      → cas_insert memory f key new_cap ≡ returned c f
  cas_finds c here nz run =
      cas_found memory f key new_cap h.array p c (init_present memory h) h.slots
        (seek_lem h key ∙ found) (eq→== _ _ here) (ne→== _ _ nz) run

  -- at a slot with the key whose address is not there
  cas_waits :
      key_at h.array p ≡ key
      → (slot_at h.array p).new_addr ≡ 0
      → cas_insert memory f key new_cap ≡ spins f
  unfolding cas_insert
  cas_waits here z = ground (arith, init_present memory h, h.slots, seek_lem h key, here, z, found)

module _ {Cap : Type 0} ⦃ch : Cheri Cap⦄ (doc : Documented ch) (base : Cap)
    (root : ch.tag base ≡ true) where
  -- One capability for every caller.
  pub record Agreed (f : Forwarding Cap) (key a l : ℕ) (memory : Bool) (new_cap : Cap)
      : Type 0 where
    pub after : Forwarding Cap
    pub winner : Cap
    pub first : cas_insert memory f key new_cap ≡ returned (some winner) after
    pub tight : Tight doc base a l winner
    pub later :
        (memory' : Bool) (other : Cap)
        → cas_insert memory' after key other ≡ returned (some winner) after

  -- `forward_table_cas_insert` of an address that stands in no slot returns the tight capability that
  -- spans the new one, and every later call for the address, whatever it brings, returns that same
  -- capability and changes nothing: the table is not full, and the new capability spans a range of
  -- the arena whose address is mapped no further.
  pub cas_insert_agrees :
      (f : Forwarding Cap) (memory : Bool) (key : ℕ) (new_cap : Cap)
      → f.arena_base ≡ some base
      → (h : IsTable f.table) → f.table.size < f.table.capacity
      → key ≢ 0
      → ((i : ℕ) → i < length h.array → key_at h.array i ≢ key)
      → ch.address new_cap ≢ 0
      → ch.address new_cap ≢ key
      → find f.table (ch.address new_cap) ≡ none
      → Fits doc base (ch.address new_cap) (ch.len new_cap)
      → Agreed f key (ch.address new_cap) (ch.len new_cap) memory new_cap
  unfolding put-IsTable
  cas_insert_agrees f memory key new_cap rooted h room ne out nz apart unmapped fits =
      let a = ch.address new_cap in
      let l = ch.len new_cap in
      let (p, found) = search_ends h.valid key (rw (← h.counted, ← h.capacity) room) in
      let (lp, stop) = search_stop h.valid key p found in
      let free : key_at h.array p ≡ 0 = elim stop [ inl z ↦ z | inr q ↦ absurd (out p lp q) ] in
      let written : Slot = record { from_addr = key; new_addr = a; new_len = l } in
      let g = put f.table h.array p key a l in
      let f' : Forwarding Cap = record f { table = g } in
      let h' : IsTable g = put-IsTable h key a l p ne found in
      let there : slot_at (set h.array p written) p ≡ written =
        get_or-set_self h.array p written empty_slot lp in
      let lp' : p < length (set h.array p written) = rw (length-set h.array p written) lp in
      let found' = search_present h'.valid p key lp' (ap (λ (r : Slot). r.from_addr) there) ne in
      let mapped : find g key ≡ some (a, l) =
        find-put h key a l p ne found key ne ∙ ground (arith, eq→== key key refl, ne→== a 0 nz) in
      let ended : find g a ≡ none =
        find-put h key a l p ne found a nz ∙ ground (arith, unmapped, ne→== a key apart) in
      let chased : chase g chase_max a l ≡ some (a, l) =
        chase_of_Leads g chase_max (last ended) (omega arith) in
      let derived = derive_fits doc root fits f' rooted nz in
      record {
        after = f';
        winner = rebuilt base a l;
        first =
            cas_claims memory f key new_cap h p found free ne
            ∙ ap (λ (r : Option Cap × Forwarding Cap). returned r.0 r.1) derived;
        tight = rebuilt-Tight doc root fits;
        later = λ memory' other.
            cas_finds memory' f' key other h' p found' (some (rebuilt base a l))
              (ap (λ (r : Slot). r.from_addr) there)
              (λ z. nz (sym (ap (λ (r : Slot). r.new_addr) there) ∙ z))
              (lookup_run f' key a l a l mapped chased ∙ derived);
      }

module _ {Cap : Type 0} ⦃ch : Cheri Cap⦄ where
  -- After `forward_table_insert` of a capability with address 0, such as NULL, at an address that is
  -- not 0 and with room in the table, `forward_table_lookup` of the address misses, and every
  -- `forward_table_cas_insert` of it waits for ever.
  pub cas_insert_after_null :
      (f : Forwarding Cap) (memory : Bool) (key : ℕ) (null : Cap)
      → IsTable f.table
      → f.table.size < f.table.capacity
      → key ≢ 0
      → ch.address null ≡ 0
      → (f' : Forwarding Cap) × (insert memory f key null ≡ some f')
        × (lookup f' key ≡ (none, f'))
        × ((memory' : Bool) (other : Cap) → cas_insert memory' f' key other ≡ spins f')
  unfolding put-IsTable insert insert_at
  cas_insert_after_null f memory key null h room ne zero_addr =
      let l = ch.len null in
      let a = ch.address null in
      let (p, found) = search_ends h.valid key (rw (← h.counted, ← h.capacity) room) in
      let (lp, stop) = search_stop h.valid key p found in
      let written : Slot = record { from_addr = key; new_addr = a; new_len = l } in
      let g = put f.table h.array p key a l in
      let f' : Forwarding Cap = record f { table = g } in
      let h' : IsTable g = put-IsTable h key a l p ne found in
      let there : slot_at (set h.array p written) p ≡ written =
        get_or-set_self h.array p written empty_slot lp in
      let lp' : p < length (set h.array p written) = rw (length-set h.array p written) lp in
      let at_p = ap (λ (r : Slot). r.from_addr) there in
      let found' = search_present h'.valid p key lp' at_p ne in
      let gone : find g key ≡ none =
        find-put h key a l p ne found key ne
        ∙ ground (arith, eq→== key key refl, eq→== a 0 zero_addr) in
      (
        f',
        ground (arith, h.slots, seek_lem h key, found),
        lookup_miss f' key gone,
        λ memory' other.
            cas_waits memory' f' key other h' p found' at_p
              (ap (λ (r : Slot). r.new_addr) there ∙ zero_addr),
      )
