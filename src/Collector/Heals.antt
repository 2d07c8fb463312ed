-- ===== src/Collector/Heals.antt =====
-- A move and the faults that it causes: the handler sends a stale reference to the copy.
use stopless_java_gc.Base.{
  ℕ, ◌+◌, ◌-◌, ◌≤◌, ◌<◌, ◌≡◌, ◌≢◌, inl, inr, refl, sym, ap, ◌∙◌, subst, Bool, true, none, some,
  arith, word, update, Option-cases, ne→==, eq→==, some_inj,
}
use stopless_java_gc.Cheri.{Cheri, Documented}
use stopless_java_gc.ForwardTable.{find}
use stopless_java_gc.ForwardTable.Insert.{Writes}
use stopless_java_gc.Forwarding.{Forwarding, insert, chase_max}
use stopless_java_gc.Forwarding.Chase.{Leads, last, Leads_unique}
use stopless_java_gc.Forwarding.Lookup.{Resolves}
use stopless_java_gc.Arena.{Arena}
use stopless_java_gc.Allocator.{alloc_in}
use stopless_java_gc.Handler.{
  Context, Siginfo, State, Clock, is_revocation, is_revoked, base_register, try_heal, account,
  probe_time,
}
use stopless_java_gc.Handler.Heal.{Healed, try_heal_moved}
use stopless_java_gc.Collector.{Heap, Request, frontier, Reach}
use stopless_java_gc.Collector.Sound.{
  Inv, Placed, alloc-Placed, insert-Writes, Step-move, Reach-Inv,
}

module _ {Cap : Type 0} ⦃ch : Cheri Cap⦄ (doc : Documented ch) (base : Cap)
    (top : ch.base base + ch.len base < word) {h : Heap Cap} (r : Reach doc base h) (key n : ℕ)
    (memory : Bool) (c : Cap) (a : Arena Cap) (f : Forwarding Cap)
    (request : Request doc base h.arena n) (ne : key ≢ 0) (low : key < frontier doc base h)
    (room : h.forwarding.table.size < h.forwarding.table.capacity)
    (allocated : alloc_in h.arena n ≡ (some c, a))
    (made : insert memory h.forwarding key c ≡ some f) where
  abbrev inv : Inv doc base h
  inv = Reach-Inv doc base r

  placed : Placed doc base h.arena n c a
  placed = alloc-Placed doc base inv n request c a allocated

  after : Inv doc base (record { arena = a; forwarding = f })
  after = Step-move doc base inv key n memory c a f request ne low room allocated made

  writes : Writes h.forwarding.table f.table key (ch.address c) (ch.len c)
  writes = (insert-Writes doc base h.forwarding f memory key c inv.table ne room made).1

  -- the copy is above everything handed out before
  high : frontier doc base h ≤ ch.address c
  high = let up = placed.above in let at = placed.tight.address in omega arith

  inside : ch.address c + ch.len c ≤ ch.base base + ch.len base
  inside =
      let e = placed.inside in
      let at = placed.tight.address in
      let l = placed.tight.extent in let cover = inv.root.covers in omega arith

  mapped : find f.table key ≡ some (ch.address c, ch.len c)
  mapped =
      writes.reads key ne
      ∙ rw (eq→== key key refl, ne→== (ch.address c) 0 (let up = high in omega arith))

  copy_unmoved : find f.table (ch.address c) ≡ none
  copy_unmoved = elim (Option-cases (find f.table (ch.address c))) [
    | inl out ↦ out
    | inr ((b, l), found) ↦
        let other : ch.address c ≢ key = (let up = high in omega arith) in
        let nz : ch.address c ≢ 0 = (let up = high in omega arith) in
        let old : find h.forwarding.table (ch.address c) ≡ some (b, l) =
          sym (writes.reads (ch.address c) nz ∙ rw (ne→== (ch.address c) key other)) ∙ found in
        absurd (
          let under = (inv.entries (ch.address c) b l old).key_below in
          let up = high in omega arith)
  ]

  -- Every chain from the old address ends at the copy.
  ends :
      (w : Cap) (from_key : ℕ)
      → from_key ≡ key
      → (q : Resolves doc base inv.root.live f.table from_key w)
      → ◌≡◌ {A = ℕ × ℕ} (q.target, q.extent) (ch.address c, ch.len c)
  ends w from_key e q =
      let first : q.first ≡ (ch.address c, ch.len c) =
        some_inj (sym q.mapped ∙ (ap (find f.table) e ∙ mapped)) in
      let chain : Leads f.table q.hops (ch.address c) (ch.len c) q.target q.extent =
        subst (λ (x : ℕ × ℕ). Leads f.table q.hops x.0 x.1 q.target q.extent) first q.chain in
      let here : Leads f.table 0 (ch.address c) (ch.len c) (ch.address c) (ch.len c) =
        last copy_unmoved in
      Leads_unique chain here

  ended :
      (w : Cap) {from_key : ℕ} (q : Resolves doc base inv.root.live f.table from_key w)
      → from_key ≡ key
      → (q.target ≡ ch.address c) × (q.extent ≡ ch.len c)
  ended w {from_key} q e =
      let end = ends w from_key e q in (ap (λ (x : ℕ × ℕ). x.0) end, ap (λ (x : ℕ × ℕ). x.1) end)

  module _ (insn : ℕ) (clock : Clock) (si : Siginfo) (ctx : Context Cap) (s : State Cap) where
    -- the capability that faults, and the state with the table after the move
    abbrev pub stale : Cap
    stale = ctx.cap_x (base_register insn)

    abbrev pub now : State Cap
    now = record s { forwarding = f }

    -- The register gets a live capability to the same offset of the copy, with the copy's bounds.
    pub record Redirected : Type 0 where
      pub new : Cap
      pub run : try_heal insn clock si ctx now ≡ (
        true,
        record ctx { cap_x = update ctx.cap_x (base_register insn) new },
        account clock new (record now { time_heals = some (probe_time clock now) }),
      )
      pub live : ch.tag new ≡ true
      pub address : ch.address new ≡ ch.address c + (ch.address stale - key)
      pub from : ch.base new ≡ ch.address c
      pub extent : ch.len new ≡ ch.len c

    -- From any state that the collector's steps reach, with an arena below the end of the address
    -- space and at most FT_CHASE_MAX entries: an object is moved, and a thread then faults through a
    -- revoked capability to the old copy, in a register below 30 that the instruction names, at an
    -- offset within the new copy. `stopless_try_heal` redirects it to the same offset of the copy.
    pub move_then_heal :
        f.table.size ≤ chase_max
        → is_revocation si.si_code ≡ true
        → base_register insn < 30
        → is_revoked stale ≡ true
        → ch.base stale ≡ key
        → key ≤ ch.address stale
        → ch.address stale - key ≤ ch.len c
        → Redirected
    move_then_heal few fault small revoked from_key above within =
        let healed : Healed doc base inv.root.live insn clock si ctx now =
          try_heal_moved doc base inv.root.live insn clock si ctx now (ch.address c) (ch.len c)
            fault small revoked after.rooted after.table (λ j b l nz e. (after.entries j b l e).up)
            (λ j b l e. (after.entries j b l e).fits) few (λ z. ne (sym from_key ∙ z))
            (ap (find f.table) from_key ∙ mapped) (rw from_key above)
            (let up = high in let e = inside in omega arith)
            (λ w q.
              let (end, len) = ended w q from_key in
              let bound = inside in (omega arith, omega arith)) in
        let q = healed.resolves in
        let (end, len) = ended healed.found q from_key in
        record {
          new = healed.new;
          run = healed.run;
          live = healed.live;
          address = let at = healed.address in omega arith;
          from = healed.from ∙ end;
          extent = healed.extent ∙ len;
        }
