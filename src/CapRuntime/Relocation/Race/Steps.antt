-- ===== src/CapRuntime/Relocation/Race/Steps.antt =====
-- Every step of a racing thread keeps the invariant.
use stopless_java_gc.Base.{
  ℕ, suc, ◌<◌, ◌≡◌, ◌≢◌, refl, sym, ap, ◌∙◌, subst, inl, inr, Option, none, some, ◌∷◌, ℕ_discrete,
  arith, false, some_inj, update,
}
use stopless_java_gc.CapRuntime.Relocation.{Table, slot_at, key_at, stops, seek}
use stopless_java_gc.CapRuntime.Relocation.Seek.{place, IsValid, First-seek}
use stopless_java_gc.CapRuntime.Relocation.Write.{place-lt, place_hit}
use stopless_java_gc.CapRuntime.Relocation.Race.Defs.{
  Shared, Thread, idle, filling, counting, key_here, here, write, filled, Move, install, full, win,
  lose, beaten, other, fill, count, look, over, absent, skip, hit, fetch,
}
use stopless_java_gc.CapRuntime.Relocation.Race.Store.{
  In, stored_for-In, owner, Holds, Kept, Passed, Fine,
}
use stopless_java_gc.CapRuntime.Relocation.Race.Invariant.{Settled, Inv, owned_key, quiet}
use stopless_java_gc.CapRuntime.Relocation.Race.Moves.{claims, fills}

module _ {C : Type 0} (null : C) (addr : C → ℕ) where
  module _ {t : Table C} (v : IsValid null t) where
    seek_held : (key i : ℕ) → Holds null addr t key i → seek null t key ≡ some i
    seek_held key i (nz, lt, e) =
        subst (λ k. seek null t k ≡ some i) e (v.reach i lt (λ z. nz (sym e ∙ z)))

    pub one_slot : (key i j : ℕ) → Holds null addr t key i → Holds null addr t key j → i ≡ j
    one_slot key i j h k = some_inj (sym (seek_held key i h) ∙ seek_held key j k)

    passes_on :
        (key d : ℕ)
        → Passed null addr t key d
        → key_at null t.slots (place null t key d) ≢ 0
        → key_at null t.slots (place null t key d) ≢ key
        → Passed null addr t key (suc d)
    passes_on key d p nz ne e l = elim (ℕ_discrete e d) [
      | yes q ↦
          subst (λ e. stops null t.slots key (place null t key e) ≡ false) (sym q)
            (ground (arith, nz, ne))
      | no apart ↦ p e (omega arith)
    ]

    ends_at :
        (key d : ℕ)
        → d < t.slots_count
        → Passed null addr t key d
        → key_at null t.slots (place null t key d) ≡ 0
        → seek null t key ≡ some (place null t key d)
    ends_at key d l p z =
        First-seek null t key (place null t key d)
          (record { round = d; below = l; there = refl; hit = ground (arith, z); before = p })

    -- A probe that met a free slot, or passed all slots, has not missed the address.
    free-misses :
        (key d i : ℕ)
        → d < t.slots_count
        → Passed null addr t key d
        → key_at null t.slots (place null t key d) ≡ 0
        → ¬ Holds null addr t key i
    free-misses key d i l p z h =
        let same : place null t key d ≡ i =
          some_inj (sym (ends_at key d l p z) ∙ seek_held key i h) in
        h.0 (sym h.2 ∙ (ap (key_at null t.slots) (sym same) ∙ z))

    all-misses : (key i : ℕ) → Passed null addr t key t.slots_count → ¬ Holds null addr t key i
    all-misses key i p (nz, lt, e) =
        let (d, ld, at_d) = place_hit v key i lt in
        let pass : stops null t.slots key i ≡ false =
          subst (λ q. stops null t.slots key q ≡ false) at_d (p d ld) in
        absurd (ground (arith, e, pass))

  module _ (start : Table C) {m : Shared C} {pc : ℕ → Thread C} (inv : Inv null addr start m pc)
      (j : ℕ) where
    unchanged :
        (p' : Thread C)
        → Fine null addr m.table m.stored p'
        → owner p' ≡ none
        → Inv null addr start m (update pc j p')
    unchanged p' f o = quiet null addr start inv j m.table.installed m.answers p' f o inv.settled

    -- A call of `lookup` returns.
    answers :
        (from : C) (promised : Option C) (found : C)
        → Settled null addr start m.stored
            (record { from = from; promised = promised; found = found })
        → Inv null addr start
            (record m {
              answers = record { from = from; promised = promised; found = found } ∷ m.answers;
            })
            (update pc j idle)
    answers from promised found s =
        quiet null addr start inv j m.table.installed
          (record { from = from; promised = promised; found = found } ∷ m.answers) idle tt refl
          (s, inv.settled)

    -- The address of a call that returns its argument is in no slot, so that nothing was promised.
    not_promised :
        (from : C) (promised : Option C)
        → ((i : ℕ) → ¬ Holds null addr m.table (addr from) i)
        → Kept null addr from promised m.stored
        → Settled null addr start m.stored
            (record { from = from; promised = promised; found = from })
    not_promised from promised out kept =
        (λ c e. let s = inv.entries (addr from) c (kept c e) in absurd (out s.0 s.1), inl refl)

    fetched :
        (from : C) (i : ℕ) (promised : Option C)
        → Holds null addr m.table (addr from) i
        → Kept null addr from promised m.stored
        → Settled null addr start m.stored (record {
          from = from;
          promised = promised;
          found = (slot_at null m.table.slots i).to_cap;
        })
    fetched from i promised h kept = (
      λ c e.
          let s = inv.entries (addr from) c (kept c e) in
          let same : i ≡ s.0 = one_slot inv.valid (addr from) i s.0 h s.1 in
          ap (λ q. (slot_at null m.table.slots q).to_cap) same ∙ s.2,
      elim (inv.caps i) [
        | inl old ↦ inr (inl (i, old))
        | inr new ↦
            inr (inr (subst (λ k. In k (slot_at null m.table.slots i).to_cap m.stored) h.2 new))
      ],
    )

    wins :
        (from to : C) (d : ℕ)
        → d < m.table.slots_count
        → key_here null addr m from d ≡ 0
        → (addr from ≢ 0) × Passed null addr m.table (addr from) d
        → Inv null addr start
            (write null addr m
              (here null addr m from d)
              (record (slot_at null m.table.slots (here null addr m from d)) {
                from_addr = addr from;
              }))
            (update pc j (filling (addr from) to (here null addr m from d)))
    wins from to d l z (ne, p) =
        let i = here null addr m from d in
        claims null addr start inv j i
          (record (slot_at null m.table.slots i) { from_addr = addr from }) ne
          (ends_at inv.valid (addr from) d l p z)
          (λ a na o. owned_key null addr start m.table m.stored (pc a) i (inv.fine a) o z) to z refl

    filled_Inv :
        (key : ℕ) (to : C) (i : ℕ)
        → owner (pc j) ≡ some i
        → Holds null addr m.table key i
        → Inv null addr start (filled null addr m key to i) (update pc j counting)
    filled_Inv key to i mine h =
        subst
          (λ k.
            Inv null addr start
              (record (write null addr m i (record { from_addr = k; to_cap = to })) {
                stored = (key, to) ∷ m.stored;
              })
              (update pc j counting))
          (sym h.2)
          (fills null addr start inv j i (record { from_addr = key; to_cap = to }) h.0
            (seek_held inv.valid key i h) (λ a na o. na (inv.single j a i mine o)) mine)

    -- Every step keeps the invariant.
    pub Move-Inv :
        {p p' : Thread C} {m' : Shared C}
        → Move null addr m p m' p'
        → pc j ≡ p
        → Fine null addr m.table m.stored p
        → Inv null addr start m' (update pc j p')
    Move-Inv (install from to ne) e f = unchanged _ (ne, λ q l. elim l [ ]) refl
    Move-Inv (full l) e f = unchanged _ tt refl
    Move-Inv (win {from} {to} {d} l z) e f = wins from to d l z f
    Move-Inv (lose l nz) e f = unchanged _ (f.0, f.1, l, nz) refl
    Move-Inv (beaten q) e f = unchanged _ tt refl
    Move-Inv (other {from} {d = d} ne) e f =
        unchanged _ (f.0, passes_on inv.valid (addr from) d f.1 f.3 ne) refl
    Move-Inv (fill {key} {to} {i}) e f = filled_Inv key to i (ap owner e) f
    Move-Inv count e f = quiet null addr start inv j _ m.answers idle tt refl inv.settled
    Move-Inv (look from ne) e f =
        unchanged _ (ne, λ q l. elim l [ ], λ c e. stored_for-In m.stored (addr from) c e) refl
    Move-Inv (over {from} {d} {promised} l) e f =
        let all = subst (Passed null addr m.table (addr from)) l f.1 in
        answers from promised from
          (not_promised from promised (λ i. all-misses inv.valid (addr from) i all) f.2)
    Move-Inv (absent {from} {d} {promised} l z) e f =
        answers from promised from
          (not_promised from promised (λ i. free-misses inv.valid (addr from) d i l f.1 z) f.2)
    Move-Inv (skip {from} {d} l nz ne) e f =
        unchanged _ (f.0, passes_on inv.valid (addr from) d f.1 nz ne, f.2) refl
    Move-Inv (hit {from} {d} l q) e f =
        unchanged _ ((f.0, place-lt inv.valid (addr from) d l, q), f.2) refl
    Move-Inv (fetch {from} {i} {promised}) e f =
        answers from promised (slot_at null m.table.slots i).to_cap
          (fetched from i promised f.0 f.1)
