-- ===== src/CapRuntime/Relocation/Race/Settled.antt =====
-- What racing calls of `lookup` return, and what racing calls of `install` leave.
use stopless_java_gc.Base.{
  ℕ, zero, suc, ◌<◌, ◌≡◌, ◌⊎◌, refl, sym, ap, ◌∙◌, subst, inl, none, some, List, [], ◌∷◌, length,
  arith, get_or,
}
use stopless_java_gc.CapRuntime.Relocation.{Table, slot_at, lookup}
use stopless_java_gc.CapRuntime.Relocation.Seek.{IsValid}
use stopless_java_gc.CapRuntime.Relocation.Write.{lookup_present}
use stopless_java_gc.CapRuntime.Relocation.Race.Defs.{Answer, Shared, Thread, Reach, begin, next}
use stopless_java_gc.CapRuntime.Relocation.Race.Store.{In, Holds, Fine}
use stopless_java_gc.CapRuntime.Relocation.Race.Invariant.{Settled, AllSettled, Inv}
use stopless_java_gc.CapRuntime.Relocation.Race.Steps.{one_slot, Move-Inv}

module _ {C : Type 0} (null : C) (addr : C → ℕ) where
  Reach-Inv :
      {t : Table C} {m : Shared C} {pc : ℕ → Thread C}
      → IsValid null t
      → Reach null addr t m pc
      → Inv null addr t m pc
  Reach-Inv v begin = record {
    valid = v;
    caps = λ i. inl refl;
    entries = λ key c e. absurd e;
    fine = λ j. tt;
    single = λ i j x oi oj. cc;
    settled = tt;
  }
  Reach-Inv {t} v (next {m} j r e mv) =
      let inv = Reach-Inv v r in
      Move-Inv null addr t inv j mv e (subst (Fine null addr m.table m.stored) e (inv.fine j))

  -- the answer of a call, the newest first
  abbrev pub answer_at : List (Answer C) → ℕ → Answer C
  answer_at rs i = get_or rs i (record { from = null; promised = none; found = null })

  AllSettled-at :
      (start : Table C) (log : List (ℕ × C)) (rs : List (Answer C)) (i : ℕ)
      → AllSettled null addr start log rs
      → i < length rs
      → Settled null addr start log (answer_at rs i)
  AllSettled-at start log [] i h l = elim l [ ]
  AllSettled-at start log (r ∷ rs) zero h l = h.0
  AllSettled-at start log (r ∷ rs) (suc i) h l = AllSettled-at start log rs i h.1 (omega arith)

  module _ {t : Table C} (v : IsValid null t) where
    -- However threads race in `install` and `lookup` from a valid table: a call of `lookup` that began
    -- when a capability had been stored for its address returns that one. Any other returns its
    -- argument, or what some slot held before the race, or what has been stored for its address.
    pub lookup_settles :
        {m : Shared C} {pc : ℕ → Thread C}
        → Reach null addr t m pc
        → (i : ℕ) → i < length m.answers
        → let r = answer_at m.answers i in
          ((c : C) → r.promised ≡ some c → r.found ≡ c)
          × ((r.found ≡ r.from)
              ⊎ (((k : ℕ) × (r.found ≡ (slot_at null t.slots k).to_cap))
                  ⊎ In (addr r.from) r.found m.stored))
    lookup_settles {m} r i l = AllSettled-at t m.stored m.answers i (Reach-Inv v r).settled l

    -- Once `install` has stored a capability for an address, `lookup` gives it for every capability of
    -- that address, whatever other threads are in the middle of, and no other capability has been
    -- stored for the address.
    pub install_settles :
        {m : Shared C} {pc : ℕ → Thread C}
        → Reach null addr t m pc
        → (key : ℕ) (c x : C) → In key c m.stored
        → addr x ≡ key
        → IsValid null m.table
          × (lookup null addr m.table x ≡ c)
          × ((d : C) → In key d m.stored → d ≡ c)
    install_settles {m} r key c x stored e =
        let inv = Reach-Inv v r in
        let (i, (nz, lt, at_i), same, free) = inv.entries key c stored in
        let h : Holds null addr m.table key i = (nz, lt, at_i) in
        (
          inv.valid,
          lookup_present inv.valid addr x i lt (at_i ∙ sym e) (λ z. nz (sym e ∙ z)) ∙ same,
          λ d other.
              let s = inv.entries key d other in
              sym s.2
              ∙ (ap (λ q. (slot_at null m.table.slots q).to_cap)
                    (one_slot null addr inv.valid key s.0 i s.1 h)
                  ∙ same),
        )
