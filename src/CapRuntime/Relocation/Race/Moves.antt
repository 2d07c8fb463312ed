-- ===== src/CapRuntime/Relocation/Race/Moves.antt =====
-- The two stores of `install` keep the invariant: the compare-exchange, and the store of `to_cap`.
use stopless_java_gc.Base.{
  ℕ, ◌<◌, ◌≡◌, ◌≢◌, ◌⊎◌, refl, sym, ap, ◌∙◌, subst, inl, inr, none, some, List, ◌∷◌, length,
  length-set, set, ℕ_discrete, eq→==, ne→==, update, some_inj,
}
use stopless_java_gc.CapRuntime.Relocation.{Slot, Table, slot_at, key_at, seek}
use stopless_java_gc.CapRuntime.Relocation.Seek.{IsValid}
use stopless_java_gc.CapRuntime.Relocation.Write.{off_p, at_p, seek-lt, stored-IsValid}
use stopless_java_gc.CapRuntime.Relocation.Race.Defs.{Shared, Thread, filling, counting, write}
use stopless_java_gc.CapRuntime.Relocation.Race.Store.{owner, Fine, Fine-log, Fine-store}
use stopless_java_gc.CapRuntime.Relocation.Race.Invariant.{Known, Stands, AllSettled-log, Inv}

module _ {C : Type 0} (null : C) (addr : C → ℕ) (start : Table C) {m : Shared C} {pc : ℕ → Thread C}
    (inv : Inv null addr start m pc) (j : ℕ) where
  -- A store to a slot that no other thread owns.
  module _ (p : ℕ) (w : Slot C) (nonzero : w.from_addr ≢ 0)
      (found : seek null m.table w.from_addr ≡ some p)
      (others : (i : ℕ) → j ≢ i → owner (pc i) ≢ some p) where
    abbrev after : Table C
    after = record m.table { slots = set m.table.slots p w }

    within : p < length m.table.slots
    within = seek-lt inv.valid w.from_addr p found

    there : (i : ℕ) → p ≢ i → slot_at null after.slots i ≡ slot_at null m.table.slots i
    there i ne = off_p inv.valid p m.table.installed w nonzero found i ne

    itself : slot_at null after.slots p ≡ w
    itself = at_p inv.valid p m.table.installed w nonzero found

    after-IsValid : IsValid null after
    after-IsValid = stored-IsValid inv.valid p m.table.installed w nonzero found

    after-Fine :
        (log : List (ℕ × C)) (q : Thread C)
        → Fine null addr m.table log q
        → Fine null addr after log q
    after-Fine log q f = Fine-store null addr inv.valid p m.table.installed w nonzero found log q f

    -- A pair of the log in another slot.
    after-Stands :
        (p' : Thread C) (key : ℕ) (c : C) (s : Stands null addr start m.table pc key c)
        → p ≢ s.0
        → (owner p' ≡ some p) ⊎ (owner p' ≡ none)
        → Stands null addr start after (update pc j p') key c
    after-Stands p' key c (i, (nz, lt, e), same, free) off o = (
      i,
      (
        nz,
        rw (length-set m.table.slots p w) lt,
        ap (λ (r : Slot C). r.from_addr) (there i off) ∙ e,
      ),
      ap (λ (r : Slot C). r.to_cap) (there i off) ∙ same,
      λ a. elim (ℕ_discrete j a) [
        | yes q ↦
            rw (eq→== j a q)
              (λ x. elim o [ inl own ↦ off (some_inj (sym own ∙ x)) | inr out ↦ absurd (cc) ])
        | no ne ↦ rw (ne→== j a ne) (free a)
      ],
    )

    store_single :
        (p' : Thread C)
        → (owner p' ≡ some p) ⊎ (owner p' ≡ none)
        → (a b x : ℕ) → owner (update pc j p' a) ≡ some x
        → owner (update pc j p' b) ≡ some x
        → a ≡ b
    store_single p' o a b x oa ob = elim (ℕ_discrete j a) [
      | yes ea ↦ elim (ℕ_discrete j b) [
        | yes eb ↦ sym ea ∙ eb
        | no nb ↦ absurd (clash b nb (rw (eq→== j a ea) at oa) (rw (ne→== j b nb) at ob))
      ]
      | no na ↦ elim (ℕ_discrete j b) [
        | yes eb ↦ absurd (clash a na (rw (eq→== j b eb) at ob) (rw (ne→== j a na) at oa))
        | no nb ↦ inv.single a b x (rw (ne→== j a na) at oa) (rw (ne→== j b nb) at ob)
      ]
    ]
      where
        clash : (b : ℕ) → j ≢ b → owner p' ≡ some x → owner (pc b) ≡ some x → ⊥
        clash b ne oi ob = elim o [ inl own ↦ others b ne (ob ∙ (sym oi ∙ own)) | inr out ↦ cc ]

    pcs-Fine :
        (log : List (ℕ × C)) (p' : Thread C)
        → ((q : Thread C) → Fine null addr m.table m.stored q → Fine null addr m.table log q)
        → Fine null addr after log p'
        → (a : ℕ) → Fine null addr after log (update pc j p' a)
    pcs-Fine log p' grows f a = elim (ℕ_discrete j a) [
      | yes q ↦ rw (eq→== j a q) f
      | no ne ↦ rw (ne→== j a ne) (after-Fine log (pc a) (grows (pc a) (inv.fine a)))
    ]

    -- The store claims a free slot.
    pub claims :
        (to : C)
        → key_at null m.table.slots p ≡ 0
        → w.to_cap ≡ (slot_at null m.table.slots p).to_cap
        → Inv null addr start (write null addr m p w) (update pc j (filling w.from_addr to p))
    claims to free kept = record {
      valid = after-IsValid;
      caps = λ i. elim (ℕ_discrete p i) [
        | no ne ↦ subst (Known null addr start m.stored i) (sym (there i ne)) (inv.caps i)
        | yes e ↦
            subst (λ i. Known null addr start m.stored i (slot_at null after.slots i)) e
              (elim (inv.caps p) [
                | inl old ↦ inl (ap (λ (r : Slot C). r.to_cap) itself ∙ (kept ∙ old))
                | inr new ↦ absurd ((inv.entries _ _ new).1.0 free)
              ])
      ];
      entries = λ key c e.
          let s = inv.entries key c e in
          let off : p ≢ s.0 =
            λ q. s.1.0 (sym s.1.2 ∙ (ap (key_at null m.table.slots) (sym q) ∙ free)) in
          after-Stands (filling w.from_addr to p) key c s off (inl refl);
      fine =
          pcs-Fine m.stored (filling w.from_addr to p) (λ q f. f)
            (
              nonzero,
              rw (length-set m.table.slots p w) within,
              ap (λ (r : Slot C). r.from_addr) itself,
            );
      single = store_single (filling w.from_addr to p) (inl refl);
      settled = inv.settled;
    }

    -- The store fills the slot that the thread owns.
    pub fills :
        owner (pc j) ≡ some p
        → Inv null addr start
            (record (write null addr m p w) { stored = (w.from_addr, w.to_cap) ∷ m.stored })
            (update pc j counting)
    fills mine = record {
      valid = after-IsValid;
      caps = λ i. elim (ℕ_discrete p i) [
        | no ne ↦
            subst (Known null addr start ((w.from_addr, w.to_cap) ∷ m.stored) i) (sym (there i ne))
              (elim (inv.caps i) [ inl old ↦ inl old | inr new ↦ inr (inr new) ])
        | yes e ↦
            subst
              (λ i.
                Known null addr start ((w.from_addr, w.to_cap) ∷ m.stored) i
                  (slot_at null after.slots i))
              e
              (inr (
                inl (
                  sym (ap (λ (r : Slot C). r.from_addr) itself),
                  sym (ap (λ (r : Slot C). r.to_cap) itself),
                )))
      ];
      entries = λ key c e. elim e [
        | inr before ↦
            let s = inv.entries key c before in
            let off : p ≢ s.0 = λ q. s.3 j (mine ∙ ap some q) in
            after-Stands counting key c s off (inr refl)
        | inl (same_key, same_cap) ↦ (
          p,
          (
            λ z. nonzero (same_key ∙ z),
            rw (length-set m.table.slots p w) within,
            ap (λ (r : Slot C). r.from_addr) itself ∙ same_key,
          ),
          ap (λ (r : Slot C). r.to_cap) itself ∙ same_cap,
          λ a. elim (ℕ_discrete j a) [
            | yes q ↦ rw (eq→== j a q) (λ x. absurd (cc))
            | no ne ↦ rw (ne→== j a ne) (others a ne)
          ],
        )
      ];
      fine =
          pcs-Fine ((w.from_addr, w.to_cap) ∷ m.stored) counting
            (λ q f. Fine-log null addr m.table m.stored w.from_addr w.to_cap q f) tt;
      single = store_single counting (inr refl);
      settled = AllSettled-log null addr start m.stored w.from_addr w.to_cap m.answers inv.settled;
    }
