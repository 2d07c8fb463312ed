-- ===== src/CapRuntime/Relocation/Install.antt =====
-- The C++ forwarding table against a finite map from addresses to capabilities.
use stopless_java_gc.Base.{
  ℕ, ◌<◌, ◌≡◌, ◌≢◌, refl, sym, ◌∙◌, subst, inl, inr, true, none, some, List, arith, length, set,
  add64, set-set, ◌==◌, if◌then◌else◌, eq→==,
}
use stopless_java_gc.CapRuntime.Relocation.{
  Slot, Table, slot_at, key_at, seek, claim, fill, install, lookup,
}
use stopless_java_gc.CapRuntime.Relocation.Seek.{seek-First, IsValid}
use stopless_java_gc.CapRuntime.Relocation.Write.{
  hit_cases, seek_ends, seek-lt, key_p, stored-IsValid, lookup-stored,
}

-- Some slot has the address.
abbrev pub Holds {ℓ} : {C : Type ℓ} → C → List (Slot C) → ℕ → Type 0
Holds null s key = (i : ℕ) × (i < length s) × (key_at null s i ≡ key)

module _ {ℓ} {C : Type ℓ} {null : C} {t : Table C} (v : IsValid null t) (addr : C → ℕ) (from to : C)
    (nonzero : addr from ≢ 0) where
  -- the slot that the compare-exchange writes
  abbrev claimed_slot : ℕ → Slot C
  claimed_slot p = record { from_addr = addr from; to_cap = (slot_at null t.slots p).to_cap }

  abbrev filled_slot : Slot C
  filled_slot = record { from_addr = addr from; to_cap = to }

  claim_free :
      (p : ℕ)
      → seek null t (addr from) ≡ some p
      → key_at null t.slots p ≡ 0
      → claim null addr t from ≡ some (p, record t { slots = set t.slots p (claimed_slot p) })
  unfolding claim
  claim_free p found free = ground (arith, nonzero, found, free)

  claim_present :
      (p : ℕ)
      → seek null t (addr from) ≡ some p
      → key_at null t.slots p ≡ addr from
      → claim null addr t from ≡ none
  unfolding claim
  claim_present p found e = ground (arith, nonzero, found, e)

  -- the table between the compare-exchange and the store of the capability
  abbrev between : ℕ → Table C
  between p = record t { slots = set t.slots p (claimed_slot p) }

  fill_lem :
      (p : ℕ)
      → seek null t (addr from) ≡ some p
      → fill null p (between p) to
        ≡ record t { slots = set t.slots p filled_slot; installed = add64 t.installed 1 }
  unfolding fill
  fill_lem p found = rw (
    key_p v p t.installed (claimed_slot p) nonzero found,
    set-set t.slots p (claimed_slot p) filled_slot,
  )

  module _ (p : ℕ) (found : seek null t (addr from) ≡ some p)
      (free : key_at null t.slots p ≡ 0) where
    pub install_free :
        install null addr t from to
        ≡ record t { slots = set t.slots p filled_slot; installed = add64 t.installed 1 }
    unfolding install
    install_free = rw (install, claim_free p found free) (fill_lem p found)

    -- Between the two stores `lookup` gives what the slot held before.
    lookup-between :
        (c : C)
        → lookup null addr (between p) c
          ≡ (if addr c == addr from then (slot_at null t.slots p).to_cap else lookup null addr t c)
    lookup-between c = lookup-stored v p t.installed (claimed_slot p) nonzero found addr c

    install_free-IsValid : IsValid null (install null addr t from to)
    install_free-IsValid =
        rw install_free (stored-IsValid v p (add64 t.installed 1) filled_slot nonzero found)

    lookup-install_free :
        (c : C)
        → lookup null addr (install null addr t from to) c
          ≡ (if addr c == addr from then to else lookup null addr t c)
    lookup-install_free c =
        rw install_free (lookup-stored v p (add64 t.installed 1) filled_slot nonzero found addr c)

  pub free_place :
      (i : ℕ)
      → i < length t.slots
      → key_at null t.slots i ≡ 0
      → ¬ Holds null t.slots (addr from)
      → (p : ℕ) × (seek null t (addr from) ≡ some p) × (key_at null t.slots p ≡ 0)
  free_place i lt free fresh =
      let (p, found) = seek_ends v (addr from) i lt free in
      let hit = (seek-First null t (addr from) p found).hit in
      (
        p,
        found,
        elim (hit_cases null t.slots (addr from) p hit) [
          | inl z ↦ z
          | inr k ↦ absurd (fresh (p, seek-lt v (addr from) p found, k))
        ],
      )

  -- `install` of a nonzero address that no slot has, in a table with a free slot, keeps the invariant,
  -- and from then on `lookup` gives the new capability for every capability of that address, and what
  -- it gave before for any other.
  pub lookup-install :
      (i : ℕ)
      → i < length t.slots
      → key_at null t.slots i ≡ 0
      → ¬ Holds null t.slots (addr from)
      → IsValid null (install null addr t from to)
        × ((c : C)
            → lookup null addr (install null addr t from to) c
              ≡ (if addr c == addr from then to else lookup null addr t c))
  lookup-install i lt free fresh =
      let (p, found, here) = free_place i lt free fresh in
      (install_free-IsValid p found here, lookup-install_free p found here)

  -- The first forwarding of an address stays: `install` of one that some slot has changes nothing.
  pub install_again : Holds null t.slots (addr from) → install null addr t from to ≡ t
  unfolding install
  install_again (i, lt, e) = rw (
    install,
    claim_present i (subst (λ k. seek null t k ≡ some i) e (v.reach i lt (rw e nonzero))) e,
  )

  -- `install` is two stores. After the first, the compare-exchange, `lookup` already ends at the slot
  -- and gives what its `to_cap` was before, and only after the second the new capability.
  pub claim-lookup :
      (i : ℕ)
      → i < length t.slots
      → key_at null t.slots i ≡ 0
      → ¬ Holds null t.slots (addr from)
      → (p : ℕ) × (t' : Table C) × (claim null addr t from ≡ some (p, t'))
        × (lookup null addr t' from ≡ (slot_at null t.slots p).to_cap)
        × (install null addr t from to ≡ fill null p t' to)
        × (lookup null addr (fill null p t' to) from ≡ to)
  claim-lookup i lt free fresh =
      let (p, found, here) = free_place i lt free fresh in
      let self : (addr from == addr from) ≡ true = eq→== (addr from) (addr from) refl in
      let same : install null addr t from to ≡ fill null p (between p) to =
        install_free p found here ∙ sym (fill_lem p found) in
      (
        p,
        between p,
        claim_free p found here,
        lookup-between p found here from ∙ rw self,
        same,
        rw (← same) (lookup-install_free p found here from ∙ rw self),
      )
