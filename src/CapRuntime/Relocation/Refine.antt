-- ===== src/CapRuntime/Relocation/Refine.antt =====
-- The C++ forwarding table as an implementation of a finite map, whatever it holds.
use stopless_java_gc.Base.{
  ℕ, ◌<◌, ◌≡◌, ◌≢◌, refl, sym, ap, ◌∙◌, subst, ◌⊎◌, inl, inr, Option, none, some, arith,
  Option-cases, length, set, length-set, ℕ_discrete, some_inj, add64, ◌==◌, if◌then◌else◌, eq→==,
  ne→==, update,
}
use stopless_java_gc.CapRuntime.Relocation.{
  Slot, Table, slot_at, key_at, seek, claim, install, lookup, clear_region,
}
use stopless_java_gc.CapRuntime.Relocation.Seek.{seek-First, IsValid}
use stopless_java_gc.CapRuntime.Relocation.Write.{
  seek_ends, seek-lt, at_p, off_p, stored-IsValid, lookup_present, lookup_absent, lookup_zero,
  hit_cases,
}
use stopless_java_gc.CapRuntime.Relocation.Install.{Holds, install_again, install_free}
use stopless_java_gc.CapRuntime.Relocation.Blank.{IsBlank, blank-IsValid, clear-IsBlank}

-- What the table promises: a map from addresses to capabilities, in which the first entry stays.
module _ {ℓ} {C : Type ℓ} where
  abbrev pub no_entries : ℕ → Option C
  no_entries key = none

  unfoldable pub enter : (ℕ → Option C) → ℕ → C → ℕ → Option C
  enter m key to =
      if key == 0 then m else elim (m key) [ some old ↦ m | none ↦ update m key (some to) ]

  unfoldable pub follow : (ℕ → Option C) → ℕ → C → C
  follow m key from = elim (m key) [ some to ↦ to | none ↦ from ]

-- The occupied slots are the entries of the map.
pub record Implements {ℓ} {C : Type ℓ} (null : C) (t : Table C) (m : ℕ → Option C) : Type ℓ where
  pub valid : IsValid null t
  pub reads :
      (i : ℕ)
      → i < length t.slots
      → key_at null t.slots i ≢ 0
      → m (key_at null t.slots i) ≡ some (slot_at null t.slots i).to_cap
  pub only : (key : ℕ) (x : C) → m key ≡ some x → (key ≢ 0) × Holds null t.slots key

module _ {ℓ} {C : Type ℓ} (null : C) (addr : C → ℕ) (t : Table C) (from to : C) where
  install_nowhere : seek null t (addr from) ≡ none → install null addr t from to ≡ t
  unfolding install claim
  install_nowhere e = ground (arith, e)

  install-null : addr from ≡ 0 → install null addr t from to ≡ t
  unfolding install claim
  install-null z = ground (arith, z)

  enter_null : (m : ℕ → Option C) → addr from ≡ 0 → enter m (addr from) to ≡ m
  unfolding enter
  enter_null m z = ground (arith, z)

module _ {ℓ} {C : Type ℓ} {null : C} where
  -- An occupied slot has an entry.
  entry_of :
      {t : Table C} {m : ℕ → Option C} (r : Implements null t m) (key i : ℕ)
      → i < length t.slots
      → key_at null t.slots i ≡ key
      → key ≢ 0
      → m key ≡ some (slot_at null t.slots i).to_cap
  entry_of {t} {m} r key i lt e ne =
      subst (λ k. m k ≡ some (slot_at null t.slots i).to_cap) e (r.reads i lt (λ z. ne (sym e ∙ z)))

  pub lookup-follow :
      {t : Table C} {m : ℕ → Option C} (r : Implements null t m) (addr : C → ℕ) (c : C)
      → lookup null addr t c ≡ follow m (addr c) c
  unfolding follow
  lookup-follow {t} {m} r addr c = elim (Option-cases (m (addr c))) [
    | inl out ↦ elim (ℕ_discrete (addr c) 0) [
      | yes z ↦ lookup_zero null addr t c z ∙ rw (follow, out)
      | no ne ↦
          lookup_absent r.valid addr c
            (λ i lt e. let there = entry_of r (addr c) i lt e ne in absurd (cc))
          ∙ rw (follow, out)
    ]
    | inr (x, e) ↦
        let (ne, (i, lt, key)) = r.only (addr c) x e in
        let there = entry_of r (addr c) i lt key ne in
        lookup_present r.valid addr c i lt key ne ∙ (some_inj (sym there ∙ e) ∙ rw (follow, e))
  ]

  pub blank-Implements : {t : Table C} → IsBlank null t → Implements null t no_entries
  blank-Implements b = record {
    valid = blank-IsValid b;
    reads = λ i lt ne. absurd (ne (b.free i));
    only = λ key x e. absurd (cc);
  }

  module _ {t : Table C} {m : ℕ → Option C} (r : Implements null t m) (addr : C → ℕ) (from to : C)
      (nonzero : addr from ≢ 0) where
    enter_new : m (addr from) ≡ none → enter m (addr from) to ≡ update m (addr from) (some to)
    unfolding enter
    enter_new e = rw (ne→== (addr from) 0 nonzero, e)

    enter_old : (x : C) → m (addr from) ≡ some x → enter m (addr from) to ≡ m
    unfolding enter
    enter_old x e = rw (ne→== (addr from) 0 nonzero, e)

    -- no slot has an address without an entry
    absent : m (addr from) ≡ none → ¬ Holds null t.slots (addr from)
    absent out (i, lt, e) = let there = entry_of r (addr from) i lt e nonzero in absurd (cc)

    module _ (p : ℕ) (found : seek null t (addr from) ≡ some p) (free : key_at null t.slots p ≡ 0)
        (out : m (addr from) ≡ none) where
      abbrev filled : Slot C
      filled = record { from_addr = addr from; to_cap = to }

      abbrev after : Table C
      after = record t { slots = set t.slots p filled; installed = add64 t.installed 1 }

      abbrev more : ℕ → Option C
      more = update m (addr from) (some to)

      more_here : more (addr from) ≡ some to
      more_here = rw (if◌then◌else◌, eq→== (addr from) (addr from) refl)

      more_else : (key : ℕ) → addr from ≢ key → more key ≡ m key
      more_else key ne = rw (if◌then◌else◌, ne→== (addr from) key ne)

      after-Implements : Implements null after more
      after-Implements =
          let v' = stored-IsValid r.valid p (add64 t.installed 1) filled nonzero found in
          let here = at_p r.valid p (add64 t.installed 1) filled nonzero found in
          let off = off_p r.valid p (add64 t.installed 1) filled nonzero found in
          let same : length after.slots ≡ length t.slots = length-set t.slots p filled in
          record {
            valid = v';
            reads = λ i lt ne. elim (ℕ_discrete p i) [
              | yes q ↦
                  subst
                    (λ j.
                      more (key_at null after.slots j) ≡ some (slot_at null after.slots j).to_cap)
                    q
                    (ap (λ (s : Slot C). more s.from_addr) here
                      ∙ (more_here ∙ sym (ap (λ (s : Slot C). some s.to_cap) here)))
              | no apart ↦
                  let old : key_at null after.slots i ≡ key_at null t.slots i =
                    ap (λ (s : Slot C). s.from_addr) (off i apart) in
                  let lt' = rw same at lt in
                  ap more old
                  ∙ (more_else (key_at null t.slots i) (λ z. absent out (i, lt', sym z))
                      ∙ (r.reads i lt' (λ z. ne (old ∙ z))
                          ∙ sym (ap (λ (s : Slot C). some s.to_cap) (off i apart))))
            ];
            only = λ key x e. elim (ℕ_discrete (addr from) key) [
              | yes q ↦ (
                λ z. nonzero (q ∙ z),
                (
                  p,
                  rw same (seek-lt r.valid (addr from) p found),
                  ap (λ (s : Slot C). s.from_addr) here ∙ q,
                ),
              )
              | no apart ↦
                  let (ne, (i, lt, at_i)) = r.only key x (sym (more_else key apart) ∙ e) in
                  let off_i : p ≢ i =
                    λ q. ne (sym at_i ∙ (ap (key_at null t.slots) (sym q) ∙ free)) in
                  (ne, (i, rw same lt, ap (λ (s : Slot C). s.from_addr) (off i off_i) ∙ at_i))
            ];
          }

    -- `install` of a nonzero address.
    install_nonzero :
        Implements null (install null addr t from to) (enter m (addr from) to)
        ⊎ ((install null addr t from to ≡ t)
            × ((i : ℕ) → i < length t.slots → key_at null t.slots i ≢ 0))
    install_nonzero = elim (Option-cases (m (addr from))) [
      | inr (x, e) ↦
          let (ne, there) = r.only (addr from) x e in
          inl (rw (enter_old x e, install_again r.valid addr from to nonzero there) r)
      | inl out ↦ elim (Option-cases (seek null t (addr from))) [
        | inr (p, found) ↦
            let hit = (seek-First null t (addr from) p found).hit in
            elim (hit_cases null t.slots (addr from) p hit) [
              | inl free ↦ inl (
                  rw (enter_new out, install_free r.valid addr from to nonzero p found free)
                    (after-Implements p found free out))
              | inr k ↦ absurd (absent out (p, seek-lt r.valid (addr from) p found, k))
            ]
        | inl e ↦ inr (
          install_nowhere null addr t from to e,
          λ i lt free. let (p, found) = seek_ends r.valid (addr from) i lt free in absurd (cc),
        )
      ]
    ]

  -- `install` enters the capability in the map, where an entry that is there stays and 0 has none, or
  -- changes nothing because every slot is occupied; `lookup` of an implementation follows the map, or
  -- gives the capability back; and the table as constructed and after `clear_region` is the empty map.
  pub install-Implements :
      {t : Table C} {m : ℕ → Option C}
      → Implements null t m
      → (addr : C → ℕ) (from to : C)
      → ((c : C) → lookup null addr t c ≡ follow m (addr c) c)
        × (Implements null (install null addr t from to) (enter m (addr from) to)
            ⊎ ((install null addr t from to ≡ t)
                × ((i : ℕ) → i < length t.slots → key_at null t.slots i ≢ 0)))
        × Implements null (clear_region t) no_entries
  install-Implements {t} {m} r addr from to = (
    lookup-follow r addr,
    elim (ℕ_discrete (addr from) 0) [
      | yes z ↦ inl (rw (install-null null addr t from to z, enter_null null addr t from to m z) r)
      | no ne ↦ install_nonzero r addr from to ne
    ],
    blank-Implements (clear-IsBlank r.valid),
  )
