-- ===== src/ForwardTable/Slots.antt =====
-- The representation invariant of the slots: a probe for the key of an occupied slot ends there.
-- A write by the probe loop keeps it.
use native.Mathlib.Nat.{mod-lt, one-le-pow}
use stopless_java_gc.Base.{
  ℕ, zero, suc, ◌-◌, ◌%◌, ◌^◌, ◌≤◌, ◌<◌, bit_and, ◌≡◌, ◌≢◌, refl, sym, ap, ◌∙◌, subst, ◌⊎◌, inl,
  inr, true, false, Option, some, List, [], ◌∷◌, arith, length, set, length-set, get_or-set_self,
  get_or-set_ne, ℕ_discrete, some_inj,
}
use mathlib.Core.Bool.{true≢false}
use stopless_java_gc.Base.Bits.{bit_and-low_ones}
use stopless_java_gc.ForwardTable.{Slot, empty_slot, key_at, stops, probe, home, mix}
use stopless_java_gc.ForwardTable.Probe.{pos, Outcome, missed, stopped, probe-Outcome, probe_first}

-- the probe loop over a whole array, from the home of the key on
abbrev pub search_of : List Slot → ℕ → Option ℕ
search_of t key = probe t (length t - 1) key (length t) (home (length t - 1) key)

pub record IsValid (k : ℕ) (t : List Slot) : Type 0 where
  pub width : length t ≡ 2 ^ k
  pub small : length t ≤ 2 ^ 62
  pub reach : (i : ℕ) → i < length t → key_at t i ≢ 0 → search_of t (key_at t i) ≡ some i

-- Either some slot has the key, or none has.
pub occurs? :
    (t : List Slot) (key : ℕ)
    → ((i : ℕ) × (i < length t) × (key_at t i ≡ key)) ⊎ ((i : ℕ) → i < length t → key_at t i ≢ key)
occurs? [] key = inr (λ i h. elim h [ ])
occurs? (s ∷ t) key = elim (ℕ_discrete s.from_addr key) [
  | yes e ↦ inl (0, omega arith, e)
  | no ne ↦ elim (occurs? t key) [
    | inl (i, lt, e) ↦ inl (suc i, omega arith, e)
    | inr out ↦ inr (later s t key ne out)
  ]
]
  where
    later :
        (s : Slot) (t : List Slot) (key : ℕ)
        → s.from_addr ≢ key
        → ((i : ℕ) → i < length t → key_at t i ≢ key)
        → (i : ℕ) → i < suc (length t)
        → key_at (s ∷ t) i ≢ key
    later s t key ne out zero h = ne
    later s t key ne out (suc i) h = out i (omega arith)

module _ {k : ℕ} {t : List Slot} (v : IsValid k t) where
  pub some_slots : 0 < length t
  some_slots = omega (arith, v.width, one-le-pow k 2)

  pub home_lt : (key : ℕ) → home (length t - 1) key < length t
  unfolding home
  home_lt key =
      let masked : bit_and (mix key) (length t - 1) ≡ mix key % length t =
        rw v.width (bit_and-low_ones k (mix key)) in
      rw masked (mod-lt (mix key) some_slots)

  pub search-Outcome :
      (key : ℕ)
      → Outcome (length t) (stops t key) (length t) (home (length t - 1) key) (search_of t key)
  search-Outcome key =
      probe-Outcome k (length t) v.width v.small some_slots t key (length t)
        (home (length t - 1) key) (home_lt key)

  -- The probe finds the slot of a key that is there.
  pub search_present :
      (i key : ℕ) → i < length t → key_at t i ≡ key → key ≢ 0 → search_of t key ≡ some i
  search_present i key lt e ne =
      subst (λ j. search_of t j ≡ some i) e (v.reach i lt (λ z. ne (sym e ∙ z)))

  -- No two slots have one key.
  pub distinct :
      (i j : ℕ) → i < length t → j < length t → key_at t i ≢ 0 → key_at t i ≡ key_at t j → i ≡ j
  distinct i j li lj ne e =
      some_inj (sym (v.reach i li ne) ∙ search_present j (key_at t i) lj (sym e) ne)

  -- What the probe for a key ends at.
  pub search_stop :
      (key p : ℕ)
      → search_of t key ≡ some p
      → (p < length t) × ((key_at t p ≡ 0) ⊎ (key_at t p ≡ key))
  search_stop key p e = elim (search-Outcome key) [
    | missed out before ↦ absurd (cc)
    | stopped d ld out hit before ↦
        let same : p ≡ pos (length t) (home (length t - 1) key) d = some_inj (sym e ∙ out) in
        rw same (mod-lt _ some_slots, ground arith)
  ]

module _ {k : ℕ} {t : List Slot} (v : IsValid k t) (key p : ℕ) (s : Slot) (nonzero : key ≢ 0)
    (found : search_of t key ≡ some p) (named : s.from_addr ≡ key) where
  abbrev here : key_at (set t p s) p ≡ key
  here =
      ap (λ (r : Slot). r.from_addr)
        (get_or-set_self t p s empty_slot (search_stop v key p found).0)
      ∙ named

  abbrev there : (i : ℕ) → p ≢ i → key_at (set t p s) i ≡ key_at t i
  there i ne = ap (λ (r : Slot). r.from_addr) (get_or-set_ne t p i s empty_slot ne)

  -- A slot that a probe for another key passes is still passed after the write.
  passes : (j i : ℕ) → (j ≡ key → i ≢ p) → stops t j i ≡ false → stops (set t p s) j i ≡ false
  passes j i apart pass = elim (ℕ_discrete p i) [
    | yes e ↦ ground (arith, here, apart, subst (λ q. key_at (set t p s) q ≡ key) e here)
    | no ne ↦ rw (there i ne) pass
  ]

  -- A probe that ended at a slot with its key still ends there.
  kept :
      (j i : ℕ)
      → search_of t j ≡ some i
      → stops (set t p s) j i ≡ true
      → (j ≡ key → p ≡ i)
      → search_of (set t p s) j ≡ some i
  kept j i e hit same = elim (search-Outcome v j) [
    | missed out before ↦ absurd (cc)
    | stopped d ld out hit' before ↦
        let at_d : i ≡ pos (length t) (home (length t - 1) j) d = some_inj (sym e ∙ out) in
        rw (length-set t p s, at_d)
          (probe_first k (length t) v.width v.small (some_slots v) (set t p s) j d (length t)
            (home (length t - 1) j) (home_lt v j) ld (rw (← at_d) hit)
            (λ q lq.
              passes j (pos (length t) (home (length t - 1) j) q)
                (λ a b.
                  true≢false
                    (sym hit' ∙ (ap (stops t j) (sym at_d ∙ (sym (same a) ∙ sym b)) ∙ before q lq)))
                (before q lq)))
  ]

  -- The write keeps the invariant.
  pub set-IsValid : IsValid k (set t p s)
  set-IsValid = record {
    width = length-set t p s ∙ v.width;
    small = rw (length-set t p s) v.small;
    reach = λ i lt ne. elim (ℕ_discrete p i) [
      | yes e ↦ rw (← e, here) (kept key p found (rw here (ground arith)) (λ _. refl))
      | no apart ↦
          let old : key_at (set t p s) i ≡ key_at t i = there i apart in
          rw old (
            kept (key_at t i) i (v.reach i (rw (length-set t p s) at lt) (rw old at ne))
              (rw old (ground arith))
              (λ e. some_inj (
                sym found
                ∙ (ap (search_of t) (sym e)
                    ∙ v.reach i (rw (length-set t p s) at lt) (rw old at ne)))))
    ];
  }
