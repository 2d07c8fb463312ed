-- ===== src/CapRuntime/Relocation/Seek.antt =====
-- Where the probe loops of the C++ forwarding table end, and its representation invariant.
use mathlib.Core.Bool.{true≢false}
use stopless_java_gc.Base.{
  ℕ, zero, suc, ◌+◌, ◌^◌, ◌≤◌, ◌<◌, ◌≡◌, ◌≢◌, refl, sym, ap, ◌∙◌, subst, inl, inr, Bool, true,
  false, Option, none, some, List, arith, Bool-cases, length, ℕ_discrete, dec_lt, some_inj,
}
use stopless_java_gc.CapRuntime.Relocation.{
  Slot, Table, hash_addr, index_at, key_at, stops, seek_from, seek,
}

-- Where a loop of `rounds` rounds from the round `probe` on ends: at the first round that stops it.
pub data Ends (test : ℕ → Bool) (place : ℕ → ℕ) (rounds probe : ℕ) (out : Option ℕ) : Type 0 where
  missed :
      out ≡ none
      → ((d : ℕ) → probe ≤ d → d < probe + rounds → test (place d) ≡ false)
      → Ends test place rounds probe out
  stopped :
      (d : ℕ)
      → probe ≤ d
      → d < probe + rounds
      → out ≡ some (place d)
      → test (place d) ≡ true
      → ((e : ℕ) → probe ≤ e → e < d → test (place e) ≡ false)
      → Ends test place rounds probe out

module _ {ℓ} {C : Type ℓ} (null : C) where
  -- the slot of a round of the probe for a key
  abbrev pub place : Table C → ℕ → ℕ → ℕ
  place t key d = index_at t.slots_count (hash_addr key t.slots_count) d

  seek_from-Ends :
      (s : List (Slot C)) (count key idx rounds probe : ℕ)
      → Ends
          (stops null s key)
          (index_at count idx)
          rounds
          probe
          (seek_from null s count key idx rounds probe)
  unfolding seek_from
  seek_from-Ends s count key idx zero probe = missed refl (λ d a b. absurd (omega arith))
  seek_from-Ends s count key idx (suc rounds) probe =
      elim (Bool-cases (stops null s key (index_at count idx probe))) [
        | inl hit ↦
            stopped probe (omega arith) (omega arith) (rw hit) hit (λ e a b. absurd (omega arith))
        | inr pass ↦ rw pass (elim (seek_from-Ends s count key idx rounds (suc probe)) [
          | missed e before ↦ missed e (λ d a b. elim (ℕ_discrete d probe) [
            | yes q ↦ rw q pass
            | no ne ↦ before d (omega arith) (omega arith)
          ])
          | stopped d l r e hit before ↦ stopped d (omega arith) (omega arith) e hit (λ f a b.
              elim (ℕ_discrete f probe) [ yes q ↦ rw q pass | no ne ↦ before f (omega arith) b ])
        ])
      ]

  -- The first stop of a probe over all slots.
  pub record First (t : Table C) (key p : ℕ) : Type 0 where
    pub round : ℕ
    pub below : round < t.slots_count
    pub there : place t key round ≡ p
    pub hit : stops null t.slots key p ≡ true
    pub before : (e : ℕ) → e < round → stops null t.slots key (place t key e) ≡ false

  pub seek-First : (t : Table C) (key p : ℕ) → seek null t key ≡ some p → First t key p
  unfolding seek
  seek-First t key p e =
      elim (seek_from-Ends t.slots t.slots_count key (hash_addr key t.slots_count) t.slots_count
        0) [
          | missed out before ↦ absurd (cc)
          | stopped d l r out hit before ↦
              let same : place t key d ≡ p = some_inj (sym out ∙ e) in
              record {
                round = d;
                below = omega arith;
                there = same;
                hit = subst (λ i. stops null t.slots key i ≡ true) same hit;
                before = λ f lt. before f (omega arith) lt;
              }
        ]

  pub First-seek : (t : Table C) (key p : ℕ) → First t key p → seek null t key ≡ some p
  unfolding seek
  First-seek t key p f =
      let at_p : stops null t.slots key (place t key f.round) ≡ true =
        subst (λ i. stops null t.slots key i ≡ true) (sym f.there) f.hit in
      elim (seek_from-Ends t.slots t.slots_count key (hash_addr key t.slots_count) t.slots_count
        0) [
          | missed out before ↦
              absurd (true≢false (sym at_p ∙ before f.round (omega arith) (omega (arith, f.below))))
          | stopped d l r out hit before ↦ elim (ℕ_discrete d f.round) [
            | yes e ↦
                out ∙ (ap (λ (i : ℕ). some (place t key i)) e ∙ ap (λ (i : ℕ). some i) f.there)
            | no ne ↦ elim (dec_lt d f.round) [
              | yes lt ↦ absurd (true≢false (sym hit ∙ f.before d lt))
              | no ge ↦ absurd (true≢false (sym at_p ∙ before f.round (omega arith) (omega arith)))
            ]
          ]
        ]

  -- A probe that returns nothing has passed every place on its way.
  pub seek_missed :
      (t : Table C) (key : ℕ)
      → seek null t key ≡ none
      → (d : ℕ) → d < t.slots_count
      → stops null t.slots key (place t key d) ≡ false
  unfolding seek
  seek_missed t key e d lt =
      elim (seek_from-Ends t.slots t.slots_count key (hash_addr key t.slots_count) t.slots_count
        0) [
          | missed out before ↦ before d (omega arith) (omega arith)
          | stopped f l r out hit before ↦ absurd (cc)
        ]

  -- The slots are a power of two, and the probe for the key of an occupied slot ends there.
  pub record IsValid (t : Table C) : Type 0 where
    pub exponent : ℕ
    pub width : length t.slots ≡ t.slots_count
    pub two : t.slots_count ≡ 2 ^ exponent
    pub small : t.slots_count ≤ 2 ^ 62
    pub reach :
        (i : ℕ)
        → i < length t.slots
        → key_at null t.slots i ≢ 0
        → seek null t (key_at null t.slots i) ≡ some i
