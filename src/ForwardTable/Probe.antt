-- ===== src/ForwardTable/Probe.antt =====
-- The order in which a probe visits the slots, and what the probe loop returns.
use native.Mathlib.Nat.{mod-lt, mod-eq_of_lt, mod-add-mod, add-mod-mod, add-mod_right, add-zero}
use stopless_java_gc.Base.{
  ℕ, zero, suc, ◌+◌, ◌-◌, ◌%◌, ◌^◌, ◌≤◌, ◌<◌, ◌≡◌, ◌≢◌, refl, ap, ◌∙◌, inl, inr, Bool, true, false,
  Option, none, some, List, arith, Bool-cases,
}
use stopless_java_gc.Base.Bits.{bit_and-low_ones}
use stopless_java_gc.ForwardTable.{Slot, key_at, stops, advance, probe, free_from}

-- the `d`-th slot that a probe from `h` visits
abbrev pub pos : ℕ → ℕ → ℕ → ℕ
pos n h d = (h + d) % n

-- What a loop of `rounds` rounds from `h` over `n` slots returns: the first at which it stops.
pub data Outcome (n : ℕ) (test : ℕ → Bool) (rounds h : ℕ) (out : Option ℕ) : Type 0 where
  missed :
      out ≡ none → ((d : ℕ) → d < rounds → test (pos n h d) ≡ false) → Outcome n test rounds h out
  stopped :
      (d : ℕ)
      → d < rounds
      → out ≡ some (pos n h d)
      → test (pos n h d) ≡ true
      → ((e : ℕ) → e < d → test (pos n h e) ≡ false)
      → Outcome n test rounds h out

module _ (k n : ℕ) (width : n ≡ 2 ^ k) (small : n ≤ 2 ^ 62) (some_slots : 0 < n) where
  pub advance_lem : (i : ℕ) → i < n → advance (n - 1) i ≡ (i + 1) % n
  advance_lem i h =
      let plain : (i + 1) % 2 ^ 64 ≡ i + 1 = omega arith in
      rw (plain, width) (bit_and-low_ones k (i + 1))

  pos-suc : (h d : ℕ) → pos n (pos n h 1) d ≡ pos n h (suc d)
  pos-suc h d = mod-add-mod (h + 1) n d ∙ ap (λ (t : ℕ). t % n) (omega arith)

  pub pos-zero : (h : ℕ) → h < n → pos n h 0 ≡ h
  pos-zero h lt = rw (add-zero, mod-eq_of_lt lt)

  -- Every slot stands somewhere on the way.
  pub pos_hit : (h p : ℕ) → h < n → p < n → (d : ℕ) × (d < n) × (pos n h d ≡ p)
  pos_hit h p lh lp = (
    (p + n - h) % n,
    mod-lt (p + n - h) some_slots,
    (add-mod-mod h (p + n - h) n ∙ ap (λ (t : ℕ). t % n) (omega arith))
        ∙ (add-mod_right p n ∙ mod-eq_of_lt lp),
  )

  Outcome-step :
      (test : ℕ → Bool) (rounds h : ℕ) (out : Option ℕ)
      → h < n
      → test h ≡ false
      → Outcome n test rounds (pos n h 1) out
      → Outcome n test (suc rounds) h out
  Outcome-step test rounds h out lt here (missed e before) = missed e (λ d l. shift d l)
    where
      shift : (d : ℕ) → d < suc rounds → test (pos n h d) ≡ false
      shift zero l = rw (pos-zero h lt) here
      shift (suc d) l = rw (← pos-suc h d) (before d (omega arith))
  Outcome-step test rounds h out lt here (stopped d l e hit before) =
      stopped (suc d) (omega arith) (rw (← pos-suc h d) e) (rw (← pos-suc h d) hit) shift
    where
      shift : (e : ℕ) → e < suc d → test (pos n h e) ≡ false
      shift zero l = rw (pos-zero h lt) here
      shift (suc e) l = rw (← pos-suc h e) (before e (omega arith))

  module _ (t : List Slot) where
    pub probe-Outcome :
        (key rounds h : ℕ) → h < n → Outcome n (stops t key) rounds h (probe t (n - 1) key rounds h)
    unfolding probe
    probe-Outcome key zero h lt = missed refl (λ d l. elim l [ ])
    probe-Outcome key (suc rounds) h lt = elim (Bool-cases (stops t key h)) [
      | inl hit ↦
          stopped 0 (omega arith) (rw (hit, pos-zero h lt)) (rw (pos-zero h lt) hit)
            (λ e l. elim l [ ])
      | inr pass ↦
          rw (pass, advance_lem h lt)
            (Outcome-step (stops t key) rounds h (probe t (n - 1) key rounds (pos n h 1)) lt pass
              (probe-Outcome key rounds (pos n h 1) (mod-lt (h + 1) some_slots)))
    ]

    -- The loop returns the first slot on the way at which it stops.
    pub probe_first :
        (key d rounds h : ℕ)
        → h < n
        → d < rounds
        → stops t key (pos n h d) ≡ true
        → ((e : ℕ) → e < d → stops t key (pos n h e) ≡ false)
        → probe t (n - 1) key rounds h ≡ some (pos n h d)
    unfolding probe
    probe_first key d zero h lt l hit before = elim l [ ]
    probe_first key zero (suc rounds) h lt l hit before =
        let here : stops t key h ≡ true = rw (pos-zero h lt) at hit in rw (pos-zero h lt, here)
    probe_first key (suc d) (suc rounds) h lt l hit before =
        let here : stops t key h ≡ false = rw (pos-zero h lt) at (before 0 (omega arith)) in
        rw (here, advance_lem h lt, ← pos-suc h d)
          (probe_first key d rounds (pos n h 1) (mod-lt (h + 1) some_slots) (omega arith)
            (rw (pos-suc h d) hit) (λ e le. rw (pos-suc h e) (before (suc e) (omega arith))))

    -- For a key that no slot has, the `while` of the rehashing and the probe loop agree.
    pub free_from-eq-probe :
        (key : ℕ)
        → ((i : ℕ) → key_at t i ≢ key)
        → (rounds h : ℕ) → free_from t (n - 1) rounds h ≡ probe t (n - 1) key rounds h
    unfolding free_from probe
    free_from-eq-probe key fresh zero h = refl
    free_from-eq-probe key fresh (suc rounds) h =
        ground (arith, fresh h, free_from-eq-probe key fresh rounds (advance (n - 1) h))
