-- ===== src/Revoke/Epoch.antt =====
-- `stopless_revoke_now` and `stopless_revoke_close` report success exactly when the epoch cleared, and
-- their wait loops are long enough.
use stopless_java_gc.Base.{ℕ, zero, suc, ◌≤◌, ◌≡◌, ◌↔◌, true, false, inl, inr, arith, Bool-cases}
use stopless_java_gc.Base.Int.{pos}
use stopless_java_gc.Revoke.Calls.{Kernel, open_and_close, last_pass}
use stopless_java_gc.Revoke.{
  Globals, Env, cleared, wait, close_epoch, sweep, revoke_close, revoke_now, fault_budget,
}

module _ {K : Type 0} ⦃os : Kernel K⦄ where
  close_epoch_iff :
      (k : K) → ((close_epoch k).0 ≡ pos 0) ↔ (cleared (os.enqueue k) (close_epoch k).1 ≡ true)
  unfolding close_epoch
  close_epoch_iff k = ground arith

  sweep_sound :
      (k : K)
      → (sweep k).0 ≡ pos 0
      → cleared (os.enqueue (os.revoke open_and_close (os.enqueue k) k).1) (sweep k).1 ≡ true
  unfolding sweep
  sweep_sound k e = ground arith

  -- the kernel after so many closing passes
  abbrev pub passed : ℕ → ℕ → K → K
  passed zero target k = k
  passed (suc n) target k = passed n target (os.revoke last_pass target k).1

  -- the epoch has cleared after at least one closing pass and at most so many
  abbrev pub ClearsWithin : ℕ → ℕ → K → Type 0
  ClearsWithin most target k =
      (n : ℕ) × (1 ≤ n) × (n ≤ most) × (cleared target (passed n target k) ≡ true)

  wait_finds :
      (rounds target : ℕ) (k : K)
      → cleared target (wait rounds target k) ≡ true
      → (n : ℕ) × (n ≤ rounds) × (cleared target (passed n target k) ≡ true)
  unfolding wait
  wait_finds zero target k e = (0, omega arith, e)
  wait_finds (suc rounds) target k e = elim (Bool-cases (cleared target k)) [
    | inl here ↦ (0, omega arith, here)
    | inr more ↦
        let later : cleared target (wait rounds target (os.revoke last_pass target k).1) ≡ true =
          ground (arith, more, e) in
        let (n, le, found) = wait_finds rounds target (os.revoke last_pass target k).1 later in
        (suc n, omega arith, found)
  ]

  wait_reaches :
      (rounds target n : ℕ) (k : K)
      → n ≤ rounds
      → cleared target (passed n target k) ≡ true
      → cleared target (wait rounds target k) ≡ true
  unfolding wait
  wait_reaches zero target zero k le found = found
  wait_reaches zero target (suc n) k le found = absurd (omega arith)
  wait_reaches (suc rounds) target zero k le found = rw (found, found)
  wait_reaches (suc rounds) target (suc n) k le found = elim (Bool-cases (cleared target k)) [
    | inl here ↦ rw (here, here)
    | inr more ↦
        rw more (wait_reaches rounds target n (os.revoke last_pass target k).1 (omega arith) found)
  ]

  wait-ClearsWithin :
      (target : ℕ) (k : K)
      → ClearsWithin 11 target k
      → cleared target (wait 10 target (os.revoke last_pass target k).1) ≡ true
  wait-ClearsWithin target k (zero, some_pass, le, found) = absurd (omega arith)
  wait-ClearsWithin target k (suc n, some_pass, le, found) =
      wait_reaches 10 target n (os.revoke last_pass target k).1 (omega arith) found

  revoke_close_closed :
      (env : Env) (g : Globals K)
      → g.cri ≡ true
      → (fault_budget env.env_close g.fault_close).0 ≡ false
      → let target = os.enqueue g.kernel in
        ((revoke_close env g).0 ≡ pos 0)
        ↔ (cleared target (wait 10 target (os.revoke last_pass target g.kernel).1) ≡ true)
  unfolding revoke_close close_epoch
  revoke_close_closed env g ready allowed = ground arith

  -- `stopless_revoke_close` with no failure injected and the information page at hand returns 0
  -- exactly if the epoch that was open at the call has cleared after one closing pass or after any
  -- number up to eleven of them.
  pub revoke_close_iff :
      (env : Env) (g : Globals K)
      → g.cri ≡ true
      → (fault_budget env.env_close g.fault_close).0 ≡ false
      → ((revoke_close env g).0 ≡ pos 0) ↔ ClearsWithin 11 (os.enqueue g.kernel) g.kernel
  revoke_close_iff env g ready allowed =
      let target = os.enqueue g.kernel in
      let k = (os.revoke last_pass target g.kernel).1 in
      let (there, back) = revoke_close_closed env g ready allowed in
      (
        λ zero_returned.
            let (n, le, found) = wait_finds 10 target k (there zero_returned) in
            (suc n, omega arith, omega arith, found),
        λ clears. back (wait-ClearsWithin target g.kernel clears),
      )

  -- `stopless_revoke_now` with the information page at hand returns 0 only if the epoch that its
  -- opening pass left has cleared.
  pub revoke_now_sound :
      (g : Globals K)
      → g.cri ≡ true
      → (revoke_now g).0 ≡ pos 0
      → cleared
          (os.enqueue (os.revoke open_and_close (os.enqueue g.kernel) g.kernel).1)
          (revoke_now g).1.kernel
        ≡ true
  unfolding revoke_now
  revoke_now_sound g ready e = ground arith
