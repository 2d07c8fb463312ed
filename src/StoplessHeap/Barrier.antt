-- ===== src/StoplessHeap/Barrier.antt =====
-- What <cheri/revoke.h> documents of the load barrier of an epoch, and what the calls of a cycle make
-- of it: marks, `stopless_revoke_open`, `stopless_revoke_now`, `stopless_revoke_close`.
use mathlib.Core.Bool.{true≢false}
use stopless_java_gc.Base.{
  ℕ, zero, suc, ◌≡◌, refl, sym, ◌∙◌, Bool, true, false, ◌||◌, ◌⊎◌, inl, inr, ltb, arith, Bool-cases,
}
use stopless_java_gc.Base.Int.{is_zero}
use stopless_java_gc.Cheri.{Cheri}
use stopless_java_gc.Revoke.Calls.{Kernel, Memory, open_and_close, open_only, last_pass, Flags}
use stopless_java_gc.Revoke.{
  Globals, Env, cleared, wait, open_epoch, close_epoch, ensure_cri, fault_budget, revoke_now,
  revoke_open, revoke_close,
}
use stopless_java_gc.Collector.Cycle.{Passes, no_pass, pass}

-- no epoch is open
abbrev pub Shut : {K : Type 0} → ⦃os : Kernel K⦄ → K → Type 0
Shut ⦃os⦄ k = os.clears (os.dequeue k) (os.enqueue k) ≡ true

-- `cheri_revoke` to open an epoch: the kernel after it, and whether it advanced or returned 0
abbrev pub opening : {K : Type 0} → ⦃os : Kernel K⦄ → K → K
opening ⦃os⦄ k = (os.revoke open_only (os.enqueue k) k).1

abbrev pub advanced : {K : Type 0} → ⦃os : Kernel K⦄ → K → Bool
advanced ⦃os⦄ k =
    ltb (os.enqueue k) (os.enqueue (opening k)) || is_zero (os.revoke open_only (os.enqueue k) k).0

-- `guarded a k`: no load gives a valid capability without SW_VMEM whose base is `a`; those with it,
-- such as the arena's own, are not revoked. The kernel's promises are on the marks that are there when
-- an epoch opens, while none is open.
pub record Barrier {K Cap : Type 0} ⦃ch : Cheri Cap⦄ ⦃os : Kernel K⦄ (mem : Memory K Cap)
    (shadow : Cap) : Type 0 where
  pub guarded : ℕ → K → Bool
  -- marking an object marks its base if the call returns 0, takes no mark away and leaves the epochs
  pub marked-set_cap :
      (b : ℕ) (c : Cap) (k : K)
      → is_zero (mem.set_cap b shadow c k).0 ≡ true
      → mem.marked shadow (ch.base c) (mem.set_cap b shadow c k).1 ≡ true
  pub marks-set_cap :
      (b : ℕ) (c : Cap) (k : K) (a : ℕ)
      → mem.marked shadow a k ≡ true
      → mem.marked shadow a (mem.set_cap b shadow c k).1 ≡ true
  pub guarded-set_cap :
      (b : ℕ) (c : Cap) (k : K) (a : ℕ)
      → guarded a k ≡ true
      → guarded a (mem.set_cap b shadow c k).1 ≡ true
  pub Shut-set_cap : (b : ℕ) (c : Cap) (k : K) → Shut k → Shut (mem.set_cap b shadow c k).1
  -- a revocation call takes no mark away and lets no revoked capability through
  pub marks-revoke :
      (f : Flags) (target : ℕ) (k : K) (a : ℕ)
      → mem.marked shadow a k ≡ true
      → mem.marked shadow a (os.revoke f target k).1 ≡ true
  pub guarded-revoke :
      (f : Flags) (target : ℕ) (k : K) (a : ℕ)
      → guarded a k ≡ true
      → guarded a (os.revoke f target k).1 ≡ true
  pub enqueue-last_pass :
      (target : ℕ) (k : K) → os.enqueue (os.revoke last_pass target k).1 ≡ os.enqueue k
  -- opening an epoch arms the barrier for the marks, or opens nothing
  pub guarded-opening :
      (k : K) (a : ℕ)
      → Shut k
      → advanced k ≡ true
      → mem.marked shadow a k ≡ true
      → guarded a (opening k) ≡ true
  pub Shut-opening : (k : K) → Shut k → advanced k ≡ false → Shut (opening k)
  -- a whole sweep that clears leaves no capability to what was marked
  pub guarded-swept :
      (k k' : K) (a : ℕ)
      → mem.marked shadow a k ≡ true
      → Passes (os.revoke open_and_close (os.enqueue k) k).1 k'
      → os.clears (os.dequeue k') (os.enqueue (os.revoke open_and_close (os.enqueue k) k).1) ≡ true
      → guarded a k' ≡ true

or_false : (a b : Bool) → (a || b) ≡ false → b ≡ false
or_false false b e = e
or_false true b e = absurd (true≢false e)

module _ {K : Type 0} ⦃os : Kernel K⦄ where
  wait-Passes : (rounds target : ℕ) {k₀ k : K} → Passes k₀ k → Passes k₀ (wait rounds target k)
  unfolding wait
  wait-Passes zero target p = p
  wait-Passes (suc rounds) target {k₀} {k} p = elim (Bool-cases (cleared target k)) [
    | inl e ↦ rw e p
    | inr e ↦ rw e (wait-Passes rounds target (pass target p))
  ]

  close_epoch-Passes : (k : K) → Passes k (close_epoch k).1
  unfolding close_epoch
  close_epoch-Passes k = wait-Passes 10 (os.enqueue k) (pass (os.enqueue k) no_pass)

  -- What `stopless_revoke_close` leaves: closing passes only, and `g_cri`.
  pub revoke_close-Passes :
      (env : Env) (g : Globals K)
      → g.cri ≡ true
      → Passes g.kernel (revoke_close env g).1.kernel × ((revoke_close env g).1.cri ≡ true)
  unfolding revoke_close ensure_cri
  revoke_close-Passes env g ready = elim (Bool-cases (fault_budget env.env_close g.fault_close).0) [
    | inl e ↦ rw e (no_pass, ready)
    | inr e ↦ rw (e, ready) (close_epoch-Passes g.kernel, refl)
  ]

  -- a `stopless_revoke_close` that returns 0 has cleared the epoch
  pub revoke_close_zero :
      (env : Env) (g : Globals K)
      → g.cri ≡ true
      → is_zero (revoke_close env g).0 ≡ true
      → cleared (os.enqueue g.kernel) (revoke_close env g).1.kernel ≡ true
  unfolding revoke_close ensure_cri close_epoch
  revoke_close_zero env g ready z = elim (Bool-cases (fault_budget env.env_close g.fault_close).0) [
    | inl e ↦ absurd (true≢false (sym z ∙ rw e refl))
    | inr e ↦ ground (arith, e, ready, z)
  ]

  pub revoke_now-cri : (g : Globals K) → g.cri ≡ true → (revoke_now g).1.cri ≡ true
  unfolding revoke_now ensure_cri
  revoke_now-cri g ready = rw ready refl

  -- What `stopless_revoke_open` comes to: it returns 0 and the call advanced or returned 0; or it
  -- fails, before the call or by it.
  pub record Open (g g' : Globals K) : Type 0 where
    pub cri : g'.cri ≡ true
    pub kernel : g'.kernel ≡ opening g.kernel
    pub advances : advanced g.kernel ≡ true

  pub record Refused (g g' : Globals K) : Type 0 where
    pub cri : g'.cri ≡ true
    pub kernel :
        (g'.kernel ≡ g.kernel) ⊎ ((g'.kernel ≡ opening g.kernel) × (advanced g.kernel ≡ false))

  pub revoke_open_cases :
      (env : Env) (g : Globals K)
      → g.cri ≡ true
      → ((is_zero (revoke_open env g).0 ≡ true) × Open g (revoke_open env g).1)
        ⊎ ((is_zero (revoke_open env g).0 ≡ false) × Refused g (revoke_open env g).1)
  unfolding revoke_open ensure_cri open_epoch
  revoke_open_cases env g ready = elim (Bool-cases (fault_budget env.env_open g.fault_open).0) [
    | inl e ↦ rw e (inr (refl, record { cri = ready; kernel = inl refl }))
    | inr e ↦ elim (Bool-cases (advanced g.kernel)) [
      | inl on ↦ rw (e, ready, on) (inl (refl, record { cri = refl; kernel = refl; advances = on }))
      | inr off ↦
          rw (e, ready, off)
            (inr (or_false _ _ off, record { cri = refl; kernel = inr (refl, off) }))
    ]
  ]
