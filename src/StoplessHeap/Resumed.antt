-- ===== src/StoplessHeap/Resumed.antt =====
-- stoplessHeap.cpp, `doit`: the revocation leaves the arena, the table and the words of the heap alone.
use stopless_java_gc.Base.{ℕ, ◌≡◌, refl, inl, inr, Option, List, [], ◌∷◌, arith, Bool-cases}
use stopless_java_gc.Base.Int.{is_zero}
use stopless_java_gc.Cheri.{Cheri}
use stopless_java_gc.Revoke.Calls.{Kernel, Memory}
use stopless_java_gc.Revoke.{revoke_open}
use stopless_java_gc.StoplessHeap.{Space, Mover}
use stopless_java_gc.StoplessHeap.Collect.{
  Jvm, CycleEnv, Pause, resumes, dies, hangs, Revoked, revoked, fatal, batch_of, publish, batched,
  revoke_phase, end_cycle, revoke_sweep, with_marks,
}

module _ {K Cap W : Type 0} ⦃ch : Cheri Cap⦄ ⦃os : Kernel K⦄ (mem : Memory K Cap) where
  -- of what a revocation comes to: the space as it was
  abbrev pub SameSpace : Space Cap W → Revoked K Cap W → Type 0
  SameSpace x (revoked h n swept) = h.space ≡ x
  SameSpace x fatal = Unit

  publish-SameSpace :
      (env : CycleEnv) (h : Jvm K Cap W) (os' : List Cap)
      → SameSpace h.space (publish mem env.revoke_env h os')
  unfolding publish
  publish-SameSpace env h [] = refl
  publish-SameSpace env h (o ∷ rest) =
      let r = revoke_open env.revoke_env (with_marks mem h (o ∷ rest)) in
      elim (Bool-cases (is_zero r.0)) [
        | inl e ↦ rw e refl
        | inr e ↦ elim (Bool-cases (is_zero (revoke_sweep h.space.arena r.1).0)) [
          | inl e' ↦ rw (e, e') refl
          | inr e' ↦ rw (e, e') tt
        ]
      ]

  batched-SameSpace :
      (batch : ℕ) (h : Jvm K Cap W) (os' : List Cap) → SameSpace h.space (batched mem batch h os')
  unfolding batched
  batched-SameSpace batch h os' = ground arith

  pub revoke_phase-SameSpace :
      (env : CycleEnv) (h : Jvm K Cap W) (os' : List Cap)
      → SameSpace h.space (revoke_phase mem env h os')
  unfolding revoke_phase
  revoke_phase-SameSpace env h os' = elim (Bool-cases env.no_revoke) [
    | inl e ↦ rw e refl
    | inr e ↦ elim (Bool-cases env.revoke_concurrent) [
      | inl c ↦ rw (e, c) (publish-SameSpace env h os')
      | inr c ↦ rw (e, c) (batched-SameSpace (batch_of env.revoke_batch) h os')
    ]
  ]

  -- of a pause: if the threads run on, the space and the closure are these
  abbrev pub Continues : Space Cap W → Mover Cap W → Pause K Cap W → Type 0
  Continues x m (resumes h m' roots n swept) = (h.space ≡ x) × (m' ≡ m)
  Continues x m dies = Unit
  Continues x m hangs = Unit

  pub end_cycle-Continues :
      (x : Space Cap W) (m : Mover Cap W) (roots : List (Option Cap)) (v : Revoked K Cap W)
      → SameSpace x v
      → Continues x m (end_cycle m roots v)
  unfolding end_cycle
  end_cycle-Continues x m roots (revoked h n swept) e = (e, refl)
  end_cycle-Continues x m roots fatal e = tt
