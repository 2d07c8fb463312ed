-- ===== src/StoplessHeap/Publish.antt =====
-- stoplessHeap.cpp, the end of a cycle under STOPLESS_REVOKE_CONCURRENT: no thread runs again before
-- the barrier holds for every old copy that has been marked.
use mathlib.Core.Bool.{true≢false}
use stopless_java_gc.Base.{
  ℕ, zero, suc, ◌≡◌, refl, sym, subst, Bool, true, false, inl, inr, Option, none, some, List, [],
  ◌∷◌, ◌++◌, Bool-cases,
}
use stopless_java_gc.Base.Int.{ℤ, pos, negsuc, is_zero}
use stopless_java_gc.Cheri.{Cheri}
use stopless_java_gc.Arena.{Arena}
use stopless_java_gc.Revoke.Calls.{Kernel, Memory}
use stopless_java_gc.Revoke.{Globals, Env, revoke_now, revoke_open}
use stopless_java_gc.StoplessHeap.Collect.{
  Jvm, Revoked, revoked, fatal, with_marks, publish, revoke_sweep,
}
use stopless_java_gc.StoplessHeap.Scan.{shadow_of}
use stopless_java_gc.StoplessHeap.Barrier.{Shut, Barrier, revoke_now-cri, revoke_open_cases}
use stopless_java_gc.StoplessHeap.Marks.{
  took, AllGuarded, swept-Shut, publish_opened, publish_swept,
}

-- a code of 0
zero_code : (n : ℤ) → is_zero n ≡ true → n ≡ pos 0
zero_code (pos zero) e = refl
zero_code (pos (suc n)) e = absurd (true≢false (sym e))
zero_code (negsuc n) e = absurd (true≢false (sym e))

module _ {K Cap : Type 0} ⦃ch : Cheri Cap⦄ ⦃os : Kernel K⦄ {mem : Memory K Cap} {shadow : Cap}
    (law : Barrier mem shadow) where
  -- A heap whose threads may run: the barrier holds for the old copies, and no epoch is open unless
  -- a close is pending.
  pub record Sound {W : Type 0} (old : List Cap) (h : Jvm K Cap W) : Type 0 where
    pub bitmap : shadow_of h.space.arena ≡ some shadow
    pub cri : h.globals.cri ≡ true
    pub shut : h.close_pending ≡ false → Shut h.globals.kernel
    pub guards : AllGuarded law old h.globals.kernel

  -- `Sound` of the heap that a revocation leaves, if the threads may run again
  abbrev Runs : {W : Type 0} → List Cap → Revoked K Cap W → Type 0
  Runs old (revoked h n swept) = Sound old h
  Runs old fatal = Unit

  revoke_sweep_run :
      (a : Option (Arena Cap)) (g : Globals K)
      → shadow_of a ≡ some shadow
      → revoke_sweep a g ≡ revoke_now g
  unfolding revoke_sweep
  revoke_sweep_run none g there =
      absurd (let q : ◌≡◌ {A = Option Cap} none (some shadow) = there in cc)
  revoke_sweep_run (some a) g there = refl

  publish-Runs :
      {W : Type 0} (env : Env) (h : Jvm K Cap W) (c : Cap) (cs old : List Cap)
      → Sound old h
      → h.close_pending ≡ false
      → Runs (took mem h.space.arena (c ∷ cs) h.globals.kernel ++ old) (publish mem env h (c ∷ cs))
  unfolding publish
  publish-Runs env h c cs old sound ended =
      let g₀ = with_marks mem h (c ∷ cs) in
      let g = (revoke_open env g₀).1 in
      elim (revoke_open_cases env g₀ sound.cri) [
        | inl (z, op) ↦ rw z (record {
          bitmap = sound.bitmap;
          cri = op.cri;
          shut = λ e. absurd (true≢false e);
          guards =
              publish_opened law h.space.arena sound.bitmap h (c ∷ cs) old g refl (sound.shut ended)
                sound.guards op;
        })
        | inr (z, r) ↦
            rw (z, revoke_sweep_run h.space.arena g sound.bitmap)
              (elim (Bool-cases (is_zero (revoke_now g).0)) [
                | inr failed ↦ rw failed tt
                | inl fine ↦
                    let done = zero_code (revoke_now g).0 fine in
                    rw fine (record {
                      bitmap = sound.bitmap;
                      cri = revoke_now-cri g r.cri;
                      shut = λ e. swept-Shut law g r.cri done;
                      guards =
                          publish_swept law h.space.arena sound.bitmap h (c ∷ cs) old g refl
                            sound.guards r done;
                    })
              ])
      ]

  -- From a heap whose threads may run: when the threads run again after the marks and the calls of a
  -- cycle, the barrier holds for the copies that this cycle marked as well. A cycle with a close
  -- pending has left none.
  pub publish-Sound :
      {W : Type 0} (env : Env) (h h' : Jvm K Cap W) (cs old : List Cap) (n : ℕ) (swept : Bool)
      → Sound old h
      → (h.close_pending ≡ true → cs ≡ [])
      → publish mem env h cs ≡ revoked h' n swept
      → Sound (took mem h.space.arena cs h.globals.kernel ++ old) h'
  unfolding publish
  publish-Sound env h h' [] old n swept sound none_moved run = subst (Runs old) run sound
  publish-Sound env h h' (c ∷ cs) old n swept sound none_moved run =
      elim (Bool-cases h.close_pending) [
        | inl pending ↦ absurd (let q = none_moved pending in cc)
        | inr ended ↦
            subst (Runs (took mem h.space.arena (c ∷ cs) h.globals.kernel ++ old)) run
              (publish-Runs env h c cs old sound ended)
      ]
