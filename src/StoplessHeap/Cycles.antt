-- ===== src/StoplessHeap/Cycles.antt =====
-- stoplessHeap.cpp under STOPLESS_REVOKE_CONCURRENT: cycles at safepoints, the collector's thread that
-- closes epochs, and the threads of the program between them. A cycle is one step: while it runs, no
-- other thread but the collector's does, and that one touches the kernel only with a close pending,
-- when the cycle does not.
use mathlib.Core.Bool.{true≢false}
use stopless_java_gc.Base.{
  ℕ, ◌<◌, ◌≡◌, sym, subst, ◌∙◌, Bool, true, false, inl, inr, Option, some, List, [], ◌++◌, word,
  Bool-cases,
}
use stopless_java_gc.Base.Int.{ℤ, is_zero}
use stopless_java_gc.Cheri.{Cheri}
use stopless_java_gc.Revoke.Calls.{Kernel, Memory}
use stopless_java_gc.Revoke.{Globals}
use stopless_java_gc.StoplessHeap.{Space, Vm, Mover}
use stopless_java_gc.StoplessHeap.Collect.{Jvm, CycleEnv, resumes, doit, close_call, after_close}
use stopless_java_gc.StoplessHeap.Scan.{shadow_of}
use stopless_java_gc.StoplessHeap.Pauses.{Idles, Ends, doit-Ends}
use stopless_java_gc.StoplessHeap.Barrier.{Shut, Barrier, revoke_close-Passes, revoke_close_zero}
use stopless_java_gc.StoplessHeap.Marks.{
  took, AllGuarded, AllGuarded-map, Passes-guarded, Passes-enqueue,
}
use stopless_java_gc.StoplessHeap.Publish.{Sound}

-- Where the collector's thread is: before its test of the flag, before `stopless_revoke_close`, or
-- after it with its result.
pub data Phase : Type 0 where
  idle : Phase
  closing : Phase
  closed : ℤ → Phase

module _ {K Cap W : Type 0} ⦃ch : Cheri Cap⦄ ⦃os : Kernel K⦄ (mem : Memory K Cap) (vm : Vm Cap)
    (env : CycleEnv) where
  -- `Step h ph old h' ph' old'`; `old` lists the copies left behind whose marks returned 0.
  pub data Step (h : Jvm K Cap W) (old : List Cap)
      : Phase → Jvm K Cap W → Phase → List Cap → Type 0 where
    -- a cycle, started by the collector's thread or by System.gc
    collect :
        (memory : Bool) (roots roots' : List (Option Cap)) (h' : Jvm K Cap W) (m : Mover Cap W)
        (n : ℕ) (swept : Bool) (ph : Phase)
        → doit mem vm memory env h roots ≡ resumes h' m roots' n swept
        → Step h old ph h' ph (took mem m.space.arena m.moved_from h.globals.kernel ++ old)
    -- the program allocates, writes, and faults
    mutate :
        (space : Space Cap W) (ph : Phase)
        → shadow_of space.arena ≡ shadow_of h.space.arena
        → Step h old ph (record h { space = space }) ph old
    test : h.close_pending ≡ true → Step h old idle h closing old
    close :
        Step h old closing
          (close_call env.revoke_env h).1
          (closed (close_call env.revoke_env h).0)
          old
    clear : (crc : ℤ) → Step h old (closed crc) (after_close crc h) idle old

  pub data Reach (start : Jvm K Cap W) : Jvm K Cap W → Phase → List Cap → Type 0 where
    begin : Reach start start idle []
    next :
        {h h' : Jvm K Cap W} {ph ph' : Phase} {old old' : List Cap}
        → Reach start h ph old
        → Step h old ph h' ph' old'
        → Reach start h' ph' old'

module _ {K Cap W : Type 0} ⦃ch : Cheri Cap⦄ ⦃os : Kernel K⦄ {mem : Memory K Cap} {shadow : Cap}
    (law : Barrier mem shadow) (vm : Vm Cap) (env : CycleEnv) (revokes : env.no_revoke ≡ false)
    (concurrent : env.revoke_concurrent ≡ true)
    (small : (n : ℕ) → env.move_limit ≡ some n → n < word) where
  -- what the collector's thread relies on between its steps
  abbrev Holds : Jvm K Cap W → Phase → Type 0
  Holds h idle = Unit
  Holds h closing = h.close_pending ≡ true
  Holds h (closed crc) = (h.close_pending ≡ true) × (is_zero crc ≡ true → Shut h.globals.kernel)

  Holds-Idles :
      (h h' : Jvm K Cap W) (m : Mover Cap W) (ph : Phase)
      → Idles law vm env revokes concurrent small h h' m
      → Holds h ph
      → Holds h' ph
  Holds-Idles h h' m idle i a = tt
  Holds-Idles h h' m closing i pending = let (nothing, same, flag) = i pending in flag
  Holds-Idles h h' m (closed crc) i (pending, shut) =
      let (nothing, same, flag) = i pending in
      (flag, λ z. subst (λ (g : Globals K). Shut g.kernel) (sym same) (shut z))

  Holds-mutate :
      (h : Jvm K Cap W) (space : Space Cap W) (ph : Phase)
      → Holds h ph
      → Holds (record h { space = space }) ph
  Holds-mutate h space idle a = tt
  Holds-mutate h space closing a = a
  Holds-mutate h space (closed crc) a = a

  close_call-Sound :
      (h : Jvm K Cap W) (old : List Cap)
      → Sound law old h
      → h.close_pending ≡ true
      → Sound law old (close_call env.revoke_env h).1
        × Holds (close_call env.revoke_env h).1 (closed (close_call env.revoke_env h).0)
  close_call-Sound h old sound pending =
      let (passes, cri) = revoke_close-Passes env.revoke_env h.globals sound.cri in
      (
        record {
          bitmap = sound.bitmap;
          cri = cri;
          shut = λ e. absurd (true≢false (sym pending ∙ e));
          guards = AllGuarded-map law old (Passes-guarded law passes) sound.guards;
        },
        (
          pending,
          λ z.
              rw (Passes-enqueue law passes)
                (revoke_close_zero env.revoke_env h.globals sound.cri z),
        ),
      )

  after_close-Sound :
      (h : Jvm K Cap W) (old : List Cap) (crc : ℤ)
      → Sound law old h
      → Holds h (closed crc)
      → Sound law old (after_close crc h)
  unfolding after_close
  after_close-Sound h old crc sound (pending, shut) = elim (Bool-cases (is_zero crc)) [
    | inr e ↦ rw e sound
    | inl e ↦ rw e (record {
      bitmap = sound.bitmap;
      cri = sound.cri;
      shut = λ x. shut e;
      guards = sound.guards;
    })
  ]

  Step-keeps :
      {h h' : Jvm K Cap W} {ph ph' : Phase} {old old' : List Cap}
      → Step mem vm env h old ph h' ph' old'
      → Sound law old h × Holds h ph
      → Sound law old' h' × Holds h' ph'
  Step-keeps {h} {old} (collect memory roots roots' h' m n swept ph run) (sound, holds) =
      let (sound', i) =
        subst (Ends law vm env revokes concurrent small old h) run
          (doit-Ends law vm env revokes concurrent small memory h old roots sound) in
      (sound', Holds-Idles h h' m ph i holds)
  Step-keeps {h} (mutate space ph same) (sound, holds) = (
    record {
      bitmap = same ∙ sound.bitmap;
      cri = sound.cri;
      shut = sound.shut;
      guards = sound.guards;
    },
    Holds-mutate h space ph holds,
  )
  Step-keeps (test pending) (sound, holds) = (sound, pending)
  Step-keeps {h} {old} close (sound, pending) = close_call-Sound h old sound pending
  Step-keeps {h} {old} (clear crc) (sound, holds) = (after_close-Sound h old crc sound holds, tt)

  Reach-keeps :
      {start h : Jvm K Cap W} {ph : Phase} {old : List Cap}
      → Sound law [] start
      → Reach mem vm env start h ph old
      → Sound law old h × Holds h ph
  Reach-keeps sound begin = (sound, tt)
  Reach-keeps sound (next r st) = Step-keeps st (Reach-keeps sound r)

  -- Under STOPLESS_REVOKE_CONCURRENT without STOPLESS_NO_REVOKE, with a move limit below 2 ^ 64 and
  -- a kernel that keeps what is documented of its load barrier, from a heap with its bitmap, with
  -- `g_cri` set and with no epoch open: after any sequence of cycles, of allocations and faults of
  -- the program and of steps of the collector's thread, failing revocation calls included, whenever
  -- the threads may run no load gives a valid capability without SW_VMEM to a copy that some cycle
  -- has left behind, if the call that was to mark it returned 0.
  pub cycles_stay_guarded :
      {start h : Jvm K Cap W} {ph : Phase} {old : List Cap}
      → shadow_of start.space.arena ≡ some shadow
      → start.globals.cri ≡ true
      → Shut start.globals.kernel
      → Reach mem vm env start h ph old
      → AllGuarded law old h.globals.kernel
  cycles_stay_guarded {start} bitmap cri shut r =
      let sound : Sound law [] start = record {
        bitmap = bitmap;
        cri = cri;
        shut = λ e. shut;
        guards = tt;
      } in
      (Reach-keeps sound r).0.guards
