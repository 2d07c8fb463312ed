-- ===== src/StoplessHeap/Service.antt =====
-- stoplessHeap.cpp: `StoplessHeap::collect` and `stop`, and a round of the collector's thread.
-- `should_terminate` is the VM's: a parameter, asked by the number of the question. What is logged is
-- left out.
use stopless_java_gc.Base.{
  ℕ, zero, suc, ◌+◌, ◌-◌, ◌*◌, ◌≤◌, ◌<◌, ◌≡◌, ◌⊎◌, refl, sym, ap, subst, inl, inr, Bool, true,
  false, Option, none, some, List, [], ◌∷◌, ◌++◌, ltb, if◌then◌else◌, min, arith, Bool-cases,
}
use stopless_java_gc.Cheri.{Cheri}
use stopless_java_gc.Revoke.Calls.{Kernel, Memory}
use stopless_java_gc.StoplessHeap.{Vm}
use stopless_java_gc.StoplessHeap.Collect.{
  Jvm, CycleEnv, Pause, resumes, dies, hangs, doit, close_call, after_close,
}
use stopless_java_gc.StoplessHeap.Marks.{took}
use stopless_java_gc.StoplessHeap.Cycles.{Reach, idle, next, collect, test, close, clear}

-- `GCCause::Cause`, as far as `collect` tells causes apart
pub data Cause : Type 0 where
  metadata_gc_threshold metadata_gc_clear_soft_refs java_lang_system_gc : Cause
  other_cause : ℕ → Cause

-- What a request comes to: the VM raises the threshold of its metaspace, or the threads pause.
pub data Request (K Cap W : Type 0) : Type 0 where
  raises_threshold : Request K Cap W
  pauses : Pause K Cap W → Request K Cap W

-- The loop that sleeps for the period: the lengths of the sleeps, `none` if the rounds run out.
unfoldable pub naps : (ℕ → Bool) → ℕ → ℕ → ℕ → ℕ → Option (List ℕ)
naps should_terminate interval zero poll slept = none
naps should_terminate interval (suc rounds) poll slept =
    let chunk = min (interval - slept) 200 in
    let rest = naps should_terminate interval rounds (poll + 1) (slept + chunk) in
    if ltb slept interval
    then if should_terminate poll
      then some []
      else elim rest [ none ↦ none | some chunks ↦ some (chunk ∷ chunks) ]
    else some []

module _ {K Cap W : Type 0} ⦃ch : Cheri Cap⦄ ⦃os : Kernel K⦄ (mem : Memory K Cap) (vm : Vm Cap)
    (memory : Bool) (env : CycleEnv) where
  -- `StoplessHeap::collect`
  unfoldable pub collect_for : Cause → Jvm K Cap W → List (Option Cap) → Request K Cap W
  collect_for metadata_gc_threshold h roots = raises_threshold
  collect_for metadata_gc_clear_soft_refs h roots = raises_threshold
  collect_for java_lang_system_gc h roots = pauses (doit mem vm memory env h roots)
  collect_for (other_cause n) h roots = pauses (doit mem vm memory env h roots)

  -- `StoplessHeap::stop`; the Boolean tells whether STOPLESS_ROOTSCAN_AT_EXIT is set
  unfoldable pub stop : Bool → Jvm K Cap W → List (Option Cap) → Option (Request K Cap W)
  unfolding collect_for
  stop at_exit h roots = if at_exit then some (collect_for java_lang_system_gc h roots) else none

  -- the close of an epoch after the pause, if one is due
  unfoldable pub close_pending_epoch : Jvm K Cap W → Jvm K Cap W
  unfolding after_close
  close_pending_epoch h =
      let (crc, h') = close_call env.revoke_env h in
      if h.close_pending then after_close crc h' else h

  -- a round of `run_service` after its sleep
  unfoldable pub service_round : Jvm K Cap W → List (Option Cap) → Pause K Cap W
  unfolding close_pending_epoch
  service_round h roots = elim (doit mem vm memory env h roots) [
    | resumes h' m roots' n swept ↦ resumes (close_pending_epoch h') m roots' n swept
    | dies ↦ dies
    | hangs ↦ hangs
  ]

abbrev pub total : List ℕ → ℕ
total [] = 0
total (n ∷ ns) = n + total ns

-- Every sleep of the list is of at most 200 ms.
abbrev pub AllShort : List ℕ → Type 0
AllShort [] = Unit
AllShort (n ∷ ns) = (n ≤ 200) × AllShort ns

-- The sleeps of a period: short ones, and the whole period unless the thread is told to end.
pub record Sleeps (should_terminate : ℕ → Bool) (interval rounds poll slept : ℕ) : Type 0 where
  pub chunks : List ℕ
  pub run : naps should_terminate interval rounds poll slept ≡ some chunks
  pub short : AllShort chunks
  pub whole :
      (slept + total chunks ≡ interval)
      ⊎ ((i : ℕ) × (poll ≤ i) × (should_terminate i ≡ true) × (slept + total chunks ≤ interval))

module _ (should_terminate : ℕ → Bool) (interval : ℕ) where
  naps-Sleeps :
      (rounds poll slept : ℕ)
      → slept ≤ interval
      → interval + 200 ≤ slept + 200 * rounds
      → Sleeps should_terminate interval rounds poll slept
  unfolding naps
  naps-Sleeps zero poll slept below enough = absurd (omega arith)
  naps-Sleeps (suc rounds) poll slept below enough = elim (Bool-cases (ltb slept interval)) [
    | inr over ↦ record {
      chunks = [];
      run = rw over refl;
      short = tt;
      whole = inl (ground (arith, over));
    }
    | inl under ↦ elim (Bool-cases (should_terminate poll)) [
      | inl ends ↦ record {
        chunks = [];
        run = rw (under, ends) refl;
        short = tt;
        whole = inr (poll, omega arith, ends, omega arith);
      }
      | inr goes ↦
          let chunk = min (interval - slept) 200 in
          let less : slept < interval = ground (arith, under) in
          let s = naps-Sleeps rounds (poll + 1) (slept + chunk) (omega arith) (omega arith) in
          record {
            chunks = chunk ∷ s.chunks;
            run = rw (under, goes, s.run) refl;
            short = (omega arith, s.short);
            whole = elim s.whole [
              | inl all ↦ inl (omega (arith, all))
              | inr (i, later, ends, part) ↦ inr (i, omega arith, ends, omega (arith, part))
            ];
          }
    ]
  ]

  -- With a round for every 200 ms and one more the loop that sleeps ends: no sleep is longer than 200
  -- ms, and they add up to the period, or to no more where the thread was told to end.
  pub naps_end :
      (rounds : ℕ) → interval + 200 ≤ 200 * rounds → Sleeps should_terminate interval rounds 0 0
  naps_end rounds enough = naps-Sleeps rounds 0 0 (omega arith) (omega arith)

module _ {K Cap W : Type 0} ⦃ch : Cheri Cap⦄ ⦃os : Kernel K⦄ (mem : Memory K Cap) (vm : Vm Cap)
    (memory : Bool) (env : CycleEnv) where
  -- a round's close is a test of the flag, a call and what follows it
  close_run :
      (h : Jvm K Cap W)
      → h.close_pending ≡ true
      → close_pending_epoch mem vm memory env h
        ≡ after_close (close_call env.revoke_env h).0 (close_call env.revoke_env h).1
  unfolding close_pending_epoch after_close
  close_run h e =
      let done = after_close (close_call env.revoke_env h).0 (close_call env.revoke_env h).1 in
      ap (λ (b : Bool). if b then done else h) e

  close_skips :
      (h : Jvm K Cap W) → h.close_pending ≡ false → close_pending_epoch mem vm memory env h ≡ h
  unfolding close_pending_epoch after_close
  close_skips h e =
      let done = after_close (close_call env.revoke_env h).0 (close_call env.revoke_env h).1 in
      ap (λ (b : Bool). if b then done else h) e

  closes :
      {start h : Jvm K Cap W} {old : List Cap}
      → Reach mem vm env start h idle old
      → Reach mem vm env start (close_pending_epoch mem vm memory env h) idle old
  closes {start} {h} {old} r = elim (Bool-cases h.close_pending) [
    | inr e ↦ subst (λ x. Reach mem vm env start x idle old) (sym (close_skips h e)) r
    | inl e ↦
        subst (λ x. Reach mem vm env start x idle old) (sym (close_run h e))
          (next (next (next r (test e)) close) (clear (close_call env.revoke_env h).0))
  ]

  -- of a pause: if the threads run on, steps lead there
  abbrev Rounds : Jvm K Cap W → K → List Cap → Pause K Cap W → Type 0
  Rounds start k old (resumes h m roots n swept) =
      Reach mem vm env start h idle (took mem m.space.arena m.moved_from k ++ old)
  Rounds start k old dies = Unit
  Rounds start k old hangs = Unit

  round_of :
      {start h : Jvm K Cap W} {old : List Cap} (roots : List (Option Cap)) (p : Pause K Cap W)
      → Reach mem vm env start h idle old
      → doit mem vm memory env h roots ≡ p
      → Rounds start h.globals.kernel old (elim p [
        | resumes h' m roots' n swept ↦
            resumes (close_pending_epoch mem vm memory env h') m roots' n swept
        | dies ↦ dies
        | hangs ↦ hangs
      ])
  round_of roots (resumes h' m roots' n swept) r run =
      closes (next r (collect memory roots roots' h' m n swept idle run))
  round_of roots dies r run = tt
  round_of roots hangs r run = tt

  -- A round of the collector's thread is such steps.
  pub service_round-Rounds :
      {start h : Jvm K Cap W} {old : List Cap} (roots : List (Option Cap))
      → Reach mem vm env start h idle old
      → Rounds start h.globals.kernel old (service_round mem vm memory env h roots)
  unfolding service_round
  service_round-Rounds {start} {h} roots r = round_of roots (doit mem vm memory env h roots) r refl
