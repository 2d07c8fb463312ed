-- ===== src/StoplessHeap/Pauses.antt =====
-- stoplessHeap.cpp: what a cycle under STOPLESS_REVOKE_CONCURRENT leaves, whether or not a close is
-- pending when it starts.
use stopless_java_gc.Base.{
  ℕ, ◌≤◌, ◌<◌, ◌≡◌, refl, sym, ap, subst, ◌∙◌, Bool, true, false, inl, inr, Option, none, some,
  List, [], ◌∷◌, ◌++◌, word, arith, Option-cases, length,
}
use stopless_java_gc.Cheri.{Cheri}
use stopless_java_gc.ForwardTable.{Table, maybe_grow}
use stopless_java_gc.Revoke.Calls.{Kernel, Memory}
use stopless_java_gc.Revoke.{Env}
use stopless_java_gc.StoplessHeap.{Vm, Mover, Scanned, scanned, scan_waits, scan_null, scan_roots}
use stopless_java_gc.StoplessHeap.Collect.{
  Jvm, CycleEnv, Revoked, revoked, fatal, Pause, resumes, dies, hangs, options, limit_of,
  fresh_mover, publish, revoke_phase, end_cycle, after_scan, doit,
}
use stopless_java_gc.StoplessHeap.Scan.{Bounded, AllScanned, scan_roots-Bounded}
use stopless_java_gc.StoplessHeap.Barrier.{Barrier}
use stopless_java_gc.StoplessHeap.Marks.{took}
use stopless_java_gc.StoplessHeap.Publish.{Sound, publish-Sound}

pub limit_small :
    (env : CycleEnv)
    → env.revoke_concurrent ≡ true
    → ((n : ℕ) → env.move_limit ≡ some n → n < word)
    → (pending : Bool) → limit_of env pending < word
unfolding limit_of
limit_small env concurrent small true = rw concurrent (omega arith)
limit_small env concurrent small false = rw concurrent (elim (Option-cases env.move_limit) [
  | inl e ↦ rw e (omega arith)
  | inr (n, e) ↦ rw e (small n e)
])

limit_zero : (env : CycleEnv) → env.revoke_concurrent ≡ true → limit_of env true ≡ 0
unfolding limit_of
limit_zero env concurrent = rw concurrent refl

empty_of : {A : Type 0} (xs : List A) → length xs ≡ 0 → xs ≡ []
empty_of [] e = refl
empty_of (x ∷ xs) e = absurd (omega (arith, e))

module _ {K Cap W : Type 0} ⦃ch : Cheri Cap⦄ ⦃os : Kernel K⦄ (mem : Memory K Cap) where
  -- the heap that a revocation leaves, or else `h`
  abbrev heap_after : Jvm K Cap W → Revoked K Cap W → Jvm K Cap W
  heap_after h (revoked h' n swept) = h'
  heap_after h fatal = h

  publish_nothing :
      (env : Env) (h h' : Jvm K Cap W) (cs : List Cap) (n : ℕ) (swept : Bool)
      → cs ≡ []
      → publish mem env h cs ≡ revoked h' n swept
      → h' ≡ h
  unfolding publish
  publish_nothing env h h' [] n swept nothing run = ap (heap_after h) (sym run)
  publish_nothing env h h' (c ∷ cs) n swept nothing run = absurd (cc)

module _ {K Cap W : Type 0} ⦃ch : Cheri Cap⦄ ⦃os : Kernel K⦄ {mem : Memory K Cap} {shadow : Cap}
    (law : Barrier mem shadow) (vm : Vm Cap) (env : CycleEnv) (revokes : env.no_revoke ≡ false)
    (concurrent : env.revoke_concurrent ≡ true)
    (small : (n : ℕ) → env.move_limit ≡ some n → n < word) where
  -- a cycle with a close pending leaves the kernel and the flag
  abbrev pub Idles : Jvm K Cap W → Jvm K Cap W → Mover Cap W → Type 0
  Idles h h' m =
      h.close_pending ≡ true
      → (m.moved_from ≡ []) × (h'.globals ≡ h.globals) × (h'.close_pending ≡ true)

  -- of the cycle's result, if the threads run again
  abbrev pub Ends : List Cap → Jvm K Cap W → Pause K Cap W → Type 0
  Ends old h (resumes h' m roots n swept) =
      Sound law (took mem m.space.arena m.moved_from h.globals.kernel ++ old) h' × Idles h h' m
  Ends old h dies = Unit
  Ends old h hangs = Unit

  end_cycle-Ends :
      (h : Jvm K Cap W) (old : List Cap) (m : Mover Cap W) (qs : List (Option Cap))
      (r : Revoked K Cap W)
      → Sound law old h
      → Bounded (limit_of env h.close_pending) (some shadow) m
      → publish mem env.revoke_env (record h { space = m.space }) m.moved_from ≡ r
      → Ends old h (end_cycle m qs r)
  unfolding end_cycle
  end_cycle-Ends h old m qs fatal sound b run = tt
  end_cycle-Ends h old m qs (revoked h' n swept) sound b run =
      let h₁ = record h { space = m.space } in
      let sound₁ : Sound law old h₁ = record {
        bitmap = b.shadowed;
        cri = sound.cri;
        shut = sound.shut;
        guards = sound.guards;
      } in
      let nothing : h.close_pending ≡ true → m.moved_from ≡ [] = λ pending.
        let zero_limit = ap (limit_of env) pending ∙ limit_zero env concurrent in
        let count = b.count in
        let under : m.moved ≤ 0 = subst (λ l. m.moved ≤ l) zero_limit b.under in
        empty_of m.moved_from (omega arith) in
      (
        publish-Sound law env.revoke_env h₁ h' m.moved_from old n swept sound₁ nothing run,
        λ pending.
            let same =
              publish_nothing mem env.revoke_env h₁ h' m.moved_from n swept (nothing pending) run in
            (
              nothing pending,
              ap (λ (x : Jvm K Cap W). x.globals) same,
              ap (λ (x : Jvm K Cap W). x.close_pending) same ∙ pending,
            ),
      )

  after_scan-Ends :
      (memory : Bool) (h : Jvm K Cap W) (old : List Cap) (ps : List (Option Cap))
      (s : Scanned Cap W)
      → Sound law old h
      → AllScanned vm memory
          (options env h.close_pending)
          (some shadow)
          (limit_small env concurrent small h.close_pending)
          ps
          s
      → Ends old h (after_scan mem env h s)
  unfolding after_scan revoke_phase
  after_scan-Ends memory h old ps (scanned m qs) sound (b, e) =
      rw (revokes, concurrent) (end_cycle-Ends h old m qs _ sound b refl)
  after_scan-Ends memory h old ps scan_waits sound a = tt
  after_scan-Ends memory h old ps scan_null sound a = tt

  doit_grown :
      (memory : Bool) (h : Jvm K Cap W) (roots : List (Option Cap)) (t : Table)
      → maybe_grow memory h.space.forwarding.table ≡ some t
      → doit mem vm memory env h roots
        ≡ after_scan mem env h (
            scan_roots vm memory
              (options env h.close_pending)
              (fresh_mover
                (record h.space { forwarding = record h.space.forwarding { table = t } }))
              roots)
  unfolding doit
  doit_grown memory h roots t e = rw (doit, e) refl

  doit_hangs :
      (memory : Bool) (h : Jvm K Cap W) (roots : List (Option Cap))
      → maybe_grow memory h.space.forwarding.table ≡ none
      → doit mem vm memory env h roots ≡ hangs
  unfolding doit
  doit_hangs memory h roots e = rw (doit, e) refl

  pub doit-Ends :
      (memory : Bool) (h : Jvm K Cap W) (old : List Cap) (roots : List (Option Cap))
      → Sound law old h
      → Ends old h (doit mem vm memory env h roots)
  doit-Ends memory h old roots sound =
      elim (Option-cases (maybe_grow memory h.space.forwarding.table)) [
        | inl e ↦ subst (Ends old h) (sym (doit_hangs memory h roots e)) tt
        | inr (t, e) ↦ subst (Ends old h) (sym (doit_grown memory h roots t e)) (
            after_scan-Ends memory h old roots _ sound (
              scan_roots-Bounded vm memory (options env h.close_pending) (some shadow)
                (limit_small env concurrent small h.close_pending) roots _
                (record { count = refl; under = omega arith; shadowed = sound.bitmap })))
      ]
