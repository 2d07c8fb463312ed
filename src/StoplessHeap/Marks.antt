-- ===== src/StoplessHeap/Marks.antt =====
-- stoplessHeap.cpp, the marks of a cycle: what they and the calls after them make of the barrier.
use stopless_java_gc.Base.{
  ℕ, ◌≡◌, refl, sym, ap, subst, ◌∙◌, true, inl, inr, Bool-cases, if◌then◌else◌, Option, none, some,
  List, [], ◌∷◌, ◌++◌,
}
use stopless_java_gc.Base.Int.{ℤ, pos, is_zero}
use stopless_java_gc.Cheri.{Cheri}
use stopless_java_gc.Arena.{Arena}
use stopless_java_gc.Revoke.Calls.{Kernel, Memory, open_and_close, open_only, last_pass}
use stopless_java_gc.Revoke.{Globals, revoke_now}
use stopless_java_gc.Revoke.Mark.{mark_revoke_cap}
use stopless_java_gc.Revoke.Epoch.{revoke_now_sound}
use stopless_java_gc.Collector.Cycle.{Passes, no_pass, pass, revoke_now-Passes}
use stopless_java_gc.StoplessHeap.Collect.{Jvm, mark_all, with_marks}
use stopless_java_gc.StoplessHeap.Scan.{shadow_of}
use stopless_java_gc.StoplessHeap.Barrier.{Shut, opening, advanced, Barrier, Open, Refused}

-- Of these old copies the ones for which `stopless_mark_revoke_cap` returns 0 when `doit` marks them all.
abbrev pub took : {K Cap : Type 0} → Memory K Cap → Option (Arena Cap) → List Cap → K → List Cap
took mem a [] k = []
took mem a (o ∷ os') k =
    let (rc, k') = mark_revoke_cap mem a (some o) k in
    let rest = took mem a os' k' in if is_zero rc then o ∷ rest else rest

module _ {K Cap : Type 0} ⦃ch : Cheri Cap⦄ ⦃os : Kernel K⦄ {mem : Memory K Cap} {shadow : Cap}
    (law : Barrier mem shadow) where
  -- The barrier holds for the base of each of these old copies.
  abbrev pub AllGuarded : List Cap → K → Type 0
  AllGuarded [] k = Unit
  AllGuarded (c ∷ cs) k = (law.guarded (ch.base c) k ≡ true) × AllGuarded cs k

  AllMarked : List Cap → K → Type 0
  AllMarked [] k = Unit
  AllMarked (c ∷ cs) k = (mem.marked shadow (ch.base c) k ≡ true) × AllMarked cs k

  -- what keeps the barrier for each base keeps it for a list
  pub AllGuarded-map :
      (cs : List Cap) {k k' : K}
      → ((a : ℕ) → law.guarded a k ≡ true → law.guarded a k' ≡ true)
      → AllGuarded cs k
      → AllGuarded cs k'
  AllGuarded-map [] keeps all = tt
  AllGuarded-map (c ∷ cs) keeps (here, rest) =
      (keeps (ch.base c) here, AllGuarded-map cs keeps rest)

  from_marks :
      (cs : List Cap) {k k' : K}
      → ((a : ℕ) → mem.marked shadow a k ≡ true → law.guarded a k' ≡ true)
      → AllMarked cs k
      → AllGuarded cs k'
  unfolding AllMarked
  from_marks [] guards all = tt
  from_marks (c ∷ cs) guards (here, rest) = (guards (ch.base c) here, from_marks cs guards rest)

  pub AllGuarded-append :
      (cs ds : List Cap) (k : K) → AllGuarded cs k → AllGuarded ds k → AllGuarded (cs ++ ds) k
  AllGuarded-append [] ds k all more = more
  AllGuarded-append (c ∷ cs) ds k (here, rest) more = (here, AllGuarded-append cs ds k rest more)

  pub Passes-guarded :
      {k k' : K} → Passes k k' → (a : ℕ) → law.guarded a k ≡ true → law.guarded a k' ≡ true
  Passes-guarded no_pass a e = e
  Passes-guarded (pass {k'} target p) a e =
      law.guarded-revoke last_pass target k' a (Passes-guarded p a e)

  pub Passes-enqueue : {k k' : K} → Passes k k' → os.enqueue k' ≡ os.enqueue k
  Passes-enqueue no_pass = refl
  Passes-enqueue (pass {k'} target p) = law.enqueue-last_pass target k' ∙ Passes-enqueue p

  mark_revoke_cap_run :
      (a : Option (Arena Cap)) (c : Cap) (k : K)
      → shadow_of a ≡ some shadow
      → (b : ℕ) × (mark_revoke_cap mem a (some c) k ≡ mem.set_cap b shadow c k)
  unfolding mark_revoke_cap
  mark_revoke_cap_run none c k there =
      absurd (let q : ◌≡◌ {A = Option Cap} none (some shadow) = there in cc)
  mark_revoke_cap_run (some a) c k there = (a.shadow_base_addr, rw there refl)

  -- The kernel after a successful whole sweep of `g`.
  pub swept-Shut :
      (g : Globals K) → g.cri ≡ true → (revoke_now g).0 ≡ pos 0 → Shut (revoke_now g).1.kernel
  swept-Shut g ready done =
      rw (Passes-enqueue (revoke_now-Passes g ready)) (revoke_now_sound g ready done)

  swept-guarded :
      (g : Globals K)
      → g.cri ≡ true
      → (x : ℕ) → law.guarded x g.kernel ≡ true
      → law.guarded x (revoke_now g).1.kernel ≡ true
  swept-guarded g ready x e =
      Passes-guarded (revoke_now-Passes g ready) x
        (law.guarded-revoke open_and_close (os.enqueue g.kernel) g.kernel x e)

  -- a failed call that was to open an epoch keeps marks and barrier
  Refused-keeps :
      (P : K → Type 0)
      → ((k : K) → P k → P (opening k))
      → (g g' : Globals K) → Refused g g'
      → P g.kernel
      → P g'.kernel
  Refused-keeps P step g g' r p = elim r.kernel [
    | inl same ↦ subst P (sym same) p
    | inr (at, off) ↦ subst P (sym at) (step g.kernel p)
  ]

  AllMarked-opening : (cs : List Cap) (k : K) → AllMarked cs k → AllMarked cs (opening k)
  unfolding AllMarked
  AllMarked-opening [] k all = tt
  AllMarked-opening (c ∷ cs) k (here, rest) =
      (law.marks-revoke open_only (os.enqueue k) k (ch.base c) here, AllMarked-opening cs k rest)

  module _ (a : Option (Arena Cap)) (there : shadow_of a ≡ some shadow) where
    -- what a mark keeps, all of them keep
    mark_all_keeps :
        (P : K → Type 0)
        → ((b : ℕ) (c : Cap) (k : K) → P k → P (mem.set_cap b shadow c k).1)
        → (cs : List Cap) (k : K) → P k
        → P (mark_all mem a cs k)
    unfolding mark_all
    mark_all_keeps P step [] k p = p
    mark_all_keeps P step (c ∷ cs) k p =
        let (b, run) = mark_revoke_cap_run a c k there in
        mark_all_keeps P step cs _ (subst P (sym (ap (λ (r : ℤ × K). r.1) run)) (step b c k p))

    mark_all-AllMarked : (cs : List Cap) (k : K) → AllMarked (took mem a cs k) (mark_all mem a cs k)
    unfolding mark_all AllMarked
    mark_all-AllMarked [] k = tt
    mark_all-AllMarked (c ∷ cs) k =
        let (b, run) = mark_revoke_cap_run a c k there in
        let k' = (mark_revoke_cap mem a (some c) k).1 in
        let more = mark_all-AllMarked cs k' in
        elim (Bool-cases (is_zero (mark_revoke_cap mem a (some c) k).0)) [
          | inr failed ↦ rw failed more
          | inl fine ↦ rw fine (
            mark_all_keeps (λ k''. mem.marked shadow (ch.base c) k'' ≡ true)
                (λ b' d k'' e. law.marks-set_cap b' d k'' (ch.base c) e) cs _
                (ap (λ (r : ℤ × K). mem.marked shadow (ch.base c) r.1) run
                  ∙ law.marked-set_cap b c k (sym (ap (λ (r : ℤ × K). is_zero r.0) run) ∙ fine)),
            more,
          )
        ]

    pub publish_opened :
        {W : Type 0} (h : Jvm K Cap W) (cs old : List Cap) (g : Globals K)
        → a ≡ h.space.arena
        → Shut h.globals.kernel
        → AllGuarded old h.globals.kernel
        → Open (with_marks mem h cs) g
        → AllGuarded (took mem a cs h.globals.kernel ++ old) g.kernel
    publish_opened h cs old g same shut guards op =
        let k₀ = mark_all mem a cs h.globals.kernel in
        let at : g.kernel ≡ opening k₀ =
          op.kernel ∙ ap (λ x. opening (mark_all mem x cs h.globals.kernel)) (sym same) in
        let on : advanced k₀ ≡ true =
          ap (λ x. advanced (mark_all mem x cs h.globals.kernel)) same ∙ op.advances in
        let closed : Shut k₀ = mark_all_keeps Shut law.Shut-set_cap cs h.globals.kernel shut in
        let kept : AllGuarded old k₀ =
          mark_all_keeps (AllGuarded old) (λ b c k. AllGuarded-map old (law.guarded-set_cap b c k))
            cs h.globals.kernel guards in
        let ours = took mem a cs h.globals.kernel in
        subst (AllGuarded (ours ++ old)) (sym at) (
          AllGuarded-append ours old (opening k₀)
            (from_marks ours (λ x m. law.guarded-opening k₀ x closed on m)
              (mark_all-AllMarked cs h.globals.kernel))
            (AllGuarded-map old (law.guarded-revoke open_only (os.enqueue k₀) k₀) kept))

    pub publish_swept :
        {W : Type 0} (h : Jvm K Cap W) (cs old : List Cap) (g : Globals K)
        → a ≡ h.space.arena
        → AllGuarded old h.globals.kernel
        → Refused (with_marks mem h cs) g
        → (revoke_now g).0 ≡ pos 0
        → AllGuarded (took mem a cs h.globals.kernel ++ old) (revoke_now g).1.kernel
    publish_swept h cs old g same guards r done =
        let k = h.globals.kernel in
        let ours = took mem a cs k in
        let marks : AllMarked ours g.kernel =
          Refused-keeps (AllMarked ours) (AllMarked-opening ours) (with_marks mem h cs) g r
            (subst (λ x. AllMarked ours (mark_all mem x cs k)) same (mark_all-AllMarked cs k)) in
        let kept : AllGuarded old g.kernel =
          Refused-keeps (AllGuarded old)
            (λ x. AllGuarded-map old (law.guarded-revoke open_only (os.enqueue x) x))
            (with_marks mem h cs) g r
            (subst (λ x. AllGuarded old (mark_all mem x cs k)) same
              (mark_all_keeps (AllGuarded old)
                (λ b c x. AllGuarded-map old (law.guarded-set_cap b c x)) cs k guards)) in
        AllGuarded-append ours old _
          (from_marks ours
            (λ x m.
              law.guarded-swept g.kernel _ x m (revoke_now-Passes g r.cri)
                (revoke_now_sound g r.cri done))
            marks)
          (AllGuarded-map old (swept-guarded g r.cri) kept)
