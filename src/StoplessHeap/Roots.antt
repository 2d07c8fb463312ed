-- ===== src/StoplessHeap/Roots.antt =====
-- stoplessHeap.cpp, a whole scan and a whole cycle as steps of the collector.
use stopless_java_gc.Base.{
  ℕ, ◌+◌, ◌^◌, ◌≤◌, ◌<◌, ◌≡◌, refl, sym, ap, ◌∙◌, subst, ◌⊎◌, inl, inr, Bool, true, false, Option,
  none, some, some_inj, List, [], ◌∷◌, arith, word,
}
use mathlib.Core.Bool.{true≢false}
use stopless_java_gc.Cheri.{Cheri, Documented}
use stopless_java_gc.ForwardTable.{Table, maybe_grow}
use stopless_java_gc.ForwardTable.Grow.{maybe_grow-Grown}
use stopless_java_gc.Forwarding.{chase_max}
use stopless_java_gc.Arena.{Arena}
use stopless_java_gc.Revoke.Calls.{Kernel, Memory}
use stopless_java_gc.Collector.{Reach, next, grow}
use stopless_java_gc.Collector.Sound.{Reach-Inv}
use stopless_java_gc.StoplessHeap.{
  Vm, Options, Mover, Visit, leaves, waits, null_read, scanned, is_in, do_oop, with_root,
  scan_roots,
}
use stopless_java_gc.StoplessHeap.Collect.{
  Jvm, CycleEnv, limit_of, fresh_mover, options, revoke_phase, end_cycle, after_scan, doit,
}
use stopless_java_gc.StoplessHeap.Forwarded.{
  AllForwarded, AllForwarded-map, Grown-Forwarded, Object, Modelled, FixedRoot,
}
use stopless_java_gc.StoplessHeap.Moved.{Visited}
use stopless_java_gc.StoplessHeap.Moves.{do_oop-Visited}
use stopless_java_gc.StoplessHeap.LookUp.{AllLookUp, look_up_all}

module _ {Cap : Type 0} ⦃ch : Cheri Cap⦄ (doc : Documented ch) (base : Cap) where
  -- Every root of the list as it was, or live; none is lost.
  abbrev pub AllFixed : List (Option Cap) → List (Option Cap) → Type 0
  AllFixed [] [] = Unit
  AllFixed [] (q ∷ qs) = ⊥
  AllFixed (p ∷ ps) [] = ⊥
  AllFixed (p ∷ ps) (q ∷ qs) = FixedRoot doc base p q × AllFixed ps qs

  -- A root is null, outside the arena, or an object of the VM.
  abbrev pub AllRoots : Vm Cap → Arena Cap → ℕ → List (Option Cap) → Type 0
  AllRoots vm a₀ top [] = Unit
  AllRoots vm a₀ top (none ∷ ps) = AllRoots vm a₀ top ps
  AllRoots vm a₀ top (some o ∷ ps) =
      ((is_in (some a₀) o ≡ false) ⊎ Object doc base vm a₀ top o) × AllRoots vm a₀ top ps

  is_in-Object :
      (vm : Vm Cap) (a₀ : Arena Cap) (top : ℕ) (p : Option Cap) (ps : List (Option Cap))
      → AllRoots vm a₀ top (p ∷ ps)
      → (o : Cap) → p ≡ some o
      → is_in (some a₀) o ≡ true
      → Object doc base vm a₀ top o
  is_in-Object vm a₀ top none ps all o e here = absurd (cc)
  is_in-Object vm a₀ top (some x) ps (one, rest) o e here =
      let same : x ≡ o = some_inj e in
      elim one [
        | inl out ↦ absurd (true≢false (sym here ∙ (ap (is_in (some a₀)) (sym same) ∙ out)))
        | inr ob ↦ subst (Object doc base vm a₀ top) same ob
      ]

module _ {Cap W : Type 0} ⦃ch : Cheri Cap⦄ (doc : Documented ch) (base : Cap) (vm : Vm Cap)
    (a₀ : Arena Cap) (top bound : ℕ) (prior : List Cap) (opts : Options) (memory : Bool)
    (small : opts.limit < word) (few : bound ≤ chase_max) where
  -- The scan of these roots ends.
  pub record Ends (m : Mover Cap W) (ps : List (Option Cap)) : Type 0 where
    pub after : Mover Cap W
    pub roots : List (Option Cap)
    pub run : scan_roots vm memory opts m ps ≡ scanned after roots
    pub model : Modelled doc base a₀ top opts.limit bound prior after
    pub fixed : AllFixed doc base ps roots

  visit_root :
      (m m₁ : Mover Cap W) (p q : Option Cap) (ps : List (Option Cap))
      → do_oop vm memory opts m p ≡ leaves m₁ q
      → FixedRoot doc base p q
      → Ends m₁ ps
      → Ends m (p ∷ ps)
  unfolding scan_roots with_root
  visit_root m m₁ p q ps run here e = record {
    after = e.after;
    roots = q ∷ e.roots;
    run = rw (run, scan_roots) (ap (with_root q) e.run);
    model = e.model;
    fixed = (here, e.fixed);
  }

  with_root-Visited :
      (m : Mover Cap W) (p : Option Cap) (ps : List (Option Cap)) (v : Visit Cap W)
      → do_oop vm memory opts m p ≡ v
      → Visited doc base vm a₀ top bound prior opts memory small few p v
      → ((m₁ : Mover Cap W) → Modelled doc base a₀ top opts.limit bound prior m₁ → Ends m₁ ps)
      → Ends m (p ∷ ps)
  with_root-Visited m p ps (leaves m₁ q) run (g, here) rest =
      visit_root m m₁ p q ps run here (rest m₁ g)
  with_root-Visited m p ps waits run never rest = absurd never
  with_root-Visited m p ps null_read run never rest = absurd never

  pub scan_roots-Ends :
      (ps : List (Option Cap)) (m : Mover Cap W)
      → Modelled doc base a₀ top opts.limit bound prior m
      → AllRoots doc base vm a₀ top ps
      → Ends m ps
  unfolding scan_roots
  scan_roots-Ends [] m g all = record { after = m; roots = []; run = refl; model = g; fixed = tt }
  scan_roots-Ends (none ∷ ps) m g all =
      with_root-Visited m none ps _ refl
        (do_oop-Visited doc base vm a₀ top bound prior opts memory small few m none g
          (is_in-Object doc base vm a₀ top none ps all))
        (λ m₁ g₁. scan_roots-Ends ps m₁ g₁ all)
  scan_roots-Ends (some o ∷ ps) m g all =
      with_root-Visited m (some o) ps _ refl
        (do_oop-Visited doc base vm a₀ top bound prior opts memory small few m (some o) g
          (is_in-Object doc base vm a₀ top (some o) ps all))
        (λ m₁ g₁. scan_roots-Ends ps m₁ g₁ all.1)

module _ {K Cap W : Type 0} ⦃ch : Cheri Cap⦄ ⦃os : Kernel K⦄ (doc : Documented ch) (base : Cap)
    (mem : Memory K Cap) (vm : Vm Cap) (env : CycleEnv) where
  -- A cycle that gets to its revocation; `prior` lists the old copies of earlier cycles.
  pub record Collects (memory : Bool) (h : Jvm K Cap W) (prior : List Cap)
      (roots : List (Option Cap)) : Type 0 where
    pub mover : Mover Cap W
    pub arena : Arena Cap
    pub roots' : List (Option Cap)
    pub run :
        doit mem vm memory env h roots
        ≡ end_cycle mover roots'
            (revoke_phase mem env (record h { space = mover.space }) mover.moved_from)
    pub there : mover.space.arena ≡ some arena
    pub reach : Reach doc base (record { arena = arena; forwarding = mover.space.forwarding })
    pub healed : AllForwarded mover.space.forwarding.table mover.moved_from
    pub heals : AllLookUp doc base mover.space.forwarding mover.moved_from
    pub kept : AllForwarded mover.space.forwarding.table prior
    pub keeps : AllLookUp doc base mover.space.forwarding prior
    pub fixed : AllFixed doc base roots roots'

  doit_run :
      (memory : Bool) (h : Jvm K Cap W) (roots roots' : List (Option Cap)) (t : Table)
      (m : Mover Cap W)
      → maybe_grow memory h.space.forwarding.table ≡ some t
      → scan_roots vm memory
          (options env h.close_pending)
          (fresh_mover (record h.space { forwarding = record h.space.forwarding { table = t } }))
          roots
        ≡ scanned m roots'
      → doit mem vm memory env h roots
        ≡ end_cycle m roots' (revoke_phase mem env (record h { space = m.space }) m.moved_from)
  unfolding doit after_scan
  doit_run memory h roots roots' t m grown run = rw (grown, doit, run) refl

  -- A cycle from a heap that the collector's steps reach, with its roots null, outside the arena or
  -- objects, room in the table for as many entries as it may move objects, and then no more than
  -- FT_CHASE_MAX, and with the old copies of earlier cycles in the table: it neither waits nor reads
  -- through a null table and gets to its revocation, in a heap that the collector's steps reach. By then
  -- `forward_table_lookup` of every old copy, of this cycle or an earlier one, gives a live capability
  -- with exact bounds, and each root is as it was or such a capability.
  pub doit-Collects :
      (memory : Bool) (h : Jvm K Cap W) (prior : List Cap) (roots : List (Option Cap))
      (a : Arena Cap)
      → h.space.arena ≡ some a
      → Reach doc base (record { arena = a; forwarding = h.space.forwarding })
      → AllRoots doc base vm a (ch.base base + a.bump_offset) roots
      → limit_of env h.close_pending < word
      → h.space.forwarding.table.capacity ≤ 2 ^ 60
      → h.space.forwarding.table.size + limit_of env h.close_pending
        ≤ h.space.forwarding.table.capacity
      → h.space.forwarding.table.size + limit_of env h.close_pending ≤ chase_max
      → AllForwarded h.space.forwarding.table prior
      → Collects memory h prior roots
  doit-Collects memory h prior roots a there reach all small width room few before =
      let inv = Reach-Inv doc base reach in
      let (t, grown, g, light) = maybe_grow-Grown inv.table memory width in
      let f' = record h.space.forwarding { table = t } in
      let reach' = next reach (grow memory t width grown) in
      let m₀ = fresh_mover (record h.space { forwarding = f' }) in
      let bound = h.space.forwarding.table.size + limit_of env h.close_pending in
      let e =
        scan_roots-Ends doc base vm a (ch.base base + a.bump_offset) bound prior
          (options env h.close_pending) memory small few roots m₀
          (record {
            arena = a;
            there = there;
            reach = reach';
            based = refl;
            same = refl;
            higher = omega arith;
            room = let s = g.size in omega arith;
            capacity = let w = g.wider in omega arith;
            healed = tt;
            kept = AllForwarded-map prior (Grown-Forwarded g) before;
          })
          all in
      record {
        mover = e.after;
        arena = e.model.arena;
        roots' = e.roots;
        run = doit_run memory h roots e.roots t e.after grown e.run;
        there = e.model.there;
        reach = e.model.reach;
        healed = e.model.healed;
        heals =
            look_up_all doc base e.model.reach e.after.moved_from
              (let r = e.model.room in omega (arith, few)) e.model.healed;
        kept = e.model.kept;
        keeps =
            look_up_all doc base e.model.reach prior (let r = e.model.room in omega (arith, few))
              e.model.kept;
        fixed = e.fixed;
      }
