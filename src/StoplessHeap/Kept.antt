-- ===== src/StoplessHeap/Kept.antt =====
-- stoplessHeap.cpp: what a cycle, an allocation and a close keep true of the heap and of the old copies
-- that cycles have left behind.
use stopless_java_gc.Base.{
  ℕ, ◌+◌, ◌^◌, ◌≤◌, ◌<◌, ◌≡◌, refl, sym, ap, ◌∙◌, subst, Bool, Option, some, some_inj, List, ◌++◌,
  arith, word, mul64,
}
use stopless_java_gc.Base.Int.{ℤ}
use stopless_java_gc.Cheri.{Cheri, Documented}
use stopless_java_gc.Forwarding.{chase_max}
use stopless_java_gc.Arena.{Arena}
use stopless_java_gc.Allocator.{alloc, alloc_in}
use stopless_java_gc.Revoke.Calls.{Kernel, Memory}
use stopless_java_gc.Collector
use stopless_java_gc.Collector.{Request, allocate}
use stopless_java_gc.StoplessHeap.{Space, Vm, Mover, mem_allocate}
use stopless_java_gc.StoplessHeap.Collect.{Jvm, CycleEnv, resumes, doit, limit_of, after_close}
use stopless_java_gc.StoplessHeap.Forwarded.{AllForwarded, AllForwarded-join}
use stopless_java_gc.StoplessHeap.Roots.{AllRoots, doit-Collects}
use stopless_java_gc.StoplessHeap.Resumed.{Continues, end_cycle-Continues, revoke_phase-SameSpace}

module _ {K Cap W : Type 0} ⦃ch : Cheri Cap⦄ ⦃os : Kernel K⦄ (doc : Documented ch) (base : Cap)
    (mem : Memory K Cap) (vm : Vm Cap) (env : CycleEnv) where
  -- The collector's steps lead to the arena and the table; every old copy is in the table.
  pub record Kept (h : Jvm K Cap W) (old : List Cap) : Type 0 where
    pub arena : Arena Cap
    pub there : h.space.arena ≡ some arena
    pub reach : Collector.Reach doc base (record { arena = arena; forwarding = h.space.forwarding })
    pub kept : AllForwarded h.space.forwarding.table old

  pub Kept-space :
      {h h' : Jvm K Cap W} {old : List Cap} → h'.space ≡ h.space → Kept h old → Kept h' old
  Kept-space {h} {h'} {old} same k = record {
    arena = k.arena;
    there = ap (λ (x : Space Cap W). x.arena) same ∙ k.there;
    reach =
        subst
          (λ (x : Space Cap W).
            Collector.Reach doc base (record { arena = k.arena; forwarding = x.forwarding }))
          (sym same) k.reach;
    kept = subst (λ (x : Space Cap W). AllForwarded x.forwarding.table old) (sym same) k.kept;
  }

  pub after_close_space : (crc : ℤ) (h : Jvm K Cap W) → (after_close crc h).space ≡ h.space
  unfolding after_close
  after_close_space crc h = ground arith

  pub allocates_keeps :
      {h : Jvm K Cap W} {old : List Cap} (a : Arena Cap) (n : ℕ) (words : ℕ → W)
      → h.space.arena ≡ some a
      → Request doc base a (mul64 n 16)
      → Kept h old
      → Kept
          (record h {
            space = record h.space { arena = (mem_allocate h.space.arena n).1; words = words };
          })
          old
  unfolding mem_allocate alloc
  allocates_keeps {h} {old} a n words there request k =
      let same : a ≡ k.arena = some_inj (sym there ∙ k.there) in
      record {
        arena = (alloc_in a (mul64 n 16)).1;
        there = rw there refl;
        reach =
            Collector.next
              (subst
                (λ (x : Arena Cap).
                  Collector.Reach doc base (record { arena = x; forwarding = h.space.forwarding }))
                (sym same) k.reach)
              (allocate (mul64 n 16) request);
        kept = k.kept;
      }

  pub cycle_keeps :
      {h : Jvm K Cap W} {old : List Cap} (a : Arena Cap) (memory : Bool)
      (roots roots' : List (Option Cap)) (h' : Jvm K Cap W) (m : Mover Cap W) (n : ℕ) (swept : Bool)
      → h.space.arena ≡ some a
      → AllRoots doc base vm a (ch.base base + a.bump_offset) roots
      → limit_of env h.close_pending < word
      → h.space.forwarding.table.capacity ≤ 2 ^ 60
      → h.space.forwarding.table.size + limit_of env h.close_pending
        ≤ h.space.forwarding.table.capacity
      → h.space.forwarding.table.size + limit_of env h.close_pending ≤ chase_max
      → doit mem vm memory env h roots ≡ resumes h' m roots' n swept
      → Kept h old
      → Kept h' (m.moved_from ++ old)
  cycle_keeps {h} {old} a memory roots roots' h' m n swept there all small width room few run k =
      let same : a ≡ k.arena = some_inj (sym there ∙ k.there) in
      let reach =
        subst
          (λ (x : Arena Cap).
            Collector.Reach doc base (record { arena = x; forwarding = h.space.forwarding }))
          (sym same) k.reach in
      let c =
        doit-Collects doc base mem vm env memory h old roots a there reach all small width room few
          k.kept in
      let (space, mover) = subst (Continues mem c.mover.space c.mover) (sym c.run ∙ run) (
        end_cycle-Continues mem c.mover.space c.mover c.roots' _ (
          revoke_phase-SameSpace mem env (record h { space = c.mover.space })
            c.mover.moved_from)) in
      let at_mover : Kept (record h { space = c.mover.space }) (c.mover.moved_from ++ old) =
        (record {
          arena = c.arena;
          there = c.there;
          reach = c.reach;
          kept =
              AllForwarded-join c.mover.space.forwarding.table c.mover.moved_from old c.healed
                c.kept;
        }) in
      Kept-space space (
        subst (λ (x : Mover Cap W). Kept (record h { space = c.mover.space }) (x.moved_from ++ old))
          (sym mover) at_mover)
