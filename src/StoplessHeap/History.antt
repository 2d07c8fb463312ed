-- ===== src/StoplessHeap/History.antt =====
-- stoplessHeap.cpp under STOPLESS_REVOKE_CONCURRENT: a history of the heap, of cycles, allocations and
-- closes of epochs, and every old copy of it.
use stopless_java_gc.Base.{
  ℕ, ◌+◌, ◌^◌, ◌≤◌, ◌<◌, ◌≡◌, refl, ap, ◌∙◌, Bool, true, false, Option, some, List, [], ◌++◌, word,
  mul64,
}
use stopless_java_gc.Base.Int.{ℤ}
use stopless_java_gc.Cheri.{Cheri, Documented}
use stopless_java_gc.Forwarding.{chase_max}
use stopless_java_gc.Arena.{Arena}
use stopless_java_gc.Revoke.Calls.{Kernel, Memory}
use stopless_java_gc.Collector
use stopless_java_gc.Collector.{Request, allocate}
use stopless_java_gc.StoplessHeap.{Vm, Mover, mem_allocate}
use stopless_java_gc.StoplessHeap.Collect.{
  Jvm, CycleEnv, resumes, doit, limit_of, close_call, after_close,
}
use stopless_java_gc.StoplessHeap.Scan.{shadow_of, alloc-shadow}
use stopless_java_gc.StoplessHeap.Pauses.{limit_small}
use stopless_java_gc.StoplessHeap.Barrier.{Shut, Barrier}
use stopless_java_gc.StoplessHeap.Marks.{took, AllGuarded}
use stopless_java_gc.StoplessHeap.Roots.{AllRoots}
use stopless_java_gc.StoplessHeap.LookUp.{AllLookUp, look_up_all}
use stopless_java_gc.StoplessHeap.Cycles
use stopless_java_gc.StoplessHeap.Cycles.{Phase, idle, closing, closed, cycles_stay_guarded}
use stopless_java_gc.StoplessHeap.Kept.{
  Kept, Kept-space, after_close_space, allocates_keeps, cycle_keeps,
}

module _ {Cap : Type 0} ⦃ch : Cheri Cap⦄ where
  allocated_shadow : (x : Option (Arena Cap)) (n : ℕ) → shadow_of (mem_allocate x n).1 ≡ shadow_of x
  unfolding mem_allocate
  allocated_shadow x n = alloc-shadow x (mul64 n 16)

module _ {K Cap W : Type 0} ⦃ch : Cheri Cap⦄ ⦃os : Kernel K⦄ (doc : Documented ch) (base : Cap)
    (mem : Memory K Cap) (vm : Vm Cap) (env : CycleEnv) where
  -- Steps of `Cycles`, in which the roots of a cycle are null, outside the arena or objects, the table
  -- has room for what the cycle may move, and the program allocates by `mem_allocate`. The first list
  -- has every copy left behind, the second those whose marks returned 0.
  pub data History (start : Jvm K Cap W) : Jvm K Cap W → Phase → List Cap → List Cap → Type 0 where
    begin : History start start idle [] []
    cycle :
        {h : Jvm K Cap W} {ph : Phase} {old marked : List Cap} (a : Arena Cap) (memory : Bool)
        (roots roots' : List (Option Cap)) (h' : Jvm K Cap W) (m : Mover Cap W) (n : ℕ)
        (swept : Bool)
        → History start h ph old marked
        → h.space.arena ≡ some a
        → AllRoots doc base vm a (ch.base base + a.bump_offset) roots
        → h.space.forwarding.table.capacity ≤ 2 ^ 60
        → h.space.forwarding.table.size + limit_of env h.close_pending
          ≤ h.space.forwarding.table.capacity
        → h.space.forwarding.table.size + limit_of env h.close_pending ≤ chase_max
        → doit mem vm memory env h roots ≡ resumes h' m roots' n swept
        → History start h' ph
            (m.moved_from ++ old)
            (took mem m.space.arena m.moved_from h.globals.kernel ++ marked)
    allocates :
        {h : Jvm K Cap W} {ph : Phase} {old marked : List Cap} (a : Arena Cap) (n : ℕ)
        (words : ℕ → W)
        → History start h ph old marked
        → h.space.arena ≡ some a
        → Request doc base a (mul64 n 16)
        → History start
            (record h {
              space = record h.space { arena = (mem_allocate h.space.arena n).1; words = words };
            })
            ph
            old
            marked
    test :
        {h : Jvm K Cap W} {old marked : List Cap}
        → History start h idle old marked
        → h.close_pending ≡ true
        → History start h closing old marked
    close :
        {h : Jvm K Cap W} {old marked : List Cap}
        → History start h closing old marked
        → History start
            (close_call env.revoke_env h).1
            (closed (close_call env.revoke_env h).0)
            old
            marked
    clear :
        {h : Jvm K Cap W} {old marked : List Cap} (crc : ℤ)
        → History start h (closed crc) old marked
        → History start (after_close crc h) idle old marked

  -- such a history is one of `Cycles`
  History-Reach :
      {start h : Jvm K Cap W} {ph : Phase} {old marked : List Cap}
      → History start h ph old marked
      → Cycles.Reach mem vm env start h ph marked
  History-Reach begin = Cycles.begin
  History-Reach {ph} (cycle a memory roots roots' h' m n swept r there all width room few run) =
      Cycles.next (History-Reach r) (Cycles.collect memory roots roots' h' m n swept ph run)
  History-Reach {ph} (allocates {h} a n words r there request) =
      Cycles.next (History-Reach r) (Cycles.mutate _ ph (allocated_shadow h.space.arena n))
  History-Reach (test r e) = Cycles.next (History-Reach r) (Cycles.test e)
  History-Reach (close r) = Cycles.next (History-Reach r) Cycles.close
  History-Reach (clear crc r) = Cycles.next (History-Reach r) (Cycles.clear crc)

module _ {K Cap W : Type 0} ⦃ch : Cheri Cap⦄ ⦃os : Kernel K⦄ (doc : Documented ch) (base : Cap)
    {mem : Memory K Cap} {shadow : Cap} (law : Barrier mem shadow) (vm : Vm Cap) (env : CycleEnv)
    (revokes : env.no_revoke ≡ false) (concurrent : env.revoke_concurrent ≡ true)
    (small : (n : ℕ) → env.move_limit ≡ some n → n < word) where
  history_keeps :
      {start h : Jvm K Cap W} {ph : Phase} {old marked : List Cap}
      → Kept doc base mem vm env start []
      → History doc base mem vm env start h ph old marked
      → Kept doc base mem vm env h old
  history_keeps k begin = k
  history_keeps k (cycle {h} a memory roots roots' h' m n swept r there all width room few run) =
      cycle_keeps doc base mem vm env a memory roots roots' h' m n swept there all
        (limit_small env concurrent small h.close_pending) width room few run (history_keeps k r)
  history_keeps k (allocates a n words r there request) =
      allocates_keeps doc base mem vm env a n words there request (history_keeps k r)
  history_keeps k (test r e) = history_keeps k r
  history_keeps k (close {h} r) = Kept-space doc base mem vm env refl (history_keeps k r)
  history_keeps k (clear {h} crc r) =
      Kept-space doc base mem vm env (after_close_space doc base mem vm env crc h)
        (history_keeps k r)

  -- Under STOPLESS_REVOKE_CONCURRENT without STOPLESS_NO_REVOKE, with a move limit below 2 ^ 64 and
  -- a kernel that keeps what is documented of its load barrier, from a heap that the collector's
  -- steps reach, with its bitmap, with `g_cri` set and with no epoch open: after any history of
  -- cycles with room in the table, of allocations and of steps of the collector's thread, failing
  -- revocation calls included, no load gives a valid capability without SW_VMEM to an old copy of
  -- any cycle, if the call that was to mark it returned 0; and `forward_table_lookup` of every old
  -- copy gives a live capability with exact bounds, while the table has at most FT_CHASE_MAX
  -- entries. Each allocation and each object that a cycle may move is of a size whose sums stay
  -- below 2 ^ 64, and the arena's base is aligned for it.
  pub history_heals :
      {start h : Jvm K Cap W} {ph : Phase} {old marked : List Cap} (a : Arena Cap)
      → start.space.arena ≡ some a
      → Collector.Reach doc base (record { arena = a; forwarding = start.space.forwarding })
      → a.shadow ≡ some shadow
      → start.globals.cri ≡ true
      → Shut start.globals.kernel
      → History doc base mem vm env start h ph old marked
      → h.space.forwarding.table.size ≤ chase_max
      → AllGuarded law marked h.globals.kernel × AllLookUp doc base h.space.forwarding old
  history_heals {start} {h} {ph} {old} a there reach bitmap cri shut r few =
      let k = history_keeps (record { arena = a; there = there; reach = reach; kept = tt }) r in
      (
        cycles_stay_guarded law vm env revokes concurrent small (ap shadow_of there ∙ bitmap) cri
            shut (History-Reach doc base mem vm env r),
        look_up_all doc base k.reach old few k.kept,
      )
