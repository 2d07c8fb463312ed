-- ===== src/Tests/Roots.antt =====
-- The theorems on whole cycles of the VM's collector, at the object of `Collect`.
use stopless_java_gc.Base.{
  ℕ, ◌≡◌, refl, true, false, none, some, inr, Option, List, [], ◌∷◌, ◌++◌, arith,
}
use stopless_java_gc.ForwardTable.{init, maybe_grow, find, mix, put}
use stopless_java_gc.Forwarding.{lookup, cas_insert}
use stopless_java_gc.Allocator.{alloc}
use stopless_java_gc.Revoke.{revoke_open}
use stopless_java_gc.Revoke.Mark.{mark_revoke_cap}
use stopless_java_gc.StoplessHeap.{scan_roots}
use stopless_java_gc.StoplessHeap.Marks.{took, AllGuarded}
use stopless_java_gc.StoplessHeap.Cycles.{idle}
use stopless_java_gc.StoplessHeap.History.{History, begin, cycle, history_heals}
use stopless_java_gc.StoplessHeap.Collect.{Jvm, Pause, resumes, doit, limit_of, mark_all}
use stopless_java_gc.StoplessHeap.Forwarded.{Object}
use stopless_java_gc.StoplessHeap.LookUp.{AllLookUp}
use stopless_java_gc.StoplessHeap.Roots.{Collects, doit-Collects}
use stopless_java_gc.Tests.Machine.{Flat, flat, flat_Documented, arena_cap, cap_to}
use stopless_java_gc.Tests.Collect.{arena_at, first_table, allocated-Reach, request, fresh}
use stopless_java_gc.Tests.Pauses.{
  Machine, kernel, mem, vm, env, start, law, limits, heap_of, mover_of, roots_of,
}

-- the object at 4096 has been allocated, and nothing has moved
abbrev heap : Jvm Machine Flat ℕ
heap = record start {
  space = record { arena = some (arena_at 64); forwarding = first_table; words = λ a. a };
}

held-Object : Object flat_Documented arena_cap vm (arena_at 64) 4160 (cap_to 4096 64)
held-Object = record { nonzero = omega arith; old = omega arith; request = request 64 }

table_width : first_table.table.capacity ≡ 65536
unfolding init
table_width = refl

limit : limit_of env heap.close_pending ≡ 8
unfolding limit_of
limit = refl

doit-Collects_example :
    Collects flat_Documented arena_cap mem vm env true heap [] (none ∷ some (cap_to 4096 64) ∷ [])
doit-Collects_example =
    doit-Collects flat_Documented arena_cap mem vm env true heap []
      (none ∷ some (cap_to 4096 64) ∷ []) (arena_at 64) refl allocated-Reach (inr held-Object, tt)
      (omega (arith, limit)) (omega (arith, table_width))
      (omega (arith, limit, fresh.size, table_width)) (omega (arith, limit, fresh.size)) tt

abbrev roots : List (Option Flat)
roots = none ∷ some (cap_to 4096 64) ∷ []

abbrev pause : Pause Machine Flat ℕ
pause = doit mem vm true env heap roots

runs_on : pause ≡ resumes (heap_of pause) (mover_of pause) (roots_of pause) 1 false
unfolding doit maybe_grow scan_roots lookup find mix alloc cas_insert revoke_open mark_all
    mark_revoke_cap init
runs_on = refl

-- the copies that the cycle has marked
abbrev marked_copies : List Flat
marked_copies =
    took mem (mover_of pause).space.arena (mover_of pause).moved_from heap.globals.kernel ++ []

-- the cycle with its epoch open
history :
    History flat_Documented arena_cap mem vm env heap
      (heap_of pause)
      idle
      ((mover_of pause).moved_from ++ [])
      marked_copies
history =
    cycle (arena_at 64) true roots (roots_of pause) (heap_of pause) (mover_of pause) 1 false begin
      refl (inr held-Object, tt) (omega (arith, table_width))
      (omega (arith, limit, fresh.size, table_width)) (omega (arith, limit, fresh.size)) runs_on

fills : (heap_of pause).space.forwarding.table.size ≡ 1
unfolding doit maybe_grow scan_roots lookup find mix alloc cas_insert revoke_open mark_all
    mark_revoke_cap init put
fills = refl

history_heals_example :
    AllGuarded law marked_copies (heap_of pause).globals.kernel
    × AllLookUp flat_Documented arena_cap
        (heap_of pause).space.forwarding
        ((mover_of pause).moved_from ++ [])
history_heals_example =
    history_heals flat_Documented arena_cap law vm env refl refl limits (arena_at 64) refl
      allocated-Reach refl refl refl history (omega (arith, fills))
