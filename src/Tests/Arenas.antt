-- ===== src/Tests/Arenas.antt =====
-- The theorems on the allocator, at an arena of 8192 bytes.
use stopless_java_gc.Base.{
  ℕ, ◌+◌, ◌-◌, ◌^◌, ◌<◌, ◌≤◌, ◌≡◌, ◌⊎◌, refl, none, some, arith, update, [], ◌∷◌,
}
use stopless_java_gc.Arena.{Arena}
use stopless_java_gc.Allocator.{align_up_repr, reserve, alloc_in, object_at}
use stopless_java_gc.Allocator.Object.{Root, Allocated, alloc_in_lem, alloc_in_wraps}
use stopless_java_gc.Allocator.Race.{
  System, Reach, call, lose, win, begin, next, idle, trying, blocks_disjoint,
}
use stopless_java_gc.Tests.Machine.{Flat, flat, flat_Documented, arena_cap}

abbrev arena_at : ℕ → Arena Flat
arena_at cursor = record {
  base = some arena_cap;
  size = 8192;
  shadow = none;
  shadow_base_addr = 0;
  bump_offset = cursor;
}

root : Root flat_Documented arena_cap 8192
root = record { live = refl; at_start = refl; covers = omega arith; within = omega arith }

alloc_in_lem_example :
    ((al : ℕ) × (c : Flat) × Allocated flat_Documented
        (arena_at 64)
        arena_cap
        100
        4096
        refl
        root
        refl
        (omega arith)
        (omega arith)
        (omega arith)
        (omega arith)
        al
        c)
    ⊎ ((alloc_in (arena_at 64) 100 ≡ (none, arena_at 64))
        × (8192 < align_up_repr flat 64 100 + 100))
alloc_in_lem_example =
    alloc_in_lem flat_Documented (arena_at 64) arena_cap 100 4096 refl root refl (omega arith)
      (omega arith) (omega arith) (omega arith)

alloc_in_wraps_example :
    (alloc_in (arena_at 4096) (2 ^ 64 - 2048)
      ≡ (some (object_at arena_cap 4096 (2 ^ 64 - 2048)), arena_at 2048))
    × (2048 < 4096)
unfolding align_up_repr
alloc_in_wraps_example =
    alloc_in_wraps flat_Documented (arena_at 4096) arena_cap (2 ^ 64 - 2048) refl (omega arith)
      (omega arith) (omega arith) (omega arith) (omega arith) (omega arith)

-- Two threads load the cursor, one wins, the other loses and tries again.
abbrev contended : System
contended = record {
  bump = 96;
  blocks = (64, 32) ∷ (0, 64) ∷ [];
  pc =
      update
        (update (update (update (update (λ _. idle) 0 (trying 64 0)) 1 (trying 32 0)) 0 idle) 1
          (trying 32 64))
        1 idle;
}

contended-Reach : Reach flat_Documented 8192 contended
unfolding reserve align_up_repr
contended-Reach =
    next
      (next
        (next (next (next begin (call 0 64 refl (omega arith))) (call 1 32 refl (omega arith)))
          (win 0 {al = 0} {new = 64} refl refl refl))
        (lose 1 {r = (0, 32)} refl refl))
      (win 1 {al = 64} {new = 96} refl refl refl)

blocks_disjoint_example : (64 + 32 ≤ 96) × (96 ≤ 8192) × (0 + 64 ≤ 64)
blocks_disjoint_example =
    blocks_disjoint flat_Documented 8192 contended-Reach 0 1 (omega arith) (omega arith)
