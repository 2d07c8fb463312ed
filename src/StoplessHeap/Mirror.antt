-- ===== src/StoplessHeap/Mirror.antt =====
-- stoplessArena.cpp: the VM's arena, which holds an arena of the runtime and a mirror of its cursor.
-- `print_on` and `verify`, which change nothing, are left out.
use stopless_java_gc.Base.{ℕ, ◌≡◌, refl, ap, ◌∙◌, inl, inr, Option, none, some, Option-cases}
use stopless_java_gc.Cheri.{Cheri}
use stopless_java_gc.Arena.{Arena}
use stopless_java_gc.Allocator.{alloc, arena_used, arena_reset}
use stopless_java_gc.Revoke.Calls.{Kernel, Memory}
use stopless_java_gc.Revoke.Mark.{arena_fini}

-- `StoplessArena`: `_c`, `_capacity` and `_bump_offset`
pub record StoplessArena (Cap : Type 0) : Type 0 where
  pub c : Option (Arena Cap)
  pub capacity : ℕ
  pub bump_offset : ℕ

module _ {Cap : Type 0} where
  -- `StoplessArena::base`
  unfoldable pub arena_base_of : StoplessArena Cap → Option Cap
  arena_base_of s = elim s.c [ none ↦ none | some a ↦ a.base ]

  -- `StoplessArena::used`
  unfoldable pub used : StoplessArena Cap → ℕ
  unfolding arena_used
  used s = arena_used s.c

  -- `StoplessArena::reset`
  unfoldable pub reset : StoplessArena Cap → StoplessArena Cap
  unfolding arena_reset
  reset s = elim s.c [ none ↦ s | some a ↦ record s { c = arena_reset (some a); bump_offset = 0 } ]

-- `StoplessArena::allocate`
unfoldable pub arena_allocate :
    {Cap : Type 0} → ⦃ch : Cheri Cap⦄ → ℕ → StoplessArena Cap → Option Cap × StoplessArena Cap
unfolding alloc arena_used
arena_allocate bytes s = elim s.c [
  | none ↦ (none, s)
  | some a ↦
      let (p, c') = alloc (some a) bytes in (p, record s { c = c'; bump_offset = arena_used c' })
]

-- `StoplessArena::~StoplessArena`
unfoldable pub destroy :
    {K Cap : Type 0}
    → ⦃os : Kernel K⦄ → Memory K Cap
    → StoplessArena Cap
    → K
    → StoplessArena Cap × K
unfolding arena_fini
destroy mem s k = elim s.c [
  | none ↦ (s, k)
  | some a ↦ let (a', k') = arena_fini mem (some a) k in (record s { c = none }, k')
]

-- The mirror has the cursor.
abbrev pub Mirrors : {Cap : Type 0} → StoplessArena Cap → Type 0
Mirrors s = s.bump_offset ≡ arena_used s.c

-- With the mirror forgotten an allocation is `stopless_alloc` of the runtime's arena, and the mirror has
-- the cursor afterwards.
pub arena_allocate-alloc :
    {Cap : Type 0}
    → ⦃ch : Cheri Cap⦄ → (bytes : ℕ) (s : StoplessArena Cap) → Mirrors s
    → ((arena_allocate bytes s).0 ≡ (alloc s.c bytes).0)
      × ((arena_allocate bytes s).1.c ≡ (alloc s.c bytes).1)
      × Mirrors (arena_allocate bytes s).1
unfolding arena_allocate alloc
arena_allocate-alloc bytes s mirrors = elim (Option-cases s.c) [
  | inl e ↦ rw e (refl, refl, mirrors ∙ ap arena_used e)
  | inr (a, e) ↦ rw e (refl, refl, refl)
]

-- After a reset nothing is in use, and the mirror says so.
pub used-reset :
    {Cap : Type 0}
    → (s : StoplessArena Cap) → (used (reset s) ≡ 0) × (Mirrors s → Mirrors (reset s))
unfolding used reset arena_used arena_reset
used-reset s = elim (Option-cases s.c) [
  | inl e ↦ rw e (refl, λ mirrors. mirrors)
  | inr (a, e) ↦ rw e (refl, λ mirrors. refl)
]
