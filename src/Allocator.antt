-- ===== src/Allocator.antt =====
-- stopless_gc/allocator.c: the bump-pointer allocator. An arena pointer is an option, `none` the null
-- pointer; a call returns the arena with its new cursor.
pub mod Align
pub mod Object
pub mod Race
use stopless_java_gc.Base.{
  ℕ, ◌+◌, bit_and, Bool, true, false, ◌||◌, Option, none, some, ltb, ◌==◌, if◌then◌else◌, add64,
  not64,
}
use stopless_java_gc.Cheri.{Cheri}
use stopless_java_gc.Arena.{Arena}

unfoldable pub align_up_repr : {Cap : Type 0} → Cheri Cap → ℕ → ℕ → ℕ
align_up_repr ch off rounded =
    let mask = not64 (ch.alignment_mask rounded) in bit_and (add64 off mask) (not64 mask)

-- The body of the loop in `stopless_alloc` at the cursor `cur`: the offset of the object and the new
-- cursor, or `none` if the arena has no room.
unfoldable pub reserve : {Cap : Type 0} → Cheri Cap → ℕ → ℕ → ℕ → Option (ℕ × ℕ)
unfolding align_up_repr
reserve ch size rounded cur =
    let aligned_off = align_up_repr ch cur rounded in
    let new_off = add64 aligned_off rounded in
    if ltb size new_off then none else some (aligned_off, new_off)

module _ {Cap : Type 0} ⦃ch : Cheri Cap⦄ where
  -- `(char *)a->base + aligned_off`, narrowed and stripped of SW_VMEM
  unfoldable pub object_at : Cap → ℕ → ℕ → Cap
  object_at base aligned_off size_bytes =
      let obj = ch.address_set base (add64 (ch.address base) aligned_off) in
      ch.perms_and (ch.bounds_set obj size_bytes) (not64 ch.perm_sw_vmem)

  -- `stopless_alloc` on an arena that is there, while no other thread moves the cursor
  unfoldable pub alloc_in : Arena Cap → ℕ → Option Cap × Arena Cap
  unfolding reserve object_at
  alloc_in a size_bytes = elim a.base [
    | none ↦ (none, a)
    | some base ↦
        let rounded = ch.representable_length size_bytes in
        if size_bytes == 0 || ltb rounded size_bytes
        then (none, a)
        else elim (reserve ch a.size rounded a.bump_offset) [
          | none ↦ (none, a)
          | some (aligned_off, new_off) ↦
              (some (object_at base aligned_off size_bytes), record a { bump_offset = new_off })
        ]
  ]

  -- `stopless_alloc`
  unfoldable pub alloc : Option (Arena Cap) → ℕ → Option Cap × Option (Arena Cap)
  unfolding alloc_in
  alloc none size_bytes = (none, none)
  alloc (some a) size_bytes = let (c, a') = alloc_in a size_bytes in (c, some a')

-- `stopless_arena_used`
unfoldable pub arena_used : {Cap : Type 0} → Option (Arena Cap) → ℕ
arena_used none = 0
arena_used (some a) = a.bump_offset

-- `stopless_arena_reset`
unfoldable pub arena_reset : {Cap : Type 0} → Option (Arena Cap) → Option (Arena Cap)
arena_reset none = none
arena_reset (some a) = some (record a { bump_offset = 0 })
