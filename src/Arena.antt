-- ===== src/Arena.antt =====
-- `stopless_arena_t` of stopless_gc/revoke.h.
use stopless_java_gc.Base.{ℕ, Option}

-- The arena's capability, its size in bytes, the shadow bitmap's capability, the address that the
-- bitmap calls are given, and the bytes handed out. `none` is the null pointer.
pub record Arena (Cap : Type 0) : Type 0 where
  pub base : Option Cap
  pub size : ℕ
  pub shadow : Option Cap
  pub shadow_base_addr : ℕ
  pub bump_offset : ℕ
