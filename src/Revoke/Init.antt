-- ===== src/Revoke/Init.antt =====
-- `stopless_arena_init` and `stopless_arena_fini`: what they return and leave, on every branch.
use stopless_java_gc.Base.{
  ℕ, ◌≡◌, ◌≢◌, refl, sym, subst, true, false, inl, inr, Option, none, some, arith, Bool-cases,
  Option-cases,
}
use stopless_java_gc.Base.Int.{ℤ, pos, minus_one, is_zero}
use stopless_java_gc.Arena.{Arena}
use stopless_java_gc.Revoke.Calls.{Kernel, Memory}
use stopless_java_gc.Revoke.{Globals, ensure_cri}
use stopless_java_gc.Revoke.Mark.{zeroed, attach, init_in, arena_fini}

-- An arena with its mapping, its bitmap and no object.
pub record Attached {K Cap : Type 0} (mem : Memory K Cap) (size : ℕ) (a : Arena Cap) : Type 0 where
  pub mapping : Cap
  pub bitmap : Cap
  pub base : a.base ≡ some mapping
  pub shadow : a.shadow ≡ some bitmap
  pub extent : a.size ≡ size
  pub unused : a.bump_offset ≡ 0

-- What `stopless_arena_init` returns, and leaves in the arena: 0 and an attached one, or -1 and one
-- that is all zeroes.
pub data Inits {K Cap : Type 0} (mem : Memory K Cap) (size : ℕ)
    : ℤ × Arena Cap × Globals K → Type 0 where
  attached : {a : Arena Cap} {g : Globals K} → Attached mem size a → Inits mem size (pos 0, a, g)
  failed : {g : Globals K} → Inits mem size (minus_one, zeroed, g)

module _ {K Cap : Type 0} (mem : Memory K Cap) where
  pub attach_run :
      (p b : Cap) (size : ℕ) (g : Globals K)
      → (mem.get_shadow p g.kernel).0 ≡ some b
      → attach mem p size g ≡ (
        pos 0,
        record {
          base = some p;
          size = size;
          shadow = some b;
          shadow_base_addr = mem.base_mem_nomap g.kernel;
          bump_offset = 0;
        },
        record g { kernel = (mem.get_shadow p g.kernel).1 },
      )
  unfolding attach
  attach_run p b size g e = ground (arith, e)

  pub attach_fail :
      (p : Cap) (size : ℕ) (g : Globals K)
      → (mem.get_shadow p g.kernel).0 ≡ none
      → attach mem p size g
        ≡ (minus_one, zeroed, record g { kernel = mem.unmap p size (mem.get_shadow p g.kernel).1 })
  unfolding attach
  attach_fail p size g e = ground (arith, e)

  attach_lem : (p : Cap) (size : ℕ) (g : Globals K) → Inits mem size (attach mem p size g)
  attach_lem p size g = elim (Option-cases (mem.get_shadow p g.kernel).0) [
    | inl e ↦ subst (Inits mem size) (sym (attach_fail p size g e)) failed
    | inr (b, e) ↦ subst (Inits mem size) (sym (attach_run p b size g e)) (
        attached (record {
          mapping = p;
          bitmap = b;
          base = refl;
          shadow = refl;
          extent = refl;
          unused = refl;
        }))
  ]

  module _ ⦃os : Kernel K⦄ (out : Arena Cap) (size : ℕ) (g : Globals K) where
    -- the globals after the mapping
    abbrev pub mapped : Globals K
    mapped = record g { kernel = (mem.map_arena size g.kernel).1 }

    pub init_unmapped :
        size ≢ 0
        → (mem.map_arena size g.kernel).0 ≡ none
        → init_in mem out size g ≡ (minus_one, zeroed, mapped)
    unfolding init_in
    init_unmapped ne e = ground (arith, e)

    pub init_attach :
        (p : Cap)
        → size ≢ 0
        → (mem.map_arena size g.kernel).0 ≡ some p
        → is_zero (ensure_cri mapped).0 ≡ true
        → init_in mem out size g ≡ attach mem p size (ensure_cri mapped).1
    unfolding init_in
    init_attach p ne e ready = ground (arith, e, ready)

    pub init_not_ready :
        (p : Cap)
        → size ≢ 0
        → (mem.map_arena size g.kernel).0 ≡ some p
        → is_zero (ensure_cri mapped).0 ≡ false
        → let g' = (ensure_cri mapped).1 in
          init_in mem out size g
          ≡ (minus_one, zeroed, record g' { kernel = mem.unmap p size g'.kernel })
    unfolding init_in
    init_not_ready p ne e ready = ground (arith, e, ready)

    -- `stopless_arena_init` of a nonzero size returns 0 with an arena of that size, which has its
    -- mapping, its bitmap and no object yet, or -1 with an arena that is all zeroes.
    pub init_in-Inits : size ≢ 0 → Inits mem size (init_in mem out size g)
    init_in-Inits ne = elim (Option-cases (mem.map_arena size g.kernel).0) [
      | inl e ↦ subst (Inits mem size) (sym (init_unmapped ne e)) failed
      | inr (p, e) ↦ elim (Bool-cases (is_zero (ensure_cri mapped).0)) [
        | inl ready ↦
            subst (Inits mem size) (sym (init_attach p ne e ready))
              (attach_lem p size (ensure_cri mapped).1)
        | inr not_ready ↦ subst (Inits mem size) (sym (init_not_ready p ne e not_ready)) failed
      ]
    ]

  -- `stopless_arena_fini` is done once: after it, a second call changes nothing, in the arena or in
  -- the kernel.
  pub arena_fini_once :
      (a : Option (Arena Cap)) (k : K)
      → let (a', k') = arena_fini mem a k in arena_fini mem a' k' ≡ (a', k')
  unfolding arena_fini
  arena_fini_once none k = refl
  arena_fini_once (some a) k = elim (Option-cases a.base) [
    | inl e ↦ ground (arith, e)
    | inr (p, e) ↦ ground (arith, e)
  ]
