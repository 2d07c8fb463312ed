-- ===== src/Revoke/Mark.antt =====
-- stopless_gc/revoke.c: the arena's mapping and the marks in its shadow bitmap.
use stopless_java_gc.Base.{
  ℕ, ◌+◌, ◌<◌, ◌≡◌, ◌≢◌, ap, ◌∙◌, inl, inr, Bool, true, false, not, ◌&&◌, ◌||◌, Option, none, some,
  leb, ltb, ◌==◌, if◌then◌else◌, add64, word, arith, Bool-cases, ℕ_discrete, subst,
}
use stopless_java_gc.Base.Int.{ℤ, pos, is_zero, minus_one}
use stopless_java_gc.Arena.{Arena}
use stopless_java_gc.Revoke.Calls.{Kernel, Memory, ShadowLaws}
use stopless_java_gc.Revoke.{Globals, ensure_cri}

-- what `memset` leaves
abbrev pub zeroed : {Cap : Type 0} → Arena Cap
zeroed = record { base = none; size = 0; shadow = none; shadow_base_addr = 0; bump_offset = 0 }

module _ {K Cap : Type 0} (mem : Memory K Cap) where
  -- `stopless_arena_init` after the mapping and `ensure_cri`
  unfoldable pub attach : Cap → ℕ → Globals K → ℤ × Arena Cap × Globals K
  attach p size g =
      let k = g.kernel in
      let (shadow, k') = mem.get_shadow p k in
      elim shadow [
        | none ↦ (minus_one, zeroed, record g { kernel = mem.unmap p size k' })
        | some b ↦ (
          pos 0,
          record {
            base = some p;
            size = size;
            shadow = some b;
            shadow_base_addr = mem.base_mem_nomap k;
            bump_offset = 0;
          },
          record g { kernel = k' },
        )
      ]

  -- `stopless_arena_init` into an arena that is there
  unfoldable pub init_in : ⦃os : Kernel K⦄ → Arena Cap → ℕ → Globals K → ℤ × Arena Cap × Globals K
  unfolding ensure_cri attach
  init_in out size g =
      if size == 0
      then (minus_one, out, g)
      else (let (mapped, k) = mem.map_arena size g.kernel in
          elim mapped [
            | none ↦ (minus_one, zeroed, record g { kernel = k })
            | some p ↦
                let (ready, g') = ensure_cri (record g { kernel = k }) in
                if is_zero ready
                then attach p size g'
                else (minus_one, zeroed, record g' { kernel = mem.unmap p size g'.kernel })
          ])

  -- `stopless_arena_init`
  unfoldable pub arena_init :
      ⦃os : Kernel K⦄ → Option (Arena Cap) → ℕ → Globals K → ℤ × Option (Arena Cap) × Globals K
  unfolding init_in
  arena_init none size g = (minus_one, none, g)
  arena_init (some out) size g = let (rc, a, g') = init_in out size g in (rc, some a, g')

  -- `stopless_arena_fini`
  unfoldable pub arena_fini : Option (Arena Cap) → K → Option (Arena Cap) × K
  arena_fini none k = (none, k)
  arena_fini (some a) k = elim a.base [
    | none ↦ (some a, k)
    | some p ↦ (some zeroed, mem.unmap p a.size k)
  ]

  -- `stopless_mark_revoke`
  unfoldable pub mark_revoke : Option (Arena Cap) → ℕ → ℕ → K → K
  mark_revoke none obj_addr len k = k
  mark_revoke (some a) obj_addr len k = elim a.shadow [
    | none ↦ k
    | some shadow ↦
        if len == 0
        then k
        else mem.set_raw a.shadow_base_addr shadow obj_addr (add64 obj_addr len) k
  ]

  -- `stopless_unmark_revoke`
  unfoldable pub unmark_revoke : Option (Arena Cap) → ℕ → ℕ → K → K
  unmark_revoke none obj_addr len k = k
  unmark_revoke (some a) obj_addr len k = elim a.shadow [
    | none ↦ k
    | some shadow ↦
        if len == 0
        then k
        else mem.clear_raw a.shadow_base_addr shadow obj_addr (add64 obj_addr len) k
  ]

  -- `stopless_mark_revoke_cap`
  unfoldable pub mark_revoke_cap : Option (Arena Cap) → Option Cap → K → ℤ × K
  mark_revoke_cap none obj_cap k = (minus_one, k)
  mark_revoke_cap (some a) obj_cap k = elim a.shadow [
    | none ↦ (minus_one, k)
    | some shadow ↦ elim obj_cap [
      | none ↦ (minus_one, k)
      | some c ↦ mem.set_cap a.shadow_base_addr shadow c k
    ]
  ]

module _ {K Cap : Type 0} {mem : Memory K Cap} (law : ShadowLaws mem) (a : Arena Cap) (shadow : Cap)
    (there : a.shadow ≡ some shadow) (obj_addr len : ℕ) (small : obj_addr + len < word) where
  -- whether an address is in the object
  abbrev pub in_object : ℕ → Bool
  in_object x = leb obj_addr x && ltb x (obj_addr + len)

  nothing_in : (x : ℕ) → len ≡ 0 → in_object x ≡ false
  nothing_in x z = ground arith

  mark_none : (k : K) → len ≡ 0 → mark_revoke mem (some a) obj_addr len k ≡ k
  unfolding mark_revoke
  mark_none k z = ground (arith, there)

  mark_some :
      (k : K)
      → len ≢ 0
      → mark_revoke mem (some a) obj_addr len k
        ≡ mem.set_raw a.shadow_base_addr shadow obj_addr (obj_addr + len) k
  unfolding mark_revoke
  mark_some k ne =
      let plain : add64 obj_addr len ≡ obj_addr + len = omega arith in
      subst
        (λ e.
          mark_revoke mem (some a) obj_addr len k
          ≡ mem.set_raw a.shadow_base_addr shadow obj_addr e k)
        plain (ground (arith, there))

  unmark_none : (k : K) → len ≡ 0 → unmark_revoke mem (some a) obj_addr len k ≡ k
  unfolding unmark_revoke
  unmark_none k z = ground (arith, there)

  unmark_some :
      (k : K)
      → len ≢ 0
      → unmark_revoke mem (some a) obj_addr len k
        ≡ mem.clear_raw a.shadow_base_addr shadow obj_addr (obj_addr + len) k
  unfolding unmark_revoke
  unmark_some k ne =
      let plain : add64 obj_addr len ≡ obj_addr + len = omega arith in
      subst
        (λ e.
          unmark_revoke mem (some a) obj_addr len k
          ≡ mem.clear_raw a.shadow_base_addr shadow obj_addr e k)
        plain (ground (arith, there))

  -- `stopless_mark_revoke` sets the bits of the addresses from `obj_addr` to `obj_addr + len`,
  -- exclusive, and no other, if the sum is below 2 ^ 64 and the arena has its bitmap.
  pub mark_revoke_lem :
      (k : K) (x : ℕ)
      → mem.marked shadow x (mark_revoke mem (some a) obj_addr len k)
        ≡ in_object x || mem.marked shadow x k
  mark_revoke_lem k x = elim (ℕ_discrete len 0) [
    | yes z ↦ ap (mem.marked shadow x) (mark_none k z) ∙ rw (nothing_in x z)
    | no ne ↦
        ap (mem.marked shadow x) (mark_some k ne)
        ∙ law.marked-set_raw a.shadow_base_addr shadow obj_addr (obj_addr + len) k x
  ]

  unmark_revoke_lem :
      (k : K) (x : ℕ)
      → mem.marked shadow x (unmark_revoke mem (some a) obj_addr len k)
        ≡ not (in_object x) && mem.marked shadow x k
  unmark_revoke_lem k x = elim (ℕ_discrete len 0) [
    | yes z ↦ ap (mem.marked shadow x) (unmark_none k z) ∙ rw (nothing_in x z)
    | no ne ↦
        ap (mem.marked shadow x) (unmark_some k ne)
        ∙ law.marked-clear_raw a.shadow_base_addr shadow obj_addr (obj_addr + len) k x
  ]

  -- `stopless_unmark_revoke` takes back `stopless_mark_revoke` of the same object: every bit is as it
  -- was, if no bit of the object was set before.
  pub unmark-mark :
      (k : K)
      → ((x : ℕ) → in_object x ≡ true → mem.marked shadow x k ≡ false)
      → (x : ℕ)
      → mem.marked shadow x
          (unmark_revoke mem (some a) obj_addr len (mark_revoke mem (some a) obj_addr len k))
        ≡ mem.marked shadow x k
  unmark-mark k fresh x =
      unmark_revoke_lem (mark_revoke mem (some a) obj_addr len k) x
      ∙ (ap (λ b. not (in_object x) && b) (mark_revoke_lem k x)
          ∙ elim (Bool-cases (in_object x)) [ inl e ↦ rw (e, fresh x e) | inr e ↦ rw e ])
