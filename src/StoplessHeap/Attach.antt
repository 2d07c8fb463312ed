-- ===== src/StoplessHeap/Attach.antt =====
-- revoke.c, `stopless_arena_init` as the heap of the VM calls it: the arena that a success gives, and
-- what the kernel refuses otherwise.
use stopless_java_gc.Base.{
  ℕ, ◌⊎◌, ◌≡◌, ◌≢◌, refl, sym, subst, inl, inr, true, false, none, some, arith, Bool-cases,
  Option-cases,
}
use stopless_java_gc.Base.Int.{ℤ, is_zero}
use stopless_java_gc.Arena.{Arena}
use stopless_java_gc.Revoke.Calls.{Kernel, Memory}
use stopless_java_gc.Revoke.{Globals, ensure_cri}
use stopless_java_gc.Revoke.Mark.{init_in}
use stopless_java_gc.Revoke.Init.{
  init_unmapped, init_attach, init_not_ready, attach_run, attach_fail,
}

ensure_cri_ready :
    {K : Type 0}
    → ⦃os : Kernel K⦄ → (g : Globals K) → is_zero (ensure_cri g).0 ≡ true
    → (ensure_cri g).1.cri ≡ true
unfolding ensure_cri
ensure_cri_ready g e = ground (arith, e)

module _ {K Cap : Type 0} ⦃os : Kernel K⦄ (mem : Memory K Cap) where
  -- the globals when `stopless_arena_init` asks for the bitmap
  abbrev pub asking : ℕ → Globals K → Globals K
  asking size g = (ensure_cri (record g { kernel = (mem.map_arena size g.kernel).1 })).1

  -- A successful `stopless_arena_init` from the globals `g₀`: the arena, over the mapping that `mmap`
  -- returned, with the bitmap that the kernel gave for that mapping, and the address that the calls for
  -- marks are given.
  pub record Attaches (size : ℕ) (g₀ : Globals K) (a : Arena Cap) (g : Globals K) : Type 0 where
    pub mapping : Cap
    pub bitmap : Cap
    pub from_mmap : (mem.map_arena size g₀.kernel).0 ≡ some mapping
    pub from_kernel : (mem.get_shadow mapping (asking size g₀).kernel).0 ≡ some bitmap
    pub base : a.base ≡ some mapping
    pub shadow : a.shadow ≡ some bitmap
    pub shadow_base : a.shadow_base_addr ≡ mem.base_mem_nomap (asking size g₀).kernel
    pub extent : a.size ≡ size
    pub unused : a.bump_offset ≡ 0
    pub cri : g.cri ≡ true

  -- what a call of the kernel refuses to `stopless_arena_init`: the mapping, the information page or
  -- the bitmap of the mapping
  abbrev pub Refused : ℕ → Globals K → Type 0
  Refused size g =
      let g₁ = record g { kernel = (mem.map_arena size g.kernel).1 } in
      ((mem.map_arena size g.kernel).0 ≡ none)
      ⊎ ((is_zero (ensure_cri g₁).0 ≡ false)
          ⊎ ((p : Cap) × ((mem.map_arena size g.kernel).0 ≡ some p)
              × ((mem.get_shadow p (ensure_cri g₁).1.kernel).0 ≡ none)))

  -- of a result of `stopless_arena_init`, called with the globals `g₀`
  abbrev pub Tried : ℕ → Globals K → ℤ × Arena Cap × Globals K → Type 0
  Tried size g₀ (rc, a, g) =
      ((is_zero rc ≡ true) × Attaches size g₀ a g) ⊎ ((is_zero rc ≡ false) × Refused size g₀)

  pub init_in-Tried :
      (out : Arena Cap) (size : ℕ) (g : Globals K)
      → size ≢ 0
      → Tried size g (init_in mem out size g)
  init_in-Tried out size g ne =
      let g₁ = record g { kernel = (mem.map_arena size g.kernel).1 } in
      let g₂ = (ensure_cri g₁).1 in
      elim (Option-cases (mem.map_arena size g.kernel).0) [
        | inl e ↦ subst (Tried size g) (sym (init_unmapped mem out size g ne e)) (inr (refl, inl e))
        | inr (p, e) ↦ elim (Bool-cases (is_zero (ensure_cri g₁).0)) [
          | inr off ↦
              subst (Tried size g) (sym (init_not_ready mem out size g p ne e off))
                (inr (refl, inr (inl off)))
          | inl ready ↦
              subst (Tried size g) (sym (init_attach mem out size g p ne e ready))
                (elim (Option-cases (mem.get_shadow p g₂.kernel).0) [
                  | inl none_there ↦
                      subst (Tried size g) (sym (attach_fail mem p size g₂ none_there))
                        (inr (refl, inr (inr (p, e, none_there))))
                  | inr (b, there) ↦ subst (Tried size g) (sym (attach_run mem p b size g₂ there)) (
                      inl (
                        refl,
                        record {
                          mapping = p;
                          bitmap = b;
                          from_mmap = e;
                          from_kernel = there;
                          base = refl;
                          shadow = refl;
                          shadow_base = refl;
                          extent = refl;
                          unused = refl;
                          cri = ensure_cri_ready g₁ ready;
                        },
                      ))
                ])
        ]
      ]
