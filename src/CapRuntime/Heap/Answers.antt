-- ===== src/CapRuntime/Heap/Answers.antt =====
-- What a heap of the C++ library answers, whatever the calls that it has been through.
use stopless_java_gc.Base.{
  ne→==, ℕ, ◌^◌, ◌≤◌, ◌<◌, ◌≡◌, ◌≢◌, sym, ◌∙◌, subst, ◌⊎◌, inl, inr, Bool, true, false, Option,
  some, List, arith, Option-cases,
}
use stopless_java_gc.CapRuntime.SideTable.{color_good, color_finalizable}
use stopless_java_gc.CapRuntime.SideTable.Colors.{load_color-le, load-make}
use stopless_java_gc.CapRuntime.Relocation.Blank.{lookup-make}
use stopless_java_gc.CapRuntime.Relocation.Refine.{follow, install-Implements}
use stopless_java_gc.CapRuntime.Heap.{
  Heap, null_heap, made, bad_alloc, make_heap, heap_create, side_table_load_color,
  forwarding_lookup,
}
use stopless_java_gc.CapRuntime.Heap.Reach.{
  Logged, Reach, Reach-IsSound, create_zero, create_nonzero,
}

module _ {ℓ} {C : Type ℓ} (null : C) (addr : C → ℕ) (R : Type 0) where
  lookup-cases :
      (m : ℕ → Option C) (key : ℕ) (c : C)
      → (follow m key c ≡ c) ⊎ ((x : C) × (m key ≡ some x) × (follow m key c ≡ x))
  unfolding follow
  lookup-cases m key c = elim (Option-cases (m key)) [
    | inl out ↦ inl (rw (follow, out))
    | inr (x, e) ↦ inr (x, e, rw (follow, e))
  ]

  -- Whatever the calls that a heap has been through, `stopless_forwarding_lookup` of a capability
  -- gives that capability, or one to which a capability of the same address has been forwarded by
  -- `stopless_forwarding_install` since the last `stopless_forwarding_clear_region`.
  pub lookup-Logged :
      {h : Heap C} {log : List (C × C)}
      → Reach null addr R h log
      → (c : C)
      → (forwarding_lookup null addr h c ≡ c)
        ⊎ Logged addr (addr c) (forwarding_lookup null addr h c) log
  unfolding forwarding_lookup
  lookup-Logged {h} {log} r c =
      let s = Reach-IsSound null addr R r in
      let (follows, outcome, wiped) = install-Implements s.refines addr c c in
      elim (lookup-cases s.entries (addr c) c) [
        | inl same ↦ inl (follows c ∙ same)
        | inr (x, e, to_x) ↦ inr (
            subst (λ y. Logged addr (addr c) y log) (sym (follows c ∙ to_x))
              (s.logged (addr c) x e))
      ]

  -- Whatever the calls that a heap has been through, with values of `stopless_color_t` as their
  -- colours, `stopless_side_table_load_color` gives a value of `stopless_color_t`.
  pub load_color-bound :
      {h : Heap C} {log : List (C × C)}
      → Reach null addr R h log
      → (c : C) → side_table_load_color null addr h c ≤ color_finalizable
  unfolding side_table_load_color
  load_color-bound r c = load_color-le (addr c) (Reach-IsSound null addr R r).colors

  -- `stopless_heap_create` of 0 bytes gives NULL. For any other size that a word holds it gives NULL
  -- without memory for the heap, throws without memory for its tables, and otherwise gives a heap in
  -- which every capability has the colour STOPLESS_COLOR_GOOD and every lookup gives its argument back.
  pub heap_create_lem :
      (heap_bytes : ℕ)
      → heap_bytes < 2 ^ 64
      → heap_bytes ≢ 0
      → ((arrays : Bool) → heap_create null false arrays heap_bytes ≡ null_heap)
        × ((memory arrays : Bool) → heap_create null memory arrays 0 ≡ null_heap)
        × (heap_create null true false heap_bytes ≡ bad_alloc)
        × ((h : Heap C) × (heap_create null true true heap_bytes ≡ made h)
            × ((c : C)
                → (side_table_load_color null addr h c ≡ color_good)
                  × (forwarding_lookup null addr h c ≡ c)))
  unfolding heap_create make_heap side_table_load_color forwarding_lookup
  heap_create_lem heap_bytes fits ne = (
    λ arrays. ground arith,
    create_zero null addr R,
    rw (ne→== heap_bytes 0 ne),
    (
      make_heap null heap_bytes,
      create_nonzero null addr R heap_bytes ne,
      λ c. (load-make heap_bytes (addr c), (lookup-make heap_bytes fits).1 addr c),
    ),
  )
