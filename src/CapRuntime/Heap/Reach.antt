-- ===== src/CapRuntime/Heap/Reach.antt =====
-- A heap of the C++ library through any sequence of its calls, and the invariant that they keep.
use stopless_java_gc.Base.{
  ℕ, ◌^◌, ◌≤◌, ◌<◌, ◌≡◌, ◌≢◌, refl, sym, ◌∙◌, subst, ◌⊎◌, inl, inr, Bool, true, Option, some, List,
  [], ◌∷◌, arith, ℕ_discrete, some_inj, ne→==, Option-cases,
}
use stopless_java_gc.CapRuntime.SideTable.{color_finalizable}
use stopless_java_gc.CapRuntime.SideTable.Colors.{
  IsColored, make-IsColored, store-IsColored, flip-IsColored,
}
use stopless_java_gc.CapRuntime.Relocation.Blank.{make-IsBlank, clear-IsBlank}
use stopless_java_gc.CapRuntime.Relocation.Refine.{
  Implements, enter, no_entries, blank-Implements, install-Implements,
}
use stopless_java_gc.CapRuntime.Heap.{
  Heap, null_heap, made, make_heap, heap_create, side_table_store_color, side_table_flip_region,
  forwarding_install, forwarding_clear_region, revoke_region, revoke_quiesce,
}

-- In a log of installs, some one of a capability of this address to this capability.
pub data Logged {ℓ} {C : Type ℓ} (addr : C → ℕ) (key : ℕ) (x : C) : List (C × C) → Type ℓ where
  latest : {log : List (C × C)} (from : C) → addr from ≡ key → Logged addr key x ((from, x) ∷ log)
  earlier :
      {log : List (C × C)} (pair : C × C) → Logged addr key x log → Logged addr key x (pair ∷ log)

made_inj {ℓ} : {C : Type ℓ} {h h' : Heap C} → made h ≡ made h' → h ≡ h'
made_inj e = cc

module _ {ℓ} {C : Type ℓ} (null : C) (addr : C → ℕ) (R : Type 0) where
  -- A heap that calls of the library have led to, from `stopless_heap_create` on, and the installs
  -- since the last call of `stopless_forwarding_clear_region`.
  pub data Reach : Heap C → List (C × C) → Type ℓ where
    created :
        (heap_bytes : ℕ) (h : Heap C)
        → heap_bytes < 2 ^ 64
        → heap_create null true true heap_bytes ≡ made h
        → Reach h []
    stored :
        {h : Heap C} {log : List (C × C)} (cap : C) (color : ℕ)
        → color ≤ color_finalizable
        → Reach h log
        → Reach (side_table_store_color null addr h cap color) log
    flipped :
        {h : Heap C} {log : List (C × C)} (region : R) (from to : ℕ)
        → from ≤ color_finalizable
        → to ≤ color_finalizable
        → Reach h log
        → Reach (side_table_flip_region h region from to) log
    installed :
        {h : Heap C} {log : List (C × C)} (from to : C)
        → Reach h log
        → Reach (forwarding_install null addr h from to) ((from, to) ∷ log)
    cleared :
        {h : Heap C} {log : List (C × C)} (region : R)
        → Reach h log
        → Reach (forwarding_clear_region h region) []
    revoked :
        {h : Heap C} {log : List (C × C)} (region : R)
        → Reach h log
        → Reach (revoke_region h region) log
    quiesced : {h : Heap C} {log : List (C × C)} → Reach h log → Reach (revoke_quiesce h) log

  -- The invariant: the colours are colours, and every entry of the map has been installed.
  pub record IsSound (h : Heap C) (log : List (C × C)) : Type ℓ where
    pub colors : IsColored h.side_table
    pub entries : ℕ → Option C
    pub refines : Implements null h.forwarding entries
    pub logged : (key : ℕ) (x : C) → entries key ≡ some x → Logged addr key x log

  pub create_zero : (memory arrays : Bool) → heap_create null memory arrays 0 ≡ null_heap
  unfolding heap_create
  create_zero memory arrays = refl

  pub create_nonzero :
      (heap_bytes : ℕ)
      → heap_bytes ≢ 0
      → heap_create null true true heap_bytes ≡ made (make_heap null heap_bytes)
  unfolding heap_create
  create_nonzero heap_bytes ne = rw (ne→== heap_bytes 0 ne)

  make_heap-IsSound :
      (heap_bytes : ℕ) → heap_bytes < 2 ^ 64 → IsSound (make_heap null heap_bytes) []
  unfolding make_heap
  make_heap-IsSound heap_bytes fits = record {
    colors = make-IsColored heap_bytes;
    entries = no_entries;
    refines = blank-Implements (make-IsBlank heap_bytes fits);
    logged = λ key x e. absurd (cc);
  }

  created-IsSound :
      (heap_bytes : ℕ) (h : Heap C)
      → heap_bytes < 2 ^ 64
      → heap_create null true true heap_bytes ≡ made h
      → IsSound h []
  created-IsSound heap_bytes h fits e = elim (ℕ_discrete heap_bytes 0) [
    | yes z ↦
        let nothing : heap_create null true true heap_bytes ≡ null_heap =
          rw z (create_zero true true) in
        absurd (cc)
    | no ne ↦
        subst (λ k. IsSound k []) (made_inj (sym (create_nonzero heap_bytes ne) ∙ e))
          (make_heap-IsSound heap_bytes fits)
  ]

  enter-cases :
      (m : ℕ → Option C) (key to_key : ℕ) (to x : C)
      → enter m to_key to key ≡ some x
      → (m key ≡ some x) ⊎ ((to_key ≡ key) × (to ≡ x))
  unfolding enter
  enter-cases m key to_key to x e = elim (Option-cases (m to_key)) [
    | inr (old, here) ↦ inl (ground (arith, here))
    | inl out ↦ elim (ℕ_discrete to_key key) [
      | yes q ↦ elim (ℕ_discrete to_key 0) [
        | yes z ↦ inl (ground (arith, z))
        | no ne ↦ let same : some to ≡ some x = ground (arith, out, q, ne) in inr (q, some_inj same)
      ]
      | no ne ↦ inl (ground (arith, out, ne))
    ]
  ]

  Logged-cases :
      (log : List (C × C)) (from to : C) (key : ℕ) (x : C)
      → Logged addr key x log ⊎ ((addr from ≡ key) × (to ≡ x))
      → Logged addr key x ((from, to) ∷ log)
  Logged-cases log from to key x (inl before) = earlier (from, to) before
  Logged-cases log from to key x (inr (at_key, e)) =
      subst (λ c. Logged addr key x ((from, c) ∷ log)) (sym e) (latest from at_key)

  pub Reach-IsSound : {h : Heap C} {log : List (C × C)} → Reach h log → IsSound h log
  unfolding side_table_store_color side_table_flip_region forwarding_install forwarding_clear_region
      revoke_region revoke_quiesce
  Reach-IsSound (created heap_bytes h fits e) = created-IsSound heap_bytes h fits e
  Reach-IsSound (stored cap color le r) =
      let s = Reach-IsSound r in
      record {
        colors = store-IsColored (addr cap) color le s.colors;
        entries = s.entries;
        refines = s.refines;
        logged = s.logged;
      }
  Reach-IsSound (flipped region from to lf lt r) =
      let s = Reach-IsSound r in
      record {
        colors = flip-IsColored from to lt s.colors;
        entries = s.entries;
        refines = s.refines;
        logged = s.logged;
      }
  Reach-IsSound (installed {h} {log} from to r) =
      let s = Reach-IsSound r in
      let (follows, outcome, wiped) = install-Implements s.refines addr from to in
      elim outcome [
        | inl entered ↦ record {
          colors = s.colors;
          entries = enter s.entries (addr from) to;
          refines = entered;
          logged = λ key x e.
              Logged-cases log from to key x (elim (enter-cases s.entries key (addr from) to x e) [
                | inl before ↦ inl (s.logged key x before)
                | inr now ↦ inr now
              ]);
        }
        | inr (same, full) ↦ record {
          colors = s.colors;
          entries = s.entries;
          refines = rw same s.refines;
          logged = λ key x e. earlier (from, to) (s.logged key x e);
        }
      ]
  Reach-IsSound (cleared region r) =
      let s = Reach-IsSound r in
      record {
        colors = s.colors;
        entries = no_entries;
        refines = blank-Implements (clear-IsBlank s.refines.valid);
        logged = λ key x e. absurd (cc);
      }
  Reach-IsSound (revoked region r) =
      let s = Reach-IsSound r in
      record { colors = s.colors; entries = s.entries; refines = s.refines; logged = s.logged }
  Reach-IsSound (quiesced r) =
      let s = Reach-IsSound r in
      record { colors = s.colors; entries = s.entries; refines = s.refines; logged = s.logged }
