-- ===== src/StoplessHeap/Scan.antt =====
-- stoplessHeap.cpp, the scan of the roots: how much it moves, and what it leaves alone.
use stopless_java_gc.Base.{
  ℕ, suc, ◌+◌, ◌≤◌, ◌<◌, ◌≡◌, refl, ap, subst, ◌∙◌, Bool, ◌||◌, Option, none, some, List, [], ◌∷◌,
  ◌++◌, inl, inr, leb, ◌==◌, add64, word, arith, length, Bool-cases, Option-cases, mul64,
}
use stopless_java_gc.Cheri.{Cheri}
use stopless_java_gc.Arena.{Arena}
use stopless_java_gc.Allocator.{alloc, alloc_in}
use stopless_java_gc.Forwarding.{CasResult, returned, spins, null_table, lookup, cas_insert}
use stopless_java_gc.StoplessHeap.{
  Space, Vm, Options, Mover, Visit, leaves, waits, null_read, Scanned, scanned, scan_waits,
  scan_null, is_in, mem_allocate, move_object, filtered, complex, fix_root, after_cas, relocate,
  do_oop, with_root, scan_roots,
}

-- the shadow bitmap of the arena
abbrev pub shadow_of : {Cap : Type 0} → Option (Arena Cap) → Option Cap
shadow_of none = none
shadow_of (some a) = a.shadow

length-snoc : {A : Type 0} (xs : List A) (a : A) → length (xs ++ (a ∷ [])) ≡ length xs + 1
length-snoc [] a = refl
length-snoc (x ∷ xs) a = let e = length-snoc xs a in omega (arith, e)

module _ {Cap : Type 0} ⦃ch : Cheri Cap⦄ where
  pub alloc-shadow : (a : Option (Arena Cap)) (n : ℕ) → shadow_of (alloc a n).1 ≡ shadow_of a
  unfolding alloc alloc_in
  alloc-shadow none n = refl
  alloc-shadow (some a) n = ground arith

module _ {Cap W : Type 0} ⦃ch : Cheri Cap⦄ where
  move_object-shadow :
      (vm : Vm Cap) (h : Space Cap W) (o : Cap)
      → shadow_of (move_object vm h o).1.arena ≡ shadow_of h.arena
  unfolding move_object mem_allocate
  move_object-shadow vm h o = ground (arith, alloc-shadow h.arena (mul64 (vm.size o) 16))

  -- What the closure keeps: its count is that of its list and within the limit, and the arena has
  -- the bitmap that it had.
  pub record Bounded (limit : ℕ) (shadow : Option Cap) (m : Mover Cap W) : Type 0 where
    pub count : length m.moved_from ≡ m.moved
    pub under : m.moved ≤ limit
    pub shadowed : shadow_of m.space.arena ≡ shadow

  -- `P` of the closure that a visit leaves
  abbrev After : (Mover Cap W → Type 0) → Visit Cap W → Type 0
  After P (leaves m q) = P m
  After P waits = Unit
  After P null_read = Unit

  module _ (vm : Vm Cap) (memory : Bool) (opts : Options) (shadow : Option Cap)
      (small : opts.limit < word) where
    abbrev Good : Mover Cap W → Type 0
    Good = Bounded opts.limit shadow

    fix_root-Bounded :
        (m : Mover Cap W) (o : Cap) (fwd : Option Cap) → Good m → After Good (fix_root opts m o fwd)
    unfolding fix_root
    fix_root-Bounded m o fwd b = elim (Bool-cases opts.no_fixup) [
      | inl e ↦ rw e b
      | inr e ↦ rw e (record { count = b.count; under = b.under; shadowed = b.shadowed })
    ]

    after_cas-Bounded :
        (m : Mover Cap W) (h : Space Cap W) (o : Cap) (r : CasResult Cap)
        → Good m
        → m.moved < opts.limit
        → shadow_of h.arena ≡ shadow
        → After Good (after_cas opts m h o r)
    unfolding after_cas
    after_cas-Bounded m h o (returned fwd f) b room shadowed = fix_root-Bounded _ o fwd (record {
      count =
          let e = length-snoc m.moved_from o in
          let n = b.count in let w : add64 m.moved 1 ≡ m.moved + 1 = omega arith in e ∙ omega arith;
      under = omega arith;
      shadowed = shadowed;
    })
    after_cas-Bounded m h o (spins f) b room shadowed = tt
    after_cas-Bounded m h o null_table b room shadowed = tt

    relocate-Bounded :
        (m : Mover Cap W) (o : Cap) → Good m → After Good (relocate vm memory opts m o)
    unfolding relocate
    relocate-Bounded m o b =
        let moved = move_object vm m.space o in
        let shadowed = move_object-shadow vm m.space o ∙ b.shadowed in
        elim (Bool-cases (leb opts.limit m.moved)) [
          | inl e ↦ rw e b
          | inr room ↦
              rw room
                (elim (Bool-cases (filtered vm opts (vm.klass o) || complex vm opts (vm.klass o))) [
                  | inl e ↦
                      rw e (record { count = b.count; under = b.under; shadowed = b.shadowed })
                  | inr e ↦ rw e (elim (Bool-cases (ch.address moved.0 == ch.address o)) [
                    | inl same ↦
                        rw same (record { count = b.count; under = b.under; shadowed = shadowed })
                    | inr other ↦ rw other (
                        after_cas-Bounded m moved.1 o
                          (cas_insert memory moved.1.forwarding (ch.address o) moved.0) b
                          (ground (arith, room)) shadowed)
                  ])
                ])
        ]

    do_oop-Bounded :
        (m : Mover Cap W) (p : Option Cap) → Good m → After Good (do_oop vm memory opts m p)
    unfolding do_oop
    do_oop-Bounded m none b = record { count = b.count; under = b.under; shadowed = b.shadowed }
    do_oop-Bounded m (some o) b = elim (Bool-cases (is_in m.space.arena o)) [
      | inr out ↦ rw out (record { count = b.count; under = b.under; shadowed = b.shadowed })
      | inl e ↦ rw e (
          let looked = lookup m.space.forwarding (ch.address o) in
          elim (Option-cases looked.0) [
            | inl absent ↦ rw absent (
                relocate-Bounded _ o
                  (record { count = b.count; under = b.under; shadowed = b.shadowed }))
            | inr (c, found) ↦ rw found (
                fix_root-Bounded _ o (some c)
                  (record { count = b.count; under = b.under; shadowed = b.shadowed }))
          ])
    ]

    -- `Good` of the closure that a scan leaves, which has as many roots as before
    abbrev pub AllScanned : List (Option Cap) → Scanned Cap W → Type 0
    AllScanned ps (scanned m qs) = Good m × (length qs ≡ length ps)
    AllScanned ps scan_waits = Unit
    AllScanned ps scan_null = Unit

    with_root-AllScanned :
        (p q : Option Cap) (ps : List (Option Cap)) (s : Scanned Cap W)
        → AllScanned ps s
        → AllScanned (p ∷ ps) (with_root q s)
    unfolding with_root
    with_root-AllScanned p q ps (scanned m qs) (g, e) = (g, ap suc e)
    with_root-AllScanned p q ps scan_waits a = tt
    with_root-AllScanned p q ps scan_null a = tt

    pub scan_roots-Bounded :
        (ps : List (Option Cap)) (m : Mover Cap W)
        → Good m
        → AllScanned ps (scan_roots vm memory opts m ps)
    unfolding scan_roots
    scan_roots-Bounded [] m b = (b, refl)
    scan_roots-Bounded (p ∷ ps) m b =
        visit (do_oop vm memory opts m p) (do_oop-Bounded m p b) (scan_roots-Bounded ps)
      where
        visit :
            (v : Visit Cap W)
            → After Good v
            → ((m₁ : Mover Cap W) → Good m₁ → AllScanned ps (scan_roots vm memory opts m₁ ps))
            → AllScanned (p ∷ ps) (elim v [
              | leaves m₁ q ↦ with_root q (scan_roots vm memory opts m₁ ps)
              | waits ↦ scan_waits
              | null_read ↦ scan_null
            ])
        visit (leaves m₁ q) g rest = with_root-AllScanned p q ps _ (rest m₁ g)
        visit waits g rest = tt
        visit null_read g rest = tt

    -- A scan that ends has moved at most `limit` objects in all: the closure's count is the length of
    -- its list of old copies, no root is added or lost, and the arena's bitmap is the same.
    pub scan_within_limit :
        (m m' : Mover Cap W) (ps qs : List (Option Cap))
        → Bounded opts.limit shadow m
        → scan_roots vm memory opts m ps ≡ scanned m' qs
        → Bounded opts.limit shadow m' × (length qs ≡ length ps)
    scan_within_limit m m' ps qs b run = subst (AllScanned ps) run (scan_roots-Bounded ps m b)
