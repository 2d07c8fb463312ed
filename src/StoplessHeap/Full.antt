-- ===== src/StoplessHeap/Full.antt =====
-- stoplessHeap.cpp, `do_oop` where the forwarding table is full.
use stopless_java_gc.Base.{
  ℕ, ◌<◌, ◌≡◌, ◌≢◌, refl, ap, ◌∙◌, inl, inr, Bool, true, false, ◌||◌, Option, none, some, [], ◌∷◌,
  ◌++◌, arith, leb, add64, mul64, Option-cases, length, ne→==,
}
use stopless_java_gc.Cheri.{Cheri}
use stopless_java_gc.ForwardTable.{key_at}
use stopless_java_gc.ForwardTable.Slots.{search_of, search_stop}
use stopless_java_gc.ForwardTable.State.{IsTable, seek_lem, occupied_lt, find_absent}
use stopless_java_gc.Forwarding.{Forwarding, returned, lookup, cas_insert}
use stopless_java_gc.Forwarding.Lookup.{lookup_miss}
use stopless_java_gc.Forwarding.Cas.{init_present}
use stopless_java_gc.Arena.{Arena}
use stopless_java_gc.Allocator.{alloc_in}
use stopless_java_gc.StoplessHeap.{
  Vm, Options, Mover, leaves, is_in, copy_words, filtered, complex, fix_root, after_cas, relocate,
  do_oop,
}
use stopless_java_gc.StoplessHeap.Copy.{move_object_run}
use stopless_java_gc.StoplessHeap.Moved.{mem_allocate_run}

module _ {Cap : Type 0} ⦃ch : Cheri Cap⦄ where
  -- in a full table `forward_table_cas_insert` of a new address returns NULL
  cas_insert_full :
      (memory : Bool) (f : Forwarding Cap) (key : ℕ) (c : Cap)
      → (h : IsTable f.table) → f.table.size ≡ f.table.capacity
      → ((i : ℕ) → i < length h.array → key_at h.array i ≢ key)
      → cas_insert memory f key c ≡ returned none f
  unfolding cas_insert
  cas_insert_full memory f key c h full out = elim (Option-cases (search_of h.array key)) [
    | inl e ↦ ground (arith, init_present memory h, h.slots, seek_lem h key, e)
    | inr (p, e) ↦
        let (lt, stop) = search_stop h.valid key p e in
        elim stop [
          | inl free ↦ absurd (omega (arith, occupied_lt h.array p lt free, h.counted, h.capacity))
          | inr k ↦ absurd (out p lt k)
        ]
  ]

module _ {Cap W : Type 0} ⦃ch : Cheri Cap⦄ (vm : Vm Cap) (memory : Bool) (opts : Options)
    (m : Mover Cap W) (o c : Cap) (a b : Arena Cap) where
  -- the closure after the visit
  abbrev lost : Mover Cap W
  lost = record m {
    space = record {
      arena = some b;
      forwarding = m.space.forwarding;
      words = copy_words (ch.address o) (ch.address c) (vm.size o) m.space.words;
    };
    moved_from = m.moved_from ++ (o ∷ []);
    moved = add64 m.moved 1;
    fixed = add64 m.fixed 1;
    visited = add64 m.visited 1;
  }

  relocate_loses :
      (h : IsTable m.space.forwarding.table)
      → m.space.forwarding.table.size ≡ m.space.forwarding.table.capacity
      → ((i : ℕ) → i < length h.array → key_at h.array i ≢ ch.address o)
      → m.space.arena ≡ some a
      → leb opts.limit m.moved ≡ false
      → (filtered vm opts (vm.klass o) || complex vm opts (vm.klass o)) ≡ false
      → alloc_in a (mul64 (vm.size o) 16) ≡ (some c, b)
      → ch.address c ≢ ch.address o
      → opts.no_fixup ≡ false
      → relocate vm memory opts (record m { visited = add64 m.visited 1 }) o ≡ leaves lost none
  unfolding relocate after_cas fix_root
  relocate_loses h full out there left plain run apart fixes =
      let moved =
        move_object_run vm m.space o c (some b)
          (mem_allocate_run m.space.arena a b (vm.size o) (some c) there run) in
      rw
        (
          left,
          plain,
          moved,
          ne→== (ch.address c) (ch.address o) apart,
          cas_insert_full memory m.space.forwarding (ch.address o) c h full out,
          fixes,
        )
        refl

  -- A root that holds an object of the arena whose address stands in no slot of a full table, where the
  -- limit, the filters and STOPLESS_NO_FIXUP let the object move and the arena has a place for it: the
  -- visit leaves NULL in the root and lists the object for revocation, and the table still has
  -- nothing for its address.
  pub full_table_loses_root :
      (h : IsTable m.space.forwarding.table)
      → m.space.forwarding.table.size ≡ m.space.forwarding.table.capacity
      → ((i : ℕ) → i < length h.array → key_at h.array i ≢ ch.address o)
      → m.space.arena ≡ some a
      → is_in (some a) o ≡ true
      → leb opts.limit m.moved ≡ false
      → (filtered vm opts (vm.klass o) || complex vm opts (vm.klass o)) ≡ false
      → alloc_in a (mul64 (vm.size o) 16) ≡ (some c, b)
      → ch.address c ≢ ch.address o
      → opts.no_fixup ≡ false
      → (m' : Mover Cap W) × (do_oop vm memory opts m (some o) ≡ leaves m' none)
        × (m'.moved_from ≡ m.moved_from ++ (o ∷ []))
        × (lookup m'.space.forwarding (ch.address o) ≡ (none, m'.space.forwarding))
  unfolding do_oop
  full_table_loses_root h full out there here left plain run apart fixes =
      let f = m.space.forwarding in
      let missing = lookup_miss f (ch.address o) (find_absent h (ch.address o) out) in
      let inside : is_in m.space.arena o ≡ true =
        ap (λ (x : Option (Arena Cap)). is_in x o) there ∙ here in
      (
        lost,
        rw
            (
              inside,
              ap (λ (r : Option Cap × Forwarding Cap). r.0) missing,
              ap (λ (r : Option Cap × Forwarding Cap). r.1) missing,
            )
            (relocate_loses h full out there left plain run apart fixes),
        refl,
        missing,
      )
