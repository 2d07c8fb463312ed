-- ===== src/StoplessHeap/Moves.antt =====
-- stoplessHeap.cpp, `do_oop` as steps of the collector: an object that the table does not have is moved
-- by an allocation and an insertion, and nothing else changes.
use stopless_java_gc.Base.{
  ℕ, ◌≤◌, ◌<◌, ◌≡◌, ◌≢◌, refl, sym, ap, ◌∙◌, inl, inr, Bool, true, false, ◌||◌, List, Option, none,
  some, arith, word, leb, add64, mul64, Bool-cases, Option-cases, ne→==, eq→==,
}
use stopless_java_gc.Cheri.{Cheri, Documented}
use stopless_java_gc.ForwardTable.{find}
use stopless_java_gc.Forwarding.{Forwarding, chase_max}
use stopless_java_gc.Forwarding.Lookup.{lookup_miss}
use stopless_java_gc.Arena.{Arena}
use stopless_java_gc.Allocator.{alloc_in}
use stopless_java_gc.Collector.Sound.{Placed, alloc_cases, Reach-Inv, reachable-Resolves}
use stopless_java_gc.StoplessHeap.{
  Vm, Options, Mover, is_in, copy_words, move_object, filtered, complex, relocate, do_oop,
}
use stopless_java_gc.StoplessHeap.Copy.{move_object_run, move_object_full}
use stopless_java_gc.StoplessHeap.Forwarded.{is_in-resized, Object, Request-resized, Modelled}
use stopless_java_gc.StoplessHeap.Moved.{
  mem_allocate_run, Visited, fix_root-Visited, after_cas-Visited,
}

module _ {Cap W : Type 0} ⦃ch : Cheri Cap⦄ (doc : Documented ch) (base : Cap) (vm : Vm Cap)
    (a₀ : Arena Cap) (top bound : ℕ) (prior : List Cap) (opts : Options) (memory : Bool)
    (small : opts.limit < word) (few : bound ≤ chase_max) where
  abbrev Good : Mover Cap W → Type 0
  Good = Modelled doc base a₀ top opts.limit bound prior

  -- the same closure with other counts of roots
  recounted :
      (m : Mover Cap W) (fixed nonheap skipped visited : ℕ)
      → Good m
      → Good (record m { fixed = fixed; nonheap = nonheap; skipped = skipped; visited = visited })
  recounted m fixed nonheap skipped visited g = record {
    arena = g.arena;
    there = g.there;
    reach = g.reach;
    based = g.based;
    same = g.same;
    higher = g.higher;
    room = g.room;
    capacity = g.capacity;
    healed = g.healed;
    kept = g.kept;
  }

  relocate_full :
      (m : Mover Cap W) (o : Cap)
      → (g : Good m) → move_object vm m.space o ≡ (o, record m.space { arena = some g.arena })
      → leb opts.limit m.moved ≡ false
      → (filtered vm opts (vm.klass o) || complex vm opts (vm.klass o)) ≡ false
      → Visited doc base vm a₀ top bound prior opts memory small few
          (some o)
          (relocate vm memory opts m o)
  unfolding relocate
  relocate_full m o g run left plain =
      rw (left, plain, run, eq→== (ch.address o) (ch.address o) refl)
        (
          record {
            arena = g.arena;
            there = refl;
            reach = g.reach;
            based = g.based;
            same = g.same;
            higher = g.higher;
            room = g.room;
            capacity = g.capacity;
            healed = g.healed;
            kept = g.kept;
          },
          inl refl,
        )

  relocate_moved :
      (m : Mover Cap W) (o c : Cap) (b : Arena Cap)
      → (g : Good m) → Object doc base vm a₀ top o
      → find m.space.forwarding.table (ch.address o) ≡ none
      → leb opts.limit m.moved ≡ false
      → (filtered vm opts (vm.klass o) || complex vm opts (vm.klass o)) ≡ false
      → alloc_in g.arena (mul64 (vm.size o) 16) ≡ (some c, b)
      → Placed doc base g.arena (mul64 (vm.size o) 16) c b
      → Visited doc base vm a₀ top bound prior opts memory small few
          (some o)
          (relocate vm memory opts m o)
  unfolding relocate
  relocate_moved m o c b g ob missing left plain run p =
      let words = copy_words (ch.address o) (ch.address c) (vm.size o) m.space.words in
      let moved =
        move_object_run vm m.space o c (some b)
          (mem_allocate_run m.space.arena g.arena b (vm.size o) (some c) g.there run) in
      let apart : ch.address c ≢ ch.address o =
        (let at = p.tight.address in
          let up = p.above in let old = ob.old in let top_le = g.higher in omega arith) in
      rw (left, plain, moved, ne→== (ch.address c) (ch.address o) apart)
        (after_cas-Visited doc base vm a₀ top bound prior opts memory small few m words o c b g
          (ground (arith, left)) ob missing run p)

  relocate-Visited :
      (m : Mover Cap W) (o : Cap)
      → Good m
      → Object doc base vm a₀ top o
      → find m.space.forwarding.table (ch.address o) ≡ none
      → Visited doc base vm a₀ top bound prior opts memory small few
          (some o)
          (relocate vm memory opts m o)
  unfolding relocate
  relocate-Visited m o g ob missing =
      let n = mul64 (vm.size o) 16 in
      elim (Bool-cases (leb opts.limit m.moved)) [
        | inl e ↦ rw e (g, inl refl)
        | inr left ↦
            elim (Bool-cases (filtered vm opts (vm.klass o) || complex vm opts (vm.klass o))) [
              | inl e ↦
                  rw (left, e)
                    (recounted m m.fixed m.nonheap (add64 m.skipped 1) m.visited g, inl refl)
              | inr plain ↦
                  elim (alloc_cases doc base (Reach-Inv doc base g.reach) n
                    (Request-resized doc base a₀ g.arena n g.same ob.request)) [
                      | inl (c, b, run, p) ↦ relocate_moved m o c b g ob missing left plain run p
                      | inr full ↦
                          relocate_full m o g
                            (move_object_full vm m.space o (some g.arena) (
                              mem_allocate_run m.space.arena g.arena g.arena (vm.size o) none
                                g.there full))
                            left plain
                    ]
            ]
      ]

  -- One visit: it ends, and leaves a closure that the collector's steps lead to.
  pub do_oop-Visited :
      (m : Mover Cap W) (p : Option Cap)
      → Good m
      → ((o : Cap) → p ≡ some o → is_in (some a₀) o ≡ true → Object doc base vm a₀ top o)
      → Visited doc base vm a₀ top bound prior opts memory small few p (do_oop vm memory opts m p)
  unfolding do_oop
  do_oop-Visited m none g objects =
      (recounted m m.fixed m.nonheap m.skipped (add64 m.visited 1) g, inl refl)
  do_oop-Visited m (some o) g objects = elim (Bool-cases (is_in m.space.arena o)) [
    | inr out ↦
        rw out (recounted m m.fixed (add64 m.nonheap 1) m.skipped (add64 m.visited 1) g, inl refl)
    | inl here ↦
        let f = m.space.forwarding in
        let m₁ = record m { visited = add64 m.visited 1 } in
        let g₁ = recounted m m.fixed m.nonheap m.skipped (add64 m.visited 1) g in
        let same = is_in-resized g.arena a₀ o g.based g.same in
        let ob =
          objects o refl
            (sym same ∙ (ap (λ (x : Option (Arena Cap)). is_in x o) (sym g.there) ∙ here)) in
        elim (Option-cases (find f.table (ch.address o))) [
          | inl missing ↦
              let looked = lookup_miss f (ch.address o) missing in
              rw
                (
                  here,
                  ap (λ (r : Option Cap × Forwarding Cap). r.0) looked,
                  ap (λ (r : Option Cap × Forwarding Cap). r.1) looked,
                )
                (relocate-Visited m₁ o g₁ ob missing)
          | inr ((na, nl), found) ↦
              let (c, looked, resolved) =
                reachable-Resolves doc base g.reach (ch.address o) na nl ob.nonzero
                  (let r = g.room in omega (arith, few)) found in
              rw
                (
                  here,
                  ap (λ (r : Option Cap × Forwarding Cap). r.0) looked,
                  ap (λ (r : Option Cap × Forwarding Cap). r.1) looked,
                )
                (fix_root-Visited doc base vm a₀ top bound prior opts memory small few m₁ o c
                  resolved.target resolved.extent g₁ resolved.tight)
        ]
  ]
