-- ===== src/StoplessHeap/Moved.antt =====
-- stoplessHeap.cpp, the end of `do_oop`: the copy of an object enters the table and the root as a step
-- of the collector.
use stopless_java_gc.Base.{
  ℕ, ◌+◌, ◌≤◌, ◌<◌, ◌≡◌, ◌≢◌, refl, sym, ap, ◌∙◌, subst, inl, inr, Bool, List, Option, none, some,
  arith, word, add64, mul64, Bool-cases, ne→==, eq→==,
}
use stopless_java_gc.Cheri.{Cheri, Documented}
use stopless_java_gc.ForwardTable.{find}
use stopless_java_gc.Forwarding.{chase_max, cas_insert}
use stopless_java_gc.Forwarding.Derive.{Fits, Tight}
use stopless_java_gc.Forwarding.Absent.{Inserted, cas_insert_absent}
use stopless_java_gc.Arena.{Arena}
use stopless_java_gc.Allocator.{alloc, alloc_in}
use stopless_java_gc.Collector.{next, move}
use stopless_java_gc.Collector.Sound.{Inv, Placed, insert-Writes, Reach-Inv}
use stopless_java_gc.StoplessHeap.{
  Vm, Options, Mover, Visit, leaves, waits, null_read, mem_allocate, fix_root, after_cas,
}
use stopless_java_gc.StoplessHeap.Forwarded.{
  AllForwarded-map, AllForwarded-append, Writes-Forwarded, Object, Request-resized, Modelled,
  FixedRoot,
}

pub mem_allocate_run :
    {Cap : Type 0}
    → ⦃ch : Cheri Cap⦄ → (x : Option (Arena Cap)) (a b : Arena Cap) (n : ℕ) (c : Option Cap)
    → x ≡ some a
    → alloc_in a (mul64 n 16) ≡ (c, b)
    → mem_allocate x n ≡ (c, some b)
unfolding mem_allocate alloc
mem_allocate_run x a b n c there run = rw there (ground (arith, run))

module _ {Cap W : Type 0} ⦃ch : Cheri Cap⦄ (doc : Documented ch) (base : Cap) (vm : Vm Cap)
    (a₀ : Arena Cap) (top bound : ℕ) (prior : List Cap) (opts : Options) (memory : Bool)
    (small : opts.limit < word) (few : bound ≤ chase_max) where
  abbrev Good : Mover Cap W → Type 0
  Good = Modelled doc base a₀ top opts.limit bound prior

  -- of what a visit of the root `p` comes to
  abbrev pub Visited : Option Cap → Visit Cap W → Type 0
  Visited p (leaves m q) = Good m × FixedRoot doc base p q
  Visited p waits = ⊥
  Visited p null_read = ⊥

  pub fix_root-Visited :
      (m : Mover Cap W) (o w : Cap) (target extent : ℕ)
      → Good m
      → Tight doc base target extent w
      → Visited (some o) (fix_root opts m o (some w))
  unfolding fix_root
  fix_root-Visited m o w target extent g tight = elim (Bool-cases opts.no_fixup) [
    | inl e ↦ rw e (g, inl refl)
    | inr e ↦ rw e (
      record {
        arena = g.arena;
        there = g.there;
        reach = g.reach;
        based = g.based;
        same = g.same;
        higher = g.higher;
        room = g.room;
        capacity = g.capacity;
        healed = g.healed;
        kept = g.kept;
      },
      inr (record { cap = w; target = target; extent = extent; held = refl; tight = tight }),
    )
  ]

  -- the object `o` gets the copy `c` in the arena `b`
  pub after_cas-Visited :
      (m : Mover Cap W) (words : ℕ → W) (o c : Cap) (b : Arena Cap)
      → (g : Good m) → m.moved < opts.limit
      → Object doc base vm a₀ top o
      → find m.space.forwarding.table (ch.address o) ≡ none
      → alloc_in g.arena (mul64 (vm.size o) 16) ≡ (some c, b)
      → Placed doc base g.arena (mul64 (vm.size o) 16) c b
      → Visited (some o) (
          after_cas opts m
            (record { arena = some b; forwarding = m.space.forwarding; words = words })
            o
            (cas_insert memory m.space.forwarding (ch.address o) c))
  unfolding after_cas
  after_cas-Visited m words o c b g left ob missing run p =
      let f = m.space.forwarding in
      let n = mul64 (vm.size o) 16 in
      let inv : Inv doc base (record { arena = g.arena; forwarding = f }) =
        Reach-Inv doc base g.reach in
      let at : ch.address c ≡ ch.base base + p.offset = p.tight.address in
      let high : ch.base base + g.arena.bump_offset ≤ ch.address c =
        (let up = p.above in omega (arith, at)) in
      let nz : ch.address c ≢ 0 = (let old = ob.old in let up = g.higher in omega arith) in
      let open_slot : f.table.size < f.table.capacity =
        (let r = g.room in let k = g.capacity in omega arith) in
      let fits : Fits doc base (ch.address c) (ch.len c) =
        subst (λ x. Fits doc base x (ch.len c)) (sym at)
          (subst (Fits doc base (ch.base base + p.offset)) (sym p.tight.extent) p.fits) in
      let done : Inserted doc base inv.root.live memory f (ch.address o) c =
        cas_insert_absent doc base inv.root.live memory f (ch.address o) c inv.rooted inv.table
          inv.filled open_slot ob.nonzero missing nz fits in
      let (same, w) =
        insert-Writes doc base f done.after memory (ch.address o) c inv.table ob.nonzero open_slot
          done.inserts in
      let stepped = next g.reach (
        move (ch.address o) n memory c b done.after
          (Request-resized doc base a₀ g.arena n g.same ob.request) ob.nonzero
          (let old = ob.old in let up = g.higher in omega arith) open_slot run done.inserts) in
      let counted : add64 m.moved 1 ≡ m.moved + 1 = omega arith in
      rw done.claims (
        fix_root-Visited _ o done.winner (ch.address c) (ch.len c)
          (record {
            arena = b;
            there = refl;
            reach = stepped;
            based = ap (λ (x : Arena Cap). x.base) p.arena ∙ g.based;
            same = ap (λ (x : Arena Cap). x.size) p.arena ∙ g.same;
            higher =
                let e = ap (λ (x : Arena Cap). x.bump_offset) p.arena in
                let up = p.above in let top_le = g.higher in omega arith;
            room = let r = g.room in let k = w.counts in omega (arith, counted);
            capacity = let k = w.capacity in let r = g.capacity in omega arith;
            kept = AllForwarded-map prior (Writes-Forwarded w nz) g.kept;
            healed =
                AllForwarded-append done.after.table m.moved_from o
                  (AllForwarded-map m.moved_from (Writes-Forwarded w nz) g.healed)
                  (record {
                    nonzero = ob.nonzero;
                    target = (ch.address c, ch.len c);
                    found =
                        w.reads (ch.address o) ob.nonzero
                        ∙ rw (eq→== (ch.address o) (ch.address o) refl, ne→== (ch.address c) 0 nz);
                  });
          })
          done.tight)
