-- ===== src/StoplessHeap/Forwarded.antt =====
-- stoplessHeap.cpp: what the scan of the roots keeps true, in terms of the collector's steps.
use stopless_java_gc.Base.{
  ℕ, ◌+◌, ◌-◌, ◌≤◌, ◌<◌, ◌≡◌, ◌≢◌, sym, ◌∙◌, subst, ◌⊎◌, Option, some, List, [], ◌∷◌, ◌++◌, arith,
  mul64, ℕ_discrete, ne→==, eq→==,
}
use stopless_java_gc.Cheri.{Cheri, Documented}
use stopless_java_gc.ForwardTable.{Table, find}
use stopless_java_gc.ForwardTable.Insert.{Writes}
use stopless_java_gc.ForwardTable.Grow.{Grown}
use stopless_java_gc.Forwarding.Derive.{Tight}
use stopless_java_gc.Arena.{Arena}
use stopless_java_gc.Allocator.Align.{Reasonable}
use stopless_java_gc.Collector.{Request, Reach}
use stopless_java_gc.StoplessHeap.{Vm, Mover, is_in}

module _ {Cap : Type 0} ⦃ch : Cheri Cap⦄ where
  -- The table has the old copy.
  pub record Forwarded (g : Table) (o : Cap) : Type 0 where
    pub nonzero : ch.address o ≢ 0
    pub target : ℕ × ℕ
    pub found : find g (ch.address o) ≡ some target

  abbrev pub AllForwarded : Table → List Cap → Type 0
  AllForwarded g [] = Unit
  AllForwarded g (o ∷ os) = Forwarded g o × AllForwarded g os

  pub AllForwarded-map :
      {g g' : Table} (os : List Cap)
      → ((o : Cap) → Forwarded g o → Forwarded g' o)
      → AllForwarded g os
      → AllForwarded g' os
  AllForwarded-map [] keeps all = tt
  AllForwarded-map (o ∷ os) keeps (here, rest) = (keeps o here, AllForwarded-map os keeps rest)

  pub AllForwarded-append :
      (g : Table) (os : List Cap) (o : Cap)
      → AllForwarded g os
      → Forwarded g o
      → AllForwarded g (os ++ (o ∷ []))
  AllForwarded-append g [] o all here = (here, tt)
  AllForwarded-append g (p ∷ os) o (first, rest) here =
      (first, AllForwarded-append g os o rest here)

  pub AllForwarded-join :
      (g : Table) (xs ys : List Cap)
      → AllForwarded g xs
      → AllForwarded g ys
      → AllForwarded g (xs ++ ys)
  AllForwarded-join g [] ys all rest = rest
  AllForwarded-join g (x ∷ xs) ys (here, all) rest = (here, AllForwarded-join g xs ys all rest)

  -- a write of a nonzero address forgets no old copy
  pub Writes-Forwarded :
      {g g' : Table} {key na nl : ℕ}
      → Writes g g' key na nl
      → na ≢ 0
      → (o : Cap) → Forwarded g o
      → Forwarded g' o
  Writes-Forwarded {g} {g'} {key} {na} {nl} w nz o f = elim (ℕ_discrete (ch.address o) key) [
    | yes e ↦ record {
      nonzero = f.nonzero;
      target = (na, nl);
      found = w.reads (ch.address o) f.nonzero ∙ rw (eq→== (ch.address o) key e, ne→== na 0 nz);
    }
    | no ne ↦ record {
      nonzero = f.nonzero;
      target = f.target;
      found = w.reads (ch.address o) f.nonzero ∙ rw (ne→== (ch.address o) key ne) f.found;
    }
  ]

  -- nor does growth
  pub Grown-Forwarded : {g g' : Table} → Grown g g' → (o : Cap) → Forwarded g o → Forwarded g' o
  Grown-Forwarded grown o f = record {
    nonzero = f.nonzero;
    target = f.target;
    found = grown.reads (ch.address o) f.nonzero ∙ f.found;
  }

  -- is_in reads the arena's base and size
  pub is_in-resized :
      (a b : Arena Cap) (o : Cap)
      → a.base ≡ b.base
      → a.size ≡ b.size
      → is_in (some a) o ≡ is_in (some b) o
  unfolding is_in
  is_in-resized a b o base size = ground (arith, base, size)

module _ {Cap : Type 0} ⦃ch : Cheri Cap⦄ (doc : Documented ch) (base : Cap) where
  -- An object of the VM below `top` that `stopless_alloc` can make room for in such an arena.
  pub record Object (vm : Vm Cap) (a₀ : Arena Cap) (top : ℕ) (o : Cap) : Type 0 where
    pub nonzero : ch.address o ≢ 0
    pub old : ch.address o < top
    pub request : Request doc base a₀ (mul64 (vm.size o) 16)

  -- it can be asked for as well in an arena of the same size
  pub Request-resized :
      (a b : Arena Cap) (n : ℕ) → b.size ≡ a.size → Request doc base a n → Request doc base b n
  Request-resized a b n same r = record {
    asked = r.asked;
    grows = r.grows;
    sane = subst (Reasonable doc (ch.representable_length n)) (sym same) r.sane;
    unit_count = r.unit_count;
    placed = r.placed;
  }

  -- A root that is a live capability with exact bounds.
  pub record Live (q : Option Cap) : Type 0 where
    pub cap : Cap
    pub target : ℕ
    pub extent : ℕ
    pub held : q ≡ some cap
    pub tight : Tight doc base target extent cap

  -- A root is as it was, or live.
  abbrev pub FixedRoot : Option Cap → Option Cap → Type 0
  FixedRoot p q = (q ≡ p) ⊎ Live q

  -- Steps of the collector lead to the arena and the table that the closure holds; there is room for
  -- as many entries as it may still move objects; every old copy is in the table, and so are the
  -- prior ones.
  pub record Modelled {W : Type 0} (a₀ : Arena Cap) (top limit bound : ℕ) (prior : List Cap)
      (m : Mover Cap W) : Type 0 where
    pub arena : Arena Cap
    pub there : m.space.arena ≡ some arena
    pub reach : Reach doc base (record { arena = arena; forwarding = m.space.forwarding })
    pub based : arena.base ≡ a₀.base
    pub same : arena.size ≡ a₀.size
    pub higher : top ≤ ch.base base + arena.bump_offset
    pub room : m.space.forwarding.table.size + (limit - m.moved) ≤ bound
    pub capacity : bound ≤ m.space.forwarding.table.capacity
    pub healed : AllForwarded m.space.forwarding.table m.moved_from
    pub kept : AllForwarded m.space.forwarding.table prior
