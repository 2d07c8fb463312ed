-- ===== src/Collector/Sound.antt =====
-- In every state that the collector's steps reach, the forwarding table is sound.
use stopless_java_gc.Base.{
  ℕ, ◌+◌, ◌≤◌, ◌<◌, ◌≡◌, ◌≢◌, ◌⊎◌, inl, inr, refl, sym, ap, ◌∙◌, subst, Bool, Option, none, some,
  arith, ℕ_discrete, ne→==, eq→==, some_inj,
}
use stopless_java_gc.Cheri.{Cheri, Documented}
use stopless_java_gc.ForwardTable.{Table, unset, find}
use stopless_java_gc.ForwardTable.State.{IsTable, Filled, find_zero}
use stopless_java_gc.ForwardTable.Insert.{Writes, insert_at-Writes}
use stopless_java_gc.ForwardTable.Grow.{Grown, maybe_grow-Grown}
use stopless_java_gc.ForwardTable.Blank.{IsEmpty, init-IsEmpty, clear-IsEmpty}
use stopless_java_gc.Forwarding.{Forwarding, insert, lookup, chase_max}
use stopless_java_gc.Forwarding.Derive.{Fits, Tight}
use stopless_java_gc.Forwarding.Lookup.{Resolves, lookup-Resolves}
use stopless_java_gc.Arena.{Arena}
use stopless_java_gc.Allocator.{alloc_in}
use stopless_java_gc.Allocator.Object.{Root, alloc_in_lem}
use stopless_java_gc.Collector.{
  Heap, Request, frontier, Step, allocate, move, grow, empty, Reach, begin, next,
}

module _ {Cap : Type 0} ⦃ch : Cheri Cap⦄ (doc : Documented ch) (base : Cap) where
  -- A pair of the table: an object below the frontier moved up to a range below the frontier.
  pub record Entry (top key a l : ℕ) : Type 0 where
    pub key_below : key < top
    pub up : key < a
    pub fits : Fits doc base a l
    pub below : a + l ≤ top

  pub record Inv (h : Heap Cap) : Type 0 where
    pub based : h.arena.base ≡ some base
    pub root : Root doc base h.arena.size
    pub cursor : h.arena.bump_offset ≤ h.arena.size
    pub rooted : h.forwarding.arena_base ≡ some base
    pub table : IsTable h.forwarding.table
    pub filled : Filled h.forwarding.table
    pub entries :
        (key a l : ℕ)
        → find h.forwarding.table key ≡ some (a, l)
        → Entry (frontier doc base h) key a l

  Entry-raise : {top top' key a l : ℕ} → top ≤ top' → Entry top key a l → Entry top' key a l
  Entry-raise le e = record {
    key_below = omega arith;
    up = e.up;
    fits = e.fits;
    below = omega arith;
  }

  -- What an allocation comes to, in terms of the call's result.
  pub record Placed (a : Arena Cap) (n : ℕ) (c : Cap) (a' : Arena Cap) : Type 0 where
    pub offset : ℕ
    pub arena : a' ≡ record a { bump_offset = offset + ch.representable_length n }
    pub above : a.bump_offset ≤ offset
    pub inside : offset + ch.representable_length n ≤ a.size
    pub fits : Fits doc base (ch.base base + offset) (ch.representable_length n)
    pub tight : Tight doc base (ch.base base + offset) (ch.representable_length n) c

  module _ {h : Heap Cap} (inv : Inv h) (n : ℕ) (r : Request doc base h.arena n) where
    abbrev pub AllocFacts : Type 0
    AllocFacts =
        ((c : Cap) × (a' : Arena Cap) × (alloc_in h.arena n ≡ (some c, a')) × Placed h.arena n c a')
        ⊎ (alloc_in h.arena n ≡ (none, h.arena))

    pub alloc_cases : AllocFacts
    alloc_cases =
        elim (alloc_in_lem doc h.arena base n r.unit_count inv.based inv.root r.placed r.asked
          r.grows r.sane inv.cursor) [
            | inl (al, c, got) ↦ inl (
              c,
              record h.arena { bump_offset = al + ch.representable_length n },
              got.run,
              record {
                offset = al;
                arena = refl;
                above = got.above;
                inside = got.inside;
                fits = got.fits;
                tight = got.tight;
              },
            )
            | inr (out, full) ↦ inr out
          ]

    pub alloc-Placed :
        (c : Cap) (a' : Arena Cap) → alloc_in h.arena n ≡ (some c, a') → Placed h.arena n c a'
    alloc-Placed c a' e = elim alloc_cases [
      | inl (d, b, run, p) ↦
          let same : ◌≡◌ {A = Option Cap × Arena Cap} (some d, b) (some c, a') = sym run ∙ e in
          let cap : d ≡ c = some_inj (ap (λ (q : Option Cap × Arena Cap). q.0) same) in
          let arena : b ≡ a' = ap (λ (q : Option Cap × Arena Cap). q.1) same in
          subst (λ x. Placed h.arena n x a') cap (subst (Placed h.arena n d) arena p)
      | inr out ↦ absurd (
          let q : ◌≡◌ {A = Option Cap} none (some c) =
            ap (λ (q : Option Cap × Arena Cap). q.0) (sym out ∙ e) in
          cc)
    ]

  -- the arena after an allocation
  Inv-raise :
      {h : Heap Cap} (a' : Arena Cap) (offset : ℕ)
      → Inv h
      → a' ≡ record h.arena { bump_offset = offset }
      → h.arena.bump_offset ≤ offset
      → offset ≤ h.arena.size
      → Inv (record h { arena = a' })
  Inv-raise {h} a' offset inv e up le =
      subst (λ a. Inv (record h { arena = a })) (sym e)
        (record {
          based = inv.based;
          root = inv.root;
          cursor = le;
          rooted = inv.rooted;
          table = inv.table;
          filled = inv.filled;
          entries = λ key a l found. Entry-raise (omega arith) (inv.entries key a l found);
        })

  pub insert-Writes :
      (f f' : Forwarding Cap) (memory : Bool) (key : ℕ) (c : Cap)
      → IsTable f.table
      → key ≢ 0
      → f.table.size < f.table.capacity
      → insert memory f key c ≡ some f'
      → (f' ≡ record f { table = f'.table }) × Writes f.table f'.table key (ch.address c) (ch.len c)
  unfolding insert
  insert-Writes f f' memory key c h ne room e =
      let (g, run, w) = insert_at-Writes h memory key (ch.address c) (ch.len c) ne room in
      let made : insert memory f key c ≡ some (record f { table = g }) = ground (arith, run) in
      let same : record f { table = g } ≡ f' = some_inj (sym made ∙ e) in
      (
        sym same ∙ ap (λ (x : Forwarding Cap). record f { table = x.table }) same,
        subst (λ (x : Forwarding Cap). Writes f.table x.table key (ch.address c) (ch.len c)) same w,
      )

  -- An entry after a move is the new one or an old one.
  moved_entry :
      {h : Heap Cap} (inv : Inv h) (f' : Forwarding Cap) (key n : ℕ) (c : Cap) (a' : Arena Cap)
      → key ≢ 0
      → key < frontier doc base h
      → (p : Placed h.arena n c a')
      → Writes h.forwarding.table f'.table key (ch.address c) (ch.len c)
      → (j a l : ℕ) → find f'.table j ≡ some (a, l)
      → Entry (ch.base base + (p.offset + ch.representable_length n)) j a l
  moved_entry {h} inv f' key n c a' ne low p w j a l found = elim (ℕ_discrete j 0) [
    | yes z ↦
        absurd (let q : find f'.table j ≡ none = ap (find f'.table) z ∙ find_zero w.table in cc)
    | no nz ↦ elim (ℕ_discrete j key) [
      | no other ↦
          let old : find h.forwarding.table j ≡ some (a, l) =
            sym (w.reads j nz ∙ rw (ne→== j key other)) ∙ found in
          Entry-raise (let up = p.above in omega arith) (inv.entries j a l old)
      | yes same ↦
          let at : ch.address c ≡ ch.base base + p.offset = p.tight.address in
          let len : ch.len c ≡ ch.representable_length n = p.tight.extent in
          let nonzero : ch.address c ≢ 0 = (let up = p.above in omega arith) in
          let new : ◌≡◌ {A = Option (ℕ × ℕ)} (some (ch.address c, ch.len c)) (some (a, l)) =
            sym (w.reads j nz ∙ rw (eq→== j key same, ne→== (ch.address c) 0 nonzero)) ∙ found in
          let pair = some_inj new in
          let ea : a ≡ ch.base base + p.offset = sym (ap (λ (q : ℕ × ℕ). q.0) pair) ∙ at in
          let el : l ≡ ch.representable_length n = sym (ap (λ (q : ℕ × ℕ). q.1) pair) ∙ len in
          record {
            key_below = let up = p.above in omega arith;
            up = let up = p.above in omega arith;
            fits =
                subst (λ x. Fits doc base x l) (sym ea)
                  (subst (Fits doc base (ch.base base + p.offset)) (sym el) p.fits);
            below = omega arith;
          }
    ]
  ]

  pub Step-move :
      {h : Heap Cap} (inv : Inv h) (key n : ℕ) (memory : Bool) (c : Cap) (a' : Arena Cap)
      (f' : Forwarding Cap)
      → Request doc base h.arena n
      → key ≢ 0
      → key < frontier doc base h
      → h.forwarding.table.size < h.forwarding.table.capacity
      → alloc_in h.arena n ≡ (some c, a')
      → insert memory h.forwarding key c ≡ some f'
      → Inv (record { arena = a'; forwarding = f' })
  Step-move {h} inv key n memory c a' f' r ne low room run made =
      let p = alloc-Placed inv n r c a' run in
      let (same, w) = insert-Writes h.forwarding f' memory key c inv.table ne room made in
      let raised =
        Inv-raise a' (p.offset + ch.representable_length n) inv p.arena
          (let up = p.above in omega arith) p.inside in
      let top : frontier doc base (record { arena = a'; forwarding = f' })
          ≡ ch.base base + (p.offset + ch.representable_length n) =
        ap (λ (a : Arena Cap). ch.base base + a.bump_offset) p.arena in
      record {
        based = raised.based;
        root = raised.root;
        cursor = raised.cursor;
        rooted = ap (λ (f : Forwarding Cap). f.arena_base) same ∙ inv.rooted;
        table = w.table;
        filled =
            w.fills (let up = p.above in let at = p.tight.address in let l = low in omega arith)
              inv.filled;
        entries = λ j a l found.
            subst (λ t. Entry t j a l) (sym top)
              (moved_entry inv f' key n c a' ne low p w j a l found);
      }

  no_entry : {g : Table} → IsEmpty g → (key : ℕ) {a l : ℕ} → find g key ≡ some (a, l) → ⊥
  no_entry {g} e key found = elim (ℕ_discrete key 0) [
    | yes z ↦ let q : find g key ≡ none = ap (find g) z ∙ find_zero e.table in cc
    | no ne ↦ let q = e.nothing key ne in cc
  ]

  Step-Inv : {h h' : Heap Cap} → Step doc base h h' → Inv h → Inv h'
  Step-Inv {h} (allocate n r) inv = elim (alloc_cases inv n r) [
    | inl (c, a', run, p) ↦
        subst (λ (q : Option Cap × Arena Cap). Inv (record h { arena = q.1 })) (sym run)
          (Inv-raise a' (p.offset + ch.representable_length n) inv p.arena
            (let up = p.above in omega arith) p.inside)
    | inr out ↦ subst (λ (q : Option Cap × Arena Cap). Inv (record h { arena = q.1 })) (sym out) inv
  ]
  Step-Inv (move key n memory c a f r ne low room run made) inv =
      Step-move inv key n memory c a f r ne low room run made
  Step-Inv {h} (grow memory g bound run) inv =
      let (g', ran, grown, light) = maybe_grow-Grown inv.table memory bound in
      let same : g' ≡ g = some_inj (sym ran ∙ run) in
      let here : Grown h.forwarding.table g = subst (Grown h.forwarding.table) same grown in
      record {
        based = inv.based;
        root = inv.root;
        cursor = inv.cursor;
        rooted = inv.rooted;
        table = here.table;
        filled = here.fills inv.filled;
        entries = λ j a l found. elim (ℕ_discrete j 0) [
          | yes z ↦ absurd (let q : find g j ≡ none = ap (find g) z ∙ find_zero here.table in cc)
          | no nz ↦ inv.entries j a l (sym (here.reads j nz) ∙ found)
        ];
      }
  Step-Inv {h} empty inv =
      let (blank, same) = clear-IsEmpty inv.table in
      record {
        based = inv.based;
        root = inv.root;
        cursor = inv.cursor;
        rooted = inv.rooted;
        table = blank.table;
        filled = blank.filled;
        entries = λ j a l found. absurd (no_entry blank j found);
      }

  pub Reach-Inv : {h : Heap Cap} → Reach doc base h → Inv h
  Reach-Inv (begin a f based root zero table rooted) =
      let fresh : IsEmpty f.table = subst IsEmpty (sym table) (init-IsEmpty unset refl) in
      record {
        based = based;
        root = root;
        cursor = omega arith;
        rooted = rooted;
        table = fresh.table;
        filled = fresh.filled;
        entries = λ key a l found. absurd (no_entry fresh key found);
      }
  Reach-Inv (next r st) = Step-Inv st (Reach-Inv r)

  -- From a fresh arena over its mapping and a fresh table, after any allocations and moves of requests
  -- whose sums stay below 2 ^ 64 and for which the arena's base is aligned, the moves with room in the
  -- table and of nonzero addresses below the cursor, after growth of a table of at most 2 ^ 60 slots and
  -- clears: `forward_table_lookup` of a nonzero address in the table returns a tight capability to the end of its chain of moves and changes nothing, while
  -- there are at most FT_CHASE_MAX entries.
  pub reachable-Resolves :
      {h : Heap Cap} (r : Reach doc base h) (key na nl : ℕ)
      → key ≢ 0
      → h.forwarding.table.size ≤ chase_max
      → find h.forwarding.table key ≡ some (na, nl)
      → (c : Cap) × (lookup h.forwarding key ≡ (some c, h.forwarding))
        × Resolves doc base (Reach-Inv r).root.live h.forwarding.table key c
  reachable-Resolves {h} r key na nl ne few found =
      let inv = Reach-Inv r in
      lookup-Resolves doc base inv.root.live h.forwarding inv.rooted key na nl inv.table
        (λ j a l nz e. (inv.entries j a l e).up) (λ j a l e. (inv.entries j a l e).fits) few ne
        found
