-- ===== src/ForwardTable/Grow.antt =====
-- `forward_table_maybe_grow` moves every entry to a table of twice the size.
use mathlib.Core.Bool.{true≢false}
use native.Mathlib.Nat.{pow-suc}
use stopless_java_gc.Base.{
  ℕ, suc, ◌-◌, ◌*◌, ◌^◌, ◌≤◌, ◌<◌, ◌≡◌, ◌≢◌, refl, sym, ap, ◌∙◌, subst, inl, inr, Bool, true, false,
  some, some_inj, List, arith, Bool-cases, length, sub64, replicate, length-replicate,
  get_or-replicate, mul64, ltb,
}
use stopless_java_gc.ForwardTable.{Slot, empty_slot, key_at, find, Table, rehash, maybe_grow}
use stopless_java_gc.ForwardTable.Slots.{some_slots, occurs?, distinct}
use stopless_java_gc.ForwardTable.State.{
  occupied-le-length, occupied-replicate, IsTable, Filled, entry, find_present, find_absent,
}
use stopless_java_gc.ForwardTable.Blank.{fresh_array}
use stopless_java_gc.ForwardTable.Rehash.{Moved, rehash-Moved}

-- What `forward_table_maybe_grow` leaves.
pub record Grown (g g' : Table) : Type 0 where
  pub table : IsTable g'
  pub size : g'.size ≡ g.size
  pub reads : (key : ℕ) → key ≢ 0 → find g' key ≡ find g key
  pub wider : g.capacity ≤ g'.capacity
  pub fills : Filled g → Filled g'

-- The branch of `forward_table_maybe_grow` that rehashes.
maybe_grow_run :
    (old nt' : List Slot) (c z n : ℕ)
    → ltb (mul64 z 10) (mul64 c 7) ≡ false
    → mul64 c 2 ≡ n
    → sub64 n 1 ≡ n - 1
    → rehash (n - 1) old (replicate n empty_slot) ≡ some nt'
    → maybe_grow true (record { slots = some old; capacity = c; size = z })
      ≡ some (record { slots = some nt'; capacity = n; size = z })
unfolding maybe_grow
maybe_grow_run old nt' c z n heavy twice mask run = ground (arith, run)

module _ {g : Table} (h : IsTable g) where
  -- the table after the old slots have been moved to `nt'`
  abbrev grown : List Slot → Table
  grown nt' = record { slots = some nt'; capacity = length nt'; size = g.size }

  grown-Grown :
      (nt' : List Slot)
      → Moved (suc h.exponent) h.array (replicate (2 * length h.array) empty_slot) nt'
      → Grown g (grown nt')
  grown-Grown nt' m = record {
    table = h';
    size = refl;
    reads = reads;
    wider = wider;
    fills = fills;
  }
    where
      n : ℕ
      n = 2 * length h.array

      blank : (j : ℕ) → key_at (replicate n empty_slot) j ≡ 0
      blank j = ap (λ (r : Slot). r.from_addr) (get_or-replicate n j empty_slot)

      h' : IsTable (grown nt')
      h' = record {
        exponent = suc h.exponent;
        array = nt';
        slots = refl;
        capacity = refl;
        counted = h.counted ∙ (let c = occupied-replicate n in omega (arith, m.counted));
        valid = m.valid;
      }

      wide : length (replicate n empty_slot) ≡ length nt'
      wide = sym m.width

      wider : g.capacity ≤ length nt'
      wider = omega (arith, h.capacity, m.width, length-replicate n empty_slot)

      fills : Filled g → Filled (grown nt')
      fills filled t j there lj nz =
          let same : nt' ≡ t = some_inj there in
          let nz' : key_at nt' j ≢ 0 = rw same nz in
          rw (← same) (elim (m.only j (rw (← m.width, same) lj) nz') [
            | inl at ↦ absurd (nz' (ap (λ (r : Slot). r.from_addr) at ∙ blank j))
            | inr (i, li, at) ↦
                rw at
                  (filled h.array i h.slots li (λ z. nz' (ap (λ (r : Slot). r.from_addr) at ∙ z)))
          ])

      reads : (key : ℕ) → key ≢ 0 → find (grown nt') key ≡ find g key
      reads key ne = elim (occurs? h.array key) [
        | inl (i, li, e) ↦
            let (j, lj, same) = m.moved i li (λ z. ne (sym e ∙ z)) in
            find_present h' j key (rw wide at lj) (ap (λ (r : Slot). r.from_addr) same ∙ e) ne
            ∙ (ap entry same ∙ sym (find_present h i key li e ne))
        | inr out ↦
            find_absent h' key (λ j lj q.
              elim (m.only j (rw (← wide) at lj) (λ z. ne (sym q ∙ z))) [
                | inl same ↦ ne (sym q ∙ (ap (λ (r : Slot). r.from_addr) same ∙ blank j))
                | inr (i, li, same) ↦ out i li (sym (ap (λ (r : Slot). r.from_addr) same) ∙ q)
              ])
            ∙ sym (find_absent h key out)
      ]

  -- `forward_table_maybe_grow` of a table with at most 2 ^ 60 slots returns, whether or not `calloc`
  -- succeeds; it keeps the invariant, the count and what `ft_find` reads at every nonzero address,
  -- does not shrink, and leaves no occupied slot without its new address where there was none.
  -- If `calloc` succeeds, the load is below 70% afterwards.
  pub maybe_grow-Grown :
      (memory : Bool)
      → g.capacity ≤ 2 ^ 60
      → (g' : Table) × (maybe_grow memory g ≡ some g')
        × Grown g g'
        × (memory ≡ true → g'.size * 10 < g'.capacity * 7)
  unfolding maybe_grow
  maybe_grow-Grown memory bound = elim (Bool-cases (ltb (mul64 g.size 10) (mul64 g.capacity 7))) [
    | inl light ↦ (
      g,
      ground (arith, h.slots),
      record {
        table = h;
        size = refl;
        reads = λ key ne. refl;
        wider = omega arith;
        fills = λ filled. filled;
      },
      λ _. let room = few in ground (arith, room),
    )
    | inr heavy ↦ elim (Bool-cases memory) [
      | inr failed ↦ (
        g,
        ground (arith, h.slots),
        record {
          table = h;
          size = refl;
          reads = λ key ne. refl;
          wider = omega arith;
          fills = λ filled. filled;
        },
        λ ok. absurd (true≢false (sym ok ∙ failed)),
      )
      | inl ok ↦
          let (nt', run, m) = move in
          (
            grown nt',
            subst (λ b. maybe_grow b g ≡ some (grown nt')) (sym ok) (run_at nt' heavy run m.width),
            grown-Grown nt' m,
            λ _.
                let room = few in
                let p = some_slots h.valid in omega (arith, m.width, doubled, h.capacity),
          )
    ]
  ]
    where
      few : g.size ≤ g.capacity
      few = let c = occupied-le-length h.array in omega (arith, h.counted, h.capacity)

      n : ℕ
      n = 2 * length h.array

      doubled : length (replicate n empty_slot) ≡ 2 * length h.array
      doubled = length-replicate n empty_slot

      run_at :
          (nt' : List Slot)
          → ltb (mul64 g.size 10) (mul64 g.capacity 7) ≡ false
          → rehash (length (replicate n empty_slot) - 1) h.array (replicate n empty_slot) ≡ some nt'
          → length nt' ≡ length (replicate n empty_slot)
          → maybe_grow true g ≡ some (grown nt')
      run_at nt' heavy run width =
          let p = some_slots h.valid in
          let plain : maybe_grow true
                (record { slots = some h.array; capacity = g.capacity; size = g.size })
              ≡ some (record { slots = some nt'; capacity = n; size = g.size }) =
            maybe_grow_run h.array nt' g.capacity g.size n heavy (omega (arith, h.capacity))
              (omega (arith, h.capacity)) (rw doubled at run) in
          subst
            (λ o.
              maybe_grow true (record { slots = o; capacity = g.capacity; size = g.size })
              ≡ some (grown nt'))
            (sym h.slots)
            (subst
              (λ c.
                maybe_grow true
                  (record { slots = some h.array; capacity = g.capacity; size = g.size })
                ≡ some (record { slots = some nt'; capacity = c; size = g.size }))
              (sym (width ∙ doubled)) plain)

      move :
          (nt' : List Slot) × (rehash
              (length (replicate n empty_slot) - 1)
              h.array
              (replicate n empty_slot)
            ≡ some nt')
          × Moved (suc h.exponent) h.array (replicate n empty_slot) nt'
      move =
          rehash-Moved h.array (replicate n empty_slot)
            (fresh_array (suc h.exponent) n (omega (arith, h.valid.width, pow-suc 2 h.exponent))
              (omega (arith, h.capacity)))
            (let c = occupied-replicate n in
              let l = occupied-le-length h.array in
              let s = some_slots h.valid in omega (arith, doubled))
            (distinct h.valid)
            (λ i j li lj nz e.
              nz (sym e ∙ ap (λ (r : Slot). r.from_addr) (get_or-replicate n j empty_slot)))
