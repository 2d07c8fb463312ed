-- ===== src/Forwarding/Lookup.antt =====
-- `forward_table_lookup`: which capability it returns, and when.
use stopless_java_gc.Base.{
  ℕ, zero, suc, ◌^◌, ◌≤◌, ◌<◌, ◌≡◌, ◌≢◌, ◌⊎◌, refl, sym, ap, ◌∙◌, Bool, true, none, some, arith,
  Option-cases, ne→==, eq→==, inl, inr,
}
use stopless_java_gc.Cheri.{Cheri, Documented}
use stopless_java_gc.ForwardTable.{Table, find, seek, maybe_grow}
use stopless_java_gc.ForwardTable.State.{IsTable}
use stopless_java_gc.ForwardTable.Insert.{insert_at-Writes}
use stopless_java_gc.ForwardTable.Grow.{maybe_grow-Grown}
use stopless_java_gc.Forwarding.{Forwarding, chase, chase_max, rebuilt, derive, lookup, insert}
use stopless_java_gc.Forwarding.Chase.{
  Leads, last, itself, hop, chase_of_Leads, Leads-of_chase, MovesUp, chase_total,
}
use stopless_java_gc.Forwarding.Derive.{Fits, Tight, rebuilt-Tight, derive_fits}

-- `ft_find` treats a zero address as absent.
pub find-ne-zero : (g : Table) (key a l : ℕ) → find g key ≡ some (a, l) → a ≢ 0
unfolding find
find-ne-zero g key a l e = elim (Option-cases g.slots) [
  | inl out ↦ absurd (ground (arith, out, e))
  | inr (t, there) ↦ elim (Option-cases (seek g t key)) [
    | inl out ↦ absurd (ground (arith, there, out, e))
    | inr (i, stop) ↦ ground (arith, there, stop, e)
  ]
]

-- What holds of every mapped pair and of the start holds of the chain's end.
Leads_keeps :
    {g : Table} (P : ℕ → ℕ → Type 0) {n na nl za zl : ℕ}
    → ((key a l : ℕ) → find g key ≡ some (a, l) → P a l)
    → Leads g n na nl za zl
    → P na nl
    → P za zl
Leads_keeps P mapped (last e) p = p
Leads_keeps P mapped (itself e) p = p
Leads_keeps P mapped (hop e ne c) p = Leads_keeps P mapped c (mapped _ _ _ e)

-- The chase reads the map, not the slots.
chase_congr :
    (g g' : Table) (rounds na nl : ℕ)
    → ((key : ℕ) → key ≢ 0 → find g' key ≡ find g key)
    → na ≢ 0
    → chase g' rounds na nl ≡ chase g rounds na nl
unfolding chase
chase_congr g g' zero na nl same ne = refl
chase_congr g g' (suc rounds) na nl same ne = elim (Option-cases (find g na)) [
  | inl out ↦ ground (arith, out, same na ne)
  | inr ((nna, nnl), found) ↦
      let ih = chase_congr g g' rounds nna nnl same (find-ne-zero g na nna nnl found) in
      ground (arith, found, same na ne, ih)
]

module _ {Cap : Type 0} ⦃ch : Cheri Cap⦄ where
  pub lookup_miss :
      (f : Forwarding Cap) (key : ℕ) → find f.table key ≡ none → lookup f key ≡ (none, f)
  unfolding lookup
  lookup_miss f key out = ground (arith, out)

  lookup_stop :
      (f : Forwarding Cap) (key na nl : ℕ)
      → find f.table key ≡ some (na, nl)
      → chase f.table chase_max na nl ≡ none
      → lookup f key ≡ (none, f)
  unfolding lookup
  lookup_stop f key na nl found stop = ground (arith, found, stop)

  pub lookup_run :
      (f : Forwarding Cap) (key na nl za zl : ℕ)
      → find f.table key ≡ some (na, nl)
      → chase f.table chase_max na nl ≡ some (za, zl)
      → lookup f key ≡ derive f za zl
  unfolding lookup
  lookup_run f key na nl za zl found run = ground (arith, found, run)

  derive_congr :
      (f : Forwarding Cap) (g : Table) (a l : ℕ)
      → (derive (record f { table = g }) a l).0 ≡ (derive f a l).0
  unfolding derive
  derive_congr f g a l = ground arith

  -- `forward_table_maybe_grow` of a table with at most 2 ^ 60 slots returns, and changes the result of
  -- no lookup of a nonzero address.
  pub lookup-maybe_grow :
      (f : Forwarding Cap) (memory : Bool) (key : ℕ)
      → IsTable f.table
      → f.table.capacity ≤ 2 ^ 60
      → key ≢ 0
      → (g : Table) × (maybe_grow memory f.table ≡ some g)
        × ((lookup (record f { table = g }) key).0 ≡ (lookup f key).0)
  lookup-maybe_grow f memory key h bound ne =
      let (g, run, grown, room) = maybe_grow-Grown h memory bound in
      let f' : Forwarding Cap = record f { table = g } in
      (
        g,
        run,
        elim (Option-cases (find f.table key)) [
          | inl out ↦
              ap (λ r. r.0) (lookup_miss f' key (grown.reads key ne ∙ out))
              ∙ sym (ap (λ r. r.0) (lookup_miss f key out))
          | inr ((na, nl), found) ↦
              let same =
                chase_congr f.table g chase_max na nl grown.reads
                  (find-ne-zero f.table key na nl found) in
              elim (Option-cases (chase f.table chase_max na nl)) [
                | inl stop ↦
                    ap (λ r. r.0)
                      (lookup_stop f' key na nl (grown.reads key ne ∙ found) (same ∙ stop))
                    ∙ sym (ap (λ r. r.0) (lookup_stop f key na nl found stop))
                | inr ((za, zl), run) ↦
                    ap (λ r. r.0)
                      (lookup_run f' key na nl za zl (grown.reads key ne ∙ found) (same ∙ run))
                    ∙ (derive_congr f g za zl
                        ∙ sym (ap (λ r. r.0) (lookup_run f key na nl za zl found run)))
              ]
        ],
      )

module _ {Cap : Type 0} ⦃ch : Cheri Cap⦄ (doc : Documented ch) (base : Cap)
    (root : ch.tag base ≡ true) where
  -- Every mapped pair is a range of the arena.
  abbrev pub EntriesFit : Table → Type 0
  EntriesFit g = (key a l : ℕ) → find g key ≡ some (a, l) → Fits doc base a l

  -- The end of the chain from `key`, and a tight capability to it.
  pub record Resolves (g : Table) (key : ℕ) (c : Cap) : Type 0 where
    pub first : ℕ × ℕ
    pub target : ℕ
    pub extent : ℕ
    pub hops : ℕ
    pub mapped : find g key ≡ some first
    pub chain : Leads g hops first.0 first.1 target extent
    pub tight : Tight doc base target extent c

  module _ (f : Forwarding Cap) (rooted : f.arena_base ≡ some base) where
    resolve :
        (key na nl za zl n : ℕ)
        → EntriesFit f.table
        → find f.table key ≡ some (na, nl)
        → chase f.table chase_max na nl ≡ some (za, zl)
        → Leads f.table n na nl za zl
        → (c : Cap) × (lookup f key ≡ (some c, f)) × Resolves f.table key c
    resolve key na nl za zl n fit found run chain =
        let fits : Fits doc base za zl =
          Leads_keeps (Fits doc base) fit chain (fit key na nl found) in
        let ne : za ≢ 0 =
          Leads_keeps (λ a l. a ≢ 0) (find-ne-zero f.table) chain
            (find-ne-zero f.table key na nl found) in
        (
          rebuilt base za zl,
          lookup_run f key na nl za zl found run ∙ derive_fits doc root fits f rooted ne,
          record {
            first = (na, nl);
            target = za;
            extent = zl;
            hops = n;
            mapped = found;
            chain = chain;
            tight = rebuilt-Tight doc root fits;
          },
        )

    -- `forward_table_lookup` of a mapped address returns a tight capability to the end of its chain,
    -- and changes nothing: the chain is followed to the end if every move went upwards and there are
    -- at most FT_CHASE_MAX entries.
    pub lookup-Resolves :
        (key na nl : ℕ)
        → IsTable f.table
        → MovesUp f.table
        → EntriesFit f.table
        → f.table.size ≤ chase_max
        → key ≢ 0
        → find f.table key ≡ some (na, nl)
        → (c : Cap) × (lookup f key ≡ (some c, f)) × Resolves f.table key c
    lookup-Resolves key na nl h up fit few ne found =
        let ((za, zl), run) = chase_total h up chase_max key na nl ne few found in
        let (n, lt, chain) = Leads-of_chase f.table chase_max na nl za zl run in
        resolve key na nl za zl n fit found run chain

    -- With the arena's live capability set, and each pair of the table a range of the arena with exact
    -- bounds: what `forward_table_lookup` returns of any address is either nothing, with the state left
    -- alone, or a tight capability to the end of the chain, never to a hop on the way.
    pub lookup_never_partial :
        (key : ℕ)
        → EntriesFit f.table
        → (lookup f key ≡ (none, f))
          ⊎ ((c : Cap) × (lookup f key ≡ (some c, f)) × Resolves f.table key c)
    unfolding lookup
    lookup_never_partial key fit = elim (Option-cases (find f.table key)) [
      | inl out ↦ inl (ground (arith, out))
      | inr ((na, nl), found) ↦ elim (Option-cases (chase f.table chase_max na nl)) [
        | inl stop ↦ inl (ground (arith, found, stop))
        | inr ((za, zl), run) ↦
            let (n, lt, chain) = Leads-of_chase f.table chase_max na nl za zl run in
            inr (resolve key na nl za zl n fit found run chain)
      ]
    ]

  -- `forward_table_insert` and then `forward_table_lookup` of the same address: a capability with
  -- the address, the bounds and the liveness of the one inserted, if the inserted capability's own
  -- address is not mapped and it spans a range of the arena.
  pub lookup-insert :
      (f : Forwarding Cap) (memory : Bool) (key : ℕ) (new_cap : Cap)
      → f.arena_base ≡ some base
      → IsTable f.table
      → f.table.size < f.table.capacity
      → key ≢ 0
      → ch.address new_cap ≢ 0
      → ch.address new_cap ≢ key
      → find f.table (ch.address new_cap) ≡ none
      → Fits doc base (ch.address new_cap) (ch.len new_cap)
      → (f' : Forwarding Cap) × (c : Cap) × (insert memory f key new_cap ≡ some f')
        × (lookup f' key ≡ (some c, f'))
        × Tight doc base (ch.address new_cap) (ch.len new_cap) c
  unfolding insert
  lookup-insert f memory key new_cap rooted h room ne nz apart unmapped fits =
      let a = ch.address new_cap in
      let l = ch.len new_cap in
      let (g, run, w) = insert_at-Writes h memory key a l ne room in
      let f' : Forwarding Cap = record f { table = g } in
      let found : find g key ≡ some (a, l) =
        w.reads key ne ∙ ground (arith, eq→== key key refl, ne→== a 0 nz) in
      let ended : find g a ≡ none = w.reads a nz ∙ ground (arith, unmapped, ne→== a key apart) in
      let chased : chase g chase_max a l ≡ some (a, l) =
        chase_of_Leads g chase_max (last ended) (omega arith) in
      (
        f',
        rebuilt base a l,
        ground (arith, run),
        lookup_run f' key a l a l found chased ∙ derive_fits doc root fits f' rooted nz,
        rebuilt-Tight doc root fits,
      )
