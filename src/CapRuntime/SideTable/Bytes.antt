-- ===== src/CapRuntime/SideTable/Bytes.antt =====
-- The side table as a map from granules of eight bytes to colours.
use stopless_java_gc.Base.{
  ℕ, zero, suc, ◌/◌, ◌%◌, ◌^◌, ◌≤◌, ◌<◌, ◌≡◌, refl, sym, ap, ◌∙◌, inl, inr, Bool, none, some, List,
  [], ◌∷◌, ◌==◌, if◌then◌else◌, get_or, set, length, length-set, length-replicate, get_or-set_self,
  get_or-set_ne, arith, ℕ_discrete, eq→==, ne→==, Option-cases, true, false, subst, ◌-◌, ◌*◌, ◌&&◌,
  leb, ltb, Bool-cases,
}
use stopless_java_gc.CapRuntime.SideTable.{
  SideTable, color_good, make_side_table, index_of, load_color, store_color, flip_all, flip_region,
}

-- The array has `entries_` bytes.
pub record IsValid (t : SideTable) : Type 0 where
  pub width : length t.table ≡ t.entries

pub make-IsValid : (heap_bytes : ℕ) → IsValid (make_side_table heap_bytes)
unfolding make_side_table
make-IsValid heap_bytes = record { width = length-replicate (heap_bytes / 2 ^ 3) 0 }

made_out : (heap_bytes a : ℕ) → heap_bytes ≤ a → index_of (make_side_table heap_bytes) a ≡ none
unfolding make_side_table index_of
made_out heap_bytes a le = ground arith

index_lt : (t : SideTable) (addr i : ℕ) → index_of t addr ≡ some i → i < t.entries
unfolding index_of
index_lt t addr i e = ground arith

module _ (t : SideTable) (a : ℕ) where
  pub store_out : (color : ℕ) → index_of t a ≡ none → store_color t a color ≡ t
  unfolding store_color
  store_out color e = rw (store_color, e)

  pub store_in :
      (color i : ℕ)
      → index_of t a ≡ some i
      → store_color t a color ≡ record t { table = set t.table i (color % 2 ^ 8) }
  unfolding store_color
  store_in color i e = rw (store_color, e)

  pub load_out : index_of t a ≡ none → load_color t a ≡ 0
  unfolding load_color
  load_out e = rw (load_color, e)

  pub load_in : (i : ℕ) → index_of t a ≡ some i → load_color t a ≡ get_or t.table i 0
  unfolding load_color
  load_in i e = rw (load_color, e)

pub store-IsValid :
    {t : SideTable} (addr color : ℕ) → IsValid t → IsValid (store_color t addr color)
store-IsValid {t} addr color v = elim (Option-cases (index_of t addr)) [
  | inl out ↦ subst IsValid (sym (store_out t addr color out)) v
  | inr (i, at_i) ↦
      subst IsValid (sym (store_in t addr color i at_i))
        (record { width = length-set t.table i (color % 2 ^ 8) ∙ v.width })
]

-- The indices do not depend on the colours.
index_congr :
    (t : SideTable) (table : List ℕ) (b : ℕ)
    → index_of (record t { table = table }) b ≡ index_of t b
unfolding index_of
index_congr t table b = refl

-- whether the code gives two addresses one index
abbrev same_index : SideTable → ℕ → ℕ → Bool
same_index t a b = elim (index_of t a) [
  | none ↦ false
  | some i ↦ elim (index_of t b) [ none ↦ false | some j ↦ j == i ]
]

store_at :
    {t : SideTable}
    → IsValid t
    → (a color i : ℕ) → index_of t a ≡ some i
    → (b : ℕ)
    → load_color (store_color t a color) b
      ≡ (if same_index t a b then color % 2 ^ 8 else load_color t b)
store_at {t} v a color i at_i b =
    let new = set t.table i (color % 2 ^ 8) in
    let t' : SideTable = record t { table = new } in
    ap (λ s. load_color s b) (store_in t a color i at_i) ∙ elim (Option-cases (index_of t b)) [
      | inl out ↦
          load_out t' b (index_congr t new b ∙ out)
          ∙ (sym (load_out t b out) ∙ rw (if◌then◌else◌, at_i, out))
      | inr (j, at_j) ↦ load_in t' b j (index_congr t new b ∙ at_j) ∙ elim (ℕ_discrete j i) [
        | yes e ↦
            ap (λ x. get_or new x 0) e
            ∙ (get_or-set_self t.table i (color % 2 ^ 8) 0 (rw v.width (index_lt t a i at_i))
                ∙ rw (if◌then◌else◌, at_i, at_j, eq→== j i e))
        | no ne ↦
            get_or-set_ne t.table i j (color % 2 ^ 8) 0 (λ q. ne (sym q))
            ∙ (sym (load_in t b j at_j) ∙ rw (if◌then◌else◌, at_i, at_j, ne→== j i ne))
      ]
    ]

-- whether an address is in the first `entries` blocks of eight bytes from the base
abbrev pub covers : SideTable → ℕ → Bool
covers t a = leb t.heap_base a && ltb (a - t.heap_base) (8 * t.entries)

-- whether two addresses are covered and in one of the blocks
abbrev pub same_block : SideTable → ℕ → ℕ → Bool
same_block t a b = covers t a && (covers t b && ((a - t.heap_base) / 8 == (b - t.heap_base) / 8))

index_covered :
    (t : SideTable) (a : ℕ) → covers t a ≡ true → index_of t a ≡ some ((a - t.heap_base) / 8)
unfolding index_of
index_covered t a e = ground (arith, e)

index_uncovered : (t : SideTable) (a : ℕ) → covers t a ≡ false → index_of t a ≡ none
unfolding index_of
index_uncovered t a e = ground (arith, e)

same_index_block : (t : SideTable) (a b : ℕ) → same_index t a b ≡ same_block t a b
same_index_block t a b = elim (Bool-cases (covers t a)) [
  | inr out ↦ let i = index_uncovered t a out in ground (arith, i, out)
  | inl here ↦ elim (Bool-cases (covers t b)) [
    | inr out ↦
        let i = index_covered t a here in
        let j = index_uncovered t b out in ground (arith, i, j, here, out)
    | inl there ↦
        let i = index_covered t a here in
        let j = index_covered t b there in ground (arith, i, j, here, there)
  ]
]

-- After `store` at an address, `load` at each address that lies with it in one block of eight bytes,
-- counted from the table's base, of the first `entries` ones gives the colour, as a byte, and at any
-- other address what it gave before: so it does at every address if the first is in no such block.
pub load-store :
    {t : SideTable}
    → IsValid t
    → (a color b : ℕ)
    → load_color (store_color t a color) b
      ≡ (if same_block t a b then color % 2 ^ 8 else load_color t b)
load-store {t} v a color b =
    subst
      (λ (q : Bool).
        load_color (store_color t a color) b ≡ (if q then color % 2 ^ 8 else load_color t b))
      (same_index_block t a b)
      (elim (Option-cases (index_of t a)) [
        | inl out ↦ ap (λ s. load_color s b) (store_out t a color out) ∙ rw (if◌then◌else◌, out)
        | inr (i, at_i) ↦ store_at v a color i at_i b
      ])

get_or-flip_all :
    (from to : ℕ) (bs : List ℕ) (i : ℕ)
    → i < length bs
    → get_or (flip_all from to bs) i 0 ≡ (if get_or bs i 0 == from then to else get_or bs i 0)
unfolding flip_all
get_or-flip_all from to [] i l = elim l [ ]
get_or-flip_all from to (b ∷ bs) zero l = refl
get_or-flip_all from to (b ∷ bs) (suc i) l = get_or-flip_all from to bs i (omega arith)

pub flip_lem :
    (t : SideTable) (from to : ℕ)
    → flip_region t from to ≡ record t { table = flip_all (from % 2 ^ 8) (to % 2 ^ 8) t.table }
unfolding flip_region
flip_lem t from to = refl

-- `flip_region`, whatever the region: at every address of the table a colour `from` has become `to`,
-- and any other colour is as it was.
pub load-flip :
    {t : SideTable}
    → IsValid t
    → (from to b i : ℕ) → from < 2 ^ 8
    → to < 2 ^ 8
    → index_of t b ≡ some i
    → load_color (flip_region t from to) b ≡ (if load_color t b == from then to else load_color t b)
load-flip {t} v from to b i lf lt at_i =
    let new = flip_all (from % 2 ^ 8) (to % 2 ^ 8) t.table in
    let byte_from : from % 2 ^ 8 ≡ from = omega arith in
    let byte_to : to % 2 ^ 8 ≡ to = omega arith in
    ap (λ s. load_color s b) (flip_lem t from to)
    ∙ (load_in (record t { table = new }) b i (index_congr t new b ∙ at_i)
        ∙ (get_or-flip_all (from % 2 ^ 8) (to % 2 ^ 8) t.table i (rw v.width (index_lt t b i at_i))
            ∙ rw (byte_from, byte_to, load_in t b i at_i)))

-- In a table as constructed every address beyond the size of the heap is outside, whatever the heap's
-- own base, so that no colour is recorded for it.
pub store-beyond :
    (heap_bytes a color : ℕ)
    → heap_bytes ≤ a
    → (store_color (make_side_table heap_bytes) a color ≡ make_side_table heap_bytes)
      × (load_color (make_side_table heap_bytes) a ≡ color_good)
store-beyond heap_bytes a color le =
    let out = made_out heap_bytes a le in
    (
      store_out (make_side_table heap_bytes) a color out,
      load_out (make_side_table heap_bytes) a out,
    )
