-- ===== src/CapRuntime/SideTable.antt =====
-- side_table.cc: a byte of colour for each eight bytes of the heap.
pub mod Bytes
pub mod Colors
use stopless_java_gc.Base.{
  ℕ, ◌-◌, ◌/◌, ◌%◌, ◌^◌, Bool, Option, none, some, List, [], ◌∷◌, ltb, ◌==◌, if◌then◌else◌, get_or,
  set, replicate,
}

-- `stopless_color_t`, by its numbers.
abbrev pub color_good : ℕ
color_good = 0

abbrev pub color_marked0 : ℕ
color_marked0 = 1

abbrev pub color_marked1 : ℕ
color_marked1 = 2

abbrev pub color_remapped : ℕ
color_remapped = 3

abbrev pub color_finalizable : ℕ
color_finalizable = 4

-- `entries_`, `table_` and `heap_base_`.
pub record SideTable : Type 0 where
  pub entries : ℕ
  pub table : List ℕ
  pub heap_base : ℕ

-- the constructor
unfoldable pub make_side_table : ℕ → SideTable
make_side_table heap_bytes = record {
  entries = heap_bytes / 2 ^ 3;
  table = replicate (heap_bytes / 2 ^ 3) 0;
  heap_base = 0;
}

-- The index of an address, where both `load` and `store` go on.
unfoldable pub index_of : SideTable → ℕ → Option ℕ
index_of t addr =
    if ltb addr t.heap_base
    then none
    else (let idx = (addr - t.heap_base) / 2 ^ 3 in if ltb idx t.entries then some idx else none)

-- `SideTable::load`
unfoldable pub load_color : SideTable → ℕ → ℕ
load_color t addr = elim (index_of t addr) [ none ↦ color_good | some i ↦ get_or t.table i 0 ]

-- `SideTable::store`
unfoldable pub store_color : SideTable → ℕ → ℕ → SideTable
store_color t addr color = elim (index_of t addr) [
  | none ↦ t
  | some i ↦ record t { table = set t.table i (color % 2 ^ 8) }
]

-- the loop of `SideTable::flip_region`
unfoldable pub flip_all : ℕ → ℕ → List ℕ → List ℕ
flip_all expected to [] = []
flip_all expected to (b ∷ bs) = (if b == expected then to else b) ∷ flip_all expected to bs

-- `SideTable::flip_region`, which ignores the region
unfoldable pub flip_region : SideTable → ℕ → ℕ → SideTable
unfolding flip_all
flip_region t from to = record t { table = flip_all (from % 2 ^ 8) (to % 2 ^ 8) t.table }
