-- ===== src/Tests/Runtime.antt =====
-- The theorems on the C++ library as it is built for a host, where a capability is an address.
use stopless_java_gc.Base.{
  ℕ, ◌*◌, ◌/◌, ◌^◌, ◌<◌, ◌≤◌, ◌≡◌, ◌≢◌, refl, sym, ◌∙◌, ◌⊎◌, some, [], ◌∷◌, arith, length,
}
use stopless_java_gc.CapRuntime.SideTable.{make_side_table, index_of, load_color, store_color}
use stopless_java_gc.CapRuntime.SideTable.Bytes.{make-IsValid, load-store}
use stopless_java_gc.CapRuntime.Relocation.{
  Table, make_table, slots_for, slot_at, key_at, claim, fill, install, lookup, clear_region,
}
use stopless_java_gc.CapRuntime.Relocation.Install.{Holds, claim-lookup}
use stopless_java_gc.CapRuntime.Relocation.Blank.{
  IsBlank, blank-IsValid, make-IsBlank, slots_for_lem,
}
use stopless_java_gc.CapRuntime.Relocation.Refine.{
  Implements, no_entries, enter, follow, blank-Implements, install-Implements,
}
use stopless_java_gc.CapRuntime.Heap.{
  Heap, make_heap, heap_create, forwarding_install, forwarding_lookup, side_table_store_color,
}
use stopless_java_gc.CapRuntime.Heap.Reach.{Logged, Reach, created, stored, installed}
use stopless_java_gc.CapRuntime.Heap.Answers.{lookup-Logged}

abbrev addr : ℕ → ℕ
addr c = c

load-store_example : load_color (store_color (make_side_table 64) 8 3) 12 ≡ 3
unfolding index_of make_side_table
load-store_example = load-store (make-IsValid 64) 8 3 12

slots_for_lem_example :
    (k : ℕ) × (slots_for 8192 ≡ 2 ^ k)
    × (64 ≤ slots_for 8192)
    × (8192 / 64 ≤ slots_for 8192)
    × ((slots_for 8192 ≤ 128) ⊎ (slots_for 8192 ≤ 2 * (8192 / 64)))
slots_for_lem_example = slots_for_lem 8192 (omega arith)

-- the table of a heap of 4096 bytes
abbrev table : Table ℕ
table = make_table 0 4096

blank : IsBlank 0 table
blank = make-IsBlank 4096 (omega arith)

some_slot : 0 < length table.slots
unfolding make_table
some_slot =
    let (k, e, least, covers, most) = slots_for_lem 4096 (omega arith) in
    omega (arith, blank.width, least)

nothing_held : (key : ℕ) → key ≢ 0 → ¬ Holds 0 table.slots key
nothing_held key ne (i, lt, e) = ne (sym e ∙ blank.free i)

install-Implements_example :
    ((c : ℕ) → lookup 0 addr table c ≡ follow no_entries c c)
    × (Implements 0 (install 0 addr table 8 4000) (enter no_entries 8 4000)
        ⊎ ((install 0 addr table 8 4000 ≡ table)
            × ((i : ℕ) → i < length table.slots → key_at 0 table.slots i ≢ 0)))
    × Implements 0 (clear_region table) no_entries
install-Implements_example = install-Implements (blank-Implements blank) addr 8 4000

claim-lookup_example :
    (p : ℕ) × (t' : Table ℕ) × (claim 0 addr table 8 ≡ some (p, t'))
    × (lookup 0 addr t' 8 ≡ (slot_at 0 table.slots p).to_cap)
    × (install 0 addr table 8 4000 ≡ fill 0 p t' 4000)
    × (lookup 0 addr (fill 0 p t' 4000) 8 ≡ 4000)
claim-lookup_example =
    claim-lookup (blank-IsValid blank) addr 8 4000 (omega arith) 0 some_slot (blank.free 0)
      (nothing_held 8 (omega arith))

-- a heap of 4096 bytes through a store of a colour and the forwarding of 8
abbrev heap : Heap ℕ
heap = forwarding_install 0 addr (side_table_store_color 0 addr (make_heap 0 4096) 8 3) 8 4000

heap-Reach : Reach 0 addr ℕ heap ((8, 4000) ∷ [])
unfolding heap_create
heap-Reach =
    installed 8 4000 (stored 8 3 (omega arith) (created 4096 (make_heap 0 4096) (omega arith) refl))

lookup-Logged_example :
    (forwarding_lookup 0 addr heap 8 ≡ 8)
    ⊎ Logged addr 8 (forwarding_lookup 0 addr heap 8) ((8, 4000) ∷ [])
lookup-Logged_example = lookup-Logged 0 addr ℕ heap-Reach 8
