-- ===== src/Tests/Collect.antt =====
-- The theorems on the collector, at an object that is allocated, moved and used.
use stopless_java_gc.Base.{
  ℕ, ◌+◌, ◌<◌, ◌≤◌, ◌≡◌, refl, sym, ◌∙◌, Bool, true, some, inl, inr, arith, some_inj, subst,
  Option-cases, word, ◌^◌,
}
use stopless_java_gc.ForwardTable
use stopless_java_gc.ForwardTable.{Table, unset, find, insert_at, put, seek}
use stopless_java_gc.ForwardTable.State.{IsTable}
use stopless_java_gc.ForwardTable.Insert.{Writes, insert_at-Writes}
use stopless_java_gc.ForwardTable.Blank.{IsEmpty, init-IsEmpty}
use stopless_java_gc.Forwarding.{Forwarding, insert, lookup, chase_max}
use stopless_java_gc.Forwarding.Lookup.{Resolves}
use stopless_java_gc.Arena.{Arena}
use stopless_java_gc.Allocator.{alloc_in, reserve, align_up_repr, object_at}
use stopless_java_gc.Allocator.Object.{Root}
use stopless_java_gc.Collector.{Heap, Request, Reach, begin, next, allocate, move}
use stopless_java_gc.Collector.Sound.{Reach-Inv, reachable-Resolves}
use stopless_java_gc.Tests.Machine.{Flat, flat, flat_Documented, arena_cap, cap_to}

abbrev pub arena_at : ℕ → Arena Flat
arena_at cursor = record {
  base = some arena_cap;
  size = 8192;
  shadow = some (cap_to 65536 1024);
  shadow_base_addr = 65536;
  bump_offset = cursor;
}

abbrev pub first_table : Forwarding Flat
first_table = record {
  table = ForwardTable.init true unset;
  arena_base = some arena_cap;
  derive_fail = 0;
}

abbrev pub at_first : Heap Flat
at_first = record { arena = arena_at 0; forwarding = first_table }

root : Root flat_Documented arena_cap 8192
root = record { live = refl; at_start = refl; covers = omega arith; within = omega arith }

pub request : (cursor : ℕ) → Request flat_Documented arena_cap (arena_at cursor) 64
request cursor = record {
  asked = omega arith;
  grows = omega arith;
  sane = omega arith;
  unit_count = 4096;
  placed = refl;
}

-- an object of 64 bytes at 4096
abbrev pub allocated : Heap Flat
allocated = record { arena = arena_at 64; forwarding = first_table }

pub allocated-Reach : Reach flat_Documented arena_cap allocated
unfolding alloc_in reserve align_up_repr object_at
allocated-Reach =
    next (begin (arena_at 0) first_table refl root refl refl refl) (allocate 64 (request 0))

-- and its copy at 4160
abbrev pub copy : Flat
copy = record { tag = true; address = 4160; base = 4160; len = 64; perms = 5 }

pub copied : alloc_in (arena_at 64) 64 ≡ (some copy, arena_at 128)
unfolding alloc_in reserve align_up_repr object_at
copied = refl

pub fresh : IsEmpty first_table.table
fresh = init-IsEmpty unset refl

pub room : first_table.table.size < first_table.table.capacity
room = omega (arith, fresh.size, fresh.room)

-- the table after the move
pub inserted :
    (g : Table) × (insert_at true first_table.table 4096 4160 64 ≡ some g)
    × Writes first_table.table g 4096 4160 64
inserted = insert_at-Writes fresh.table true 4096 4160 64 (omega arith) room

abbrev pub moved : Forwarding Flat
moved = record first_table { table = inserted.0 }

pub insert_made : insert true first_table 4096 copy ≡ some moved
unfolding insert
insert_made = rw (insert, inserted.1)

moved-Reach : Reach flat_Documented arena_cap (record { arena = arena_at 128; forwarding = moved })
moved-Reach = next allocated-Reach (
    move 4096 64 true copy (arena_at 128) moved (request 64) (omega arith) (omega arith) room copied
      insert_made)

-- `forward_table_insert` counts at most one entry.
insert_at-size :
    {g g' : Table} (h : IsTable g) (memory : Bool) (key na nl : ℕ)
    → g.size < 2 ^ 62
    → insert_at memory g key na nl ≡ some g'
    → g'.size ≤ g.size + 1
unfolding insert_at put
insert_at-size {g} {g'} h memory key na nl small run = elim (Option-cases (seek g h.array key)) [
  | inl out ↦
      let same : g ≡ g' = some_inj (sym (ground (arith, h.slots, out)) ∙ run) in
      subst (λ (x : Table). x.size ≤ g.size + 1) same (omega arith)
  | inr (i, e) ↦
      let same : put g h.array i key na nl ≡ g' =
        some_inj (sym (ground (arith, h.slots, e)) ∙ run) in
      subst (λ (x : Table). x.size ≤ g.size + 1) same (ground (arith, small))
]

pub few : moved.table.size ≤ chase_max
few =
    let one = insert_at-size fresh.table true 4096 4160 64 (omega (arith, fresh.size)) inserted.1 in
    omega (arith, fresh.size, one)

found : find moved.table 4096 ≡ some (4160, 64)
found = inserted.2.reads 4096 (omega arith)

pub below : 4096 + 8192 < word
below = omega arith

reachable-Resolves_example :
    (c : Flat) × (lookup moved 4096 ≡ (some c, moved))
    × Resolves flat_Documented arena_cap
        (Reach-Inv flat_Documented arena_cap moved-Reach).root.live
        moved.table
        4096
        c
reachable-Resolves_example =
    reachable-Resolves flat_Documented arena_cap moved-Reach 4096 4160 64 (omega arith) few found
