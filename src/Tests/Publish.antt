-- ===== src/Tests/Publish.antt =====
-- The theorems on one writer and its readers, at an insertion under two readers.
use stopless_java_gc.Base.{
  ℕ, zero, suc, ◌<◌, ◌≡◌, ◌≢◌, ◌⊎◌, refl, inl, none, some, List, [], ◌∷◌, arith,
}
use stopless_java_gc.ForwardTable.{Slot, key_at, find, seek, probe, home, mix}
use stopless_java_gc.ForwardTable.Slots.{IsValid}
use stopless_java_gc.ForwardTable.Race.Defs.{Entry}
use stopless_java_gc.ForwardTable.Publish.Defs.{
  Answer, Shared, Reader, idle, table_of, Any, Fresh, call, stop, store_len, store_addr, store_key,
  count, look, hit, seen, measured, Reach, begin, wrote, read,
}
use stopless_java_gc.ForwardTable.Publish.Writer.{table_at, replay, steps-insert}
use stopless_java_gc.ForwardTable.Publish.Readers.{answer_at, readers_at_once}
use stopless_java_gc.ForwardTable.Publish.Torn.{torn_read}
use stopless_java_gc.Tests.Tables.{moved_slots, moved_IsTable}

new_in_moved : (j : ℕ) → key_at moved_slots j ≢ 4224
new_in_moved zero e = absurd (omega (arith, e))
new_in_moved (suc zero) e = absurd (omega (arith, e))
new_in_moved (suc (suc zero)) e = absurd (omega (arith, e))
new_in_moved (suc (suc (suc zero))) e = absurd (omega (arith, e))
new_in_moved (suc (suc (suc (suc j)))) e = absurd (omega (arith, e))

-- 4224 moves to 9000: slot 2 is its home, and free.
abbrev published : List Slot
published =
    record { from_addr = 4096; new_addr = 8192; new_len = 64 }
    ∷ record { from_addr = 8192; new_addr = 8256; new_len = 64 }
    ∷ record { from_addr = 4224; new_addr = 9000; new_len = 32 }
    ∷ record { from_addr = 0; new_addr = 0; new_len = 0 }
    ∷ []

abbrev inserted_one : List Entry
inserted_one = record { key = 4224; new_addr = 9000; new_len = 32 } ∷ []

-- Reader 0 looks 4224 up from before the insertion, and reads the slot after it.
abbrev late_answer : Answer
late_answer = record { key = 4224; before = none; found = some (9000, 32); after = some (9000, 32) }

-- Reader 1 looks it up once the insertion has returned.
abbrev next_answer : Answer
next_answer = record {
  key = 4224;
  before = some (9000, 32);
  found = some (9000, 32);
  after = some (9000, 32);
}

abbrev watched : Shared
watched = record {
  array = published;
  size = 3;
  inserted = inserted_one;
  answers = next_answer ∷ late_answer ∷ [];
}

in_four : 0 < 4
in_four = omega arith

address_nonzero : ◌≢◌ {A = ℕ} 4224 0
address_nonzero = omega arith

copy_nonzero : ◌≢◌ {A = ℕ} 9000 0
copy_nonzero = omega arith

run_fresh : (rs : ℕ → Reader) × Reach Fresh moved_slots 2 watched idle rs
unfolding home mix find seek probe
run_fresh =
    let looked = read 0 begin refl (look 4224 address_nonzero) in
    let called = wrote looked (call 4224 9000 32 (address_nonzero, new_in_moved)) in
    let stopped = wrote called (stop {d = 0} {i = 2} in_four (inl refl)) in
    let stored = wrote (wrote (wrote stopped store_len) store_addr) store_key in
    let met = read 0 stored refl (hit {d = 0} {i = 2} in_four address_nonzero refl) in
    let loaded = read 0 (wrote met count) refl (seen {i = 2} copy_nonzero) in
    let answered = read 0 loaded refl (measured {i = 2}) in
    let looked' = read 1 answered refl (look 4224 address_nonzero) in
    let met' = read 1 looked' refl (hit {d = 0} {i = 2} in_four address_nonzero refl) in
    (_, read 1 (read 1 met' refl (seen {i = 2} copy_nonzero)) refl (measured {i = 2}))

readers_at_once_example :
    let r = answer_at watched.answers 0 in
    ((r.found ≡ r.before) ⊎ (r.found ≡ r.after)) × (r.before ≢ none → r.found ≡ r.before)
readers_at_once_example = readers_at_once moved_IsTable.valid 2 run_fresh.1 0 (omega arith)

-- the same insertion with no reader
abbrev unwatched : Shared
unwatched = record { array = published; size = 3; inserted = inserted_one; answers = [] }

run_any : Reach Any moved_slots 2 unwatched idle (λ i. idle)
unfolding home mix
run_any =
    let called = wrote begin (call 4224 9000 32 (omega arith)) in
    let stopped = wrote called (stop {d = 0} {i = 2} (omega arith) (inl refl)) in
    wrote (wrote (wrote (wrote stopped store_len) store_addr) store_key) count

steps-insert_example :
    IsValid 2 published × (replay inserted_one (table_at moved_slots 2) ≡ some (table_of unwatched))
steps-insert_example = steps-insert moved_IsTable.valid 2 run_any

torn_read_example :
    (m : Shared) × (rs : ℕ → Reader) × Reach Any moved_slots 2 m idle rs
    × (answer_at m.answers 0 ≡ record {
      key = 4096;
      before = some (8192, 64);
      found = some (8192, 128);
      after = some (9000, 128);
    })
torn_read_example =
    torn_read moved_IsTable.valid 2 4096 0 9000 128 (omega arith) (omega arith) (omega arith) refl
      (omega arith)
