-- ===== src/Tests/Full.antt =====
-- The theorem on a full table: four moves in a table of four slots, and a root that holds an object at
-- 8576.
use stopless_java_gc.Base.{
  ℕ, zero, suc, ◌<◌, ◌≡◌, ◌≢◌, refl, true, false, none, some, List, [], ◌∷◌, arith,
}
use stopless_java_gc.ForwardTable.{Slot, Table, key_at, probe, home, mix}
use stopless_java_gc.ForwardTable.Slots.{search_of}
use stopless_java_gc.ForwardTable.State.{IsTable, occupied}
use stopless_java_gc.Forwarding.{lookup}
use stopless_java_gc.Arena.{Arena}
use stopless_java_gc.Allocator.{alloc_in, reserve, align_up_repr, object_at}
use stopless_java_gc.StoplessHeap.{Options, Mover, do_oop, leaves, is_in, filtered, complex}
use stopless_java_gc.StoplessHeap.Collect.{fresh_mover}
use stopless_java_gc.StoplessHeap.Full.{full_table_loses_root}
use stopless_java_gc.Tests.Machine.{Flat, flat, arena_cap, cap_to}
use stopless_java_gc.Tests.Pauses.{vm}

abbrev full_slots : List Slot
full_slots =
    record { from_addr = 4096; new_addr = 8192; new_len = 64 }
    ∷ record { from_addr = 8192; new_addr = 8256; new_len = 64 }
    ∷ record { from_addr = 8256; new_addr = 8320; new_len = 64 }
    ∷ record { from_addr = 8448; new_addr = 8512; new_len = 64 }
    ∷ []

full_reach :
    (i : ℕ) → i < 4 → key_at full_slots i ≢ 0 → search_of full_slots (key_at full_slots i) ≡ some i
unfolding probe home mix
full_reach zero h ne = refl
full_reach (suc zero) h ne = refl
full_reach (suc (suc zero)) h ne = refl
full_reach (suc (suc (suc zero))) h ne = refl
full_reach (suc (suc (suc (suc i)))) h ne = absurd (omega arith)

full_counted : 4 ≡ occupied full_slots
unfolding occupied
full_counted = refl

abbrev full_table : Table
full_table = record { slots = some full_slots; capacity = 4; size = 4 }

abbrev full_IsTable : IsTable full_table
full_IsTable = record {
  exponent = 2;
  array = full_slots;
  slots = refl;
  capacity = refl;
  counted = full_counted;
  valid = record { width = refl; small = omega arith; reach = full_reach };
}

not_there : (i : ℕ) → i < 4 → key_at full_slots i ≢ 8576
not_there zero h = omega arith
not_there (suc zero) h = omega arith
not_there (suc (suc zero)) h = omega arith
not_there (suc (suc (suc zero))) h = omega arith
not_there (suc (suc (suc (suc i)))) h = absurd (omega arith)

abbrev arena_at : ℕ → Arena Flat
arena_at cursor = record {
  base = some arena_cap;
  size = 8192;
  shadow = some (cap_to 65536 1024);
  shadow_base_addr = 65536;
  bump_offset = cursor;
}

abbrev mover : Mover Flat ℕ
mover = fresh_mover (record {
  arena = some (arena_at 4544);
  forwarding = record { table = full_table; arena_base = some arena_cap; derive_fail = 0 };
  words = λ a. a;
})

abbrev opts : Options
opts = record { limit = 8; klass_filter = none; skip_complex = false; no_fixup = false }

allocated : alloc_in (arena_at 4544) 64 ≡ (some (cap_to 8640 64), arena_at 4608)
unfolding alloc_in reserve align_up_repr object_at
allocated = refl

full_table_loses_root_example :
    (m' : Mover Flat ℕ) × (do_oop vm true opts mover (some (cap_to 8576 64)) ≡ leaves m' none)
    × (m'.moved_from ≡ cap_to 8576 64 ∷ [])
    × (lookup m'.space.forwarding 8576 ≡ (none, m'.space.forwarding))
unfolding is_in filtered complex
full_table_loses_root_example =
    full_table_loses_root vm true opts mover (cap_to 8576 64) (cap_to 8640 64) (arena_at 4544)
      (arena_at 4608) full_IsTable refl not_there refl refl refl refl allocated (omega arith) refl
