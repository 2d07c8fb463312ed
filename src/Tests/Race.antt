-- ===== src/Tests/Race.antt =====
-- The theorem on racing writers, at two threads and one address.
use stopless_java_gc.Base.{ℕ, zero, suc, ◌≡◌, refl, some, [], ◌∷◌, arith}
use stopless_java_gc.ForwardTable.{find, slot_at, key_at, home, mix}
use stopless_java_gc.ForwardTable.Slots.{IsValid}
use stopless_java_gc.ForwardTable.Race.Defs.{
  Entry, Shared, Pc, Reach, table_of, begin, next, call, meet, woken, hit, seen, measured, look,
}
use stopless_java_gc.ForwardTable.Race.Agreement.{result_at, cas_race_agrees}
use stopless_java_gc.Tests.Tables.{moved_slots, moved_IsTable}

-- Thread 0 calls `forward_table_cas_insert` for 4096, which has moved to 8192 already; thread 1 looks
-- 4096 up.
abbrev entry : Entry
entry = record { key = 4096; new_addr = 8192; new_len = 64 }

abbrev read_twice : Shared
read_twice = record { array = moved_slots; size = 2; results = entry ∷ entry ∷ [] }

moved_blank : (j : ℕ) → key_at moved_slots j ≡ 0 → (slot_at moved_slots j).new_addr ≡ 0
moved_blank zero e = absurd (omega (arith, e))
moved_blank (suc zero) e = absurd (omega (arith, e))
moved_blank (suc (suc zero)) e = refl
moved_blank (suc (suc (suc zero))) e = refl
moved_blank (suc (suc (suc (suc j)))) e = refl

raced : (pc : ℕ → Pc) × Reach moved_slots read_twice pc
unfolding home mix
raced = (
  _,
  next 1
      (next 1
        (next 1
          (next 1
            (next 0
              (next 0
                (next 0
                  (next 0
                    (next 0 (next 0 (begin 2) refl (call 4096 9000 64 (omega arith) (omega arith)))
                      refl (meet {d = 0} {i = 0} (omega arith) refl))
                    refl (woken {i = 0} (omega arith)))
                  refl (hit {d = 0} {i = 0} refl))
                refl (seen {i = 0} (omega arith)))
              refl measured)
            refl (look 4096 (omega arith)))
          refl (hit {d = 0} {i = 0} refl))
        refl (seen {i = 0} (omega arith)))
      refl measured,
)

cas_race_agrees_example :
    IsValid 2 moved_slots
    × (find (table_of read_twice) 4096 ≡ some (8192, 64))
    × ((result_at read_twice.results 0).new_addr ≡ (result_at read_twice.results 1).new_addr)
    × ((result_at read_twice.results 0).new_len ≡ (result_at read_twice.results 1).new_len)
cas_race_agrees_example =
    cas_race_agrees moved_IsTable.valid moved_blank raced.1 0 1 (omega arith) (omega arith) refl
