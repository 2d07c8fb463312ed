-- ===== src/Tests/Chains.antt =====
-- The theorems on lookups and insertions of capabilities, at the table with two moves.
use stopless_java_gc.Base.{ℕ, zero, suc, ◌<◌, ◌≡◌, ◌≢◌, ◌⊎◌, refl, true, none, some, arith}
use stopless_java_gc.ForwardTable.{find, seek, probe, home, mix, key_at}
use stopless_java_gc.Forwarding.{Forwarding, chase, chase_max, lookup}
use stopless_java_gc.Forwarding.Chase.{chase_total}
use stopless_java_gc.Forwarding.Derive.{Fits}
use stopless_java_gc.Forwarding.Lookup.{Resolves, lookup-Resolves, lookup_never_partial}
use stopless_java_gc.Forwarding.Cas.{Agreed, cas_insert_agrees}
use stopless_java_gc.Tests.Machine.{Flat, flat, flat_Documented, arena_cap, cap_to}
use stopless_java_gc.Tests.Tables.{
  moved_slots, moved_table, moved_IsTable, moved_MovesUp, moved_EntriesFit, moved_first, Fits-at,
}

abbrev moved_state : Forwarding Flat
moved_state = record { table = moved_table; arena_base = some arena_cap; derive_fail = 0 }

chase_total_example : (out : ℕ × ℕ) × (chase moved_table chase_max 8192 64 ≡ some out)
chase_total_example =
    chase_total moved_IsTable moved_MovesUp chase_max 4096 8192 64 (omega arith) (omega arith)
      moved_first

lookup-Resolves_example :
    (c : Flat) × (lookup moved_state 4096 ≡ (some c, moved_state))
    × Resolves flat_Documented arena_cap refl moved_table 4096 c
lookup-Resolves_example =
    lookup-Resolves flat_Documented arena_cap refl moved_state refl 4096 8192 64 moved_IsTable
      moved_MovesUp moved_EntriesFit (omega arith) (omega arith) moved_first

lookup_never_partial_example :
    (lookup moved_state 4096 ≡ (none, moved_state))
    ⊎ ((c : Flat) × (lookup moved_state 4096 ≡ (some c, moved_state))
        × Resolves flat_Documented arena_cap refl moved_table 4096 c)
lookup_never_partial_example =
    lookup_never_partial flat_Documented arena_cap refl moved_state refl 4096 moved_EntriesFit

new-Fits : Fits flat_Documented arena_cap 8320 64
new-Fits = Fits-at 8320 64 (omega arith) (omega arith) (omega arith) refl

new_unmapped : find moved_table 8320 ≡ none
unfolding find seek probe home mix
new_unmapped = refl

not_in_moved : (i : ℕ) → i < 4 → key_at moved_slots i ≢ 8256
not_in_moved zero h = omega arith
not_in_moved (suc zero) h = omega arith
not_in_moved (suc (suc zero)) h = omega arith
not_in_moved (suc (suc (suc zero))) h = omega arith
not_in_moved (suc (suc (suc (suc i)))) h = absurd (omega arith)

cas_insert_agrees_example :
    Agreed flat_Documented arena_cap refl moved_state 8256 8320 64 true (cap_to 8320 64)
cas_insert_agrees_example =
    cas_insert_agrees flat_Documented arena_cap refl moved_state true 8256 (cap_to 8320 64) refl
      moved_IsTable (omega arith) (omega arith) not_in_moved (omega arith) (omega arith)
      new_unmapped new-Fits
