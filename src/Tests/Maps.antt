-- ===== src/Tests/Maps.antt =====
-- The theorems on the slots, at small tables.
use stopless_java_gc.Base.{◌*◌, ◌<◌, ◌≡◌, true, some, arith}
use stopless_java_gc.ForwardTable.{Table, insert_at, maybe_grow}
use stopless_java_gc.ForwardTable.Insert.{Writes, insert_at-Writes}
use stopless_java_gc.ForwardTable.Grow.{Grown, maybe_grow-Grown}
use stopless_java_gc.Tests.Tables.{moved_table, moved_IsTable, full_table, full_IsTable}

insert_at-Writes_example :
    (g : Table) × (insert_at true moved_table 8256 8320 64 ≡ some g)
    × Writes moved_table g 8256 8320 64
insert_at-Writes_example =
    insert_at-Writes moved_IsTable true 8256 8320 64 (omega arith) (omega arith)

maybe_grow-Grown_example :
    (g : Table) × (maybe_grow true full_table ≡ some g)
    × Grown full_table g
    × (true ≡ true → g.size * 10 < g.capacity * 7)
maybe_grow-Grown_example = maybe_grow-Grown full_IsTable true (omega arith)
