-- ===== src/ForwardTable/Publish.antt =====
-- One thread in `forward_table_insert` and any number of threads in `ft_find` on one table, interleaved
-- in any order, as forward_table.h promises. Each load and store of a slot's field is a step of its own.
pub mod Defs
pub mod Keys
pub mod Writer
pub mod Fill
pub mod Readers
pub mod Torn
