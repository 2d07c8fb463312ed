-- ===== src/ForwardTable/Race.antt =====
-- Several threads in `forward_table_cas_insert` and `ft_find` on one table, interleaved in any order.
-- Each load, store and compare-exchange of a slot's field is a step of its own. While threads race the
-- table neither grows nor is cleared: these run at a safepoint, as does `forward_table_insert`.
pub mod Defs
pub mod Overwrite
pub mod Invariant
pub mod Moves
pub mod Agreement
