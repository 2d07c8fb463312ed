-- ===== src/CapRuntime/Relocation/Race.antt =====
-- Several threads in `install` and `lookup` of the C++ forwarding table, interleaved in any order. The
-- compare-exchange and each load and store of a slot's field is a step of its own. `clear_region` runs
-- at a safepoint, before the threads start.
pub mod Defs
pub mod Store
pub mod Invariant
pub mod Moves
pub mod Steps
pub mod Settled
