-- ===== src/CapRuntime.antt =====
-- src/cap_runtime/*.cc: the earlier library in C++, a heap's colours, forwardings and revocation epoch.
pub mod SideTable
pub mod Relocation
pub mod Heap
