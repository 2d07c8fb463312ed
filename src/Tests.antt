-- ===== src/Tests.antt =====
-- Concrete machines, tables and kernels, and the theorems applied to them.
pub mod Machine
pub mod Tables
mod Maps
mod Chains
mod Faults
mod Arenas
mod Epochs
mod Signals
mod Race
mod Workers
mod Publish
mod Collect
mod Cycles
mod Pauses
mod Roots
mod Full
mod Startup
mod Runtime
mod Samples
mod Dumps
mod Calls
