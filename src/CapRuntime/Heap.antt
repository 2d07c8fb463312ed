-- ===== src/CapRuntime/Heap.antt =====
-- cap_runtime.cc and revoke_glue.cc: a heap of the C++ library, and the functions that HotSpot calls.
-- A capability is any type with an address, `to_addr` and `cap_addr` of the source; a region is opaque.
pub mod Reach
pub mod Answers
use stopless_java_gc.Base.{ℕ, ◌==◌, add64, Bool, true, false, Option, none, some, if◌then◌else◌}
use stopless_java_gc.CapRuntime.SideTable.{
  SideTable, make_side_table, load_color, store_color, flip_region,
}
use stopless_java_gc.CapRuntime.Relocation.{Table, make_table, install, lookup, clear_region}

-- `RevokeDriver`, of which only `epoch_` is kept
pub record RevokeDriver : Type 0 where
  pub epoch : ℕ

-- `RevokeDriver::revoke_region`
unfoldable pub revoke_driver_revoke_region : RevokeDriver → RevokeDriver
revoke_driver_revoke_region d = record d { epoch = add64 d.epoch 1 }

-- `RevokeDriver::quiesce`, whose body is empty
unfoldable pub revoke_driver_quiesce : RevokeDriver → RevokeDriver
revoke_driver_quiesce d = d

-- `stopless_heap_s`
pub record Heap {ℓ} (C : Type ℓ) : Type ℓ where
  pub heap_bytes : ℕ
  pub side_table : SideTable
  pub forwarding : Table C
  pub revoke : RevokeDriver

-- How `stopless_heap_create` ends: with NULL, with a heap, or by an exception, which leaves the
-- constructor of a table.
pub data Creation {ℓ} (C : Type ℓ) : Type ℓ where
  null_heap : Creation C
  made : Heap C → Creation C
  bad_alloc : Creation C

-- STOPLESS_CAP_RUNTIME_ABI_VERSION
unfoldable pub cap_runtime_abi_version : ℕ
cap_runtime_abi_version = 1

module _ {ℓ} {C : Type ℓ} (null : C) where
  -- the constructor
  unfoldable pub make_heap : ℕ → Heap C
  make_heap bytes = record {
    heap_bytes = bytes;
    side_table = make_side_table bytes;
    forwarding = make_table null bytes;
    revoke = record { epoch = 0 };
  }

  -- `stopless_heap_create`. The first Boolean lets `new (std::nothrow)` of the heap succeed or fail, the
  -- second the `new` of the arrays of its tables.
  unfoldable pub heap_create : Bool → Bool → ℕ → Creation C
  heap_create memory arrays heap_bytes =
      if heap_bytes == 0
      then null_heap
      else if memory
      then if arrays then made (make_heap heap_bytes) else bad_alloc
      else null_heap

  module _ (addr : C → ℕ) where
    unfoldable pub side_table_load_color : Heap C → C → ℕ
    side_table_load_color heap cap = load_color heap.side_table (addr cap)

    unfoldable pub side_table_store_color : Heap C → C → ℕ → Heap C
    side_table_store_color heap cap color = record heap {
      side_table = store_color heap.side_table (addr cap) color;
    }

    unfoldable pub forwarding_install : Heap C → C → C → Heap C
    forwarding_install heap from to = record heap {
      forwarding = install null addr heap.forwarding from to;
    }

    unfoldable pub forwarding_lookup : Heap C → C → C
    forwarding_lookup heap from = lookup null addr heap.forwarding from

module _ {ℓ} {C : Type ℓ} {R : Type 0} where
  unfoldable pub side_table_flip_region : Heap C → R → ℕ → ℕ → Heap C
  side_table_flip_region heap region from to = record heap {
    side_table = flip_region heap.side_table from to;
  }

  unfoldable pub forwarding_clear_region : Heap C → R → Heap C
  forwarding_clear_region heap region = record heap { forwarding = clear_region heap.forwarding }

  unfoldable pub revoke_region : Heap C → R → Heap C
  unfolding revoke_driver_revoke_region
  revoke_region heap region = record heap { revoke = revoke_driver_revoke_region heap.revoke }

unfoldable pub revoke_quiesce {ℓ} : {C : Type ℓ} → Heap C → Heap C
unfolding revoke_driver_quiesce
revoke_quiesce heap = record heap { revoke = revoke_driver_quiesce heap.revoke }
