-- ===== src/Collector.antt =====
-- The collector's side as stopless_gc/api.h describes it: objects are allocated and moved, the table
-- grows and is cleared, in any order. The calls are those of `Allocator`, `ForwardTable` and
-- `Forwarding`; the copying of an object's bytes is in StoplessHeap.
pub mod Sound
pub mod Heals
pub mod Cycle
use stopless_java_gc.Base.{ℕ, ◌+◌, ◌*◌, ◌^◌, ◌≤◌, ◌<◌, ◌≡◌, ◌≢◌, Bool, true, Option, some}
use stopless_java_gc.Cheri.{Cheri, Documented}
use stopless_java_gc.ForwardTable
use stopless_java_gc.ForwardTable.{Table, unset, clear, maybe_grow}
use stopless_java_gc.Forwarding.{Forwarding, insert}
use stopless_java_gc.Arena.{Arena}
use stopless_java_gc.Allocator.{alloc_in}
use stopless_java_gc.Allocator.Align.{unit, Reasonable}
use stopless_java_gc.Allocator.Object.{Root}

-- The arena and the forwarding table.
pub record Heap (Cap : Type 0) : Type 0 where
  pub arena : Arena Cap
  pub forwarding : Forwarding Cap

module _ {Cap : Type 0} ⦃ch : Cheri Cap⦄ (doc : Documented ch) (base : Cap) where
  -- A size that the loop of `stopless_alloc` can handle, its sums below 2 ^ 64, in an arena whose base is a
  -- multiple of the alignment that the rounded size needs. The source aligns the offset only; a mapping
  -- that is representable itself is aligned for every size within it.
  pub record Request (a : Arena Cap) (n : ℕ) : Type 0 where
    pub asked : n ≢ 0
    pub grows : n ≤ ch.representable_length n
    pub sane : Reasonable doc (ch.representable_length n) a.size
    pub unit_count : ℕ
    pub placed : ch.base base ≡ unit_count * unit doc (ch.representable_length n)

  -- the end of what has been handed out
  abbrev pub frontier : Heap Cap → ℕ
  frontier h = ch.base base + h.arena.bump_offset

  pub data Step (h : Heap Cap) : Heap Cap → Type 0 where
    -- a thread allocates, or fails to
    allocate : (n : ℕ) → Request h.arena n → Step h (record h { arena = (alloc_in h.arena n).1 })
    -- the collector moves the object at `key`, which has been handed out, to a new place: the
    -- allocation and the insertion of `stopless_move`
    move :
        (key n : ℕ) (memory : Bool) (c : Cap) (a : Arena Cap) (f : Forwarding Cap)
        → Request h.arena n
        → key ≢ 0
        → key < frontier h
        → h.forwarding.table.size < h.forwarding.table.capacity
        → alloc_in h.arena n ≡ (some c, a)
        → insert memory h.forwarding key c ≡ some f
        → Step h (record { arena = a; forwarding = f })
    -- at a safepoint
    grow :
        (memory : Bool) (g : Table)
        → h.forwarding.table.capacity ≤ 2 ^ 60
        → maybe_grow memory h.forwarding.table ≡ some g
        → Step h (record { arena = h.arena; forwarding = record h.forwarding { table = g } })
    empty : Step h (record {
      arena = h.arena;
      forwarding = record h.forwarding { table = clear h.forwarding.table };
    })

  -- From a fresh arena with its capability at its start, and a fresh table that has the arena's base.
  pub data Reach : Heap Cap → Type 0 where
    begin :
        (a : Arena Cap) (f : Forwarding Cap)
        → a.base ≡ some base
        → Root doc base a.size
        → a.bump_offset ≡ 0
        → f.table ≡ ForwardTable.init true unset
        → f.arena_base ≡ some base
        → Reach (record { arena = a; forwarding = f })
    next : {h h' : Heap Cap} → Reach h → Step h h' → Reach h'
