-- ===== src/CapRuntime/Relocation/Race/Defs.antt =====
-- The shared table, the threads, and their steps, for addresses that are not 0.
use stopless_java_gc.Base.{
  ℕ, suc, ◌<◌, ◌≡◌, ◌≢◌, Option, none, some, List, [], ◌∷◌, ◌==◌, if◌then◌else◌, add64, set, update,
}
use stopless_java_gc.CapRuntime.Relocation.{Slot, Table, slot_at, key_at}
use stopless_java_gc.CapRuntime.Relocation.Seek.{place}

-- A call of `lookup` that has returned: its argument, the capability that had been stored for its
-- address when the call began, and what it returned.
pub record Answer (C : Type 0) : Type 0 where
  pub from : C
  pub promised : Option C
  pub found : C

-- The table, the stores of `to_cap` with the address of the slot, and the answers, newest first.
pub record Shared (C : Type 0) : Type 0 where
  pub table : Table C
  pub stored : List (ℕ × C)
  pub answers : List (Answer C)

-- Where a thread stands. In `install`: before the compare-exchange of a round, before the load that
-- follows a failed one, before the store of `to_cap`, before the increment of `installed_`. In
-- `lookup`: before the load of `from_addr`, and before that of `to_cap`.
pub data Thread (C : Type 0) : Type 0 where
  idle : Thread C
  trying checking : (from to : C) (round : ℕ) → Thread C
  filling : (key : ℕ) (to : C) (i : ℕ) → Thread C
  counting : Thread C
  finding : (from : C) (round : ℕ) (promised : Option C) → Thread C
  fetching : (from : C) (i : ℕ) (promised : Option C) → Thread C

-- the capability last stored for an address
abbrev pub stored_for : {C : Type 0} → List (ℕ × C) → ℕ → Option C
stored_for [] key = none
stored_for ((k, c) ∷ rest) key = if k == key then some c else stored_for rest key

module _ {C : Type 0} (null : C) (addr : C → ℕ) where
  -- the slot of a round, and its address
  abbrev pub here : Shared C → C → ℕ → ℕ
  here m from d = place null m.table (addr from) d

  abbrev pub key_here : Shared C → C → ℕ → ℕ
  key_here m from d = key_at null m.table.slots (here m from d)

  -- a store to a slot
  abbrev pub write : Shared C → ℕ → Slot C → Shared C
  write m i s = record m { table = record m.table { slots = set m.table.slots i s } }

  abbrev pub answered : Shared C → C → Option C → C → Shared C
  answered m from promised found = record m {
    answers = record { from = from; promised = promised; found = found } ∷ m.answers;
  }

  -- the store of `to_cap`
  abbrev pub filled : Shared C → ℕ → C → ℕ → Shared C
  filled m key to i = record (write m i (record (slot_at null m.table.slots i) { to_cap = to })) {
    stored = (key, to) ∷ m.stored;
  }

  -- A step of one thread.
  pub data Move (m : Shared C) : Thread C → Shared C → Thread C → Type 0 where
    install : (from to : C) → addr from ≢ 0 → Move m idle m (trying from to 0)
    full : {from to : C} {d : ℕ} → d ≡ m.table.slots_count → Move m (trying from to d) m idle
    -- the compare-exchange succeeds, or fails
    win :
        {from to : C} {d : ℕ}
        → d < m.table.slots_count
        → key_here m from d ≡ 0
        → Move m
            (trying from to d)
            (write m
              (here m from d)
              (record (slot_at null m.table.slots (here m from d)) { from_addr = addr from }))
            (filling (addr from) to (here m from d))
    lose :
        {from to : C} {d : ℕ}
        → d < m.table.slots_count
        → key_here m from d ≢ 0
        → Move m (trying from to d) m (checking from to d)
    beaten :
        {from to : C} {d : ℕ} → key_here m from d ≡ addr from → Move m (checking from to d) m idle
    other :
        {from to : C} {d : ℕ}
        → key_here m from d ≢ addr from
        → Move m (checking from to d) m (trying from to (suc d))
    fill : {key : ℕ} {to : C} {i : ℕ} → Move m (filling key to i) (filled m key to i) counting
    count :
        Move m counting
          (record m { table = record m.table { installed = add64 m.table.installed 1 } })
          idle
    look :
        (from : C)
        → addr from ≢ 0
        → Move m idle m (finding from 0 (stored_for m.stored (addr from)))
    over :
        {from : C} {d : ℕ} {promised : Option C}
        → d ≡ m.table.slots_count
        → Move m (finding from d promised) (answered m from promised from) idle
    absent :
        {from : C} {d : ℕ} {promised : Option C}
        → d < m.table.slots_count
        → key_here m from d ≡ 0
        → Move m (finding from d promised) (answered m from promised from) idle
    skip :
        {from : C} {d : ℕ} {promised : Option C}
        → d < m.table.slots_count
        → key_here m from d ≢ 0
        → key_here m from d ≢ addr from
        → Move m (finding from d promised) m (finding from (suc d) promised)
    hit :
        {from : C} {d : ℕ} {promised : Option C}
        → d < m.table.slots_count
        → key_here m from d ≡ addr from
        → Move m (finding from d promised) m (fetching from (here m from d) promised)
    fetch :
        {from : C} {i : ℕ} {promised : Option C}
        → Move m
            (fetching from i promised)
            (answered m from promised (slot_at null m.table.slots i).to_cap)
            idle

  -- Any thread moves, any number of times, from a table where all threads are idle.
  pub data Reach (t : Table C) : Shared C → (ℕ → Thread C) → Type 0 where
    begin : Reach t (record { table = t; stored = []; answers = [] }) (λ _. idle)
    next :
        {m m' : Shared C} {pc : ℕ → Thread C} (j : ℕ) {p p' : Thread C}
        → Reach t m pc
        → pc j ≡ p
        → Move m p m' p'
        → Reach t m' (update pc j p')
