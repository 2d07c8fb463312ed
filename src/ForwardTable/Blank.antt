-- ===== src/ForwardTable/Blank.antt =====
-- `forward_table_init` and `forward_table_clear` leave a table that maps nothing.
use stopless_java_gc.Base.{
  ℕ, ◌^◌, ◌≤◌, ◌<◌, ◌≡◌, ◌≢◌, refl, sym, ap, ◌∙◌, subst, Bool, true, none, some, some_inj, arith,
  replicate, length-replicate, get_or-replicate,
}
use stopless_java_gc.ForwardTable.{Slot, Table, empty_slot, find, init, calloc, clear, initial_cap}
use stopless_java_gc.ForwardTable.Slots.{IsValid, some_slots}
use stopless_java_gc.ForwardTable.State.{IsTable, Filled, occupied-replicate, find_absent}

pub fresh_array : (k n : ℕ) → n ≡ 2 ^ k → n ≤ 2 ^ 62 → IsValid k (replicate n empty_slot)
fresh_array k n e small = record {
  width = length-replicate n empty_slot ∙ e;
  small = rw (length-replicate n empty_slot) small;
  reach = λ i li nz. absurd (nz (ap (λ (r : Slot). r.from_addr) (get_or-replicate n i empty_slot)));
}

-- a table of `n` free slots
abbrev blank : ℕ → Table
blank n = record { slots = some (replicate n empty_slot); capacity = n; size = 0 }

blank-IsTable : (k n : ℕ) → n ≡ 2 ^ k → n ≤ 2 ^ 62 → IsTable (blank n)
blank-IsTable k n e small = record {
  exponent = k;
  array = replicate n empty_slot;
  slots = refl;
  capacity = sym (length-replicate n empty_slot);
  counted = sym (occupied-replicate n);
  valid = fresh_array k n e small;
}

-- An empty table: the invariant holds, nothing is mapped, there is room, and no slot is occupied
-- without its new address.
pub record IsEmpty (g : Table) : Type 0 where
  pub table : IsTable g
  pub nothing : (key : ℕ) → key ≢ 0 → find g key ≡ none
  pub size : g.size ≡ 0
  pub room : 0 < g.capacity
  pub filled : Filled g

blank-IsEmpty : (k n : ℕ) → n ≡ 2 ^ k → n ≤ 2 ^ 62 → 0 < n → IsEmpty (blank n)
unfolding blank-IsTable
blank-IsEmpty k n e small pos = record {
  table = blank-IsTable k n e small;
  nothing = λ key ne.
      find_absent (blank-IsTable k n e small) key
        (λ i li q. ne (sym q ∙ ap (λ (r : Slot). r.from_addr) (get_or-replicate n i empty_slot)));
  size = refl;
  room = pos;
  filled = λ t i there li nz. absurd (
      nz
        (rw (← some_inj there) (ap (λ (r : Slot). r.from_addr) (get_or-replicate n i empty_slot))));
}

pub init_unset :
    (memory : Bool) (g : Table)
    → g.slots ≡ none
    → init memory g ≡ record { slots = calloc memory initial_cap; capacity = initial_cap; size = 0 }
unfolding init
init_unset memory g e = ground arith

-- `forward_table_init` of an unset table, if `calloc` succeeds.
pub init-IsEmpty : (g : Table) → g.slots ≡ none → IsEmpty (init true g)
unfolding calloc
init-IsEmpty g e =
    let fresh : IsEmpty (blank initial_cap) =
      blank-IsEmpty 16 initial_cap refl (omega arith) (omega arith) in
    subst IsEmpty (sym (init_unset true g e)) fresh

-- `forward_table_clear` empties a table, and keeps its capacity.
pub clear-IsEmpty : {g : Table} → IsTable g → IsEmpty (clear g) × ((clear g).capacity ≡ g.capacity)
unfolding clear
clear-IsEmpty {g} h =
    let cleared : clear g ≡ blank g.capacity = ground (arith, h.slots) in
    (
      subst IsEmpty (sym cleared) (
          blank-IsEmpty h.exponent g.capacity (h.capacity ∙ h.valid.width)
            (omega (arith, h.capacity, h.valid.small))
            (omega (arith, h.capacity, some_slots h.valid))),
      ap (λ (r : Table). r.capacity) cleared,
    )
