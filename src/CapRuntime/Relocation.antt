-- ===== src/CapRuntime/Relocation.antt =====
-- forwarding_table.cc: the open-addressed table of the C++ library. A capability is any type with
-- `cap_addr`; `null` is what `stopless_cap_t{}` makes.
pub mod Seek
pub mod Write
pub mod Install
pub mod Blank
pub mod Refine
pub mod Race
use stopless_java_gc.Base.{
  ℕ, zero, suc, ◌-◌, ◌*◌, ◌/◌, ◌^◌, bit_and, bit_xor, Bool, Option, none, some, List, [], ◌∷◌, ltb,
  ◌==◌, ◌||◌, if◌then◌else◌, add64, sub64, mul64, get_or, set, replicate,
}

-- `ForwardingTable::Slot`
pub record Slot {ℓ} (C : Type ℓ) : Type ℓ where
  pub from_addr : ℕ
  pub to_cap : C

-- `slots_`, `slots_count_` and `installed_`
pub record Table {ℓ} (C : Type ℓ) : Type ℓ where
  pub slots : List (Slot C)
  pub slots_count : ℕ
  pub installed : ℕ

unfoldable pub hash_addr : ℕ → ℕ → ℕ
hash_addr a modulus =
    let b = bit_xor a (a / 2 ^ 33) in
    let c = mul64 b 0xff51afd7ed558ccd in bit_and (bit_xor c (c / 2 ^ 33)) (sub64 modulus 1)

-- `while (pow2 < target) pow2 <<= 1`, on fuel
unfoldable pub double_to : ℕ → ℕ → ℕ → ℕ
double_to target zero pow2 = pow2
double_to target (suc fuel) pow2 =
    let rest = double_to target fuel (mul64 pow2 2) in if ltb pow2 target then rest else pow2

-- the number of slots for a heap
unfoldable pub slots_for : ℕ → ℕ
slots_for heap_bytes =
    let target = heap_bytes / 64 in double_to (if ltb target 64 then 64 else target) 64 1

-- the slot of a round of a probe loop
abbrev pub index_at : ℕ → ℕ → ℕ → ℕ
index_at count idx probe = bit_and (add64 idx probe) (sub64 count 1)

module _ {ℓ} {C : Type ℓ} (null : C) where
  abbrev pub empty_slot : Slot C
  empty_slot = record { from_addr = 0; to_cap = null }

  abbrev pub slot_at : List (Slot C) → ℕ → Slot C
  slot_at t i = get_or t i empty_slot

  abbrev pub key_at : List (Slot C) → ℕ → ℕ
  key_at t i = (slot_at t i).from_addr

  -- where the loops of `install` and `lookup` end early
  abbrev pub stops : List (Slot C) → ℕ → ℕ → Bool
  stops t key i = (key_at t i == 0) || (key_at t i == key)

  -- Their `for` loop, from the round `probe` on.
  unfoldable pub seek_from : List (Slot C) → ℕ → ℕ → ℕ → ℕ → ℕ → Option ℕ
  seek_from t count key idx zero probe = none
  seek_from t count key idx (suc rounds) probe =
      let rest = seek_from t count key idx rounds (suc probe) in
      let i = index_at count idx probe in if stops t key i then some i else rest

  unfoldable pub seek : Table C → ℕ → Option ℕ
  unfolding seek_from hash_addr
  seek t key = seek_from t.slots t.slots_count key (hash_addr key t.slots_count) t.slots_count 0

  -- the constructor
  unfoldable pub make_table : ℕ → Table C
  make_table heap_bytes = record {
    slots = replicate (slots_for heap_bytes) empty_slot;
    slots_count = slots_for heap_bytes;
    installed = 0;
  }

  -- `s.to_cap = to`, and the count
  unfoldable pub fill : ℕ → Table C → C → Table C
  fill i t to = record t {
    slots = set t.slots i (record { from_addr = key_at t.slots i; to_cap = to });
    installed = add64 t.installed 1;
  }

  module _ (addr : C → ℕ) where
    -- The compare-exchange of `install`, which takes a free slot: the table after it and the slot, or
    -- `none` where `install` returns with nothing to do.
    unfoldable pub claim : Table C → C → Option (ℕ × Table C)
    unfolding seek
    claim t from = if addr from == 0 then none else elim (seek t (addr from)) [
      | none ↦ none
      | some i ↦
          if key_at t.slots i == 0
          then some (
            i,
            record t {
              slots =
                  set t.slots i
                    (record { from_addr = addr from; to_cap = (slot_at t.slots i).to_cap });
            },
          )
          else none
    ]

    -- `ForwardingTable::install`
    unfoldable pub install : Table C → C → C → Table C
    unfolding claim fill
    install t from to = elim (claim t from) [ none ↦ t | some (i, t') ↦ fill i t' to ]

    -- `ForwardingTable::lookup`
    unfoldable pub lookup : Table C → C → C
    unfolding seek
    lookup t from = if addr from == 0 then from else elim (seek t (addr from)) [
      | none ↦ from
      | some i ↦ if key_at t.slots i == 0 then from else (slot_at t.slots i).to_cap
    ]

-- `ForwardingTable::clear_region`, which ignores the region: no slot has an address, and `to_cap`
-- stays.
unfoldable pub clear_all {ℓ} : {C : Type ℓ} → List (Slot C) → List (Slot C)
clear_all [] = []
clear_all (s ∷ t) = record s { from_addr = 0 } ∷ clear_all t

unfoldable pub clear_region {ℓ} : {C : Type ℓ} → Table C → Table C
unfolding clear_all
clear_region t = record t { slots = clear_all t.slots; installed = 0 }
