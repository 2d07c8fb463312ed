-- ===== src/ForwardTable.antt =====
-- stopless_gc/forward_table.c: the slots of the open-addressed forwarding table, and the operations
-- on them. Addresses and lengths are 64-bit words; a store through an atomic is a store.
pub mod Probe
pub mod Slots
pub mod State
pub mod Insert
pub mod Blank
pub mod Rehash
pub mod Grow
pub mod Race
pub mod Publish
pub mod Resize
use stopless_java_gc.Base.{
  ℕ, zero, suc, ◌+◌, ◌-◌, ◌*◌, ◌/◌, ◌%◌, ◌^◌, bit_and, bit_xor, Bool, true, false, ◌||◌, Option,
  none, some, List, [], ◌∷◌, ltb, ◌==◌, if◌then◌else◌, add64, sub64, mul64, word, get_or, set,
  replicate,
}

-- `ft_slot_t`
pub record Slot : Type 0 where
  pub from_addr : ℕ
  pub new_addr : ℕ
  pub new_len : ℕ

-- what `calloc` and `memset` leave
abbrev pub empty_slot : Slot
empty_slot = record { from_addr = 0; new_addr = 0; new_len = 0 }

-- `g_table`, `g_capacity` and `g_size`; `none` is the null pointer.
pub record Table : Type 0 where
  pub slots : Option (List Slot)
  pub capacity : ℕ
  pub size : ℕ

-- the globals before `forward_table_init`
abbrev pub unset : Table
unset = record { slots = none; capacity = 0; size = 0 }

-- FT_INITIAL_CAP
abbrev pub initial_cap : ℕ
initial_cap = 2 ^ 16

unfoldable pub mix : ℕ → ℕ
mix x =
    let a = mul64 (bit_xor x (x / 2 ^ 30)) 0xbf58476d1ce4e5b9 in
    let b = mul64 (bit_xor a (a / 2 ^ 27)) 0x94d049bb133111eb in bit_xor b (b / 2 ^ 31)

-- `mix(key) & mask`
unfoldable pub home : ℕ → ℕ → ℕ
home mask key = bit_and (mix key) mask

-- `calloc(n, sizeof(ft_slot_t))`, which the Boolean lets succeed or fail
unfoldable pub calloc : Bool → ℕ → Option (List Slot)
calloc true n = some (replicate n empty_slot)
calloc false n = none

unfoldable pub init : Bool → Table → Table
unfolding calloc
init memory t = elim t.slots [
  | some _ ↦ t
  | none ↦ record { slots = calloc memory initial_cap; capacity = initial_cap; size = 0 }
]

unfoldable pub clear : Table → Table
clear t = elim t.slots [
  | none ↦ t
  | some _ ↦ record t { slots = some (replicate t.capacity empty_slot); size = 0 }
]

abbrev pub slot_at : List Slot → ℕ → Slot
slot_at t i = get_or t i empty_slot

abbrev pub key_at : List Slot → ℕ → ℕ
key_at t i = (slot_at t i).from_addr

-- `(i + 1) & mask`
abbrev pub advance : ℕ → ℕ → ℕ
advance mask i = bit_and (add64 i 1) mask

-- Where the probe loops of `forward_table_insert`, `forward_table_cas_insert` and `ft_find` leave
-- the loop: at a free slot and at one with the key.
abbrev pub stops : List Slot → ℕ → ℕ → Bool
stops t key i = (key_at t i == 0) || (key_at t i == key)

-- Their `for` loop: the index at which it is left, `none` after the last round.
unfoldable pub probe : List Slot → ℕ → ℕ → ℕ → ℕ → Option ℕ
probe t mask key zero i = none
probe t mask key (suc rounds) i =
    let rest = probe t mask key rounds (advance mask i) in if stops t key i then some i else rest

-- `size_t mask = g_capacity - 1`, and the loop from `mix(key) & mask` on, `probe <= mask`
unfoldable pub seek : Table → List Slot → ℕ → Option ℕ
unfolding home probe
seek t slots key = let mask = sub64 t.capacity 1 in probe slots mask key (mask + 1) (home mask key)

-- the `while` of `forward_table_maybe_grow`; `none` if no slot is free after so many rounds
unfoldable pub free_from : List Slot → ℕ → ℕ → ℕ → Option ℕ
free_from t mask zero i = none
free_from t mask (suc rounds) i =
    let rest = free_from t mask rounds (advance mask i) in if key_at t i == 0 then some i else rest

-- the `for` of `forward_table_maybe_grow` over the old slots; `none` if a `while` never ends
unfoldable pub rehash : ℕ → List Slot → List Slot → Option (List Slot)
unfolding home free_from
rehash mask [] nt = some nt
rehash mask (s ∷ old) nt = elim (s.from_addr == 0) [
  | true ↦ rehash mask old nt
  | false ↦ elim (free_from nt mask (mask + 1) (home mask s.from_addr)) [
    | none ↦ none
    | some i ↦ rehash mask old (set nt i s)
  ]
]

-- `none` if the rehashing never ends
unfoldable pub maybe_grow : Bool → Table → Option Table
unfolding init calloc rehash
maybe_grow memory t = elim t.slots [
  | none ↦ some (init memory t)
  | some old ↦
      let newcap = mul64 t.capacity 2 in
      if ltb (mul64 t.size 10) (mul64 t.capacity 7) then some t else elim (calloc memory newcap) [
        | none ↦ some t
        | some nt ↦ elim (rehash (sub64 newcap 1) old nt) [
          | none ↦ none
          | some moved ↦ some (record t { slots = some moved; capacity = newcap })
        ]
      ]
]

-- The body of the probe loop where it stops: the three stores, and the count if the slot was free.
unfoldable pub put : Table → List Slot → ℕ → ℕ → ℕ → ℕ → Table
put t slots i key na nl = record t {
  slots = some (set slots i (record { from_addr = key; new_addr = na; new_len = nl }));
  size = if key_at slots i == 0 then add64 t.size 1 else t.size;
}

-- `forward_table_insert` from the address and the length of the capability; `none` is a fault at a
-- null table, which a failed `calloc` leaves.
unfoldable pub insert_at : Bool → Table → ℕ → ℕ → ℕ → Option Table
unfolding init seek put
insert_at memory t key na nl =
    let t' = init memory t in
    elim t'.slots [
      | none ↦ none
      | some slots ↦ elim (seek t' slots key) [
        | none ↦ some t'
        | some i ↦ some (put t' slots i key na nl)
      ]
    ]

-- `ft_find`: `*na` and `*nl` on a hit
unfoldable pub find : Table → ℕ → Option (ℕ × ℕ)
unfolding seek
find t key = elim t.slots [
  | none ↦ none
  | some slots ↦ elim (seek t slots key) [
    | none ↦ none
    | some i ↦
        let s = slot_at slots i in
        if s.from_addr == 0
        then none
        else if s.new_addr == 0
        then none
        else some (s.new_addr, s.new_len)
  ]
]
