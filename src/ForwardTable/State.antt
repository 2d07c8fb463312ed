-- ===== src/ForwardTable/State.antt =====
-- The invariant of the globals `g_table`, `g_capacity` and `g_size`, and what `ft_find` reads.
use stopless_java_gc.Base.{
  ℕ, zero, suc, ◌+◌, ◌-◌, ◌^◌, ◌≤◌, ◌<◌, ◌≡◌, ◌≢◌, refl, inl, inr, Option, none, some, List, [],
  ◌∷◌, ◌==◌, if◌then◌else◌, arith, Option-cases, length, set, ℕ_discrete, ne→==, sub64, replicate,
}
use stopless_java_gc.ForwardTable.{Slot, empty_slot, slot_at, key_at, seek, find, Table}
use stopless_java_gc.ForwardTable.Slots.{
  IsValid, search_of, search_stop, search_present, some_slots,
}

-- 1 for an occupied slot
abbrev pub taken : Slot → ℕ
taken s = if s.from_addr == 0 then 0 else 1

unfoldable pub occupied : List Slot → ℕ
occupied [] = 0
occupied (s ∷ t) = taken s + occupied t

pub occupied-set :
    (t : List Slot) (i : ℕ) (s : Slot)
    → i < length t
    → occupied (set t i s) + taken (slot_at t i) ≡ occupied t + taken s
unfolding occupied
occupied-set [] i s h = elim h [ ]
occupied-set (x ∷ t) zero s h = omega arith
occupied-set (x ∷ t) (suc i) s h = omega (arith, occupied-set t i s (omega arith))

pub occupied-le-length : (t : List Slot) → occupied t ≤ length t
unfolding occupied
occupied-le-length [] = omega arith
occupied-le-length (s ∷ t) = ground (arith, occupied-le-length t)

pub occupied-replicate : (n : ℕ) → occupied (replicate n empty_slot) ≡ 0
unfolding occupied
occupied-replicate zero = refl
occupied-replicate (suc n) = omega (arith, occupied-replicate n)

-- An array that is not full has a free slot.
pub free_slot :
    (t : List Slot) → occupied t < length t → (i : ℕ) × (i < length t) × (key_at t i ≡ 0)
unfolding occupied
free_slot [] h = elim h [ ]
free_slot (s ∷ t) h = elim (ℕ_discrete s.from_addr 0) [
  | yes e ↦ (0, omega arith, e)
  | no ne ↦
      let (i, lt, e) = free_slot t (ground (arith, ne→== s.from_addr 0 ne)) in
      (suc i, omega arith, e)
]

pub occupied_lt : (t : List Slot) (i : ℕ) → i < length t → key_at t i ≡ 0 → occupied t < length t
unfolding occupied
occupied_lt [] i h e = elim h [ ]
occupied_lt (s ∷ t) zero h e = ground (arith, occupied-le-length t)
occupied_lt (s ∷ t) (suc i) h e = ground (arith, occupied_lt t i (omega arith) e)

-- The globals once the table is there.
pub record IsTable (g : Table) : Type 0 where
  pub exponent : ℕ
  pub array : List Slot
  pub slots : g.slots ≡ some array
  pub capacity : g.capacity ≡ length array
  pub counted : g.size ≡ occupied array
  pub valid : IsValid exponent array

-- Every occupied slot has its new address.
abbrev pub Filled : Table → Type 0
Filled g =
    (t : List Slot) (i : ℕ)
    → g.slots ≡ some t
    → i < length t
    → key_at t i ≢ 0
    → (slot_at t i).new_addr ≢ 0

-- what `ft_find` reads in an occupied slot
abbrev pub entry : Slot → Option (ℕ × ℕ)
entry s = if s.new_addr == 0 then none else some (s.new_addr, s.new_len)

module _ {g : Table} (h : IsTable g) where
  pub seek_lem : (key : ℕ) → seek g h.array key ≡ search_of h.array key
  unfolding seek
  seek_lem key =
      let n = length h.array in
      let pos : 0 < n = some_slots h.valid in
      let bound : n ≤ 2 ^ 62 = h.valid.small in
      let mask : sub64 g.capacity 1 ≡ n - 1 = rw h.capacity (omega arith) in
      let rounds : n - 1 + 1 ≡ n = omega arith in rw (mask, rounds)

  -- `ft_find` of a key that stands in some slot reads that slot.
  pub find_present :
      (i key : ℕ)
      → i < length h.array
      → key_at h.array i ≡ key
      → key ≢ 0
      → find g key ≡ entry (slot_at h.array i)
  unfolding find
  find_present i key lt e ne =
      ground (arith, h.slots, seek_lem key, search_present h.valid i key lt e ne)

  -- `ft_find` of a key that stands in no slot fails.
  pub find_absent :
      (key : ℕ) → ((i : ℕ) → i < length h.array → key_at h.array i ≢ key) → find g key ≡ none
  unfolding find
  find_absent key out = elim (Option-cases (search_of h.array key)) [
    | inl e ↦ ground (arith, h.slots, seek_lem key)
    | inr (p, e) ↦
        let (lt, stop) = search_stop h.valid key p e in
        let free : key_at h.array p ≡ 0 = elim stop [ inl z ↦ z | inr k ↦ absurd (out p lt k) ] in
        ground (arith, h.slots, seek_lem key)
  ]

-- `ft_find` of 0 fails.
pub find_zero : {g : Table} → IsTable g → find g 0 ≡ none
unfolding find
find_zero {g} h = elim (Option-cases (search_of h.array 0)) [
  | inl e ↦ ground (arith, h.slots, seek_lem h 0, e)
  | inr (p, e) ↦
      let (lt, stop) = search_stop h.valid 0 p e in
      let free : key_at h.array p ≡ 0 = elim stop [ inl z ↦ z | inr k ↦ k ] in
      ground (arith, h.slots, seek_lem h 0, e, free)
]
