-- ===== src/Tests/Tables.antt =====
-- A small table with a collision and a chain of two moves, and what the theorems ask of it.
use stopless_java_gc.Base.{
  ℕ, zero, suc, ◌+◌, ◌-◌, ◌≤◌, ◌<◌, ◌≡◌, ◌≢◌, refl, sym, ap, ◌∙◌, ◌⊎◌, inl, inr, none, some, List,
  [], ◌∷◌, arith, length, some_inj, ℕ_discrete, word, bit_and,
}
use stopless_java_gc.ForwardTable.{
  Slot, Table, empty_slot, slot_at, key_at, find, probe, home, mix, seek,
}
use stopless_java_gc.ForwardTable.Slots.{search_of, occurs?}
use stopless_java_gc.ForwardTable.State.{
  IsTable, occupied, entry, find_present, find_absent, find_zero,
}
use stopless_java_gc.Forwarding.Chase.{MovesUp}
use stopless_java_gc.Forwarding.Derive.{Fits}
use stopless_java_gc.Forwarding.Lookup.{EntriesFit}
use stopless_java_gc.Tests.Machine.{flat, flat_Documented, arena_cap}

-- What `ft_find` finds stands in a slot.
found_slot :
    {g : Table} (h : IsTable g) (key a l : ℕ)
    → find g key ≡ some (a, l)
    → (i : ℕ) × (i < length h.array)
      × (key_at h.array i ≡ key)
      × (entry (slot_at h.array i) ≡ some (a, l))
found_slot {g} h key a l e = elim (ℕ_discrete key 0) [
  | yes z ↦ absurd (let q : find g key ≡ none = ap (find g) z ∙ find_zero h in cc)
  | no ne ↦ elim (occurs? h.array key) [
    | inl (i, li, at_i) ↦ (i, li, at_i, sym (find_present h i key li at_i ne) ∙ e)
    | inr out ↦ absurd (let q : find g key ≡ none = find_absent h key out in cc)
  ]
]

-- 4096 moved to 8192, and from there to 8256; both addresses have slot 0 as their home.
abbrev pub moved_slots : List Slot
moved_slots =
    record { from_addr = 4096; new_addr = 8192; new_len = 64 }
    ∷ record { from_addr = 8192; new_addr = 8256; new_len = 64 }
    ∷ empty_slot
    ∷ empty_slot
    ∷ []

abbrev pub moved_table : Table
moved_table = record { slots = some moved_slots; capacity = 4; size = 2 }

pub moved_reach :
    (i : ℕ)
    → i < 4
    → key_at moved_slots i ≢ 0
    → search_of moved_slots (key_at moved_slots i) ≡ some i
unfolding probe home mix
moved_reach zero h ne = refl
moved_reach (suc zero) h ne = refl
moved_reach (suc (suc zero)) h ne = absurd (ne refl)
moved_reach (suc (suc (suc zero))) h ne = absurd (ne refl)
moved_reach (suc (suc (suc (suc i)))) h ne = absurd (omega arith)

pub moved_counted : 2 ≡ occupied moved_slots
unfolding occupied
moved_counted = refl

abbrev pub moved_IsTable : IsTable moved_table
moved_IsTable = record {
  exponent = 2;
  array = moved_slots;
  slots = refl;
  capacity = refl;
  counted = moved_counted;
  valid = record { width = refl; small = omega arith; reach = moved_reach };
}

moved_entries :
    (i a l : ℕ)
    → entry (slot_at moved_slots i) ≡ some (a, l)
    → ((key_at moved_slots i ≡ 4096) × (a ≡ 8192) × (l ≡ 64))
      ⊎ ((key_at moved_slots i ≡ 8192) × (a ≡ 8256) × (l ≡ 64))
moved_entries zero a l e =
    inl (refl, sym (ap (λ r. r.0) (some_inj e)), sym (ap (λ r. r.1) (some_inj e)))
moved_entries (suc zero) a l e =
    inr (refl, sym (ap (λ r. r.0) (some_inj e)), sym (ap (λ r. r.1) (some_inj e)))
moved_entries (suc (suc zero)) a l e = cc
moved_entries (suc (suc (suc zero))) a l e = cc
moved_entries (suc (suc (suc (suc i)))) a l e = cc

moved_pairs :
    (key a l : ℕ)
    → find moved_table key ≡ some (a, l)
    → ((key ≡ 4096) × (a ≡ 8192) × (l ≡ 64)) ⊎ ((key ≡ 8192) × (a ≡ 8256) × (l ≡ 64))
moved_pairs key a l e =
    let (i, li, at_i, here) = found_slot moved_IsTable key a l e in
    elim (moved_entries i a l here) [
      | inl (k, p, q) ↦ inl (sym at_i ∙ k, p, q)
      | inr (k, p, q) ↦ inr (sym at_i ∙ k, p, q)
    ]

pub moved_MovesUp : MovesUp moved_table
moved_MovesUp key a l ne e = elim (moved_pairs key a l e) [
  | inl (k, p, q) ↦ omega arith
  | inr (k, p, q) ↦ omega arith
]

pub Fits-at :
    (a l : ℕ)
    → 4096 ≤ a
    → a + l ≤ 12288
    → 0 < l
    → bit_and a (word - 1) ≡ a
    → Fits flat_Documented arena_cap a l
Fits-at a l low high pos aligned = record {
  low = low;
  high = high;
  nonempty = pos;
  exact = refl;
  aligned = aligned;
}

pub moved_EntriesFit : EntriesFit flat_Documented arena_cap refl moved_table
moved_EntriesFit key a l e = elim (moved_pairs key a l e) [
  | inl (k, p, q) ↦ Fits-at a l (omega arith) (omega arith) (omega arith) (rw (p) refl)
  | inr (k, p, q) ↦ Fits-at a l (omega arith) (omega arith) (omega arith) (rw (p) refl)
]

pub moved_first : find moved_table 4096 ≡ some (8192, 64)
unfolding find seek probe home mix
moved_first = refl

pub moved_second : find moved_table 8192 ≡ some (8256, 64)
unfolding find seek probe home mix
moved_second = refl

pub moved_end : find moved_table 8256 ≡ none
unfolding find seek probe home mix
moved_end = refl

-- the same two entries in two slots
abbrev pub full_slots : List Slot
full_slots =
    record { from_addr = 4096; new_addr = 8192; new_len = 64 }
    ∷ record { from_addr = 8192; new_addr = 8256; new_len = 64 }
    ∷ []

abbrev pub full_table : Table
full_table = record { slots = some full_slots; capacity = 2; size = 2 }

pub full_reach :
    (i : ℕ) → i < 2 → key_at full_slots i ≢ 0 → search_of full_slots (key_at full_slots i) ≡ some i
unfolding probe home mix
full_reach zero h ne = refl
full_reach (suc zero) h ne = refl
full_reach (suc (suc i)) h ne = absurd (omega arith)

pub full_counted : 2 ≡ occupied full_slots
unfolding occupied
full_counted = refl

abbrev pub full_IsTable : IsTable full_table
full_IsTable = record {
  exponent = 1;
  array = full_slots;
  slots = refl;
  capacity = refl;
  counted = full_counted;
  valid = record { width = refl; small = omega arith; reach = full_reach };
}
