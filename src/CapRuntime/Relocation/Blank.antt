-- ===== src/CapRuntime/Relocation/Blank.antt =====
-- The C++ forwarding table as constructed and as `clear_region` leaves it, and its number of slots.
use native.Mathlib.Nat.{pow-suc}
use stopless_java_gc.Base.{
  ℕ, zero, suc, ◌+◌, ◌*◌, ◌/◌, ◌^◌, ◌≤◌, ◌<◌, ◌≡◌, refl, ap, ◌∙◌, ◌⊎◌, inl, inr, List, [], ◌∷◌,
  arith, Option-cases, length, length-replicate, get_or-replicate, dec_lt, ltb, mul64,
  if◌then◌else◌,
}
use stopless_java_gc.CapRuntime.Relocation.{
  Slot, Table, key_at, empty_slot, seek, double_to, slots_for, make_table, lookup, clear_all,
  clear_region,
}
use stopless_java_gc.CapRuntime.Relocation.Seek.{IsValid}

-- The loop from a power of two on ends at the first that is at least the target.
double_to_lem :
    (target fuel j : ℕ)
    → target ≤ 2 ^ 58
    → 2 ^ j ≤ 2 * target
    → target ≤ 2 ^ (j + fuel)
    → (k : ℕ) × (double_to target fuel (2 ^ j) ≡ 2 ^ k) × (target ≤ 2 ^ k) × (2 ^ k ≤ 2 * target)
unfolding double_to
double_to_lem target zero j small low enough =
    let plain : j + 0 ≡ j = omega arith in (j, refl, rw plain at enough, low)
double_to_lem target (suc fuel) j small low enough = elim (dec_lt (2 ^ j) target) [
  | no ge ↦ (j, ground arith, omega arith, low)
  | yes lt ↦
      let twice : mul64 (2 ^ j) 2 ≡ 2 ^ suc j = omega (arith, pow-suc 2 j) in
      let same : j + suc fuel ≡ suc j + fuel = omega arith in
      let (k, e, above, below) =
        double_to_lem target fuel (suc j) small (omega (arith, pow-suc 2 j)) (rw same at enough) in
      (k, rw twice (ground (arith, e)), above, below)
]

-- For a heap of any size the constructor's loop ends within the 64 doublings that a word has, at a
-- power of two: at least 64 slots, at least one for each 64 bytes, and at most twice as many as that.
pub slots_for_lem :
    (heap_bytes : ℕ)
    → heap_bytes < 2 ^ 64
    → (k : ℕ) × (slots_for heap_bytes ≡ 2 ^ k)
      × (64 ≤ slots_for heap_bytes)
      × (heap_bytes / 64 ≤ slots_for heap_bytes)
      × ((slots_for heap_bytes ≤ 128) ⊎ (slots_for heap_bytes ≤ 2 * (heap_bytes / 64)))
unfolding slots_for
slots_for_lem heap_bytes fits =
    let target = if ltb (heap_bytes / 64) 64 then 64 else heap_bytes / 64 in
    let least : 64 ≤ target = ground arith in
    let covers : heap_bytes / 64 ≤ target = ground arith in
    let small : target ≤ 2 ^ 58 = ground arith in
    let exact : (target ≡ 64) ⊎ (target ≡ heap_bytes / 64) = ground arith in
    let (k, e, above, below) =
      double_to_lem target 64 0 small (omega (arith, least)) (omega (arith, small)) in
    (
      k,
      e,
      omega (arith, e, above, least),
      omega (arith, e, above, covers),
      elim exact [
        | inl q ↦ inl (omega (arith, e, below, q))
        | inr q ↦ inr (omega (arith, e, below, q))
      ],
    )

-- A table of enough slots in which no slot has an address.
pub record IsBlank {ℓ} {C : Type ℓ} (null : C) (t : Table C) : Type 0 where
  pub exponent : ℕ
  pub width : length t.slots ≡ t.slots_count
  pub two : t.slots_count ≡ 2 ^ exponent
  pub small : t.slots_count ≤ 2 ^ 62
  pub free : (i : ℕ) → key_at null t.slots i ≡ 0

key_at-clear_all {ℓ} :
    {C : Type ℓ} (null : C) (s : List (Slot C)) (i : ℕ) → key_at null (clear_all s) i ≡ 0
unfolding clear_all
key_at-clear_all null [] i = refl
key_at-clear_all null (x ∷ s) zero = refl
key_at-clear_all null (x ∷ s) (suc i) = key_at-clear_all null s i

length-clear_all {ℓ} : {C : Type ℓ} (s : List (Slot C)) → length (clear_all s) ≡ length s
unfolding clear_all
length-clear_all [] = refl
length-clear_all (x ∷ s) = ap suc (length-clear_all s)

module _ {ℓ} {C : Type ℓ} {null : C} where
  pub blank-IsValid : {t : Table C} → IsBlank null t → IsValid null t
  blank-IsValid b = record {
    exponent = b.exponent;
    width = b.width;
    two = b.two;
    small = b.small;
    reach = λ i lt ne. absurd (ne (b.free i));
  }

  lookup_blank : {t : Table C} → IsBlank null t → (addr : C → ℕ) (c : C) → lookup null addr t c ≡ c
  unfolding lookup
  lookup_blank {t} b addr c = elim (Option-cases (seek null t (addr c))) [
    | inl e ↦ ground (arith, e)
    | inr (p, e) ↦ ground (arith, e, b.free p)
  ]

  pub clear-IsBlank : {t : Table C} → IsValid null t → IsBlank null (clear_region t)
  unfolding clear_region
  clear-IsBlank {t} v = record {
    exponent = v.exponent;
    width = length-clear_all t.slots ∙ v.width;
    two = v.two;
    small = v.small;
    free = key_at-clear_all null t.slots;
  }

  pub make-IsBlank :
      (heap_bytes : ℕ) → heap_bytes < 2 ^ 64 → IsBlank null (make_table null heap_bytes)
  unfolding make_table
  make-IsBlank heap_bytes fits =
      let n = slots_for heap_bytes in
      let (k, e, least, covers, most) = slots_for_lem heap_bytes fits in
      record {
        exponent = k;
        width = length-replicate n (empty_slot null);
        two = e;
        small = elim most [ inl le ↦ omega (arith, le) | inr le ↦ omega (arith, le) ];
        free = λ i. ap (λ (s : Slot C). s.from_addr) (get_or-replicate n i (empty_slot null));
      }

  -- In a table as constructed, for a heap of any size, and in one that `clear_region` has left, the
  -- invariant holds and `lookup` gives every capability back.
  pub lookup-make :
      (heap_bytes : ℕ)
      → heap_bytes < 2 ^ 64
      → IsValid null (make_table null heap_bytes)
        × ((addr : C → ℕ) (c : C) → lookup null addr (make_table null heap_bytes) c ≡ c)
  lookup-make heap_bytes fits =
      let b = make-IsBlank heap_bytes fits in (blank-IsValid b, lookup_blank b)

  pub lookup-clear_region :
      {t : Table C}
      → IsValid null t
      → IsValid null (clear_region t)
        × ((addr : C → ℕ) (c : C) → lookup null addr (clear_region t) c ≡ c)
  lookup-clear_region v = let b = clear-IsBlank v in (blank-IsValid b, lookup_blank b)
