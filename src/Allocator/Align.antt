-- ===== src/Allocator/Align.antt =====
-- `align_up_repr` rounds an offset up to the alignment of the length, and what the loop reserves.
use native.Mathlib.Nat.{one-le-pow, pow-le-pow_right, div-add-mod', mod-lt, mul-div_cancel}
use stopless_java_gc.Base.{
  ℕ, ◌+◌, ◌-◌, ◌*◌, ◌/◌, ◌^◌, ◌≤◌, ◌<◌, ◌≡◌, ap, ◌∙◌, bit_and, none, some, arith, word, add64,
  not64,
}
use stopless_java_gc.Base.Bits.{bit_and-high_ones}
use stopless_java_gc.Cheri.{Cheri, Documented}
use stopless_java_gc.Allocator.{align_up_repr, reserve}

module _ {Cap : Type 0} ⦃ch : Cheri Cap⦄ (doc : Documented ch) (rounded : ℕ) where
  -- the alignment, in bytes, of an object of this length
  abbrev pub unit : ℕ
  unit = 2 ^ doc.alignment rounded

  pub unit_pos : 0 < unit
  unit_pos = one-le-pow (doc.alignment rounded) 2 (omega arith)

  unit_le : unit ≤ 2 ^ 63
  unit_le = pow-le-pow_right (omega arith) (doc.alignment_le rounded)

  -- `align_up_repr` in arithmetic, where the sum does not wrap
  round_up :
      (off : ℕ)
      → off + unit ≤ word
      → align_up_repr ch off rounded ≡ (off + (unit - 1)) / unit * unit
  unfolding align_up_repr
  round_up off h =
      let p = unit_pos in
      let q = unit_le in
      let mask : not64 (ch.alignment_mask rounded) ≡ unit - 1 =
        ap not64 (doc.alignment_mask_lem rounded) ∙ omega arith in
      let plain : add64 off (unit - 1) ≡ off + (unit - 1) = omega arith in
      let high : not64 (unit - 1) ≡ word - unit = omega arith in
      rw (mask, plain, high)
        (bit_and-high_ones (doc.alignment rounded) (off + (unit - 1))
          (let e = doc.alignment_le rounded in omega arith) (omega arith))

  pub align_up_bounds :
      (off : ℕ)
      → off + unit ≤ word
      → (off ≤ align_up_repr ch off rounded) × (align_up_repr ch off rounded < off + unit)
  align_up_bounds off h =
      let p = unit_pos in
      rw (round_up off h) (
        omega (arith, div-add-mod' (off + (unit - 1)) unit, mod-lt (off + (unit - 1)) p),
        omega (arith, div-add-mod' (off + (unit - 1)) unit),
      )

  -- a multiple of the alignment satisfies the mask
  pub multiple_aligned :
      (q : ℕ) → q * unit < word → bit_and (q * unit) (ch.alignment_mask rounded) ≡ q * unit
  multiple_aligned q h = rw (doc.alignment_mask_lem rounded) (
      bit_and-high_ones (doc.alignment rounded) (q * unit)
        (let e = doc.alignment_le rounded in omega arith) h
      ∙ ap (λ (t : ℕ). t * unit) (mul-div_cancel q unit_pos))

  -- A request that keeps the loop's sums below 2 ^ 64.
  abbrev pub Reasonable : ℕ → Type 0
  Reasonable size = size + unit + rounded ≤ word

  -- What the loop reserves: an aligned range from the cursor on, inside the arena; the new cursor is
  -- its end. If it reserves nothing, the range does not fit.
  pub reserve_lem :
      (size cur al new : ℕ)
      → Reasonable size
      → cur ≤ size
      → reserve ch size rounded cur ≡ some (al, new)
      → (cur ≤ al) × (al ≡ align_up_repr ch cur rounded) × (new ≡ al + rounded) × (new ≤ size)
  unfolding reserve
  reserve_lem size cur al new h lt e =
      let (low, high) = align_up_bounds cur (omega arith) in ground arith

  pub reserve_full :
      (size cur : ℕ)
      → Reasonable size
      → cur ≤ size
      → reserve ch size rounded cur ≡ none
      → size < align_up_repr ch cur rounded + rounded
  unfolding reserve
  reserve_full size cur h lt e = let (low, high) = align_up_bounds cur (omega arith) in ground arith

  pub align_up_aligned :
      (off : ℕ) → off + unit ≤ word → (q : ℕ) × (align_up_repr ch off rounded ≡ q * unit)
  align_up_aligned off h = ((off + (unit - 1)) / unit, round_up off h)
