-- ===== src/Base/Bits.antt =====
-- `&` with a mask of low ones is a remainder; with a mask of high ones it rounds down.
use Prim.Native.Nat.{
  ℕ, zero, suc, ◌+◌, ◌-◌, ◌*◌, ◌/◌, ◌%◌, ◌^◌, ◌≤◌, ◌<◌, min, bit_and, digits, bit_and-bitwise,
}
use mathlib.Core.Path.{◌≡◌, refl, sym, ap, ◌∙◌}
use native.Mathlib.Nat.{pow-suc, one-le-pow, mod-eq_of_lt, div-div-eq-div-mul}
use native.Mathlib.Omega.{arith}

-- The digit loop behind `&`, which fuel past the number does not change.
abbrev low_digits : ℕ → ℕ → ℕ → ℕ
low_digits = digits (λ b. zero) min

low_digits_settled : (m : ℕ) (n a b : ℕ) → a ≤ m → a ≤ n → low_digits m a b ≡ low_digits n a b
low_digits_settled zero zero a b p q = refl
low_digits_settled zero (suc n) zero b p q = refl
low_digits_settled zero (suc n) (suc a) b p q = elim p [ ]
low_digits_settled (suc m) zero zero b p q = refl
low_digits_settled (suc m) zero (suc a) b p q = elim q [ ]
low_digits_settled (suc m) (suc n) zero b p q = refl
low_digits_settled (suc m) (suc n) (suc a) b p q =
    let halved = low_digits_settled m n (suc a / 2) (b / 2) (omega arith) (omega arith) in
    omega (arith, halved)

-- `&` digit by digit.
pub bit_and-digit : (a b : ℕ) → bit_and a b ≡ 2 * bit_and (a / 2) (b / 2) + min (a % 2) (b % 2)
bit_and-digit zero b =
    let whole : bit_and 0 b ≡ 0 = bit_and-bitwise 0 b in
    let half : bit_and 0 (b / 2) ≡ 0 = bit_and-bitwise 0 (b / 2) in omega arith
bit_and-digit (suc a) b =
    let half = suc a / 2 in
    let settled = low_digits_settled a half half (b / 2) (omega arith) (omega arith) in
    omega (arith, bit_and-bitwise (suc a) b, bit_and-bitwise half (b / 2), settled)

bit_and-nothing : (n a : ℕ) → a ≤ n → bit_and a 0 ≡ 0
bit_and-nothing n zero h = refl
bit_and-nothing zero (suc a) h = elim h [ ]
bit_and-nothing (suc n) (suc a) h =
    omega (arith, bit_and-digit (suc a) 0, bit_and-nothing n (suc a / 2) (omega arith))

two_pow_suc : (k q : ℕ) → q * 2 ^ suc k ≡ 2 * (q * 2 ^ k)
two_pow_suc k q = omega (arith, ap (λ (t : ℕ). q * t) (pow-suc 2 k))

low_ones : (k q r : ℕ) → r < 2 ^ k → bit_and (q * 2 ^ k + r) (2 ^ k - 1) ≡ r
low_ones zero q r h = omega (arith, bit_and-nothing (q * 2 ^ 0 + r) (q * 2 ^ 0 + r) (omega arith))
low_ones (suc k) q r h = ground (
  arith,
  bit_and-digit (q * 2 ^ suc k + r) (2 ^ suc k - 1),
  two_pow_suc k q,
  pow-suc 2 k,
  one-le-pow k 2,
  low_ones k q (r / 2) (omega (arith, pow-suc 2 k)),
)

-- `a & (2 ^ k - 1)` is the remainder by `2 ^ k`.
pub bit_and-low_ones : (k a : ℕ) → bit_and a (2 ^ k - 1) ≡ a % 2 ^ k
bit_and-low_ones k a = ground (arith, one-le-pow k 2, low_ones k (a / 2 ^ k) (a % 2 ^ k))

pow-add : (j k : ℕ) → 2 ^ (j + k) ≡ 2 ^ j * 2 ^ k
pow-add zero k = let e : 0 + k ≡ k = omega arith in rw e (omega arith)
pow-add (suc j) k =
    let e : suc j + k ≡ suc (j + k) = omega arith in
    rw e (omega (arith, pow-suc 2 (j + k), pow-suc 2 j, pow-add j k, two_pow_suc_left j k))
  where
    two_pow_suc_left : (j k : ℕ) → 2 ^ suc j * 2 ^ k ≡ 2 * (2 ^ j * 2 ^ k)
    two_pow_suc_left j k = omega (arith, ap (λ (t : ℕ). t * 2 ^ k) (pow-suc 2 j))

high_ones : (k j a : ℕ) → a < 2 ^ j * 2 ^ k → bit_and a ((2 ^ j - 1) * 2 ^ k) ≡ a / 2 ^ k * 2 ^ k
high_ones zero j a h =
    let mask : (2 ^ j - 1) * 2 ^ 0 ≡ 2 ^ j - 1 = omega arith in
    let fits : a < 2 ^ j = omega arith in
    rw (mask, bit_and-low_ones j a, mod-eq_of_lt fits) (omega arith)
high_ones (suc k) j a h =
    let m = 2 ^ j - 1 in
    let doubled : m * 2 ^ suc k ≡ 2 * (m * 2 ^ k) = two_pow_suc k m in
    let fits : a / 2 < 2 ^ j * 2 ^ k = omega (arith, two_pow_suc k (2 ^ j)) in
    let halves : a / 2 ^ suc k ≡ a / 2 / 2 ^ k =
      ap (λ (t : ℕ). a / t) (pow-suc' k) ∙ sym (div-div-eq-div-mul a 2 (2 ^ k)) in
    rw (doubled, halves)
      (omega (
        arith,
        bit_and-digit a (2 * (m * 2 ^ k)),
        high_half m k,
        ap (bit_and (a / 2)) (high_half m k),
        high_ones k j (a / 2) fits,
        two_pow_suc k (a / 2 / 2 ^ k),
      ))
  where
    pow-suc' : (k : ℕ) → 2 ^ suc k ≡ 2 * 2 ^ k
    pow-suc' k = omega (arith, pow-suc 2 k)

    high_half : (m k : ℕ) → 2 * (m * 2 ^ k) / 2 ≡ m * 2 ^ k
    high_half m k = omega arith

pred_mul : (x y : ℕ) → (x - 1) * y ≡ x * y - y
pred_mul zero y = omega arith
pred_mul (suc x) y =
    let e : suc x - 1 ≡ x = omega arith in
    rw e (let f : suc x * y ≡ x * y + y = omega arith in rw f (omega arith))

-- `a & (2 ^ 64 - 2 ^ k)` rounds a 64-bit word down to a multiple of `2 ^ k`.
pub bit_and-high_ones :
    (k a : ℕ) → k ≤ 64 → a < 2 ^ 64 → bit_and a (2 ^ 64 - 2 ^ k) ≡ a / 2 ^ k * 2 ^ k
bit_and-high_ones k a small fits =
    let split : 64 - k + k ≡ 64 = omega arith in
    let whole : 2 ^ (64 - k) * 2 ^ k ≡ 2 ^ 64 =
      sym (pow-add (64 - k) k) ∙ ap (λ (t : ℕ). 2 ^ t) split in
    let mask : (2 ^ (64 - k) - 1) * 2 ^ k ≡ 2 ^ 64 - 2 ^ k =
      pred_mul (2 ^ (64 - k)) (2 ^ k) ∙ ap (λ (t : ℕ). t - 2 ^ k) whole in
    rw (← mask) (high_ones k (64 - k) a (rw whole fits))
