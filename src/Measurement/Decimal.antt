-- ===== src/Measurement/Decimal.antt =====
-- The decimal digits of a number, and the number that they show.
use stopless_java_gc.Base.{
  ℕ, zero, suc, ◌+◌, ◌-◌, ◌*◌, ◌/◌, ◌%◌, ◌^◌, ◌≤◌, ◌<◌, ◌≡◌, refl, ◌∙◌, Bool, true, false, ◌&&◌,
  List, [], ◌∷◌, ◌++◌, ltb, leb, if◌then◌else◌, arith, dec_lt, lt→ltb,
}
use native.Mathlib.Nat.{pow-suc}
use stopless_java_gc.Measurement.{decimal}

is_digit : ℕ → Bool
is_digit c = leb 48 c && leb c 57

-- The number at the front of a text, after digits that make `acc`, and what follows.
unfoldable pub read_number : List ℕ → ℕ → ℕ × List ℕ
unfolding is_digit
read_number [] acc = (acc, [])
read_number (c ∷ s) acc =
    let rest = read_number s (acc * 10 + (c - 48)) in if is_digit c then rest else (acc, c ∷ s)

-- What `digits` come to, after those that make `acc`.
pub value : List ℕ → ℕ → ℕ
value [] acc = acc
value (c ∷ s) acc = value s (acc * 10 + (c - 48))

pub AllDigits : List ℕ → Type 0
AllDigits [] = Unit
AllDigits (c ∷ s) = (48 ≤ c) × (c ≤ 57) × AllDigits s

pub read_number-digits :
    (ds rest : List ℕ) (acc : ℕ)
    → AllDigits ds
    → read_number (ds ++ rest) acc ≡ read_number rest (value ds acc)
unfolding read_number value AllDigits
read_number-digits [] rest acc h = refl
read_number-digits (c ∷ ds) rest acc h =
    let digit : is_digit c ≡ true = ground arith in
    rw digit (read_number-digits ds rest (acc * 10 + (c - 48)) h.2)

value-append : (ds : List ℕ) (c acc : ℕ) → value (ds ++ (c ∷ [])) acc ≡ value ds acc * 10 + (c - 48)
unfolding value
value-append [] c acc = refl
value-append (d ∷ ds) c acc = value-append ds c (acc * 10 + (d - 48))

AllDigits-append :
    (ds : List ℕ) (c : ℕ) → AllDigits ds → 48 ≤ c → c ≤ 57 → AllDigits (ds ++ (c ∷ []))
unfolding AllDigits
AllDigits-append [] c h low high = (low, high, tt)
AllDigits-append (d ∷ ds) c h low high = (h.0, h.1, AllDigits-append ds c h.2 low high)

-- So many digits show a number below that power of ten.
pub decimal_lem :
    (fuel n : ℕ) → n < 10 ^ fuel → AllDigits (decimal fuel n) × (value (decimal fuel n) 0 ≡ n)
unfolding decimal AllDigits value
decimal_lem zero n h = (tt, omega arith)
decimal_lem (suc fuel) n h = elim (dec_lt n 10) [
  | yes small ↦ rw (lt→ltb n 10 small) ((omega arith, omega arith, tt), omega arith)
  | no large ↦
      let (digits, shows) = decimal_lem fuel (n / 10) (omega (arith, pow-suc 10 fuel)) in
      let e : ltb n 10 ≡ false = ground arith in
      rw e (
        AllDigits-append (decimal fuel (n / 10)) (48 + n % 10) digits (omega arith) (omega arith),
        value-append (decimal fuel (n / 10)) (48 + n % 10) 0 ∙ omega (arith, shows),
      )
]
