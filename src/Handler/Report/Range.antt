-- ===== src/Handler/Report/Range.antt =====
-- The loop over STOPLESS_DUMP_RANGE.
use stopless_java_gc.Base.{
  ℕ, zero, suc, ◌+◌, ◌-◌, ◌*◌, ◌%◌, ◌^◌, ◌≤◌, ◌<◌, ◌≡◌, true, ◌&&◌, none, some, List, [], ◌∷◌, leb,
  ltb, if◌then◌else◌, add64, sub64, word, length, arith, dec_lt, Bool-cases, inl, inr,
}
use stopless_java_gc.Handler.Report.{Memory, Line, line, range_lines, range_dump}
use stopless_java_gc.Cheri.{Cheri}

module _ {A : Type 0} (f : ℕ → A) where
  -- A range that ends no less than four bytes below the end of the address space takes as many rounds
  -- as it has words.
  range_ends :
      (d_hi fuel a : ℕ)
      → d_hi + 4 ≤ word
      → d_hi ≤ a + 4 * fuel
      → a < word
      → (xs : List A) × (range_lines f d_hi fuel a ≡ some xs)
        × (d_hi - a ≤ 4 * length xs)
        × (4 * length xs ≤ d_hi - a + 3)
  unfolding range_lines
  range_ends d_hi zero a top enough small = ([], ground arith, omega (arith, enough), omega arith)
  range_ends d_hi (suc fuel) a top enough small = elim (dec_lt a d_hi) [
    | no ge ↦ ([], ground arith, omega arith, omega arith)
    | yes lt ↦
        let plain : add64 a 4 ≡ a + 4 = omega arith in
        let (xs, e, covered, short) =
          range_ends d_hi fuel (add64 a 4) top (omega arith) (omega arith) in
        (f a ∷ xs, ground (arith, e), omega (arith, covered, plain), omega (arith, short, plain))
  ]

  -- A range of word addresses that ends in the last word of the address space is never left.
  pub range_endless :
      (d_hi fuel a : ℕ)
      → d_hi < word
      → word < d_hi + 4
      → a < word
      → a % 4 ≡ 0
      → range_lines f d_hi fuel a ≡ none
  unfolding range_lines
  range_endless d_hi zero a top last small even = ground (arith, even)
  range_endless d_hi (suc fuel) a top last small even =
      let rest = range_endless d_hi fuel (add64 a 4) top last (omega arith) (omega (arith, even)) in
      ground (arith, even, rest)

-- The dump of STOPLESS_DUMP_RANGE ends, whatever the range, if the range does not end in the last four
-- bytes of the address space: 2^14 rounds are enough, and there are no more lines than rounds.
pub range_dump_ends :
    {Cap : Type 0} ⦃ch : Cheri Cap⦄ (mem : Memory Cap) (bs : List Cap) (d_lo d_hi : ℕ)
    → d_lo < word
    → d_hi + 4 ≤ word
    → (xs : List (Line ℕ)) × (range_dump (2 ^ 14) mem bs (some (d_lo, d_hi)) ≡ some xs)
      × (length xs ≤ 2 ^ 14)
unfolding range_dump
range_dump_ends mem bs d_lo d_hi lo top =
    elim (Bool-cases (ltb d_lo d_hi && leb (sub64 d_hi d_lo) 0x10000)) [
      | inr skipped ↦ ([], rw (if◌then◌else◌, skipped), omega arith)
      | inl taken ↦
          let width : (d_lo < d_hi) × (d_hi ≤ d_lo + 2 ^ 16) = ground arith in
          let (xs, e, covered, short) =
            range_ends (line mem.word32 bs 4) d_hi (2 ^ 14) d_lo top (omega (arith, width.1)) lo in
          (xs, rw (if◌then◌else◌, taken) e, omega (arith, short, width.1))
    ]

-- A dump of a range from a multiple of four up to the last four bytes of the address space never ends,
-- whatever the number of rounds.
pub range_dump_endless :
    {Cap : Type 0} ⦃ch : Cheri Cap⦄ (mem : Memory Cap) (bs : List Cap) (fuel d_lo d_hi : ℕ)
    → d_lo % 4 ≡ 0
    → d_lo < d_hi
    → d_hi ≤ d_lo + 2 ^ 16
    → d_hi < word
    → word < d_hi + 4
    → range_dump fuel mem bs (some (d_lo, d_hi)) ≡ none
unfolding range_dump
range_dump_endless mem bs fuel d_lo d_hi even up width top last =
    let taken : (ltb d_lo d_hi && leb (sub64 d_hi d_lo) 0x10000) ≡ true =
      ground (arith, up, width, top) in
    let endless =
      range_endless (line mem.word32 bs 4) d_hi fuel d_lo top last (omega (arith, up, top)) even in
    rw (if◌then◌else◌, taken) endless
