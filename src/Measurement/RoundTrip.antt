-- ===== src/Measurement/RoundTrip.antt =====
-- A file of samples reads back.
use stopless_java_gc.Base.{
  ℕ, zero, suc, ◌^◌, ◌<◌, ◌≡◌, refl, sym, ap, ◌∙◌, true, Option, none, some, List, [], ◌∷◌, ◌++◌,
  if◌then◌else◌, length, arith, ◌==◌, eq→==,
}
use mathlib.Core.List.{append_assoc, append-nil}
use stopless_java_gc.Measurement.{PmuSample, codes, llu, json_line, append_pmu_json}
use stopless_java_gc.Measurement.Decimal.{read_number, read_number-digits, decimal_lem}

-- The text after a prefix, if it has that prefix.
expect : List ℕ → List ℕ → Option (List ℕ)
expect [] s = some s
expect (c ∷ p) [] = none
expect (c ∷ p) (d ∷ s) = if c == d then expect p s else none

-- a key and the number after it
read_field : List ℕ → List ℕ → Option (ℕ × List ℕ)
unfolding expect read_number
read_field key s = elim (expect key s) [ none ↦ none | some t ↦ some (read_number t 0) ]

expect-append : (p s : List ℕ) → expect p (p ++ s) ≡ some s
unfolding expect
expect-append [] s = refl
expect-append (c ∷ p) s = rw (eq→== c c refl) (expect-append p s)

-- A number ends before the text.
abbrev EndsBefore : List ℕ → Type 0
EndsBefore s = (acc : ℕ) → read_number s acc ≡ (acc, s)

read_field-llu :
    (key : List ℕ) (n : ℕ) (rest : List ℕ)
    → n < 2 ^ 64
    → EndsBefore rest
    → read_field key (key ++ (llu n ++ rest)) ≡ some (n, rest)
unfolding read_field
read_field-llu key n rest small ends =
    let (digits, shows) = decimal_lem 20 n (omega arith) in
    rw (read_field, expect-append key (llu n ++ rest))
      (ap some (read_number-digits (llu n) rest 0 digits ∙ (ap (read_number rest) shows ∙ ends n)))

-- Four numbers after their keys, and what follows the closing text.
read_fields : (k₁ k₂ k₃ k₄ k₅ : List ℕ) → List ℕ → Option (PmuSample × List ℕ)
read_fields k₁ k₂ k₃ k₄ k₅ s = elim (read_field k₁ s) [
  | none ↦ none
  | some (a, s₁) ↦ elim (read_field k₂ s₁) [
    | none ↦ none
    | some (b, s₂) ↦ elim (read_field k₃ s₂) [
      | none ↦ none
      | some (c, s₃) ↦ elim (read_field k₄ s₃) [
        | none ↦ none
        | some (d, s₄) ↦ elim (expect k₅ s₄) [
          | none ↦ none
          | some rest ↦
              let sample : PmuSample = record {
                cycles = a;
                instructions = b;
                cap_traps = c;
                gc_barrier_slot_cycles = d;
              } in
              some (sample, rest)
        ]
      ]
    ]
  ]
]

-- A line at the front of a text, and what follows.
read_line : List ℕ → Option (PmuSample × List ℕ)
unfolding read_fields
read_line =
    read_fields (codes "{\"cycles\":") (codes ",\"instructions\":") (codes ",\"cap_traps\":")
      (codes ",\"gc_barrier_slot_cycles\":") (codes "}\n")

-- The counters are 64-bit words.
pub record IsSample (s : PmuSample) : Type 0 where
  pub cycles : s.cycles < 2 ^ 64
  pub instructions : s.instructions < 2 ^ 64
  pub cap_traps : s.cap_traps < 2 ^ 64
  pub gc_barrier_slot_cycles : s.gc_barrier_slot_cycles < 2 ^ 64

module _ (k₁ k₂ k₃ k₄ k₅ : List ℕ) (e₂ : (s : List ℕ) → EndsBefore (k₂ ++ s))
    (e₃ : (s : List ℕ) → EndsBefore (k₃ ++ s)) (e₄ : (s : List ℕ) → EndsBefore (k₄ ++ s))
    (e₅ : (s : List ℕ) → EndsBefore (k₅ ++ s)) where
  read_fields_lem :
      (s : PmuSample) (rest : List ℕ)
      → IsSample s
      → read_fields k₁ k₂ k₃ k₄ k₅ (
          k₁
          ++ (llu s.cycles
              ++ (k₂
                  ++ (llu s.instructions
                      ++ (k₃
                          ++ (llu s.cap_traps
                              ++ (k₄ ++ (llu s.gc_barrier_slot_cycles ++ (k₅ ++ rest)))))))))
        ≡ some (s, rest)
  unfolding read_fields
  read_fields_lem s rest h =
      let t₄ = k₅ ++ rest in
      let t₃ = k₄ ++ (llu s.gc_barrier_slot_cycles ++ t₄) in
      let t₂ = k₃ ++ (llu s.cap_traps ++ t₃) in
      let t₁ = k₂ ++ (llu s.instructions ++ t₂) in
      let r₁ = read_field-llu k₁ s.cycles t₁ h.cycles (e₂ _) in
      let r₂ = read_field-llu k₂ s.instructions t₂ h.instructions (e₃ _) in
      let r₃ = read_field-llu k₃ s.cap_traps t₃ h.cap_traps (e₄ _) in
      let r₄ = read_field-llu k₄ s.gc_barrier_slot_cycles t₄ h.gc_barrier_slot_cycles (e₅ _) in
      rw (read_fields, r₁, r₂, r₃, r₄, expect-append k₅ rest) refl

read_line-json_line :
    (s : PmuSample) (rest : List ℕ) → IsSample s → read_line (json_line s ++ rest) ≡ some (s, rest)
unfolding read_line json_line read_number
read_line-json_line s rest h =
    let known =
      read_fields_lem (codes "{\"cycles\":") (codes ",\"instructions\":") (codes ",\"cap_traps\":")
        (codes ",\"gc_barrier_slot_cycles\":") (codes "}\n") (λ t acc. refl) (λ t acc. refl)
        (λ t acc. refl) (λ t acc. refl) s rest h in
    simp append_assoc known

-- So many lines of a file.
pub read_lines : ℕ → List ℕ → Option (List PmuSample)
read_lines zero file = some []
read_lines (suc n) file = elim (read_line file) [
  | none ↦ none
  | some (s, rest) ↦ elim (read_lines n rest) [ none ↦ none | some ss ↦ some (s ∷ ss) ]
]

-- The file after calls of `append_pmu_json` that could open it, from the first on.
pub appended : List PmuSample → List ℕ → List ℕ
unfolding append_pmu_json
appended [] file = file
appended (s ∷ ss) file = appended ss (append_pmu_json true file s)

abbrev pub AllSamples : List PmuSample → Type 0
AllSamples [] = Unit
AllSamples (s ∷ ss) = IsSample s × AllSamples ss

-- the lines of samples
lines_of : List PmuSample → List ℕ
lines_of [] = []
lines_of (s ∷ ss) = json_line s ++ lines_of ss

appended_lem : (ss : List PmuSample) (file : List ℕ) → appended ss file ≡ file ++ lines_of ss
unfolding appended lines_of append_pmu_json
appended_lem [] file = sym (append-nil file)
appended_lem (s ∷ ss) file =
    appended_lem ss (file ++ json_line s) ∙ append_assoc file (json_line s) (lines_of ss)

read_lines-lines_of :
    (ss : List PmuSample) → AllSamples ss → read_lines (length ss) (lines_of ss) ≡ some ss
unfolding read_lines lines_of
read_lines-lines_of [] h = refl
read_lines-lines_of (s ∷ ss) h =
    rw (read_lines, read_line-json_line s (lines_of ss) h.0, read_lines-lines_of ss h.1)

-- Whatever samples of 64-bit counters are appended to an empty file by `append_pmu_json`, one after the
-- other: reading as many lines as there were calls gives back the samples in their order.
pub read_lines-appended :
    (ss : List PmuSample) → AllSamples ss → read_lines (length ss) (appended ss []) ≡ some ss
read_lines-appended ss h =
    ap (read_lines (length ss)) (appended_lem ss []) ∙ read_lines-lines_of ss h
