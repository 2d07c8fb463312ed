-- ===== src/CapRuntime/SideTable/Colors.antt =====
-- The bytes of the side table are values of `stopless_color_t`.
use stopless_java_gc.Base.{
  ℕ, zero, suc, ◌/◌, ◌%◌, ◌^◌, ◌≤◌, ◌≡◌, subst, sym, ◌∙◌, inl, inr, List, [], ◌∷◌, get_or, set,
  get_or-replicate, arith, Option-cases,
}
use stopless_java_gc.CapRuntime.SideTable.{
  SideTable, color_good, color_finalizable, make_side_table, index_of, load_color, store_color,
  flip_all, flip_region,
}
use stopless_java_gc.CapRuntime.SideTable.Bytes.{load_out, load_in, store_out, store_in, flip_lem}

-- no byte is greater than the last colour
abbrev IsBounded : List ℕ → Type 0
IsBounded bs = (i : ℕ) → get_or bs i 0 ≤ color_finalizable

set-IsBounded :
    (bs : List ℕ) (k c : ℕ) → c ≤ color_finalizable → IsBounded bs → IsBounded (set bs k c)
set-IsBounded [] k c le b i = b i
set-IsBounded (x ∷ bs) zero c le b zero = le
set-IsBounded (x ∷ bs) zero c le b (suc i) = b (suc i)
set-IsBounded (x ∷ bs) (suc k) c le b zero = b 0
set-IsBounded (x ∷ bs) (suc k) c le b (suc i) = set-IsBounded bs k c le (λ j. b (suc j)) i

flip_all-IsBounded :
    (from to : ℕ) (bs : List ℕ)
    → to ≤ color_finalizable
    → IsBounded bs
    → IsBounded (flip_all from to bs)
unfolding flip_all
flip_all-IsBounded from to [] le b i = b i
flip_all-IsBounded from to (x ∷ bs) le b zero = let h = b 0 in ground arith
flip_all-IsBounded from to (x ∷ bs) le b (suc i) =
    flip_all-IsBounded from to bs le (λ j. b (suc j)) i

pub record IsColored (t : SideTable) : Type 0 where
  pub bytes : IsBounded t.table

pub make-IsColored : (heap_bytes : ℕ) → IsColored (make_side_table heap_bytes)
unfolding make_side_table
make-IsColored heap_bytes = record {
  bytes =
      λ i. subst (λ (b : ℕ). b ≤ 4) (sym (get_or-replicate (heap_bytes / 2 ^ 3) i 0)) (omega arith);
}

pub store-IsColored :
    {t : SideTable} (addr color : ℕ)
    → color ≤ color_finalizable
    → IsColored t
    → IsColored (store_color t addr color)
store-IsColored {t} addr color le b = elim (Option-cases (index_of t addr)) [
  | inl out ↦ subst (λ s. IsColored s) (sym (store_out t addr color out)) b
  | inr (i, at_i) ↦
      subst (λ s. IsColored s) (sym (store_in t addr color i at_i))
        (record { bytes = set-IsBounded t.table i (color % 2 ^ 8) (omega (arith, le)) b.bytes })
]

pub flip-IsColored :
    {t : SideTable} (from to : ℕ)
    → to ≤ color_finalizable
    → IsColored t
    → IsColored (flip_region t from to)
flip-IsColored {t} from to le b =
    subst (λ s. IsColored s) (sym (flip_lem t from to))
      (record {
        bytes = flip_all-IsBounded (from % 2 ^ 8) (to % 2 ^ 8) t.table (omega (arith, le)) b.bytes;
      })

pub load_color-le : {t : SideTable} (addr : ℕ) → IsColored t → load_color t addr ≤ color_finalizable
load_color-le {t} addr b = elim (Option-cases (index_of t addr)) [
  | inl out ↦ subst (λ (c : ℕ). c ≤ color_finalizable) (sym (load_out t addr out)) (omega arith)
  | inr (i, at_i) ↦
      subst (λ (c : ℕ). c ≤ color_finalizable) (sym (load_in t addr i at_i)) (b.bytes i)
]

-- A table as constructed gives STOPLESS_COLOR_GOOD at every address.
pub load-make : (heap_bytes addr : ℕ) → load_color (make_side_table heap_bytes) addr ≡ color_good
unfolding load_color make_side_table
load-make heap_bytes addr = elim (Option-cases (index_of (make_side_table heap_bytes) addr)) [
  | inl out ↦ load_out (make_side_table heap_bytes) addr out
  | inr (i, at_i) ↦
      load_in (make_side_table heap_bytes) addr i at_i ∙ get_or-replicate (heap_bytes / 2 ^ 3) i 0
]
