-- ===== src/Tests/Calls.antt =====
-- The theorem on the trampolines, with lists for growable arrays.
use stopless_java_gc.Base.{
  ℕ, zero, suc, ◌<◌, ◌+◌, ◌*◌, ◌≡◌, refl, ap, none, some, List, [], ◌∷◌, ◌++◌, length, get_or,
  arith,
}
use stopless_java_gc.Base.Int.{pos}
use stopless_java_gc.Trampoline.{
  GrowableArray, Laws, opened, id_from, trampoline_id_for, trampoline_dispatch,
}
use stopless_java_gc.Trampoline.Stable.{now, after, dispatch-id_for}

abbrev lists : GrowableArray ℕ (List ℕ)
lists = record {
  make = λ n. [];
  length = length;
  at_index = λ g i. get_or g i 0;
  append = λ g x. g ++ (x ∷ []);
  adr_at = λ g i. 4096 + 16 * i;
}

length-snoc : (g : List ℕ) (x : ℕ) → length (g ++ (x ∷ [])) ≡ suc (length g)
length-snoc [] x = refl
length-snoc (y ∷ g) x = ap suc (length-snoc g x)

get_or-snoc : (g : List ℕ) (x i : ℕ) → i < length g → get_or (g ++ (x ∷ [])) i 0 ≡ get_or g i 0
get_or-snoc [] x i lt = elim lt [ ]
get_or-snoc (y ∷ g) x zero lt = refl
get_or-snoc (y ∷ g) x (suc i) lt = get_or-snoc g x i (omega arith)

get_or-snoc_last : (g : List ℕ) (x : ℕ) → get_or (g ++ (x ∷ [])) (length g) 0 ≡ x
get_or-snoc_last [] x = refl
get_or-snoc_last (y ∷ g) x = get_or-snoc_last g x

lists-Laws : Laws lists
lists-Laws = record {
  length-make = λ n. refl;
  length-append = length-snoc;
  at_index-append = get_or-snoc;
  at_index-append_last = get_or-snoc_last;
}

abbrev self : ℕ → ℕ
self x = x

-- 64 is registered first, then 128 and 64 again
dispatch-id_for_example :
    (f : ℕ) × (f ≡ 64)
    × (trampoline_dispatch lists self self (some (64 ∷ 128 ∷ [])) (pos 1) ≡ some f)
    × (trampoline_id_for lists self (some (64 ∷ 128 ∷ [])) 64 ≡ (1, 64 ∷ 128 ∷ []))
unfolding trampoline_id_for opened id_from
dispatch-id_for_example =
    dispatch-id_for lists-Laws self self none 64 {g = 64 ∷ 128 ∷ []} (after 64 (after 128 now))
