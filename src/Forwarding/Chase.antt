-- ===== src/Forwarding/Chase.antt =====
-- The transitive chase of `forward_table_lookup`: it returns the end of the chain, and ends.
use stopless_java_gc.Base.{
  ℕ, zero, suc, ◌+◌, ◌≤◌, ◌<◌, ◌≡◌, ◌≢◌, sym, ◌∙◌, subst, inl, inr, none, some, List, [], ◌∷◌, leb,
  if◌then◌else◌, arith, Option-cases, length, ne→==, ℕ_discrete, some_inj,
}
use stopless_java_gc.ForwardTable.{Slot, Table, find, key_at}
use stopless_java_gc.ForwardTable.Slots.{occurs?}
use stopless_java_gc.ForwardTable.State.{IsTable, occupied, find_absent}
use stopless_java_gc.Forwarding.{chase}

-- From address `na` the chain makes `n` hops and ends at `za`, which is mapped no further or to
-- itself; `nl` and `zl` are the lengths that came with the two addresses.
pub data Leads (g : Table) : ℕ → ℕ → ℕ → ℕ → ℕ → Type 0 where
  last : {na nl : ℕ} → find g na ≡ none → Leads g zero na nl na nl
  itself : {na nl l : ℕ} → find g na ≡ some (na, l) → Leads g zero na nl na nl
  hop :
      {n na nl nna nnl za zl : ℕ}
      → find g na ≡ some (nna, nnl)
      → nna ≢ na
      → Leads g n nna nnl za zl
      → Leads g (suc n) na nl za zl

module _ (g : Table) where
  -- The chase of a chain with fewer hops than rounds returns its end.
  pub chase_of_Leads :
      (rounds : ℕ) {n na nl za zl : ℕ}
      → Leads g n na nl za zl
      → n < rounds
      → chase g rounds na nl ≡ some (za, zl)
  unfolding chase
  chase_of_Leads zero c lt = elim lt [ ]
  chase_of_Leads (suc rounds) (last e) lt = ground arith
  chase_of_Leads (suc rounds) (itself e) lt = ground arith
  chase_of_Leads (suc rounds) (hop {na} {nna} e ne c) lt =
      ground (arith, e, ne→== nna na ne, chase_of_Leads rounds c)

  -- What the chase returns is the end of the chain, reached in fewer hops than rounds.
  pub Leads-of_chase :
      (rounds na nl za zl : ℕ)
      → chase g rounds na nl ≡ some (za, zl)
      → (n : ℕ) × (n < rounds) × Leads g n na nl za zl
  unfolding chase
  Leads-of_chase zero na nl za zl e = cc
  Leads-of_chase (suc rounds) na nl za zl e = elim (Option-cases (find g na)) [
    | inl out ↦
        let both : (na ≡ za) × (nl ≡ zl) = ground (arith, out, e) in
        (
          0,
          omega arith,
          subst (λ a. Leads g 0 na nl a zl) both.0
              (subst (λ l. Leads g 0 na nl na l) both.1 (last out)),
        )
    | inr ((nna, nnl), found) ↦ elim (ℕ_discrete nna na) [
      | yes q ↦
          let both : (na ≡ za) × (nl ≡ zl) = ground (arith, found, e) in
          (
            0,
            omega arith,
            subst (λ a. Leads g 0 na nl a zl) both.0
                (subst (λ l. Leads g 0 na nl na l) both.1
                  (itself (subst (λ a. find g na ≡ some (a, nnl)) q found))),
          )
      | no ne ↦
          let (n, lt, c) =
            Leads-of_chase rounds nna nnl za zl (ground (arith, found, e, ne→== nna na ne)) in
          (suc n, omega arith, hop found ne c)
    ]
  ]

-- A chain has one end.
pub Leads_unique :
    {g : Table} {n m na nl za zl zb yl : ℕ}
    → Leads g n na nl za zl
    → Leads g m na nl zb yl
    → ◌≡◌ {A = ℕ × ℕ} (za, zl) (zb, yl)
Leads_unique {g} {n} {m} c d = some_inj (
    sym (chase_of_Leads g (n + m + 1) c (omega arith))
    ∙ chase_of_Leads g (n + m + 1) d (omega arith))

-- the slots with a key from `a` on
above : ℕ → List Slot → ℕ
above a [] = 0
above a (s ∷ t) = (if leb a s.from_addr then 1 else 0) + above a t

above_mono : (a b : ℕ) (t : List Slot) → a ≤ b → above b t ≤ above a t
unfolding above
above_mono a b [] h = omega arith
above_mono a b (s ∷ t) h = ground (arith, above_mono a b t h)

above_lt :
    (a b i : ℕ) (t : List Slot) → i < length t → key_at t i ≡ a → a < b → above b t < above a t
unfolding above
above_lt a b i [] li e h = elim li [ ]
above_lt a b zero (s ∷ t) li e h = ground (arith, above_mono a b t (omega arith))
above_lt a b (suc i) (s ∷ t) li e h = ground (arith, above_lt a b i t (omega arith) e h)

above-le-occupied : (a : ℕ) (t : List Slot) → 0 < a → above a t ≤ occupied t
unfolding above occupied
above-le-occupied a [] h = omega arith
above-le-occupied a (s ∷ t) h = ground (arith, above-le-occupied a t h)

-- Every object that moved went to a higher address, as in an arena that hands out each address once.
abbrev pub MovesUp : Table → Type 0
MovesUp g = (key a l : ℕ) → key ≢ 0 → find g key ≡ some (a, l) → key < a

module _ {g : Table} (h : IsTable g) (up : MovesUp g) where
  -- a key that `ft_find` knows stands in a slot
  slot_of :
      (key a l : ℕ)
      → find g key ≡ some (a, l)
      → (i : ℕ) × (i < length h.array) × (key_at h.array i ≡ key)
  slot_of key a l e = elim (occurs? h.array key) [
    | inl there ↦ there
    | inr out ↦ let gone : find g key ≡ none = find_absent h key out in absurd (cc)
  ]

  chase_ends :
      (rounds na nl : ℕ)
      → 0 < na
      → above na h.array < rounds
      → (out : ℕ × ℕ) × (chase g rounds na nl ≡ some out)
  unfolding chase
  chase_ends zero na nl pos lt = elim lt [ ]
  chase_ends (suc rounds) na nl pos lt = elim (Option-cases (find g na)) [
    | inl out ↦ ((na, nl), ground (arith, out))
    | inr ((nna, nnl), found) ↦
        let higher : na < nna = up na nna nnl (omega arith) found in
        let (i, li, e) = slot_of na nna nnl found in
        let (out, run) =
          chase_ends rounds nna nnl (omega arith)
            (omega (arith, above_lt na nna i h.array li e higher)) in
        (out, ground (arith, found, run))
  ]

  -- With fewer entries than rounds the chase of a moved object ends.
  pub chase_total :
      (rounds key na nl : ℕ)
      → key ≢ 0
      → g.size ≤ rounds
      → find g key ≡ some (na, nl)
      → (out : ℕ × ℕ) × (chase g rounds na nl ≡ some out)
  chase_total rounds key na nl ne few found =
      let higher : key < na = up key na nl ne found in
      let (i, li, e) = slot_of key na nl found in
      chase_ends rounds na nl (omega arith) (
        omega (
          arith,
          above_lt key na i h.array li e higher,
          above-le-occupied key h.array (omega arith),
          h.counted,
        ))
