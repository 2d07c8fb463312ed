-- ===== src/ForwardTable/Rehash.antt =====
-- The loop of `forward_table_maybe_grow` ends, and moves every slot of the old array.
use stopless_java_gc.Base.{
  ℕ, zero, suc, ◌+◌, ◌-◌, ◌<◌, ◌≡◌, ◌≢◌, refl, sym, ap, ◌∙◌, subst, ◌⊎◌, inl, inr, some, List, [],
  ◌∷◌, arith, length, set, length-set, get_or-set_self, get_or-set_ne, ℕ_discrete, get_or_beyond,
  dec_lt,
}
use stopless_java_gc.ForwardTable.{Slot, empty_slot, slot_at, key_at, home, rehash, free_from}
use stopless_java_gc.ForwardTable.Probe.{free_from-eq-probe}
use stopless_java_gc.ForwardTable.Slots.{IsValid, search_stop, some_slots, set-IsValid}
use stopless_java_gc.ForwardTable.State.{occupied, occupied-set}
use stopless_java_gc.ForwardTable.Insert.{search_ends}

-- `nt'` holds what `nt` and the slots `old` held.
pub record Moved (k : ℕ) (old nt nt' : List Slot) : Type 0 where
  pub valid : IsValid k nt'
  pub width : length nt' ≡ length nt
  pub counted : occupied nt' ≡ occupied nt + occupied old
  pub keeps : (i : ℕ) → i < length nt → key_at nt i ≢ 0 → slot_at nt' i ≡ slot_at nt i
  pub moved :
      (i : ℕ)
      → i < length old
      → key_at old i ≢ 0
      → (j : ℕ) × (j < length nt) × (slot_at nt' j ≡ slot_at old i)
  pub only :
      (j : ℕ)
      → j < length nt
      → key_at nt' j ≢ 0
      → (slot_at nt' j ≡ slot_at nt j)
        ⊎ ((i : ℕ) × (i < length old) × (slot_at nt' j ≡ slot_at old i))

abbrev pub IsDistinct : List Slot → Type 0
IsDistinct old =
    (i j : ℕ)
    → i < length old
    → j < length old
    → key_at old i ≢ 0
    → key_at old i ≡ key_at old j
    → i ≡ j

abbrev pub IsFresh : List Slot → List Slot → Type 0
IsFresh old nt =
    (i j : ℕ) → i < length old → j < length nt → key_at old i ≢ 0 → key_at nt j ≢ key_at old i

Moved-skip :
    {k : ℕ} (s : Slot) (old nt nt' : List Slot)
    → s.from_addr ≡ 0
    → Moved k old nt nt'
    → Moved k (s ∷ old) nt nt'
unfolding occupied
Moved-skip s old nt nt' e m = record {
  valid = m.valid;
  width = m.width;
  counted = ground (arith, m.counted);
  keeps = m.keeps;
  moved = moved;
  only = λ j lj nz. elim (m.only j lj nz) [
    | inl same ↦ inl same
    | inr (i, li, q) ↦ inr (suc i, omega arith, q)
  ];
}
  where
    moved :
        (i : ℕ)
        → i < suc (length old)
        → key_at (s ∷ old) i ≢ 0
        → (j : ℕ) × (j < length nt) × (slot_at nt' j ≡ slot_at (s ∷ old) i)
    moved zero li nz = absurd (nz e)
    moved (suc i) li nz = m.moved i (omega arith) nz

Moved-put :
    {k : ℕ} (s : Slot) (old nt nt' : List Slot) (p : ℕ)
    → s.from_addr ≢ 0
    → p < length nt
    → key_at nt p ≡ 0
    → Moved k old (set nt p s) nt'
    → Moved k (s ∷ old) nt nt'
unfolding occupied
Moved-put s old nt nt' p ne lp free m = record {
  valid = m.valid;
  width = m.width ∙ length-set nt p s;
  counted = ground (arith, m.counted, occupied-set nt p s lp);
  keeps = λ i li nz.
      let off : p ≢ i = λ q. nz (ap (key_at nt) (sym q) ∙ free) in
      let same = get_or-set_ne nt p i s empty_slot off in
      m.keeps i (rw (length-set nt p s) li)
        (λ z. nz (ap (λ (r : Slot). r.from_addr) (sym same) ∙ z))
      ∙ same;
  moved = moved;
  only = λ j lj nz. elim (m.only j (rw (length-set nt p s) lj) nz) [
    | inl same ↦ elim (ℕ_discrete p j) [
      | yes q ↦ inr (0, omega arith, same ∙ (ap (slot_at (set nt p s)) (sym q) ∙ here))
      | no off ↦ inl (same ∙ get_or-set_ne nt p j s empty_slot off)
    ]
    | inr (i, li, q) ↦ inr (suc i, omega arith, q)
  ];
}
  where
    here : slot_at (set nt p s) p ≡ s
    here = get_or-set_self nt p s empty_slot lp

    moved :
        (i : ℕ)
        → i < suc (length old)
        → key_at (s ∷ old) i ≢ 0
        → (j : ℕ) × (j < length nt) × (slot_at nt' j ≡ slot_at (s ∷ old) i)
    moved zero li nz = (
      p,
      lp,
      m.keeps p (rw (length-set nt p s) lp)
            (λ z. nz (sym (ap (λ (r : Slot). r.from_addr) here) ∙ z))
          ∙ here,
    )
    moved (suc i) li nz =
        let (j, lj, e) = m.moved i (omega arith) nz in (j, rw (length-set nt p s) at lj, e)

IsFresh-put :
    (s : Slot) (old nt : List Slot) (p : ℕ)
    → p < length nt
    → IsDistinct (s ∷ old)
    → IsFresh (s ∷ old) nt
    → s.from_addr ≢ 0
    → IsFresh old (set nt p s)
IsFresh-put s old nt p lp apart fresh ne i j li lj nz e = elim (ℕ_discrete p j) [
  | yes q ↦
      let here : key_at (set nt p s) j ≡ s.from_addr =
        ap (key_at (set nt p s)) (sym q)
        ∙ ap (λ (r : Slot). r.from_addr) (get_or-set_self nt p s empty_slot lp) in
      let clash : 0 ≡ suc i = apart 0 (suc i) (omega arith) (omega arith) ne (sym here ∙ e) in
      absurd (omega arith)
  | no off ↦
      fresh (suc i) j (omega arith) (rw (length-set nt p s) at lj) nz
        (sym (ap (λ (r : Slot). r.from_addr) (get_or-set_ne nt p j s empty_slot off)) ∙ e)
]

rehash-skip :
    (mask : ℕ) (s : Slot) (old nt : List Slot)
    → s.from_addr ≡ 0
    → rehash mask (s ∷ old) nt ≡ rehash mask old nt
unfolding rehash
rehash-skip mask s old nt e = ground arith

rehash-put :
    (mask : ℕ) (s : Slot) (old nt : List Slot) (p : ℕ)
    → s.from_addr ≢ 0
    → free_from nt mask (mask + 1) (home mask s.from_addr) ≡ some p
    → rehash mask (s ∷ old) nt ≡ rehash mask old (set nt p s)
unfolding rehash
rehash-put mask s old nt p ne e = ground arith

-- Rehashing ends, and moves every entry.
pub rehash-Moved :
    {k : ℕ} (old nt : List Slot)
    → IsValid k nt
    → occupied nt + occupied old < length nt
    → IsDistinct old
    → IsFresh old nt
    → (nt' : List Slot) × (rehash (length nt - 1) old nt ≡ some nt') × Moved k old nt nt'
unfolding rehash occupied
rehash-Moved [] nt v room apart fresh = (
  nt,
  refl,
  record {
    valid = v;
    width = refl;
    counted = omega arith;
    keeps = λ i li nz. refl;
    moved = λ i li nz. elim li [ ];
    only = λ j lj nz. inl refl;
  },
)
rehash-Moved {k} (s ∷ old) nt v room apart fresh = elim (ℕ_discrete s.from_addr 0) [
  | yes e ↦
      let (nt', run, m) =
        rehash-Moved old nt v (ground (arith, room))
          (λ i j li lj nz e. ground (arith, apart (suc i) (suc j) (omega arith) (omega arith) nz e))
          (λ i j li lj nz. fresh (suc i) j (omega arith) lj nz) in
      (nt', rehash-skip (length nt - 1) s old nt e ∙ run, Moved-skip s old nt nt' e m)
  | no ne ↦
      let key = s.from_addr in
      let (p, found) = search_ends v key (ground (arith, room)) in
      let (lp, stop) = search_stop v key p found in
      let free : key_at nt p ≡ 0 = elim stop [
        | inl z ↦ z
        | inr q ↦ absurd (fresh 0 p (omega arith) lp ne q)
      ] in
      let v' : IsValid k (set nt p s) = set-IsValid v key p s ne found refl in
      let (nt', run, m) =
        rehash-Moved old (set nt p s) v'
          (ground (arith, room, occupied-set nt p s lp, length-set nt p s))
          (λ i j li lj nz e. ground (arith, apart (suc i) (suc j) (omega arith) (omega arith) nz e))
          (IsFresh-put s old nt p lp apart fresh ne) in
      let rounds : length nt - 1 + 1 ≡ length nt = omega (arith, some_slots v) in
      let ends : free_from nt (length nt - 1) (length nt - 1 + 1) (home (length nt - 1) key)
          ≡ some p =
        ap (λ r. free_from nt (length nt - 1) r (home (length nt - 1) key)) rounds
        ∙ (free_from-eq-probe k (length nt) v.width v.small (some_slots v) nt key (nowhere ne)
              (length nt) _
            ∙ found) in
      (
        nt',
        rehash-put (length nt - 1) s old nt p ne ends
            ∙ subst (λ w. rehash (w - 1) old (set nt p s) ≡ some nt') (length-set nt p s) run,
        Moved-put s old nt nt' p ne lp free m,
      )
]
  where
    nowhere : s.from_addr ≢ 0 → (i : ℕ) → key_at nt i ≢ s.from_addr
    nowhere ne i = elim (dec_lt i (length nt)) [
      | yes li ↦ fresh 0 i (omega arith) li ne
      | no beyond ↦
          λ q. ne (sym q ∙ ap (λ (r : Slot). r.from_addr) (get_or_beyond nt i empty_slot beyond))
    ]
