-- ===== src/CapRuntime/Relocation/Write.antt =====
-- What `lookup` of the C++ forwarding table reads, and a store at the place where a probe ends.
use native.Mathlib.Nat.{mod-lt, one-le-pow}
use mathlib.Core.Bool.{true≢false}
use stopless_java_gc.Base.{
  ℕ, zero, suc, ◌+◌, ◌-◌, ◌%◌, ◌^◌, ◌<◌, bit_and, ◌≡◌, ◌≢◌, sym, ap, ◌∙◌, subst, ◌⊎◌, inl, inr,
  true, false, some, List, [], ◌∷◌, arith, Option-cases, length, set, length-set, get_or-set_self,
  get_or-set_ne, ℕ_discrete, sub64, ◌==◌, if◌then◌else◌, eq→==, ne→==,
}
use stopless_java_gc.Base.Bits.{bit_and-low_ones}
use stopless_java_gc.ForwardTable.Probe.{pos, pos_hit}
use stopless_java_gc.CapRuntime.Relocation.{
  Slot, Table, hash_addr, empty_slot, slot_at, key_at, stops, seek, lookup,
}
use stopless_java_gc.CapRuntime.Relocation.Seek.{
  place, seek-First, First-seek, seek_missed, IsValid,
}

pub occurs? {ℓ} :
    {C : Type ℓ} (null : C) (s : List (Slot C)) (key : ℕ)
    → ((i : ℕ) × (i < length s) × (key_at null s i ≡ key))
      ⊎ ((i : ℕ) → i < length s → key_at null s i ≢ key)
occurs? null [] key = inr (λ i l. elim l [ ])
occurs? {C = C} null (x ∷ s) key = elim (ℕ_discrete x.from_addr key) [
  | yes e ↦ inl (0, omega arith, e)
  | no ne ↦ elim (occurs? null s key) [
    | inl (i, lt, e) ↦ inl (suc i, omega arith, e)
    | inr out ↦ inr (later null x s key ne out)
  ]
]
  where
    later :
        {C : Type ℓ} (null : C) (x : Slot C) (s : List (Slot C)) (key : ℕ)
        → x.from_addr ≢ key
        → ((i : ℕ) → i < length s → key_at null s i ≢ key)
        → (i : ℕ) → i < suc (length s)
        → key_at null (x ∷ s) i ≢ key
    later null x s key ne out zero l = ne
    later null x s key ne out (suc i) l = out i (omega arith)

pub hit_cases {ℓ} :
    {C : Type ℓ} (null : C) (s : List (Slot C)) (key i : ℕ)
    → stops null s key i ≡ true
    → (key_at null s i ≡ 0) ⊎ (key_at null s i ≡ key)
hit_cases null s key i hit = ground arith

pub lookup_zero {ℓ} :
    {C : Type ℓ} (null : C) (addr : C → ℕ) (t : Table C) (c : C)
    → addr c ≡ 0
    → lookup null addr t c ≡ c
unfolding lookup
lookup_zero null addr t c z = rw z

module _ {ℓ} {C : Type ℓ} {null : C} where
  module _ {t : Table C} (v : IsValid null t) where
    some_slots : 0 < t.slots_count
    some_slots = omega (arith, v.two, one-le-pow v.exponent 2)

    mask_lem : (a : ℕ) → bit_and a (sub64 t.slots_count 1) ≡ a % t.slots_count
    mask_lem a =
        let plain : sub64 t.slots_count 1 ≡ t.slots_count - 1 =
          omega (arith, v.small, some_slots) in
        rw (plain, v.two) (bit_and-low_ones v.exponent a)

    hash_lt : (key : ℕ) → hash_addr key t.slots_count < t.slots_count
    unfolding hash_addr
    hash_lt key = rw (mask_lem _) (mod-lt _ some_slots)

    index_lem :
        (key d : ℕ)
        → d < t.slots_count
        → place null t key d ≡ pos t.slots_count (hash_addr key t.slots_count) d
    index_lem key d lt =
        let h = hash_addr key t.slots_count in
        let plain : (h + d) % 2 ^ 64 ≡ h + d = omega (arith, hash_lt key, v.small) in
        mask_lem _ ∙ ap (λ (a : ℕ). a % t.slots_count) plain

    pub place-lt : (key d : ℕ) → d < t.slots_count → place null t key d < length t.slots
    place-lt key d lt = rw (index_lem key d lt, ← v.width) (mod-lt _ (omega (arith, lt, v.width)))

    -- Every slot is on the way of a probe.
    pub place_hit :
        (key i : ℕ) → i < length t.slots → (d : ℕ) × (d < t.slots_count) × (place null t key d ≡ i)
    place_hit key i lt =
        let (d, ld, at_d) =
          pos_hit v.exponent t.slots_count v.two v.small some_slots (hash_addr key t.slots_count) i
            (hash_lt key) (rw (← v.width) lt) in
        (d, ld, index_lem key d ld ∙ at_d)

    -- The probe ends in a table with a free slot.
    pub seek_ends :
        (key i : ℕ)
        → i < length t.slots
        → key_at null t.slots i ≡ 0
        → (p : ℕ) × (seek null t key ≡ some p)
    seek_ends key i lt free = elim (Option-cases (seek null t key)) [
      | inr (p, e) ↦ (p, e)
      | inl out ↦
          let (d, ld, at_d) = place_hit key i lt in
          absurd (
            true≢false (
              ground (arith, free)
              ∙ subst (λ q. stops null t.slots key q ≡ false) at_d
                  (seek_missed null t key out d ld)))
    ]

    pub seek-lt : (key p : ℕ) → seek null t key ≡ some p → p < length t.slots
    seek-lt key p e =
        let f = seek-First null t key p e in
        subst (λ i. i < length t.slots) f.there (place-lt key f.round f.below)

    module _ (addr : C → ℕ) where
      pub lookup_present :
          (c : C) (i : ℕ)
          → i < length t.slots
          → key_at null t.slots i ≡ addr c
          → addr c ≢ 0
          → lookup null addr t c ≡ (slot_at null t.slots i).to_cap
      unfolding lookup
      lookup_present c i lt e ne =
          let found : seek null t (addr c) ≡ some i =
            subst (λ k. seek null t k ≡ some i) e (v.reach i lt (λ z. ne (sym e ∙ z))) in
          ground (arith, found, e, ne)

      pub lookup_absent :
          (c : C)
          → ((i : ℕ) → i < length t.slots → key_at null t.slots i ≢ addr c)
          → lookup null addr t c ≡ c
      unfolding lookup
      lookup_absent c out = elim (Option-cases (seek null t (addr c))) [
        | inl e ↦ ground (arith, e)
        | inr (p, e) ↦
            let apart = out p (seek-lt (addr c) p e) in
            let f = seek-First null t (addr c) p e in ground (arith, e, apart, f.hit)
      ]

  -- A store of a whole slot where the probe for its key ends.
  module _ {t : Table C} (v : IsValid null t) (p count : ℕ) (w : Slot C) (nonzero : w.from_addr ≢ 0)
      (found : seek null t w.from_addr ≡ some p) where
    abbrev stored : Table C
    stored = record t { slots = set t.slots p w; installed = count }

    pub at_p : slot_at null stored.slots p ≡ w
    at_p = get_or-set_self t.slots p w (empty_slot null) (seek-lt v w.from_addr p found)

    pub off_p : (i : ℕ) → p ≢ i → slot_at null stored.slots i ≡ slot_at null t.slots i
    off_p i ne = get_or-set_ne t.slots p i w (empty_slot null) ne

    pub key_p : key_at null stored.slots p ≡ w.from_addr
    key_p = ap (λ (r : Slot C). r.from_addr) at_p

    -- A probe still passes the slots that it passed.
    pub passes : (j q : ℕ) → stops null t.slots j q ≡ false → stops null stored.slots j q ≡ false
    passes j q pass = elim (ℕ_discrete p q) [
      | no ne ↦ let e = ap (λ (r : Slot C). r.from_addr) (off_p q ne) in rw e pass
      | yes e ↦
          let hit = (seek-First null t w.from_addr p found).hit in
          let here : stops null t.slots j p ≡ false =
            subst (λ i. stops null t.slots j i ≡ false) (sym e) pass in
          subst (λ i. stops null stored.slots j i ≡ false) e (ground (arith, key_p, hit, here))
    ]

    -- A probe that ended at a slot that stops it still ends there.
    kept :
        (j i : ℕ)
        → seek null t j ≡ some i
        → stops null stored.slots j i ≡ true
        → seek null stored j ≡ some i
    kept j i e hit =
        let f = seek-First null t j i e in
        First-seek null stored j i (record {
          round = f.round;
          below = f.below;
          there = f.there;
          hit = hit;
          before = λ d lt. passes j (place null t j d) (f.before d lt);
        })

    pub stored-IsValid : IsValid null stored
    stored-IsValid = record {
      exponent = v.exponent;
      width = length-set t.slots p w ∙ v.width;
      two = v.two;
      small = v.small;
      reach = λ i lt ne. elim (ℕ_discrete p i) [
        | yes e ↦
            subst (λ q. seek null stored (key_at null stored.slots q) ≡ some q) e
              (rw key_p (kept w.from_addr p found (ground (arith, key_p))))
        | no apart ↦
            let same = ap (λ (r : Slot C). r.from_addr) (off_p i apart) in
            rw same (
              kept (key_at null t.slots i) i
                (v.reach i (rw (length-set t.slots p w) at lt) (rw same at ne))
                (ground (arith, same)))
      ];
    }

    -- Afterwards `lookup` gives the stored capability for the address of the slot, and what it gave
    -- for every other.
    pub lookup-stored :
        (addr : C → ℕ) (c : C)
        → lookup null addr stored c
          ≡ (if addr c == w.from_addr then w.to_cap else lookup null addr t c)
    lookup-stored addr c =
        let v' = stored-IsValid in
        let same : length stored.slots ≡ length t.slots = length-set t.slots p w in
        let lt = seek-lt v w.from_addr p found in
        elim (ℕ_discrete (addr c) w.from_addr) [
          | yes e ↦ rw (eq→== (addr c) w.from_addr e) (
              lookup_present v' addr c p (rw same lt) (key_p ∙ sym e) (λ z. nonzero (sym e ∙ z))
              ∙ ap (λ (r : Slot C). r.to_cap) at_p)
          | no apart ↦ rw (ne→== (addr c) w.from_addr apart) (elim (ℕ_discrete (addr c) 0) [
            | yes z ↦ lookup_zero null addr stored c z ∙ sym (lookup_zero null addr t c z)
            | no ne ↦ elim (occurs? null t.slots (addr c)) [
              | inl (i, li, e) ↦
                  let off : p ≢ i = λ q.
                    elim (hit_cases null t.slots w.from_addr p
                      (seek-First null t w.from_addr p found).hit) [
                        | inl free ↦ ne (sym e ∙ (ap (key_at null t.slots) (sym q) ∙ free))
                        | inr k ↦ apart (sym e ∙ (ap (key_at null t.slots) (sym q) ∙ k))
                      ] in
                  let there = off_p i off in
                  lookup_present v' addr c i (rw same li)
                    (ap (λ (r : Slot C). r.from_addr) there ∙ e) ne
                  ∙ (ap (λ (r : Slot C). r.to_cap) there ∙ sym (lookup_present v addr c i li e ne))
              | inr out ↦
                  lookup_absent v' addr c (λ i li. elim (ℕ_discrete p i) [
                    | yes q ↦
                        subst (λ k. key_at null stored.slots k ≢ addr c) q
                          (λ k. apart (sym k ∙ key_p))
                    | no off ↦ λ k.
                        out i (rw same at li)
                          (sym (ap (λ (r : Slot C). r.from_addr) (off_p i off)) ∙ k)
                  ])
                  ∙ sym (lookup_absent v addr c out)
            ]
          ])
        ]
