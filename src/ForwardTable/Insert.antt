-- ===== src/ForwardTable/Insert.antt =====
-- `forward_table_insert` against a finite map from addresses to pairs of an address and a length.
use stopless_java_gc.Base.{
  ℕ, ◌+◌, ◌≤◌, ◌<◌, ◌≡◌, ◌≢◌, refl, some_inj, sym, ap, ◌∙◌, subst, inl, inr, Bool, false, none,
  some, List, ◌==◌, if◌then◌else◌, arith, Option-cases, length, set, length-set, get_or-set_self,
  get_or-set_ne, ℕ_discrete, ne→==, eq→==,
}
use stopless_java_gc.ForwardTable.{
  Slot, empty_slot, slot_at, key_at, stops, find, Table, put, insert_at,
}
use stopless_java_gc.ForwardTable.Probe.{missed, stopped, pos_hit}
use stopless_java_gc.ForwardTable.Slots.{
  IsValid, search_of, search_stop, some_slots, set-IsValid, occurs?, search-Outcome, home_lt,
}
use stopless_java_gc.ForwardTable.State.{
  Filled, occupied, occupied-set, occupied-le-length, free_slot, occupied_lt, IsTable, entry,
  seek_lem, find_present, find_absent,
}

-- In an array that is not full the probe loop ends at a slot.
pub search_ends :
    {k : ℕ} {t : List Slot} (v : IsValid k t) (key : ℕ)
    → occupied t < length t
    → (p : ℕ) × (search_of t key ≡ some p)
search_ends {k} {t} v key room = elim (search-Outcome v key) [
  | stopped d l e hit before ↦ (_, e)
  | missed e before ↦
      let (i, lt, free) = free_slot t room in
      let (d, ld, at_d) =
        pos_hit k (length t) v.width v.small (some_slots v) _ i (home_lt v key) lt in
      let pass : stops t key i ≡ false = subst (λ q. stops t key q ≡ false) at_d (before d ld) in
      absurd (ground (arith, free))
]

module _ {g : Table} (h : IsTable g) (key na nl p : ℕ) (nonzero : key ≢ 0)
    (found : search_of h.array key ≡ some p) where
  abbrev written : Slot
  written = record { from_addr = key; new_addr = na; new_len = nl }

  pub put_counted : (put g h.array p key na nl).size ≡ occupied (set h.array p written)
  unfolding put
  put_counted =
      let (lt, stop) = search_stop h.valid key p found in
      ground (
        arith,
        occupied-set h.array p written lt,
        occupied-le-length h.array,
        h.counted,
        h.valid.small,
        stop,
      )

  unfoldable pub put-IsTable : IsTable (put g h.array p key na nl)
  unfolding put
  put-IsTable = record {
    exponent = h.exponent;
    array = set h.array p written;
    slots = refl;
    capacity = h.capacity ∙ sym (length-set h.array p written);
    counted = put_counted;
    valid = set-IsValid h.valid key p written nonzero found refl;
  }

  -- The three stores change the map at the key and nowhere else.
  pub find-put :
      (j : ℕ)
      → j ≢ 0
      → find (put g h.array p key na nl) j ≡ (if j == key then entry written else find g j)
  unfolding put-IsTable
  find-put j ne =
      let t = h.array in
      let (lt, stop) = search_stop h.valid key p found in
      let h' : IsTable (put g t p key na nl) = put-IsTable in
      let same : length (set t p written) ≡ length t = length-set t p written in
      elim (ℕ_discrete j key) [
        | yes e ↦
            let here : slot_at (set t p written) p ≡ written =
              get_or-set_self t p written empty_slot lt in
            rw (eq→== j key e) (
              find_present h' p j (rw same lt) (ap (λ (r : Slot). r.from_addr) here ∙ sym e) ne
              ∙ ap entry here)
        | no apart ↦ rw (ne→== j key apart) (elim (occurs? t j) [
          | inl (i, li, e) ↦
              let off : p ≢ i = λ q. elim stop [
                | inl z ↦ ne (sym e ∙ (ap (key_at t) (sym q) ∙ z))
                | inr k ↦ apart (sym e ∙ (ap (key_at t) (sym q) ∙ k))
              ] in
              let there : slot_at (set t p written) i ≡ slot_at t i =
                get_or-set_ne t p i written empty_slot off in
              find_present h' i j (rw same li) (ap (λ (r : Slot). r.from_addr) there ∙ e) ne
              ∙ (ap entry there ∙ sym (find_present h i j li e ne))
          | inr out ↦
              find_absent h' j (λ i li. elim (ℕ_discrete p i) [
                | yes q ↦ λ k. apart (
                    sym k
                    ∙ (ap (key_at (set t p written)) (sym q)
                        ∙ ap (λ (r : Slot). r.from_addr)
                            (get_or-set_self t p written empty_slot lt)))
                | no off ↦ λ k. out i (rw same at li) (
                    sym
                      (ap (λ (r : Slot). r.from_addr) (get_or-set_ne t p i written empty_slot off))
                    ∙ k)
              ])
              ∙ sym (find_absent h j out)
        ])
      ]

  put_counts : (put g h.array p key na nl).size ≤ g.size + 1
  unfolding put
  put_counts = ground arith

  put-Filled : na ≢ 0 → Filled g → Filled (put g h.array p key na nl)
  unfolding put
  put-Filled nz filled t i there li occupied_slot =
      let same : set h.array p written ≡ t = some_inj there in
      let (lp, stop) = search_stop h.valid key p found in
      elim (ℕ_discrete p i) [
        | yes e ↦
            let at : slot_at t i ≡ written =
              ap (λ (l : List Slot). slot_at l i) (sym same)
              ∙ (ap (slot_at (set h.array p written)) (sym e)
                  ∙ get_or-set_self h.array p written empty_slot lp) in
            rw at nz
        | no off ↦
            let at : slot_at t i ≡ slot_at h.array i =
              ap (λ (l : List Slot). slot_at l i) (sym same)
              ∙ get_or-set_ne h.array p i written empty_slot off in
            let li' : i < length h.array =
              rw (sym (length-set h.array p written) ∙ ap (λ (l : List Slot). length l) same) li in
            rw at (
              filled h.array i h.slots li'
                (λ z. occupied_slot (ap (λ (r : Slot). r.from_addr) at ∙ z)))
      ]

-- The outcome of a call that wrote `(na, nl)` at `key`.
pub record Writes (g g' : Table) (key na nl : ℕ) : Type 0 where
  pub table : IsTable g'
  pub capacity : g'.capacity ≡ g.capacity
  pub reads :
      (j : ℕ)
      → j ≢ 0
      → find g' j ≡ (if j == key then (if na == 0 then none else some (na, nl)) else find g j)
  pub counts : g'.size ≤ g.size + 1
  pub fills : na ≢ 0 → Filled g → Filled g'

module _ {g : Table} (h : IsTable g) (memory : Bool) (key na nl : ℕ) (nonzero : key ≢ 0) where
  -- `forward_table_insert` of a nonzero address into a table that is not full returns, keeps the
  -- invariant and the capacity, and changes what `ft_find` reads at that address alone: it finds the
  -- new pair there, or nothing if the new address is zero. The count grows by at most one, and if every
  -- occupied slot had its new address and the new one is not zero, so it is afterwards.
  pub insert_at-Writes :
      g.size < g.capacity
      → (g' : Table) × (insert_at memory g key na nl ≡ some g') × Writes g g' key na nl
  unfolding insert_at put
  insert_at-Writes room =
      let (p, found) = search_ends h.valid key (rw (← h.counted, ← h.capacity) room) in
      (
        put g h.array p key na nl,
        ground (arith, h.slots, seek_lem h key),
        record {
          table = put-IsTable h key na nl p nonzero found;
          capacity = refl;
          reads = find-put h key na nl p nonzero found;
          counts = put_counts h key na nl p nonzero found;
          fills = put-Filled h key na nl p nonzero found;
        },
      )

  -- In a full table a new address is dropped.
  pub insert_at_full :
      g.size ≡ g.capacity
      → ((i : ℕ) → i < length h.array → key_at h.array i ≢ key)
      → insert_at memory g key na nl ≡ some g
  unfolding insert_at
  insert_at_full full out = elim (Option-cases (search_of h.array key)) [
    | inl e ↦ ground (arith, h.slots, seek_lem h key)
    | inr (p, e) ↦
        let (lt, stop) = search_stop h.valid key p e in
        elim stop [
          | inl free ↦ absurd (omega (arith, occupied_lt h.array p lt free, h.counted, h.capacity))
          | inr k ↦ absurd (out p lt k)
        ]
  ]
