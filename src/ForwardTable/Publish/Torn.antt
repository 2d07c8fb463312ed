-- ===== src/ForwardTable/Publish/Torn.antt =====
-- A second insertion of an address under a reader.
use stopless_java_gc.Base.{
  ℕ, zero, suc, ◌-◌, ◌<◌, ◌≡◌, ◌≢◌, refl, sym, ap, ◌∙◌, subst, inr, some, List, [], length, set,
  length-set, get_or-set_self, arith, ne→==, some_inj, false, ◌==◌, if◌then◌else◌, add64, ◌∷◌,
}
use stopless_java_gc.ForwardTable.{Slot, empty_slot, slot_at, key_at, stops, home}
use stopless_java_gc.ForwardTable.Probe.{pos, pos-zero, missed, stopped}
use stopless_java_gc.ForwardTable.Slots.{
  IsValid, search_present, search-Outcome, set-IsValid, some_slots, home_lt,
}
use stopless_java_gc.ForwardTable.State.{entry}
use stopless_java_gc.ForwardTable.Race.Overwrite.{Passed}
use stopless_java_gc.ForwardTable.Race.Moves.{advance-pos, pos_within}
use stopless_java_gc.ForwardTable.Publish.Defs.{
  Shared, Reader, idle, probing, finding, now, Any, call, pass, stop, store_len, store_addr,
  store_key, count, look, skip, hit, seen, measured, Reach, begin, wrote, read,
}
use stopless_java_gc.ForwardTable.Publish.Writer.{Found, half, most, whole, rewrites}
use stopless_java_gc.ForwardTable.Publish.Readers.{answer_at, now_present}

module _ {k : ℕ} {t : List Slot} (v : IsValid k t) (size key : ℕ) (ne : key ≢ 0) where
  -- before all calls
  abbrev at_rest : Shared
  at_rest = record { array = t; size = size; inserted = []; answers = [] }

  abbrev place : ℕ → ℕ
  place d = pos (length t) (home (length t - 1) key) d

  passed_by :
      (d : ℕ)
      → stops t key (place d) ≡ false
      → (key_at t (place d) ≢ 0) × (key_at t (place d) ≢ key)
  passed_by d e = (λ z. absurd (ground (arith, e, z)), λ z. absurd (ground (arith, e, z)))

  first_place : home (length t - 1) key ≡ place 0
  first_place = sym (pos-zero k (length t) v.width v.small (some_slots v) _ (home_lt v key))

  -- A reader goes through the rounds that do not stop it, while the writer stands still.
  reader_walks :
      (d : ℕ)
      → d < length t
      → Passed t key d
      → (rs : ℕ → Reader) × Reach Any t size at_rest idle rs
        × (rs 0 ≡ finding key d (place d) (now at_rest key))
  reader_walks zero l p =
      (_, read 0 begin refl (look key ne), ap (λ i. finding key 0 i (now at_rest key)) first_place)
  reader_walks (suc d) l p =
      let (rs, r, e) = reader_walks d (omega arith) (λ q lq. p q (omega arith)) in
      let (nz, other) = passed_by d (p d (omega arith)) in
      (
        _,
        read 0 r e (skip (omega arith) nz other),
        ap (λ i. finding key (suc d) i (now at_rest key)) (advance-pos v _ d),
      )

  -- So does the writer, while the readers stand still.
  writer_walks :
      {rs : ℕ → Reader} (na nl d : ℕ)
      → d < length t
      → Passed t key d
      → Reach Any t size at_rest idle rs
      → Reach Any t size at_rest (probing key na nl d (place d)) rs
  writer_walks {rs} na nl zero l p r =
      subst (λ i. Reach Any t size at_rest (probing key na nl 0 i) rs) first_place
        (wrote r (call key na nl ne))
  writer_walks {rs} na nl (suc d) l p r =
      let at_d = writer_walks na nl d (omega arith) (λ q lq. p q (omega arith)) r in
      let (nz, other) = passed_by d (p d (omega arith)) in
      subst (λ i. Reach Any t size at_rest (probing key na nl (suc d) i) rs) (advance-pos v _ d)
        (wrote at_d (pass (omega arith) nz other))

  module _ (d : ℕ) (l : d < length t) (p : Passed t key d) (here : key_at t (place d) ≡ key)
      (nonzero : (slot_at t (place d)).new_addr ≢ 0) (na nl : ℕ) where
    abbrev old : Slot
    old = slot_at t (place d)

    -- the slots after the second insertion
    abbrev renewed : List Slot
    renewed = set t (place d) (whole key na nl)

    within : place d < length t
    within = pos_within v (home (length t - 1) key) d

    found : Found t key (place d) (key_at t (place d))
    found = record {
      nonzero = ne;
      ends = search_present v (place d) key within here ne;
      was = refl;
    }

    -- the slots after each of the three stores
    abbrev store₁ : List Slot
    store₁ = set t (place d) (record (slot_at t (place d)) { new_len = nl })

    abbrev store₂ : List Slot
    store₂ = set store₁ (place d) (record (slot_at store₁ (place d)) { new_addr = na })

    abbrev store₃ : List Slot
    store₃ = set store₂ (place d) (record (slot_at store₂ (place d)) { from_addr = key })

    stored : store₃ ≡ renewed
    stored =
        let second : store₂ ≡ set t (place d) (most t (place d) na nl) =
          rewrites v found (half t (place d) nl) (λ s. record s { new_addr = na }) refl in
        rewrites v found (most t (place d) na nl) (λ s. record s { from_addr = key }) second

    -- the state after the second insertion
    abbrev finished : Shared
    finished = record {
      array = store₃;
      size = if key_at t (place d) == 0 then add64 size 1 else size;
      inserted = record { key = key; new_addr = na; new_len = nl } ∷ [];
      answers = [];
    }

    renews :
        {rs : ℕ → Reader} → Reach Any t size at_rest idle rs → Reach Any t size finished idle rs
    renews r =
        wrote
          (wrote
            (wrote (wrote (wrote (writer_walks na nl d l p r) (stop l (inr here))) store_len)
              store_addr)
            store_key)
          count

    slot_after : slot_at store₃ (place d) ≡ whole key na nl
    slot_after =
        ap (λ u. slot_at u (place d)) stored ∙ get_or-set_self t (place d) _ empty_slot within

    -- The reader has loaded the old address when the writer runs, and loads the length after it.
    torn_answer :
        (rs : ℕ → Reader) × Reach Any t size
          (record finished {
            answers =
                record {
                  key = key;
                  before = now at_rest key;
                  found = some (old.new_addr, (slot_at store₃ (place d)).new_len);
                  after = now finished key;
                }
                ∷ [];
          })
          idle
          rs
    torn_answer =
        let (rs, r, e) = reader_walks d l p in
        let held = read 0 r e (hit l (λ z. ne (sym here ∙ z)) here) in
        let loaded = read 0 held refl (seen nonzero) in (_, read 0 (renews loaded) refl measured)

    now_after : now finished key ≡ entry (whole key na nl)
    now_after =
        let valid : IsValid k store₃ =
          subst (IsValid k) (sym stored)
            (set-IsValid v key (place d) (whole key na nl) ne found.ends refl) in
        now_present finished valid (place d) key (record {
          nonzero = ne;
          within =
              subst (λ u. place d < length u) (sym stored)
                (rw (length-set t (place d) (whole key na nl)) within);
          from = ap (λ (r : Slot). r.from_addr) slot_after;
        })
        ∙ ap entry slot_after

    torn_at :
        na ≢ 0
        → (m : Shared) × (rs : ℕ → Reader) × Reach Any t size m idle rs
          × (answer_at m.answers 0 ≡ record {
            key = key;
            before = some (old.new_addr, old.new_len);
            found = some (old.new_addr, nl);
            after = some (na, nl);
          })
    torn_at some_addr =
        let (rs, r) = torn_answer in
        let was : now at_rest key ≡ some (old.new_addr, old.new_len) =
          now_present at_rest v (place d) key
            (record { nonzero = ne; within = within; from = here })
          ∙ ground (arith, ne→== old.new_addr 0 nonzero) in
        let is : now finished key ≡ some (na, nl) =
          now_after ∙ ground (arith, ne→== na 0 some_addr) in
        (
          _,
          rs,
          r,
          λ i. record {
            key = key;
            before = was i;
            found = some (old.new_addr, (slot_after i).new_len);
            after = is i;
          },
        )

module _ {k : ℕ} {t : List Slot} (v : IsValid k t) (size : ℕ) where
  -- If the writer inserts a nonzero address that a slot has already, there is a run in which a call of
  -- `ft_find` of it returns the old address with the new length, when the table held the old pair at
  -- its beginning and holds the new pair at its end.
  pub torn_read :
      (key p na nl : ℕ)
      → key ≢ 0
      → na ≢ 0
      → p < length t
      → key_at t p ≡ key
      → (slot_at t p).new_addr ≢ 0
      → (m : Shared) × (rs : ℕ → Reader) × Reach Any t size m idle rs
        × (answer_at m.answers 0 ≡ record {
          key = key;
          before = some ((slot_at t p).new_addr, (slot_at t p).new_len);
          found = some ((slot_at t p).new_addr, nl);
          after = some (na, nl);
        })
  torn_read key p na nl ne some_addr lt here nonzero = elim (search-Outcome v key) [
    | missed out before ↦ absurd (cc (search_present v p key lt here ne))
    | stopped d l out ends before ↦
        let same : p ≡ pos (length t) (home (length t - 1) key) d =
          some_inj (sym (search_present v p key lt here ne) ∙ out) in
        rw same (
          torn_at v size key ne d l before (subst (λ j. key_at t j ≡ key) same here)
            (subst (λ j. (slot_at t j).new_addr ≢ 0) same nonzero) na nl some_addr)
  ]
