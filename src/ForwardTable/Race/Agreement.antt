-- ===== src/ForwardTable/Race/Agreement.antt =====
-- All calls agree on where an object went.
use stopless_java_gc.Base.{
  ℕ, suc, zero, ◌<◌, ◌≡◌, refl, sym, ap, ◌∙◌, subst, some, List, [], ◌∷◌, length, get_or, some_inj,
  arith, ne→==,
}
use stopless_java_gc.ForwardTable.{Slot, Table, slot_at, key_at, find, seek}
use stopless_java_gc.ForwardTable.Slots.{IsValid}
use stopless_java_gc.ForwardTable.State.{IsTable, occupied, find_present}
use stopless_java_gc.ForwardTable.Race.Defs.{Entry, Shared, Pc, Reach, begin, next, table_of}
use stopless_java_gc.ForwardTable.Race.Overwrite.{Published, Fine}
use stopless_java_gc.ForwardTable.Race.Invariant.{Inv, AllPublished}
use stopless_java_gc.ForwardTable.Race.Moves.{Move-Inv}

-- the same table with its entries counted
abbrev pub counted : List Slot → Table
counted t = record { slots = some t; capacity = length t; size = occupied t }

unfoldable pub counted-IsTable : {k : ℕ} {t : List Slot} → IsValid k t → IsTable (counted t)
counted-IsTable {k} {t} v = record {
  exponent = k;
  array = t;
  slots = refl;
  capacity = refl;
  counted = refl;
  valid = v;
}

-- `ft_find` does not read the count.
pub find_uncounted : (m : Shared) (key : ℕ) → find (table_of m) key ≡ find (counted m.array) key
unfolding find seek
find_uncounted m key = refl

find-Published :
    {k : ℕ} (m : Shared) {key na nl : ℕ}
    → IsValid k m.array
    → Published m.array key na nl
    → find (table_of m) key ≡ some (na, nl)
unfolding counted-IsTable
find-Published {k} m {key} {na} {nl} v p =
    let h = counted-IsTable v in
    find_uncounted m key
    ∙ (find_present h p.at key p.within p.from p.nonzero.0
        ∙ ground (arith, p.addr, p.len, ne→== na 0 p.nonzero.1))

Reach-Inv :
    {k : ℕ} {t : List Slot} {m : Shared} {pc : ℕ → Pc}
    → IsValid k t
    → ((j : ℕ) → key_at t j ≡ 0 → (slot_at t j).new_addr ≡ 0)
    → Reach t m pc
    → Inv k m pc
Reach-Inv v blank (begin size) = record {
  valid = v;
  blank = blank;
  fine = λ i. tt;
  single = λ i j x oi oj. cc;
  published = tt;
}
Reach-Inv v blank (next i r e mv) =
    let inv = Reach-Inv v blank r in Move-Inv inv i mv e (subst (Fine _) e (inv.fine i))

abbrev pub result_at : List Entry → ℕ → Entry
result_at rs i = get_or rs i (record { key = 0; new_addr = 0; new_len = 0 })

Published-at :
    (t : List Slot) (rs : List Entry) (i : ℕ)
    → AllPublished t rs
    → i < length rs
    → let r = result_at rs i in Published t r.key r.new_addr r.new_len
Published-at t [] i h l = elim l [ ]
Published-at t (r ∷ rs) zero h l = h.0
Published-at t (r ∷ rs) (suc i) h l = Published-at t rs i h.1 (omega arith)

module _ {k : ℕ} {t : List Slot} (v : IsValid k t)
    (blank : (j : ℕ) → key_at t j ≡ 0 → (slot_at t j).new_addr ≡ 0) where
  -- Threads race in `forward_table_cas_insert` and `ft_find`, from a valid table with no half-written
  -- slot. In every reachable state the slots are valid, `ft_find` of an address for which some call
  -- has installed or read a pair finds that very pair, never half of one, and two such calls for one
  -- address have the same pair.
  pub cas_race_agrees :
      {m : Shared} {pc : ℕ → Pc}
      → Reach t m pc
      → (i j : ℕ) → i < length m.results
      → j < length m.results
      → (result_at m.results i).key ≡ (result_at m.results j).key
      → IsValid k m.array
        × (find (table_of m) (result_at m.results i).key
            ≡ some ((result_at m.results i).new_addr, (result_at m.results i).new_len))
        × ((result_at m.results i).new_addr ≡ (result_at m.results j).new_addr)
        × ((result_at m.results i).new_len ≡ (result_at m.results j).new_len)
  cas_race_agrees {m} r i j li lj same =
      let inv = Reach-Inv v blank r in
      let found : (i : ℕ)
          → i < length m.results
          → let r = result_at m.results i in
            find (table_of m) r.key ≡ some (r.new_addr, r.new_len) =
        λ i l. find-Published m inv.valid (Published-at m.array m.results i inv.published l) in
      let pair = some_inj (sym (found i li) ∙ (ap (find (table_of m)) same ∙ found j lj)) in
      (inv.valid, found i li, ap (λ q. q.0) pair, ap (λ q. q.1) pair)
