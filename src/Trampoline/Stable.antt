-- ===== src/Trampoline/Stable.antt =====
-- The ids of the tables keep their meaning.
use stopless_java_gc.Base.{
  ℕ, zero, suc, ◌+◌, ◌-◌, ◌<◌, ◌≤◌, ◌≡◌, refl, ap, ◌∙◌, subst, ◌⊎◌, inl, inr, Option, none, some,
  arith, Option-cases, ℕ_discrete, dec_lt, some_inj,
}
use stopless_java_gc.Base.Int.{pos}
use stopless_java_gc.Trampoline.{
  cap_data_table_capacity, data_id_for, GrowableArray, Laws, opened, id_from, trampoline_id_for,
  trampoline_dispatch,
}

module _ {A G : Type 0} {ga : GrowableArray A G} (laws : Laws ga) (address : A → ℕ) where
  -- The loop finds the first entry with the address, or there is none.
  id_from_lem :
      (g : G) (x : A) (rounds i id : ℕ)
      → id_from ga address g x rounds i ≡ some id
      → (i < id) × (id ≤ i + rounds) × (address (ga.at_index g (id - 1)) ≡ address x)
  unfolding id_from
  id_from_lem g x zero i id e = absurd (cc)
  id_from_lem g x (suc rounds) i id e = elim (ℕ_discrete (address (ga.at_index g i)) (address x)) [
    | yes same ↦
        let here : suc i ≡ id = some_inj (ground (arith, same, e)) in
        let place : suc i - 1 ≡ i = omega arith in
        (
          omega arith,
          omega arith,
          subst (λ n. address (ga.at_index g (n - 1)) ≡ address x) here (rw place same),
        )
    | no other ↦
        let later : id_from ga address g x rounds (suc i) ≡ some id = ground (arith, other, e) in
        let (low, high, at_id) = id_from_lem g x rounds (suc i) id later in
        (omega arith, omega arith, at_id)
  ]

  -- What a registration leaves: every entry of the table where it was.
  pub record Extends (g g' : G) : Type 0 where
    pub longer : ga.length g ≤ ga.length g'
    pub kept : (i : ℕ) → i < ga.length g → ga.at_index g' i ≡ ga.at_index g i

  -- What a call of `cap_trampoline_id_for` comes to.
  pub record Registered (g : G) (fn : A) (out : ℕ × G) : Type 0 where
    pub extends : Extends g out.1
    pub low : 0 < out.0
    pub high : out.0 ≤ ga.length out.1
    pub entry : address (ga.at_index out.1 (out.0 - 1)) ≡ address fn

  found-Registered :
      (g : G) (fn : A) (id : ℕ)
      → id_from ga address g fn (ga.length g) 0 ≡ some id
      → Registered g fn (id, g)
  found-Registered g fn id e =
      let (low, high, at_id) = id_from_lem g fn (ga.length g) 0 id e in
      record {
        extends = record { longer = omega arith; kept = λ i lt. refl };
        low = low;
        high = omega arith;
        entry = at_id;
      }

  append-Registered :
      (g : G) (fn : A) → Registered g fn (ga.length (ga.append g fn), ga.append g fn)
  append-Registered g fn =
      let more = laws.length-append g fn in
      let place : ga.length (ga.append g fn) - 1 ≡ ga.length g = omega (arith, more) in
      record {
        extends = record { longer = omega (arith, more); kept = laws.at_index-append g fn };
        low = omega (arith, more);
        high = omega arith;
        entry = rw place (ap address (laws.at_index-append_last g fn));
      }

  id_for-Registered :
      (table : Option G) (fn : A)
      → Registered (opened ga address 64 table) fn (trampoline_id_for ga address table fn)
  unfolding trampoline_id_for opened
  id_for-Registered table fn =
      let g = opened ga address 64 table in
      elim (Option-cases (id_from ga address g fn (ga.length g) 0)) [
        | inr (id, e) ↦ rw (trampoline_id_for, e) (found-Registered g fn id e)
        | inl out ↦ rw (trampoline_id_for, out) (append-Registered g fn)
      ]

  -- Registrations, one after the other.
  pub data Later (g : G) : G → Type 0 where
    now : Later g g
    after : {g' : G} (fn : A) → Later g g' → Later g (trampoline_id_for ga address (some g') fn).1

  Extends-Later : {g g' : G} → Later g g' → Extends g g'
  unfolding opened
  Extends-Later now = record { longer = omega arith; kept = λ i lt. refl }
  Extends-Later (after {g'} fn l) =
      let first = Extends-Later l in
      let next = (id_for-Registered (some g') fn).extends in
      record {
        longer = omega (arith, first.longer, next.longer);
        kept = λ i lt. next.kept i (omega (arith, first.longer)) ∙ first.kept i lt;
      }

  -- The loop finds the same entry in a table that has been extended.
  id_from_kept :
      {g g' : G} (x : A) (rounds rounds' i id : ℕ)
      → Extends g g'
      → i + rounds ≤ ga.length g
      → rounds ≤ rounds'
      → id_from ga address g x rounds i ≡ some id
      → id_from ga address g' x rounds' i ≡ some id
  unfolding id_from
  id_from_kept x zero rounds' i id e within le found = absurd (cc)
  id_from_kept x (suc rounds) zero i id e within le found = absurd (omega arith)
  id_from_kept {g} {g'} x (suc rounds) (suc rounds') i id e within le found =
      let same : address (ga.at_index g' i) ≡ address (ga.at_index g i) =
        ap address (e.kept i (omega arith)) in
      elim (ℕ_discrete (address (ga.at_index g i)) (address x)) [
        | yes hit ↦
            let found' : some (suc i) ≡ some id = ground (arith, hit, found) in
            ground (arith, same, hit, found')
        | no miss ↦
            let later : id_from ga address g x rounds (suc i) ≡ some id =
              ground (arith, miss, found) in
            let rest =
              id_from_kept x rounds rounds' (suc i) id e (omega arith) (omega arith) later in
            ground (arith, same, miss, rest)
      ]

  -- The loop over a table with a new entry at its end finds that, if it found nothing before.
  id_from_new :
      (g : G) (x : A) (rounds i : ℕ)
      → i + rounds ≡ ga.length g
      → id_from ga address g x rounds i ≡ none
      → id_from ga address (ga.append g x) x (suc rounds) i ≡ some (suc (ga.length g))
  unfolding id_from
  id_from_new g x zero i at_end out =
      let here : i ≡ ga.length g = omega (arith, at_end) in
      let last : address (ga.at_index (ga.append g x) i) ≡ address x =
        ap (λ n. address (ga.at_index (ga.append g x) n)) here
        ∙ ap address (laws.at_index-append_last g x) in
      ground (arith, last, here)
  id_from_new g x (suc rounds) i at_end out =
      let same : address (ga.at_index (ga.append g x) i) ≡ address (ga.at_index g i) =
        ap address (laws.at_index-append g x i (omega (arith, at_end))) in
      elim (ℕ_discrete (address (ga.at_index g i)) (address x)) [
        | yes hit ↦ absurd (let bad : some (suc i) ≡ none = ground (arith, hit, out) in cc)
        | no miss ↦
            let later : id_from ga address g x rounds (suc i) ≡ none = ground (arith, miss, out) in
            let rest = id_from_new g x rounds (suc i) (omega (arith, at_end)) later in
            ground (arith, same, miss, rest)
      ]

  -- A registered address is found from then on.
  id_for_found :
      (table : Option G) (fn : A)
      → let (id, g) = trampoline_id_for ga address table fn in
        id_from ga address g fn (ga.length g) 0 ≡ some id
  unfolding trampoline_id_for opened
  id_for_found table fn =
      let g = opened ga address 64 table in
      elim (Option-cases (id_from ga address g fn (ga.length g) 0)) [
        | inr (id, e) ↦ rw (trampoline_id_for, e) e
        | inl out ↦
            rw (trampoline_id_for, out, laws.length-append g fn)
              (id_from_new g fn (ga.length g) 0 (omega arith) out)
      ]

  -- A registration of an address that the table has gives the id of its first entry, and leaves the
  -- table alone.
  id_for_again :
      (g : G) (fn : A) (id : ℕ)
      → id_from ga address g fn (ga.length g) 0 ≡ some id
      → trampoline_id_for ga address (some g) fn ≡ (id, g)
  unfolding opened trampoline_id_for
  id_for_again g fn id e = rw (trampoline_id_for, e)

  -- The id that `cap_trampoline_id_for` gives for a function: whatever is registered afterwards,
  -- `cap_trampoline_dispatch` of it does not abort and calls a function of that address, and to
  -- register the function again gives the same id and leaves the table alone.
  pub dispatch-id_for :
      {B : Type 0} (call : A → B) (table : Option G) (fn : A) {g : G}
      → Later (trampoline_id_for ga address table fn).1 g
      → (f : A) × (address f ≡ address fn)
        × (trampoline_dispatch ga address call
              (some g)
              (pos (trampoline_id_for ga address table fn).0)
            ≡ some (call f))
        × (trampoline_id_for ga address (some g) fn
            ≡ ((trampoline_id_for ga address table fn).0, g))
  unfolding trampoline_dispatch
  dispatch-id_for call table fn {g} l =
      let r = id_for-Registered table fn in
      let e = Extends-Later l in
      let id = (trampoline_id_for ga address table fn).0 in
      let same = e.kept (id - 1) (omega (arith, r.low, r.high)) in
      (
        ga.at_index g (id - 1),
        ap address same ∙ r.entry,
        ground (arith, r.low, r.high, e.longer),
        id_for_again g fn id (
            id_from_kept fn (ga.length (trampoline_id_for ga address table fn).1) (ga.length g) 0 id
              e (omega arith) e.longer (id_for_found table fn)),
      )

  -- `cap_data_id_for` on a table within its capacity: an id of an entry with the address, in a table
  -- that keeps all entries and stays within the capacity; it fails only if the table is full.
  pub data_id_for_lem :
      (table : Option G) (global : A)
      → ga.length (opened ga address cap_data_table_capacity table) ≤ cap_data_table_capacity
      → let g = opened ga address cap_data_table_capacity table in
        ((out : ℕ × G) × (data_id_for ga address table global ≡ some out)
          × Registered g global out
          × (ga.length out.1 ≤ cap_data_table_capacity))
        ⊎ ((data_id_for ga address table global ≡ none) × (ga.length g ≡ cap_data_table_capacity))
  unfolding data_id_for
  data_id_for_lem table global within =
      let g = opened ga address cap_data_table_capacity table in
      elim (Option-cases (id_from ga address g global (ga.length g) 0)) [
        | inr (id, e) ↦ inl ((id, g), rw (data_id_for, e), found-Registered g global id e, within)
        | inl out ↦ elim (dec_lt (ga.length g) cap_data_table_capacity) [
          | yes lt ↦ inl (
            (ga.length (ga.append g global), ga.append g global),
            ground (arith, out, lt),
            append-Registered g global,
            omega (arith, laws.length-append g global, lt),
          )
          | no ge ↦ inr (ground (arith, out, ge), omega (arith, within, ge))
        ]
      ]
