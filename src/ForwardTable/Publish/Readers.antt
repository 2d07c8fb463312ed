-- ===== src/ForwardTable/Publish/Readers.antt =====
-- The readers, while the writer inserts new addresses only.
use stopless_java_gc.Base.{
  ℕ, zero, suc, ◌<◌, ◌≡◌, ◌≢◌, refl, sym, ◌∙◌, subst, ◌⊎◌, inl, inr, Option, none, some, List, [],
  ◌∷◌, length, arith, Option-cases, ne→==, eq→==, ℕ_discrete, get_or,
}
use stopless_java_gc.ForwardTable.{Slot, Table, slot_at, find}
use stopless_java_gc.ForwardTable.Slots.{IsValid, occurs?}
use stopless_java_gc.ForwardTable.State.{entry, find_present, find_absent}
use stopless_java_gc.ForwardTable.Race.Overwrite.{Passed, Stands}
use stopless_java_gc.ForwardTable.Race.Moves.{Probes-start, Probes-on, Stands-here}
use stopless_java_gc.ForwardTable.Race.Agreement.{counted, counted-IsTable}
use stopless_java_gc.ForwardTable.Publish.Defs.{
  Answer, Shared, Writer, Reader, now, Fresh, Reads, look, absent, off_end, skip, hit, unpublished,
  seen, measured, Reach, begin, wrote, read,
}
use stopless_java_gc.ForwardTable.Publish.Keys.{Holds, free-misses, all-misses}
use stopless_java_gc.ForwardTable.Publish.Writer.{
  table_at, Follows, Writes-Follows, Reads-Follows, Reach-Follows,
}
use stopless_java_gc.ForwardTable.Publish.Fill.{
  Shows, Fine, Fills, AsIfAtOnce, AllAtOnce, Since-IsValid, Writes-Fine,
}

module _ {k : ℕ} (m : Shared) (v : IsValid k m.array) where
  now_counted : (key : ℕ) → now m key ≡ find (counted m.array) key
  unfolding find
  now_counted key = refl

  -- What `ft_find` gives at once, of an address in a slot and of one in none.
  pub now_present : (i key : ℕ) → Stands m.array key i → now m key ≡ entry (slot_at m.array i)
  unfolding counted-IsTable
  now_present i key s =
      now_counted key ∙ find_present (counted-IsTable v) i key s.within s.from s.nonzero

  now-Shows : (key : ℕ) → key ≢ 0 → Shows m.array key (now m key)
  unfolding counted-IsTable
  now-Shows key ne some_now = elim (occurs? m.array key) [
    | inl (j, lj, e) ↦
        (j, lj, e, sym (now_present j key (record { nonzero = ne; within = lj; from = e })))
    | inr out ↦ absurd (some_now (now_counted key ∙ find_absent (counted-IsTable v) key out))
  ]

  -- What was found in a slot is there still.
  still :
      (key : ℕ) (before : Option (ℕ × ℕ))
      → key ≢ 0
      → Shows m.array key before
      → before ≢ none
      → now m key ≡ before
  still key before ne shows nb =
      let (j, lj, e, same) = shows nb in
      now_present j key (record { nonzero = ne; within = lj; from = e }) ∙ same

  -- A reader that returns without having met the address, which is in no slot.
  misses :
      (key : ℕ) (before : Option (ℕ × ℕ))
      → ¬ Holds m.array key
      → Shows m.array key before
      → ((none ≡ before) ⊎ (none ≡ now m key)) × (before ≢ none → none ≡ before)
  misses key before out shows =
      let gone : before ≢ none → none ≡ before =
        λ nb. let (j, lj, e, same) = shows nb in absurd (out (j, lj, e)) in
      (
        elim (Option-cases before) [
          | inl e ↦ inl (sym e)
          | inr (q, e) ↦ inl (gone (λ z. absurd (cc)))
        ],
        gone,
      )

  -- A step of a reader: what holds of it afterwards, and of its answer.
  Reads-Fine :
      {r r' : Reader} {m' : Shared}
      → Reads m r m' r'
      → Fine m.array r
      → AllAtOnce m.answers
      → Fine m'.array r' × AllAtOnce m'.answers
  Reads-Fine (look key ne) f old = ((Probes-start v key key ne ne, now-Shows key ne), old)
  Reads-Fine (absent {key} {d} {i} {before} l z) f old =
      let out = free-misses v key f.0.nonzero.0 d i f.0.here f.0.passed l z in
      (tt, (misses key before out f.1, old))
  Reads-Fine (off_end {key} {d} {i} {before} e) f old =
      let out = all-misses v key f.0.nonzero.0 (subst (Passed m.array key) e f.0.passed) in
      (tt, (misses key before out f.1, old))
  Reads-Fine (skip {key} {d} {i} l nz ne) f old = ((Probes-on v key key d i f.0 nz ne, f.1), old)
  Reads-Fine (hit {key} {d} {i} l nz e) f old = ((Stands-here v key i f.0.nonzero.0 e, f.1), old)
  Reads-Fine (unpublished {key} {i} {before} z) f old =
      let found : none ≡ now m key = sym (now_present i key f.0 ∙ ground (arith, z)) in
      (tt, ((inr found, λ nb. found ∙ still key before f.0.nonzero f.1 nb), old))
  Reads-Fine (seen nz) f old = ((f.0, f.1, nz, refl), old)
  Reads-Fine (measured {key} {i} {a} {before}) f old =
      let found : some (a, (slot_at m.array i).new_len) ≡ now m key =
        sym (now_present i key f.0 ∙ ground (arith, f.3, ne→== a 0 f.2)) in
      (tt, ((inr found, λ nb. found ∙ still key before f.0.nonzero f.1 nb), old))

-- A step of a reader is no store.
Reads-array : {m m' : Shared} {r r' : Reader} → Reads m r m' r' → m'.array ≡ m.array
Reads-array (look key ne) = refl
Reads-array (absent l z) = refl
Reads-array (off_end l) = refl
Reads-array (skip l nz ne) = refl
Reads-array (hit l nz e) = refl
Reads-array (unpublished z) = refl
Reads-array (seen nz) = refl
Reads-array measured = refl

record Inv (k : ℕ) (g : Table) (m : Shared) (w : Writer) (rs : ℕ → Reader) : Type 0 where
  pub follows : Follows k g m w
  pub fills : Fills m.array w
  pub fine : (i : ℕ) → Fine m.array (rs i)
  pub answered : AllAtOnce m.answers

module _ {k : ℕ} {t : List Slot} (v : IsValid k t) (size : ℕ) where
  Reach-Inv :
      {m : Shared} {w : Writer} {rs : ℕ → Reader}
      → Reach Fresh t size m w rs
      → Inv k (table_at t size) m w rs
  Reach-Inv begin = record {
    follows = Reach-Follows v size {allowed = Fresh} (λ t key ok. ok.0) begin;
    fills = tt;
    fine = λ i. tt;
    answered = tt;
  }
  Reach-Inv (wrote r st) =
      let inv = Reach-Inv r in
      let (fills, keep, same) = Writes-Fine inv.follows.valid st inv.follows.since inv.fills in
      record {
        follows = Writes-Follows (λ t key ok. ok.0) st inv.follows;
        fills = fills;
        fine = λ i. keep _ (inv.fine i);
        answered = subst AllAtOnce (sym same) inv.answered;
      }
  Reach-Inv (read {m} {w = w} {rs = rs} i {r} {r'} reached e st) =
      let inv = Reach-Inv reached in
      let v' = Since-IsValid m.array w inv.follows.valid inv.follows.since in
      let (fine, answered) =
        Reads-Fine m v' st (subst (Fine m.array) e (inv.fine i)) inv.answered in
      record {
        follows = Reads-Follows st inv.follows;
        fills = rw (Reads-array st) inv.fills;
        fine = λ j. elim (ℕ_discrete i j) [
          | yes q ↦ rw (eq→== i j q) fine
          | no ne ↦ rw (ne→== i j ne) (rw (Reads-array st) (inv.fine j))
        ];
        answered = answered;
      }

-- the answer of a call, the newest first
abbrev pub answer_at : List Answer → ℕ → Answer
answer_at rs i = get_or rs i (record { key = 0; before = none; found = none; after = none })

AllAtOnce-at : (rs : List Answer) (i : ℕ) → AllAtOnce rs → AsIfAtOnce (answer_at rs i)
AllAtOnce-at [] i h = (inl refl, λ nb. refl)
AllAtOnce-at (r ∷ rs) zero h = h.0
AllAtOnce-at (r ∷ rs) (suc i) h = AllAtOnce-at rs i h.1

module _ {k : ℕ} {t : List Slot} (v : IsValid k t) (size : ℕ) where
  -- The writer inserts nonzero addresses that no slot has yet, and any number of threads look
  -- addresses up meanwhile. Each call of `ft_find` finds what it would have found if it had run at
  -- once, when it began or when it returned; a pair that was there when it began it finds.
  pub readers_at_once :
      {m : Shared} {w : Writer} {rs : ℕ → Reader}
      → Reach Fresh t size m w rs
      → (i : ℕ) → i < length m.answers
      → let r = answer_at m.answers i in
        ((r.found ≡ r.before) ⊎ (r.found ≡ r.after)) × (r.before ≢ none → r.found ≡ r.before)
  readers_at_once {m} r i l = AllAtOnce-at m.answers i (Reach-Inv v size r).answered
