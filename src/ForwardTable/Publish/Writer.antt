-- ===== src/ForwardTable/Publish/Writer.antt =====
-- The writer alone: between two calls the table is what the calls of `forward_table_insert` that have
-- returned make of it, one after the other.
use stopless_java_gc.Base.{
  ℕ, suc, ◌-◌, ◌<◌, ◌≡◌, ◌≢◌, refl, sym, ap, ◌∙◌, subst, ◌⊎◌, inl, inr, true, Option, none, some,
  List, [], ◌∷◌, length, set, length-set, set-set, get_or-set_self, arith, ◌==◌, if◌then◌else◌,
  add64,
}
use mathlib.Core.Bool.{true≢false}
use stopless_java_gc.ForwardTable.{
  Slot, Table, empty_slot, slot_at, key_at, seek, home, put, insert_at,
}
use stopless_java_gc.ForwardTable.Probe.{missed, stopped}
use stopless_java_gc.ForwardTable.Slots.{
  IsValid, search_of, search_stop, search_present, search-Outcome, set-IsValid,
}
use stopless_java_gc.ForwardTable.State.{seek_lem}
use stopless_java_gc.ForwardTable.Race.Defs.{Entry}
use stopless_java_gc.ForwardTable.Race.Overwrite.{Passed, Probes}
use stopless_java_gc.ForwardTable.Race.Moves.{Probes-start, Probes-on, claims_here, pos_within}
use stopless_java_gc.ForwardTable.Race.Agreement.{counted-IsTable}
use stopless_java_gc.ForwardTable.Publish.Defs.{
  Shared, Writer, Reader, idle, probing, storing_len, storing_addr, storing_key, counting, table_of,
  Allowed, Any, Answer, Writes, call, exhausted, pass, stop, store_len, store_addr, store_key,
  count, Reads, look, absent, off_end, skip, hit, unpublished, seen, measured, Reach, begin, wrote,
  read,
}

abbrev pub table_at : List Slot → ℕ → Table
table_at t size = record { slots = some t; capacity = length t; size = size }

-- What calls of `forward_table_insert` make of a table, the newest call first.
unfoldable pub replay : List Entry → Table → Option Table
replay [] g = some g
replay (e ∷ es) g = elim (replay es g) [
  | none ↦ none
  | some g' ↦ insert_at true g' e.key e.new_addr e.new_len
]

-- The slot at which the probe for the address ends, and the address that it has.
pub record Found (t : List Slot) (key i k : ℕ) : Type 0 where
  pub nonzero : key ≢ 0
  pub ends : search_of t key ≡ some i
  pub was : k ≡ key_at t i

abbrev pub half : List Slot → ℕ → ℕ → Slot
half t i nl = record (slot_at t i) { new_len = nl }

abbrev pub most : List Slot → ℕ → ℕ → ℕ → Slot
most t i na nl = record (slot_at t i) { new_addr = na; new_len = nl }

abbrev pub whole : ℕ → ℕ → ℕ → Slot
whole key na nl = record { from_addr = key; new_addr = na; new_len = nl }

-- How far the writer has come from the table between two calls, at each point.
abbrev pub Since : List Slot → List Slot → Writer → Type 0
Since t u idle = u ≡ t
Since t u (probing key na nl d i) = (u ≡ t) × Probes t key key d i
Since t u (storing_len key na nl i k) = (u ≡ t) × Found t key i k
Since t u (storing_addr key na nl i k) = (u ≡ set t i (half t i nl)) × Found t key i k
Since t u (storing_key key na nl i k) = (u ≡ set t i (most t i na nl)) × Found t key i k
Since t u (counting key na nl k) = (i : ℕ) × (u ≡ set t i (whole key na nl)) × Found t key i k

module _ {k : ℕ} {t : List Slot} (v : IsValid k t) where
  seek-search : (size key : ℕ) → seek (table_at t size) t key ≡ search_of t key
  unfolding seek counted-IsTable
  seek-search size key = seek_lem (counted-IsTable v) key

  -- A probe over all slots that none has stopped returns nothing.
  search-Passed : (key : ℕ) → Passed t key (length t) → search_of t key ≡ none
  search-Passed key p = elim (search-Outcome v key) [
    | missed out before ↦ out
    | stopped d ld out ends before ↦ absurd (true≢false (sym ends ∙ p d ld))
  ]

  insert_at_missed :
      (size key na nl : ℕ)
      → Passed t key (length t)
      → insert_at true (table_at t size) key na nl ≡ some (table_at t size)
  unfolding insert_at
  insert_at_missed size key na nl p = ground (arith, seek-search size key, search-Passed key p)

  insert_at_found :
      (size key na nl i k : ℕ)
      → Found t key i k
      → insert_at true (table_at t size) key na nl
        ≡ some (table_at (set t i (whole key na nl)) (if k == 0 then add64 size 1 else size))
  unfolding insert_at put
  insert_at_found size key na nl i k f =
      ground (arith, seek-search size key, f.ends, f.was, length-set t i (whole key na nl))

module _ {k : ℕ} {t : List Slot} (v : IsValid k t) where
  stops_here :
      (key d i : ℕ)
      → Probes t key key d i
      → d < length t
      → (key_at t i ≡ 0) ⊎ (key_at t i ≡ key)
      → search_of t key ≡ some i
  stops_here key d i p l (inl z) = claims_here v key key d i p l z
  stops_here key d i p l (inr e) =
      let within : i < length t = rw p.here (pos_within v (home (length t - 1) key) d) in
      search_present v i key within e p.nonzero.0

  -- A second store to the slot.
  pub rewrites :
      {key i k : ℕ} {u : List Slot} (f : Found t key i k) (s : Slot) (store : Slot → Slot)
      → u ≡ set t i s
      → set u i (store (slot_at u i)) ≡ set t i (store s)
  rewrites {key} {i} f s store e =
      let there : slot_at (set t i s) i ≡ s =
        get_or-set_self t i s empty_slot (search_stop v key i f.ends).0 in
      rw (e, there) (set-set t i s (store s))

-- The table between two calls, from which the writer has set out.
pub record Follows (k : ℕ) (g : Table) (m : Shared) (w : Writer) : Type 0 where
  pub base : List Slot
  pub valid : IsValid k base
  pub replayed : replay m.inserted g ≡ some (table_at base m.size)
  pub since : Since base m.array w

module _ {k : ℕ} {g : Table} {m : Shared} where
  -- A step of the writer that returns from no call.
  stays :
      {w : Writer} (f : Follows k g m w) (u : List Slot) (w' : Writer)
      → Since f.base u w'
      → Follows k g (record m { array = u }) w'
  stays f u w' s = record { base = f.base; valid = f.valid; replayed = f.replayed; since = s }

  pub Writes-Follows :
      {allowed : Allowed} (nonzero : (t : List Slot) (key : ℕ) → allowed t key → key ≢ 0)
      {w w' : Writer} {m' : Shared}
      → Writes allowed m w m' w'
      → Follows k g m w
      → Follows k g m' w'
  unfolding replay
  Writes-Follows nonzero (call key na nl ok) f =
      let ne : key ≢ 0 = nonzero m.array key ok in
      let start : Probes f.base key key 0 (home (length m.array - 1) key) =
        rw (f.since) (Probes-start f.valid key key ne ne) in
      stays f m.array (probing key na nl 0 _) (f.since, start)
  Writes-Follows nonzero (exhausted {key} {na} {nl} {d} {i} e) f = record {
    base = f.base;
    valid = f.valid;
    replayed =
        let over : Passed f.base key (length f.base) =
          subst (Passed f.base key) (e ∙ ap length f.since.0) f.since.1.passed in
        rw (replay, f.replayed) (insert_at_missed f.valid m.size key na nl over);
    since = f.since.0;
  }
  Writes-Follows nonzero (pass {key} {na} {nl} {d} {i} l nz ne) f =
      let on : Probes f.base key key (suc d) _ =
        Probes-on f.valid key key d i f.since.1 (subst (λ u. key_at u i ≢ 0) f.since.0 nz)
          (subst (λ u. key_at u i ≢ key) f.since.0 ne) in
      stays f m.array _ (f.since.0, rw f.since.0 on)
  Writes-Follows nonzero (stop {key} {na} {nl} {d} {i} l e) f =
      let found : Found f.base key i (key_at f.base i) = record {
        nonzero = f.since.1.nonzero.0;
        ends =
            stops_here f.valid key d i f.since.1 (subst (λ u. d < length u) f.since.0 l)
              (subst (λ u. (key_at u i ≡ 0) ⊎ (key_at u i ≡ key)) f.since.0 e);
        was = refl;
      } in
      stays f m.array _ (f.since.0, rw f.since.0 found)
  Writes-Follows nonzero (store_len {key} {na} {nl} {i} {k}) f =
      stays f _ (storing_addr key na nl i k) (ap (λ u. set u i (half u i nl)) f.since.0, f.since.1)
  Writes-Follows nonzero (store_addr {key} {na} {nl} {i} {k}) f =
      stays f _ (storing_key key na nl i k) (
        rewrites f.valid f.since.1 (half f.base i nl) (λ s. record s { new_addr = na }) f.since.0,
        f.since.1,
      )
  Writes-Follows nonzero (store_key {key} {na} {nl} {i} {k}) f = stays f _ (counting key na nl k) (
    i,
    rewrites f.valid f.since.1 (most f.base i na nl) (λ s. record s { from_addr = key }) f.since.0,
    f.since.1,
  )
  Writes-Follows nonzero (count {key} {na} {nl} {k = old}) f =
      let (i, e, found) = f.since in
      record {
        base = set f.base i (whole key na nl);
        valid = set-IsValid f.valid key i (whole key na nl) found.nonzero found.ends refl;
        replayed = rw (replay, f.replayed) (insert_at_found f.valid m.size key na nl i old found);
        since = e;
      }

  -- A reader changes neither the table nor the log of the writer.
  answers-Follows :
      {w : Writer} (answers : List Answer)
      → Follows k g m w
      → Follows k g (record m { answers = answers }) w
  answers-Follows answers f = record {
    base = f.base;
    valid = f.valid;
    replayed = f.replayed;
    since = f.since;
  }

  pub Reads-Follows :
      {r r' : Reader} {m' : Shared} {w : Writer}
      → Reads m r m' r'
      → Follows k g m w
      → Follows k g m' w
  Reads-Follows (look key ne) f = f
  Reads-Follows (absent l z) f = answers-Follows _ f
  Reads-Follows (off_end l) f = answers-Follows _ f
  Reads-Follows (skip l nz ne) f = f
  Reads-Follows (hit l nz e) f = f
  Reads-Follows (unpublished z) f = answers-Follows _ f
  Reads-Follows (seen nz) f = f
  Reads-Follows measured f = answers-Follows _ f

module _ {k : ℕ} {t : List Slot} (v : IsValid k t) (size : ℕ) where
  pub Reach-Follows :
      {allowed : Allowed} (nonzero : (t : List Slot) (key : ℕ) → allowed t key → key ≢ 0)
      {m : Shared} {w : Writer} {rs : ℕ → Reader}
      → Reach allowed t size m w rs
      → Follows k (table_at t size) m w
  unfolding replay
  Reach-Follows nonzero begin = record { base = t; valid = v; replayed = refl; since = refl }
  Reach-Follows nonzero (wrote r st) = Writes-Follows nonzero st (Reach-Follows nonzero r)
  Reach-Follows nonzero (read i r e st) = Reads-Follows st (Reach-Follows nonzero r)

  -- Whatever the readers do, and whatever nonzero addresses the writer inserts: whenever the writer is
  -- between two calls, the slots are valid, and the slots and the count are those that the calls of
  -- `forward_table_insert` that have returned leave when they run one after the other.
  pub steps-insert :
      {m : Shared} {rs : ℕ → Reader}
      → Reach Any t size m idle rs
      → IsValid k m.array × (replay m.inserted (table_at t size) ≡ some (table_of m))
  steps-insert {m} r =
      let f = Reach-Follows (λ t key ne. ne) r in
      (
        subst (IsValid k) (sym f.since) f.valid,
        f.replayed ∙ ap (λ u. some (table_at u m.size)) (sym f.since),
      )
