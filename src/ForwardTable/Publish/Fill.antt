-- ===== src/ForwardTable/Publish/Fill.antt =====
-- What holds of the readers while the writer fills a free slot, step by step.
use stopless_java_gc.Base.{
  ℕ, ◌-◌, ◌<◌, ◌≡◌, ◌≢◌, refl, sym, ap, ◌∙◌, subst, ◌⊎◌, inl, inr, Option, none, List, [], ◌∷◌,
  length, set, get_or-set_self, get_or-set_ne,
}
use stopless_java_gc.ForwardTable.{Slot, empty_slot, slot_at, key_at, home}
use stopless_java_gc.ForwardTable.Slots.{IsValid, search_stop, set-IsValid}
use stopless_java_gc.ForwardTable.State.{entry}
use stopless_java_gc.ForwardTable.Race.Overwrite.{Probes, Stands}
use stopless_java_gc.ForwardTable.Race.Moves.{pos_within}
use stopless_java_gc.ForwardTable.Publish.Defs.{
  Answer, Shared, Writer, Reader, idle, probing, storing_len, storing_addr, storing_key, counting,
  finding, reading, measuring, Fresh, Writes, call, exhausted, pass, stop, store_len, store_addr,
  store_key, count,
}
use stopless_java_gc.ForwardTable.Publish.Keys.{
  set-SameKeys, IsValid-SameKeys, Keeps, Keeps-set, Passed-Keeps,
}
use stopless_java_gc.ForwardTable.Publish.Writer.{Since, half, most, whole}

-- What a call would have found at its beginning, unless that is nothing, stands in a slot.
abbrev pub Shows : List Slot → ℕ → Option (ℕ × ℕ) → Type 0
Shows t key before =
    before ≢ none → (j : ℕ) × (j < length t) × (key_at t j ≡ key) × (entry (slot_at t j) ≡ before)

-- What holds of a reader at each point.
abbrev pub Fine : List Slot → Reader → Type 0
Fine t idle = Unit
Fine t (finding key d i before) = Probes t key key d i × Shows t key before
Fine t (reading key i before) = Stands t key i × Shows t key before
Fine t (measuring key i a before) =
    Stands t key i × Shows t key before × (a ≢ 0) × ((slot_at t i).new_addr ≡ a)

-- The writer is about to fill a slot that is free.
abbrev pub Fills : List Slot → Writer → Type 0
Fills t (probing key na nl d i) = (j : ℕ) → key_at t j ≢ key
Fills t (storing_len key na nl i k) = (i < length t) × (key_at t i ≡ 0)
Fills t (storing_addr key na nl i k) = (i < length t) × (key_at t i ≡ 0)
Fills t (storing_key key na nl i k) = (i < length t) × (key_at t i ≡ 0)
Fills t _ = Unit

-- A call of `ft_find` found what it would have found at its beginning or at its end, and no less than
-- at its beginning.
abbrev pub AsIfAtOnce : Answer → Type 0
AsIfAtOnce r = ((r.found ≡ r.before) ⊎ (r.found ≡ r.after)) × (r.before ≢ none → r.found ≡ r.before)

abbrev pub AllAtOnce : List Answer → Type 0
AllAtOnce [] = Unit
AllAtOnce (r ∷ rs) = AsIfAtOnce r × AllAtOnce rs

-- The slots are valid at each point of a call.
pub Since-IsValid :
    {k : ℕ} {t : List Slot} (u : List Slot) (w : Writer) → IsValid k t → Since t u w → IsValid k u
Since-IsValid {k} u idle v s = subst (IsValid k) (sym s) v
Since-IsValid {k} u (probing key na nl d i) v s = subst (IsValid k) (sym s.0) v
Since-IsValid {k} u (storing_len key na nl i x) v s = subst (IsValid k) (sym s.0) v
Since-IsValid {k} {t} u (storing_addr key na nl i x) v s = subst (IsValid k) (sym s.0) (
    IsValid-SameKeys (set t i (half t i nl)) v
      (set-SameKeys t i (half t i nl) (search_stop v key i s.1.ends).0 refl))
Since-IsValid {k} {t} u (storing_key key na nl i x) v s = subst (IsValid k) (sym s.0) (
    IsValid-SameKeys (set t i (most t i na nl)) v
      (set-SameKeys t i (most t i na nl) (search_stop v key i s.1.ends).0 refl))
Since-IsValid {k} {t} u (counting key na nl x) v (i, e, f) =
    subst (IsValid k) (sym e) (set-IsValid v key i (whole key na nl) f.nonzero f.ends refl)

module _ (t : List Slot) (i : ℕ) (s : Slot) (lt : i < length t) (free : key_at t i ≡ 0) where
  fill_Keeps : Keeps t (set t i s)
  fill_Keeps = Keeps-set t i s lt (λ ne. absurd (ne free))

  fill_elsewhere : (j : ℕ) → key_at t j ≢ 0 → slot_at (set t i s) j ≡ slot_at t j
  fill_elsewhere j ne = get_or-set_ne t i j s empty_slot (λ q. ne (ap (key_at t) (sym q) ∙ free))

  fill_here : slot_at (set t i s) i ≡ s
  fill_here = get_or-set_self t i s empty_slot lt

  fill_again : s.from_addr ≡ 0 → (i < length (set t i s)) × (key_at (set t i s) i ≡ 0)
  fill_again e = (rw fill_Keeps.same_length lt, ap (λ (r : Slot). r.from_addr) fill_here ∙ e)

  fill_Stands : {key j : ℕ} → Stands t key j → Stands (set t i s) key j
  fill_Stands {key} {j} p = record {
    nonzero = p.nonzero;
    within = rw fill_Keeps.same_length p.within;
    from = fill_Keeps.keeps j (λ z. p.nonzero (sym p.from ∙ z)) ∙ p.from;
  }

  fill_Shows :
      {key : ℕ} {before : Option (ℕ × ℕ)}
      → key ≢ 0
      → Shows t key before
      → Shows (set t i s) key before
  fill_Shows ne shows nb =
      let (j, lj, e, same) = shows nb in
      let nz : key_at t j ≢ 0 = λ z. ne (sym e ∙ z) in
      (
        j,
        rw fill_Keeps.same_length lj,
        fill_Keeps.keeps j nz ∙ e,
        ap entry (fill_elsewhere j nz) ∙ same,
      )

  -- A store to a free slot leaves what holds of every reader.
  pub fill_Fine : (r : Reader) → Fine t r → Fine (set t i s) r
  fill_Fine idle f = tt
  fill_Fine (finding key d j before) f = (
    record {
      nonzero = f.0.nonzero;
      here = rw fill_Keeps.same_length f.0.here;
      passed = Passed-Keeps fill_Keeps key d f.0.passed;
    },
    fill_Shows f.0.nonzero.0 f.1,
  )
  fill_Fine (reading key j before) f = (fill_Stands f.0, fill_Shows f.0.nonzero f.1)
  fill_Fine (measuring key j a before) f = (
    fill_Stands f.0,
    fill_Shows f.0.nonzero f.1,
    f.2,
    ap (λ (r : Slot). r.new_addr) (fill_elsewhere j (λ z. f.0.nonzero (sym f.0.from ∙ z))) ∙ f.3,
  )

-- A step of the writer keeps what holds of it, of the readers and of the slots.
pub Writes-Fine :
    {k : ℕ} {t : List Slot} {m m' : Shared} {w w' : Writer}
    → IsValid k t
    → Writes Fresh m w m' w'
    → Since t m.array w
    → Fills m.array w
    → Fills m'.array w'
      × ((r : Reader) → Fine m.array r → Fine m'.array r)
      × (m'.answers ≡ m.answers)
Writes-Fine v (call key na nl ok) s f = (ok.1, λ r h. h, refl)
Writes-Fine v (exhausted e) s f = (tt, λ r h. h, refl)
Writes-Fine v (pass l nz ne) s f = (f, λ r h. h, refl)
Writes-Fine {t = t} {m = m} v (stop {key} {d = d} {i = i} l e) s f =
    let within : i < length t = rw s.1.here (pos_within v (home (length t - 1) key) d) in
    let free : key_at m.array i ≡ 0 = elim e [ inl z ↦ z | inr q ↦ absurd (f i q) ] in
    ((subst (λ u. i < length u) (sym s.0) within, free), λ r h. h, refl)
Writes-Fine {m = m} v (store_len {nl = nl} {i = i}) s f =
    let u = record (slot_at m.array i) { new_len = nl } in
    (fill_again m.array i u f.0 f.1 f.1, fill_Fine m.array i u f.0 f.1, refl)
Writes-Fine {m = m} v (store_addr {na = na} {i = i}) s f =
    let u = record (slot_at m.array i) { new_addr = na } in
    (fill_again m.array i u f.0 f.1 f.1, fill_Fine m.array i u f.0 f.1, refl)
Writes-Fine {m = m} v (store_key {key = key} {i = i}) s f =
    let u = record (slot_at m.array i) { from_addr = key } in
    (tt, fill_Fine m.array i u f.0 f.1, refl)
Writes-Fine v count s f = (tt, λ r h. h, refl)
