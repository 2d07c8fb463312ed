-- ===== src/CapRuntime/Relocation/Race/Invariant.antt =====
-- The invariant of racing threads, and what the two kinds of store and the other steps make of it.
use stopless_java_gc.Base.{
  ℕ, ◌≡◌, ◌≢◌, ◌⊎◌, sym, ap, ◌∙◌, inl, inr, none, some, List, [], ◌∷◌, ℕ_discrete, arith, eq→==,
  ne→==, update, some_inj,
}
use stopless_java_gc.CapRuntime.Relocation.{Slot, Table, slot_at, key_at, seek}
use stopless_java_gc.CapRuntime.Relocation.Seek.{IsValid}
use stopless_java_gc.CapRuntime.Relocation.Race.Defs.{
  Answer, Shared, Thread, idle, trying, checking, filling, counting, finding, fetching,
}
use stopless_java_gc.CapRuntime.Relocation.Race.Store.{In, owner, Holds, Fine}

module _ {C : Type 0} (null : C) (addr : C → ℕ) (start : Table C) where
  -- what a slot held at the start
  abbrev pub initial : ℕ → C
  initial i = (slot_at null start.slots i).to_cap

  -- A call of `lookup` returns what was stored for its address when it began. If nothing was, it
  -- returns its argument, what some slot held at the start, or what has been stored since.
  abbrev pub Settled : List (ℕ × C) → Answer C → Type 0
  Settled log r =
      ((c : C) → r.promised ≡ some c → r.found ≡ c)
      × ((r.found ≡ r.from) ⊎ (((i : ℕ) × (r.found ≡ initial i)) ⊎ In (addr r.from) r.found log))

  abbrev pub AllSettled : List (ℕ × C) → List (Answer C) → Type 0
  AllSettled log [] = Unit
  AllSettled log (r ∷ rs) = Settled log r × AllSettled log rs

  pub AllSettled-log :
      (log : List (ℕ × C)) (k : ℕ) (c : C) (rs : List (Answer C))
      → AllSettled log rs
      → AllSettled ((k, c) ∷ log) rs
  AllSettled-log log k c [] h = tt
  AllSettled-log log k c (r ∷ rs) h = (
    (
      h.0.0,
      elim h.0.1 [
        | inl e ↦ inl e
        | inr later ↦ elim later [ inl old ↦ inr (inl old) | inr new ↦ inr (inr (inr new)) ]
      ],
    ),
    AllSettled-log log k c rs h.1,
  )

  -- A pair of the log stands in a slot that no thread is about to fill.
  abbrev pub Stands : Table C → (ℕ → Thread C) → ℕ → C → Type 0
  Stands t pc key c =
      (i : ℕ) × Holds null addr t key i
      × ((slot_at null t.slots i).to_cap ≡ c)
      × ((j : ℕ) → owner (pc j) ≢ some i)

  -- A slot holds what it held at the start, or what the log has for its address.
  abbrev pub Known : List (ℕ × C) → ℕ → Slot C → Type 0
  Known log i s = (s.to_cap ≡ initial i) ⊎ In s.from_addr s.to_cap log

  pub record Inv (m : Shared C) (pc : ℕ → Thread C) : Type 0 where
    pub valid : IsValid null m.table
    pub caps : (i : ℕ) → Known m.stored i (slot_at null m.table.slots i)
    pub entries : (key : ℕ) (c : C) → In key c m.stored → Stands m.table pc key c
    pub fine : (j : ℕ) → Fine null addr m.table m.stored (pc j)
    pub single : (i j x : ℕ) → owner (pc i) ≡ some x → owner (pc j) ≡ some x → i ≡ j
    pub settled : AllSettled m.stored m.answers

  -- the slot that a thread owns has an address
  pub owned_key :
      (t : Table C) (log : List (ℕ × C)) (p : Thread C) (x : ℕ)
      → Fine null addr t log p
      → owner p ≡ some x
      → key_at null t.slots x ≢ 0
  owned_key t log (filling key to i) x f o z =
      f.0 (sym f.2 ∙ (ap (key_at null t.slots) (some_inj o) ∙ z))
  owned_key t log idle x f o z = cc
  owned_key t log (trying from to d) x f o z = cc
  owned_key t log (checking from to d) x f o z = cc
  owned_key t log counting x f o z = cc
  owned_key t log (finding from d promised) x f o z = cc
  owned_key t log (fetching from i promised) x f o z = cc

  counted-IsValid :
      (t : Table C) (count : ℕ) → IsValid null t → IsValid null (record t { installed = count })
  unfolding seek
  counted-IsValid t count v = record {
    exponent = v.exponent;
    width = v.width;
    two = v.two;
    small = v.small;
    reach = v.reach;
  }

  counted-Fine :
      (t : Table C) (count : ℕ) (log : List (ℕ × C)) (p : Thread C)
      → Fine null addr t log p
      → Fine null addr (record t { installed = count }) log p
  counted-Fine t count log idle f = tt
  counted-Fine t count log (trying from to d) f = f
  counted-Fine t count log (checking from to d) f = f
  counted-Fine t count log (filling key to i) f = f
  counted-Fine t count log counting f = tt
  counted-Fine t count log (finding from d promised) f = f
  counted-Fine t count log (fetching from i promised) f = f

  module _ {m : Shared C} {pc : ℕ → Thread C} (inv : Inv m pc) (j : ℕ) where
    -- A thread moves that owns no slot afterwards, and stores to no slot.
    pub quiet :
        (count : ℕ) (rs : List (Answer C)) (p' : Thread C)
        → Fine null addr m.table m.stored p'
        → owner p' ≡ none
        → AllSettled m.stored rs
        → Inv
            (record m { table = record m.table { installed = count }; answers = rs })
            (update pc j p')
    quiet count rs p' f o s = record {
      valid = counted-IsValid m.table count inv.valid;
      caps = inv.caps;
      entries = λ key c e.
          let (i, holds, same, free) = inv.entries key c e in
          (
            i,
            holds,
            same,
            λ a. elim (ℕ_discrete j a) [
              | yes q ↦ rw (eq→== j a q) (λ x. absurd (cc))
              | no ne ↦ rw (ne→== j a ne) (free a)
            ],
          );
      fine = λ a. counted-Fine m.table count m.stored (update pc j p' a) (elim (ℕ_discrete j a) [
        | yes q ↦ rw (eq→== j a q) f
        | no ne ↦ rw (ne→== j a ne) (inv.fine a)
      ]);
      single = λ a b x oa ob. ground (arith, inv.single a b x);
      settled = s;
    }
