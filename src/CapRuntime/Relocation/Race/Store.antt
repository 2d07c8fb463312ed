-- ===== src/CapRuntime/Relocation/Race/Store.antt =====
-- What a store to a slot leaves to the other threads.
use stopless_java_gc.Base.{
  ℕ, ◌<◌, ◌≡◌, ◌≢◌, ◌⊎◌, sym, ap, ◌∙◌, subst, inl, inr, false, Option, none, some, List, [], ◌∷◌,
  length, length-set, set, ℕ_discrete, some_inj, eq→==, ne→==,
}
use stopless_java_gc.CapRuntime.Relocation.{Slot, Table, key_at, stops, seek}
use stopless_java_gc.CapRuntime.Relocation.Seek.{place, IsValid, seek-First}
use stopless_java_gc.CapRuntime.Relocation.Write.{hit_cases, off_p, key_p, passes}
use stopless_java_gc.CapRuntime.Relocation.Race.Defs.{
  Thread, idle, trying, checking, filling, counting, finding, fetching, stored_for,
}

-- The log has the pair.
abbrev pub In : {C : Type 0} → ℕ → C → List (ℕ × C) → Type 0
In key c [] = ⊥
In key c ((k, d) ∷ rest) = ((k ≡ key) × (d ≡ c)) ⊎ In key c rest

pub stored_for-In :
    {C : Type 0} (log : List (ℕ × C)) (key : ℕ) (c : C) → stored_for log key ≡ some c → In key c log
stored_for-In [] key c e = absurd (cc)
stored_for-In ((k, d) ∷ rest) key c e = elim (ℕ_discrete k key) [
  | yes q ↦ inl (q, some_inj (rw (eq→== k key q) at e))
  | no ne ↦ inr (stored_for-In rest key c (rw (ne→== k key ne) at e))
]

-- the slot that a thread has claimed
abbrev pub owner : {C : Type 0} → Thread C → Option ℕ
owner (filling key to i) = some i
owner _ = none

module _ {C : Type 0} (null : C) (addr : C → ℕ) where
  -- All slots before a round hold other addresses.
  abbrev pub Passed : Table C → ℕ → ℕ → Type 0
  Passed t key d = (e : ℕ) → e < d → stops null t.slots key (place null t key e) ≡ false

  -- What was stored for the address when a call began is in the log.
  abbrev pub Kept : C → Option C → List (ℕ × C) → Type 0
  Kept from promised log = (c : C) → promised ≡ some c → In (addr from) c log

  abbrev pub Holds : Table C → ℕ → ℕ → Type 0
  Holds t key i = (key ≢ 0) × (i < length t.slots) × (key_at null t.slots i ≡ key)

  -- What holds of a thread at each point.
  abbrev pub Fine : Table C → List (ℕ × C) → Thread C → Type 0
  Fine t log idle = Unit
  Fine t log (trying from to d) = (addr from ≢ 0) × Passed t (addr from) d
  Fine t log (checking from to d) =
      (addr from ≢ 0)
      × Passed t (addr from) d
      × (d < t.slots_count)
      × (key_at null t.slots (place null t (addr from) d) ≢ 0)
  Fine t log (filling key to i) = Holds t key i
  Fine t log counting = Unit
  Fine t log (finding from d promised) =
      (addr from ≢ 0) × Passed t (addr from) d × Kept from promised log
  Fine t log (fetching from i promised) = Holds t (addr from) i × Kept from promised log

  -- More in the log leaves what holds of a thread.
  pub Fine-log :
      (t : Table C) (log : List (ℕ × C)) (k : ℕ) (x : C) (p : Thread C)
      → Fine t log p
      → Fine t ((k, x) ∷ log) p
  Fine-log t log k x idle f = tt
  Fine-log t log k x (trying from to d) f = f
  Fine-log t log k x (checking from to d) f = f
  Fine-log t log k x (filling key to i) f = f
  Fine-log t log k x counting f = tt
  Fine-log t log k x (finding from d promised) f = (f.0, f.1, λ c e. inr (f.2 c e))
  Fine-log t log k x (fetching from i promised) f = (f.0, λ c e. inr (f.1 c e))

  module _ {t : Table C} (v : IsValid null t) (p count : ℕ) (w : Slot C) (nonzero : w.from_addr ≢ 0)
      (found : seek null t w.from_addr ≡ some p) where
    abbrev pub after : Table C
    after = record t { slots = set t.slots p w; installed = count }

    -- The store leaves the address of an occupied slot.
    pub keeps_key :
        (i : ℕ) → key_at null t.slots i ≢ 0 → key_at null after.slots i ≡ key_at null t.slots i
    keeps_key i nz = elim (ℕ_discrete p i) [
      | no ne ↦ ap (λ (r : Slot C). r.from_addr) (off_p v p count w nonzero found i ne)
      | yes e ↦
          elim (hit_cases null t.slots w.from_addr p (seek-First null t w.from_addr p found).hit) [
            | inl z ↦ absurd (nz (ap (key_at null t.slots) (sym e) ∙ z))
            | inr k ↦
                subst (λ q. key_at null after.slots q ≡ key_at null t.slots q) e
                  (key_p v p count w nonzero found ∙ sym k)
          ]
    ]

    Passed-store : (key d : ℕ) → Passed t key d → Passed after key d
    Passed-store key d f e l = passes v p count w nonzero found key (place null t key e) (f e l)

    Holds-store : (key i : ℕ) → Holds t key i → Holds after key i
    Holds-store key i (ne, lt, e) =
        (ne, rw (length-set t.slots p w) lt, keeps_key i (λ z. ne (sym e ∙ z)) ∙ e)

    -- The store leaves what holds of every thread.
    pub Fine-store : (log : List (ℕ × C)) (q : Thread C) → Fine t log q → Fine after log q
    Fine-store log idle f = tt
    Fine-store log (trying from to d) f = (f.0, Passed-store (addr from) d f.1)
    Fine-store log (checking from to d) f = (
      f.0,
      Passed-store (addr from) d f.1,
      f.2,
      λ z. f.3 (sym (keeps_key (place null t (addr from) d) f.3) ∙ z),
    )
    Fine-store log (filling key to i) f = Holds-store key i f
    Fine-store log counting f = tt
    Fine-store log (finding from d promised) f = (f.0, Passed-store (addr from) d f.1, f.2)
    Fine-store log (fetching from i promised) f = (Holds-store (addr from) i f.0, f.1)
