-- ===== src/ForwardTable/Race/Overwrite.antt =====
-- What a store by the winner leaves to the other threads.
use stopless_java_gc.Base.{
  ℕ, ◌-◌, ◌<◌, ◌≡◌, ◌≢◌, ◌⊎◌, inl, inr, sym, ap, ◌∙◌, subst, false, Option, none, some, List,
  length, set, length-set, get_or-set_self, get_or-set_ne, ℕ_discrete, arith,
}
use stopless_java_gc.ForwardTable.{Slot, empty_slot, slot_at, key_at, stops, home}
use stopless_java_gc.ForwardTable.Probe.{pos}
use stopless_java_gc.ForwardTable.Race.Defs.{
  Pc, idle, probing, claiming, publishing, linking, counting, waiting, finding, reading, measuring,
}

-- The entry stands in a slot, for good.
pub record Published (t : List Slot) (key na nl : ℕ) : Type 0 where
  pub at : ℕ
  pub within : at < length t
  pub nonzero : (key ≢ 0) × (na ≢ 0)
  pub from : key_at t at ≡ key
  pub addr : (slot_at t at).new_addr ≡ na
  pub len : (slot_at t at).new_len ≡ nl

-- All slots before a round hold other addresses.
abbrev pub Passed : List Slot → ℕ → ℕ → Type 0
Passed t key d = (e : ℕ) → e < d → stops t key (pos (length t) (home (length t - 1) key) e) ≡ false

-- A slot that a thread has claimed, and that no one reads yet.
pub record Owned (t : List Slot) (key na i : ℕ) : Type 0 where
  pub nonzero : (key ≢ 0) × (na ≢ 0)
  pub within : i < length t
  pub from : key_at t i ≡ key
  pub unread : (slot_at t i).new_addr ≡ 0

pub record Probes (t : List Slot) (key na d i : ℕ) : Type 0 where
  pub nonzero : (key ≢ 0) × (na ≢ 0)
  pub here : i ≡ pos (length t) (home (length t - 1) key) d
  pub passed : Passed t key d

pub record Stands (t : List Slot) (key i : ℕ) : Type 0 where
  pub nonzero : key ≢ 0
  pub within : i < length t
  pub from : key_at t i ≡ key

-- What holds of a thread at each point.
abbrev pub Fine : List Slot → Pc → Type 0
Fine t idle = Unit
Fine t (probing key na nl d i) = Probes t key na d i
Fine t (claiming key na nl d i) = Probes t key na d i × (d < length t)
Fine t (publishing key na nl i) = Owned t key na i
Fine t (linking key na nl i) = Owned t key na i × ((slot_at t i).new_len ≡ nl)
Fine t (counting key na nl) = Published t key na nl
Fine t (waiting key i) = key ≢ 0
Fine t (finding key d i) = key ≢ 0
Fine t (reading key i) = Stands t key i
Fine t (measuring key i a) = Stands t key i × (a ≢ 0) × ((slot_at t i).new_addr ≡ a)

-- the slot that a thread has claimed
abbrev pub owner : Pc → Option ℕ
owner (publishing key na nl i) = some i
owner (linking key na nl i) = some i
owner _ = none

-- A store that keeps the address of an occupied slot, to a slot that is not readable yet.
pub record Overwrites (t : List Slot) (i : ℕ) (s : Slot) : Type 0 where
  pub within : i < length t
  pub keeps : (key_at t i ≡ 0) ⊎ (key_at t i ≡ s.from_addr)
  pub unread : (slot_at t i).new_addr ≡ 0

module _ {t : List Slot} {i : ℕ} {s : Slot} (w : Overwrites t i s) where
  same_length : length (set t i s) ≡ length t
  same_length = length-set t i s

  pub written : slot_at (set t i s) i ≡ s
  written = get_or-set_self t i s empty_slot w.within

  pub elsewhere : (j : ℕ) → i ≢ j → slot_at (set t i s) j ≡ slot_at t j
  elsewhere j ne = get_or-set_ne t i j s empty_slot ne

  keeps_key : (j : ℕ) → key_at t j ≢ 0 → key_at (set t i s) j ≡ key_at t j
  keeps_key j nz = elim (ℕ_discrete i j) [
    | no ne ↦ ap (λ (r : Slot). r.from_addr) (elsewhere j ne)
    | yes e ↦
        let there : key_at (set t i s) j ≡ s.from_addr =
          ap (λ (r : Slot). r.from_addr) (subst (λ j. slot_at (set t i s) j ≡ s) e written) in
        elim w.keeps [
          | inl z ↦ absurd (nz (ap (key_at t) (sym e) ∙ z))
          | inr k ↦ there ∙ (sym k ∙ ap (key_at t) e)
        ]
  ]

  keeps_slot : (j : ℕ) → (slot_at t j).new_addr ≢ 0 → slot_at (set t i s) j ≡ slot_at t j
  keeps_slot j nz = elsewhere j (λ e. nz (ap (λ j. (slot_at t j).new_addr) (sym e) ∙ w.unread))

  pub Published-write : {key na nl : ℕ} → Published t key na nl → Published (set t i s) key na nl
  Published-write p =
      let same = keeps_slot p.at (λ z. p.nonzero.1 (sym p.addr ∙ z)) in
      record {
        at = p.at;
        within = rw same_length p.within;
        nonzero = p.nonzero;
        from = ap (λ (r : Slot). r.from_addr) same ∙ p.from;
        addr = ap (λ (r : Slot). r.new_addr) same ∙ p.addr;
        len = ap (λ (r : Slot). r.new_len) same ∙ p.len;
      }

  passes_still : (key j : ℕ) → stops t key j ≡ false → stops (set t i s) key j ≡ false
  passes_still key j e =
      let same : key_at (set t i s) j ≡ key_at t j = keeps_key j (λ z. absurd (ground arith)) in
      rw same e

  Probes-write : {key na d j : ℕ} → Probes t key na d j → Probes (set t i s) key na d j
  Probes-write {key} p = record {
    nonzero = p.nonzero;
    here = rw same_length p.here;
    passed = λ e l. rw same_length (passes_still key _ (p.passed e l));
  }

  Stands-write : {key j : ℕ} → Stands t key j → Stands (set t i s) key j
  Stands-write {key} {j} p = record {
    nonzero = p.nonzero;
    within = rw same_length p.within;
    from = keeps_key j (λ z. p.nonzero (sym p.from ∙ z)) ∙ p.from;
  }

  Owned-write : {key na j : ℕ} → i ≢ j → Owned t key na j → Owned (set t i s) key na j
  Owned-write {key} {na} {j} ne p = record {
    nonzero = p.nonzero;
    within = rw same_length p.within;
    from = ap (λ (r : Slot). r.from_addr) (elsewhere j ne) ∙ p.from;
    unread = ap (λ (r : Slot). r.new_addr) (elsewhere j ne) ∙ p.unread;
  }

  -- The store leaves what holds of every thread that does not own the slot.
  pub Fine-write : (p : Pc) → owner p ≢ some i → Fine t p → Fine (set t i s) p
  Fine-write idle o f = tt
  Fine-write (probing key na nl d j) o f = Probes-write f
  Fine-write (claiming key na nl d j) o f = (Probes-write f.0, rw same_length f.1)
  Fine-write (publishing key na nl j) o f = Owned-write (λ e. o (ap some (sym e))) f
  Fine-write (linking key na nl j) o f =
      let ne : i ≢ j = λ e. o (ap some (sym e)) in
      (Owned-write ne f.0, ap (λ (r : Slot). r.new_len) (elsewhere j ne) ∙ f.1)
  Fine-write (counting key na nl) o f = Published-write f
  Fine-write (waiting key j) o f = f
  Fine-write (finding key d j) o f = f
  Fine-write (reading key j) o f = Stands-write f
  Fine-write (measuring key j a) o f = (
    Stands-write f.0,
    f.1,
    ap (λ (r : Slot). r.new_addr) (keeps_slot j (λ z. f.1 (sym f.2 ∙ z))) ∙ f.2,
  )
