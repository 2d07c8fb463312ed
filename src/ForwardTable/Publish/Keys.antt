-- ===== src/ForwardTable/Publish/Keys.antt =====
-- What the probes of other threads see of a store: the addresses in the slots.
use stopless_java_gc.Base.{
  ℕ, zero, suc, ◌-◌, ◌<◌, ◌≡◌, ◌≢◌, refl, sym, ap, ◌∙◌, subst, true, false, some, List, length, set,
  length-set, get_or-set_self, get_or-set_ne, ℕ_discrete, arith, some_inj,
}
use stopless_java_gc.ForwardTable.{Slot, empty_slot, key_at, stops, probe, home}
use stopless_java_gc.ForwardTable.Probe.{pos, pos_hit, probe_first}
use stopless_java_gc.ForwardTable.Slots.{IsValid, search_of, search_present, some_slots, home_lt}
use stopless_java_gc.ForwardTable.Race.Overwrite.{Passed}

-- Two arrays with the same addresses in the same slots.
abbrev pub SameKeys : List Slot → List Slot → Type 0
SameKeys t u = (length u ≡ length t) × ((j : ℕ) → key_at u j ≡ key_at t j)

probe-SameKeys :
    (t u : List Slot)
    → ((j : ℕ) → key_at u j ≡ key_at t j)
    → (mask key rounds i : ℕ) → probe u mask key rounds i ≡ probe t mask key rounds i
unfolding probe
probe-SameKeys t u same mask key zero i = refl
probe-SameKeys t u same mask key (suc rounds) i =
    rw (same i, probe-SameKeys t u same mask key rounds _)

pub search-SameKeys :
    (t u : List Slot) → SameKeys t u → (key : ℕ) → search_of u key ≡ search_of t key
search-SameKeys t u (len, same) key = rw len (probe-SameKeys t u same _ key _ _)

pub IsValid-SameKeys :
    {k : ℕ} {t : List Slot} (u : List Slot) → IsValid k t → SameKeys t u → IsValid k u
IsValid-SameKeys {k} {t} u v s = record {
  width = s.0 ∙ v.width;
  small = rw s.0 v.small;
  reach = λ i lt ne.
      rw (search-SameKeys t u s (key_at u i), s.1 i)
        (v.reach i (rw (s.0) at lt) (rw (s.1 i) at ne));
}

-- A store that leaves the address of a slot.
pub set-SameKeys :
    (t : List Slot) (i : ℕ) (s : Slot)
    → i < length t
    → s.from_addr ≡ key_at t i
    → SameKeys t (set t i s)
set-SameKeys t i s lt e = (
  length-set t i s,
  λ j. elim (ℕ_discrete i j) [
    | yes q ↦
        subst (λ j. key_at (set t i s) j ≡ key_at t j) q
          (ap (λ (r : Slot). r.from_addr) (get_or-set_self t i s empty_slot lt) ∙ e)
    | no ne ↦ ap (λ (r : Slot). r.from_addr) (get_or-set_ne t i j s empty_slot ne)
  ],
)

-- An array that has kept each address that was in a slot.
pub record Keeps (t u : List Slot) : Type 0 where
  pub same_length : length u ≡ length t
  pub keeps : (j : ℕ) → key_at t j ≢ 0 → key_at u j ≡ key_at t j

pub Keeps-set :
    (t : List Slot) (i : ℕ) (s : Slot)
    → i < length t
    → (key_at t i ≢ 0 → s.from_addr ≡ key_at t i)
    → Keeps t (set t i s)
Keeps-set t i s lt e = record {
  same_length = length-set t i s;
  keeps = λ j nz. elim (ℕ_discrete i j) [
    | yes q ↦
        subst (λ j. key_at t j ≢ 0 → key_at (set t i s) j ≡ key_at t j) q
          (λ ne. ap (λ (r : Slot). r.from_addr) (get_or-set_self t i s empty_slot lt) ∙ e ne) nz
    | no ne ↦ ap (λ (r : Slot). r.from_addr) (get_or-set_ne t i j s empty_slot ne)
  ];
}

pub Passed-Keeps : {t u : List Slot} → Keeps t u → (key d : ℕ) → Passed t key d → Passed u key d
Passed-Keeps {t} {u} k key d p e l =
    let j = pos (length t) (home (length t - 1) key) e in
    let pass : stops t key j ≡ false = p e l in
    let same : key_at u j ≡ key_at t j = k.keeps j (λ z. absurd (ground (arith, pass))) in
    rw (k.same_length, same) pass

-- Some slot has the address.
abbrev pub Holds : List Slot → ℕ → Type 0
Holds t key = (j : ℕ) × (j < length t) × (key_at t j ≡ key)

pub Holds-Keeps : {t u : List Slot} → Keeps t u → (key : ℕ) → key ≢ 0 → Holds t key → Holds u key
Holds-Keeps k key ne (j, lt, e) = (j, rw k.same_length lt, k.keeps j (λ z. ne (sym e ∙ z)) ∙ e)

module _ {k : ℕ} {t : List Slot} (v : IsValid k t) (key : ℕ) (ne : key ≢ 0) where
  -- A probe that has passed all before a free slot, or all slots, has not missed the address.
  pub free-misses :
      (d i : ℕ)
      → i ≡ pos (length t) (home (length t - 1) key) d
      → Passed t key d
      → d < length t
      → key_at t i ≡ 0
      → ¬ Holds t key
  free-misses d i here p l z (j, lt, e) =
      let ends : search_of t key ≡ some i =
        probe_first k (length t) v.width v.small (some_slots v) t key d (length t)
          (home (length t - 1) key) (home_lt v key) l
          (subst (λ j. stops t key j ≡ true) here (ground (arith, z))) p
        ∙ ap some (sym here) in
      let same : i ≡ j = some_inj (sym ends ∙ search_present v j key lt e ne) in
      ne (sym e ∙ (ap (key_at t) (sym same) ∙ z))

  pub all-misses : Passed t key (length t) → ¬ Holds t key
  all-misses p (j, lt, e) =
      let (d, ld, at_d) =
        pos_hit k (length t) v.width v.small (some_slots v) (home (length t - 1) key) j
          (home_lt v key) lt in
      let pass : stops t key j ≡ false = subst (λ j. stops t key j ≡ false) at_d (p d ld) in
      absurd (ground (arith, e))
