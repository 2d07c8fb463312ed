-- ===== src/ForwardTable/Race/Moves.antt =====
-- Every step of a racing thread keeps the invariant.
use stopless_java_gc.Base.{
  ℕ, suc, ◌+◌, ◌-◌, ◌%◌, ◌<◌, ◌≡◌, ◌≢◌, inl, inr, refl, sym, ap, ◌∙◌, subst, true, false, none,
  some, List, length, set, length-set, update, ℕ_discrete, arith, get_or_beyond, dec_lt,
}
use native.Mathlib.Nat.{mod-lt, mod-add-mod}
use stopless_java_gc.ForwardTable.{Slot, empty_slot, slot_at, key_at, stops, home, advance}
use stopless_java_gc.ForwardTable.Probe.{pos, advance_lem, pos-zero, probe_first}
use stopless_java_gc.ForwardTable.Slots.{
  IsValid, search_of, search_present, set-IsValid, some_slots, home_lt,
}
use stopless_java_gc.ForwardTable.Race.Defs.{
  Shared, Pc, idle, claiming, publishing, linking, counting, mask, write, Move, call, exhausted,
  pass, meet, free, claim, late, beaten, put_len, put_addr, count, woken, look, absent, off_end,
  skip, hit, unpublished, seen, measured,
}
use stopless_java_gc.ForwardTable.Race.Overwrite.{
  Published, Owned, Probes, Stands, Fine, owner, Overwrites, written,
}
use stopless_java_gc.ForwardTable.Race.Invariant.{Inv, quiet, stores}

module _ {k : ℕ} {t : List Slot} (v : IsValid k t) where
  abbrev n : ℕ
  n = length t

  pub pos_within : (h d : ℕ) → pos n h d < n
  pos_within h d = mod-lt (h + d) (some_slots v)

  pub advance-pos : (h d : ℕ) → advance (n - 1) (pos n h d) ≡ pos n h (suc d)
  advance-pos h d =
      advance_lem k n v.width v.small (some_slots v) (pos n h d) (pos_within h d)
      ∙ (mod-add-mod (h + d) n 1 ∙ ap (λ (x : ℕ). x % n) (omega arith))

  pub Probes-start : (key na : ℕ) → key ≢ 0 → na ≢ 0 → Probes t key na 0 (home (n - 1) key)
  Probes-start key na ne nz = record {
    nonzero = (ne, nz);
    here = sym (pos-zero k n v.width v.small (some_slots v) _ (home_lt v key));
    passed = λ e l. elim l [ ];
  }

  pub Probes-on :
      (key na d i : ℕ)
      → Probes t key na d i
      → key_at t i ≢ 0
      → key_at t i ≢ key
      → Probes t key na (suc d) (advance (n - 1) i)
  Probes-on key na d i p occupied other = record {
    nonzero = p.nonzero;
    here = ap (advance (n - 1)) p.here ∙ advance-pos _ d;
    passed = λ e l. elim (ℕ_discrete e d) [
      | yes q ↦
          subst (λ j. stops t key j ≡ false) (p.here ∙ ap (pos n (home (n - 1) key)) (sym q))
            (ground (arith, occupied, other))
      | no ne ↦ p.passed e (omega arith)
    ];
  }

  -- Where the probe meets a free slot, the search for the address ends.
  pub claims_here :
      (key na d i : ℕ) → Probes t key na d i → d < n → key_at t i ≡ 0 → search_of t key ≡ some i
  claims_here key na d i p l z =
      probe_first k n v.width v.small (some_slots v) t key d n (home (n - 1) key) (home_lt v key) l
        (subst (λ j. stops t key j ≡ true) p.here (ground (arith, z))) p.passed
      ∙ ap some (sym p.here)

  pub Stands-here : (key i : ℕ) → key ≢ 0 → key_at t i ≡ key → Stands t key i
  Stands-here key i ne e = record {
    nonzero = ne;
    within = elim (dec_lt i n) [
      | yes l ↦ l
      | no beyond ↦
          absurd (ne (sym e ∙ ap (λ (r : Slot). r.from_addr) (get_or_beyond t i empty_slot beyond)))
    ];
    from = e;
  }

  -- A store to a slot that has its address keeps the slots valid.
  IsValid-at :
      (key i : ℕ) (s : Slot)
      → i < n
      → key ≢ 0
      → key_at t i ≡ key
      → s.from_addr ≡ key
      → IsValid k (set t i s)
  IsValid-at key i s l ne e named = set-IsValid v key i s ne (search_present v i key l e ne) named

module _ {k : ℕ} {m : Shared} {pc : ℕ → Pc} (inv : Inv k m pc) (i : ℕ) where
  unchanged : (p' : Pc) → Fine m.array p' → owner p' ≡ none → Inv k m (update pc i p')
  unchanged p' f o = quiet inv i m.size m.results p' f o inv.published

  claims :
      (key na nl d x : ℕ)
      → Fine m.array (claiming key na nl d x)
      → key_at m.array x ≡ 0
      → Inv k
          (write m x (record (slot_at m.array x) { from_addr = key }))
          (update pc i (publishing key na nl x))
  claims key na nl d x (p, l) z =
      let s : Slot = record (slot_at m.array x) { from_addr = key } in
      let within : x < length m.array = rw p.here (pos_within inv.valid (home (mask m) key) d) in
      let w : Overwrites m.array x s = record {
        within = within;
        keeps = inl z;
        unread = inv.blank x z;
      } in
      stores inv i x s (publishing key na nl x) w
        (set-IsValid inv.valid key x s p.nonzero.0 (claims_here inv.valid key na d x p l z) refl)
        p.nonzero.0 (inr z)
        (record {
          nonzero = p.nonzero;
          within = rw (length-set m.array x s) within;
          from = ap (λ (r : Slot). r.from_addr) (written w);
          unread = ap (λ (r : Slot). r.new_addr) (written w) ∙ inv.blank x z;
        })
        (inl refl)

  module _ (key na nl x : ℕ) (own : Owned m.array key na x) where
    owned_store : (s : Slot) → s.from_addr ≡ key → Overwrites m.array x s
    owned_store s e = record {
      within = own.within;
      keeps = inr (own.from ∙ sym e);
      unread = own.unread;
    }

    puts_len :
        owner (pc i) ≡ some x
        → Inv k
            (write m x (record (slot_at m.array x) { new_len = nl }))
            (update pc i (linking key na nl x))
    puts_len mine =
        let s : Slot = record (slot_at m.array x) { new_len = nl } in
        let w = owned_store s own.from in
        stores inv i x s (linking key na nl x) w
          (IsValid-at inv.valid key x s own.within own.nonzero.0 own.from own.from)
          (λ z. own.nonzero.0 (sym own.from ∙ z)) (inl mine)
          (
            record {
              nonzero = own.nonzero;
              within = rw (length-set m.array x s) own.within;
              from = ap (λ (r : Slot). r.from_addr) (written w) ∙ own.from;
              unread = ap (λ (r : Slot). r.new_addr) (written w) ∙ own.unread;
            },
            ap (λ (r : Slot). r.new_len) (written w),
          )
          (inl refl)

    puts_addr :
        owner (pc i) ≡ some x
        → (slot_at m.array x).new_len ≡ nl
        → Inv k
            (write m x (record (slot_at m.array x) { new_addr = na }))
            (update pc i (counting key na nl))
    puts_addr mine len =
        let s : Slot = record (slot_at m.array x) { new_addr = na } in
        let w = owned_store s own.from in
        stores inv i x s (counting key na nl) w
          (IsValid-at inv.valid key x s own.within own.nonzero.0 own.from own.from)
          (λ z. own.nonzero.0 (sym own.from ∙ z)) (inl mine)
          (record {
            at = x;
            within = rw (length-set m.array x s) own.within;
            nonzero = own.nonzero;
            from = ap (λ (r : Slot). r.from_addr) (written w) ∙ own.from;
            addr = ap (λ (r : Slot). r.new_addr) (written w);
            len = ap (λ (r : Slot). r.new_len) (written w) ∙ len;
          })
          (inr refl)

  -- Every step keeps the invariant.
  pub Move-Inv :
      {p p' : Pc} {m' : Shared}
      → Move m p m' p'
      → pc i ≡ p
      → Fine m.array p
      → Inv k m' (update pc i p')
  Move-Inv (call key na nl ne nz) e f = unchanged _ (Probes-start inv.valid key na ne nz) refl
  Move-Inv (exhausted l) e f = unchanged _ tt refl
  Move-Inv (pass {key} {na} {d = d} {i = x} l nz ne) e f =
      unchanged _ (Probes-on inv.valid key na d x f nz ne) refl
  Move-Inv (meet l q) e f = unchanged _ f.nonzero.0 refl
  Move-Inv (free l q) e f = unchanged _ (f, l) refl
  Move-Inv (claim {key} {na} {nl} {d} {i = x} z) e f = claims key na nl d x f z
  Move-Inv (late nz q) e f = unchanged _ f.0.nonzero.0 refl
  Move-Inv (beaten {key} {na} {d = d} {i = x} nz ne) e f =
      unchanged _ (Probes-on inv.valid key na d x f.0 nz ne) refl
  Move-Inv (put_len {key} {na} {nl} {i = x}) e f = puts_len key na nl x f (ap owner e)
  Move-Inv (put_addr {key} {na} {nl} {i = x}) e f = puts_addr key na nl x f.0 (ap owner e) f.1
  Move-Inv (count {key} {na} {nl}) e f = quiet inv i _ _ idle tt refl (f, inv.published)
  Move-Inv (woken nz) e f = unchanged _ f refl
  Move-Inv (look key ne) e f = unchanged _ ne refl
  Move-Inv (absent z) e f = unchanged _ tt refl
  Move-Inv (off_end l) e f = unchanged _ tt refl
  Move-Inv (skip nz ne) e f = unchanged _ f refl
  Move-Inv (hit {key} {i = x} q) e f = unchanged _ (Stands-here inv.valid key x f q) refl
  Move-Inv (unpublished z) e f = unchanged _ tt refl
  Move-Inv (seen nz) e f = unchanged _ (f, nz, refl) refl
  Move-Inv (measured {key} {i = x} {a}) e f =
      let entry : Published m.array key a (slot_at m.array x).new_len = record {
        at = x;
        within = f.0.within;
        nonzero = (f.0.nonzero, f.1);
        from = f.0.from;
        addr = f.2;
        len = refl;
      } in
      quiet inv i _ _ idle tt refl (entry, inv.published)
