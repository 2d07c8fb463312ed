-- ===== src/Handler/Identity.antt =====
-- stopless_gc/handler.c: `stopless_acmp_eq`, reference comparison across moves.
use stopless_java_gc.Base.{
  ℕ, ◌+◌, ◌≤◌, ◌<◌, ◌≡◌, ◌≢◌, refl, sym, ap, ◌∙◌, subst, Bool, true, false, not, ◌&&◌, Option, none,
  some, ◌==◌, if◌then◌else◌, arith, word, add64, sub64, some_inj,
}
use stopless_java_gc.Cheri.{Cheri, Documented}
use stopless_java_gc.ForwardTable.{Table, find}
use stopless_java_gc.ForwardTable.State.{IsTable}
use stopless_java_gc.Forwarding.{Forwarding, chase_max, lookup}
use stopless_java_gc.Forwarding.Chase.{Leads, MovesUp, Leads_unique}
use stopless_java_gc.Forwarding.Lookup.{EntriesFit, lookup-Resolves, lookup_miss}
use stopless_java_gc.Handler.{State}

module _ {Cap : Type 0} ⦃ch : Cheri Cap⦄ where
  -- `cheri_tag_get(c) && cheri_perms_get(c) != 0`
  abbrev pub is_live : Cap → Bool
  is_live c = ch.tag c && not (ch.perms c == 0)

  -- `stopless_acmp_normalize`
  unfoldable pub acmp_normalize : Option Cap → Forwarding Cap → ℕ × Forwarding Cap
  acmp_normalize none f = (0, f)
  acmp_normalize (some c) f =
      if is_live c
      then (ch.address c, f)
      else (let (fwd, f') = lookup f (ch.base c) in
          elim fwd [
            | none ↦ (ch.address c, f')
            | some w ↦ (add64 (ch.address w) (sub64 (ch.address c) (ch.base c)), f')
          ])

  -- `stopless_acmp_eq`
  unfoldable pub acmp_eq : Option Cap → Option Cap → State Cap → Bool × State Cap
  acmp_eq a b s =
      let (x, f) = acmp_normalize a s.forwarding in
      let (y, f') = acmp_normalize b f in
      (x == y, record s { forwarding = f'; slowpath = add64 s.slowpath 1 })

  -- The address that a reference stands for: NULL for 0, a live capability for its address, as does a
  -- stale one to an object that did not move, and a stale one to an object that moved for the place at
  -- the same offset in the copy at the end of the chain.
  pub data Denotes (g : Table) : Option Cap → ℕ → Type 0 where
    null : Denotes g none 0
    live : (c : Cap) → is_live c ≡ true → Denotes g (some c) (ch.address c)
    unmoved :
        (c : Cap)
        → is_live c ≡ false
        → find g (ch.base c) ≡ none
        → Denotes g (some c) (ch.address c)
    moved :
        (c : Cap) {na nl n target extent : ℕ} (off : ℕ)
        → is_live c ≡ false
        → ch.base c ≢ 0
        → find g (ch.base c) ≡ some (na, nl)
        → Leads g n na nl target extent
        → ch.base c + off ≡ ch.address c
        → ch.address c < word
        → target + off < word
        → Denotes g (some c) (target + off)

  acmp_normalize_live :
      (c : Cap) (f : Forwarding Cap)
      → is_live c ≡ true
      → acmp_normalize (some c) f ≡ (ch.address c, f)
  unfolding acmp_normalize
  acmp_normalize_live c f e = rw e

  acmp_normalize_miss :
      (c : Cap) (f : Forwarding Cap)
      → is_live c ≡ false
      → lookup f (ch.base c) ≡ (none, f)
      → acmp_normalize (some c) f ≡ (ch.address c, f)
  unfolding acmp_normalize
  acmp_normalize_miss c f e out = ground (arith, e, out)

  acmp_normalize_hit :
      (c w : Cap) (f : Forwarding Cap)
      → is_live c ≡ false
      → lookup f (ch.base c) ≡ (some w, f)
      → acmp_normalize (some c) f ≡ (add64 (ch.address w) (sub64 (ch.address c) (ch.base c)), f)
  unfolding acmp_normalize
  acmp_normalize_hit c w f e hit = ground (arith, e, hit)

sum_lem :
    (z t a b off : ℕ)
    → z ≡ t
    → b + off ≡ a
    → a < word
    → t + off < word
    → add64 z (sub64 a b) ≡ t + off
sum_lem z t a b off e at_off small fits =
    let d : sub64 a b ≡ off = omega arith in rw (e, d) (omega arith)

module _ {Cap : Type 0} ⦃ch : Cheri Cap⦄ (doc : Documented ch) (base : Cap)
    (root : ch.tag base ≡ true) (f : Forwarding Cap) (rooted : f.arena_base ≡ some base)
    (h : IsTable f.table) (up : MovesUp f.table) (fit : EntriesFit doc base root f.table)
    (few : f.table.size ≤ chase_max) where
  acmp_normalize_lem : {c : Option Cap} {x : ℕ} → Denotes f.table c x → acmp_normalize c f ≡ (x, f)
  unfolding acmp_normalize
  acmp_normalize_lem null = refl
  acmp_normalize_lem (live c e) = acmp_normalize_live c f e
  acmp_normalize_lem (unmoved c e out) = acmp_normalize_miss c f e (lookup_miss f (ch.base c) out)
  acmp_normalize_lem
        (moved c {na} {nl} {n} {target} {extent} off e ne mapped chain at_off small fits) =
      let (w, run, r) =
        lookup-Resolves doc base root f rooted (ch.base c) na nl h up fit few ne mapped in
      let same : r.first ≡ (na, nl) = some_inj (sym r.mapped ∙ mapped) in
      let end : r.target ≡ target =
        ap (λ r. r.0)
          (Leads_unique
            (subst (λ (q : ℕ × ℕ). Leads f.table r.hops q.0 q.1 r.target r.extent) same r.chain)
            chain) in
      acmp_normalize_hit c w f e run
      ∙ ap (λ (y : ℕ). (y, f)) (sum_lem _ _ _ _ _ (r.tight.address ∙ end) at_off small fits)

  -- With a sound table, whose invariant holds, in which every move goes upwards and each pair is a range
  -- of the arena with exact bounds, with the arena's live capability set, and with at most FT_CHASE_MAX
  -- entries: `stopless_acmp_eq` of two references answers whether the addresses that they stand for are
  -- the same, and changes nothing but its counter. A live reference, or a stale one whose base is not in
  -- the table, stands for its own address; a stale one to a moved object for the same offset in the last
  -- copy, where that and its own address stay below 2 ^ 64.
  pub acmp_eq_lem :
      {a b : Option Cap} {x y : ℕ} (s : State Cap)
      → s.forwarding ≡ f
      → Denotes f.table a x
      → Denotes f.table b y
      → acmp_eq a b s ≡ (x == y, record s { slowpath = add64 s.slowpath 1 })
  unfolding acmp_eq
  acmp_eq_lem {a} {b} s e da db = ground (arith, e, acmp_normalize_lem da, acmp_normalize_lem db)
