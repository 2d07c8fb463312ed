-- ===== src/Handler/Counters.antt =====
-- What the searches of `stopless_try_heal` leave alone, and what a call counts.
use stopless_java_gc.Base.{
  ℕ, zero, suc, ◌+◌, ◌≡◌, refl, ap, ◌∙◌, Bool, true, false, Option, none, some, if◌then◌else◌,
  add64, update, arith, Bool-cases, Option-cases, inl, inr, ◌⊎◌, ◌==◌, ltb, ◌&&◌,
}
use stopless_java_gc.Cheri.{Cheri}
use stopless_java_gc.Forwarding.{Forwarding, lookup}
use stopless_java_gc.Handler.{
  Context, Siginfo, State, Clock, Found, in_register, for_address, not_found, is_revocation,
  is_revoked, base_register, evacuate_base, forward, try_reg, scan, search_new, finish, account,
  heal_slot, probe_time, try_heal,
}

-- The fields that only a successful call writes.
pub record Untouched {Cap : Type 0} (s t : State Cap) : Type 0 where
  pub faults : t.faults ≡ s.faults
  pub self_heals : t.self_heals ≡ s.self_heals
  pub pending_slot : t.pending_slot ≡ s.pending_slot
  pub memory : t.memory ≡ s.memory

Untouched-refl : {Cap : Type 0} (s : State Cap) → Untouched s s
Untouched-refl s = record { faults = refl; self_heals = refl; pending_slot = refl; memory = refl }

keeps_forwarding :
    {Cap : Type 0} (s : State Cap) (f : Forwarding Cap) → Untouched s (record s { forwarding = f })
keeps_forwarding s f = record {
  faults = refl;
  self_heals = refl;
  pending_slot = refl;
  memory = refl;
}

Untouched-trans : {Cap : Type 0} {s t u : State Cap} → Untouched s t → Untouched t u → Untouched s u
Untouched-trans a b = record {
  faults = b.faults ∙ a.faults;
  self_heals = b.self_heals ∙ a.self_heals;
  pending_slot = b.pending_slot ∙ a.pending_slot;
  memory = b.memory ∙ a.memory;
}

abbrev Leaves : {Cap A : Type 0} → State Cap → A × State Cap → Type 0
Leaves s r = Untouched s r.1

-- What holds in both cases holds of the choice.
of_option :
    {A B : Type 0} (P : B → Type 0) (o : Option A) {n : B} {f : A → B}
    → P n
    → ((a : A) → P (f a))
    → P (elim o [ none ↦ n | some a ↦ f a ])
of_option P none p q = p
of_option P (some a) p q = q a

of_test : {B : Type 0} (P : B → Type 0) (b : Bool) {x y : B} → P x → P y → P (if b then x else y)
of_test P true p q = p
of_test P false p q = q

module _ {Cap : Type 0} ⦃ch : Cheri Cap⦄ where
  evacuate_base-Untouched : (c : Cap) (s : State Cap) → Untouched s (evacuate_base c s).1
  unfolding evacuate_base
  evacuate_base-Untouched c s = record {
    faults = ground arith;
    self_heals = ground arith;
    pending_slot = ground arith;
    memory = ground arith;
  }

  forward-Untouched : (c : Cap) (s : State Cap) → Untouched s (forward c s).1
  unfolding forward
  forward-Untouched c s =
      let a = ch.address c in
      let b = ch.base c in
      let f = (lookup s.forwarding b).1 in
      let s' : State Cap = record s { forwarding = f } in
      let s'' : State Cap = record s { forwarding = (lookup f a).1 } in
      let here : Untouched s s' = keeps_forwarding s f in
      let there : Untouched s s'' = keeps_forwarding s (lookup f a).1 in
      of_option (Leaves s) (lookup s.forwarding b).0
        (of_test (Leaves s) (a == b) (Untouched-trans here (evacuate_base-Untouched c s')) (
          of_option (Leaves s) (lookup f a).0
            (Untouched-trans there (evacuate_base-Untouched c s'')) (λ w. there)))
        (λ w. here)

  try_reg-Untouched : (ctx : Context Cap) (i : ℕ) (s : State Cap) → Untouched s (try_reg ctx i s).1
  unfolding try_reg
  try_reg-Untouched ctx i s = elim (Bool-cases (ltb i 30 && is_revoked (ctx.cap_x i))) [
    | inl e ↦ rw e (forward-Untouched (ctx.cap_x i) s)
    | inr e ↦ rw e (Untouched-refl s)
  ]

  scan_keeps :
      (ctx : Context Cap) (rounds i : ℕ) (s : State Cap) → Untouched s (scan ctx rounds i s).1
  unfolding scan
  scan_keeps ctx zero i s = Untouched-refl s
  scan_keeps ctx (suc rounds) i s =
      let s' = (try_reg ctx i s).1 in
      let here = try_reg-Untouched ctx i s in
      of_option (Leaves s) (try_reg ctx i s).0
        (Untouched-trans here (scan_keeps ctx rounds (i + 1) s')) (λ c. here)

  search_keeps :
      (insn si_addr : ℕ) (ctx : Context Cap) (s : State Cap)
      → Untouched s (search_new insn si_addr ctx s).1
  unfolding search_new
  search_keeps insn si_addr ctx s =
      let rn = base_register insn in
      let s₁ = (try_reg ctx rn s).1 in
      let s₂ = (scan ctx 30 0 s₁).1 in
      let f = (lookup s₂.forwarding si_addr).1 in
      let decoded = try_reg-Untouched ctx rn s in
      let scanned = Untouched-trans decoded (scan_keeps ctx 30 0 s₁) in
      let looked = Untouched-trans scanned (keeps_forwarding s₂ f) in
      of_option (Leaves s) (try_reg ctx rn s).0
        (of_option (Leaves s) (scan ctx 30 0 s₁).0
          (of_option (Leaves s) (lookup s₂.forwarding si_addr).0 looked (λ w. looked))
          (λ r. scanned))
        (λ c. decoded)

-- the memory once the pending slot, if there is one, has the new capability
abbrev pub healed_memory : {Cap : Type 0} → Option ℕ → (ℕ → Option Cap) → Cap → ℕ → Option Cap
healed_memory none memory new = memory
healed_memory (some p) memory new = update memory p (some new)

-- What a call of `stopless_try_heal` comes to: it heals, and counts one fault, puts one capability in
-- at most one register and in the pending slot, and clears that slot; or it changes neither the
-- context nor what `Untouched` lists.
pub data Heals {Cap : Type 0} (s : State Cap) (ctx : Context Cap)
    : Bool × Context Cap × State Cap → Type 0 where
  healed :
      {after : Context Cap} {t : State Cap} (new : Cap)
      → t.faults ≡ add64 s.faults 1
      → t.memory ≡ healed_memory s.pending_slot s.memory new
      → t.pending_slot ≡ none
      → ((after ≡ ctx) ⊎ ((i : ℕ) × (after ≡ record ctx { cap_x = update ctx.cap_x i new })))
      → Heals s ctx (true, after, t)
  unhealed : {t : State Cap} → Untouched s t → Heals s ctx (false, ctx, t)

module _ {Cap : Type 0} ⦃ch : Cheri Cap⦄ where
  account_faults :
      (clock : Clock) (c : Cap) (s : State Cap) → (account clock c s).faults ≡ add64 s.faults 1
  unfolding account heal_slot
  account_faults clock c s = ground arith

  account_slot : (clock : Clock) (c : Cap) (s : State Cap) → (account clock c s).pending_slot ≡ none
  unfolding account heal_slot
  account_slot clock c s = elim (Option-cases s.pending_slot) [
    | inl e ↦ ground (arith, e)
    | inr (p, e) ↦ ground (arith, e)
  ]

  account_memory :
      (clock : Clock) (c : Cap) (s : State Cap)
      → (account clock c s).memory ≡ healed_memory s.pending_slot s.memory c
  unfolding account heal_slot
  account_memory clock c s = elim (Option-cases s.pending_slot) [
    | inl e ↦ ground (arith, e)
    | inr (p, e) ↦ ground (arith, e)
  ]

  finish-Heals :
      (clock : Clock) (ctx : Context Cap) (found : Found Cap) (s t : State Cap)
      → Untouched s t
      → Heals s ctx (finish clock ctx found t)
  unfolding finish
  finish-Heals clock ctx (in_register i c) s t u =
      healed c (account_faults clock c t ∙ ap (λ (n : ℕ). add64 n 1) u.faults)
        (account_memory clock c t
          ∙ (ap (λ p. healed_memory p t.memory c) u.pending_slot
              ∙ ap (λ m. healed_memory s.pending_slot m c) u.memory))
        (account_slot clock c t) (inr (i, refl))
  finish-Heals clock ctx (for_address c) s t u =
      healed c (account_faults clock c t ∙ ap (λ (n : ℕ). add64 n 1) u.faults)
        (account_memory clock c t
          ∙ (ap (λ p. healed_memory p t.memory c) u.pending_slot
              ∙ ap (λ m. healed_memory s.pending_slot m c) u.memory))
        (account_slot clock c t) (inl refl)
  finish-Heals clock ctx not_found s t u = unhealed u

  -- Every call of `stopless_try_heal` either heals or leaves things as they were: on success the count
  -- of faults grows by one, and the pending slot and at most one register get one and the same
  -- capability; on failure the context, the counts of faults and of self-heals, the pending slot and
  -- the memory are unchanged.
  pub try_heal-Heals :
      (insn : ℕ) (clock : Clock) (si : Siginfo) (ctx : Context Cap) (s : State Cap)
      → Heals s ctx (try_heal insn clock si ctx s)
  unfolding try_heal
  try_heal-Heals insn clock si ctx s =
      let s₀ : State Cap = record s { time_heals = some (probe_time clock s) } in
      let probed : Untouched s s₀ = record {
        faults = refl;
        self_heals = refl;
        pending_slot = refl;
        memory = refl;
      } in
      let (found, s₁) = search_new insn si.si_addr ctx s₀ in
      of_test (Heals s ctx) (is_revocation si.si_code)
        (finish-Heals clock ctx found s s₁
          (Untouched-trans probed (search_keeps insn si.si_addr ctx s₀)))
        (unhealed (Untouched-refl s))
