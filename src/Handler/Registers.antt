-- ===== src/Handler/Registers.antt =====
-- What the handler may change in the interrupted context.
use stopless_java_gc.Base.{
  ℕ, ◌≡◌, refl, sym, ap, ◌∙◌, subst, true, false, none, some, ltb, arith, Bool-cases, Option-cases,
  ℕ_discrete, ne→==, inl, inr, zero, suc, ◌+◌,
}
use mathlib.Core.Bool.{true≢false}
use stopless_java_gc.Cheri.{Cheri}
use stopless_java_gc.Handler.{
  Context, Siginfo, State, Clock, Found, in_register, for_address, not_found, is_revoked, try_reg,
  scan, search_new, try_heal, finish, base_register, probe_time, is_revocation,
}

module _ {Cap : Type 0} ⦃ch : Cheri Cap⦄ where
  -- A register that the searches choose held a revoked capability.
  try_reg_revoked :
      (ctx : Context Cap) (i : ℕ) (s : State Cap) (c : Cap)
      → (try_reg ctx i s).0 ≡ some c
      → is_revoked (ctx.cap_x i) ≡ true
  unfolding try_reg
  try_reg_revoked ctx i s c e = elim (Bool-cases (is_revoked (ctx.cap_x i))) [
    | inl r ↦ r
    | inr live ↦ elim (Bool-cases (ltb i 30)) [
      | inl low ↦ absurd (let q : none ≡ some c = rw (low, live) at e in cc)
      | inr high ↦ absurd (let q : none ≡ some c = rw high at e in cc)
    ]
  ]

  scan_revoked :
      (ctx : Context Cap) (rounds i : ℕ) (s : State Cap) (j : ℕ) (c : Cap)
      → (scan ctx rounds i s).0 ≡ some (j, c)
      → is_revoked (ctx.cap_x j) ≡ true
  unfolding scan
  scan_revoked ctx zero i s j c e = cc
  scan_revoked ctx (suc rounds) i s j c e = elim (Option-cases (try_reg ctx i s).0) [
    | inl out ↦ scan_revoked ctx rounds (i + 1) (try_reg ctx i s).1 j c (ground (arith, out, e))
    | inr (w, hit) ↦
        let same : i ≡ j = ground (arith, hit, e) in
        subst (λ k. is_revoked (ctx.cap_x k) ≡ true) same (try_reg_revoked ctx i s w hit)
  ]

  search_revoked :
      (insn si_addr : ℕ) (ctx : Context Cap) (s : State Cap) (j : ℕ) (c : Cap)
      → (search_new insn si_addr ctx s).0 ≡ in_register j c
      → is_revoked (ctx.cap_x j) ≡ true
  unfolding search_new
  search_revoked insn si_addr ctx s j c e =
      let rn = base_register insn in
      let s₁ = (try_reg ctx rn s).1 in
      elim (Option-cases (try_reg ctx rn s).0) [
        | inr (w, hit) ↦
            let same : rn ≡ j = ground (arith, hit, e) in
            subst (λ k. is_revoked (ctx.cap_x k) ≡ true) same (try_reg_revoked ctx rn s w hit)
        | inl out ↦ elim (Option-cases (scan ctx 30 0 s₁).0) [
          | inr ((i, w), hit) ↦
              let same : i ≡ j = ground (arith, out, hit, e) in
              subst (λ k. is_revoked (ctx.cap_x k) ≡ true) same (scan_revoked ctx 30 0 s₁ i w hit)
          | inl out' ↦ absurd (ground (arith, out, out', e))
        ]
      ]

  -- `after` has the PC of `ctx`, and its capability in every register where that one is live.
  abbrev pub KeepsLive : Context Cap → Context Cap → Type 0
  KeepsLive ctx after =
      (after.cap_elr ≡ ctx.cap_elr)
      × ((i : ℕ) → is_revoked (ctx.cap_x i) ≡ false → after.cap_x i ≡ ctx.cap_x i)

  finish_keeps :
      (clock : Clock) (ctx : Context Cap) (found : Found Cap) (s : State Cap)
      → ((j : ℕ) (c : Cap) → found ≡ in_register j c → is_revoked (ctx.cap_x j) ≡ true)
      → KeepsLive ctx (finish clock ctx found s).1
  unfolding finish
  finish_keeps clock ctx (in_register j c) s h = (
    refl,
    λ i live. elim (ℕ_discrete j i) [
      | no ne ↦ rw (ne→== j i ne)
      | yes e ↦
          absurd (true≢false (sym (h j c refl) ∙ (ap (λ k. is_revoked (ctx.cap_x k)) e ∙ live)))
    ],
  )
  finish_keeps clock ctx (for_address c) s h = (refl, λ i live. refl)
  finish_keeps clock ctx not_found s h = (refl, λ i live. refl)

  -- `stopless_try_heal` leaves the PC alone, and every register that holds a live capability.
  pub try_heal_keeps :
      (insn : ℕ) (clock : Clock) (si : Siginfo) (ctx : Context Cap) (s : State Cap)
      → KeepsLive ctx (try_heal insn clock si ctx s).1
  unfolding try_heal
  try_heal_keeps insn clock si ctx s = elim (Bool-cases (is_revocation si.si_code)) [
    | inr e ↦ rw e (refl, λ i live. refl)
    | inl e ↦
        let s₀ = record s { time_heals = some (probe_time clock s) } in
        rw e (
          finish_keeps clock ctx (search_new insn si.si_addr ctx s₀).0
            (search_new insn si.si_addr ctx s₀).1 (search_revoked insn si.si_addr ctx s₀))
  ]
