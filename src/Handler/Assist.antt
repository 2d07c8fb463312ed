-- ===== src/Handler/Assist.antt =====
-- A fault through a reference to an object that is still to be moved: the thread evacuates it.
use stopless_java_gc.Base.{
  ℕ, ◌+◌, ◌-◌, ◌≤◌, ◌<◌, ◌≡◌, sym, ap, subst, word, ◌∙◌, true, none, some, arith, add64, sub64,
  update, ◌==◌, Bool-cases, inl, inr,
}
use stopless_java_gc.Cheri.{Cheri, Documented}
use stopless_java_gc.Forwarding.{Forwarding, lookup}
use stopless_java_gc.Handler.{
  Context, Siginfo, State, Clock, Evacuate, is_revocation, is_revoked, base_register, shift,
  evacuate_base, forward, account, probe_time, try_heal,
}
use stopless_java_gc.Handler.Heal.{try_reg_stale, try_heal_hit, shift-Tight}
use stopless_java_gc.Forwarding.Derive.{Tight}

module _ {Cap : Type 0} ⦃ch : Cheri Cap⦄ where
  -- the capability that the code makes from the old one and the copy that the callback returned
  abbrev placed : Cap → Cap → Cap
  placed c w = shift w (sub64 (ch.address c) (ch.base c))

  evacuates :
      (c w : Cap) (s : State Cap) (cb : Evacuate Cap) (g : Forwarding Cap)
      → s.evacuate ≡ some cb
      → cb (ch.base c) s.forwarding ≡ (some w, g)
      → evacuate_base c s
        ≡ (some (placed c w), record s { forwarding = g; assists = add64 s.assists 1 })
  unfolding evacuate_base
  evacuates c w s cb g there e = ground (arith, there, e)

  forward_missed :
      (c : Cap) (s : State Cap)
      → lookup s.forwarding (ch.base c) ≡ (none, s.forwarding)
      → lookup s.forwarding (ch.address c) ≡ (none, s.forwarding)
      → forward c s ≡ evacuate_base c s
  unfolding forward
  forward_missed c s by_base by_addr = elim (Bool-cases (ch.address c == ch.base c)) [
    | inl same ↦ ground (arith, by_base, same)
    | inr interior ↦ ground (arith, by_base, by_addr, interior)
  ]

  -- The fault is healed with `new`, and the assist is counted; the table is as the callback left it.
  evacuated_run :
      (insn : ℕ) (clock : Clock) (si : Siginfo) (ctx : Context Cap) (s : State Cap)
      (cb : Evacuate Cap) (w : Cap) (g : Forwarding Cap)
      → is_revocation si.si_code ≡ true
      → base_register insn < 30
      → is_revoked (ctx.cap_x (base_register insn)) ≡ true
      → lookup s.forwarding (ch.base (ctx.cap_x (base_register insn))) ≡ (none, s.forwarding)
      → lookup s.forwarding (ch.address (ctx.cap_x (base_register insn))) ≡ (none, s.forwarding)
      → s.evacuate ≡ some cb
      → cb (ch.base (ctx.cap_x (base_register insn))) s.forwarding ≡ (some w, g)
      → let new = placed (ctx.cap_x (base_register insn)) w in
        try_heal insn clock si ctx s ≡ (
          true,
          record ctx { cap_x = update ctx.cap_x (base_register insn) new },
          account clock new (record s {
            time_heals = some (probe_time clock s);
            forwarding = g;
            assists = add64 s.assists 1;
          }),
        )
  evacuated_run insn clock si ctx s cb w g fault low stale by_base by_addr there e =
      let c = ctx.cap_x (base_register insn) in
      let s₀ : State Cap = record s { time_heals = some (probe_time clock s) } in
      let t : State Cap = record s₀ { forwarding = g; assists = add64 s.assists 1 } in
      try_heal_hit insn clock si ctx s t (placed c w) fault (
        try_reg_stale ctx (base_register insn) s₀ t (placed c w) low stale
          (forward_missed c s₀ by_base by_addr ∙ evacuates c w s₀ cb g there e))

module _ {Cap : Type 0} ⦃ch : Cheri Cap⦄ (doc : Documented ch) (base : Cap) (insn : ℕ)
    (clock : Clock) (si : Siginfo) (ctx : Context Cap) (s : State Cap) where
  -- The base register gets a live capability with the bounds of the copy, to the place in it where the
  -- faulting one pointed in the old object; the assist is counted, and the table is `g`.
  pub record Evacuated (target extent : ℕ) (g : Forwarding Cap) : Type 0 where
    pub new : Cap
    pub run : try_heal insn clock si ctx s ≡ (
      true,
      record ctx { cap_x = update ctx.cap_x (base_register insn) new },
      account clock new (record s {
        time_heals = some (probe_time clock s);
        forwarding = g;
        assists = add64 s.assists 1;
      }),
    )
    pub live : ch.tag new ≡ true
    pub address :
        ch.address new
        ≡ target
          + (ch.address (ctx.cap_x (base_register insn)) - ch.base (ctx.cap_x (base_register insn)))
    pub from : ch.base new ≡ target
    pub extent_kept : ch.len new ≡ extent

  -- A fault by tag or permission through a revoked capability in a register below 30 that the
  -- instruction names, where neither the base nor the address is forwarded, the callback returns a
  -- live copy with exact bounds, and the capability points into what the copy spans, or to its end:
  -- `stopless_try_heal` heals, puts a live capability to the same offset of that copy, with the
  -- copy's bounds, in the register, and counts the assist; the forwarding table is as the callback
  -- left it.
  pub try_heal_evacuates :
      (cb : Evacuate Cap) (w : Cap) (g : Forwarding Cap) (target extent : ℕ)
      → is_revocation si.si_code ≡ true
      → base_register insn < 30
      → is_revoked (ctx.cap_x (base_register insn)) ≡ true
      → lookup s.forwarding (ch.base (ctx.cap_x (base_register insn))) ≡ (none, s.forwarding)
      → lookup s.forwarding (ch.address (ctx.cap_x (base_register insn))) ≡ (none, s.forwarding)
      → s.evacuate ≡ some cb
      → cb (ch.base (ctx.cap_x (base_register insn))) s.forwarding ≡ (some w, g)
      → Tight doc base target extent w
      → ch.base (ctx.cap_x (base_register insn)) ≤ ch.address (ctx.cap_x (base_register insn))
      → ch.address (ctx.cap_x (base_register insn)) < word
      → ch.address (ctx.cap_x (base_register insn)) - ch.base (ctx.cap_x (base_register insn))
        ≤ extent
      → target + extent < word
      → Evacuated target extent g
  try_heal_evacuates cb w g target extent fault low stale by_base by_addr there e tight inside small
        within bounded =
      let c = ctx.cap_x (base_register insn) in
      let off = ch.address c - ch.base c in
      let plain : sub64 (ch.address c) (ch.base c) ≡ off = omega arith in
      let (live, address, from, len) =
        shift-Tight doc base w target extent off tight within bounded in
      let same : shift w off ≡ placed c w = ap (shift w) (sym plain) in
      record {
        new = placed c w;
        run = evacuated_run insn clock si ctx s cb w g fault low stale by_base by_addr there e;
        live = subst (λ x. ch.tag x ≡ true) same live;
        address = subst (λ x. ch.address x ≡ target + off) same address;
        from = subst (λ x. ch.base x ≡ target) same from;
        extent_kept = subst (λ x. ch.len x ≡ extent) same len;
      }
