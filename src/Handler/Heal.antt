-- ===== src/Handler/Heal.antt =====
-- The fault that the handler is for: a load or store through a revoked capability to a moved object.
use stopless_java_gc.Base.{
  ℕ, ◌+◌, ◌-◌, ◌≤◌, ◌<◌, ◌≡◌, ◌≢◌, ap, ◌∙◌, true, some, arith, word, add64, sub64, update, lt→ltb,
  eq→==, ℕ_discrete, ne→==,
}
use stopless_java_gc.Cheri.{Cheri, Documented}
use stopless_java_gc.ForwardTable.{find}
use stopless_java_gc.ForwardTable.State.{IsTable}
use stopless_java_gc.Forwarding.{chase_max, lookup}
use stopless_java_gc.Forwarding.Chase.{MovesUp}
use stopless_java_gc.Forwarding.Derive.{Tight}
use stopless_java_gc.Forwarding.Lookup.{EntriesFit, Resolves, lookup-Resolves}
use stopless_java_gc.Handler.{
  Context, Siginfo, State, Clock, in_register, is_revocation, is_revoked, base_register, shift,
  forward, try_reg, search_new, finish, account, probe_time, try_heal,
}

module _ {Cap : Type 0} ⦃ch : Cheri Cap⦄ where
  forward_by_base :
      (c w : Cap) (s : State Cap)
      → lookup s.forwarding (ch.base c) ≡ (some w, s.forwarding)
      → forward c s ≡ (some (shift w (sub64 (ch.address c) (ch.base c))), s)
  unfolding forward
  forward_by_base c w s e = ground (arith, e)

  pub try_reg_stale :
      (ctx : Context Cap) (i : ℕ) (s t : State Cap) (w : Cap)
      → i < 30
      → is_revoked (ctx.cap_x i) ≡ true
      → forward (ctx.cap_x i) s ≡ (some w, t)
      → try_reg ctx i s ≡ (some w, t)
  unfolding try_reg
  try_reg_stale ctx i s t w low stale e = rw (lt→ltb i 30 low, stale) e

  search_hit :
      (insn si_addr : ℕ) (ctx : Context Cap) (s t : State Cap) (w : Cap)
      → try_reg ctx (base_register insn) s ≡ (some w, t)
      → search_new insn si_addr ctx s ≡ (in_register (base_register insn) w, t)
  unfolding search_new
  search_hit insn si_addr ctx s t w e = ground (arith, e)

  pub try_heal_hit :
      (insn : ℕ) (clock : Clock) (si : Siginfo) (ctx : Context Cap) (s t : State Cap) (w : Cap)
      → is_revocation si.si_code ≡ true
      → let s₀ = record s { time_heals = some (probe_time clock s) } in
        try_reg ctx (base_register insn) s₀ ≡ (some w, t)
        → try_heal insn clock si ctx s ≡ (
          true,
          record ctx { cap_x = update ctx.cap_x (base_register insn) w },
          account clock w t,
        )
  unfolding try_heal finish
  try_heal_hit insn clock si ctx s t w fault e =
      let s₀ = record s { time_heals = some (probe_time clock s) } in
      let found = search_hit insn si.si_addr ctx s₀ t w e in ground (arith, fault, found)

  module _ (doc : Documented ch) (base : Cap) where
    pub shift-Tight :
        (w : Cap) (target extent off : ℕ)
        → Tight doc base target extent w
        → off ≤ extent
        → target + extent < word
        → (ch.tag (shift w off) ≡ true)
          × (ch.address (shift w off) ≡ target + off)
          × (ch.base (shift w off) ≡ target)
          × (ch.len (shift w off) ≡ extent)
    unfolding shift
    shift-Tight w target extent off t h small = elim (ℕ_discrete off 0) [
      | yes z ↦ rw (eq→== off 0 z) (t.live, t.address ∙ omega arith, t.from, t.extent)
      | no ne ↦
          let to : add64 (ch.address w) off ≡ target + off =
            ap (λ (q : ℕ). add64 q off) t.address ∙ omega arith in
          let lo : ch.base w ≤ target + off = rw t.from (omega arith) in
          let hi : target + off ≤ ch.base w + ch.len w = rw (t.from, t.extent) (omega arith) in
          rw (ne→== off 0 ne, to)
            (
              doc.tag-address_set w (target + off) lo hi ∙ t.live,
              doc.address-address_set w (target + off),
              doc.base-address_set w (target + off) lo hi ∙ t.from,
              doc.len-address_set w (target + off) lo hi ∙ t.extent,
            )
    ]

  module _ (doc : Documented ch) (base : Cap) (root : ch.tag base ≡ true) (insn : ℕ) (clock : Clock)
      (si : Siginfo) (ctx : Context Cap) (s : State Cap) where
    -- the capability in the base register of the faulting instruction
    abbrev pub faulting : Cap
    faulting = ctx.cap_x (base_register insn)

    -- The base register gets a live capability to the place in the object's last copy where the
    -- faulting one pointed in the old copy, with the bounds of that copy.
    pub record Healed : Type 0 where
      pub found : Cap
      pub new : Cap
      pub resolves : Resolves doc base root s.forwarding.table (ch.base faulting) found
      pub run : try_heal insn clock si ctx s ≡ (
        true,
        record ctx { cap_x = update ctx.cap_x (base_register insn) new },
        account clock new (record s { time_heals = some (probe_time clock s) }),
      )
      pub live : ch.tag new ≡ true
      pub address : ch.address new ≡ resolves.target + (ch.address faulting - ch.base faulting)
      pub from : ch.base new ≡ resolves.target
      pub extent : ch.len new ≡ resolves.extent

    -- A fault by tag or permission through a revoked capability whose base is a nonzero address in the
    -- table, in a register below 30 that the instruction names. The table is sound: its invariant
    -- holds, every move goes upwards, each pair is a range of the arena with exact bounds, the arena's
    -- live capability is set, and it has at most FT_CHASE_MAX entries. The capability points at or
    -- above its base, no further than the length of the last copy, which ends below 2 ^ 64. Then
    -- `stopless_try_heal` heals: the base register gets a live capability to the same offset of the
    -- last copy with that copy's bounds, and the counters are accounted.
    pub try_heal_moved :
        (na nl : ℕ)
        → is_revocation si.si_code ≡ true
        → base_register insn < 30
        → is_revoked faulting ≡ true
        → s.forwarding.arena_base ≡ some base
        → IsTable s.forwarding.table
        → MovesUp s.forwarding.table
        → EntriesFit doc base root s.forwarding.table
        → s.forwarding.table.size ≤ chase_max
        → ch.base faulting ≢ 0
        → find s.forwarding.table (ch.base faulting) ≡ some (na, nl)
        → ch.base faulting ≤ ch.address faulting
        → ch.address faulting < word
        → ((c : Cap) (r : Resolves doc base root s.forwarding.table (ch.base faulting) c)
            → (ch.address faulting - ch.base faulting ≤ r.extent) × (r.target + r.extent < word))
        → Healed
    try_heal_moved na nl fault low stale rooted h up fit few ne mapped inside small spans =
        let s₀ = record s { time_heals = some (probe_time clock s) } in
        let off = ch.address faulting - ch.base faulting in
        let (w, run, r) =
          lookup-Resolves doc base root s.forwarding rooted (ch.base faulting) na nl h up fit few ne
            mapped in
        let (within, bounded) = spans w r in
        let plain : sub64 (ch.address faulting) (ch.base faulting) ≡ off = omega arith in
        let hit : try_reg ctx (base_register insn) s₀ ≡ (some (shift w off), s₀) =
          try_reg_stale ctx (base_register insn) s₀ s₀ (shift w off) low stale
            (forward_by_base faulting w s₀ run ∙ ap (λ (o : ℕ). (some (shift w o), s₀)) plain) in
        let (live, address, from, extent) =
          shift-Tight doc base w r.target r.extent off r.tight within bounded in
        record {
          found = w;
          new = shift w off;
          resolves = r;
          run = try_heal_hit insn clock si ctx s s₀ (shift w off) fault hit;
          live = live;
          address = address;
          from = from;
          extent = extent;
        }
