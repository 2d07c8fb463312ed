-- ===== src/Handler.antt =====
-- stopless_gc/handler.c: the SIGPROT handler, which heals a fault through a revoked capability. What is
-- printed is left out; memory reads, the clock and the environment are arguments.
pub mod Heal
pub mod Registers
pub mod Identity
pub mod Dump
pub mod Report
pub mod Time
pub mod Counters
pub mod Assist
pub mod Install
pub mod Unhealed
pub mod Metadata
pub mod Names
pub mod Symbols
use stopless_java_gc.Base.{
  ℕ, zero, suc, ◌+◌, ◌*◌, ◌/◌, ◌%◌, ◌^◌, Bool, true, false, not, ◌&&◌, ◌||◌, Option, none, some,
  ltb, ◌==◌, if◌then◌else◌, add64, sub64, mul64, update,
}
use stopless_java_gc.Base.Int.{ℤ, pos, negsuc}
use stopless_java_gc.Cheri.{Cheri}
use stopless_java_gc.Forwarding.{Forwarding, lookup}

-- The registers of `ucontext_t` that the handlers read or write.
pub record Context (Cap : Type 0) : Type 0 where
  pub cap_x : ℕ → Cap
  pub cap_elr : Cap
  pub cap_lr : Cap
  pub cap_sp : Cap

pub record Siginfo : Type 0 where
  pub si_code : ℤ
  pub si_addr : ℕ

-- `g_evacuate_cb`: from an object's address a new capability or NULL; it may add forwardings.
abbrev pub Evacuate : Type 0 → Type 0
Evacuate Cap = ℕ → Forwarding Cap → Option Cap × Forwarding Cap

-- The variables of the handler, the forwarding table, and the memory that
-- `stopless_v1_pending_slot` may point into. `time_heals` is `none` while unprobed.
pub record State (Cap : Type 0) : Type 0 where
  pub forwarding : Forwarding Cap
  pub evacuate : Option (Evacuate Cap)
  pub faults : ℕ
  pub self_heals : ℕ
  pub assists : ℕ
  pub time_heals : Option Bool
  pub heal_ns : ℕ
  pub pending_slot : Option ℕ
  pub memory : ℕ → Option Cap
  pub slowpath : ℕ

-- The SafeFetch labels, which are weak symbols: each is an address or missing.
pub record SafeFetch : Type 0 where
  pub fault_32 : Option ℕ
  pub continuation_32 : ℕ
  pub fault_n : Option ℕ
  pub continuation_n : ℕ

-- A clock reading, whether C11_HEAL_TIME is set, and the two readings of a call.
pub record Timespec : Type 0 where
  pub sec : ℕ
  pub nsec : ℕ

pub record Clock : Type 0 where
  pub asked : Bool
  pub before : Timespec
  pub after : Timespec

-- PROT_CHERI_TAG or PROT_CHERI_PERM
unfoldable pub is_revocation : ℤ → Bool
is_revocation (pos n) = n == 2 || n == 5
is_revocation (negsuc n) = false

unfoldable pub is_label : Option ℕ → ℕ → Bool
is_label none pc = false
is_label (some a) pc = pc == a

-- `(insn >> 5) & 0x1f`
abbrev pub base_register : ℕ → ℕ
base_register insn = (insn / 2 ^ 5) % 2 ^ 5

-- `stopless_handler_heal_ns` after a call
unfoldable pub add_heal_ns : Clock → ℕ → ℕ
add_heal_ns c ns =
    let secs = mul64 (sub64 c.after.sec c.before.sec) 1_000_000_000 in
    add64 ns (add64 secs (sub64 c.after.nsec c.before.nsec))

-- `stopless_set_evacuate_cb`
unfoldable pub set_evacuate_cb : {Cap : Type 0} → Option (Evacuate Cap) → State Cap → State Cap
set_evacuate_cb cb s = record s { evacuate = cb }

-- the self-heal of the slot that the test harness names
unfoldable pub heal_slot : {Cap : Type 0} → Cap → State Cap → State Cap
heal_slot new_cap s = elim s.pending_slot [
  | none ↦ s
  | some p ↦ record s {
    memory = update s.memory p (some new_cap);
    pending_slot = none;
    self_heals = add64 s.self_heals 1;
  }
]

-- the C11_HEAL_TIME switch, probed once
unfoldable pub probe_time : {Cap : Type 0} → Clock → State Cap → Bool
probe_time c s = elim s.time_heals [ none ↦ c.asked | some b ↦ b ]

-- Where `stopless_try_heal` puts the new capability that it finds: into a register, or nowhere.
pub data Found (Cap : Type 0) : Type 0 where
  in_register : ℕ → Cap → Found Cap
  for_address : Cap → Found Cap
  not_found : Found Cap

-- How a signal handler ends: the thread resumes, the previous handler runs, or the default action
-- is restored and the signal raised again.
pub data Outcome : Type 0 where
  resumed : Outcome
  chained : Outcome
  fatal : Outcome

module _ {Cap : Type 0} ⦃ch : Cheri Cap⦄ where
  -- `stopless_safefetch_redirect`: the context to resume with
  unfoldable pub safefetch_redirect : SafeFetch → Context Cap → Option (Context Cap)
  unfolding is_label
  safefetch_redirect l ctx =
      let pc = ch.address ctx.cap_elr in
      if is_label l.fault_32 pc
      then some (record ctx { cap_elr = ch.address_set ctx.cap_elr l.continuation_32 })
      else if is_label l.fault_n pc
      then some (record ctx { cap_elr = ch.address_set ctx.cap_elr l.continuation_n })
      else none

  -- the kernel's notion of a revoked capability, on either build
  abbrev pub is_revoked : Cap → Bool
  is_revoked c = not (ch.tag c) || ch.perms c == 0

  -- the offset of an interior pointer, applied to the new capability
  unfoldable pub shift : Cap → ℕ → Cap
  shift c off = if off == 0 then c else ch.address_set c (add64 (ch.address c) off)

  -- the third attempt of STOPLESS_TRY_REG: the callback, on the base
  unfoldable pub evacuate_base : Cap → State Cap → Option Cap × State Cap
  unfolding shift
  evacuate_base c s = elim s.evacuate [
    | none ↦ (none, s)
    | some cb ↦
        let (fwd, f) = cb (ch.base c) s.forwarding in
        let s' = record s { forwarding = f } in
        elim fwd [
          | none ↦ (none, s')
          | some w ↦ (
            some (shift w (sub64 (ch.address c) (ch.base c))),
            record s' { assists = add64 s.assists 1 },
          )
        ]
  ]

  -- The forwarding that STOPLESS_TRY_REG finds for a revoked capability: by its base, by its address,
  -- or by evacuating the object.
  unfoldable pub forward : Cap → State Cap → Option Cap × State Cap
  unfolding evacuate_base shift
  forward c s =
      let a = ch.address c in
      let b = ch.base c in
      let (by_base, f) = lookup s.forwarding b in
      let s' = record s { forwarding = f } in
      elim by_base [
        | some w ↦ (some (shift w (sub64 a b)), s')
        | none ↦
            if a == b
            then evacuate_base c s'
            else (let (by_addr, f') = lookup f a in
                let s'' = record s { forwarding = f' } in
                elim by_addr [ some w ↦ (some w, s'') | none ↦ evacuate_base c s'' ])
      ]

  -- STOPLESS_TRY_REG while no capability has been found
  unfoldable pub try_reg : Context Cap → ℕ → State Cap → Option Cap × State Cap
  try_reg ctx i s =
      if ltb i 30 && is_revoked (ctx.cap_x i) then forward (ctx.cap_x i) s else (none, s)

  -- the fallback: the registers from `i` on, so many of them
  unfoldable pub scan : Context Cap → ℕ → ℕ → State Cap → Option (ℕ × Cap) × State Cap
  scan ctx zero i s = (none, s)
  scan ctx (suc rounds) i s =
      let (found, s') = try_reg ctx i s in
      elim found [ some c ↦ (some (i, c), s') | none ↦ scan ctx rounds (i + 1) s' ]

  -- the three searches of `stopless_try_heal`, from the faulting instruction and `si_addr`
  unfoldable pub search_new : ℕ → ℕ → Context Cap → State Cap → Found Cap × State Cap
  search_new insn si_addr ctx s =
      let rn = base_register insn in
      let (decoded, s₁) = try_reg ctx rn s in
      elim decoded [
        | some c ↦ (in_register rn c, s₁)
        | none ↦
            let (scanned, s₂) = scan ctx 30 0 s₁ in
            elim scanned [
              | some (i, c) ↦ (in_register i c, s₂)
              | none ↦
                  let (c, f) = lookup s₂.forwarding si_addr in
                  let s₃ = record s₂ { forwarding = f } in
                  elim c [ some w ↦ (for_address w, s₃) | none ↦ (not_found, s₃) ]
            ]
      ]

  -- what `stopless_try_heal` does with a new capability, after the registers
  unfoldable pub account : Clock → Cap → State Cap → State Cap
  account c new_cap s =
      let s' = heal_slot new_cap (record s { faults = add64 s.faults 1 }) in
      if probe_time c s then record s' { heal_ns = add_heal_ns c s'.heal_ns } else s'

  -- the rest of `stopless_try_heal` once the searches are over
  unfoldable pub finish :
      Clock → Context Cap → Found Cap → State Cap → Bool × Context Cap × State Cap
  finish clock ctx (in_register i c) s =
      (true, record ctx { cap_x = update ctx.cap_x i c }, account clock c s)
  finish clock ctx (for_address c) s = (true, ctx, account clock c s)
  finish clock ctx not_found s = (false, ctx, s)

  -- `stopless_try_heal`, with the word at the faulting PC: whether it healed
  unfoldable pub try_heal :
      ℕ → Clock → Siginfo → Context Cap → State Cap → Bool × Context Cap × State Cap
  try_heal insn clock si ctx s =
      if is_revocation si.si_code
      then (let s₀ = record s { time_heals = some (probe_time clock s) } in
          let (found, s₁) = search_new insn si.si_addr ctx s₀ in finish clock ctx found s₁)
      else (false, ctx, s)

  -- `sigprot_handler`; the Boolean says whether `prev_sa.sa_sigaction` is set
  unfoldable pub sigprot_handler :
      SafeFetch
      → Bool
      → ℕ
      → Clock
      → Siginfo
      → Context Cap
      → State Cap
      → Outcome × Context Cap × State Cap
  sigprot_handler labels prev insn clock si ctx s = elim (safefetch_redirect labels ctx) [
    | some ctx' ↦ (resumed, ctx', s)
    | none ↦
        if is_revocation si.si_code
        then (let (healed, ctx', s') = try_heal insn clock si ctx s in
            (if healed then resumed else fatal, ctx', s'))
        else (if prev then chained else resumed, ctx, s)
  ]
