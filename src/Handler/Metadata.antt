-- ===== src/Handler/Metadata.antt =====
-- stopless_gc/handler.c: what the handlers print of a capability, the diagnostics of a fault that
-- `stopless_try_heal` cannot heal, and `sigill_handler`. The formatting is left out.
use stopless_java_gc.Base.{
  ℕ, ◌%◌, ◌≡◌, refl, Bool, Option, none, some, List, [], ◌∷◌, String, if◌then◌else◌, add64, arith,
  Bool-cases, inl, inr,
}
use stopless_java_gc.Base.Int.{ℤ}
use stopless_java_gc.Cheri.{Cheri}
use stopless_java_gc.ForwardTable.{Table}
use stopless_java_gc.Handler.{
  Context, Siginfo, State, Clock, Outcome, fatal, in_register, for_address, not_found,
  is_revocation, probe_time, search_new, finish, try_heal,
}

-- `forward_table_size`
unfoldable pub forward_table_size : Table → ℕ
forward_table_size t = t.size

-- `tag=%d addr=%#lx base=%#lx top=%#lx perms=%#lx flags=%d`
pub record Metadata : Type 0 where
  pub tag : Bool
  pub address : ℕ
  pub base : ℕ
  pub top : ℕ
  pub perms : ℕ
  pub flags : ℕ

-- the diagnostics of an unforwarded fault
pub record Unforwarded : Type 0 where
  pub si_addr : ℕ
  pub si_code : ℤ
  pub pc : ℕ
  pub fwd_size : ℕ
  pub csp : Metadata
  pub pcc : Metadata
  pub clr : Metadata

-- a line of STOPLESS_DUMPCAP: the name, the capability, and bit 0 of its flags, the mode of its code
pub record CapLine : Type 0 where
  pub name : String
  pub cap : Metadata
  pub c64 : ℕ

pub record SigillReport : Type 0 where
  pub si_code : ℤ
  pub si_addr : ℕ
  pub caps : List CapLine

module _ {Cap : Type 0} ⦃ch : Cheri Cap⦄ where
  unfoldable pub metadata : Cap → Metadata
  metadata c = record {
    tag = ch.tag c;
    address = ch.address c;
    base = ch.base c;
    top = add64 (ch.base c) (ch.len c);
    perms = ch.perms c;
    flags = ch.flags c;
  }

  -- what `stopless_try_heal` prints where no search has found a capability
  unfoldable pub unforwarded : Siginfo → Context Cap → State Cap → Unforwarded
  unfolding metadata forward_table_size
  unforwarded si ctx s = record {
    si_addr = si.si_addr;
    si_code = si.si_code;
    pc = ch.address ctx.cap_elr;
    fwd_size = forward_table_size s.forwarding.table;
    csp = metadata ctx.cap_sp;
    pcc = metadata ctx.cap_elr;
    clr = metadata ctx.cap_lr;
  }

  -- what a call of `stopless_try_heal` prints
  unfoldable pub try_heal_prints :
      ℕ → Clock → Siginfo → Context Cap → State Cap → Option Unforwarded
  unfolding unforwarded
  try_heal_prints insn clock si ctx s =
      if is_revocation si.si_code
      then (let s₀ = record s { time_heals = some (probe_time clock s) } in
          let (found, s₁) = search_new insn si.si_addr ctx s₀ in
          elim found [
            | in_register i c ↦ none
            | for_address c ↦ none
            | not_found ↦ some (unforwarded si ctx s₁)
          ])
      else none

  -- STOPLESS_DUMPCAP
  unfoldable pub dump_cap : String → Cap → CapLine
  unfolding metadata
  dump_cap name c = record { name = name; cap = metadata c; c64 = ch.flags c % 2 }

  -- `sigill_handler`: what it prints, and that the signal is raised again under the default action
  unfoldable pub sigill_handler : Siginfo → Context Cap → SigillReport × Outcome
  unfolding dump_cap
  sigill_handler si ctx = (
    record {
      si_code = si.si_code;
      si_addr = si.si_addr;
      caps =
          dump_cap "PCC" ctx.cap_elr
          ∷ dump_cap "CLR" ctx.cap_lr
          ∷ dump_cap "CSP" ctx.cap_sp
          ∷ dump_cap "c0" (ctx.cap_x 0)
          ∷ dump_cap "c1" (ctx.cap_x 1)
          ∷ dump_cap "c16" (ctx.cap_x 16)
          ∷ dump_cap "c17" (ctx.cap_x 17)
          ∷ [];
    },
    fatal,
  )

  -- The diagnostics are printed for the faults by revocation that are not healed, and for no other:
  -- they show the code and the address of the fault, the registers as the fault left them, and as many
  -- forwardings as the table holds after the call.
  pub try_heal-prints :
      (insn : ℕ) (clock : Clock) (si : Siginfo) (ctx : Context Cap) (s : State Cap)
      → let (healed, ctx', s') = try_heal insn clock si ctx s in
        try_heal_prints insn clock si ctx s ≡ (
          if is_revocation si.si_code
          then (if healed then none else some (unforwarded si ctx s'))
          else none)
  unfolding try_heal try_heal_prints finish
  try_heal-prints insn clock si ctx s = elim (Bool-cases (is_revocation si.si_code)) [
    | inr other ↦ rw other refl
    | inl fault ↦ ground (arith, fault)
  ]
