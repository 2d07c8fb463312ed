-- ===== src/Tests/Faults.antt =====
-- The theorems on the fault handler, at a fault through a reference to an object that moved twice.
use stopless_java_gc.Base.{
  ℕ, ◌+◌, ◌<◌, ◌≤◌, ◌≡◌, refl, sym, ap, ◌∙◌, true, false, none, some, arith, word, add64, ◌==◌,
  if◌then◌else◌, some_inj, subst,
}
use stopless_java_gc.Base.Int.{pos}
use stopless_java_gc.Forwarding.Chase.{Leads, last, hop, Leads_unique}
use stopless_java_gc.Forwarding.Lookup.{Resolves}
use stopless_java_gc.Handler.{
  Evacuate, Context, Siginfo, State, SafeFetch, Clock, sigprot_handler, try_heal,
  safefetch_redirect, is_label, is_revocation,
}
use stopless_java_gc.Handler.Heal.{Healed, try_heal_moved}
use stopless_java_gc.Handler.Counters.{Heals, try_heal-Heals}
use stopless_java_gc.Forwarding.Derive.{Tight}
use stopless_java_gc.Handler.Assist.{Evacuated, try_heal_evacuates}
use stopless_java_gc.Forwarding.{lookup}
use stopless_java_gc.ForwardTable.{find, seek, probe, home, mix}
use stopless_java_gc.Handler.Identity.{Denotes, live, moved, acmp_eq, acmp_eq_lem}
use stopless_java_gc.Handler.Dump.{resumes, crash_dumper, crash_dumper_inherits}
use stopless_java_gc.Tests.Machine.{Flat, flat, flat_Documented, arena_cap, cap_to, stale}
use stopless_java_gc.Tests.Tables.{
  moved_table, moved_IsTable, moved_MovesUp, moved_EntriesFit, moved_first, moved_second, moved_end,
}

abbrev pub heap : State Flat
heap = record {
  forwarding = record { table = moved_table; arena_base = some arena_cap; derive_fail = 0 };
  evacuate = none;
  faults = 0;
  self_heals = 0;
  assists = 0;
  time_heals = none;
  heal_ns = 0;
  pending_slot = none;
  memory = λ p. none;
  slowpath = 0;
}

-- `c3` is stale, and the faulting instruction loads through it
abbrev pub context : Context Flat
context = record {
  cap_x = λ i. if i == 3 then stale 4096 else cap_to 4096 64;
  cap_elr = cap_to 64 4;
  cap_lr = cap_to 64 4;
  cap_sp = cap_to 4096 64;
}

abbrev pub load_c3 : ℕ
load_c3 = 96

abbrev pub fault : Siginfo
fault = record { si_code = pos 2; si_addr = 4104 }

abbrev pub quiet : Clock
quiet = record {
  asked = false;
  before = record { sec = 1; nsec = 999_999_999 };
  after = record { sec = 2; nsec = 5 };
}

moved_chain : Leads moved_table 1 8192 64 8256 64
moved_chain = hop moved_second (omega arith) (last moved_end)

spans :
    (c : Flat) (r : Resolves flat_Documented arena_cap refl moved_table 4096 c)
    → (8 ≤ r.extent) × (r.target + r.extent < word)
spans c r =
    let same : r.first ≡ (8192, 64) = some_inj (sym r.mapped ∙ moved_first) in
    let chain : Leads moved_table r.hops 8192 64 r.target r.extent =
      subst (λ (q : ℕ × ℕ). Leads moved_table r.hops q.0 q.1 r.target r.extent) same r.chain in
    let end = Leads_unique chain moved_chain in
    let t : r.target ≡ 8256 = ap (λ (q : ℕ × ℕ). q.0) end in
    let l : r.extent ≡ 64 = ap (λ (q : ℕ × ℕ). q.1) end in (omega arith, omega arith)

try_heal_moved_example : Healed flat_Documented arena_cap refl load_c3 quiet fault context heap
unfolding is_revocation
try_heal_moved_example =
    try_heal_moved flat_Documented arena_cap refl load_c3 quiet fault context heap 8192 64 refl
      (omega arith) refl refl moved_IsTable moved_MovesUp moved_EntriesFit (omega arith)
      (omega arith) moved_first (omega arith) (omega arith) spans

try_heal-Heals_example : Heals heap context (try_heal load_c3 quiet fault context heap)
try_heal-Heals_example = try_heal-Heals load_c3 quiet fault context heap

-- a reference to an object that has not moved yet, and a callback that copies it to 8320
abbrev early : Context Flat
early = record {
  cap_x = λ i. if i == 3 then stale 4224 else cap_to 4096 64;
  cap_elr = cap_to 64 4;
  cap_lr = cap_to 64 4;
  cap_sp = cap_to 4096 64;
}

abbrev copy_out : Evacuate Flat
copy_out a f = (some (cap_to 8320 64), f)

abbrev assisted : State Flat
assisted = record heap { evacuate = some copy_out }

base_missed : lookup assisted.forwarding 4224 ≡ (none, assisted.forwarding)
unfolding lookup find seek probe home mix
base_missed = refl

address_missed : lookup assisted.forwarding 4232 ≡ (none, assisted.forwarding)
unfolding lookup find seek probe home mix
address_missed = refl

copy-Tight : Tight flat_Documented arena_cap 8320 64 (cap_to 8320 64)
copy-Tight = record { live = refl; address = refl; from = refl; extent = refl; stripped = refl }

try_heal_evacuates_example :
    Evacuated flat_Documented arena_cap load_c3 quiet fault early assisted 8320 64
      assisted.forwarding
unfolding is_revocation
try_heal_evacuates_example =
    try_heal_evacuates flat_Documented arena_cap load_c3 quiet fault early assisted copy_out
      (cap_to 8320 64) assisted.forwarding 8320 64 refl (omega arith) refl base_missed
      address_missed refl refl copy-Tight (omega arith) (omega arith) (omega arith) (omega arith)

-- a stale reference to the object that moved, and a live one to the same place
stale_denotes : Denotes moved_table (some (stale 4096)) 8264
stale_denotes =
    moved (stale 4096) 8 refl (omega arith) moved_first moved_chain refl (omega arith) (omega arith)

live_denotes : Denotes moved_table (some (cap_to 8264 16)) 8264
live_denotes = live (cap_to 8264 16) refl

acmp_eq_lem_example :
    acmp_eq (some (stale 4096)) (some (cap_to 8264 16)) heap
    ≡ (true, record heap { slowpath = add64 0 1 })
acmp_eq_lem_example =
    acmp_eq_lem flat_Documented arena_cap refl heap.forwarding refl moved_IsTable moved_MovesUp
      moved_EntriesFit (omega arith) heap refl stale_denotes live_denotes

abbrev labels : SafeFetch
labels = record { fault_32 = some 64; continuation_32 = 128; fault_n = none; continuation_n = 0 }

crash_dumper_inherits_example :
    crash_dumper labels true true 34 load_c3 quiet fault context heap ≡ (
      resumes,
      (sigprot_handler labels false load_c3 quiet fault context heap).1,
      (sigprot_handler labels false load_c3 quiet fault context heap).2,
    )
unfolding is_revocation sigprot_handler safefetch_redirect is_label
crash_dumper_inherits_example =
    crash_dumper_inherits labels false true true load_c3 quiet fault context heap refl refl

-- a stack on which each frame points 32 bytes up
abbrev stack : ℕ → ℕ
stack a = a + 32
