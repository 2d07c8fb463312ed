-- ===== src/StoplessHeap/Collect.antt =====
-- stoplessHeap.cpp: `VM_StoplessCollect::doit`, a cycle of the collector inside a safepoint, and what the
-- collector's thread does after it. What is printed is left out.
use stopless_java_gc.Base.{
  ℕ, zero, suc, ◌+◌, ◌%◌, Bool, true, false, ◌&&◌, Option, none, some, List, [], ◌∷◌, String, ltb,
  ◌==◌, if◌then◌else◌, length,
}
use stopless_java_gc.Base.Int.{ℤ, pos, negsuc, is_zero, minus_one}
use stopless_java_gc.Cheri.{Cheri}
use stopless_java_gc.Arena.{Arena}
use stopless_java_gc.ForwardTable.{maybe_grow}
use stopless_java_gc.Revoke.Calls.{Kernel, Memory}
use stopless_java_gc.Revoke.{Globals, Env, revoke_now, revoke_open, revoke_close}
use stopless_java_gc.Revoke.Mark.{mark_revoke_cap}
use stopless_java_gc.StoplessHeap.{
  Space, Vm, Options, Mover, Scanned, scanned, scan_waits, scan_null, scan_roots,
}

-- The environment: what `strtoul` and `strtol` make of STOPLESS_MOVE_LIMIT and STOPLESS_REVOKE_BATCH,
-- STOPLESS_MOVE_KLASS, and which of the other variables are set.
pub record CycleEnv : Type 0 where
  pub move_limit : Option ℕ
  pub revoke_batch : Option ℤ
  pub move_klass : Option String
  pub no_revoke : Bool
  pub no_fixup : Bool
  pub skip_complex : Bool
  pub revoke_concurrent : Bool
  pub revoke_env : Env

-- The state between cycles: the heap, the globals of revoke.c, `g_stopless_close_pending`, and the
-- statics `s_cycle` and `s_marked_pending` of `doit`.
pub record Jvm (K Cap W : Type 0) : Type 0 where
  pub space : Space Cap W
  pub globals : Globals K
  pub close_pending : Bool
  pub cycle : ℕ
  pub marked_pending : ℕ

-- How the revocation ends: the threads may run again, `revoked` and `swept` are reported; or `fatal`.
pub data Revoked (K Cap W : Type 0) : Type 0 where
  revoked : Jvm K Cap W → ℕ → Bool → Revoked K Cap W
  fatal : Revoked K Cap W

-- How a cycle ends: the threads run on with these roots; or the VM dies, by `fatal` or by a null
-- table; or the scan waits for ever.
pub data Pause (K Cap W : Type 0) : Type 0 where
  resumes : Jvm K Cap W → Mover Cap W → List (Option Cap) → ℕ → Bool → Pause K Cap W
  dies : Pause K Cap W
  hangs : Pause K Cap W

-- `batch`
unfoldable pub batch_of : Option ℤ → ℕ
batch_of none = 1
batch_of (some (pos zero)) = 1
batch_of (some (pos (suc n))) = suc n
batch_of (some (negsuc n)) = 1

-- `limit`, with the guard on a pending close
unfoldable pub limit_of : CycleEnv → Bool → ℕ
limit_of env close_pending =
    if env.revoke_concurrent && close_pending
    then 0
    else elim env.move_limit [ none ↦ 8 | some n ↦ n ]

-- the closure as it is made
abbrev pub fresh_mover : {Cap W : Type 0} → Space Cap W → Mover Cap W
fresh_mover space = record {
  space = space;
  moved_from = [];
  moved = 0;
  fixed = 0;
  nonheap = 0;
  skipped = 0;
  visited = 0;
}

abbrev pub options : CycleEnv → Bool → Options
options env close_pending = record {
  limit = limit_of env close_pending;
  klass_filter = env.move_klass;
  skip_complex = env.skip_complex;
  no_fixup = env.no_fixup;
}

-- `StoplessHeap::revoke_sweep`
unfoldable pub revoke_sweep :
    {K Cap : Type 0} → ⦃os : Kernel K⦄ → Option (Arena Cap) → Globals K → ℤ × Globals K
revoke_sweep none g = (minus_one, g)
revoke_sweep (some a) g = revoke_now g

-- `StoplessHeap::mark_for_revoke` of every old copy; it drops what the call returns
unfoldable pub mark_all : {K Cap : Type 0} → Memory K Cap → Option (Arena Cap) → List Cap → K → K
mark_all mem a [] k = k
mark_all mem a (o ∷ os') k = mark_all mem a os' (mark_revoke_cap mem a (some o) k).1

-- the end of `doit`
unfoldable pub end_cycle :
    {K Cap W : Type 0} → Mover Cap W → List (Option Cap) → Revoked K Cap W → Pause K Cap W
end_cycle m roots (revoked h n swept) = resumes h m roots n swept
end_cycle m roots fatal = dies

module _ {K Cap W : Type 0} ⦃ch : Cheri Cap⦄ ⦃os : Kernel K⦄ (mem : Memory K Cap) where
  -- the globals after the marks
  abbrev pub with_marks : Jvm K Cap W → List Cap → Globals K
  with_marks h moved_from = record h.globals {
    kernel = mark_all mem h.space.arena moved_from h.globals.kernel;
  }

  -- STOPLESS_REVOKE_CONCURRENT: the marks are published by an open epoch, or else by a whole sweep
  unfoldable pub publish : Env → Jvm K Cap W → List Cap → Revoked K Cap W
  unfolding revoke_sweep
  publish env h [] = revoked h 0 false
  publish env h (o ∷ rest) =
      let (rc, g) = revoke_open env (with_marks h (o ∷ rest)) in
      if is_zero rc
      then revoked (record h { globals = g; close_pending = true }) (length (o ∷ rest)) false
      else (let (rc', g') = revoke_sweep h.space.arena g in
          if is_zero rc'
          then revoked (record h { globals = g' }) (length (o ∷ rest)) true
          else fatal)

  -- otherwise: a sweep every so many cycles
  unfoldable pub batched : ℕ → Jvm K Cap W → List Cap → Revoked K Cap W
  unfolding revoke_sweep
  batched batch h moved_from =
      let h₁ = record h {
        globals = with_marks h moved_from;
        cycle = h.cycle + 1;
        marked_pending = h.marked_pending + length moved_from;
      } in
      if ltb 0 h₁.marked_pending && h₁.cycle % batch == 0
      then revoked
          (record h₁ { globals = (revoke_sweep h.space.arena h₁.globals).1; marked_pending = 0 })
          h₁.marked_pending true
      else revoked h₁ 0 false

  unfoldable pub revoke_phase : CycleEnv → Jvm K Cap W → List Cap → Revoked K Cap W
  unfolding publish batched batch_of
  revoke_phase env h moved_from =
      if env.no_revoke
      then revoked h 0 false
      else if env.revoke_concurrent
      then publish env.revoke_env h moved_from
      else batched (batch_of env.revoke_batch) h moved_from

  -- `doit` after the scan
  unfoldable pub after_scan : CycleEnv → Jvm K Cap W → Scanned Cap W → Pause K Cap W
  unfolding revoke_phase end_cycle
  after_scan env h (scanned m roots) =
      end_cycle m roots (revoke_phase env (record h { space = m.space }) m.moved_from)
  after_scan env h scan_waits = hangs
  after_scan env h scan_null = dies

  -- `doit`. The Boolean lets the allocations of the forwarding table succeed or fail.
  unfoldable pub doit : Vm Cap → Bool → CycleEnv → Jvm K Cap W → List (Option Cap) → Pause K Cap W
  unfolding limit_of after_scan
  doit vm memory env h roots = elim (maybe_grow memory h.space.forwarding.table) [
    | none ↦ hangs
    | some t ↦
        let space = record h.space { forwarding = record h.space.forwarding { table = t } } in
        after_scan env h
          (scan_roots vm memory (options env h.close_pending) (fresh_mover space) roots)
  ]

module _ {K Cap W : Type 0} ⦃os : Kernel K⦄ where
  -- `StoplessCollectorThread::run_service`: the call that closes an epoch, and what follows it
  abbrev pub close_call : Env → Jvm K Cap W → ℤ × Jvm K Cap W
  close_call env h = let (crc, g) = revoke_close env h.globals in (crc, record h { globals = g })

  unfoldable pub after_close : ℤ → Jvm K Cap W → Jvm K Cap W
  after_close crc h = if is_zero crc then record h { close_pending = false } else h
