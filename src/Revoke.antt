-- ===== src/Revoke.antt =====
-- stopless_gc/revoke.c: wrappers of the CheriBSD revocation calls. The kernel is a parameter: its
-- state, its epoch counters and its calls. What is printed is left out.
pub mod Calls
pub mod Epoch
pub mod Fault
pub mod Mark
pub mod Init
use stopless_java_gc.Base.{
  ℕ, zero, suc, ◌≡◌, Bool, true, false, not, ◌||◌, Option, none, some, ltb, ◌==◌, if◌then◌else◌,
  add64,
}
use stopless_java_gc.Base.Int.{ℤ, pos, negsuc, is_zero, minus_one}
use stopless_java_gc.Arena.{Arena}
use Calls.{Kernel, Flags, open_and_close, open_only, last_pass}

-- The static variables: whether `g_cri` is set, `g_rv_verbose`, `g_fault_open`, `g_fault_close`; and
-- the kernel.
pub record Globals (K : Type 0) : Type 0 where
  pub cri : Bool
  pub verbose : ℤ
  pub fault_open : ℤ
  pub fault_close : ℤ
  pub kernel : K

-- The environment: whether STOPLESS_REVOKE_VERBOSE is set, and what `(int)strtol` makes of
-- STOPLESS_FAULT_OPEN and STOPLESS_FAULT_CLOSE where they are set.
pub record Env : Type 0 where
  pub revoke_verbose : Bool
  pub env_open : Option ℤ
  pub env_close : Option ℤ

-- the first read of the environment in `fault_budget`, where the counter is -2
unfoldable pub first_read : Option ℤ → ℤ → ℤ
first_read env (pos n) = pos n
first_read env (negsuc zero) = negsuc zero
first_read none (negsuc (suc zero)) = pos 0
first_read (some n) (negsuc (suc zero)) = n
first_read env (negsuc (suc (suc n))) = negsuc (suc (suc n))

-- the rest of `fault_budget`: whether the call is to fail, and the counter
unfoldable pub spend : ℤ → Bool × ℤ
spend (pos zero) = (false, pos 0)
spend (pos (suc n)) = (true, pos n)
spend (negsuc n) = (false, negsuc n)

unfoldable pub fault_budget : Option ℤ → ℤ → Bool × ℤ
unfolding first_read spend
fault_budget env counter = spend (first_read env counter)

-- `rv_verbose`
unfoldable pub rv_verbose : Bool → ℤ → ℤ
rv_verbose set (negsuc n) = if set then pos 1 else pos 0
rv_verbose set (pos n) = pos n

module _ {K : Type 0} ⦃os : Kernel K⦄ where
  -- `ensure_cri`
  unfoldable pub ensure_cri : Globals K → ℤ × Globals K
  ensure_cri g =
      if g.cri
      then (pos 0, g)
      else (let (rc, k) = os.get_info g.kernel in
          if is_zero rc
          then (pos 0, record g { cri = true; kernel = k })
          else (minus_one, record g { kernel = k }))

  -- `cheri_revoke_epoch_clears(g_cri->epochs.dequeue, target)`
  abbrev pub cleared : ℕ → K → Bool
  cleared target k = os.clears (os.dequeue k) target

  -- The wait loop of `stopless_revoke_now`, with the rounds left; a failing call ends it at once.
  unfoldable pub wait_checked : ℕ → ℕ → K → ℤ × K
  wait_checked zero target k = (pos 0, k)
  wait_checked (suc rounds) target k =
      let (rc, k') = os.revoke last_pass target k in
      let rest = wait_checked rounds target k' in
      if cleared target k then (pos 0, k) else if is_zero rc then rest else (rc, k')

  -- The wait loop of `stopless_revoke_close`.
  unfoldable pub wait : ℕ → ℕ → K → K
  wait zero target k = k
  wait (suc rounds) target k =
      let rest = wait rounds target (os.revoke last_pass target k).1 in
      if cleared target k then k else rest

  -- the last line of both functions
  abbrev pub verdict : ℕ → K → ℤ
  verdict target k = if cleared target k then pos 0 else minus_one

  -- `stopless_revoke_now` once `g_cri` is set
  unfoldable pub sweep : K → ℤ × K
  unfolding wait_checked
  sweep k =
      let (rc, k₁) = os.revoke open_and_close (os.enqueue k) k in
      if is_zero rc
      then (let target = os.enqueue k₁ in
          let (rc', k₂) = wait_checked 10 target k₁ in
          if is_zero rc' then (verdict target k₂, k₂) else (rc', k₂))
      else (rc, k₁)

  unfoldable pub revoke_now : Globals K → ℤ × Globals K
  unfolding ensure_cri sweep
  revoke_now g =
      let (ready, g') = ensure_cri g in
      if is_zero ready
      then (let (rc, k) = sweep g'.kernel in (rc, record g' { kernel = k }))
      else (minus_one, g')

  -- `stopless_revoke_open` once `g_cri` is set
  unfoldable pub open_epoch : K → ℤ × K
  open_epoch k =
      let e₀ = os.enqueue k in
      let (rc, k') = os.revoke open_only e₀ k in
      (if ltb e₀ (os.enqueue k') || is_zero rc then pos 0 else rc, k')

  unfoldable pub revoke_open : Env → Globals K → ℤ × Globals K
  unfolding ensure_cri fault_budget rv_verbose open_epoch
  revoke_open env g =
      let (fails, left) = fault_budget env.env_open g.fault_open in
      let g₁ = record g { fault_open = left } in
      if fails
      then (minus_one, g₁)
      else (let (ready, g₂) = ensure_cri g₁ in
          if is_zero ready
          then (let (rc, k) = open_epoch g₂.kernel in
              (rc, record g₂ { kernel = k; verbose = rv_verbose env.revoke_verbose g₂.verbose }))
          else (minus_one, g₂))

  -- `stopless_revoke_close` once `g_cri` is set
  unfoldable pub close_epoch : K → ℤ × K
  unfolding wait
  close_epoch k =
      let target = os.enqueue k in
      let k' = wait 10 target (os.revoke last_pass target k).1 in (verdict target k', k')

  unfoldable pub revoke_close : Env → Globals K → ℤ × Globals K
  unfolding ensure_cri fault_budget rv_verbose close_epoch
  revoke_close env g =
      let (fails, left) = fault_budget env.env_close g.fault_close in
      let g₁ = record g { fault_close = left } in
      if fails
      then (minus_one, g₁)
      else (let (ready, g₂) = ensure_cri g₁ in
          if is_zero ready
          then (let (rc, k) = close_epoch g₂.kernel in
              (rc, record g₂ { kernel = k; verbose = rv_verbose env.revoke_verbose g₂.verbose }))
          else (minus_one, g₂))
