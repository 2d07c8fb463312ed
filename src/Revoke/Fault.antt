-- ===== src/Revoke/Fault.antt =====
-- Fault injection: which calls of `stopless_revoke_open` and `stopless_revoke_close` are made to fail.
use stopless_java_gc.Base.{ℕ, zero, suc, ◌-◌, ◌≡◌, refl, ap, ◌∙◌, Option, some, ltb, arith}
use stopless_java_gc.Base.Int.{ℤ, pos, negsuc}
use stopless_java_gc.Revoke.{fault_budget}

-- the counter after so many calls of `fault_budget`
unfoldable pub counter_after : Option ℤ → ℕ → ℤ → ℤ
counter_after env zero counter = counter
counter_after env (suc calls) counter = counter_after env calls (fault_budget env counter).1

counter_pos : (env : Option ℤ) (calls n : ℕ) → counter_after env calls (pos n) ≡ pos (n - calls)
unfolding counter_after fault_budget
counter_pos env zero n = ap pos (omega arith)
counter_pos env (suc calls) zero = counter_pos env calls zero ∙ ap pos (omega arith)
counter_pos env (suc calls) (suc n) = counter_pos env calls n ∙ ap pos (omega arith)

budget_pos : (env : Option ℤ) (n : ℕ) → (fault_budget env (pos n)).0 ≡ ltb 0 n
unfolding fault_budget
budget_pos env zero = refl
budget_pos env (suc n) = ground arith

-- With the variable set to `n`, `fault_budget` fails the first `n` calls and no later one, from the
-- initial counter -2 on.
pub fault_budget_first :
    (n calls : ℕ)
    → (fault_budget (some (pos n)) (counter_after (some (pos n)) calls (negsuc 1))).0 ≡ ltb calls n
unfolding counter_after fault_budget
fault_budget_first n zero = budget_pos (some (pos n)) n
fault_budget_first n (suc calls) =
    ap (λ c. (fault_budget (some (pos n)) c).0) (counter_pos (some (pos n)) (suc calls) n)
    ∙ (budget_pos (some (pos n)) (n - suc calls) ∙ ground arith)
