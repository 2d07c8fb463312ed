-- ===== src/Base/Int.antt =====
-- Signed integers, as return codes and counters use them.
use stopless_java_gc.Base.{ℕ, zero, suc, Bool, true, false}

-- `negsuc n` is -(n + 1).
pub data ℤ : Type 0 where
  pos : ℕ → ℤ
  negsuc : ℕ → ℤ

abbrev pub is_zero : ℤ → Bool
is_zero (pos zero) = true
is_zero (pos (suc n)) = false
is_zero (negsuc n) = false

abbrev pub minus_one : ℤ
minus_one = negsuc 0
