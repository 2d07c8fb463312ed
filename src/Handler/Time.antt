-- ===== src/Handler/Time.antt =====
-- The time that C11_HEAL_TIME adds up.
use stopless_java_gc.Base.{ℕ, ◌+◌, ◌*◌, ◌≤◌, ◌<◌, ◌≡◌, arith, word}
use stopless_java_gc.Handler.{Clock, Timespec, add_heal_ns}

-- a reading in nanoseconds
abbrev pub ns_of : Timespec → ℕ
ns_of t = t.sec * 1_000_000_000 + t.nsec

-- `stopless_handler_heal_ns` grows by the time between the two readings, also where the nanoseconds
-- of the second are fewer and the difference wraps, as long as the readings and the sum are below 2 ^ 64.
pub add_heal_ns_elapsed :
    (c : Clock) (ns elapsed : ℕ)
    → ns_of c.after ≡ ns_of c.before + elapsed
    → c.before.sec ≤ c.after.sec
    → c.before.nsec < 1_000_000_000
    → c.after.nsec < 1_000_000_000
    → c.after.sec * 1_000_000_000 < word
    → ns + elapsed < word
    → add_heal_ns c ns ≡ ns + elapsed
unfolding add_heal_ns
add_heal_ns_elapsed c ns elapsed e order b a big small = omega arith
