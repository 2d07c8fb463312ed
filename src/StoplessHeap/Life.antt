-- ===== src/StoplessHeap/Life.antt =====
-- stoplessHeap.cpp: the heap that `StoplessHeap::initialize` makes, and its history from then on.
use stopless_java_gc.Base.{ℕ, ◌<◌, ◌≤◌, ◌≡◌, Bool, true, false, some, List, word}
use stopless_java_gc.Cheri.{Cheri, Documented}
use stopless_java_gc.Forwarding.{chase_max}
use stopless_java_gc.Revoke.Calls.{Kernel, Memory}
use stopless_java_gc.Revoke.{Globals}
use stopless_java_gc.StoplessHeap.{Vm}
use stopless_java_gc.StoplessHeap.Collect.{Jvm, CycleEnv}
use stopless_java_gc.StoplessHeap.Barrier.{Shut, Barrier}
use stopless_java_gc.StoplessHeap.Marks.{AllGuarded}
use stopless_java_gc.StoplessHeap.LookUp.{AllLookUp}
use stopless_java_gc.StoplessHeap.Cycles.{Phase}
use stopless_java_gc.StoplessHeap.History.{History, history_heals}
use stopless_java_gc.StoplessHeap.Startup.{Process, Ready}

-- the heap as `initialize` leaves it, with its static variables as they are loaded
abbrev pub launched : {K Cap W : Type 0} → Process K Cap → (ℕ → W) → Jvm K Cap W
launched p words = record {
  space = record { arena = p.arena; forwarding = p.forwarding; words = words };
  globals = p.globals;
  close_pending = false;
  cycle = 0;
  marked_pending = 0;
}

-- The conclusion of `history_heals` for a process that `initialize` has made ready, if no epoch is open
-- then.
pub launched_heals :
    {K Cap W : Type 0}
    → ⦃ch : Cheri Cap⦄ → ⦃os : Kernel K⦄
    → (doc : Documented ch) (mem : Memory K Cap) (accepts : ℕ → Bool) (g₀ : Globals K)
      (max_heap_size : ℕ) (p : Process K Cap) (r : Ready doc mem accepts g₀ max_heap_size p)
      (law : Barrier mem r.attached.bitmap) (vm : Vm Cap) (env : CycleEnv) (words : ℕ → W)
      {h : Jvm K Cap W} {ph : Phase} {old marked : List Cap}
    → env.no_revoke ≡ false
    → env.revoke_concurrent ≡ true
    → ((n : ℕ) → env.move_limit ≡ some n → n < word)
    → Shut p.globals.kernel
    → History doc r.attached.mapping mem vm env (launched p words) h ph old marked
    → h.space.forwarding.table.size ≤ chase_max
    → AllGuarded law marked h.globals.kernel
      × AllLookUp doc r.attached.mapping h.space.forwarding old
launched_heals doc mem accepts g₀ n p r law vm env words revokes concurrent small shut history few =
    history_heals doc r.attached.mapping law vm env revokes concurrent small r.heap r.there r.begins
      r.attached.shadow r.attached.cri shut history few
