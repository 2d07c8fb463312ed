-- ===== src/Tests/Epochs.antt =====
-- The theorems on revocation, at a kernel whose closing passes clear one epoch each.
use stopless_java_gc.Base.{
  ℕ, ◌+◌, ◌-◌, ◌≡◌, ◌↔◌, refl, Bool, true, false, not, ◌&&◌, ◌||◌, none, some, arith, leb, ltb,
}
use stopless_java_gc.Base.Int.{pos, negsuc}
use stopless_java_gc.Arena.{Arena}
use stopless_java_gc.Revoke.Calls.{
  Flags, open_and_close, open_only, last_pass, Kernel, Advances, Memory, ShadowLaws,
}
use stopless_java_gc.Revoke.{Globals, Env, fault_budget, revoke_close}
use stopless_java_gc.Revoke.Epoch.{ClearsWithin, revoke_close_iff}
use stopless_java_gc.Tests.Machine.{Flat, flat, arena_cap, cap_to}

record Machine : Type 0 where
  enq : ℕ
  deq : ℕ
  marks : ℕ → Bool

abbrev pass : Flags → Machine → Machine
pass open_and_close k = record k { enq = k.enq + 1 }
pass open_only k = record k { enq = k.enq + 1 }
pass last_pass k = record k { deq = k.deq + 1 }

instance abbrev kernel : Kernel Machine
kernel = record {
  get_info = λ k. (pos 0, k);
  enqueue = λ k. k.enq;
  dequeue = λ k. k.deq;
  revoke = λ f t k. (pos 0, pass f k);
  clears = λ d t. leb t d;
}

advances : Advances kernel
advances = record {
  lag = λ t k. t - k.deq;
  done = λ t k e. ground (arith, e);
  closer = λ t k e. ground (arith, e);
  stays = λ t k e. ground (arith, e);
}

abbrev mem : Memory Machine Flat
mem = record {
  base_mem_nomap = λ k. 65536;
  map_arena = λ n k. (some arena_cap, k);
  unmap = λ p n k. k;
  get_shadow = λ p k. (some (cap_to 65536 1024), k);
  set_raw = λ b s lo hi k. record k { marks = λ a. (leb lo a && ltb a hi) || k.marks a };
  clear_raw = λ b s lo hi k. record k { marks = λ a. not (leb lo a && ltb a hi) && k.marks a };
  set_cap = λ b s c k. (pos 0, k);
  marked = λ s a k. k.marks a;
}

shadow_laws : ShadowLaws mem
shadow_laws = record {
  marked-set_raw = λ b s lo hi k a. refl;
  marked-clear_raw = λ b s lo hi k a. refl;
}

-- three closing passes are missing
abbrev behind : Machine
behind = record { enq = 5; deq = 2; marks = λ a. false }

abbrev globals : Globals Machine
globals = record {
  cri = true;
  verbose = pos 0;
  fault_open = negsuc 1;
  fault_close = negsuc 1;
  kernel = behind;
}

abbrev env : Env
env = record { revoke_verbose = false; env_open = none; env_close = none }

revoke_close_iff_example : ((revoke_close env globals).0 ≡ pos 0) ↔ ClearsWithin 11 5 behind
unfolding fault_budget
revoke_close_iff_example = revoke_close_iff env globals refl refl

abbrev arena : Arena Flat
arena = record {
  base = some arena_cap;
  size = 8192;
  shadow = some (cap_to 65536 1024);
  shadow_base_addr = 65536;
  bump_offset = 128;
}
