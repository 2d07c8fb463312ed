-- ===== src/Tests/Cycles.antt =====
-- The theorem on a whole cycle, at the object of `Collect` and a kernel that untags what is marked.
use stopless_java_gc.Base.{
  ℕ, ◌+◌, ◌≡◌, refl, Bool, true, false, not, ◌&&◌, ◌||◌, some, arith, leb, ltb,
}
use stopless_java_gc.Base.Int.{pos, negsuc}
use stopless_java_gc.Revoke.Calls.{
  Flags, open_and_close, open_only, last_pass, Kernel, Memory, ShadowLaws,
}
use stopless_java_gc.Revoke.{Globals, revoke_now}
use stopless_java_gc.Revoke.Mark.{mark_revoke}
use stopless_java_gc.Handler.{is_revoked, is_revocation}
use stopless_java_gc.Collector.Heals.{Redirected}
use stopless_java_gc.Collector.Cycle.{Passes, no_pass, pass, Sweeps, cycle_heals}
use stopless_java_gc.Tests.Machine.{Flat, flat, flat_Documented, arena_cap, cap_to}
use stopless_java_gc.Tests.Faults.{heap, context, load_c3, fault, quiet}
use stopless_java_gc.Tests.Collect.{
  arena_at, request, allocated-Reach, copy, copied, room, moved, insert_made, few, below,
}

record Machine : Type 0 where
  enq : ℕ
  deq : ℕ
  marks : ℕ → Bool
  regs : ℕ → Flat

abbrev kill : (ℕ → Bool) → Flat → Flat
kill marks c = record c { tag = c.tag && not (marks c.base) }

abbrev run : Flags → Machine → Machine
run open_and_close k = record k { enq = k.enq + 1; regs = λ i. kill k.marks (k.regs i) }
run open_only k = record k { enq = k.enq + 1 }
run last_pass k = record k { deq = k.deq + 1 }

instance abbrev kernel : Kernel Machine
kernel = record {
  get_info = λ k. (pos 0, k);
  enqueue = λ k. k.enq;
  dequeue = λ k. k.deq;
  revoke = λ f t k. (pos 0, run f k);
  clears = λ d t. leb t d;
}

abbrev mem : Memory Machine Flat
mem = record {
  base_mem_nomap = λ k. 65536;
  map_arena = λ n k. (some arena_cap, k);
  unmap = λ p n k. k;
  get_shadow = λ p k. (some (cap_to 65536 1024), k);
  set_raw = λ b s lo hi k. record k { marks = λ a. (leb lo a && ltb a hi) || k.marks a };
  clear_raw = λ b s lo hi k. record k { marks = λ a. not (leb lo a && ltb a hi) && k.marks a };
  set_cap = λ b s c k. (pos 0, k);
  marked = λ s a k. k.marks a;
}

shadow_laws : ShadowLaws mem
shadow_laws = record {
  marked-set_raw = λ b s lo hi k a. refl;
  marked-clear_raw = λ b s lo hi k a. refl;
}

base-run : (f : Flags) (k : Machine) (i : ℕ) → ((run f k).regs i).base ≡ (k.regs i).base
base-run open_and_close k i = refl
base-run open_only k i = refl
base-run last_pass k i = refl

address-run : (f : Flags) (k : Machine) (i : ℕ) → ((run f k).regs i).address ≡ (k.regs i).address
address-run open_and_close k i = refl
address-run open_only k i = refl
address-run last_pass k i = refl

-- closing passes leave the registers
regs-Passes : {k k' : Machine} (i : ℕ) → Passes k k' → k'.regs i ≡ k.regs i
regs-Passes i no_pass = refl
regs-Passes i (pass target p) = regs-Passes i p

killed :
    (k k' : Machine) (i : ℕ)
    → k.marks (k.regs i).base ≡ true
    → Passes (run open_and_close k) k'
    → is_revoked (k'.regs i) ≡ true
killed k k' i marked p = rw (regs-Passes i p) (ground (arith, marked))

abbrev law : Sweeps mem (cap_to 65536 1024)
law = record {
  held = λ k i. k.regs i;
  held-set_raw = λ sbase lo hi k i. refl;
  base-revoke = λ f target k i. base-run f k i;
  address-revoke = λ f target k i. address-run f k i;
  swept = λ k k' i marked plain p clears. killed k k' i marked p;
}

-- Before the cycle each register holds offset 8 of the object at 4096.
abbrev before : Globals Machine
before = record {
  cri = true;
  verbose = pos 0;
  fault_open = negsuc 1;
  fault_close = negsuc 1;
  kernel = record {
    enq = 0;
    deq = 0;
    marks = λ a. false;
    regs = λ i. record { tag = true; address = 4104; base = 4096; len = 64; perms = 5 };
  };
}

cycle_heals_example :
    Redirected flat_Documented arena_cap below allocated-Reach 4096 64 true copy
      (arena_at 128)
      moved
      (request 64)
      (omega arith)
      (omega arith)
      room
      copied
      insert_made
      load_c3
      quiet
      fault
      context
      heap
unfolding is_revocation revoke_now mark_revoke
cycle_heals_example =
    cycle_heals flat_Documented arena_cap below shadow_laws law allocated-Reach 4096 64 true copy
      (arena_at 128) moved (request 64) (omega arith) (omega arith) room copied insert_made before
      load_c3 quiet fault context heap refl (omega arith) refl few refl (omega arith) refl
      (omega arith) (omega arith) refl refl refl
