-- ===== src/Tests/Pauses.antt =====
-- The theorems on the VM's heap: a cycle that moves the object at 8256 with an epoch opened in the
-- pause, closed afterwards by the collector's thread.
use stopless_java_gc.Base.{
  ℕ, ◌+◌, ◌<◌, ◌≡◌, refl, Bool, true, false, ◌||◌, inl, Option, none, some, List, [], ◌∷◌, ◌++◌,
  arith, leb, ltb, ◌==◌, length, word,
}
use stopless_java_gc.Base.Int.{ℤ, pos, negsuc}
use stopless_java_gc.Arena.{Arena}
use stopless_java_gc.Allocator.{alloc}
use stopless_java_gc.Revoke.Calls.{Flags, open_and_close, open_only, last_pass, Kernel, Memory}
use stopless_java_gc.Revoke.{revoke_open}
use stopless_java_gc.ForwardTable.{init, maybe_grow, find, mix}
use stopless_java_gc.Forwarding.{lookup, cas_insert}
use stopless_java_gc.Revoke.Mark.{mark_revoke_cap}
use stopless_java_gc.Collector.Cycle.{Passes, no_pass, pass}
use stopless_java_gc.StoplessHeap.{
  Space, Vm, Mover, Scanned, scanned, scan_waits, scan_null, scan_roots, mem_allocate, move_object,
}
use stopless_java_gc.StoplessHeap.Collect.{
  Jvm, CycleEnv, Pause, resumes, dies, hangs, fresh_mover, options, limit_of, doit, mark_all,
  close_call, after_close,
}
use stopless_java_gc.StoplessHeap.Scan.{Bounded, scan_within_limit}
use stopless_java_gc.StoplessHeap.Copy.{move_object_copies}
use stopless_java_gc.StoplessHeap.Barrier.{Barrier}
use stopless_java_gc.StoplessHeap.Marks.{took, AllGuarded}
use stopless_java_gc.StoplessHeap.Cycles.{
  Reach, idle, begin, next, collect, test, close, clear, cycles_stay_guarded,
}
use stopless_java_gc.Tests.Machine.{Flat, flat, arena_cap, cap_to}
use stopless_java_gc.Tests.Tables.{moved_table}

pub record Machine : Type 0 where
  pub enq : ℕ
  pub deq : ℕ
  pub marks : ℕ → Bool
  pub barred : ℕ → Bool

abbrev pub run : Flags → Machine → Machine
run open_and_close k = record k { enq = k.enq + 1; barred = λ a. k.marks a || k.barred a }
run open_only k = record k { enq = k.enq + 1; barred = λ a. k.marks a || k.barred a }
run last_pass k = record k { deq = k.deq + 1 }

instance abbrev pub kernel : Kernel Machine
kernel = record {
  get_info = λ k. (pos 0, k);
  enqueue = λ k. k.enq;
  dequeue = λ k. k.deq;
  revoke = λ f t k. (pos 0, run f k);
  clears = λ d t. leb t d;
}

abbrev pub mem : Memory Machine Flat
mem = record {
  base_mem_nomap = λ k. 65536;
  map_arena = λ n k. (some arena_cap, k);
  unmap = λ p n k. k;
  get_shadow = λ p k. (some (cap_to 65536 1024), k);
  set_raw = λ b s lo hi k. k;
  clear_raw = λ b s lo hi k. k;
  set_cap = λ b s c k. (pos 0, record k { marks = λ a. (c.base == a) || k.marks a });
  marked = λ s a k. k.marks a;
}

pub barred-run : (f : Flags) (k : Machine) (a : ℕ) → k.barred a ≡ true → (run f k).barred a ≡ true
barred-run open_and_close k a e = ground (arith, e)
barred-run open_only k a e = ground (arith, e)
barred-run last_pass k a e = e

pub marks-run : (f : Flags) (k : Machine) (a : ℕ) → k.marks a ≡ true → (run f k).marks a ≡ true
marks-run open_and_close k a e = e
marks-run open_only k a e = e
marks-run last_pass k a e = e

pub barred-Passes : {k k' : Machine} (a : ℕ) → Passes k k' → k.barred a ≡ true → k'.barred a ≡ true
barred-Passes a no_pass e = e
barred-Passes a (pass target p) e = barred-Passes a p e

pub own_mark : (b : ℕ) (m : Bool) → ((b == b) || m) ≡ true
own_mark b m = ground arith

pub or_left : (a b : Bool) → a ≡ true → (a || b) ≡ true
or_left a b e = ground (arith, e)

pub or_right : (a b : Bool) → b ≡ true → (a || b) ≡ true
or_right a b e = ground (arith, e)

-- opening always advances
pub always : (n d : ℕ) → (ltb n (n + 1) || true) ≡ false → leb (n + 1) d ≡ true
always n d off = ground (arith, off)

abbrev pub law : Barrier mem (cap_to 65536 1024)
law = record {
  guarded = λ a k. k.barred a;
  marked-set_cap = λ b c k fine. own_mark c.base (k.marks c.base);
  marks-set_cap = λ b c k a e. or_right (c.base == a) (k.marks a) e;
  guarded-set_cap = λ b c k a e. e;
  Shut-set_cap = λ b c k e. e;
  marks-revoke = λ f t k a e. marks-run f k a e;
  guarded-revoke = λ f t k a e. barred-run f k a e;
  enqueue-last_pass = λ t k. refl;
  guarded-opening = λ k a shut on e. or_left (k.marks a) (k.barred a) e;
  Shut-opening = λ k shut off. always k.enq k.deq off;
  guarded-swept = λ k k' a e p clears. barred-Passes a p (or_left (k.marks a) (k.barred a) e);
}

-- every object has four words and a class with a name
abbrev pub vm : Vm Flat
vm = record {
  size = λ o. 4;
  klass = λ o. some (record { external_name = some "Node"; is_array_klass = false });
  strstr = λ s t. true;
  strcmp = λ s t. false;
}

abbrev pub env : CycleEnv
env = record {
  move_limit = none;
  revoke_batch = none;
  move_klass = none;
  no_revoke = false;
  no_fixup = false;
  skip_complex = false;
  revoke_concurrent = true;
  revoke_env = record { revoke_verbose = false; env_open = none; env_close = none };
}

abbrev pub arena : Option (Arena Flat)
arena = some (record {
  base = some arena_cap;
  size = 8192;
  shadow = some (cap_to 65536 1024);
  shadow_base_addr = 65536;
  bump_offset = 4224;
})

abbrev pub space : Space Flat ℕ
space = record {
  arena = arena;
  forwarding = record { table = moved_table; arena_base = some arena_cap; derive_fail = 0 };
  words = λ a. a;
}

abbrev pub start : Jvm Machine Flat ℕ
start = record {
  space = space;
  globals = record {
    cri = true;
    verbose = pos 0;
    fault_open = negsuc 1;
    fault_close = negsuc 1;
    kernel = record { enq = 0; deq = 0; marks = λ a. false; barred = λ a. false };
  };
  close_pending = false;
  cycle = 0;
  marked_pending = 0;
}

-- a null root, one that the table forwards, and one that it does not
abbrev roots : List (Option Flat)
roots = none ∷ some (cap_to 4096 64) ∷ some (cap_to 8256 64) ∷ []

-- the arena's next object
abbrev copy : Flat
copy = cap_to 8320 64

move_object_copies_example :
    let moved = move_object vm space (cap_to 8256 64) in
    (moved.0 ≡ copy) × (moved.1.words 8352 ≡ 8288) × (moved.1.words 5000 ≡ 5000)
unfolding mem_allocate alloc
move_object_copies_example =
    move_object_copies vm space (cap_to 8256 64) copy _ refl (omega arith) 2 5000 (omega arith)
      (inl (omega arith))

abbrev pub heap_of : Pause Machine Flat ℕ → Jvm Machine Flat ℕ
heap_of (resumes h m qs n swept) = h
heap_of dies = start
heap_of hangs = start

abbrev pub mover_of : Pause Machine Flat ℕ → Mover Flat ℕ
mover_of (resumes h m qs n swept) = m
mover_of dies = fresh_mover space
mover_of hangs = fresh_mover space

abbrev pub roots_of : Pause Machine Flat ℕ → List (Option Flat)
roots_of (resumes h m qs n swept) = qs
roots_of dies = []
roots_of hangs = []

abbrev pause : Pause Machine Flat ℕ
pause = doit mem vm true env start roots

-- the threads run again with one object moved, one revoked and no sweep
runs_on : pause ≡ resumes (heap_of pause) (mover_of pause) (roots_of pause) 1 false
unfolding doit maybe_grow scan_roots lookup find mix alloc cas_insert revoke_open mark_all
    mark_revoke_cap
runs_on = refl

pending_after : (heap_of pause).close_pending ≡ true
unfolding doit maybe_grow scan_roots lookup find mix alloc cas_insert revoke_open mark_all
    mark_revoke_cap
pending_after = refl

-- the collector's thread has closed the epoch
abbrev closed_call : ℤ × Jvm Machine Flat ℕ
closed_call = close_call env.revoke_env (heap_of pause)

-- the copies that the cycle has marked
abbrev pub marked_copies : List Flat
marked_copies =
    took mem (mover_of pause).space.arena (mover_of pause).moved_from start.globals.kernel ++ []

whole_cycle : Reach mem vm env start (after_close closed_call.0 closed_call.1) idle marked_copies
whole_cycle =
    next
      (next
        (next
          (next begin (
            collect true roots (roots_of pause) (heap_of pause) (mover_of pause) 1 false idle
              runs_on))
          (test pending_after))
        close)
      (clear closed_call.0)

pub limits : (n : ℕ) → ◌≡◌ {A = Option ℕ} none (some n) → n < word
limits n e = absurd (cc)

cycles_stay_guarded_example :
    AllGuarded law marked_copies (after_close closed_call.0 closed_call.1).globals.kernel
cycles_stay_guarded_example =
    cycles_stay_guarded law vm env refl refl limits refl refl refl whole_cycle

abbrev scan : Scanned Flat ℕ
scan = scan_roots vm true (options env false) (fresh_mover space) roots

abbrev scan_mover : Scanned Flat ℕ → Mover Flat ℕ
scan_mover (scanned m qs) = m
scan_mover scan_waits = fresh_mover space
scan_mover scan_null = fresh_mover space

abbrev scan_list : Scanned Flat ℕ → List (Option Flat)
scan_list (scanned m qs) = qs
scan_list scan_waits = []
scan_list scan_null = []

scan_ends : scan ≡ scanned (scan_mover scan) (scan_list scan)
unfolding scan_roots lookup find mix alloc cas_insert limit_of init
scan_ends = refl

limit_in : (options env false).limit < word
unfolding limit_of
limit_in = omega arith

scan_within_limit_example :
    Bounded (options env false).limit (some (cap_to 65536 1024)) (scan_mover scan)
    × (length (scan_list scan) ≡ 3)
scan_within_limit_example =
    scan_within_limit vm true (options env false) (some (cap_to 65536 1024)) limit_in
      (fresh_mover space) (scan_mover scan) roots (scan_list scan)
      (record { count = refl; under = omega arith; shadowed = refl }) scan_ends
