-- ===== src/Tests/Startup.antt =====
-- The theorems on the start of the VM's heap and on the sleeps of the collector's thread, in a fresh
-- process.
use stopless_java_gc.Base.{
  ℕ, ◌≡◌, refl, subst, inl, inr, true, false, Option, none, some, leb, if◌then◌else◌, arith,
  Bool-cases,
}
use stopless_java_gc.Base.Int.{pos}
use stopless_java_gc.ForwardTable.{unset}
use stopless_java_gc.Handler.Install.{by_other}
use stopless_java_gc.Allocator.Object.{Root}
use stopless_java_gc.Revoke.Calls.{Memory}
use stopless_java_gc.StoplessHeap.Startup.{Process, Maps, Starts, initialize, initialize-Starts}
use stopless_java_gc.Tests.Machine.{Flat, flat, flat_Documented, cap_to}
use stopless_java_gc.Tests.Pauses.{Machine, kernel, mem, start}

-- a mapping at 4096, if the address space has room for it
abbrev mapping : ℕ → Option Flat
mapping n = if leb n 281474976710656 then some (cap_to 4096 n) else none

abbrev mapper : Memory Machine Flat
mapper = record mem { map_arena = λ n k. (mapping n, k) }

mapping-Root : (n : ℕ) (p : Flat) → mapping n ≡ some p → Root flat_Documented p n
mapping-Root n p e = elim (Bool-cases (leb n 281474976710656)) [
  | inr off ↦ absurd (cc (e, off))
  | inl fits ↦
      let same : cap_to 4096 n ≡ p = cc (e, fits) in
      subst (λ (c : Flat). Root flat_Documented c n) same
        (record {
          live = refl;
          at_start = refl;
          covers = omega arith;
          within = ground (arith, fits);
        })
]

mapper-Maps : Maps flat_Documented mapper
mapper-Maps = record { mapped_root = λ n k p e. mapping-Root n p e }

abbrev fresh : Process Machine Flat
fresh = record {
  forwarding = record { table = unset; arena_base = none; derive_fail = 0 };
  signals = record {
    action = λ s. by_other 0;
    prev_sa = by_other 0;
    armed = false;
    altstack = false;
  };
  globals = start.globals;
  arena = none;
  interval_ms = none;
}

-- a heap of 8 MiB, collected each 500 ms
initialize-Starts_example :
    Starts flat_Documented mapper
      (λ s. true)
      true
      8388608
      fresh
      (initialize mapper (λ s. true) true true 8388608 (some (pos 500)) fresh)
initialize-Starts_example =
    initialize-Starts flat_Documented mapper (λ s. true) true 8388608 (some (pos 500)) fresh
      mapper-Maps refl
