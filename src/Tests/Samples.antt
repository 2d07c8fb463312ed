-- ===== src/Tests/Samples.antt =====
-- The round trip of the samples, on a small count and on the largest of 64 bits.
use stopless_java_gc.Base.{◌≡◌, some, [], ◌∷◌, arith}
use stopless_java_gc.Measurement.{PmuSample}
use stopless_java_gc.Measurement.RoundTrip.{AllSamples, read_lines, appended, read_lines-appended}

abbrev first_sample : PmuSample
first_sample = record { cycles = 120; instructions = 0; cap_traps = 3; gc_barrier_slot_cycles = 0 }

abbrev last_sample : PmuSample
last_sample = record {
  cycles = 18446744073709551615;
  instructions = 7;
  cap_traps = 0;
  gc_barrier_slot_cycles = 10;
}

are_samples : AllSamples (first_sample ∷ last_sample ∷ [])
are_samples = (
  record {
    cycles = omega arith;
    instructions = omega arith;
    cap_traps = omega arith;
    gc_barrier_slot_cycles = omega arith;
  },
  (
    record {
      cycles = omega arith;
      instructions = omega arith;
      cap_traps = omega arith;
      gc_barrier_slot_cycles = omega arith;
    },
    tt,
  ),
)

read_lines-appended_example :
    read_lines 2 (appended (first_sample ∷ last_sample ∷ []) [])
    ≡ some (first_sample ∷ last_sample ∷ [])
read_lines-appended_example = read_lines-appended (first_sample ∷ last_sample ∷ []) are_samples
