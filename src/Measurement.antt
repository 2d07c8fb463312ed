-- ===== src/Measurement.antt =====
-- measurement/pmu_sample.cc: the sampling window and the line that it writes. The clock is a parameter,
-- and a file is the list of its bytes.
pub mod Decimal
pub mod RoundTrip
use Prim.Native.Char.{code}
use stopless_java_gc.Base.{
  ℕ, zero, suc, ◌+◌, ◌/◌, ◌%◌, ◌^◌, ◌<◌, ◌≡◌, refl, Bool, List, [], ◌∷◌, ◌++◌, String, ltb,
  if◌then◌else◌, sub64, arith,
}

-- The bytes of a text in ASCII.
abbrev pub codes : String → List ℕ
codes String.[] = []
codes (String.◌∷◌ c s) = code c ∷ codes s

pub record PmuSample : Type 0 where
  pub cycles : ℕ
  pub instructions : ℕ
  pub cap_traps : ℕ
  pub gc_barrier_slot_cycles : ℕ

pub record PmuWindow : Type 0 where
  pub start : PmuSample

-- `PmuSample{ now_ns(), 0, 0, 0 }`
unfoldable pub reading : ℕ → PmuSample
reading ns = record { cycles = ns; instructions = 0; cap_traps = 0; gc_barrier_slot_cycles = 0 }

-- the constructor of `PmuWindow`, from the time in nanoseconds
unfoldable pub open_window : ℕ → PmuWindow
unfolding reading
open_window ns = record { start = reading ns }

-- `PmuWindow::sample`, from the time in nanoseconds
unfoldable pub sample : ℕ → PmuWindow → PmuSample
unfolding reading
sample ns w =
    let now = reading ns in
    record {
      cycles = sub64 now.cycles w.start.cycles;
      instructions = sub64 now.instructions w.start.instructions;
      cap_traps = sub64 now.cap_traps w.start.cap_traps;
      gc_barrier_slot_cycles = sub64 now.gc_barrier_slot_cycles w.start.gc_barrier_slot_cycles;
    }

-- `%llu`, on fuel for the digits
unfoldable pub decimal : ℕ → ℕ → List ℕ
decimal zero n = []
decimal (suc fuel) n =
    let rest = decimal fuel (n / 10) in
    if ltb n 10 then (48 + n) ∷ [] else rest ++ ((48 + n % 10) ∷ [])

-- a number below 2^64 has at most twenty digits
abbrev pub llu : ℕ → List ℕ
llu n = decimal 20 n

-- what `fprintf` appends
unfoldable pub json_line : PmuSample → List ℕ
json_line s =
    codes "{\"cycles\":"
    ++ (llu s.cycles
        ++ (codes ",\"instructions\":"
            ++ (llu s.instructions
                ++ (codes ",\"cap_traps\":"
                    ++ (llu s.cap_traps
                        ++ (codes ",\"gc_barrier_slot_cycles\":"
                            ++ (llu s.gc_barrier_slot_cycles ++ codes "}\n")))))))

-- `append_pmu_json`; the Boolean says whether `fopen` succeeds.
unfoldable pub append_pmu_json : Bool → List ℕ → PmuSample → List ℕ
unfolding json_line
append_pmu_json opens file s = if opens then file ++ json_line s else file

-- A window that is sampled `d` nanoseconds after it was opened, less than 2^64, gives `d` as its
-- cycles, also where the clock has wrapped, and no instruction, trap or barrier.
pub sample-open_window :
    (ns d : ℕ) → ns < 2 ^ 64 → d < 2 ^ 64 → sample ((ns + d) % 2 ^ 64) (open_window ns) ≡ reading d
unfolding sample open_window
sample-open_window ns d h l = let e : sub64 ((ns + d) % 2 ^ 64) ns ≡ d = omega arith in rw e
