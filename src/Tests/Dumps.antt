-- ===== src/Tests/Dumps.antt =====
-- The theorem on the crash dump, at the fault of `Faults` and two memories that differ beyond reach.
use mathlib.Core.Bool.{true≢false}
use stopless_java_gc.Base.Int.{pos}
use stopless_java_gc.Base.{
  ℕ, ◌+◌, ◌<◌, ◌≤◌, ◌≡◌, refl, sym, ◌∙◌, true, false, some, none, List, [], ◌∷◌, arith,
  if◌then◌else◌, ltb, zero, suc, ◌++◌, ◌&&◌, ◌^◌, Bool,
}
use stopless_java_gc.Handler.Report.{Memory, report, bases, cap_regs}
use stopless_java_gc.Handler.Report.Safe.{Readable, by_first, by_later, InStack, Agree, report_safe}
use stopless_java_gc.Handler.Dump.{covers}
use stopless_java_gc.Tests.Machine.{Flat, flat, flat_Documented, cap_to, null}
use stopless_java_gc.Tests.Faults.{context, fault}
use stopless_java_gc.Handler.Symbols.{Names, SameNames}
use stopless_java_gc.Handler.Names.{is_plausible}

-- the addresses from 8192 up to the middle of the address space
abbrev beyond : ℕ → Bool
beyond a = ltb 8191 a && ltb a (2 ^ 63)

-- memory that holds 7 at each address but there
abbrev memory : ℕ → Memory Flat
memory w = record {
  word8 = λ a. if beyond a then w else 7;
  word32 = λ a. if beyond a then w else 7;
  word64 = λ a. if beyond a then w else 7;
  capability = λ a. null;
}

-- Every capability of a list ends below 8192.
data Low : List Flat → Type 0 where
  empty : Low []
  also : {c : Flat} {bs : List Flat} → c.base + c.len ≤ 8192 → Low bs → Low (c ∷ bs)

covers_low :
    (c : Flat) (nbytes a : ℕ)
    → c.base + c.len ≤ 8192
    → 0 < nbytes
    → nbytes ≤ 16
    → covers c a nbytes ≡ true
    → beyond a ≡ false
covers_low c nbytes a low some_bytes small e = ground (arith, low, some_bytes, small, e)

Readable-Low :
    (nbytes a : ℕ) (bs : List Flat)
    → 0 < nbytes
    → nbytes ≤ 16
    → Low bs
    → Readable nbytes a bs
    → beyond a ≡ false
Readable-Low nbytes a [] some_bytes small low r = elim r [ ]
Readable-Low nbytes a (c ∷ bs) some_bytes small (also low rest) (by_first hit) =
    covers_low c nbytes a low some_bytes small hit
Readable-Low nbytes a (c ∷ bs) some_bytes small (also low rest) (by_later r) =
    Readable-Low nbytes a bs some_bytes small rest r

Low-cap_regs :
    (rounds i : ℕ) (rest : List Flat) → Low rest → Low (cap_regs context rounds i ++ rest)
unfolding cap_regs
Low-cap_regs zero i rest low = low
Low-cap_regs (suc rounds) i rest low = also (ground arith) (Low-cap_regs rounds (suc i) rest low)

Low-bases : Low (bases context)
unfolding bases
Low-bases =
    Low-cap_regs 31 0 (cap_to 64 4 ∷ cap_to 4096 64 ∷ [])
      (also (omega arith) (also (omega arith) empty))

same : (w w' a : ℕ) → beyond a ≡ false → (if beyond a then w else 7) ≡ (if beyond a then w' else 7)
same w w' a e = rw e

in_stack : (a : ℕ) → InStack (cap_to 4096 64) a → beyond a ≡ false
in_stack a (live, above, below) = ground (arith, above, below)

agree : Agree context (memory 8) (memory 9)
agree = record {
  bytes =
      λ a r. same 8 9 a (Readable-Low 1 a (bases context) (omega arith) (omega arith) Low-bases r);
  instructions =
      λ a r. same 8 9 a (Readable-Low 4 a (bases context) (omega arith) (omega arith) Low-bases r);
  words =
      λ a r. same 8 9 a (Readable-Low 8 a (bases context) (omega arith) (omega arith) Low-bases r);
  capabilities = λ a r. refl;
  stack = λ a r. same 8 9 a (in_stack a r);
}

-- a loader that knows every address, and a JVM that knows none
-- every address is in a library, and a VM that finds the byte `b` in its memory takes it for the index
-- of each bytecode
abbrev names : ℕ → Names Flat
names b = record {
  dladdr = λ c. some (record { dli_fname = some "libjvm.so"; dli_fbase = null; dli_sname = none });
  hotspot = record {
    interpreter_contains = λ pc. false;
    codelet_containing = λ pc. none;
    find_blob_unsafe = λ pc. none;
    is_valid_method = λ m. true;
    is_native = λ m. false;
    contains = λ m bcp. true;
    bci_from = λ m bcp. pos b;
    name_and_sig = λ m. "main";
  };
  names_methods = true;
}

-- c12 is no pointer into metaspace
implausible : is_plausible (context.cap_x 12) ≡ false
unfolding is_plausible
implausible = refl

names_agree : SameNames (context.cap_x 12) (context.cap_x 22) (names 8) (names 9)
names_agree = record {
  dladdr = λ c. refl;
  answers = record {
    interpreter = λ pc. refl;
    codelet = λ pc. refl;
    blob = λ pc. refl;
    valid = λ e. refl;
    name = λ e v. refl;
    bytecode = λ e v. absurd (true≢false (sym e ∙ implausible));
  };
  symbols = refl;
}

report_safe_example :
    report (2 ^ 14) (some (64, 8200)) (names 8) 11 fault (memory 8) context
    ≡ report (2 ^ 14) (some (64, 8200)) (names 9) 11 fault (memory 9) context
report_safe_example =
    report_safe flat_Documented (2 ^ 14) (some (64, 8200)) (names 8) (names 9) 11 fault context
      (memory 8) (memory 9) agree names_agree
