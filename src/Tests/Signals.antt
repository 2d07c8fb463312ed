-- ===== src/Tests/Signals.antt =====
-- The theorems on the registration of the handlers, where the kernel accepts every one.
use stopless_java_gc.Base.{ℕ, ◌≡◌, refl, Bool, true, false, none, some}
use stopless_java_gc.Base.Int.{pos}
use stopless_java_gc.Handler.{Siginfo, SafeFetch, is_revocation, is_label, safefetch_redirect}
use stopless_java_gc.Handler.Unhealed.{deliver, calls, unhealed_again}
use stopless_java_gc.Tests.Machine.{flat}
use stopless_java_gc.Tests.Faults.{context, heap, load_c3, quiet}
use stopless_java_gc.Handler.Install.{Signals, by_other, sig_prot, handler_install}

abbrev every : ℕ → Bool
every sig = true

abbrev fresh : Signals
fresh = record {
  action = λ sig. by_other sig;
  prev_sa = by_other 0;
  armed = false;
  altstack = false;
}

-- a fault by a capability that is too short, where the PC is no label
abbrev too_short : Siginfo
too_short = record { si_code = pos 1; si_addr = 4104 }

abbrev labels : SafeFetch
labels = record { fault_32 = some 128; continuation_32 = 256; fault_n = none; continuation_n = 0 }

-- SIGPROT is 34: after one installation its former handler is called, after two the calls go deeper than 9
unhealed_again_example :
    let once = (handler_install every fresh).1 in
    let twice = (handler_install every once).1 in
    (deliver labels load_c3 quiet too_short context heap 2 once (once.action sig_prot)
      ≡ some (calls (by_other 34) context heap))
    × (deliver labels load_c3 quiet too_short context heap 9 twice (twice.action sig_prot) ≡ none)
unfolding is_revocation safefetch_redirect is_label
unhealed_again_example =
    unhealed_again labels load_c3 quiet too_short context heap refl refl every fresh 34 9 refl refl
