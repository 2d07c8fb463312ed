-- ===== src/Handler/Install.antt =====
-- stopless_gc/handler.c: the registration of the handlers with `sigaction`. Which calls of `sigaction`
-- the kernel accepts is a parameter.
use stopless_java_gc.Base.{
  ℕ, ◌≡◌, ◌≢◌, refl, ap, ◌∙◌, inl, inr, Bool, true, false, List, [], ◌∷◌, if◌then◌else◌, update,
  arith, Bool-cases,
}
use stopless_java_gc.Base.Int.{ℤ, pos, minus_one}

-- What a signal is handled by: one of the three handlers of the file, or something else.
pub data Disposition : Type 0 where
  by_sigprot_handler by_sigill_handler by_crash_dumper : Disposition
  by_other : ℕ → Disposition

-- The dispositions of the process, `prev_sa`, `armed`, and whether the alternate stack is set.
pub record Signals : Type 0 where
  pub action : ℕ → Disposition
  pub prev_sa : Disposition
  pub armed : Bool
  pub altstack : Bool

abbrev pub sig_ill : ℕ
sig_ill = 4

abbrev pub sig_bus : ℕ
sig_bus = 10

abbrev pub sig_segv : ℕ
sig_segv = 11

abbrev pub sig_prot : ℕ
sig_prot = 34

module _ (accepts : ℕ → Bool) where
  -- `sigaction` without the old action
  unfoldable pub sigaction : ℕ → Disposition → Signals → Signals
  sigaction sig d s = if accepts sig then record s { action = update s.action sig d } else s

  -- `stopless_early_sigill_install`, which the loader calls
  unfoldable pub early_sigill_install : Signals → Signals
  unfolding sigaction
  early_sigill_install s = sigaction sig_ill by_sigill_handler s

  -- `stopless_handler_install`
  unfoldable pub handler_install : Signals → ℤ × Signals
  unfolding sigaction
  handler_install s =
      if accepts sig_prot
      then (
        pos 0,
        sigaction sig_ill by_sigill_handler
            (sigaction sig_prot by_sigprot_handler (record s { prev_sa = s.action sig_prot })),
      )
      else (minus_one, s)

  -- `stopless_handler_remove`
  unfoldable pub handler_remove : Signals → Signals
  unfolding sigaction
  handler_remove s = sigaction sig_prot s.prev_sa s

  -- the loop of `stopless_install_crash_diag`
  unfoldable pub arm_all : List ℕ → Signals → Signals
  unfolding sigaction
  arm_all [] s = s
  arm_all (sig ∷ sigs) s = arm_all sigs (sigaction sig by_crash_dumper s)

  -- `stopless_install_crash_diag`; the Boolean lets `sigaltstack` succeed or fail
  unfoldable pub install_crash_diag : Bool → Signals → Signals
  unfolding arm_all
  install_crash_diag stack s =
      if s.armed
      then s
      else arm_all (sig_ill ∷ sig_segv ∷ sig_bus ∷ sig_prot ∷ [])
          (record s { armed = true; altstack = if stack then true else s.altstack })

  -- If the kernel accepts a handler of SIGPROT, `stopless_handler_install` returns 0 and puts
  -- `sigprot_handler` there, and `stopless_handler_remove` brings back what was there before; every
  -- signal but SIGPROT and SIGILL keeps its handler throughout.
  pub handler_remove-install :
      (s : Signals)
      → accepts sig_prot ≡ true
      → let (rc, t) = handler_install s in
        (rc ≡ pos 0)
        × (t.action sig_prot ≡ by_sigprot_handler)
        × ((handler_remove t).action sig_prot ≡ s.action sig_prot)
        × ((sig : ℕ)
            → sig ≢ sig_prot
            → sig ≢ sig_ill
            → (handler_remove t).action sig ≡ s.action sig)
  unfolding handler_install handler_remove
  handler_remove-install s ok = elim (Bool-cases (accepts sig_ill)) [
    | inl ill ↦ rw (ok, ill) (refl, refl, refl, λ sig ne ne'. ground arith)
    | inr no_ill ↦ rw (ok, no_ill) (refl, refl, refl, λ sig ne ne'. ground arith)
  ]

  sigaction_other :
      (x : ℕ) (d : Disposition) (s : Signals) (sig : ℕ)
      → sig ≢ x
      → (sigaction x d s).action sig ≡ s.action sig
  unfolding sigaction
  sigaction_other x d s sig ne = ground arith

  sigaction_self :
      (x : ℕ) (d : Disposition) (s : Signals) → accepts x ≡ true → (sigaction x d s).action x ≡ d
  unfolding sigaction
  sigaction_self x d s ok = ground arith

  sigaction_armed : (x : ℕ) (d : Disposition) (s : Signals) → (sigaction x d s).armed ≡ s.armed
  unfolding sigaction
  sigaction_armed x d s = ground arith

  arm_all_armed : (sigs : List ℕ) (s : Signals) → (arm_all sigs s).armed ≡ s.armed
  unfolding arm_all
  arm_all_armed [] s = refl
  arm_all_armed (x ∷ sigs) s =
      arm_all_armed sigs (sigaction x by_crash_dumper s) ∙ sigaction_armed x by_crash_dumper s

  diag_armed : (stack : Bool) (s : Signals) → s.armed ≡ true → install_crash_diag stack s ≡ s
  unfolding install_crash_diag
  diag_armed stack s e = rw e

  diag_arms :
      (stack : Bool) (s : Signals)
      → s.armed ≡ false
      → install_crash_diag stack s
        ≡ arm_all
            (sig_ill ∷ sig_segv ∷ sig_bus ∷ sig_prot ∷ [])
            (record s { armed = true; altstack = if stack then true else s.altstack })
  unfolding install_crash_diag
  diag_arms stack s e = rw e

  arm_all_four :
      (s : Signals)
      → accepts sig_prot ≡ true
      → let t = arm_all (sig_ill ∷ sig_segv ∷ sig_bus ∷ sig_prot ∷ []) s in
        (t.action sig_prot ≡ by_crash_dumper)
        × ((sig : ℕ)
            → sig ≢ sig_ill
            → sig ≢ sig_segv
            → sig ≢ sig_bus
            → sig ≢ sig_prot
            → t.action sig ≡ s.action sig)
  unfolding arm_all
  arm_all_four s ok =
      let s₁ = sigaction sig_ill by_crash_dumper s in
      let s₂ = sigaction sig_segv by_crash_dumper s₁ in
      let s₃ = sigaction sig_bus by_crash_dumper s₂ in
      (
        sigaction_self sig_prot by_crash_dumper s₃ ok,
        λ sig ill segv bus prot.
            sigaction_other sig_prot by_crash_dumper s₃ sig prot
            ∙ (sigaction_other sig_bus by_crash_dumper s₂ sig bus
                ∙ (sigaction_other sig_segv by_crash_dumper s₁ sig segv
                    ∙ sigaction_other sig_ill by_crash_dumper s sig ill)),
      )

  -- The first `stopless_install_crash_diag` puts the dumper in place of the handler of SIGPROT, if the
  -- kernel accepts that, and touches no signal but SIGILL, SIGSEGV, SIGBUS and SIGPROT; a second call
  -- changes nothing.
  pub install_crash_diag_lem :
      (stack stack' : Bool) (s : Signals)
      → s.armed ≡ false
      → accepts sig_prot ≡ true
      → let t = install_crash_diag stack s in
        (t.action sig_prot ≡ by_crash_dumper)
        × ((sig : ℕ)
            → sig ≢ sig_ill
            → sig ≢ sig_segv
            → sig ≢ sig_bus
            → sig ≢ sig_prot
            → t.action sig ≡ s.action sig)
        × (install_crash_diag stack' t ≡ t)
  install_crash_diag_lem stack stack' s fresh ok =
      let s' : Signals = record s { armed = true; altstack = if stack then true else s.altstack } in
      let sigs : List ℕ = sig_ill ∷ sig_segv ∷ sig_bus ∷ sig_prot ∷ [] in
      let e : install_crash_diag stack s ≡ arm_all sigs s' = diag_arms stack s fresh in
      let (prot, others) = arm_all_four s' ok in
      (
        ap (λ (t : Signals). t.action sig_prot) e ∙ prot,
        λ sig a b c d. ap (λ (t : Signals). t.action sig) e ∙ others sig a b c d,
        diag_armed stack' (install_crash_diag stack s)
            (ap (λ (t : Signals). t.armed) e ∙ arm_all_armed sigs s'),
      )
