-- ===== src/Handler/Unhealed.antt =====
-- handler.c: faults that are neither a SafeFetch probe nor a revocation, which `sigprot_handler` passes
-- on to the handler that was there before it.
use stopless_java_gc.Base.{
  ℕ, zero, suc, ◌≡◌, refl, sym, ap, ◌∙◌, Bool, true, false, Option, none, some, ◌==◌, if◌then◌else◌,
  not, arith, Bool-cases, inl, inr,
}
use stopless_java_gc.Cheri.{Cheri}
use stopless_java_gc.Handler.{
  Context, Siginfo, State, Clock, SafeFetch, Outcome, resumed, chained, fatal, is_revocation,
  safefetch_redirect, sigprot_handler,
}
use stopless_java_gc.Handler.Install.{
  Disposition, Signals, by_sigprot_handler, by_sigill_handler, by_crash_dumper, by_other, sig_prot,
  sig_ill, handler_install,
}

-- How the handlers of a fault end: by `sigprot_handler`, or by the call of another.
pub data Delivered (Cap : Type 0) : Type 0 where
  ends : Outcome → Context Cap → State Cap → Delivered Cap
  calls : Disposition → Context Cap → State Cap → Delivered Cap

-- whether `prev_sa.sa_sigaction` is set; SIG_DFL, which is NULL, is `by_other 0`
unfoldable pub is_set : Disposition → Bool
is_set by_sigprot_handler = true
is_set by_sigill_handler = true
is_set by_crash_dumper = true
is_set (by_other n) = not (n == 0)

install_prev :
    (accepts : ℕ → Bool) (sig : Signals)
    → accepts sig_prot ≡ true
    → ((handler_install accepts sig).1.prev_sa ≡ sig.action sig_prot)
      × ((handler_install accepts sig).1.action sig_prot ≡ by_sigprot_handler)
unfolding handler_install
install_prev accepts sig ok = elim (Bool-cases (accepts sig_ill)) [
  | inl ill ↦ rw (ok, ill) (refl, refl)
  | inr no_ill ↦ rw (ok, no_ill) (refl, refl)
]

module _ {Cap : Type 0} ⦃ch : Cheri Cap⦄ (labels : SafeFetch) (insn : ℕ) (clock : Clock)
    (si : Siginfo) (ctx : Context Cap) (s : State Cap) where
  -- The handler of a fault, and the ones that it calls through `prev_sa`, up to a depth of calls;
  -- `none` if the calls go deeper.
  unfoldable pub deliver : ℕ → Signals → Disposition → Option (Delivered Cap)
  unfolding sigprot_handler is_set
  deliver zero sig d = none
  deliver (suc depth) sig by_sigprot_handler =
      let rest = deliver depth sig sig.prev_sa in
      let (outcome, ctx', s') = sigprot_handler labels (is_set sig.prev_sa) insn clock si ctx s in
      elim outcome [
        | resumed ↦ some (ends resumed ctx' s')
        | chained ↦ rest
        | fatal ↦ some (ends fatal ctx' s')
      ]
  deliver (suc depth) sig by_sigill_handler = some (calls by_sigill_handler ctx s)
  deliver (suc depth) sig by_crash_dumper = some (calls by_crash_dumper ctx s)
  deliver (suc depth) sig (by_other n) = some (calls (by_other n) ctx s)

  module _ (missed : safefetch_redirect labels ctx ≡ none)
      (other : is_revocation si.si_code ≡ false) where
    passed_on :
        (depth : ℕ) (sig : Signals)
        → is_set sig.prev_sa ≡ true
        → deliver (suc depth) sig by_sigprot_handler ≡ deliver depth sig sig.prev_sa
    unfolding deliver sigprot_handler
    passed_on depth sig set = ground (arith, missed, other, set)

    not_passed_on :
        (depth : ℕ) (sig : Signals)
        → is_set sig.prev_sa ≡ false
        → deliver (suc depth) sig by_sigprot_handler ≡ some (ends resumed ctx s)
    unfolding deliver sigprot_handler
    not_passed_on depth sig unset = ground (arith, missed, other, unset)

    -- with itself before it, `sigprot_handler` calls itself at any depth
    calls_itself :
        (depth : ℕ) (sig : Signals)
        → sig.prev_sa ≡ by_sigprot_handler
        → deliver depth sig by_sigprot_handler ≡ none
    unfolding deliver is_set
    calls_itself zero sig same = refl
    calls_itself (suc depth) sig same =
        passed_on depth sig (ap is_set same)
        ∙ (ap (deliver depth sig) same ∙ calls_itself depth sig same)

    -- what is done with the handler `by_other n` before it
    abbrev pub passed_to : ℕ → Option (Delivered Cap)
    passed_to n = if n == 0 then some (ends resumed ctx s) else some (calls (by_other n) ctx s)

    passes_on :
        (sig : Signals) (n : ℕ)
        → sig.prev_sa ≡ by_other n
        → deliver 2 sig by_sigprot_handler ≡ passed_to n
    unfolding is_set deliver
    passes_on sig n before = elim (Bool-cases (n == 0)) [
      | inl z ↦
          not_passed_on 1 sig (ap is_set before ∙ ap not z)
          ∙ sym (
              ap
                (λ (b : Bool).
                  if b then some (ends resumed ctx s) else some (calls (by_other n) ctx s))
                z)
      | inr nz ↦
          passed_on 1 sig (ap is_set before ∙ ap not nz)
          ∙ (ap (deliver 1 sig) before
              ∙ sym (
                  ap
                    (λ (b : Bool).
                      if b then some (ends resumed ctx s) else some (calls (by_other n) ctx s))
                    nz))
    ]

    -- A fault that is neither a SafeFetch probe nor a revocation, where the kernel accepts the handler
    -- of SIGPROT and another one, or SIG_DFL, was there before. After one `stopless_handler_install`
    -- it comes to that handler with the context and the state unchanged, or, for SIG_DFL, back to the
    -- thread with both unchanged. After two, `sigprot_handler` calls itself, and at no depth do the
    -- calls end.
    pub unhealed_again :
        (accepts : ℕ → Bool) (sig : Signals) (n depth : ℕ)
        → accepts sig_prot ≡ true
        → sig.action sig_prot ≡ by_other n
        → let once = (handler_install accepts sig).1 in
          let twice = (handler_install accepts once).1 in
          (deliver 2 once (once.action sig_prot) ≡ passed_to n)
          × (deliver depth twice (twice.action sig_prot) ≡ none)
    unhealed_again accepts sig n depth ok before =
        let once = (handler_install accepts sig).1 in
        let twice = (handler_install accepts once).1 in
        let (prev, now) = install_prev accepts sig ok in
        let (prev', now') = install_prev accepts once ok in
        (
          ap (deliver 2 once) now ∙ passes_on once n (prev ∙ before),
          ap (deliver depth twice) now' ∙ calls_itself depth twice (prev' ∙ now),
        )
