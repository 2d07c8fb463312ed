-- ===== src/Handler/Dump.antt =====
-- stopless_gc/handler.c: the crash dumper, `stopless_crash_dumper`. What it prints is in Report, but for
-- the stack words, the frame chain and the choice of capabilities to read through.
use stopless_java_gc.Base.{
  ℕ, zero, suc, ◌+◌, ◌≤◌, ◌<◌, ◌≡◌, ◌≢◌, inl, inr, sym, subst, bit_and, Bool, true, false, not,
  ◌&&◌, ◌||◌, Option, none, some, List, [], ◌∷◌, leb, ltb, ◌==◌, if◌then◌else◌, add64, word, arith,
  length, Bool-cases, Option-cases, ne→==, ℕ_discrete,
}
use mathlib.Core.Bool.{true≢false}
use stopless_java_gc.Cheri.{Cheri}
use stopless_java_gc.Handler.{
  Context, Siginfo, State, Clock, SafeFetch, resumed, is_revocation, safefetch_redirect, try_heal,
  sigprot_handler,
}

-- the sentinels of `stopless_stk_rd`
abbrev pub untagged : ℕ
untagged = 0xBAD0BAD0BAD0BAD0

abbrev pub out_of_bounds : ℕ
out_of_bounds = 0xBAD1BAD1BAD1BAD1

-- How the dumper ends: the thread resumes, the signal is raised again under the default action, or,
-- with STOPLESS_HANG_ON_CRASH set, it never returns. The Boolean says whether `brk #0` comes before,
-- for an attached debugger, which STOPLESS_BRK_ON_CRASH asks for.
pub data Ending : Type 0 where
  resumes : Ending
  raises hangs : (brk : Bool) → Ending

-- A line of the frame chain: a frame pointer and the saved link register.
pub record Frame : Type 0 where
  pub fp : ℕ
  pub saved_lr : ℕ

-- where the frame chain ends after a frame: `sfp <= f || (sfp & 0xf) || ...`
abbrev pub chain_ends : ℕ → ℕ → Bool
chain_ends f sfp =
    leb sfp f || not (bit_and sfp 0xf == 0) || sfp == untagged || sfp == out_of_bounds

module _ {Cap : Type 0} ⦃ch : Cheri Cap⦄ where
  -- `stopless_stk_rd`, with the word that memory holds at each address
  unfoldable pub stk_rd : (ℕ → ℕ) → Cap → ℕ → ℕ
  stk_rd mem base addr =
      let b = ch.base base in
      let t = add64 b (ch.len base) in
      if ch.tag base
      then if ltb addr b || ltb t (add64 addr 8) then out_of_bounds else mem addr
      else untagged

  -- the loop over the frame chain
  unfoldable pub walk : (ℕ → ℕ) → Cap → ℕ → ℕ → List Frame
  unfolding stk_rd
  walk mem csp zero f = []
  walk mem csp (suc rounds) f =
      let sfp = stk_rd mem csp f in
      let frame : Frame = record { fp = f; saved_lr = stk_rd mem csp (add64 f 16) } in
      let rest = walk mem csp rounds sfp in
      if f == 0 then [] else if chain_ends f sfp then frame ∷ [] else frame ∷ rest

  -- the test of COVER
  abbrev pub covers : Cap → ℕ → ℕ → Bool
  covers c addr nbytes =
      ch.tag c
      && not (ch.is_sealed c)
      && not (bit_and (ch.perms c) ch.perm_load == 0)
      && leb (ch.base c) addr
      && leb (add64 addr nbytes) (add64 (ch.base c) (ch.len c))

  -- COVER, over `bases`
  unfoldable pub cover : List Cap → ℕ → ℕ → Option Cap
  cover [] addr nbytes = none
  cover (c ∷ bases) addr nbytes =
      let rest = cover bases addr nbytes in
      if covers c addr nbytes then some (ch.address_set c addr) else rest

  -- `stopless_crash_dumper`, whatever it prints
  unfoldable pub crash_dumper :
      SafeFetch
      → Bool
      → Bool
      → ℕ
      → ℕ
      → Clock
      → Siginfo
      → Context Cap
      → State Cap
      → Ending × Context Cap × State Cap
  crash_dumper labels brk hang sig insn clock si ctx s =
      let stop = if hang then hangs brk else raises brk in
      elim (safefetch_redirect labels ctx) [
        | some ctx' ↦ (resumes, ctx', s)
        | none ↦
            if sig == 34
            then (let (healed, ctx', s') = try_heal insn clock si ctx s in
                (if healed then resumes else stop, ctx', s'))
            else (stop, ctx, s)
      ]

  -- `stopless_stk_rd` reads memory only at an address whose word lies in the bounds of the live
  -- capability, so that what it returns is the same for two memories that agree there, if neither
  -- the end of the word nor the capability's top wraps.
  pub stk_rd_safe :
      (mem mem' : ℕ → ℕ) (c : Cap) (addr : ℕ)
      → addr + 8 < word
      → ch.base c + ch.len c < word
      → (ch.tag c ≡ true
          → ch.base c ≤ addr
          → addr + 8 ≤ ch.base c + ch.len c
          → mem addr ≡ mem' addr)
      → stk_rd mem c addr ≡ stk_rd mem' c addr
  unfolding stk_rd
  stk_rd_safe mem mem' c addr small top same = ground (arith, same)

  -- At the last eight addresses of the address space the test of `stopless_stk_rd` wraps, and it
  -- reads beyond the top of the capability.
  pub stk_rd_wraps :
      (mem : ℕ → ℕ) (c : Cap) (addr : ℕ)
      → ch.tag c ≡ true
      → ch.base c + ch.len c ≤ addr
      → 8 ≤ ch.base c + ch.len c
      → addr < word
      → word ≤ addr + 8
      → stk_rd mem c addr ≡ mem addr
  unfolding stk_rd
  stk_rd_wraps mem c addr live beyond low small wraps = ground (arith, live)

  -- What the handler of revocations resumes, the dumper resumes alike: a SafeFetch probe, and a fault
  -- by a revoked capability that is healed, with the same context and state.
  pub crash_dumper_inherits :
      (labels : SafeFetch) (prev brk hang : Bool) (insn : ℕ) (clock : Clock) (si : Siginfo)
      (ctx : Context Cap) (s : State Cap)
      → is_revocation si.si_code ≡ true
      → let out = sigprot_handler labels prev insn clock si ctx s in
        out.0 ≡ resumed
        → crash_dumper labels brk hang 34 insn clock si ctx s ≡ (resumes, out.1, out.2)
  unfolding crash_dumper sigprot_handler
  crash_dumper_inherits labels prev brk hang insn clock si ctx s fault e =
      elim (Option-cases (safefetch_redirect labels ctx)) [
        | inr (ctx', redirected) ↦ ground (arith, redirected)
        | inl missed ↦ elim (Bool-cases (try_heal insn clock si ctx s).0) [
          | inl healed ↦ ground (arith, missed, fault, healed)
          | inr not_healed ↦ absurd (ground (arith, missed, fault, not_healed, e))
        ]
      ]

-- The frame pointers of a chain from one that is at least `f` on grow.
pub data Grows : ℕ → List Frame → Type 0 where
  done : {f : ℕ} → Grows f []
  next : {f : ℕ} {x : Frame} {xs : List Frame} → f ≤ x.fp → Grows (suc x.fp) xs → Grows f (x ∷ xs)

module _ {Cap : Type 0} ⦃ch : Cheri Cap⦄ (mem : ℕ → ℕ) (csp : Cap) where
  walk_zero : (rounds f : ℕ) → f ≡ 0 → walk mem csp (suc rounds) f ≡ []
  unfolding walk
  walk_zero rounds f z = ground (arith, z)

  walk_last :
      (rounds f : ℕ)
      → f ≢ 0
      → chain_ends f (stk_rd mem csp f) ≡ true
      → walk mem csp (suc rounds) f ≡ record { fp = f; saved_lr = stk_rd mem csp (add64 f 16) } ∷ []
  unfolding walk
  walk_last rounds f ne e = rw (ne→== f 0 ne, e)

  walk_on :
      (rounds f : ℕ)
      → f ≢ 0
      → chain_ends f (stk_rd mem csp f) ≡ false
      → walk mem csp (suc rounds) f
        ≡ record { fp = f; saved_lr = stk_rd mem csp (add64 f 16) }
          ∷ walk mem csp rounds (stk_rd mem csp f)
  unfolding walk
  walk_on rounds f ne e = rw (ne→== f 0 ne, e)

  chain_up : (f sfp : ℕ) → chain_ends f sfp ≡ false → f < sfp
  chain_up f sfp e = elim (Bool-cases (leb sfp f)) [
    | inl down ↦ absurd (let q : true ≡ false = rw down at e in true≢false q)
    | inr up ↦ ground arith
  ]

  walk_lem :
      (rounds f low : ℕ)
      → low ≤ f
      → (length (walk mem csp rounds f) ≤ rounds) × Grows low (walk mem csp rounds f)
  unfolding walk
  walk_lem zero f low h = (omega arith, done)
  walk_lem (suc rounds) f low h = elim (ℕ_discrete f 0) [
    | yes z ↦
        subst (λ l. (length l ≤ suc rounds) × Grows low l) (sym (walk_zero rounds f z))
          (omega arith, done)
    | no ne ↦ elim (Bool-cases (chain_ends f (stk_rd mem csp f))) [
      | inl ends ↦
          subst (λ l. (length l ≤ suc rounds) × Grows low l) (sym (walk_last rounds f ne ends))
            (omega arith, next h done)
      | inr on ↦
          let up = chain_up f (stk_rd mem csp f) on in
          let (short, grows) = walk_lem rounds (stk_rd mem csp f) (suc f) up in
          subst (λ l. (length l ≤ suc rounds) × Grows low l) (sym (walk_on rounds f ne on))
            (omega arith, next h grows)
    ]
  ]

  -- The frame chain of the dump ends whatever is on the stack: it has at most eight frames, and each
  -- stands above the one before.
  pub walk_bounded : (f : ℕ) → (length (walk mem csp 8 f) ≤ 8) × Grows f (walk mem csp 8 f)
  walk_bounded f = walk_lem 8 f f (omega arith)
