-- ===== src/Collector/Cycle.antt =====
-- A whole cycle: an object is moved, its old place is marked and revoked, and the registers that a
-- stopped thread kept to it are stale. The order of the calls is that of stopless_gc/api.h.
use stopless_java_gc.Base.{
  ℕ, zero, suc, ◌+◌, ◌-◌, ◌≤◌, ◌<◌, ◌≡◌, bit_and, ◌≢◌, inl, inr, refl, ap, ◌∙◌, Bool, true, some,
  arith, ◌==◌, word, Bool-cases,
}
use stopless_java_gc.Base.Int.{pos, is_zero}
use stopless_java_gc.Cheri.{Cheri, Documented}
use stopless_java_gc.Forwarding.{Forwarding, insert, chase_max}
use stopless_java_gc.Arena.{Arena}
use stopless_java_gc.Allocator.{alloc_in}
use stopless_java_gc.Revoke.Calls.{Flags, open_and_close, last_pass, Kernel, Memory, ShadowLaws}
use stopless_java_gc.Revoke.{Globals, cleared, wait_checked, sweep, revoke_now, ensure_cri}
use stopless_java_gc.Revoke.Epoch.{revoke_now_sound}
use stopless_java_gc.Revoke.Mark.{mark_revoke, mark_revoke_lem}
use stopless_java_gc.Handler.{
  Context, Siginfo, State, Clock, is_revocation, is_revoked, base_register,
}
use stopless_java_gc.Collector.{Heap, Request, frontier, Reach}
use stopless_java_gc.Collector.Heals.{Redirected, move_then_heal}

-- Closing passes, any number.
pub data Passes {K : Type 0} ⦃os : Kernel K⦄ (k : K) : K → Type 0 where
  no_pass : Passes k k
  pass : {k' : K} (target : ℕ) → Passes k k' → Passes k (os.revoke last_pass target k').1

-- What <cheri/revoke.h> documents of the capabilities that a thread holds in its registers: marking
-- leaves them, a revocation call leaves their addresses and bounds, and once an epoch has cleared, no
-- capability without SW_VMEM is left whose base was marked when it was opened.
pub record Sweeps {K Cap : Type 0} ⦃ch : Cheri Cap⦄ ⦃os : Kernel K⦄ (mem : Memory K Cap)
    (shadow : Cap) : Type 0 where
  pub held : K → ℕ → Cap
  pub held-set_raw :
      (sbase : ℕ) (lo hi : ℕ) (k : K) (i : ℕ) → held (mem.set_raw sbase shadow lo hi k) i ≡ held k i
  pub base-revoke :
      (f : Flags) (target : ℕ) (k : K) (i : ℕ)
      → ch.base (held (os.revoke f target k).1 i) ≡ ch.base (held k i)
  pub address-revoke :
      (f : Flags) (target : ℕ) (k : K) (i : ℕ)
      → ch.address (held (os.revoke f target k).1 i) ≡ ch.address (held k i)
  pub swept :
      (k k' : K) (i : ℕ)
      → mem.marked shadow (ch.base (held k i)) k ≡ true
      → bit_and (ch.perms (held k i)) ch.perm_sw_vmem ≡ 0
      → Passes (os.revoke open_and_close (os.enqueue k) k).1 k'
      → os.clears (os.dequeue k') (os.enqueue (os.revoke open_and_close (os.enqueue k) k).1) ≡ true
      → is_revoked (held k' i) ≡ true

module _ {K : Type 0} ⦃os : Kernel K⦄ where
  wait_checked-Passes :
      (rounds target : ℕ) {k₀ k : K} → Passes k₀ k → Passes k₀ (wait_checked rounds target k).1
  unfolding wait_checked
  wait_checked-Passes zero target p = p
  wait_checked-Passes (suc rounds) target {k₀} {k} p = elim (Bool-cases (cleared target k)) [
    | inl e ↦ rw e p
    | inr e ↦ rw e (elim (Bool-cases (is_zero (os.revoke last_pass target k).0)) [
      | inl ok ↦ rw ok (wait_checked-Passes rounds target (pass target p))
      | inr failed ↦ rw failed (pass target p)
    ])
  ]

  -- `stopless_revoke_now` is an opening pass and closing passes.
  pub revoke_now-Passes :
      (g : Globals K)
      → g.cri ≡ true
      → Passes (os.revoke open_and_close (os.enqueue g.kernel) g.kernel).1 (revoke_now g).1.kernel
  unfolding revoke_now sweep ensure_cri
  revoke_now-Passes g ready =
      let k₁ = (os.revoke open_and_close (os.enqueue g.kernel) g.kernel).1 in
      let waited = wait_checked-Passes 10 (os.enqueue k₁) {k₀ = k₁} no_pass in
      rw ready
        (elim (Bool-cases (is_zero (os.revoke open_and_close (os.enqueue g.kernel) g.kernel).0)) [
          | inr failed ↦ rw failed no_pass
          | inl ok ↦ rw ok (elim (Bool-cases (is_zero (wait_checked 10 (os.enqueue k₁) k₁).0)) [
            | inl fine ↦ rw fine waited
            | inr failed ↦ rw failed waited
          ])
        ])

module _ {K Cap : Type 0} ⦃ch : Cheri Cap⦄ ⦃os : Kernel K⦄ {mem : Memory K Cap} {shadow : Cap}
    (law : Sweeps mem shadow) where
  Passes-base : {k k' : K} (i : ℕ) → Passes k k' → ch.base (law.held k' i) ≡ ch.base (law.held k i)
  Passes-base i no_pass = refl
  Passes-base i (pass {k'} target p) = law.base-revoke last_pass target k' i ∙ Passes-base i p

  Passes-address :
      {k k' : K} (i : ℕ) → Passes k k' → ch.address (law.held k' i) ≡ ch.address (law.held k i)
  Passes-address i no_pass = refl
  Passes-address i (pass {k'} target p) =
      law.address-revoke last_pass target k' i ∙ Passes-address i p

  -- the globals once the object has been marked
  abbrev pub marking : Arena Cap → ℕ → ℕ → Globals K → Globals K
  marking a obj_addr len g = record g { kernel = mark_revoke mem (some a) obj_addr len g.kernel }

  mark_revoke-held :
      (a : Arena Cap) (obj_addr len i : ℕ) (k : K)
      → a.shadow ≡ some shadow
      → law.held (mark_revoke mem (some a) obj_addr len k) i ≡ law.held k i
  unfolding mark_revoke
  mark_revoke-held a obj_addr len i k there = elim (Bool-cases (len == 0)) [
    | inl e ↦ rw (there, e)
    | inr e ↦ rw (there, e) (law.held-set_raw a.shadow_base_addr obj_addr _ k i)
  ]

  -- A register that holds a capability to the object, once it has been marked and revoked.
  pub record Stale (c : Cap) (g' : Globals K) (i : ℕ) : Type 0 where
    pub revoked : is_revoked (law.held g'.kernel i) ≡ true
    pub base : ch.base (law.held g'.kernel i) ≡ ch.base c
    pub address : ch.address (law.held g'.kernel i) ≡ ch.address c

  -- A successful `stopless_revoke_now` after `stopless_mark_revoke` leaves no register with a valid
  -- capability to the object, but one with SW_VMEM, and moves none.
  pub revoke_now-Stale :
      ShadowLaws mem
      → (a : Arena Cap) (obj_addr len i : ℕ) (g : Globals K) → a.shadow ≡ some shadow
      → obj_addr + len < word
      → g.cri ≡ true
      → obj_addr ≤ ch.base (law.held g.kernel i)
      → ch.base (law.held g.kernel i) < obj_addr + len
      → bit_and (ch.perms (law.held g.kernel i)) ch.perm_sw_vmem ≡ 0
      → (revoke_now (marking a obj_addr len g)).0 ≡ pos 0
      → Stale (law.held g.kernel i) (revoke_now (marking a obj_addr len g)).1 i
  revoke_now-Stale shadow_law a obj_addr len i g there small ready low high plain done =
      let g' = marking a obj_addr len g in
      let k₁ = (os.revoke open_and_close (os.enqueue g'.kernel) g'.kernel).1 in
      let same : law.held g'.kernel i ≡ law.held g.kernel i =
        mark_revoke-held a obj_addr len i g.kernel there in
      let marked : mem.marked shadow (ch.base (law.held g'.kernel i)) g'.kernel ≡ true = rw same (
        mark_revoke_lem shadow_law a shadow there obj_addr len small g.kernel
          (ch.base (law.held g.kernel i))
        ∙ ground (arith, low, high)) in
      let passes = revoke_now-Passes g' ready in
      record {
        revoked =
            law.swept g'.kernel _ i marked (rw same plain) passes (revoke_now_sound g' ready done);
        base =
            Passes-base i passes
            ∙ (law.base-revoke open_and_close (os.enqueue g'.kernel) g'.kernel i ∙ ap ch.base same);
        address =
            Passes-address i passes
            ∙ (law.address-revoke open_and_close (os.enqueue g'.kernel) g'.kernel i
                ∙ ap ch.address same);
      }

module _ {K Cap : Type 0} ⦃ch : Cheri Cap⦄ ⦃os : Kernel K⦄ (doc : Documented ch) (base : Cap)
    (top : ch.base base + ch.len base < word) {mem : Memory K Cap} (shadow_law : ShadowLaws mem)
    {shadow : Cap} (law : Sweeps mem shadow) {h : Heap Cap} (r : Reach doc base h) (key n : ℕ)
    (memory : Bool) (c : Cap) (a : Arena Cap) (f : Forwarding Cap)
    (request : Request doc base h.arena n) (ne : key ≢ 0) (low : key < frontier doc base h)
    (room : h.forwarding.table.size < h.forwarding.table.capacity)
    (allocated : alloc_in h.arena n ≡ (some c, a))
    (made : insert memory h.forwarding key c ≡ some f) where
  -- From any state that the collector's steps reach, in an arena that has its bitmap and whose mapping
  -- ends below 2 ^ 64: the object of `n` bytes at the nonzero address `key`, below the cursor and ending
  -- below 2 ^ 64, of a size whose sums stay below 2 ^ 64 and for which the arena's base is aligned, is
  -- moved with room in the table, which then has at most FT_CHASE_MAX entries; its old place is marked,
  -- and `stopless_revoke_now` returns 0, with `g_cri` set. If a register below 30 held a capability
  -- without SW_VMEM whose base was the object's, and which pointed at or above it, no further than the
  -- copy's length, and a thread then faults by that register, by tag or permission:
  -- `stopless_try_heal` gives it a live capability to the same offset of the copy.
  pub cycle_heals :
      (g : Globals K) (insn : ℕ) (clock : Clock) (si : Siginfo) (ctx : Context Cap) (s : State Cap)
      → a.shadow ≡ some shadow
      → key + n < word
      → g.cri ≡ true
      → f.table.size ≤ chase_max
      → is_revocation si.si_code ≡ true
      → base_register insn < 30
      → ch.base (law.held g.kernel (base_register insn)) ≡ key
      → key ≤ ch.address (law.held g.kernel (base_register insn))
      → ch.address (law.held g.kernel (base_register insn)) - key ≤ ch.len c
      → bit_and (ch.perms (law.held g.kernel (base_register insn))) ch.perm_sw_vmem ≡ 0
      → (revoke_now (marking law a key n g)).0 ≡ pos 0
      → ctx.cap_x (base_register insn)
        ≡ law.held (revoke_now (marking law a key n g)).1.kernel (base_register insn)
      → Redirected doc base top r key n memory c a f request ne low room allocated made insn clock
          si ctx s
  cycle_heals g insn clock si ctx s there small ready few fault reg from above within plain done
        holds =
      let i = base_register insn in
      let under : ch.base (law.held g.kernel i) < key + n =
        (let some_bytes = request.asked in omega arith) in
      let q =
        revoke_now-Stale law shadow_law a key n i g there small ready (omega (arith, from)) under
          plain done in
      let address = ap ch.address holds ∙ q.address in
      move_then_heal doc base top r key n memory c a f request ne low room allocated made insn clock
        si ctx s few fault reg (ap is_revoked holds ∙ q.revoked)
        (ap ch.base holds ∙ (q.base ∙ from)) (omega (arith, above, address))
        (omega (arith, within, address))
