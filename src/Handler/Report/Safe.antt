-- ===== src/Handler/Report/Safe.antt =====
-- The crash dump reads memory only where a live register allows it.
use mathlib.Core.Path.{fun_ext}
use stopless_java_gc.Base.{
  ◌==◌, ℕ, ◌%◌, zero, suc, ◌≡◌, refl, sym, ap, ◌∙◌, subst, inl, inr, Bool, true, false, ◌&&◌,
  Option, none, some, List, [], ◌∷◌, leb, ltb, if◌then◌else◌, add64, sub64, arith, Bool-cases,
  Option-cases, some_inj,
}
use stopless_java_gc.Cheri.{Cheri, Documented}
use stopless_java_gc.Handler.{Context, Siginfo}
use stopless_java_gc.Handler.Symbols.{
  Names, SameNames, frame_symbols, symbol_congr, frame_symbols_congr, method_line_congr,
}
use stopless_java_gc.Handler.Dump.{stk_rd, walk, covers, cover}
use stopless_java_gc.Handler.Report.{
  Memory, lines, range_lines, bases, peek, stack_line, fault_line, slot_addresses, slot_lines,
  range_dump, report, code_lines, probe_lines, bytecode_lines,
}

module _ {Cap : Type 0} ⦃ch : Cheri Cap⦄ where
  -- Some capability of a list passes the test of COVER: tagged, not sealed, with permission to load,
  -- and with the address and the end of the read between its base and its top.
  pub data Readable (nbytes a : ℕ) : List Cap → Type 0 where
    by_first : {c : Cap} {bs : List Cap} → covers c a nbytes ≡ true → Readable nbytes a (c ∷ bs)
    by_later : {c : Cap} {bs : List Cap} → Readable nbytes a bs → Readable nbytes a (c ∷ bs)

  -- the test of `stopless_stk_rd`
  abbrev pub InStack : Cap → ℕ → Type 0
  InStack csp a =
      (ch.tag csp ≡ true)
      × (ltb a (ch.base csp) ≡ false)
      × (ltb (add64 (ch.base csp) (ch.len csp)) (add64 a 8) ≡ false)

  -- Two memories that agree wherever the registers of a context allow to read.
  pub record Agree (ctx : Context Cap) (m m' : Memory Cap) : Type 0 where
    pub bytes : (a : ℕ) → Readable 1 a (bases ctx) → m.word8 a ≡ m'.word8 a
    pub instructions : (a : ℕ) → Readable 4 a (bases ctx) → m.word32 a ≡ m'.word32 a
    pub words : (a : ℕ) → Readable 8 a (bases ctx) → m.word64 a ≡ m'.word64 a
    pub capabilities : (a : ℕ) → Readable 16 a (bases ctx) → m.capability a ≡ m'.capability a
    pub stack : (a : ℕ) → InStack ctx.cap_sp a → m.word64 a ≡ m'.word64 a

  module _ (doc : Documented ch) where
    -- What COVER gives has the address asked for, and some capability covers the read.
    cover_lem :
        (bs : List Cap) (a nbytes : ℕ) (p : Cap)
        → cover bs a nbytes ≡ some p
        → (ch.address p ≡ a) × Readable nbytes a bs
    unfolding cover
    cover_lem [] a nbytes p e = absurd (cc)
    cover_lem (c ∷ bs) a nbytes p e = elim (Bool-cases (covers c a nbytes)) [
      | inl hit ↦
          let here : some (ch.address_set c a) ≡ some p = rw hit at e in
          (ap ch.address (sym (some_inj here)) ∙ doc.address-address_set c a, by_first hit)
      | inr miss ↦ let (at_a, r) = cover_lem bs a nbytes p (rw miss at e) in (at_a, by_later r)
    ]

    peek_congr :
        {A : Type 0} (read read' : ℕ → A) (bs : List Cap) (nbytes : ℕ)
        → ((a : ℕ) → Readable nbytes a bs → read a ≡ read' a)
        → (a : ℕ) → peek read bs nbytes a ≡ peek read' bs nbytes a
    unfolding peek
    peek_congr read read' bs nbytes same a = elim (Option-cases (cover bs a nbytes)) [
      | inl out ↦ rw (peek, out)
      | inr (p, e) ↦
          let (at_a, r) = cover_lem bs a nbytes p e in
          rw (peek, e)
            (ap (λ v. if ch.address p == 0 then none else some v)
              (same (ch.address p) (subst (λ q. Readable nbytes q bs) (sym at_a) r)))
    ]

    slot_lines_congr :
        (read read' : ℕ → Cap) (bs : List Cap) (addresses : List ℕ)
        → ((a : ℕ) → Readable 16 a bs → read a ≡ read' a)
        → slot_lines read bs addresses ≡ slot_lines read' bs addresses
    unfolding slot_lines
    slot_lines_congr read read' bs [] same = refl
    slot_lines_congr read read' bs (a ∷ rest) same =
        let f : (ℕ → Cap) → ℕ → Bool × ℕ = λ r p. (ch.tag (r p), ch.address (r p)) in
        let here : peek (f read) bs 16 a ≡ peek (f read') bs 16 a =
          peek_congr (f read) (f read') bs 16 (λ q r. ap (λ c. (ch.tag c, ch.address c)) (same q r))
            a in
        let later = slot_lines_congr read read' bs rest same in λ i. (a, here i) ∷ later i

  stk_rd_congr :
      (mem mem' : ℕ → ℕ) (csp : Cap)
      → ((a : ℕ) → InStack csp a → mem a ≡ mem' a)
      → (a : ℕ) → stk_rd mem csp a ≡ stk_rd mem' csp a
  unfolding stk_rd
  stk_rd_congr mem mem' csp same a = ground (arith, same a)

  walk_congr :
      (mem mem' : ℕ → ℕ) (csp : Cap)
      → ((a : ℕ) → stk_rd mem csp a ≡ stk_rd mem' csp a)
      → (rounds f : ℕ) → walk mem csp rounds f ≡ walk mem' csp rounds f
  unfolding walk
  walk_congr mem mem' csp same zero f = refl
  walk_congr mem mem' csp same (suc rounds) f =
      rw (same f, same (add64 f 16), walk_congr mem mem' csp same rounds (stk_rd mem' csp f))

  stack_line_congr :
      (m m' : Memory Cap) (csp : Cap)
      → ((a : ℕ) → stk_rd m.word64 csp a ≡ stk_rd m'.word64 csp a)
      → (a : ℕ) → stack_line m csp a ≡ stack_line m' csp a
  unfolding stack_line
  stack_line_congr m m' csp same a = rw (same a)

  range_dump_congr :
      (fuel : ℕ) (m m' : Memory Cap) (bs : List Cap) (range : Option (ℕ × ℕ))
      → ((a : ℕ) → peek m.word32 bs 4 a ≡ peek m'.word32 bs 4 a)
      → range_dump fuel m bs range ≡ range_dump fuel m' bs range
  unfolding range_dump
  range_dump_congr fuel m m' bs none same = refl
  range_dump_congr fuel m m' bs (some (d_lo, d_hi)) same =
      ap
        (λ f.
          if ltb d_lo d_hi && leb (sub64 d_hi d_lo) 0x10000
          then range_lines f d_hi fuel d_lo
          else some [])
        (fun_ext (λ a. ap (λ v. (a, v)) (same a)))

  -- The dump is the same for two memories that agree wherever a read passes the test of COVER for one
  -- of the registers, or that of `stopless_stk_rd` for CSP, if the loader and the VM find the same names
  -- for code addresses, and the VM the same of the method in c12: whether it is valid where c12 is
  -- tagged, at least 0x50000000 and a multiple of eight, and its name and the index of the bytecode at
  -- c22 where it is valid as well.
  pub report_safe :
      (doc : Documented ch) (fuel : ℕ) (range : Option (ℕ × ℕ)) (names names' : Names Cap) (sig : ℕ)
      (si : Siginfo) (ctx : Context Cap) (m m' : Memory Cap)
      → Agree ctx m m'
      → SameNames (ctx.cap_x 12) (ctx.cap_x 22) names names'
      → report fuel range names sig si m ctx ≡ report fuel range names' sig si m' ctx
  unfolding report code_lines probe_lines bytecode_lines
  report_safe doc fuel range names names' sig si ctx m m' agree same =
      let csp = ctx.cap_sp in
      let bs = bases ctx in
      let fp = ch.address (ctx.cap_x 29) in
      let word = stk_rd_congr m.word64 m'.word64 csp agree.stack in
      let at_8 = peek_congr doc m.word8 m'.word8 bs 1 agree.bytes in
      let at_32 = peek_congr doc m.word32 m'.word32 bs 4 agree.instructions in
      let at_64 = peek_congr doc m.word64 m'.word64 bs 8 agree.words in
      let slots =
        slot_lines_congr doc m.capability m'.capability bs (slot_addresses ctx)
          agree.capabilities in
      let frames = walk_congr m.word64 m'.word64 csp word 8 fp in
      let ranges = range_dump_congr fuel m m' bs range at_32 in
      let stack : (a : ℕ) → stack_line m csp a ≡ stack_line m' csp a =
        stack_line_congr m m' csp word in
      let elr_a = ch.address ctx.cap_elr in
      λ i. record {
        sig = sig;
        si_code = si.si_code;
        si_addr = si.si_addr;
        elr = elr_a;
        lr = ch.address ctx.cap_lr;
        sp_a = ch.address csp;
        fp = fp;
        elr_tag = ch.tag ctx.cap_elr;
        elr_perms = ch.perms ctx.cap_elr;
        elr_c64 = ch.flags ctx.cap_elr % 2;
        csp_tag = ch.tag csp;
        csp_base = ch.base csp;
        csp_top = add64 (ch.base csp) (ch.len csp);
        stack = lines (λ a. stack a i) 8 53 (sub64 (ch.address csp) 256);
        registers = (report fuel range names sig si m ctx).registers;
        saved_lr = word (add64 fp 16) i;
        elr_symbol = symbol_congr same ctx.cap_elr elr_a i;
        frames = frames i;
        symbols =
            (ap (frame_symbols names ctx.cap_elr) frames
                ∙ frame_symbols_congr same ctx.cap_elr (walk m'.word64 csp 8 fp))
              i;
        code = lines (λ a. (a, at_32 a i)) 4 17 (sub64 elr_a 0x20);
        fault = elim (at_32 elr_a i) [ none ↦ none | some fi ↦ some (fault_line ctx fi) ];
        method = method_line_congr same i;
        probes =
            lines (λ a. (a, at_64 a i)) 8 8 (ch.address (ctx.cap_x 22))
            ∷ lines (λ a. (a, at_64 a i)) 8 8 (ch.address (ctx.cap_x 12))
            ∷ lines (λ a. (a, at_64 a i)) 8 8 (ch.address (ctx.cap_x 21))
            ∷ [];
        bytecodes = lines (λ a. (a, at_8 a i)) 1 33 (sub64 (ch.address (ctx.cap_x 22)) 24);
        slots = slots i;
        range = ranges i;
      }
