-- ===== src/Handler/Report.antt =====
-- stopless_gc/handler.c: what `stopless_crash_dumper` prints. What the loader and the
-- VM find for a name are parameters; the formatting is left out.
pub mod Safe
pub mod Range
use stopless_java_gc.Base.{
  ℕ, zero, suc, ◌+◌, ◌*◌, ◌/◌, ◌%◌, ◌^◌, ◌≢◌, Bool, true, false, not, ◌&&◌, Option, none, some,
  List, [], ◌∷◌, ◌++◌, leb, ltb, ◌==◌, if◌then◌else◌, add64, sub64, String,
}
use stopless_java_gc.Cheri.{Cheri}
use stopless_java_gc.Base.Int.{ℤ}
use stopless_java_gc.Handler.{Context, Siginfo, base_register}
use stopless_java_gc.Handler.Names.{MethodName}
use stopless_java_gc.Handler.Symbols.{Names, Symbol, symbol, frame_symbols, method_line}
use stopless_java_gc.Handler.Dump.{Frame, stk_rd, walk, cover}

-- What memory holds at an address, by the type of the read.
pub record Memory (Cap : Type 0) : Type 0 where
  pub word8 : ℕ → ℕ
  pub word32 : ℕ → ℕ
  pub word64 : ℕ → ℕ
  pub capability : ℕ → Cap

-- the mark of a line of the stack window
pub data Mark : Type 0 where
  at_csp holds_csp plain : Mark

pub record StackLine : Type 0 where
  pub a : ℕ
  pub w : ℕ
  pub mark : Mark

-- a line of hexadecimal words: the address, and the word unless no register covers it
abbrev pub Line {ℓ} : Type ℓ → Type ℓ
Line A = ℕ × Option A

-- the capability in the base register, and whether its address is in its bounds
pub record BaseCap : Type 0 where
  pub tag : Bool
  pub address : ℕ
  pub base : ℕ
  pub top : ℕ
  pub len : ℕ
  pub perms : ℕ
  pub otype : ℕ
  pub is_sealed : Bool
  pub in_bounds : Bool

-- the faulting instruction: Rn, Rt, and the capability in Rn, unless that is NULL
pub record FaultLine : Type 0 where
  pub insn : ℕ
  pub rn : ℕ
  pub rt : ℕ
  pub in_rn : Option BaseCap

pub record Report : Type 0 where
  pub sig : ℕ
  pub si_code : ℤ
  pub si_addr : ℕ
  pub elr : ℕ
  pub lr : ℕ
  pub sp_a : ℕ
  pub fp : ℕ
  pub elr_tag : Bool
  pub elr_perms : ℕ
  pub elr_c64 : ℕ
  pub csp_tag : Bool
  pub csp_base : ℕ
  pub csp_top : ℕ
  pub stack : List StackLine
  pub registers : List (Bool × ℕ)
  pub saved_lr : ℕ
  pub elr_symbol : Symbol
  pub frames : List Frame
  pub symbols : List Symbol
  pub code : List (Line ℕ)
  pub fault : Option FaultLine
  pub method : Option (Option MethodName)
  pub probes : List (List (Line ℕ))
  pub bytecodes : List (Line ℕ)
  pub slots : List (Line (Bool × ℕ))
  pub range : Option (List (Line ℕ))

-- a `for` loop of `rounds` rounds over addresses, a line for each
unfoldable pub lines {ℓ} : {A : Type ℓ} → (ℕ → A) → ℕ → ℕ → ℕ → List A
lines f stride zero a = []
lines f stride (suc rounds) a = f a ∷ lines f stride rounds (add64 a stride)

-- `for (unsigned long a = d_lo; a < d_hi; a += 4)`, on fuel
unfoldable pub range_lines {ℓ} : {A : Type ℓ} → (ℕ → A) → ℕ → ℕ → ℕ → Option (List A)
range_lines f d_hi zero a = if ltb a d_hi then none else some []
range_lines f d_hi (suc fuel) a =
    let rest = range_lines f d_hi fuel (add64 a 4) in
    if ltb a d_hi then elim rest [ none ↦ none | some xs ↦ some (f a ∷ xs) ] else some []

module _ {Cap : Type 0} ⦃ch : Cheri Cap⦄ where
  -- the registers from `i` on
  unfoldable pub cap_regs : Context Cap → ℕ → ℕ → List Cap
  cap_regs ctx zero i = []
  cap_regs ctx (suc rounds) i = ctx.cap_x i ∷ cap_regs ctx rounds (suc i)

  -- `bases`
  unfoldable pub bases : Context Cap → List Cap
  unfolding cap_regs
  bases ctx = cap_regs ctx 31 0 ++ (ctx.cap_elr ∷ ctx.cap_sp ∷ [])

  unfoldable pub reg_lines : List Cap → List (Bool × ℕ)
  reg_lines [] = []
  reg_lines (c ∷ cs) = (ch.tag c, ch.address c) ∷ reg_lines cs

  -- `COVER(addr, nbytes)`, and a read through what it gives unless that is NULL, which is a test of the
  -- address
  unfoldable pub peek {ℓ} : {A : Type ℓ} → (ℕ → A) → List Cap → ℕ → ℕ → Option A
  peek read bs nbytes a = elim (cover bs a nbytes) [
    | none ↦ none
    | some p ↦ if ch.address p == 0 then none else some (read (ch.address p))
  ]

  -- a round of the loop over the stack window
  unfoldable pub stack_line : Memory Cap → Cap → ℕ → StackLine
  stack_line mem csp a =
      let sp_a = ch.address csp in
      let w = stk_rd mem.word64 csp a in
      record {
        a = a;
        w = w;
        mark = if a == sp_a then at_csp else (if w == sp_a then holds_csp else plain);
      }

  -- the decoding of the faulting instruction
  unfoldable pub fault_line : Context Cap → ℕ → FaultLine
  fault_line ctx fi =
      let rn = base_register fi in
      let c = ctx.cap_x rn in
      record {
        insn = fi;
        rn = rn;
        rt = fi % 2 ^ 5;
        in_rn =
            if leb rn 30 && not (ch.address c == 0)
            then (let top = add64 (ch.base c) (ch.len c) in
                some (record {
                  tag = ch.tag c;
                  address = ch.address c;
                  base = ch.base c;
                  top = top;
                  len = ch.len c;
                  perms = ch.perms c;
                  otype = ch.otype c;
                  is_sealed = ch.is_sealed c;
                  in_bounds = leb (ch.base c) (ch.address c) && ltb (ch.address c) top;
                }))
            else none;
      }

  abbrev pub line {ℓ} : {A : Type ℓ} → (ℕ → A) → List Cap → ℕ → ℕ → Line A
  line read bs nbytes a = (a, peek read bs nbytes a)

  -- the address of a slot of `slots`
  abbrev pub slot_address : Context Cap → ℕ → ℕ → ℕ
  slot_address ctx reg n = add64 (ch.address (ctx.cap_x reg)) n

  -- the slots below `rlocals` and above `esp`
  unfoldable pub slot_addresses : Context Cap → List ℕ
  slot_addresses ctx =
      slot_address ctx 24 0
      ∷ sub64 (ch.address (ctx.cap_x 24)) 16
      ∷ sub64 (ch.address (ctx.cap_x 24)) 32
      ∷ slot_address ctx 20 0
      ∷ slot_address ctx 20 16
      ∷ slot_address ctx 20 32
      ∷ slot_address ctx 20 48
      ∷ []

  unfoldable pub slot_lines : (ℕ → Cap) → List Cap → List ℕ → List (Line (Bool × ℕ))
  slot_lines read bs [] = []
  slot_lines read bs (a ∷ rest) =
      line (λ p. (ch.tag (read p), ch.address (read p))) bs 16 a ∷ slot_lines read bs rest

  -- STOPLESS_DUMP_RANGE, which `sscanf` has read or not; on fuel
  unfoldable pub range_dump : ℕ → Memory Cap → List Cap → Option (ℕ × ℕ) → Option (List (Line ℕ))
  unfolding range_lines
  range_dump fuel mem bs none = some []
  range_dump fuel mem bs (some (d_lo, d_hi)) =
      if ltb d_lo d_hi && leb (sub64 d_hi d_lo) 0x10000
      then range_lines (line mem.word32 bs 4) d_hi fuel d_lo
      else some []

  -- the code words around ELR
  unfoldable pub code_lines : Memory Cap → List Cap → ℕ → List (Line ℕ)
  unfolding lines
  code_lines mem bs elr_a = lines (line mem.word32 bs 4) 4 17 (sub64 elr_a 0x20)

  -- the words at rbcp, rmethod and rdispatch
  unfoldable pub probe_lines : Memory Cap → List Cap → Context Cap → List (List (Line ℕ))
  unfolding lines
  probe_lines mem bs ctx =
      lines (line mem.word64 bs 8) 8 8 (ch.address (ctx.cap_x 22))
      ∷ lines (line mem.word64 bs 8) 8 8 (ch.address (ctx.cap_x 12))
      ∷ lines (line mem.word64 bs 8) 8 8 (ch.address (ctx.cap_x 21))
      ∷ []

  -- the bytecodes around rbcp
  unfoldable pub bytecode_lines : Memory Cap → List Cap → ℕ → List (Line ℕ)
  unfolding lines
  bytecode_lines mem bs bcp = lines (line mem.word8 bs 1) 1 33 (sub64 bcp 24)

  -- all that the dump prints, in its order but for the symbols of the frames
  unfoldable pub report :
      ℕ → Option (ℕ × ℕ) → Names Cap → ℕ → Siginfo → Memory Cap → Context Cap → Report
  unfolding lines bases reg_lines peek stack_line fault_line slot_addresses slot_lines range_dump
      walk code_lines probe_lines bytecode_lines symbol frame_symbols method_line
  report fuel range names sig si mem ctx =
      let csp = ctx.cap_sp in
      let fp = ch.address (ctx.cap_x 29) in
      let elr_a = ch.address ctx.cap_elr in
      let bs = bases ctx in
      let frames = walk mem.word64 csp 8 fp in
      record {
        sig = sig;
        si_code = si.si_code;
        si_addr = si.si_addr;
        elr = elr_a;
        lr = ch.address ctx.cap_lr;
        sp_a = ch.address csp;
        fp = fp;
        elr_tag = ch.tag ctx.cap_elr;
        elr_perms = ch.perms ctx.cap_elr;
        elr_c64 = ch.flags ctx.cap_elr % 2;
        csp_tag = ch.tag csp;
        csp_base = ch.base csp;
        csp_top = add64 (ch.base csp) (ch.len csp);
        stack = lines (stack_line mem csp) 8 53 (sub64 (ch.address csp) 256);
        registers = reg_lines (cap_regs ctx 31 0);
        saved_lr = stk_rd mem.word64 csp (add64 fp 16);
        elr_symbol = symbol names ctx.cap_elr elr_a;
        frames = frames;
        symbols = frame_symbols names ctx.cap_elr frames;
        code = code_lines mem bs elr_a;
        fault = elim (peek mem.word32 bs 4 elr_a) [
          | none ↦ none
          | some fi ↦ some (fault_line ctx fi)
        ];
        method = method_line names (ctx.cap_x 12) (ctx.cap_x 22);
        probes = probe_lines mem bs ctx;
        bytecodes = bytecode_lines mem bs (ch.address (ctx.cap_x 22));
        slots = slot_lines mem.capability bs (slot_addresses ctx);
        range = range_dump fuel mem bs range;
      }
