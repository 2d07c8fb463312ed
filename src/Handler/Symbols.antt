-- ===== src/Handler/Symbols.antt =====
-- stopless_gc/handler.c: STOPLESS_SYM, which names a code address. `dladdr`, which comes from the loader,
-- is a parameter.
use stopless_java_gc.Base.{
  ℕ, ◌≡◌, refl, Bool, Option, none, some, List, [], ◌∷◌, String, sub64, if◌then◌else◌,
}
use stopless_java_gc.Cheri.{Cheri}
use stopless_java_gc.Handler.Dump.{Frame}
use stopless_java_gc.Handler.Names.{
  Hotspot, BlobName, MethodName, codeblob_name, method_name, SameAnswers, codeblob_name_congr,
  method_name_congr,
}

-- `Dl_info`; `none` is a null pointer.
pub record DlInfo (Cap : Type 0) : Type 0 where
  pub dli_fname : Option String
  pub dli_fbase : Cap
  pub dli_sname : Option String

-- `dladdr`, which may fail, what the VM finds for `stopless_codeblob_name` and `stopless_method_name`,
-- and whether the second, a weak symbol, is there
pub record Names (Cap : Type 0) : Type 0 where
  pub dladdr : Cap → Option (DlInfo Cap)
  pub hotspot : Hotspot Cap
  pub names_methods : Bool

-- What is printed of an address: the module, its base, the offset in it and the symbol, or the blob.
pub data Symbol : Type 0 where
  in_module : (fname : String) (base off : ℕ) (sname : Option String) → Symbol
  in_blob : Option BlobName → Symbol

module _ {Cap : Type 0} ⦃ch : Cheri Cap⦄ where
  -- STOPLESS_SYM after the two lookups of the address
  unfoldable pub symbol_in : Option (DlInfo Cap) → ℕ → Option BlobName → Symbol
  symbol_in none addrval blob = in_blob blob
  symbol_in (some di) addrval blob = elim di.dli_fname [
    | none ↦ in_blob blob
    | some fname ↦
        let b = ch.address di.dli_fbase in in_module fname b (sub64 addrval b) di.dli_sname
  ]

  -- STOPLESS_SYM, from ELR and the address
  unfoldable pub symbol : Names Cap → Cap → ℕ → Symbol
  unfolding symbol_in codeblob_name
  symbol names elr addrval =
      let a = ch.address_set elr addrval in
      symbol_in (names.dladdr a) addrval (codeblob_name names.hotspot a)

  -- the symbols of the frame chain
  unfoldable pub frame_symbols : Names Cap → Cap → List Frame → List Symbol
  unfolding symbol
  frame_symbols names elr [] = []
  frame_symbols names elr (f ∷ fs) = symbol names elr f.saved_lr ∷ frame_symbols names elr fs

  -- the name of the interpreted method: nothing, or what `stopless_method_name` gives
  unfoldable pub method_line : Names Cap → Cap → Cap → Option (Option MethodName)
  unfolding method_name
  method_line names method bcp =
      if names.names_methods then some (method_name names.hotspot method bcp) else none

  -- The names that two states of the loader and the VM give to a context.
  pub record SameNames (m bcp : Cap) (names names' : Names Cap) : Type 0 where
    pub dladdr : (a : Cap) → names.dladdr a ≡ names'.dladdr a
    pub answers : SameAnswers m bcp names.hotspot names'.hotspot
    pub symbols : names.names_methods ≡ names'.names_methods

  module _ {m bcp : Cap} {names names' : Names Cap} (same : SameNames m bcp names names') where
    pub symbol_congr : (elr : Cap) (a : ℕ) → symbol names elr a ≡ symbol names' elr a
    unfolding symbol
    symbol_congr elr a =
        let c = ch.address_set elr a in rw (same.dladdr c, codeblob_name_congr same.answers c) refl

    pub frame_symbols_congr :
        (elr : Cap) (fs : List Frame) → frame_symbols names elr fs ≡ frame_symbols names' elr fs
    unfolding frame_symbols
    frame_symbols_congr elr [] = refl
    frame_symbols_congr elr (f ∷ fs) =
        rw (symbol_congr elr f.saved_lr, frame_symbols_congr elr fs) refl

    pub method_line_congr : method_line names m bcp ≡ method_line names' m bcp
    unfolding method_line
    method_line_congr = rw (same.symbols, method_name_congr same.answers) refl
