-- ===== src/Handler/Names.antt =====
-- os_bsd_aarch64.cpp: the names of generated code and of interpreted methods, for the crash dumper. What
-- the interpreter, the code cache and the metaspace of the VM hold, and what their functions find there,
-- are parameters; the formatting is left out.
use stopless_java_gc.Base.{
  ℕ, ◌%◌, ◌≡◌, refl, sym, ◌∙◌, inl, inr, Bool, true, not, ◌&&◌, Option, none, some, String, leb,
  ◌==◌, if◌then◌else◌, Bool-cases,
}
use stopless_java_gc.Base.Int.{ℤ, minus_one}
use stopless_java_gc.Cheri.{Cheri}

-- `InterpreterCodelet`; a null description is `none`.
pub record Codelet : Type 0 where
  pub description : Option String
  pub code_begin : ℕ

-- What the VM finds in its memory. The methods are asked by a capability to a `Method`.
pub record Hotspot (Cap : Type 0) : Type 0 where
  pub interpreter_contains : Cap → Bool
  pub codelet_containing : Cap → Option Codelet
  pub find_blob_unsafe : Cap → Option (Option String)
  pub is_valid_method : Cap → Bool
  pub is_native : Cap → Bool
  pub contains : Cap → Cap → Bool
  pub bci_from : Cap → Cap → ℤ
  pub name_and_sig : Cap → String

-- What `stopless_codeblob_name` gives: a codelet's description and start, or a blob's name.
pub data BlobName : Type 0 where
  codelet_name : String → ℕ → BlobName
  blob_name : String → BlobName

-- the name of a blob, if there is one
unfoldable pub name_of_blob : Option (Option String) → Option BlobName
name_of_blob none = none
name_of_blob (some none) = none
name_of_blob (some (some name)) = some (blob_name name)

-- the name of a codelet that has a description, or else the blob's
unfoldable pub name_of_codelet : Option Codelet → Option BlobName → Option BlobName
name_of_codelet none blob = blob
name_of_codelet (some codelet) blob = elim codelet.description [
  | none ↦ blob
  | some d ↦ some (codelet_name d codelet.code_begin)
]

-- the name and the index of the bytecode that `stopless_method_name` prints
pub record MethodName : Type 0 where
  pub name_and_sig : String
  pub bci : ℤ

module _ {Cap : Type 0} where
  -- `stopless_codeblob_name`
  unfoldable pub codeblob_name : Hotspot Cap → Cap → Option BlobName
  unfolding name_of_blob name_of_codelet
  codeblob_name hs pc =
      let blob = name_of_blob (hs.find_blob_unsafe pc) in
      if hs.interpreter_contains pc then name_of_codelet (hs.codelet_containing pc) blob else blob

module _ {Cap : Type 0} ⦃ch : Cheri Cap⦄ where
  -- not NULL, tagged, and as high and aligned as metaspace
  unfoldable pub is_plausible : Cap → Bool
  is_plausible m =
      (not (ch.address m == 0) && ch.tag m)
      && (leb 0x50000000 (ch.address m) && ch.address m % 8 == 0)

  -- the index of the bytecode in a valid method
  unfoldable pub bci_of : Hotspot Cap → Cap → Cap → ℤ
  bci_of hs m bcp =
      if (not (ch.address bcp == 0) && ch.tag bcp) && not (hs.is_native m)
      then if hs.contains m bcp then hs.bci_from m bcp else minus_one
      else minus_one

  -- `stopless_method_name`
  unfoldable pub method_name : Hotspot Cap → Cap → Cap → Option MethodName
  unfolding is_plausible bci_of
  method_name hs m bcp =
      if is_plausible m
      then if hs.is_valid_method m
        then some (record { name_and_sig = hs.name_and_sig m; bci = bci_of hs m bcp })
        else none
      else none

  -- The VM finds the same of code addresses, and the same of the method `m` and the bytecode pointer
  -- `bcp`: of the method where it is plausible, and more of it where it is valid.
  pub record SameAnswers (m bcp : Cap) (hs hs' : Hotspot Cap) : Type 0 where
    pub interpreter : (pc : Cap) → hs.interpreter_contains pc ≡ hs'.interpreter_contains pc
    pub codelet : (pc : Cap) → hs.codelet_containing pc ≡ hs'.codelet_containing pc
    pub blob : (pc : Cap) → hs.find_blob_unsafe pc ≡ hs'.find_blob_unsafe pc
    pub valid : is_plausible m ≡ true → hs.is_valid_method m ≡ hs'.is_valid_method m
    pub name :
        is_plausible m ≡ true → hs.is_valid_method m ≡ true → hs.name_and_sig m ≡ hs'.name_and_sig m
    pub bytecode :
        is_plausible m ≡ true → hs.is_valid_method m ≡ true → bci_of hs m bcp ≡ bci_of hs' m bcp

  pub codeblob_name_congr :
      {m bcp : Cap} {hs hs' : Hotspot Cap}
      → SameAnswers m bcp hs hs'
      → (pc : Cap) → codeblob_name hs pc ≡ codeblob_name hs' pc
  unfolding codeblob_name
  codeblob_name_congr same pc = rw (same.interpreter pc, same.codelet pc, same.blob pc) refl

  pub method_name_congr :
      {m bcp : Cap} {hs hs' : Hotspot Cap}
      → SameAnswers m bcp hs hs'
      → method_name hs m bcp ≡ method_name hs' m bcp
  unfolding method_name
  method_name_congr {m} {bcp} {hs} {hs'} same = elim (Bool-cases (is_plausible m)) [
    | inr off ↦ rw off refl
    | inl plausible ↦ elim (Bool-cases (hs.is_valid_method m)) [
      | inr off ↦ rw (plausible, off, sym (same.valid plausible) ∙ off) refl
      | inl valid ↦
          rw
            (
              plausible,
              valid,
              sym (same.valid plausible) ∙ valid,
              same.name plausible valid,
              same.bytecode plausible valid,
            )
            refl
    ]
  ]
