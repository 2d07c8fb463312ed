-- ===== src/Cheri.antt =====
-- CHERI capabilities, as <cheriintrin.h> gives them to the C sources: the type of capabilities and
-- the intrinsics are parameters of every module that handles a pointer.
use stopless_java_gc.Base.{ℕ, ◌+◌, ◌-◌, ◌^◌, ◌≤◌, bit_and, ◌≡◌, Bool, word}

-- The observers and operations of <cheriintrin.h> and the two permission bits of <cheri/cherireg.h>
-- that the sources name. An address, a length and a set of permissions are 64-bit words.
pub record Cheri (Cap : Type 0) : Type 0 where
  pub tag : Cap → Bool  -- cheri_tag_get
  pub is_sealed : Cap → Bool
  pub address : Cap → ℕ
  pub base : Cap → ℕ
  pub len : Cap → ℕ  -- cheri_length_get
  pub perms : Cap → ℕ
  pub flags : Cap → ℕ
  pub otype : Cap → ℕ  -- cheri_type_get
  pub address_set : Cap → ℕ → Cap
  pub bounds_set : Cap → ℕ → Cap
  pub perms_and : Cap → ℕ → Cap
  pub representable_length : ℕ → ℕ
  pub alignment_mask : ℕ → ℕ  -- cheri_representable_alignment_mask
  pub perm_load : ℕ  -- CHERI_PERM_LOAD
  pub perm_sw_vmem : ℕ  -- CHERI_PERM_SW_VMEM

-- Two capabilities with the same fields.
pub record SameFields {Cap : Type 0} ⦃ch : Cheri Cap⦄ (c d : Cap) : Type 0 where
  pub same_tag : ch.tag c ≡ ch.tag d
  pub same_address : ch.address c ≡ ch.address d
  pub same_base : ch.base c ≡ ch.base d
  pub same_len : ch.len c ≡ ch.len d
  pub same_perms : ch.perms c ≡ ch.perms d

-- What the CHERI architecture documents of these operations, as far as the sources rely on it.
pub record Documented {Cap : Type 0} (ch : Cheri Cap) : Type 0 where
  -- setting the address within the bounds changes nothing else
  pub address-address_set : (c : Cap) (a : ℕ) → ch.address (ch.address_set c a) ≡ a
  pub base-address_set :
      (c : Cap) (a : ℕ)
      → ch.base c ≤ a
      → a ≤ ch.base c + ch.len c
      → ch.base (ch.address_set c a) ≡ ch.base c
  pub len-address_set :
      (c : Cap) (a : ℕ)
      → ch.base c ≤ a
      → a ≤ ch.base c + ch.len c
      → ch.len (ch.address_set c a) ≡ ch.len c
  pub tag-address_set :
      (c : Cap) (a : ℕ)
      → ch.base c ≤ a
      → a ≤ ch.base c + ch.len c
      → ch.tag (ch.address_set c a) ≡ ch.tag c
  pub perms-address_set : (c : Cap) (a : ℕ) → ch.perms (ch.address_set c a) ≡ ch.perms c
  -- narrowing keeps the address and the permissions
  pub address-bounds_set : (c : Cap) (n : ℕ) → ch.address (ch.bounds_set c n) ≡ ch.address c
  pub perms-bounds_set : (c : Cap) (n : ℕ) → ch.perms (ch.bounds_set c n) ≡ ch.perms c
  -- the tag survives where the rounded range lies within the old bounds
  pub tag-bounds_set :
      (c : Cap) (n : ℕ)
      → ch.base c ≤ ch.address c
      → ch.address c + ch.representable_length n ≤ ch.base c + ch.len c
      → ch.tag (ch.bounds_set c n) ≡ ch.tag c
  -- from an address that is aligned for the rounded length the bounds start there
  pub base-bounds_set :
      (c : Cap) (n : ℕ)
      → bit_and (ch.address c) (ch.alignment_mask (ch.representable_length n)) ≡ ch.address c
      → ch.base (ch.bounds_set c n) ≡ ch.address c
  pub len-bounds_set :
      (c : Cap) (n : ℕ)
      → bit_and (ch.address c) (ch.alignment_mask (ch.representable_length n)) ≡ ch.address c
      → ch.len (ch.bounds_set c n) ≡ ch.representable_length n
  -- taking permissions away changes nothing else
  pub perms-perms_and : (c : Cap) (m : ℕ) → ch.perms (ch.perms_and c m) ≡ bit_and (ch.perms c) m
  pub tag-perms_and : (c : Cap) (m : ℕ) → ch.tag (ch.perms_and c m) ≡ ch.tag c
  pub address-perms_and : (c : Cap) (m : ℕ) → ch.address (ch.perms_and c m) ≡ ch.address c
  pub base-perms_and : (c : Cap) (m : ℕ) → ch.base (ch.perms_and c m) ≡ ch.base c
  pub len-perms_and : (c : Cap) (m : ℕ) → ch.len (ch.perms_and c m) ≡ ch.len c
  -- a rounded length needs no rounding
  pub representable_idem :
      (n : ℕ) → ch.representable_length (ch.representable_length n) ≡ ch.representable_length n
  -- the mask has ones above the alignment's exponent
  pub alignment : ℕ → ℕ
  pub alignment_le : (n : ℕ) → alignment n ≤ 63
  pub alignment_mask_lem : (n : ℕ) → ch.alignment_mask n ≡ word - 2 ^ alignment n
