-- ===== src/Tests/Machine.antt =====
-- A machine with exact bounds: every length is representable, at any address.
use stopless_java_gc.Base.{
  ℕ, ◌+◌, ◌-◌, ◌≤◌, ◌≡◌, bit_and, refl, Bool, true, false, ◌&&◌, leb, word, arith,
}
use stopless_java_gc.Cheri.{Cheri, Documented}

pub record Flat : Type 0 where
  pub tag : Bool
  pub address : ℕ
  pub base : ℕ
  pub len : ℕ
  pub perms : ℕ

instance abbrev pub flat : Cheri Flat
flat = record {
  tag = λ c. c.tag;
  is_sealed = λ c. false;
  address = λ c. c.address;
  base = λ c. c.base;
  len = λ c. c.len;
  perms = λ c. c.perms;
  flags = λ c. 1;
  otype = λ c. 0;
  address_set = λ c a. record c { address = a };
  bounds_set = λ c n. record c {
    tag = c.tag && (leb c.base c.address && leb (c.address + n) (c.base + c.len));
    base = c.address;
    len = n;
  };
  perms_and = λ c m. record c { perms = bit_and c.perms m };
  representable_length = λ n. n;
  alignment_mask = λ n. word - 1;
  perm_load = 4;
  perm_sw_vmem = 2;
}

pub tag-bounds_set_flat :
    (b : Bool) (base address n len : ℕ)
    → base ≤ address
    → address + n ≤ base + len
    → (b && (leb base address && leb (address + n) (base + len))) ≡ b
tag-bounds_set_flat b base address n len low high = ground arith

abbrev pub flat_Documented : Documented flat
flat_Documented = record {
  address-address_set = λ c a. refl;
  base-address_set = λ c a low high. refl;
  len-address_set = λ c a low high. refl;
  tag-address_set = λ c a low high. refl;
  perms-address_set = λ c a. refl;
  address-bounds_set = λ c n. refl;
  perms-bounds_set = λ c n. refl;
  tag-bounds_set = λ c n low high. tag-bounds_set_flat c.tag c.base c.address n c.len low high;
  base-bounds_set = λ c n aligned. refl;
  len-bounds_set = λ c n aligned. refl;
  perms-perms_and = λ c m. refl;
  tag-perms_and = λ c m. refl;
  address-perms_and = λ c m. refl;
  base-perms_and = λ c m. refl;
  len-perms_and = λ c m. refl;
  representable_idem = λ n. refl;
  alignment = λ n. 0;
  alignment_le = λ n. omega arith;
  alignment_mask_lem = λ n. refl;
}

-- The arena of the tests, from 4096 to 12288, and capabilities into it.
abbrev pub arena_cap : Flat
arena_cap = record { tag = true; address = 4096; base = 4096; len = 8192; perms = 7 }

abbrev pub cap_to : ℕ → ℕ → Flat
cap_to a n = record { tag = true; address = a; base = a; len = n; perms = 5 }

-- a capability at offset 8 of the object at an address, after the revocation
abbrev pub stale : ℕ → Flat
stale a = record { tag = false; address = a + 8; base = a; len = 64; perms = 5 }

abbrev pub null : Flat
null = record { tag = false; address = 0; base = 0; len = 0; perms = 0 }
