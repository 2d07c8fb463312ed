-- ===== src/Forwarding/Derive.antt =====
-- The capability that `ft_derive` rebuilds from an address and a length.
use stopless_java_gc.Base.{
  ℕ, ◌+◌, ◌≤◌, ◌<◌, ◌≡◌, ◌≢◌, sym, ap, ◌∙◌, subst, bit_and, true, some, arith, not64, if◌then◌else◌,
  lt→ltb,
}
use stopless_java_gc.Cheri.{Cheri, Documented, SameFields}
use stopless_java_gc.Forwarding.{Forwarding, rebuilt, derive}

module _ {Cap : Type 0} ⦃ch : Cheri Cap⦄ (doc : Documented ch) where
  -- A range of the arena that an object can have: its length needs no rounding, its address is
  -- aligned for that length, and it lies within the arena.
  pub record Fits (base : Cap) (addr len : ℕ) : Type 0 where
    pub low : ch.base base ≤ addr
    pub high : addr + len ≤ ch.base base + ch.len base
    pub nonempty : 0 < len
    pub exact : ch.representable_length len ≡ len
    pub aligned : bit_and addr (ch.alignment_mask len) ≡ addr

  -- A live capability to exactly the range, with the arena's permissions less SW_VMEM.
  pub record Tight (base : Cap) (addr len : ℕ) (c : Cap) : Type 0 where
    pub live : ch.tag c ≡ true
    pub address : ch.address c ≡ addr
    pub from : ch.base c ≡ addr
    pub extent : ch.len c ≡ len
    pub stripped : ch.perms c ≡ bit_and (ch.perms base) (not64 ch.perm_sw_vmem)

  -- The three operations by which both the allocator and `ft_derive` make a capability.
  abbrev pub carved : Cap → ℕ → ℕ → Cap
  carved base addr n =
      ch.perms_and (ch.bounds_set (ch.address_set base addr) n) (not64 ch.perm_sw_vmem)

  module _ {base : Cap} (root : ch.tag base ≡ true) {addr : ℕ} (n : ℕ)
      (fits : Fits base addr (ch.representable_length n)) where
    inside : addr ≤ ch.base base + ch.len base
    inside = omega arith

    -- the base capability moved to the address
    abbrev moved : Cap
    moved = ch.address_set base addr

    at_addr : ch.address moved ≡ addr
    at_addr = doc.address-address_set base addr

    rounds_to :
        bit_and (ch.address moved) (ch.alignment_mask (ch.representable_length n))
        ≡ ch.address moved
    rounds_to = rw at_addr fits.aligned

    narrowed : ch.tag (ch.bounds_set moved n) ≡ true
    narrowed =
        doc.tag-bounds_set moved n
          (rw (doc.base-address_set base addr fits.low inside, at_addr) fits.low)
          (rw
            (
              doc.base-address_set base addr fits.low inside,
              doc.len-address_set base addr fits.low inside,
              at_addr,
            )
            fits.high)
        ∙ (doc.tag-address_set base addr fits.low inside ∙ root)

    pub carved-Tight : Tight base addr (ch.representable_length n) (carved base addr n)
    carved-Tight =
        let m = not64 ch.perm_sw_vmem in
        let c = ch.bounds_set moved n in
        record {
          live = doc.tag-perms_and c m ∙ narrowed;
          address = doc.address-perms_and c m ∙ (doc.address-bounds_set moved n ∙ at_addr);
          from = doc.base-perms_and c m ∙ (doc.base-bounds_set moved n rounds_to ∙ at_addr);
          extent = doc.len-perms_and c m ∙ doc.len-bounds_set moved n rounds_to;
          stripped =
              doc.perms-perms_and c m
              ∙ ap (λ (q : ℕ). bit_and q m)
                  (doc.perms-bounds_set moved n ∙ doc.perms-address_set base addr);
        }

  module _ {base : Cap} (root : ch.tag base ≡ true) {addr len : ℕ} (fits : Fits base addr len) where
    shape : rebuilt base addr len ≡ carved base addr len
    unfolding rebuilt
    shape =
        let moved = ch.address_set base addr in
        ap
          (λ b. ch.perms_and (if b then ch.bounds_set moved len else moved) (not64 ch.perm_sw_vmem))
          (lt→ltb 0 len fits.nonempty)

    -- What `ft_derive` makes of a range of the arena is tight.
    pub rebuilt-Tight : Tight base addr len (rebuilt base addr len)
    rebuilt-Tight =
        let fits' : Fits base addr (ch.representable_length len) =
          subst (Fits base addr) (sym fits.exact) fits in
        subst (Tight base addr len) (sym shape) (
          subst (λ l. Tight base addr l (carved base addr len)) fits.exact
            (carved-Tight root len fits'))

    -- `ft_derive` returns it and counts no failure.
    pub derive_fits :
        (f : Forwarding Cap)
        → f.arena_base ≡ some base
        → addr ≢ 0
        → derive f addr len ≡ (some (rebuilt base addr len), f)
    unfolding derive
    derive_fits f e ne = ground (arith, e, rebuilt-Tight.live, rebuilt-Tight.address)

  -- Two tight capabilities to one range have the same fields.
  pub Tight-unique :
      {base : Cap} {addr len : ℕ} {c d : Cap}
      → Tight base addr len c
      → Tight base addr len d
      → SameFields c d
  Tight-unique t u = record {
    same_tag = t.live ∙ sym u.live;
    same_address = t.address ∙ sym u.address;
    same_base = t.from ∙ sym u.from;
    same_len = t.extent ∙ sym u.extent;
    same_perms = t.stripped ∙ sym u.stripped;
  }
