-- ===== src/Allocator/Object.antt =====
-- What `stopless_alloc` returns, on every branch.
use stopless_java_gc.Base.{
  ℕ, ◌+◌, ◌-◌, ◌*◌, ◌≤◌, ◌<◌, ◌≡◌, ◌≢◌, sym, ap, ◌∙◌, subst, ◌⊎◌, inl, inr, true, none, some, arith,
  word, add64, not64, Option-cases,
}
use stopless_java_gc.Cheri.{Cheri, Documented, SameFields}
use stopless_java_gc.Arena.{Arena}
use stopless_java_gc.Forwarding.{rebuilt}
use stopless_java_gc.Forwarding.Derive.{Fits, Tight, carved-Tight, rebuilt-Tight, Tight-unique}
use stopless_java_gc.Allocator.{align_up_repr, reserve, object_at, alloc_in}
use stopless_java_gc.Allocator.Align.{
  unit, Reasonable, reserve_lem, reserve_full, align_up_aligned, multiple_aligned,
}

module _ {Cap : Type 0} ⦃ch : Cheri Cap⦄ (doc : Documented ch) where
  -- The arena's capability as `mmap` returns it: live, at its start, covering the arena.
  pub record Root (base : Cap) (size : ℕ) : Type 0 where
    pub live : ch.tag base ≡ true
    pub at_start : ch.address base ≡ ch.base base
    pub covers : size ≤ ch.len base
    pub within : ch.base base + ch.len base ≤ word

  alloc_in_full :
      (a : Arena Cap) (base : Cap) (n : ℕ)
      → a.base ≡ some base
      → reserve ch a.size (ch.representable_length n) a.bump_offset ≡ none
      → alloc_in a n ≡ (none, a)
  unfolding alloc_in
  alloc_in_full a base n e full = ground (arith, e, full)

  alloc_in_run :
      (a : Arena Cap) (base : Cap) (n al new : ℕ)
      → a.base ≡ some base
      → n ≢ 0
      → n ≤ ch.representable_length n
      → reserve ch a.size (ch.representable_length n) a.bump_offset ≡ some (al, new)
      → alloc_in a n ≡ (some (object_at base al n), record a { bump_offset = new })
  unfolding alloc_in
  alloc_in_run a base n al new e ne grows run = ground (arith, e, run)

  module _ (a : Arena Cap) (base : Cap) (n q : ℕ) (based : a.base ≡ some base)
      (root : Root base a.size) (placed : ch.base base ≡ q * unit doc (ch.representable_length n))
      (asked : n ≢ 0) (grows : n ≤ ch.representable_length n)
      (sane : Reasonable doc (ch.representable_length n) a.size)
      (cursor : a.bump_offset ≤ a.size) where
    abbrev rounded : ℕ
    rounded = ch.representable_length n

    -- A range that the loop reserved is one that an object can have.
    reserved-Fits :
        (al : ℕ)
        → al ≡ align_up_repr ch a.bump_offset rounded
        → al + rounded ≤ a.size
        → Fits doc base (ch.base base + al) rounded
    reserved-Fits al at_up room =
        let (p, e) = align_up_aligned doc rounded a.bump_offset (omega arith) in
        let multiple : ch.base base + al ≡ (q + p) * unit doc rounded =
          omega (arith, placed, at_up, e) in
        record {
          low = omega arith;
          high = omega (arith, root.covers);
          nonempty = omega arith;
          exact = doc.representable_idem n;
          aligned = rw multiple (
              multiple_aligned doc rounded (q + p)
                (let c = root.covers in let w = root.within in omega arith));
        }

    object-Tight :
        (al : ℕ)
        → al ≡ align_up_repr ch a.bump_offset rounded
        → al + rounded ≤ a.size
        → Tight doc base (ch.base base + al) rounded (object_at base al n)
    unfolding object_at
    object-Tight al at_up room =
        let plain : add64 (ch.address base) al ≡ ch.base base + al =
          ap (λ (t : ℕ). add64 t al) root.at_start
          ∙ (let c = root.covers in let w = root.within in omega arith) in
        subst
          (λ addr.
            Tight doc base (ch.base base + al) rounded
              (ch.perms_and (ch.bounds_set (ch.address_set base addr) n) (not64 ch.perm_sw_vmem)))
          (sym plain) (carved-Tight doc root.live n (reserved-Fits al at_up room))

    -- An allocation from offset `al`.
    pub record Allocated (al : ℕ) (c : Cap) : Type 0 where
      pub run : alloc_in a n ≡ (some c, record a { bump_offset = al + rounded })
      pub above : a.bump_offset ≤ al
      pub inside : al + rounded ≤ a.size
      pub fits : Fits doc base (ch.base base + al) rounded
      pub tight : Tight doc base (ch.base base + al) rounded c
      pub again : SameFields c (rebuilt base (ch.address c) (ch.len c))

    -- In an arena over its mapping, whose base is a multiple of the alignment that the request's
    -- rounded size needs, with the cursor within it, and for a request whose sums stay below 2 ^ 64:
    -- `stopless_alloc` either returns a live capability without SW_VMEM to an aligned range of the
    -- rounded size, which starts at or above the cursor and ends in the arena at the new cursor, and
    -- whose address and length are enough for `ft_derive` to make a capability with the same fields;
    -- or it returns NULL and changes nothing, since the aligned range would not fit.
    pub alloc_in_lem :
        ((al : ℕ) × (c : Cap) × Allocated al c)
        ⊎ ((alloc_in a n ≡ (none, a)) × (a.size < align_up_repr ch a.bump_offset rounded + rounded))
    alloc_in_lem = elim (Option-cases (reserve ch a.size rounded a.bump_offset)) [
      | inl full ↦ inr (
        alloc_in_full a base n based full,
        reserve_full doc rounded a.size a.bump_offset sane cursor full,
      )
      | inr ((al, new), run) ↦
          let (above, at_up, ends, inside) =
            reserve_lem doc rounded a.size a.bump_offset al new sane cursor run in
          let c = object_at base al n in
          let tight = object-Tight al at_up (omega arith) in
          let again =
            Tight-unique doc tight
              (rebuilt-Tight doc root.live (reserved-Fits al at_up (omega arith))) in
          inl (
            al,
            c,
            record {
              run =
                  alloc_in_run a base n al new based asked grows run
                  ∙ ap (λ (t : ℕ). (some c, record a { bump_offset = t })) ends;
              above = above;
              inside = omega arith;
              fits = reserved-Fits al at_up (omega arith);
              tight = tight;
              again =
                  subst (λ x. SameFields c (rebuilt base x (ch.len c))) (sym tight.address)
                    (subst (λ l. SameFields c (rebuilt base (ch.base base + al) l))
                      (sym tight.extent) again);
            },
          )
    ]

  -- A request of a rounded size below 2 ^ 64 whose reservation wraps round 2 ^ 64 into the arena is
  -- granted, and puts the cursor below the object's offset.
  pub alloc_in_wraps :
      (a : Arena Cap) (base : Cap) (n : ℕ)
      → a.base ≡ some base
      → n ≢ 0
      → n ≤ ch.representable_length n
      → let rounded = ch.representable_length n in
        let al = align_up_repr ch a.bump_offset rounded in
        word ≤ al + rounded
        → al + rounded < word + word
        → al + rounded ≤ word + a.size
        → rounded < word
        → (alloc_in a n
            ≡ (some (object_at base al n), record a { bump_offset = al + rounded - word }))
          × (al + rounded - word < al)
  unfolding reserve
  alloc_in_wraps a base n e ne grows wraps twice small word_size =
      (alloc_in_run a base n _ _ e ne grows (ground arith), omega arith)
