-- ===== src/StoplessHeap/Copy.antt =====
-- stoplessHeap.cpp, `StoplessHeap::move_object`: the words of the copy.
use stopless_java_gc.Base.{
  ℕ, zero, suc, ◌+◌, ◌*◌, ◌≤◌, ◌<◌, ◌≡◌, refl, ap, ◌∙◌, ◌⊎◌, inl, inr, Option, none, some, arith,
  ℕ_discrete, ne→==, eq→==,
}
use stopless_java_gc.Cheri.{Cheri}
use stopless_java_gc.Arena.{Arena}
use stopless_java_gc.StoplessHeap.{Space, Vm, copy_words, mem_allocate, move_object}

module _ {W : Type 0} (s d : ℕ) (words : ℕ → W) where
  copy_words_outside : (n a : ℕ) → (a < d) ⊎ (d + 16 * n ≤ a) → copy_words s d n words a ≡ words a
  unfolding copy_words
  copy_words_outside zero a out = refl
  copy_words_outside (suc n) a out =
      rw (ne→== (d + 16 * n) a (elim out [ inl low ↦ omega arith | inr high ↦ omega arith ]))
        (copy_words_outside n a (elim out [ inl low ↦ inl low | inr high ↦ inr (omega arith) ]))

  copy_words_at :
      (n i : ℕ) → i < n → s + 16 * n ≤ d → copy_words s d n words (d + 16 * i) ≡ words (s + 16 * i)
  unfolding copy_words
  copy_words_at zero i below apart = absurd (omega arith)
  copy_words_at (suc n) i below apart = elim (ℕ_discrete (d + 16 * n) (d + 16 * i)) [
    | yes e ↦
        let same : n ≡ i = omega (arith, e) in
        rw (eq→== (d + 16 * n) (d + 16 * i) e) (
          copy_words_outside n (s + 16 * n) (inl (omega arith)) ∙ ap (λ x. words (s + 16 * x)) same)
    | no ne ↦
        rw (ne→== (d + 16 * n) (d + 16 * i) ne)
          (copy_words_at n i (omega (arith, ne)) (omega arith))
  ]

module _ {Cap W : Type 0} ⦃ch : Cheri Cap⦄ where
  pub move_object_run :
      (vm : Vm Cap) (h : Space Cap W) (o c : Cap) (a : Option (Arena Cap))
      → mem_allocate h.arena (vm.size o) ≡ (some c, a)
      → move_object vm h o ≡ (
        c,
        record h {
          arena = a;
          words = copy_words (ch.address o) (ch.address c) (vm.size o) h.words;
        },
      )
  unfolding move_object mem_allocate
  move_object_run vm h o c a run = ground (arith, run)

  pub move_object_full :
      (vm : Vm Cap) (h : Space Cap W) (o : Cap) (a : Option (Arena Cap))
      → mem_allocate h.arena (vm.size o) ≡ (none, a)
      → move_object vm h o ≡ (o, record h { arena = a })
  unfolding move_object mem_allocate
  move_object_full vm h o a run = ground (arith, run)

  -- `move_object` of an object that ends before the place that the arena gives: the result is that
  -- place; word `i` of the copy is word `i` of the object, and nothing outside the copy has changed.
  pub move_object_copies :
      (vm : Vm Cap) (h : Space Cap W) (o c : Cap) (a : Option (Arena Cap))
      → mem_allocate h.arena (vm.size o) ≡ (some c, a)
      → ch.address o + 16 * vm.size o ≤ ch.address c
      → (i x : ℕ) → i < vm.size o
      → (x < ch.address c) ⊎ (ch.address c + 16 * vm.size o ≤ x)
      → let moved = move_object vm h o in
        (moved.0 ≡ c)
        × (moved.1.words (ch.address c + 16 * i) ≡ h.words (ch.address o + 16 * i))
        × (moved.1.words x ≡ h.words x)
  move_object_copies vm h o c a run apart i x below out = rw (move_object_run vm h o c a run) (
    refl,
    copy_words_at (ch.address o) (ch.address c) h.words (vm.size o) i below apart,
    copy_words_outside (ch.address o) (ch.address c) h.words (vm.size o) x out,
  )
