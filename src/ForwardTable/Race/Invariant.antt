-- ===== src/ForwardTable/Race/Invariant.antt =====
-- The invariant of racing threads: the slots stay valid, each claimed slot has one owner, and what a
-- call came to stands in the table.
use stopless_java_gc.Base.{
  ℕ, ◌≡◌, ◌≢◌, ◌⊎◌, inl, inr, sym, ap, ◌∙◌, none, some, List, [], ◌∷◌, set, update, ℕ_discrete,
  arith, ne→==, eq→==, some_inj,
}
use stopless_java_gc.ForwardTable.{Slot, slot_at, key_at}
use stopless_java_gc.ForwardTable.Slots.{IsValid}
use stopless_java_gc.ForwardTable.Race.Defs.{
  Entry, Shared, Pc, idle, probing, claiming, publishing, linking, counting, waiting, finding,
  reading, measuring, write,
}
use stopless_java_gc.ForwardTable.Race.Overwrite.{
  Published, Fine, owner, Overwrites, written, elsewhere, Published-write, Fine-write,
}

abbrev pub AllPublished : List Slot → List Entry → Type 0
AllPublished t [] = Unit
AllPublished t (r ∷ rs) = Published t r.key r.new_addr r.new_len × AllPublished t rs

AllPublished-write :
    {t : List Slot} {i : ℕ} {s : Slot} (w : Overwrites t i s) (rs : List Entry)
    → AllPublished t rs
    → AllPublished (set t i s) rs
AllPublished-write w [] h = tt
AllPublished-write w (r ∷ rs) h = (Published-write w h.0, AllPublished-write w rs h.1)

pub record Inv (k : ℕ) (m : Shared) (pc : ℕ → Pc) : Type 0 where
  pub valid : IsValid k m.array
  pub blank : (j : ℕ) → key_at m.array j ≡ 0 → (slot_at m.array j).new_addr ≡ 0
  pub fine : (i : ℕ) → Fine m.array (pc i)
  pub single : (i j x : ℕ) → owner (pc i) ≡ some x → owner (pc j) ≡ some x → i ≡ j
  pub published : AllPublished m.array m.results

-- the claimed slot of a thread has an address
owned_key : (t : List Slot) (p : Pc) (x : ℕ) → Fine t p → owner p ≡ some x → key_at t x ≢ 0
owned_key t (publishing key na nl i) x f o z =
    f.nonzero.0 (sym f.from ∙ (ap (key_at t) (some_inj o) ∙ z))
owned_key t (linking key na nl i) x f o z =
    f.0.nonzero.0 (sym f.0.from ∙ (ap (key_at t) (some_inj o) ∙ z))
owned_key t idle x f o z = cc
owned_key t (probing key na nl d i) x f o z = cc
owned_key t (claiming key na nl d i) x f o z = cc
owned_key t (counting key na nl) x f o z = cc
owned_key t (waiting key i) x f o z = cc
owned_key t (finding key d i) x f o z = cc
owned_key t (reading key i) x f o z = cc
owned_key t (measuring key i a) x f o z = cc

module _ {k : ℕ} {m : Shared} {pc : ℕ → Pc} (inv : Inv k m pc) (i : ℕ) where
  -- A thread moves and stores nothing.
  pub quiet :
      (size : ℕ) (rs : List Entry) (p' : Pc)
      → Fine m.array p'
      → owner p' ≡ none
      → AllPublished m.array rs
      → Inv k (record { array = m.array; size = size; results = rs }) (update pc i p')
  quiet size rs p' f o ps = record {
    valid = inv.valid;
    blank = inv.blank;
    fine = λ j. elim (ℕ_discrete i j) [
      | yes e ↦ rw (eq→== i j e) f
      | no ne ↦ rw (ne→== i j ne) (inv.fine j)
    ];
    single = λ a b x oa ob. ground (arith, inv.single a b x);
    published = ps;
  }

  -- A thread stores to the slot that it owns, or that it claims by the store.
  pub stores :
      (x : ℕ) (s : Slot) (p' : Pc)
      → Overwrites m.array x s
      → IsValid k (set m.array x s)
      → s.from_addr ≢ 0
      → (owner (pc i) ≡ some x) ⊎ (key_at m.array x ≡ 0)
      → Fine (set m.array x s) p'
      → (owner p' ≡ some x) ⊎ (owner p' ≡ none)
      → Inv k (write m x s) (update pc i p')
  stores x s p' w v nz mine f o = record {
    valid = v;
    blank = λ j e. elim (ℕ_discrete x j) [
      | yes q ↦ absurd (
          nz (
            sym (ap (λ (r : Slot). r.from_addr) (written w))
            ∙ (ap (key_at (set m.array x s)) q ∙ e)))
      | no ne ↦
          ap (λ (r : Slot). r.new_addr) (elsewhere w j ne)
          ∙ inv.blank j (sym (ap (λ (r : Slot). r.from_addr) (elsewhere w j ne)) ∙ e)
    ];
    fine = λ j. elim (ℕ_discrete i j) [
      | yes e ↦ rw (eq→== i j e) f
      | no ne ↦ rw (ne→== i j ne) (Fine-write w (pc j) (others j ne) (inv.fine j))
    ];
    single = λ a b y oa ob. elim (ℕ_discrete i a) [
      | yes ea ↦ elim (ℕ_discrete i b) [
        | yes eb ↦ sym ea ∙ eb
        | no nb ↦ absurd (clash b y nb (rw (eq→== i a ea) at oa) (rw (ne→== i b nb) at ob))
      ]
      | no na ↦ elim (ℕ_discrete i b) [
        | yes eb ↦ absurd (clash a y na (rw (eq→== i b eb) at ob) (rw (ne→== i a na) at oa))
        | no nb ↦ inv.single a b y (rw (ne→== i a na) at oa) (rw (ne→== i b nb) at ob)
      ]
    ];
    published = AllPublished-write w m.results inv.published;
  }
    where
      others : (j : ℕ) → i ≢ j → owner (pc j) ≢ some x
      others j ne oj = elim mine [
        | inl own ↦ ne (inv.single i j x own oj)
        | inr z ↦ owned_key m.array (pc j) x (inv.fine j) oj z
      ]

      clash : (b y : ℕ) → i ≢ b → owner p' ≡ some y → owner (pc b) ≡ some y → ⊥
      clash b y ne oi ob = elim o [ inl own ↦ others b ne (ob ∙ (sym oi ∙ own)) | inr out ↦ cc ]
