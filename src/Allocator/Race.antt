-- ===== src/Allocator/Race.antt =====
-- Several threads in the loop of `stopless_alloc` on one arena, interleaved in any order: the load of
-- the cursor and the compare-exchange are the shared accesses. No two objects overlap.
use stopless_java_gc.Base.{
  ℕ, zero, suc, ◌+◌, ◌≤◌, ◌<◌, ◌≡◌, subst, none, some, List, [], ◌∷◌, arith, update, length, get_or,
}
use stopless_java_gc.Cheri.{Cheri, Documented}
use stopless_java_gc.Allocator.{reserve}
use stopless_java_gc.Allocator.Align.{Reasonable, reserve_lem}

-- Where a thread stands, with the rounded length that it asks for and its copy of the cursor.
pub data Pc : Type 0 where
  idle : Pc
  trying : (rounded cur : ℕ) → Pc

-- The cursor, the blocks handed out so far, newest first, as offset and length, and the threads.
pub record System : Type 0 where
  pub bump : ℕ
  pub blocks : List (ℕ × ℕ)
  pub pc : ℕ → Pc

abbrev pub start : System
start = record { bump = 0; blocks = []; pc = λ _. idle }

-- each block lies below the limit, and the older ones below it
abbrev Stacked : List (ℕ × ℕ) → ℕ → Type 0
Stacked [] limit = Unit
Stacked (b ∷ bs) limit = (b.0 + b.1 ≤ limit) × Stacked bs b.0

abbrev pub block : List (ℕ × ℕ) → ℕ → ℕ × ℕ
block bs i = get_or bs i (0, 0)

Stacked-below :
    (bs : List (ℕ × ℕ)) (limit i : ℕ)
    → Stacked bs limit
    → i < length bs
    → (block bs i).0 + (block bs i).1 ≤ limit
Stacked-below [] limit i st h = elim h [ ]
Stacked-below (b ∷ bs) limit zero st h = st.0
Stacked-below (b ∷ bs) limit (suc i) st h = omega (arith, Stacked-below bs b.0 i st.1 (omega arith))

Stacked-apart :
    (bs : List (ℕ × ℕ)) (limit i j : ℕ)
    → Stacked bs limit
    → i < j
    → j < length bs
    → (block bs j).0 + (block bs j).1 ≤ (block bs i).0
Stacked-apart [] limit i j st h l = elim l [ ]
Stacked-apart (b ∷ bs) limit zero zero st h l = elim h [ ]
Stacked-apart (b ∷ bs) limit zero (suc j) st h l = Stacked-below bs b.0 j st.1 (omega arith)
Stacked-apart (b ∷ bs) limit (suc i) zero st h l = elim h [ ]
Stacked-apart (b ∷ bs) limit (suc i) (suc j) st h l =
    Stacked-apart bs b.0 i j st.1 (omega arith) (omega arith)

module _ {Cap : Type 0} ⦃ch : Cheri Cap⦄ (doc : Documented ch) (size : ℕ) where
  pub data Step (s : System) : System → Type 0 where
    -- a thread calls, with a request that the sums of the loop can hold, and loads the cursor
    call :
        (i rounded : ℕ)
        → s.pc i ≡ idle
        → Reasonable doc rounded size
        → Step s (record s { pc = update s.pc i (trying rounded s.bump) })
    -- the compare-exchange fails, also for no reason, and brings the cursor as it is
    lose :
        (i : ℕ) {rounded cur : ℕ} {r : ℕ × ℕ}
        → s.pc i ≡ trying rounded cur
        → reserve ch size rounded cur ≡ some r
        → Step s (record s { pc = update s.pc i (trying rounded s.bump) })
    -- the compare-exchange succeeds
    win :
        (i : ℕ) {rounded cur al new : ℕ}
        → s.pc i ≡ trying rounded cur
        → reserve ch size rounded cur ≡ some (al, new)
        → s.bump ≡ cur
        → Step s (record { bump = new; blocks = (al, rounded) ∷ s.blocks; pc = update s.pc i idle })
    -- there is no room at the cursor that the thread saw
    full :
        (i : ℕ) {rounded cur : ℕ}
        → s.pc i ≡ trying rounded cur
        → reserve ch size rounded cur ≡ none
        → Step s (record s { pc = update s.pc i idle })

  pub data Reach : System → Type 0 where
    begin : Reach start
    next : {s t : System} → Reach s → Step s t → Reach t

  record Inv (s : System) : Type 0 where
    within : s.bump ≤ size
    stacked : Stacked s.blocks s.bump
    sane : (i rounded cur : ℕ) → s.pc i ≡ trying rounded cur → Reasonable doc rounded size

  Step-Inv : {s t : System} → Step s t → Inv s → Inv t
  Step-Inv (call i rounded e ok) inv = record {
    within = inv.within;
    stacked = inv.stacked;
    sane = λ j r c q. ground (arith, inv.sane j r c);
  }
  Step-Inv (lose i {rounded} {cur} e run) inv = record {
    within = inv.within;
    stacked = inv.stacked;
    sane = λ j r c q. ground (arith, inv.sane j r c, inv.sane i rounded cur);
  }
  Step-Inv {s} (win i {rounded} {cur} {al} {new} e run same) inv =
      let (low, at_up, ends, inside) =
        reserve_lem doc rounded size cur al new (inv.sane i rounded cur e)
          (subst (λ b. b ≤ size) same inv.within) run in
      record {
        within = inside;
        stacked = (omega arith, Stacked_mono s.blocks s.bump al (omega arith) inv.stacked);
        sane = λ j r c q. ground (arith, inv.sane j r c);
      }
    where
      Stacked_mono : (bs : List (ℕ × ℕ)) (a b : ℕ) → a ≤ b → Stacked bs a → Stacked bs b
      Stacked_mono [] a b h st = tt
      Stacked_mono (x ∷ bs) a b h st = (omega arith, st.1)
  Step-Inv (full i e run) inv = record {
    within = inv.within;
    stacked = inv.stacked;
    sane = λ j r c q. ground (arith, inv.sane j r c);
  }

  Reach-Inv : {s : System} → Reach s → Inv s
  Reach-Inv begin = record { within = omega arith; stacked = tt; sane = λ i r c q. cc }
  Reach-Inv (next r st) = Step-Inv st (Reach-Inv r)

  -- In every reachable state each block handed out ends at or below the cursor, which is within the
  -- arena, and of two blocks the older one ends where the newer one begins or before.
  pub blocks_disjoint :
      {s : System}
      → Reach s
      → (i j : ℕ) → i < j
      → j < length s.blocks
      → ((block s.blocks i).0 + (block s.blocks i).1 ≤ s.bump)
        × (s.bump ≤ size)
        × ((block s.blocks j).0 + (block s.blocks j).1 ≤ (block s.blocks i).0)
  blocks_disjoint {s} r i j h l =
      let inv = Reach-Inv r in
      (
        Stacked-below s.blocks s.bump i inv.stacked (omega arith),
        inv.within,
        Stacked-apart s.blocks s.bump i j inv.stacked h l,
      )
