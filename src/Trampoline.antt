-- ===== src/Trampoline.antt =====
-- patches/openjdk-jdk17/0099-files/: the tables through which generated code reaches functions
-- (cap_trampoline_aarch64.cpp) and global data (cap_data_table_aarch64.cpp) of the VM. The VM's
-- `GrowableArray` is a parameter. What is printed is left out.
pub mod Stable
use stopless_java_gc.Base.{
  ℕ, zero, suc, ◌+◌, ◌-◌, ◌<◌, ◌≤◌, ◌≡◌, Bool, ◌||◌, Option, none, some, ltb, ◌==◌, if◌then◌else◌,
}
use stopless_java_gc.Base.Int.{ℤ, pos, negsuc}

-- `GrowableArray<address>`: a new one with a capacity, `length`, `at`, `append` and `adr_at`.
pub record GrowableArray (A G : Type 0) : Type 0 where
  pub make : ℕ → G
  pub length : G → ℕ
  pub at_index : G → ℕ → A
  pub append : G → A → G
  pub adr_at : G → ℕ → A

-- What the sources rely on: a sequence that grows at its end, and that stays in its place up to its
-- first capacity.
pub record Laws {A G : Type 0} (ga : GrowableArray A G) : Type 0 where
  pub length-make : (n : ℕ) → ga.length (ga.make n) ≡ 0
  pub length-append : (g : G) (x : A) → ga.length (ga.append g x) ≡ suc (ga.length g)
  pub at_index-append :
      (g : G) (x : A) (i : ℕ) → i < ga.length g → ga.at_index (ga.append g x) i ≡ ga.at_index g i
  pub at_index-append_last : (g : G) (x : A) → ga.at_index (ga.append g x) (ga.length g) ≡ x

-- CAP_DATA_TABLE_CAPACITY
abbrev pub cap_data_table_capacity : ℕ
cap_data_table_capacity = 1024

module _ {A G : Type 0} (ga : GrowableArray A G) (address : A → ℕ) where
  -- the table, made by the first use
  unfoldable pub opened : ℕ → Option G → G
  opened capacity none = ga.make capacity
  opened capacity (some g) = g

  -- the loop over the table, from the index `i` on: the id, which is one more than the index
  unfoldable pub id_from : G → A → ℕ → ℕ → Option ℕ
  id_from g x zero i = none
  id_from g x (suc rounds) i =
      let rest = id_from g x rounds (suc i) in
      if address (ga.at_index g i) == address x then some (suc i) else rest

  -- `cap_trampoline_id_for`: the id, and the table
  unfoldable pub trampoline_id_for : Option G → A → ℕ × G
  unfolding opened id_from
  trampoline_id_for table fn =
      let g = opened 64 table in
      elim (id_from g fn (ga.length g) 0) [
        | some id ↦ (id, g)
        | none ↦ (let g' = ga.append g fn in (ga.length g', g'))
      ]

  -- `cap_trampoline_dispatch`, with the call of a function as a parameter; `none` is `abort()`
  unfoldable pub trampoline_dispatch {ℓ} : {B : Type ℓ} → (A → B) → Option G → ℤ → Option B
  trampoline_dispatch call none fn_id = none
  trampoline_dispatch call (some g) (negsuc n) = none
  trampoline_dispatch call (some g) (pos n) =
      if ltb n 1 || ltb (ga.length g) n then none else some (call (ga.at_index g (n - 1)))

  -- `cap_data_id_for`; `none` is the failed `guarantee`
  unfoldable pub data_id_for : Option G → A → Option (ℕ × G)
  unfolding opened id_from
  data_id_for table global =
      let g = opened cap_data_table_capacity table in
      elim (id_from g global (ga.length g) 0) [
        | some id ↦ some (id, g)
        | none ↦
            if ltb (ga.length g) cap_data_table_capacity
            then (let g' = ga.append g global in some (ga.length g', g'))
            else none
      ]

  -- `cap_data_table_base`
  unfoldable pub data_table_base : Option G → Option A
  data_table_base none = none
  data_table_base (some g) = if ga.length g == 0 then none else some (ga.adr_at g 0)
