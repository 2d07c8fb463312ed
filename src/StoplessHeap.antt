-- ===== src/StoplessHeap.antt =====
-- patches/openjdk-jdk17: the heap of the VM, stoplessArena.cpp and stoplessHeap.cpp as the patches add
-- them. Objects, classes and the roots are the VM's: parameters. A word of the heap is the 16 bytes
-- of a capability.
pub mod Collect
pub mod Scan
pub mod Copy
pub mod Forwarded
pub mod Moved
pub mod Moves
pub mod LookUp
pub mod Roots
pub mod Full
pub mod Attach
pub mod Mirror
pub mod Startup
pub mod Life
pub mod Service
pub mod Barrier
pub mod Marks
pub mod Publish
pub mod Pauses
pub mod Cycles
pub mod Resumed
pub mod Kept
pub mod History
use stopless_java_gc.Base.{
  ℕ, zero, suc, ◌+◌, ◌*◌, Bool, true, false, not, ◌&&◌, ◌||◌, Option, none, some, List, [], ◌∷◌,
  ◌++◌, String, leb, ltb, ◌==◌, if◌then◌else◌, add64, mul64, update,
}
use stopless_java_gc.Cheri.{Cheri}
use stopless_java_gc.Arena.{Arena}
use stopless_java_gc.Allocator.{alloc}
use stopless_java_gc.Forwarding.{
  Forwarding, CasResult, returned, spins, null_table, lookup, cas_insert,
}

-- `StoplessArena::contains`, and `StoplessHeap::is_in`
unfoldable pub is_in : {Cap : Type 0} → ⦃ch : Cheri Cap⦄ → Option (Arena Cap) → Cap → Bool
is_in none p = false
is_in ⦃ch⦄ (some a) p = elim a.base [
  | none ↦ false
  | some b ↦ leb (ch.address b) (ch.address p) && ltb (ch.address p) (add64 (ch.address b) a.size)
]

-- `StoplessHeap::mem_allocate`, by `StoplessArena::allocate`, of so many words
unfoldable pub mem_allocate :
    {Cap : Type 0} → ⦃ch : Cheri Cap⦄ → Option (Arena Cap) → ℕ → Option Cap × Option (Arena Cap)
mem_allocate a size = alloc a (mul64 size 16)

-- The loop of `StoplessHeap::move_object`: `n` words from `s` to `d`, in the order of their addresses.
-- The pointers stay within their objects and do not wrap.
unfoldable pub copy_words : {W : Type 0} → ℕ → ℕ → ℕ → (ℕ → W) → ℕ → W
copy_words s d zero words = words
copy_words s d (suc n) words =
    let rest = copy_words s d n words in update rest (d + 16 * n) (rest (s + 16 * n))

-- What a move touches: the arena, the forwarding table, the words of the heap by their addresses.
pub record Space (Cap W : Type 0) : Type 0 where
  pub arena : Option (Arena Cap)
  pub forwarding : Forwarding Cap
  pub words : ℕ → W

-- A class of the VM: its external name, if there is one, and whether it is of arrays.
pub record Klass : Type 0 where
  pub external_name : Option String
  pub is_array_klass : Bool

-- `oopDesc::size`, `oopDesc::klass`; whether `strstr` finds its second argument in the first, and
-- whether `strcmp` gives 0
pub record Vm (Cap : Type 0) : Type 0 where
  pub size : Cap → ℕ
  pub klass : Cap → Option Klass
  pub strstr : String → String → Bool
  pub strcmp : String → String → Bool

-- The arguments of `StoplessMoveRootsClosure`, and STOPLESS_SKIP_COMPLEX.
pub record Options : Type 0 where
  pub limit : ℕ
  pub klass_filter : Option String
  pub skip_complex : Bool
  pub no_fixup : Bool

-- The closure's fields.
pub record Mover (Cap W : Type 0) : Type 0 where
  pub space : Space Cap W
  pub moved_from : List Cap
  pub moved : ℕ
  pub fixed : ℕ
  pub nonheap : ℕ
  pub skipped : ℕ
  pub visited : ℕ

-- What a visit of a root comes to: the closure and the root after it, or a wait for ever or a read
-- through a null table, both in `forward_table_cas_insert`.
pub data Visit (Cap W : Type 0) : Type 0 where
  leaves : Mover Cap W → Option Cap → Visit Cap W
  waits : Visit Cap W
  null_read : Visit Cap W

-- the same of the scan of all roots
pub data Scanned (Cap W : Type 0) : Type 0 where
  scanned : Mover Cap W → List (Option Cap) → Scanned Cap W
  scan_waits : Scanned Cap W
  scan_null : Scanned Cap W

-- `kn` of `do_oop`
unfoldable pub klass_name : Option Klass → Option String
klass_name none = some "<null-klass>"
klass_name (some k) = k.external_name

module _ {Cap : Type 0} (vm : Vm Cap) where
  -- whether the filter leaves out an object of the class
  unfoldable pub filtered : Options → Option Klass → Bool
  unfolding klass_name
  filtered opts k = elim opts.klass_filter [
    | none ↦ false
    | some kfilter ↦ elim (klass_name k) [ none ↦ true | some kn ↦ not (vm.strstr kn kfilter) ]
  ]

  -- whether STOPLESS_SKIP_COMPLEX leaves it out
  unfoldable pub complex : Options → Option Klass → Bool
  complex opts none = false
  complex opts (some k) =
      opts.skip_complex
      && (k.is_array_klass
          || elim k.external_name [ none ↦ false | some kn ↦ vm.strcmp kn "java.lang.Class" ])

module _ {Cap W : Type 0} where
  -- the scan with one root before its roots
  unfoldable pub with_root : Option Cap → Scanned Cap W → Scanned Cap W
  with_root q (scanned m qs) = scanned m (q ∷ qs)
  with_root q scan_waits = scan_waits
  with_root q scan_null = scan_null

  -- the end of `do_oop`: the root gets what the table has for it
  unfoldable pub fix_root : Options → Mover Cap W → Cap → Option Cap → Visit Cap W
  fix_root opts m o fwd =
      if opts.no_fixup then leaves m (some o) else leaves (record m { fixed = add64 m.fixed 1 }) fwd

  -- `do_oop` after `forward_table_cas_insert` for an object that now has a copy in the space `h`
  unfoldable pub after_cas : Options → Mover Cap W → Space Cap W → Cap → CasResult Cap → Visit Cap W
  unfolding fix_root
  after_cas opts m h o (returned fwd f) =
      fix_root opts
        (record m {
          space = record h { forwarding = f };
          moved_from = m.moved_from ++ (o ∷ []);
          moved = add64 m.moved 1;
        })
        o fwd
  after_cas opts m h o (spins f) = waits
  after_cas opts m h o null_table = null_read

module _ {Cap W : Type 0} ⦃ch : Cheri Cap⦄ (vm : Vm Cap) where
  -- `StoplessHeap::move_object`; the object itself if the arena has no room
  unfoldable pub move_object : Space Cap W → Cap → Cap × Space Cap W
  unfolding mem_allocate
  move_object h o =
      let nwords = vm.size o in
      let (to, a) = mem_allocate h.arena nwords in
      elim to [
        | none ↦ (o, record h { arena = a })
        | some c ↦ (
          c,
          record h { arena = a; words = copy_words (ch.address o) (ch.address c) nwords h.words },
        )
      ]

  -- `do_oop` on an object of the arena that the table does not have
  unfoldable pub relocate : Bool → Options → Mover Cap W → Cap → Visit Cap W
  unfolding filtered complex move_object after_cas
  relocate memory opts m o =
      if leb opts.limit m.moved
      then leaves m (some o)
      else if filtered vm opts (vm.klass o) || complex vm opts (vm.klass o)
      then leaves (record m { skipped = add64 m.skipped 1 }) (some o)
      else (let (o2, h) = move_object m.space o in
          if ch.address o2 == ch.address o
          then leaves (record m { space = h }) (some o)
          else after_cas opts m h o (cas_insert memory h.forwarding (ch.address o) o2))

  -- `StoplessMoveRootsClosure::do_oop`
  unfoldable pub do_oop : Bool → Options → Mover Cap W → Option Cap → Visit Cap W
  unfolding is_in fix_root relocate
  do_oop memory opts m none = leaves (record m { visited = add64 m.visited 1 }) none
  do_oop memory opts m (some o) =
      let m₁ = record m { visited = add64 m.visited 1 } in
      if is_in m.space.arena o
      then (let (fwd, f) = lookup m.space.forwarding (ch.address o) in
          let m₂ = record m₁ { space = record m.space { forwarding = f } } in
          elim fwd [ none ↦ relocate memory opts m₂ o | some c ↦ fix_root opts m₂ o (some c) ])
      else leaves (record m₁ { nonheap = add64 m.nonheap 1 }) (some o)

  -- `StoplessHeap::scan_roots` with the closure, over the roots in the VM's order
  unfoldable pub scan_roots : Bool → Options → Mover Cap W → List (Option Cap) → Scanned Cap W
  unfolding do_oop with_root
  scan_roots memory opts m [] = scanned m []
  scan_roots memory opts m (p ∷ ps) = elim (do_oop memory opts m p) [
    | leaves m₁ q ↦ with_root q (scan_roots memory opts m₁ ps)
    | waits ↦ scan_waits
    | null_read ↦ scan_null
  ]
