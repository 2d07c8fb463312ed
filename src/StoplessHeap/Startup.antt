-- ===== src/StoplessHeap/Startup.antt =====
-- stoplessHeap.cpp and stoplessArena.cpp: `StoplessHeap::initialize`, up to the heap from which the
-- collector's steps begin. What is logged and the barrier set of the VM, which does nothing, are left
-- out.
use stopless_java_gc.Base.{
  ℕ, ◌*◌, ◌⊎◌, ◌≡◌, ◌≢◌, refl, sym, ◌∙◌, subst, inl, inr, Bool, true, false, Option, none, some,
  ltb, if◌then◌else◌, arith,
}
use stopless_java_gc.Base.Int.{ℤ, pos, negsuc, is_zero}
use stopless_java_gc.Cheri.{Cheri, Documented}
use stopless_java_gc.Arena.{Arena}
use stopless_java_gc.ForwardTable
use stopless_java_gc.ForwardTable.{unset}
use stopless_java_gc.ForwardTable.Blank.{init_unset}
use stopless_java_gc.Forwarding.{Forwarding, set_arena_base}
use stopless_java_gc.Allocator.Object.{Root}
use stopless_java_gc.Revoke.Calls.{Kernel, Memory}
use stopless_java_gc.Revoke.{Globals}
use stopless_java_gc.Revoke.Mark.{zeroed, init_in}
use stopless_java_gc.Handler.Install.{Signals, handler_install}
use stopless_java_gc.Collector.{Reach, begin}
use stopless_java_gc.StoplessHeap.Attach.{Attaches, Refused, init_in-Tried}

-- The state of the process: the table, the handlers, the globals of revoke.c, `_arena`, and the
-- period of the collector's thread if there is one.
pub record Process (K Cap : Type 0) : Type 0 where
  pub forwarding : Forwarding Cap
  pub signals : Signals
  pub globals : Globals K
  pub arena : Option (Arena Cap)
  pub interval_ms : Option ℕ

-- `initialize` returns JNI_OK, or ends the VM by `vm_exit_during_initialization`.
pub data Startup (K Cap : Type 0) : Type 0 where
  jni_ok : Process K Cap → Startup K Cap
  vm_exit : Process K Cap → Startup K Cap

-- `max_byte_size`, from MaxHeapSize
unfoldable pub max_byte_size : ℕ → ℕ
max_byte_size max_heap_size = if ltb (4 * 1048576) max_heap_size then max_heap_size else 4 * 1048576

-- `ms`, from what `strtol` makes of STOPLESS_CONCURRENT_MS where it is set
unfoldable pub period : Option ℤ → Option ℕ
period none = none
period (some (pos n)) = some (if ltb n 10 then 10 else n)
period (some (negsuc n)) = some 10

module _ {K Cap : Type 0} ⦃ch : Cheri Cap⦄ ⦃os : Kernel K⦄ (mem : Memory K Cap)
    (accepts : ℕ → Bool) where
  -- `StoplessHeap::initialize`. The Booleans let `calloc` of the table's slots and of the arena's
  -- record succeed or fail.
  unfoldable pub initialize : Bool → Bool → ℕ → Option ℤ → Process K Cap → Startup K Cap
  unfolding max_byte_size period
  initialize slots record_memory max_heap_size ms p =
      let p₁ = record p {
        forwarding = record p.forwarding { table = ForwardTable.init slots p.forwarding.table };
        signals = (handler_install accepts p.signals).1;
      } in
      if record_memory
      then (let (rc, a, g) = init_in mem zeroed (max_byte_size max_heap_size) p₁.globals in
          if is_zero rc
          then jni_ok (record p₁ {
            forwarding = set_arena_base a.base p₁.forwarding;
            globals = g;
            arena = some a;
            interval_ms = period ms;
          })
          else vm_exit (record p₁ { globals = g }))
      else vm_exit p₁

-- What `mmap` documents: a mapping is live, starts at its address and covers the size.
pub record Maps {K Cap : Type 0} ⦃ch : Cheri Cap⦄ (doc : Documented ch) (mem : Memory K Cap)
    : Type 0 where
  pub mapped_root :
      (size : ℕ) (k : K) (p : Cap) → (mem.map_arena size k).0 ≡ some p → Root doc p size

max_byte_size_some : (n : ℕ) → max_byte_size n ≢ 0
unfolding max_byte_size
max_byte_size_some n = ground arith

module _ {K Cap : Type 0} ⦃ch : Cheri Cap⦄ ⦃os : Kernel K⦄ (doc : Documented ch)
    (mem : Memory K Cap) (accepts : ℕ → Bool) where
  -- A process whose VM may run, started with the globals `g₀`: its arena is one that
  -- `stopless_arena_init` attached, and the collector's steps begin from it and the table.
  pub record Ready (g₀ : Globals K) (max_heap_size : ℕ) (p : Process K Cap) : Type 0 where
    pub heap : Arena Cap
    pub there : p.arena ≡ some heap
    pub attached : Attaches mem (max_byte_size max_heap_size) g₀ heap p.globals
    pub begins : Reach doc attached.mapping (record { arena = heap; forwarding = p.forwarding })

  -- what `initialize` comes to, from the process `p`
  abbrev pub Starts : Bool → ℕ → Process K Cap → Startup K Cap → Type 0
  Starts record_memory max_heap_size p (jni_ok q) = Ready p.globals max_heap_size q
  Starts record_memory max_heap_size p (vm_exit q) =
      (q.arena ≡ p.arena)
      × ((record_memory ≡ false) ⊎ Refused mem (max_byte_size max_heap_size) p.globals)

  initialize_no_record :
      (slots : Bool) (n : ℕ) (ms : Option ℤ) (p : Process K Cap)
      → Starts false n p (initialize mem accepts slots false n ms p)
  unfolding initialize
  initialize_no_record slots n ms p = (refl, inl refl)

  initialize_failed :
      (slots : Bool) (n : ℕ) (ms : Option ℤ) (p : Process K Cap)
      → is_zero (init_in mem zeroed (max_byte_size n) p.globals).0 ≡ false
      → Refused mem (max_byte_size n) p.globals
      → Starts true n p (initialize mem accepts slots true n ms p)
  unfolding initialize
  initialize_failed slots n ms p e why = rw e (refl, inr why)

  initialize_ready :
      (n : ℕ) (ms : Option ℤ) (p : Process K Cap)
      → Maps doc mem
      → p.forwarding.table.slots ≡ none
      → is_zero (init_in mem zeroed (max_byte_size n) p.globals).0 ≡ true
      → Attaches mem
          (max_byte_size n)
          p.globals
          (init_in mem zeroed (max_byte_size n) p.globals).1
          (init_in mem zeroed (max_byte_size n) p.globals).2
      → Starts true n p (initialize mem accepts true true n ms p)
  unfolding initialize set_arena_base
  initialize_ready n ms p law blank e at =
      let (rc, a, g) = init_in mem zeroed (max_byte_size n) p.globals in
      rw e (record {
        heap = a;
        there = refl;
        attached = at;
        begins =
            begin a
              (record {
                table = ForwardTable.init true p.forwarding.table;
                arena_base = a.base;
                derive_fail = p.forwarding.derive_fail;
              })
              at.base
              (subst (Root doc at.mapping) (sym at.extent)
                (law.mapped_root (max_byte_size n) p.globals.kernel at.mapping at.from_mmap))
              at.unused
              (init_unset true p.forwarding.table blank ∙ sym (init_unset true unset refl)) at.base;
      })

  -- `initialize` in a process without a table, if `calloc` of the table's slots succeeds: it ends the
  -- VM, with the arena as it was, where `calloc` of the arena's record fails or the kernel refuses the
  -- mapping, its information page or the mapping's bitmap; or it leaves an arena of `max_byte_size`
  -- bytes over the mapping, with the bitmap that the kernel gave for that mapping and the address that
  -- marks are given, from which and from the table the collector's steps begin, and `g_cri` set. A
  -- mapping is taken to be live, to start at its address and to cover the size.
  pub initialize-Starts :
      (record_memory : Bool) (n : ℕ) (ms : Option ℤ) (p : Process K Cap)
      → Maps doc mem
      → p.forwarding.table.slots ≡ none
      → Starts record_memory n p (initialize mem accepts true record_memory n ms p)
  initialize-Starts false n ms p law blank = initialize_no_record true n ms p
  initialize-Starts true n ms p law blank =
      elim (init_in-Tried mem zeroed (max_byte_size n) p.globals (max_byte_size_some n)) [
        | inl (e, at) ↦ initialize_ready n ms p law blank e at
        | inr (e, why) ↦ initialize_failed true n ms p e why
      ]
