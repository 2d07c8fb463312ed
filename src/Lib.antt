-- ===== src/Lib.antt =====
-- The runtime of the stopless collector, src/cap_runtime/ of the repository: on a CHERI
-- machine the collector moves an object while the threads run, marks the old copy for revocation, and
-- lets the kernel clear every capability to it. A thread that then uses a stale capability faults, and
-- the fault handler puts the forwarded capability in its place.
--
-- The parts, with the file of the repository that each models (in src/cap_runtime/stopless_gc/, where no
-- folder is named):
-- - Cheri: the capability intrinsics of <cheriintrin.h> as a parameter, a record `Cheri Cap`, and what
--   the architecture documents of them, the record `Documented`.
-- - ForwardTable and its children: forward_table.c, the slots. `init`, `clear`, `maybe_grow`, `insert_at`
--   and `find` are forward_table_init, _clear, _maybe_grow, _insert and ft_find over `g_table`,
--   `g_capacity` and `g_size`; `probe` is the loop that the last two share. Probe, Slots and State hold
--   the invariant; Insert, Blank, Rehash and Grow the operations' theorems. Race has any number of
--   threads in forward_table_cas_insert and ft_find, as a step relation in which each load and store of
--   a slot is a step; Publish has one thread in forward_table_insert and any number in ft_find alike.
--   Resize is about the two stores of forward_table_maybe_grow that a reader sees.
-- - Forwarding and its children: forward_table.c, the functions that take or return a capability. `derive`
--   is ft_derive, `lookup` forward_table_lookup with its loop `chase`, `insert` and `cas_insert` are
--   forward_table_insert and forward_table_cas_insert.
-- - Arena, Allocator and its children: revoke.h and allocator.c. `alloc` is stopless_alloc as one thread
--   runs it; Race has several threads in its loop, as a step relation on a shared cursor.
-- - Revoke and its children: revoke.c. Calls states the kernel's calls as parameters, Epoch has
--   stopless_revoke_now, _open and _close, Mark and Init the arena and its shadow bitmap, Fault the
--   injected failures.
-- - Handler and its children: handler.c. `try_heal` is stopless_try_heal, `sigprot_handler` the handler,
--   Identity has stopless_acmp_eq, Install the registration with sigaction, Unhealed the faults that the
--   handler does not take, Dump the crash dumper as far as it decides anything, and Report what it
--   prints, `report`, with Symbols for STOPLESS_SYM and Names for the functions that
--   patches/openjdk-jdk17/WIP-c9chase-os_bsd_aarch64.cpp.record adds to name generated code. Metadata has the diagnostics of a fault that is not
--   healed, and `sigill_handler`.
-- - Collector and its children: the calls of the three parts before it in any order that api.h describes,
--   as a step relation `Step` on the arena and the table: allocation, moving (allocation and insertion),
--   growth and clearing; Cycle adds the marks and the revocation. It models no source of its own.
-- - CapRuntime and its children: the C++ library, src/cap_runtime/*.cc. SideTable models side_table.cc,
--   Relocation forwarding_table.cc (`claim` and `fill` are the two stores of `install`; its Race has any
--   number of threads in install and lookup, as a step relation), and Heap
--   cap_runtime.cc with revoke_glue.cc, a call of cap_runtime.h under its name without `stopless_`.
--   A capability is any type with an address.
-- - Trampoline and its child: patches/openjdk-jdk17/0099-files/, the tables of functions and of data for
--   generated code, over the VM's GrowableArray as a parameter.
-- - Measurement and its children: measurement/pmu_sample.cc under src/, the sampling window and the line
--   that `append_pmu_json` writes; Decimal and RoundTrip read such a file.
-- - StoplessHeap and its children: patches/openjdk-jdk17/, stoplessHeap.cpp as
--   WIP-c9chase-stoplessHeap.cpp.record has it and stoplessArena.cpp of patch 0083: the heap of the
--   VM over the parts above. `do_oop` and `scan_roots` move what the roots hold, Collect has `doit`,
--   a collection at a safepoint, and Cycles is a step relation of such cycles, the program and the
--   collector's thread that closes epochs. Barrier names what the kernel documents of its load
--   barrier. Forwarded, Moved, Moves, LookUp and Roots take a cycle for steps of Collector; Resumed,
--   Kept and History take a sequence of cycles, allocations and closes, and Life one that begins with
--   `initialize`; Full is about a full table. Mirror has the VM's StoplessArena, a runtime's arena
--   with a copy of its cursor. Startup has `initialize`, with Attach for its call of
--   stopless_arena_init, and Service `collect`, `stop` and the rounds of the collector's thread.
-- - Tests: a machine with exact bounds, small tables and a small kernel, and the theorems applied there.
-- The handler looks addresses up in the forwarding table; the table rebuilds a capability from the
-- arena's base as the allocator made it; the revocation calls act on the arena's bitmap.
--
-- How the state is modelled: a function that changes static variables or memory takes the state and
-- returns it. Words are numbers with the wrap at 2 ^ 64 written out. A null pointer is `none`. An
-- allocation by calloc succeeds or fails by a Boolean argument, and a fault through a null table is `none`.
-- The evacuation callback, the kernel's calls, the clock, the environment and what memory holds are
-- parameters, and so is what the loader and the VM answer when code is to be named. The atomic accesses are plain ones, one
-- thread at a time, but in Allocator.Race, ForwardTable.Race, ForwardTable.Publish and
-- CapRuntime.Relocation.Race, where the steps of threads interleave in any order. In the last two the
-- answer of a reader is kept with what was there for its address when it began, which no source stores.
--
-- Bounds and fuel: a probe makes at most as many rounds as there are slots, as in the source; the
-- rehashing's inner loop, which has none there, is given as many rounds as the new table has slots.
-- The chase has the 4096 rounds of FT_CHASE_MAX, the wait for an epoch the 10 rounds of the source,
-- the frame chain of the dump 8, its range of words 2 ^ 14 rounds, the most that its test of the
-- length lets through. The doubling in the constructor of the C++ table has 64 rounds, as many as a
-- word has bits, and the decimals of a word have at most 20 digits. The loop that sleeps for a period
-- is given a round for each 200 ms and one more. A table that grows is taken to have at most 2 ^ 60
-- slots, so that its doubled capacity and the products of the load test do not wrap.
--
-- Not modelled: the layout of what is printed, but for append_pmu_json; the memory orderings;
-- stopless_gc/api.h, whose functions no source defines; of the C++ library the destruction of a heap,
-- stopless_dump_stats and the stub of its signal handler, which only print or free; of
-- stoplessHeap.cpp the closure that counts roots, which nothing calls, the barrier set, which does
-- nothing, and the log lines; the tests, the scripts, and the other patches of OpenJDK, another
-- project.
pub mod Base
pub mod Cheri
pub mod ForwardTable
pub mod Forwarding
pub mod Arena
pub mod Allocator
pub mod Revoke
pub mod Handler
pub mod Collector
pub mod CapRuntime
pub mod Trampoline
pub mod Measurement
pub mod StoplessHeap
pub mod Tests
