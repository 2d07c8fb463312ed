-- ===== src/ForwardTable/Race/Defs.antt =====
-- The shared state, the threads, and their steps.
use stopless_java_gc.Base.{
  ℕ, suc, ◌-◌, ◌<◌, ◌≡◌, ◌≢◌, some, List, [], ◌∷◌, add64, length, set, update,
}
use stopless_java_gc.ForwardTable.{Slot, Table, slot_at, key_at, advance, home}

-- What a call read or installed: an address, the new address and the length.
pub record Entry : Type 0 where
  pub key : ℕ
  pub new_addr : ℕ
  pub new_len : ℕ

-- The slots, `g_size`, and what the calls came to so far, newest first.
pub record Shared : Type 0 where
  pub array : List Slot
  pub size : ℕ
  pub results : List Entry

-- Where a thread stands. In the probe loop of `forward_table_cas_insert`, with its arguments, the round
-- and the index: before the load of `from_addr`, and before the compare-exchange. Then: before the
-- stores of `new_len` and of `new_addr`, before the increment of `g_size`, or in the wait for the
-- address of another writer. In `ft_find`: before the loads of `from_addr`, `new_addr` and `new_len`.
pub data Pc : Type 0 where
  idle : Pc
  probing claiming : (key na nl round i : ℕ) → Pc
  publishing linking : (key na nl i : ℕ) → Pc
  counting : (key na nl : ℕ) → Pc
  waiting : (key i : ℕ) → Pc
  finding : (key round i : ℕ) → Pc
  reading : (key i : ℕ) → Pc
  measuring : (key i a : ℕ) → Pc

-- `g_capacity - 1`
abbrev pub mask : Shared → ℕ
mask m = length m.array - 1

abbrev pub at_home : Shared → ℕ → ℕ
at_home m key = home (mask m) key

-- a store to a slot
abbrev pub write : Shared → ℕ → Slot → Shared
write m i s = record m { array = set m.array i s }

abbrev pub finished : Shared → ℕ → ℕ → ℕ → Shared
finished m key na nl = record m {
  results = record { key = key; new_addr = na; new_len = nl } ∷ m.results;
}

-- A step of one thread.
pub data Move (m : Shared) : Pc → Shared → Pc → Type 0 where
  -- a call with an address and a capability that are not NULL, and the loop
  call : (key na nl : ℕ) → key ≢ 0 → na ≢ 0 → Move m idle m (probing key na nl 0 (at_home m key))
  exhausted : {key na nl d i : ℕ} → d ≡ length m.array → Move m (probing key na nl d i) m idle
  pass :
      {key na nl d i : ℕ}
      → d < length m.array
      → key_at m.array i ≢ 0
      → key_at m.array i ≢ key
      → Move m (probing key na nl d i) m (probing key na nl (suc d) (advance (mask m) i))
  meet :
      {key na nl d i : ℕ}
      → d < length m.array
      → key_at m.array i ≡ key
      → Move m (probing key na nl d i) m (waiting key i)
  free :
      {key na nl d i : ℕ}
      → d < length m.array
      → key_at m.array i ≡ 0
      → Move m (probing key na nl d i) m (claiming key na nl d i)
  -- the compare-exchange: it succeeds, or finds the same address, or another
  claim :
      {key na nl d i : ℕ}
      → key_at m.array i ≡ 0
      → Move m
          (claiming key na nl d i)
          (write m i (record (slot_at m.array i) { from_addr = key }))
          (publishing key na nl i)
  late :
      {key na nl d i : ℕ}
      → key_at m.array i ≢ 0
      → key_at m.array i ≡ key
      → Move m (claiming key na nl d i) m (waiting key i)
  beaten :
      {key na nl d i : ℕ}
      → key_at m.array i ≢ 0
      → key_at m.array i ≢ key
      → Move m (claiming key na nl d i) m (probing key na nl (suc d) (advance (mask m) i))
  -- the winner's stores, and its return
  put_len :
      {key na nl i : ℕ}
      → Move m
          (publishing key na nl i)
          (write m i (record (slot_at m.array i) { new_len = nl }))
          (linking key na nl i)
  put_addr :
      {key na nl i : ℕ}
      → Move m
          (linking key na nl i)
          (write m i (record (slot_at m.array i) { new_addr = na }))
          (counting key na nl)
  count :
      {key na nl : ℕ}
      → Move m (counting key na nl) (finished (record m { size = add64 m.size 1 }) key na nl) idle
  -- the end of the wait, and the lookup that follows
  woken :
      {key i : ℕ}
      → (slot_at m.array i).new_addr ≢ 0
      → Move m (waiting key i) m (finding key 0 (at_home m key))
  -- `ft_find`, by a reader or in a lookup
  look : (key : ℕ) → key ≢ 0 → Move m idle m (finding key 0 (at_home m key))
  absent : {key d i : ℕ} → key_at m.array i ≡ 0 → Move m (finding key d i) m idle
  off_end : {key d i : ℕ} → d ≡ length m.array → Move m (finding key d i) m idle
  skip :
      {key d i : ℕ}
      → key_at m.array i ≢ 0
      → key_at m.array i ≢ key
      → Move m (finding key d i) m (finding key (suc d) (advance (mask m) i))
  hit : {key d i : ℕ} → key_at m.array i ≡ key → Move m (finding key d i) m (reading key i)
  unpublished : {key i : ℕ} → (slot_at m.array i).new_addr ≡ 0 → Move m (reading key i) m idle
  seen :
      {key i : ℕ}
      → (slot_at m.array i).new_addr ≢ 0
      → Move m (reading key i) m (measuring key i (slot_at m.array i).new_addr)
  measured :
      {key i a : ℕ} → Move m (measuring key i a) (finished m key a (slot_at m.array i).new_len) idle

-- Any thread moves, any number of times, from a table where all threads are idle.
pub data Reach (t : List Slot) : Shared → (ℕ → Pc) → Type 0 where
  begin : (size : ℕ) → Reach t (record { array = t; size = size; results = [] }) (λ _. idle)
  next :
      {m m' : Shared} {pc : ℕ → Pc} (i : ℕ) {p p' : Pc}
      → Reach t m pc
      → pc i ≡ p
      → Move m p m' p'
      → Reach t m' (update pc i p')

-- The table as the globals hold it.
abbrev pub table_of : Shared → Table
table_of m = record { slots = some m.array; capacity = length m.array; size = m.size }
