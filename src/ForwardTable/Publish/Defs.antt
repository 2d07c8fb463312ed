-- ===== src/ForwardTable/Publish/Defs.antt =====
-- The shared table, the writer, the readers, and their steps.
use stopless_java_gc.Base.{
  ℕ, suc, ◌<◌, ◌≡◌, ◌≢◌, Option, none, some, List, [], ◌∷◌, ◌==◌, if◌then◌else◌, add64, length, set,
  update, ◌-◌, ◌⊎◌,
}
use stopless_java_gc.ForwardTable.{Slot, Table, slot_at, key_at, advance, home, find}
use stopless_java_gc.ForwardTable.Race.Defs.{Entry}

-- A call of `ft_find` that has returned: its address, what it found, and what a call would have found
-- that ran at once when this one began, and when it returned.
pub record Answer : Type 0 where
  pub key : ℕ
  pub before : Option (ℕ × ℕ)
  pub found : Option (ℕ × ℕ)
  pub after : Option (ℕ × ℕ)

-- The slots, `g_size`, the calls of `forward_table_insert` that have returned, and the answers, newest
-- first.
pub record Shared : Type 0 where
  pub array : List Slot
  pub size : ℕ
  pub inserted : List Entry
  pub answers : List Answer

-- Where the writer stands in `forward_table_insert`: before the load of `from_addr` in a round; with
-- what it loaded there, before the stores of `new_len`, `new_addr` and `from_addr`; and before the
-- increment of `g_size`.
pub data Writer : Type 0 where
  idle : Writer
  probing : (key na nl round i : ℕ) → Writer
  storing_len storing_addr storing_key : (key na nl i k : ℕ) → Writer
  counting : (key na nl k : ℕ) → Writer

-- Where a reader stands in `ft_find`: before the loads of `from_addr`, `new_addr` and `new_len`.
pub data Reader : Type 0 where
  idle : Reader
  finding : (key round i : ℕ) (before : Option (ℕ × ℕ)) → Reader
  reading : (key i : ℕ) (before : Option (ℕ × ℕ)) → Reader
  measuring : (key i a : ℕ) (before : Option (ℕ × ℕ)) → Reader

-- The table as the globals hold it.
abbrev pub table_of : Shared → Table
table_of m = record { slots = some m.array; capacity = length m.array; size = m.size }

-- what `ft_find` gives at once
abbrev pub now : Shared → ℕ → Option (ℕ × ℕ)
now m key = find (table_of m) key

abbrev pub mask : Shared → ℕ
mask m = length m.array - 1

abbrev pub at_home : Shared → ℕ → ℕ
at_home m key = home (mask m) key

-- a store to a slot
abbrev pub write : Shared → ℕ → Slot → Shared
write m i s = record m { array = set m.array i s }

abbrev pub inserts : Shared → ℕ → ℕ → ℕ → Shared
inserts m key na nl = record m {
  inserted = record { key = key; new_addr = na; new_len = nl } ∷ m.inserted;
}

abbrev pub answers_with : Shared → ℕ → Option (ℕ × ℕ) → Option (ℕ × ℕ) → Shared
answers_with m key before found = record m {
  answers = record { key = key; before = before; found = found; after = now m key } ∷ m.answers;
}

-- Which addresses the writer may insert into which slots.
abbrev pub Allowed : Type 1
Allowed = List Slot → ℕ → Type 0

-- Any nonzero address.
abbrev pub Any : Allowed
Any t key = key ≢ 0

-- A nonzero address that no slot has.
abbrev pub Fresh : Allowed
Fresh t key = (key ≢ 0) × ((j : ℕ) → key_at t j ≢ key)

-- A step of the writer.
pub data Writes (allowed : Allowed) (m : Shared) : Writer → Shared → Writer → Type 0 where
  call :
      (key na nl : ℕ)
      → allowed m.array key
      → Writes allowed m idle m (probing key na nl 0 (at_home m key))
  exhausted :
      {key na nl d i : ℕ}
      → d ≡ length m.array
      → Writes allowed m (probing key na nl d i) (inserts m key na nl) idle
  pass :
      {key na nl d i : ℕ}
      → d < length m.array
      → key_at m.array i ≢ 0
      → key_at m.array i ≢ key
      → Writes allowed m (probing key na nl d i) m (probing key na nl (suc d) (advance (mask m) i))
  stop :
      {key na nl d i : ℕ}
      → d < length m.array
      → (key_at m.array i ≡ 0) ⊎ (key_at m.array i ≡ key)
      → Writes allowed m (probing key na nl d i) m (storing_len key na nl i (key_at m.array i))
  store_len :
      {key na nl i k : ℕ}
      → Writes allowed m
          (storing_len key na nl i k)
          (write m i (record (slot_at m.array i) { new_len = nl }))
          (storing_addr key na nl i k)
  store_addr :
      {key na nl i k : ℕ}
      → Writes allowed m
          (storing_addr key na nl i k)
          (write m i (record (slot_at m.array i) { new_addr = na }))
          (storing_key key na nl i k)
  store_key :
      {key na nl i k : ℕ}
      → Writes allowed m
          (storing_key key na nl i k)
          (write m i (record (slot_at m.array i) { from_addr = key }))
          (counting key na nl k)
  count :
      {key na nl k : ℕ}
      → Writes allowed m
          (counting key na nl k)
          (inserts (record m { size = if k == 0 then add64 m.size 1 else m.size }) key na nl)
          idle

-- A step of a reader.
pub data Reads (m : Shared) : Reader → Shared → Reader → Type 0 where
  look : (key : ℕ) → key ≢ 0 → Reads m idle m (finding key 0 (at_home m key) (now m key))
  absent :
      {key d i : ℕ} {before : Option (ℕ × ℕ)}
      → d < length m.array
      → key_at m.array i ≡ 0
      → Reads m (finding key d i before) (answers_with m key before none) idle
  off_end :
      {key d i : ℕ} {before : Option (ℕ × ℕ)}
      → d ≡ length m.array
      → Reads m (finding key d i before) (answers_with m key before none) idle
  skip :
      {key d i : ℕ} {before : Option (ℕ × ℕ)}
      → d < length m.array
      → key_at m.array i ≢ 0
      → key_at m.array i ≢ key
      → Reads m (finding key d i before) m (finding key (suc d) (advance (mask m) i) before)
  hit :
      {key d i : ℕ} {before : Option (ℕ × ℕ)}
      → d < length m.array
      → key_at m.array i ≢ 0
      → key_at m.array i ≡ key
      → Reads m (finding key d i before) m (reading key i before)
  unpublished :
      {key i : ℕ} {before : Option (ℕ × ℕ)}
      → (slot_at m.array i).new_addr ≡ 0
      → Reads m (reading key i before) (answers_with m key before none) idle
  seen :
      {key i : ℕ} {before : Option (ℕ × ℕ)}
      → (slot_at m.array i).new_addr ≢ 0
      → Reads m (reading key i before) m (measuring key i (slot_at m.array i).new_addr before)
  measured :
      {key i a : ℕ} {before : Option (ℕ × ℕ)}
      → Reads m
          (measuring key i a before)
          (answers_with m key before (some (a, (slot_at m.array i).new_len)))
          idle

-- The writer or a reader moves, any number of times, from a table where all are idle.
pub data Reach (allowed : Allowed) (t : List Slot) (size : ℕ)
    : Shared → Writer → (ℕ → Reader) → Type 0 where
  begin :
      Reach allowed t size
        (record { array = t; size = size; inserted = []; answers = [] })
        idle
        (λ _. idle)
  wrote :
      {m m' : Shared} {w w' : Writer} {rs : ℕ → Reader}
      → Reach allowed t size m w rs
      → Writes allowed m w m' w'
      → Reach allowed t size m' w' rs
  read :
      {m m' : Shared} {w : Writer} {rs : ℕ → Reader} (i : ℕ) {r r' : Reader}
      → Reach allowed t size m w rs
      → rs i ≡ r
      → Reads m r m' r'
      → Reach allowed t size m' w (update rs i r')
