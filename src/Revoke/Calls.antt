-- ===== src/Revoke/Calls.antt =====
-- The CheriBSD calls that stopless_gc/revoke.c makes: <cheri/revoke.h>, <cheri/libcaprevoke.h> and
-- <sys/mman.h>. `K` is the state of the kernel and of the memory that it shares with the process.
use stopless_java_gc.Base.{ℕ, ◌<◌, ◌≡◌, Bool, true, false, not, ◌&&◌, ◌||◌, Option, leb, ltb}
use stopless_java_gc.Base.Int.{ℤ}

-- The flags of `cheri_revoke` that the sources use: IGNORE_START | LAST_PASS, IGNORE_START alone, and
-- LAST_PASS alone.
pub data Flags : Type 0 where
  open_and_close open_only last_pass : Flags

-- The epochs.
pub record Kernel (K : Type 0) : Type 0 where
  -- `cheri_revoke_get_shadow(CHERI_REVOKE_SHADOW_INFO_STRUCT, ...)`
  pub get_info : K → ℤ × K
  -- the fields of the information page
  pub enqueue : K → ℕ
  pub dequeue : K → ℕ
  -- `cheri_revoke` and `cheri_revoke_epoch_clears`
  pub revoke : Flags → ℕ → K → ℤ × K
  pub clears : ℕ → ℕ → Bool

-- What <cheri/revoke.h> documents of closing passes: an epoch that cleared stays cleared, and a pass
-- over one that has not brings it closer. `lag` counts the passes that an epoch still needs.
pub record Advances {K : Type 0} (os : Kernel K) : Type 0 where
  pub lag : ℕ → K → ℕ
  pub done : (target : ℕ) (k : K) → lag target k ≡ 0 → os.clears (os.dequeue k) target ≡ true
  pub closer :
      (target : ℕ) (k : K)
      → os.clears (os.dequeue k) target ≡ false
      → lag target (os.revoke last_pass target k).1 < lag target k
  pub stays :
      (target : ℕ) (k : K)
      → os.clears (os.dequeue k) target ≡ true
      → os.clears (os.dequeue (os.revoke last_pass target k).1) target ≡ true

-- The mappings and their shadow bitmaps.
pub record Memory (K Cap : Type 0) : Type 0 where
  -- `base_mem_nomap` of the information page
  pub base_mem_nomap : K → ℕ
  -- `mmap` of an arena of that size, `munmap`, and the shadow bitmap of a mapping
  pub map_arena : ℕ → K → Option Cap × K
  pub unmap : Cap → ℕ → K → K
  pub get_shadow : Cap → K → Option Cap × K
  -- `caprev_shadow_nomap_set_raw`, `caprev_shadow_nomap_clear_raw`, `caprev_shadow_nomap_set`
  pub set_raw : ℕ → Cap → ℕ → ℕ → K → K
  pub clear_raw : ℕ → Cap → ℕ → ℕ → K → K
  pub set_cap : ℕ → Cap → Cap → K → ℤ × K
  -- whether the bit of an address is set in a bitmap
  pub marked : Cap → ℕ → K → Bool

-- What <cheri/libcaprevoke.h> documents of the two raw calls: they set, or clear, the bits of the
-- addresses from the first to the last, exclusive, and no other.
pub record ShadowLaws {K Cap : Type 0} (os : Memory K Cap) : Type 0 where
  pub marked-set_raw :
      (sbase : ℕ) (shadow : Cap) (lo hi : ℕ) (k : K) (a : ℕ)
      → os.marked shadow a (os.set_raw sbase shadow lo hi k)
        ≡ (leb lo a && ltb a hi) || os.marked shadow a k
  pub marked-clear_raw :
      (sbase : ℕ) (shadow : Cap) (lo hi : ℕ) (k : K) (a : ℕ)
      → os.marked shadow a (os.clear_raw sbase shadow lo hi k)
        ≡ not (leb lo a && ltb a hi) && os.marked shadow a k
