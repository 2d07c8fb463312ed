-- ===== src/ForwardTable/Resize.antt =====
-- `forward_table_maybe_grow` under a reader: it stores `g_capacity` before `g_table`, and `ft_find` loads
-- `g_table` before `g_capacity`.
use native.Mathlib.Nat.{pow-suc}
use stopless_java_gc.Base.{
  ℕ, suc, ◌-◌, ◌*◌, ◌%◌, ◌^◌, ◌≤◌, ◌<◌, bit_and, ◌≡◌, length, arith, sub64, mul64,
}
use stopless_java_gc.Base.Bits.{bit_and-low_ones}
use stopless_java_gc.ForwardTable.{Table, mix, home}
use stopless_java_gc.ForwardTable.Slots.{some_slots}
use stopless_java_gc.ForwardTable.State.{IsTable}

-- the globals between the two stores
unfoldable pub capacity_stored : Table → Table
capacity_stored g = record g { capacity = mul64 g.capacity 2 }

-- where a probe starts, with a capacity
unfoldable pub start_of : Table → ℕ → ℕ
start_of g key = home (sub64 g.capacity 1) key

-- A reader that loads both globals between the two stores, or the table before them and the capacity
-- after, starts beyond the end of the old array for every address whose hash has the bit of the old
-- capacity set.
pub start_beyond :
    {g : Table} (h : IsTable g) (key : ℕ)
    → g.capacity ≤ 2 ^ 60
    → g.capacity ≤ mix key % (2 * g.capacity)
    → length h.array ≤ start_of (capacity_stored g) key
unfolding start_of capacity_stored home
start_beyond {g} h key small high =
    let n = length h.array in
    let two : 2 * n ≡ 2 ^ suc h.exponent = omega (arith, h.valid.width, pow-suc 2 h.exponent) in
    let some_capacity : 0 < n = some_slots h.valid in
    let plain : mul64 g.capacity 2 ≡ 2 * n = omega (arith, h.capacity) in
    let mask : sub64 (mul64 g.capacity 2) 1 ≡ 2 ^ suc h.exponent - 1 =
      rw plain (omega (arith, h.capacity, two)) in
    let masked : bit_and (mix key) (2 ^ suc h.exponent - 1) ≡ mix key % 2 ^ suc h.exponent =
      bit_and-low_ones (suc h.exponent) (mix key) in
    let same : 2 * g.capacity ≡ 2 ^ suc h.exponent = omega (arith, h.capacity, two) in
    rw (mask, masked, ← same, ← h.capacity) high
