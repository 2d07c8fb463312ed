-- ===== src/Tests/Workers.antt =====
-- The theorems on racing relocation workers, at one that installs and one that looks up.
use stopless_java_gc.Base.{ℕ, zero, suc, ◌<◌, ◌≡◌, ◌≢◌, ◌⊎◌, refl, inl, some, [], ◌∷◌, arith}
use stopless_java_gc.CapRuntime.Relocation.{Slot, Table, slot_at, key_at, hash_addr, lookup}
use stopless_java_gc.CapRuntime.Relocation.Seek.{IsValid}
use stopless_java_gc.CapRuntime.Relocation.Blank.{blank-IsValid}
use stopless_java_gc.CapRuntime.Relocation.Race.Defs.{
  Shared, Thread, Reach, begin, next, install, win, fill, look, hit, fetch,
}
use stopless_java_gc.CapRuntime.Relocation.Race.Store.{In}
use stopless_java_gc.CapRuntime.Relocation.Race.Settled.{answer_at, lookup_settles, install_settles}

abbrev addr : ℕ → ℕ
addr c = c

abbrev free_slot : Slot ℕ
free_slot = record { from_addr = 0; to_cap = 0 }

abbrev four : Table ℕ
four = record {
  slots = free_slot ∷ free_slot ∷ free_slot ∷ free_slot ∷ [];
  slots_count = 4;
  installed = 0;
}

four_free : (i : ℕ) → key_at 0 four.slots i ≡ 0
four_free zero = refl
four_free (suc zero) = refl
four_free (suc (suc zero)) = refl
four_free (suc (suc (suc zero))) = refl
four_free (suc (suc (suc (suc i)))) = refl

four-IsValid : IsValid 0 four
four-IsValid =
    blank-IsValid
      (record { exponent = 2; width = refl; two = refl; small = omega arith; free = four_free })

-- Worker 0 forwards 8, whose place is slot 3, to 4000, and stops before it counts; worker 1 then looks 8 up.
abbrev forwarded : Shared ℕ
forwarded = record {
  table = record {
    slots = free_slot ∷ free_slot ∷ free_slot ∷ record { from_addr = 8; to_cap = 4000 } ∷ [];
    slots_count = 4;
    installed = 0;
  };
  stored = (8, 4000) ∷ [];
  answers = record { from = 8; promised = some 4000; found = 4000 } ∷ [];
}

in_four : 0 < 4
in_four = omega arith

nonzero : ◌≢◌ {A = ℕ} 8 0
nonzero = omega arith

raced : (pc : ℕ → Thread ℕ) × Reach 0 addr four forwarded pc
unfolding hash_addr
raced =
    let installing = next 0 begin refl (install 8 4000 nonzero) in
    let won = next 0 installing refl (win {from = 8} {to = 4000} {d = 0} in_four refl) in
    let filled = next 0 won refl (fill {key = 8} {to = 4000} {i = 3}) in
    let looking = next 1 filled refl (look 8 nonzero) in
    let met = next 1 looking refl (hit {from = 8} {d = 0} in_four refl) in
    (_, next 1 met refl (fetch {from = 8} {i = 3}))

lookup_settles_example :
    let r = answer_at 0 addr forwarded.answers 0 in
    ((c : ℕ) → r.promised ≡ some c → r.found ≡ c)
    × ((r.found ≡ r.from)
        ⊎ (((k : ℕ) × (r.found ≡ (slot_at 0 four.slots k).to_cap))
            ⊎ In (addr r.from) r.found forwarded.stored))
lookup_settles_example = lookup_settles 0 addr four-IsValid raced.1 0 (omega arith)

install_settles_example :
    IsValid 0 forwarded.table
    × (lookup 0 addr forwarded.table 8 ≡ 4000)
    × ((d : ℕ) → In 8 d forwarded.stored → d ≡ 4000)
install_settles_example =
    install_settles 0 addr four-IsValid raced.1 8 4000 8 (inl (refl, refl)) refl
