-- ===== src/Forwarding.antt =====
-- stopless_gc/forward_table.c: the functions that take or return a capability, over the slots of
-- `ForwardTable` and the arena's base capability.
pub mod Chase
pub mod Derive
pub mod Lookup
pub mod Cas
pub mod Absent
use stopless_java_gc.Base.{
  ℕ, zero, suc, ◌≡◌, Bool, true, false, not, ◌||◌, Option, none, some, ltb, ◌==◌, if◌then◌else◌,
  add64, not64,
}
use stopless_java_gc.Cheri.{Cheri}
use stopless_java_gc.ForwardTable
use stopless_java_gc.ForwardTable.{Table, seek, put, find, insert_at, slot_at, key_at}

-- `forward_table`'s globals: those of the slots, `g_arena_base` and `g_ft_derive_fail`.
pub record Forwarding (Cap : Type 0) : Type 0 where
  pub table : Table
  pub arena_base : Option Cap
  pub derive_fail : ℕ

unfoldable pub set_arena_base : {Cap : Type 0} → Option Cap → Forwarding Cap → Forwarding Cap
set_arena_base base f = record f { arena_base = base }

-- FT_CHASE_MAX
abbrev pub chase_max : ℕ
chase_max = 4096

-- The loop of `forward_table_lookup`, with the rounds that are left below FT_CHASE_MAX; `none` is
-- the fail-stop.
unfoldable pub chase : Table → ℕ → ℕ → ℕ → Option (ℕ × ℕ)
chase g zero na nl = none
chase g (suc rounds) na nl = elim (find g na) [
  | none ↦ some (na, nl)
  | some (nna, nnl) ↦ elim (nna == na) [ true ↦ some (na, nl) | false ↦ chase g rounds nna nnl ]
]

-- What a call of `forward_table_cas_insert` comes to: it returns, it waits for ever for the address
-- of a claimed slot, or it reads through a null table.
pub data CasResult (Cap : Type 0) : Type 0 where
  returned : Option Cap → Forwarding Cap → CasResult Cap
  spins : Forwarding Cap → CasResult Cap
  null_table : CasResult Cap

module _ {Cap : Type 0} ⦃ch : Cheri Cap⦄ where
  -- the derivation of `ft_derive`
  unfoldable pub rebuilt : Cap → ℕ → ℕ → Cap
  rebuilt base addr len =
      let c = ch.address_set base addr in
      let d = if ltb 0 len then ch.bounds_set c len else c in ch.perms_and d (not64 ch.perm_sw_vmem)

  -- `ft_derive`
  unfoldable pub derive : Forwarding Cap → ℕ → ℕ → Option Cap × Forwarding Cap
  unfolding rebuilt
  derive f addr len = if addr == 0 then (none, f) else elim f.arena_base [
    | none ↦ (none, f)
    | some base ↦
        let c = rebuilt base addr len in
        if not (ch.tag c) || not (ch.address c == addr)
        then (some c, record f { derive_fail = add64 f.derive_fail 1 })
        else (some c, f)
  ]

  -- `forward_table_lookup`
  unfoldable pub lookup : Forwarding Cap → ℕ → Option Cap × Forwarding Cap
  unfolding derive chase
  lookup f from_addr = elim (find f.table from_addr) [
    | none ↦ (none, f)
    | some (na, nl) ↦ elim (chase f.table chase_max na nl) [
      | none ↦ (none, f)
      | some (a, l) ↦ derive f a l
    ]
  ]

  -- `forward_table_insert`
  unfoldable pub insert : Bool → Forwarding Cap → ℕ → Cap → Option (Forwarding Cap)
  insert memory f from_addr new_cap =
      elim (insert_at memory f.table from_addr (ch.address new_cap) (ch.len new_cap)) [
        | none ↦ none
        | some g ↦ some (record f { table = g })
      ]

  -- `forward_table_cas_insert` with no other writer, so that the compare-exchange succeeds
  unfoldable pub cas_insert : Bool → Forwarding Cap → ℕ → Cap → CasResult Cap
  unfolding lookup derive
  cas_insert memory f from_addr new_cap =
      let g = ForwardTable.init memory f.table in
      let f' = record f { table = g } in
      let na = ch.address new_cap in
      let nl = ch.len new_cap in
      elim g.slots [
        | none ↦ null_table
        | some slots ↦ elim (seek g slots from_addr) [
          | none ↦ returned none f'
          | some i ↦
              if key_at slots i == from_addr
              then if (slot_at slots i).new_addr == 0
                then spins f'
                else (let (c, f'') = lookup f' from_addr in returned c f'')
              else (let (c, f'') =
                    derive (record f { table = put g slots i from_addr na nl }) na nl in
                  returned c f'')
        ]
      ]

  -- `forward_table_audit`
  unfoldable pub audit : Forwarding Cap → ℕ
  audit f = elim f.arena_base [ none ↦ 1 | some _ ↦ 0 ]
