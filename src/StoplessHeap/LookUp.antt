-- ===== src/StoplessHeap/LookUp.antt =====
-- stoplessHeap.cpp and forward_table.c: what `forward_table_lookup` gives for old copies.
use stopless_java_gc.Base.{ℕ, ◌≤◌, ◌≡◌, some, List, [], ◌∷◌}
use stopless_java_gc.Cheri.{Cheri, Documented}
use stopless_java_gc.Forwarding.{Forwarding, chase_max, lookup}
use stopless_java_gc.Forwarding.Derive.{Tight}
use stopless_java_gc.Collector.{Heap, Reach}
use stopless_java_gc.Collector.Sound.{reachable-Resolves}
use stopless_java_gc.StoplessHeap.Forwarded.{AllForwarded}

module _ {Cap : Type 0} ⦃ch : Cheri Cap⦄ (doc : Documented ch) (base : Cap) where
  -- `forward_table_lookup` of an old copy gives a live capability with exact bounds.
  pub record LooksUp (f : Forwarding Cap) (o : Cap) : Type 0 where
    pub cap : Cap
    pub target : ℕ
    pub extent : ℕ
    pub looked : lookup f (ch.address o) ≡ (some cap, f)
    pub tight : Tight doc base target extent cap

  abbrev pub AllLookUp : Forwarding Cap → List Cap → Type 0
  AllLookUp f [] = Unit
  AllLookUp f (o ∷ os) = LooksUp f o × AllLookUp f os

  pub look_up_all :
      {h : Heap Cap} (r : Reach doc base h) (os : List Cap)
      → h.forwarding.table.size ≤ chase_max
      → AllForwarded h.forwarding.table os
      → AllLookUp h.forwarding os
  look_up_all r [] few all = tt
  look_up_all r (o ∷ os) few (here, rest) =
      let (c, looked, resolved) =
        reachable-Resolves doc base r (ch.address o) here.target.0 here.target.1 here.nonzero few
          here.found in
      (
        record {
          cap = c;
          target = resolved.target;
          extent = resolved.extent;
          looked = looked;
          tight = resolved.tight;
        },
        look_up_all r os few rest,
      )
