-- ===== src/Dht/KBucket/Nodes.antt =====
-- Searching a list of nodes after it was changed.
use dht_hunter.Base.{
  ◌≤◌, ◌≡◌, refl, List, [], ◌∷◌, ◌++◌, none, some, ◌&&◌, if◌then◌else◌, length, arith,
}
use dht_hunter.Types.NodeId.{NodeId}
use dht_hunter.Types.NodeId
use dht_hunter.Types.NodeId.Order.{eq_iff}
use dht_hunter.Types.Node.{DhtNode}
use dht_hunter.Dht.KBucket.{find, found, erase, replace}

-- No two nodes have the same identifier.
abbrev pub Distinct : List DhtNode → Type 0
Distinct [] = Unit
Distinct (n ∷ ns) = (find n.id ns ≡ none) × Distinct ns

pub find-append_new :
    (j : NodeId) (node : DhtNode) (ns : List DhtNode)
    → find node.id ns ≡ none
    → find j (ns ++ (node ∷ [])) ≡ (if NodeId.eq node.id j then some node else find j ns)
unfolding find
find-append_new j node [] h = ground arith
find-append_new j node (n ∷ ns) h =
    ground (arith, find-append_new j node ns, eq_iff n.id j, eq_iff n.id node.id, eq_iff node.id j)

pub find-erase :
    (id j : NodeId) (ns : List DhtNode)
    → Distinct ns
    → find j (erase id ns) ≡ (if NodeId.eq id j then none else find j ns)
unfolding find erase
find-erase id j [] h = ground arith
find-erase id j (n ∷ ns) h =
    ground (arith, find-erase id j ns h.1, h.0, eq_iff n.id j, eq_iff n.id id, eq_iff id j)

pub find-replace :
    (node : DhtNode) (j : NodeId) (ns : List DhtNode)
    → find j (replace node ns)
      ≡ (if NodeId.eq node.id j && found (find node.id ns) then some node else find j ns)
unfolding find replace
find-replace node j [] = ground arith
find-replace node j (n ∷ ns) =
    ground (arith, find-replace node j ns, eq_iff n.id j, eq_iff n.id node.id, eq_iff node.id j)

pub length-erase-le : (id : NodeId) (ns : List DhtNode) → length (erase id ns) ≤ length ns
unfolding erase
length-erase-le id [] = omega arith
length-erase-le id (n ∷ ns) = ground (arith, length-erase-le id ns)

pub length-replace : (node : DhtNode) (ns : List DhtNode) → length (replace node ns) ≡ length ns
unfolding replace
length-replace node [] = refl
length-replace node (n ∷ ns) = ground (arith, length-replace node ns)

pub append-Distinct :
    (node : DhtNode) (ns : List DhtNode)
    → Distinct ns
    → find node.id ns ≡ none
    → Distinct (ns ++ (node ∷ []))
unfolding find
append-Distinct node [] h e = (refl, tt)
append-Distinct node (n ∷ ns) h e = ground (
  arith,
  append-Distinct node ns h.1,
  find-append_new n.id node ns,
  eq_iff n.id node.id,
  eq_iff node.id n.id,
)

pub erase-Distinct : (id : NodeId) (ns : List DhtNode) → Distinct ns → Distinct (erase id ns)
unfolding erase
erase-Distinct id [] h = tt
erase-Distinct id (n ∷ ns) h =
    ground (arith, erase-Distinct id ns h.1, find-erase id n.id ns h.1, h.0)

pub replace-Distinct :
    (node : DhtNode) (ns : List DhtNode) → Distinct ns → Distinct (replace node ns)
unfolding replace
replace-Distinct node [] h = tt
replace-Distinct node (n ∷ ns) h = ground (
  arith,
  replace-Distinct node ns h.1,
  find-replace node n.id ns,
  h.0,
  eq_iff n.id node.id,
  eq_iff node.id n.id,
)
