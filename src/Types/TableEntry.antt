-- ===== src/Types/TableEntry.antt =====
-- modules/types/src/dht_routing_table_entry.cpp: a bucket without a lock, whose nodes are compared
-- by identifier and endpoint in some methods, and by identifier alone in others.
pub mod Laws
pub mod Tests
use dht_hunter.Base.{
  ℕ, ◌%◌, Bool, true, false, ◌||◌, List, [], ◌∷◌, ◌++◌, Option, none, some, leb, if◌then◌else◌,
  length,
}
use dht_hunter.Types.NodeId.{NodeId}
use dht_hunter.Types.NodeId
use dht_hunter.Types.Node.{DhtNode, node_eq}

abbrev pub max_entry_nodes : ℕ
max_entry_nodes = 8

pub record TableEntry : Type 0 where
  pub prefix_length : ℕ
  pub nodes : List DhtNode
  pub last_updated : ℕ

unfoldable pub make_entry : ℕ → ℕ → TableEntry
make_entry prefix now = record { prefix_length = prefix % 256; nodes = []; last_updated = now }

-- std::find(nodes_.begin(), nodes_.end(), node) != nodes_.end().
unfoldable pub occurs : DhtNode → List DhtNode → Bool
occurs node [] = false
occurs node (n ∷ ns) = node_eq n node || occurs node ns

-- nodes_.erase(it), at the node that std::find stops at.
unfoldable pub erase_first : DhtNode → List DhtNode → List DhtNode
erase_first node [] = []
erase_first node (n ∷ ns) = if node_eq n node then ns else n ∷ erase_first node ns

unfoldable pub find_id : NodeId → List DhtNode → Option DhtNode
find_id id [] = none
find_id id (n ∷ ns) = if NodeId.eq n.id id then some n else find_id id ns

unfoldable pub has_id : NodeId → List DhtNode → Bool
has_id id [] = false
has_id id (n ∷ ns) = NodeId.eq n.id id || has_id id ns

unfoldable pub replace_id : DhtNode → List DhtNode → List DhtNode
replace_id node [] = []
replace_id node (n ∷ ns) = if NodeId.eq n.id node.id then node ∷ ns else n ∷ replace_id node ns

unfoldable pub entry_is_full : TableEntry → Bool
entry_is_full e = leb max_entry_nodes (length e.nodes)

unfoldable pub entry_contains : DhtNode → TableEntry → Bool
entry_contains node e = occurs node e.nodes

unfoldable pub contains_node_id : NodeId → TableEntry → Bool
contains_node_id id e = has_id id e.nodes

unfoldable pub entry_get : NodeId → TableEntry → Option DhtNode
entry_get id e = find_id id e.nodes

unfoldable pub entry_add : ℕ → DhtNode → TableEntry → Bool × TableEntry
unfolding entry_is_full entry_contains
entry_add now node e =
    if entry_is_full e
    then (false, e)
    else if entry_contains node e
    then (false, e)
    else (true, record e { nodes = e.nodes ++ (node ∷ []); last_updated = now })

unfoldable pub entry_remove : ℕ → DhtNode → TableEntry → Bool × TableEntry
entry_remove now node e =
    if occurs node e.nodes
    then (true, record e { nodes = erase_first node e.nodes; last_updated = now })
    else (false, e)

unfoldable pub entry_update : ℕ → DhtNode → TableEntry → Bool × TableEntry
entry_update now node e =
    if has_id node.id e.nodes
    then (true, record e { nodes = replace_id node e.nodes; last_updated = now })
    else (false, e)
