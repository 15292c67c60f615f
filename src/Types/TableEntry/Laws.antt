-- ===== src/Types/TableEntry/Laws.antt =====
-- What the methods of a table entry do.
use dht_hunter.Base.{
  ℕ, suc, ◌+◌, ◌≤◌, ◌≡◌, refl, Bool, true, false, ◌||◌, ◌&&◌, List, [], ◌∷◌, ◌++◌, Option, none,
  some, length, length-append, Bool-cases, inl, inr, arith,
}
use dht_hunter.Types.NodeId.{NodeId}
use dht_hunter.Types.NodeId
use dht_hunter.Types.Node.{DhtNode, node_eq}
use dht_hunter.Types.TableEntry.{
  max_entry_nodes, TableEntry, occurs, erase_first, find_id, has_id, replace_id, entry_is_full,
  entry_contains, contains_node_id, entry_get, entry_add, entry_remove, entry_update,
}

occurs-append :
    (node : DhtNode) (xs ys : List DhtNode)
    → occurs node (xs ++ ys) ≡ (occurs node xs || occurs node ys)
unfolding occurs
occurs-append node [] ys = refl
occurs-append node (x ∷ xs) ys = ground (arith, occurs-append node xs ys)

length-erase_first :
    (node : DhtNode) (xs : List DhtNode)
    → occurs node xs ≡ true
    → suc (length (erase_first node xs)) ≡ length xs
unfolding occurs erase_first
length-erase_first node [] h = absurd (cc)
length-erase_first node (x ∷ xs) h = elim (Bool-cases (node_eq x node)) [
  | inl e ↦ rw e refl
  | inr e ↦ ground (arith, e, length-erase_first node xs)
]

length-replace_id : (node : DhtNode) (xs : List DhtNode) → length (replace_id node xs) ≡ length xs
unfolding replace_id
length-replace_id node [] = refl
length-replace_id node (x ∷ xs) = ground (arith, length-replace_id node xs)

-- A search for `id` that reports `b` and yields the node, or nothing.
abbrev pub Finds : NodeId → Bool → Option DhtNode → Type 0
Finds id b none = b ≡ false
Finds id b (some n) = (b ≡ true) × (NodeId.eq n.id id ≡ true)

find_id-Finds : (id : NodeId) (xs : List DhtNode) → Finds id (has_id id xs) (find_id id xs)
unfolding has_id find_id
find_id-Finds id [] = refl
find_id-Finds id (x ∷ xs) = elim (Bool-cases (NodeId.eq x.id id)) [
  | inl h ↦ rw h (refl, h)
  | inr h ↦ rw h (find_id-Finds id xs)
]

-- The two searches by identifier agree: `contains_node_id` is true exactly when `get_node` finds a
-- node, and the node that it finds has that identifier.
pub entry_get-Finds :
    (id : NodeId) (e : TableEntry) → Finds id (contains_node_id id e) (entry_get id e)
unfolding contains_node_id entry_get
entry_get-Finds id e = find_id-Finds id e.nodes

-- After `add_node`, an entry contains every node that it contained, besides them the nodes equal to
-- the given one if the call returned true, and no others.
pub entry_contains-entry_add :
    (now : ℕ) (node other : DhtNode) (e : TableEntry)
    → (entry_contains other (entry_add now node e).1
        ≡ (entry_contains other e || ((entry_add now node e).0 && node_eq node other)))
unfolding entry_contains entry_add entry_is_full occurs
entry_contains-entry_add now node other e = ground (arith, occurs-append other e.nodes (node ∷ []))

abbrev pub count : Bool → ℕ
count true = 1
count false = 0

-- An entry with at most eight nodes has at most eight after `add_node`. A call of `add_node` that
-- returns true adds one node, a call of `remove_node` that returns true takes one away, and a call
-- that returns false, or any call of `update_node`, keeps their number.
pub entry_sizes :
    (now : ℕ) (node : DhtNode) (e : TableEntry)
    → length e.nodes ≤ max_entry_nodes
    → (length (entry_add now node e).1.nodes ≤ max_entry_nodes)
      × (length (entry_add now node e).1.nodes ≡ length e.nodes + count (entry_add now node e).0)
      × (length (entry_remove now node e).1.nodes + count (entry_remove now node e).0
          ≡ length e.nodes)
      × (length (entry_update now node e).1.nodes ≡ length e.nodes)
unfolding entry_add entry_remove entry_update entry_is_full entry_contains
entry_sizes now node e h = (
  ground (arith, length-append e.nodes (node ∷ [])),
  ground (arith, length-append e.nodes (node ∷ [])),
  ground (arith, length-erase_first node e.nodes),
  ground (arith, length-replace_id node e.nodes),
)
