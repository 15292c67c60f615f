-- ===== src/Dht/NodeLookup/Order.antt =====
-- The entries of a lookup: which nodes they hold, and in which order.
use mathlib.Core.List.{Perm}
use dht_hunter.Base.{
  ℕ, suc, ◌+◌, ◌*◌, ◌≤◌, ◌≡◌, refl, ap, ◌∙◌, Bool, true, false, ◌||◌, List, [], ◌∷◌, ◌++◌, length,
  length-append, Bool-cases, inl, inr, All, arith,
}
use native.Mathlib.Nat.{zero-add}
use dht_hunter.Types.NodeId.{NodeId}
use dht_hunter.Types.NodeId
use dht_hunter.Types.Node.{DhtNode}
use dht_hunter.Dht.RoutingTable.{closer, insert_sorted, sort}
use dht_hunter.Dht.RoutingTable.Sort.{IsSorted, sort-IsSorted, sort-perm}
use dht_hunter.Dht.NodeLookup.{
  unknown, NodeEntry, NodeLookup, has_id, find_entry, compare_distance, insert_entry, sort_entries,
  present, add_node, add_nodes, make_lookup,
}
use dht_hunter.Dht.NodeLookup.Queries.{nodes_of, sum, attempts, IsFresh, IsSound}

nodes_of-append : (xs ys : List NodeEntry) → nodes_of (xs ++ ys) ≡ nodes_of xs ++ nodes_of ys
nodes_of-append [] ys = refl
nodes_of-append (x ∷ xs) ys = ap (◌∷◌ x.node) (nodes_of-append xs ys)

nodes_of-insert_entry :
    (target : NodeId) (e : NodeEntry) (es : List NodeEntry)
    → nodes_of (insert_entry target e es) ≡ insert_sorted target e.node (nodes_of es)
unfolding insert_entry insert_sorted compare_distance closer
nodes_of-insert_entry target e [] = refl
nodes_of-insert_entry target e (x ∷ es) = ground (arith, nodes_of-insert_entry target e es)

-- The entries are sorted as the routing table sorts its nodes.
nodes_of-sort_entries :
    (target : NodeId) (es : List NodeEntry)
    → nodes_of (sort_entries target es) ≡ sort target (nodes_of es)
unfolding sort_entries sort
nodes_of-sort_entries target [] = refl
nodes_of-sort_entries target (e ∷ es) =
    nodes_of-insert_entry target e (sort_entries target es)
    ∙ ap (insert_sorted target e.node) (nodes_of-sort_entries target es)

sum-insert_entry :
    (f : NodeEntry → ℕ) (target : NodeId) (e : NodeEntry) (es : List NodeEntry)
    → sum f (insert_entry target e es) ≡ f e + sum f es
unfolding insert_entry
sum-insert_entry f target e [] = omega arith
sum-insert_entry f target e (x ∷ es) = ground (arith, sum-insert_entry f target e es)

sum-sort_entries :
    (f : NodeEntry → ℕ) (target : NodeId) (es : List NodeEntry)
    → sum f (sort_entries target es) ≡ sum f es
unfolding sort_entries
sum-sort_entries f target [] = refl
sum-sort_entries f target (e ∷ es) =
    omega
      (arith, sum-insert_entry f target e (sort_entries target es), sum-sort_entries f target es)

sum-append : (f : NodeEntry → ℕ) (xs ys : List NodeEntry) → sum f (xs ++ ys) ≡ sum f xs + sum f ys
sum-append f [] ys = omega arith
sum-append f (x ∷ xs) ys = omega (arith, sum-append f xs ys)

sum_one : (es : List NodeEntry) → sum (λ _. 1) es ≡ length es
sum_one [] = refl
sum_one (e ∷ es) = omega (arith, sum_one es)

insert_entry-All :
    (P : NodeEntry → Type 0) (target : NodeId) (e : NodeEntry) (es : List NodeEntry)
    → P e
    → All P es
    → All P (insert_entry target e es)
unfolding insert_entry
insert_entry-All P target e [] h a = (h, tt)
insert_entry-All P target e (x ∷ es) h a = elim (Bool-cases (compare_distance target x e)) [
  | inl t ↦ rw t (a.0, insert_entry-All P target e es h a.1)
  | inr t ↦ rw t (h, a)
]

sort_entries-All :
    (P : NodeEntry → Type 0) (target : NodeId) (es : List NodeEntry)
    → All P es
    → All P (sort_entries target es)
unfolding sort_entries
sort_entries-All P target [] a = tt
sort_entries-All P target (e ∷ es) a =
    insert_entry-All P target e (sort_entries target es) a.0 (sort_entries-All P target es a.1)

append-All :
    (P : NodeEntry → Type 0) (xs ys : List NodeEntry) → All P xs → All P ys → All P (xs ++ ys)
append-All P [] ys h k = k
append-All P (x ∷ xs) ys h k = (h.0, append-All P xs ys h.1 k)

abbrev pub known : DhtNode → NodeLookup → Bool
known node l = present (find_entry (has_id node.id) l.nodes)

-- A node that is neither the local one nor known is put among the entries, which then are in the
-- order of their distance to the target, and hold the nodes they held and this one.
pub add_node_order :
    (node : DhtNode) (l : NodeLookup)
    → NodeId.eq node.id l.local_id ≡ false
    → known node l ≡ false
    → IsSorted l.target_id (nodes_of (add_node node l).nodes)
      × Perm (nodes_of (add_node node l).nodes) (nodes_of l.nodes ++ (node ∷ []))
unfolding add_node
add_node_order node l h k =
    let entry : NodeEntry = record { node = node; state = unknown; timeouts = 0 } in
    let e = nodes_of-sort_entries l.target_id (l.nodes ++ (entry ∷ [])) in
    let f = nodes_of-append l.nodes (entry ∷ []) in
    rw h (
      rw k (
        rw e (
          rw f (
            sort-IsSorted l.target_id (nodes_of l.nodes ++ (node ∷ [])),
            sort-perm l.target_id (nodes_of l.nodes ++ (node ∷ [])),
          ))))

add_node-known :
    (node : DhtNode) (l : NodeLookup)
    → (NodeId.eq node.id l.local_id || known node l) ≡ true
    → add_node node l ≡ l
unfolding add_node
add_node-known node l h = ground arith

-- What `start` builds, before any query.
pub record IsNew (count : ℕ) (l : NodeLookup) : Type 0 where
  pub idle : l.active_queries ≡ 0
  pub unsent : l.sent ≡ []
  pub free : l.held ≡ false
  pub unqueried : All (λ e. (e.state ≡ unknown) × (e.timeouts ≡ 0)) l.nodes
  pub sorted : IsSorted l.target_id (nodes_of l.nodes)
  pub short : length l.nodes ≤ count

or-eq-false : (a b : Bool) → (a || b) ≡ false → (a ≡ false) × (b ≡ false)
or-eq-false true b h = cc
or-eq-false false b h = (refl, h)

length-sort_entries :
    (target : NodeId) (es : List NodeEntry) → length (sort_entries target es) ≡ length es
length-sort_entries target es =
    omega (arith, sum_one (sort_entries target es), sum_one es, sum-sort_entries (λ _. 1) target es)

added-IsNew :
    (count : ℕ) (node : DhtNode) (l : NodeLookup)
    → NodeId.eq node.id l.local_id ≡ false
    → known node l ≡ false
    → IsNew count l
    → IsNew (suc count) (add_node node l)
unfolding add_node
added-IsNew count node l h k i =
    let entry : NodeEntry = record { node = node; state = unknown; timeouts = 0 } in
    rw h (
      rw k (record {
        idle = i.idle;
        unsent = i.unsent;
        free = i.free;
        unqueried =
            sort_entries-All (λ e. (e.state ≡ unknown) × (e.timeouts ≡ 0)) l.target_id
              (l.nodes ++ (entry ∷ []))
              (append-All (λ e. (e.state ≡ unknown) × (e.timeouts ≡ 0)) l.nodes (entry ∷ [])
                i.unqueried ((refl, refl), tt));
        sorted =
            rw (nodes_of-sort_entries l.target_id (l.nodes ++ (entry ∷ [])))
              (sort-IsSorted l.target_id (nodes_of (l.nodes ++ (entry ∷ []))));
        short = omega (
          arith,
          i.short,
          length-sort_entries l.target_id (l.nodes ++ (entry ∷ [])),
          length-append l.nodes (entry ∷ []),
        );
      }))

add_node-IsNew :
    (count : ℕ) (node : DhtNode) (l : NodeLookup)
    → IsNew count l
    → IsNew (suc count) (add_node node l)
add_node-IsNew count node l i = elim (Bool-cases (NodeId.eq node.id l.local_id || known node l)) [
  | inl skipped ↦ rw (add_node-known node l skipped) (record {
    idle = i.idle;
    unsent = i.unsent;
    free = i.free;
    unqueried = i.unqueried;
    sorted = i.sorted;
    short = omega (arith, i.short);
  })
  | inr added ↦
      let (h, k) = or-eq-false (NodeId.eq node.id l.local_id) (known node l) added in
      added-IsNew count node l h k i
]

pub add_nodes-IsNew :
    (ns : List DhtNode) (count : ℕ) (l : NodeLookup)
    → IsNew count l
    → IsNew (length ns + count) (add_nodes ns l)
unfolding add_nodes
add_nodes-IsNew [] count l i = rw (zero-add count) i
add_nodes-IsNew (n ∷ ns) count l i =
    let same : suc (length ns) + count ≡ length ns + suc count = omega arith in
    rw same (add_nodes-IsNew ns (suc count) (add_node n l) (add_node-IsNew count n l i))

pub make_lookup-IsNew : (local_id target_id : NodeId) → IsNew 0 (make_lookup local_id target_id)
unfolding make_lookup
make_lookup-IsNew local_id target_id = record {
  idle = refl;
  unsent = refl;
  free = refl;
  unqueried = tt;
  sorted = tt;
  short = omega arith;
}

new_sums :
    (es : List NodeEntry)
    → All (λ e. (e.state ≡ unknown) × (e.timeouts ≡ 0)) es
    → (attempts es ≡ 2 * length es) × All IsFresh es
new_sums [] h = (refl, tt)
new_sums (e ∷ es) h =
    let (a, f) = new_sums es h.1 in (ground (arith, h.0, a), (ground (arith, h.0), f))

-- A new lookup is sound, and has two queries left for each entry.
pub IsNew-IsSound :
    (count : ℕ) (l : NodeLookup)
    → IsNew count l
    → count ≤ 8
    → IsSound l × (length l.sent + attempts l.nodes ≤ 2 * count)
IsNew-IsSound count l i h =
    let (a, f) = new_sums l.nodes i.unqueried in
    (record { all_fresh = f }, rw i.unsent (omega (arith, a, i.short)))
