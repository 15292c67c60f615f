-- ===== src/Dht/KBucket/Laws.antt =====
-- What the bucket's methods do, and what they keep.
use dht_hunter.Base.{
  ℕ, ◌<◌, ◌≤◌, ◌≡◌, refl, ◌∙◌, ◌↔◌, Bool, true, false, [], ◌∷◌, ◌++◌, Option, none, some, ◌&&◌,
  if◌then◌else◌, leb, Bool-cases, inl, inr, length, length-append, arith,
}
use dht_hunter.Types.NodeId.{NodeId}
use dht_hunter.Types.NodeId
use dht_hunter.Types.NodeId.Order.{eq_iff}
use dht_hunter.Types.Node.{DhtNode}
use dht_hunter.Dht.Mutex.{Relock, blocks, passes, done, stuck, Keeps}
use dht_hunter.Dht.KBucket.{
  max_nodes, KBucket, find, found, erase, replace, size, contains_node, get_node, get_nodes,
  add_node, remove_node, update_node, update_last_updated,
}
use dht_hunter.Dht.KBucket.Nodes.{
  Distinct, find-append_new, find-erase, find-replace, length-erase-le, length-replace,
  append-Distinct, erase-Distinct, replace-Distinct,
}

-- The bucket's invariant: room for at most eight nodes, one for each identifier, and the mutex free
-- between calls.
pub record IsBucket (b : KBucket) : Type 0 where
  pub bounded : length b.nodes ≤ max_nodes
  pub distinct : Distinct b.nodes
  pub free : b.held ≡ false

-- With a mutex that blocks its holder, `add_node` never returns: it holds the mutex when it calls
-- `is_full`, which locks it again.
pub add_node-blocks :
    (now : ℕ) (node : DhtNode) (b : KBucket) → b.held ≡ false → add_node blocks now node b ≡ stuck
unfolding add_node
add_node-blocks now node b free = ground arith

pub add_node-passes :
    (now : ℕ) (node : DhtNode) (b : KBucket)
    → b.held ≡ false
    → add_node passes now node b ≡ (
        if leb max_nodes (length b.nodes)
        then done (false, b)
        else if found (find node.id b.nodes)
        then done (false, b)
        else done (true, record b { nodes = b.nodes ++ (node ∷ []); last_updated = now }))
unfolding add_node
add_node-passes now node b free = rw free (elim (Bool-cases (leb max_nodes (length b.nodes))) [
  | inl full ↦ rw full (ground arith)
  | inr room ↦ rw room (elim (Bool-cases (found (find node.id b.nodes))) [
    | inl present ↦ rw present (ground arith)
    | inr absent ↦ rw absent (ground arith)
  ])
])

-- With any mutex, every other method of a bucket whose mutex is free returns, and leaves the mutex
-- free.
pub methods_return :
    (r : Relock) (now : ℕ) (node : DhtNode) (id : NodeId) (b : KBucket)
    → b.held ≡ false
    → (size r b ≡ done (length b.nodes, b))
      × (get_nodes r b ≡ done (b.nodes, b))
      × (get_node r id b ≡ done (find id b.nodes, b))
      × (contains_node r id b ≡ done (found (find id b.nodes), b))
unfolding size get_nodes get_node contains_node
methods_return r now node id b free = (ground arith, ground arith, ground arith, ground arith)

pub add_node-IsBucket :
    (r : Relock) (now : ℕ) (node : DhtNode) (b : KBucket)
    → IsBucket b
    → Keeps IsBucket (add_node r now node b)
add_node-IsBucket blocks now node b v = rw (add_node-blocks now node b v.free) tt
add_node-IsBucket passes now node b v =
    rw (add_node-passes now node b v.free)
      (ground (arith, append-Distinct node b.nodes v.distinct, length-append b.nodes (node ∷ [])))

pub remove_node_lem :
    (r : Relock) (now : ℕ) (id : NodeId) (b : KBucket)
    → b.held ≡ false
    → remove_node r now id b ≡ (
        if found (find id b.nodes)
        then done (true, record b { nodes = erase id b.nodes; last_updated = now })
        else done (false, b))
unfolding remove_node
remove_node_lem r now id b free = ground arith

pub update_node_lem :
    (r : Relock) (now : ℕ) (node : DhtNode) (b : KBucket)
    → b.held ≡ false
    → update_node r now node b ≡ (
        if found (find node.id b.nodes)
        then done (true, record b { nodes = replace node b.nodes; last_updated = now })
        else done (false, b))
unfolding update_node
update_node_lem r now node b free = ground arith

pub remove_node-IsBucket :
    (r : Relock) (now : ℕ) (id : NodeId) (b : KBucket)
    → IsBucket b
    → Keeps IsBucket (remove_node r now id b)
remove_node-IsBucket r now id b v =
    rw (remove_node_lem r now id b v.free)
      (ground (arith, erase-Distinct id b.nodes v.distinct, length-erase-le id b.nodes))

pub update_node-IsBucket :
    (r : Relock) (now : ℕ) (node : DhtNode) (b : KBucket)
    → IsBucket b
    → Keeps IsBucket (update_node r now node b)
update_node-IsBucket r now node b v =
    rw (update_node_lem r now node b v.free)
      (ground (arith, replace-Distinct node b.nodes v.distinct, length-replace node b.nodes))

-- Every method that changes a bucket keeps the invariant.
pub methods-IsBucket :
    (r : Relock) (now : ℕ) (node : DhtNode) (id : NodeId) (b : KBucket)
    → IsBucket b
    → Keeps IsBucket (add_node r now node b)
      × Keeps IsBucket (remove_node r now id b)
      × Keeps IsBucket (update_node r now node b)
      × Keeps IsBucket (update_last_updated r now b)
unfolding update_last_updated
methods-IsBucket r now node id b v = (
  add_node-IsBucket r now node b v,
  remove_node-IsBucket r now id b v,
  update_node-IsBucket r now node b v,
  ground arith,
)

pub found-false : (o : Option DhtNode) → found o ≡ false → o ≡ none
found-false none h = refl
found-false (some n) h = cc

-- With a mutex that its holder may lock again, `add_node` returns: true exactly where the bucket
-- has room and no node of that identifier, and then the node is found under its identifier, while
-- every other identifier is looked up as before; where it returns false no lookup changes.
pub add_node_get :
    (now : ℕ) (node : DhtNode) (b : KBucket)
    → IsBucket b
    → (x : Bool) × (b' : KBucket) × (add_node passes now node b ≡ done (x, b'))
      × ((x ≡ true) ↔ ((length b.nodes < max_nodes) × (find node.id b.nodes ≡ none)))
      × ((j : NodeId)
          → get_node passes j b'
            ≡ done ((if x && NodeId.eq node.id j then some node else find j b.nodes), b'))
unfolding get_node
add_node_get now node b v = elim (Bool-cases (leb max_nodes (length b.nodes))) [
  | inl full ↦ (
    false,
    b,
    add_node-passes now node b v.free ∙ rw full,
    ground arith,
    λ j. ground (arith, v.free),
  )
  | inr room ↦ elim (Bool-cases (found (find node.id b.nodes))) [
    | inl present ↦ (
      false,
      b,
      add_node-passes now node b v.free ∙ rw (room, present),
      ground arith,
      λ j. ground (arith, v.free),
    )
    | inr absent ↦
        let new = found-false (find node.id b.nodes) absent in
        (
          true,
          record b { nodes = b.nodes ++ (node ∷ []); last_updated = now },
          add_node-passes now node b v.free ∙ rw (room, absent),
          ground arith,
          λ j. ground (arith, v.free, find-append_new j node b.nodes new),
        )
  ]
]

-- With any mutex, `remove_node` returns, with whether the identifier was there: afterwards it is
-- not found, and every other identifier is looked up as before.
pub remove_node_get :
    (r : Relock) (now : ℕ) (id : NodeId) (b : KBucket)
    → IsBucket b
    → (b' : KBucket) × (remove_node r now id b ≡ done (found (find id b.nodes), b'))
      × ((j : NodeId)
          → get_node r j b' ≡ done ((if NodeId.eq id j then none else find j b.nodes), b'))
unfolding get_node
remove_node_get r now id b v = elim (Bool-cases (found (find id b.nodes))) [
  | inl present ↦ (
    record b { nodes = erase id b.nodes; last_updated = now },
    remove_node_lem r now id b v.free ∙ rw present,
    λ j. ground (arith, v.free, find-erase id j b.nodes v.distinct),
  )
  | inr absent ↦
      let new = found-false (find id b.nodes) absent in
      (
        b,
        remove_node_lem r now id b v.free ∙ rw absent,
        λ j. ground (arith, v.free, eq_iff id j, new),
      )
]

-- With any mutex, `update_node` returns, with whether the identifier was there; if it was, it is
-- found with the new node, and every other identifier is looked up as before.
pub update_node_get :
    (r : Relock) (now : ℕ) (node : DhtNode) (b : KBucket)
    → IsBucket b
    → (b' : KBucket) × (update_node r now node b ≡ done (found (find node.id b.nodes), b'))
      × ((j : NodeId)
          → get_node r j b'
            ≡ done (
              (if NodeId.eq node.id j && found (find node.id b.nodes)
                  then some node
                  else find j b.nodes),
              b',
            ))
unfolding get_node
update_node_get r now node b v = elim (Bool-cases (found (find node.id b.nodes))) [
  | inl present ↦ (
    record b { nodes = replace node b.nodes; last_updated = now },
    update_node_lem r now node b v.free ∙ rw present,
    λ j. ground (arith, v.free, find-replace node j b.nodes),
  )
  | inr absent ↦
      (b, update_node_lem r now node b v.free ∙ rw absent, λ j. ground (arith, v.free, absent))
]
