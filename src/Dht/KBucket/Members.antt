-- ===== src/Dht/KBucket/Members.antt =====
-- A property of identifiers that the nodes of a bucket share survives the bucket's methods.
use dht_hunter.Base.{ℕ, subst, List, [], ◌∷◌, ◌++◌, Bool-cases, inl, inr, All, arith}
use dht_hunter.Types.NodeId.{NodeId}
use dht_hunter.Types.NodeId
use dht_hunter.Types.NodeId.Order.{eq_iff}
use dht_hunter.Types.Node.{DhtNode}
use dht_hunter.Dht.Mutex.{Relock, blocks, passes, Keeps, Returns}
use dht_hunter.Dht.KBucket.{KBucket, erase, replace, add_node, remove_node, update_node}
use dht_hunter.Dht.KBucket.Laws.{
  IsBucket, add_node-blocks, add_node-passes, remove_node_lem, update_node_lem, add_node-IsBucket,
  remove_node-IsBucket, update_node-IsBucket,
}

module _ (P : NodeId → Type 0) where
  abbrev pub Members : List DhtNode → Type 0
  Members = All (λ n. P n.id)

  append-Members :
      (node : DhtNode) (ns : List DhtNode) → Members ns → P node.id → Members (ns ++ (node ∷ []))
  append-Members node [] h p = (p, tt)
  append-Members node (n ∷ ns) h p = (h.0, append-Members node ns h.1 p)

  erase-Members : (id : NodeId) (ns : List DhtNode) → Members ns → Members (erase id ns)
  unfolding erase
  erase-Members id [] h = tt
  erase-Members id (n ∷ ns) h = elim (Bool-cases (NodeId.eq n.id id)) [
    | inl e ↦ rw e h.1
    | inr e ↦ rw e (h.0, erase-Members id ns h.1)
  ]

  replace-Members : (node : DhtNode) (ns : List DhtNode) → Members ns → Members (replace node ns)
  unfolding replace
  replace-Members node [] h = tt
  replace-Members node (n ∷ ns) h = elim (Bool-cases (NodeId.eq n.id node.id)) [
    | inl e ↦ rw e (subst P ((eq_iff n.id node.id).0 e) h.0, h.1)
    | inr e ↦ rw e (h.0, replace-Members node ns h.1)
  ]

  abbrev pub Kept : KBucket → Type 0
  Kept b = IsBucket b × Members b.nodes

  pub add_node-Members :
      (r : Relock) (now : ℕ) (node : DhtNode) (b : KBucket)
      → IsBucket b
      → Members b.nodes
      → P node.id
      → Keeps Kept (add_node r now node b)
  add_node-Members blocks now node b v m p = rw (add_node-blocks now node b v.free) tt
  add_node-Members passes now node b v m p =
      let kept =
        rw (add_node-passes now node b v.free) at (add_node-IsBucket passes now node b v) in
      rw (add_node-passes now node b v.free) (ground (arith, kept, append-Members node b.nodes m p))

  pub remove_node-Members :
      (r : Relock) (now : ℕ) (id : NodeId) (b : KBucket)
      → IsBucket b
      → Members b.nodes
      → Returns Kept (remove_node r now id b)
  remove_node-Members r now id b v m =
      let kept = rw (remove_node_lem r now id b v.free) at (remove_node-IsBucket r now id b v) in
      rw (remove_node_lem r now id b v.free) (ground (arith, kept, erase-Members id b.nodes m))

  pub update_node-Members :
      (r : Relock) (now : ℕ) (node : DhtNode) (b : KBucket)
      → IsBucket b
      → Members b.nodes
      → Returns Kept (update_node r now node b)
  update_node-Members r now node b v m =
      let kept =
        rw (update_node_lem r now node b v.free) at (update_node-IsBucket r now node b v) in
      rw (update_node_lem r now node b v.free)
        (ground (arith, kept, replace-Members node b.nodes m))
