-- ===== src/Dht/RoutingTable/Lookup.antt =====
-- Looking nodes up in the table.
use dht_hunter.Base.{
  ℕ, zero, suc, ◌<◌, ◌≡◌, ◌≢◌, ◌⊎◌, ◌↔◌, refl, sym, ap, ◌∙◌, Bool, true, false, ◌&&◌, List, [], ◌∷◌,
  ◌++◌, Option, none, some, inl, inr, Bool-cases, ◌==◌, ltb, ltb→lt, leb, if◌then◌else◌, length,
  get_elem?, get_elem?_lt, get_elem?_ge, set, set_same, get_elem?-set_self, get_elem?-set_ne, arith,
}
use dht_hunter.Types.NodeId.{NodeId}
use dht_hunter.Types.NodeId
use dht_hunter.Types.NodeId.Order.{eq_iff}
use dht_hunter.Types.Node.{DhtNode}
use dht_hunter.Dht.Mutex.{Relock, passes, done}
use dht_hunter.Dht.KBucket.{KBucket, make_bucket, find}
use dht_hunter.Dht.KBucket
use dht_hunter.Dht.KBucket.Laws.{IsBucket}
use dht_hunter.Dht.KBucket.Laws
use dht_hunter.Dht.RoutingTable.{
  RoutingTable, on_bucket, grow, get_bucket_index, get_or_create_bucket, add_node, get_node,
}
use dht_hunter.Dht.RoutingTable.Methods.{add_node-IsTable}
use dht_hunter.Dht.RoutingTable.Table.{AllPlaced-at, IsTable, grow-AllPlaced, grow_lengths}

abbrev find_at : NodeId → Option KBucket → Option DhtNode
find_at id none = none
find_at id (some b) = find id b.nodes

-- Growing the table by empty buckets changes no lookup.
find_at-append :
    (id : NodeId) (i p now : ℕ) (bs : List KBucket)
    → find_at id (get_elem? (bs ++ (make_bucket p now ∷ [])) i) ≡ find_at id (get_elem? bs i)
unfolding make_bucket find
find_at-append id zero p now [] = refl
find_at-append id (suc i) p now [] = refl
find_at-append id zero p now (b ∷ bs) = refl
find_at-append id (suc i) p now (b ∷ bs) = find_at-append id i p now bs

find_at-grow :
    (id : NodeId) (i rounds now index : ℕ) (bs : List KBucket)
    → find_at id (get_elem? (grow rounds now index bs) i) ≡ find_at id (get_elem? bs i)
unfolding grow
find_at-grow id i zero now index bs = refl
find_at-grow id i (suc rounds) now index bs = elim (Bool-cases (leb (length bs) index)) [
  | inl e ↦ rw e (
      find_at-grow id i rounds now index (bs ++ (make_bucket (length bs) now ∷ []))
      ∙ find_at-append id i (length bs) now bs)
  | inr e ↦ rw e
]

bucket_get_node :
    (r : Relock) (id : NodeId) (b : KBucket)
    → b.held ≡ false
    → KBucket.get_node r id b ≡ done (find id b.nodes, b)
unfolding KBucket.get_node
bucket_get_node r id b free = ground arith

module _ (is_bit_set : NodeId → ℕ → Bool) where
  -- The node that a table holds under an identifier: the one in the bucket of its prefix length.
  abbrev pub lookup : NodeId → RoutingTable → Option DhtNode
  lookup id t = find_at id (get_elem? t.buckets (get_bucket_index is_bit_set t.local_id id))

  -- With any mutex, `get_node` finds the node that the table holds, and changes nothing.
  pub get_node_lem :
      (r : Relock) (id : NodeId) (t : RoutingTable)
      → IsTable is_bit_set t
      → get_node is_bit_set r id t ≡ done (lookup id t, t)
  unfolding get_node on_bucket
  get_node_lem r id t v =
      let index = get_bucket_index is_bit_set t.local_id id in
      elim (Bool-cases (ltb index (length t.buckets))) [
        | inl e ↦
            let (b, at) = get_elem?_lt t.buckets index (ltb→lt index (length t.buckets) e) in
            let good = AllPlaced-at is_bit_set t.local_id 0 index t.buckets b v.layout.1 at in
            rw (v.unlocked, e)
              (rw (at, bucket_get_node r id b good.0.free, set_same t.buckets index b at)
                (ground (arith, v.unlocked)))
        | inr e ↦
            let missing = get_elem?_ge t.buckets index (ground arith) in
            rw (v.unlocked, e) (rw missing (ground (arith, v.unlocked)))
      ]

  abbrev size_at : Option KBucket → ℕ
  size_at none = 0
  size_at (some b) = length b.nodes

  -- How many nodes the bucket of an identifier holds.
  abbrev pub bucket_size : NodeId → RoutingTable → ℕ
  bucket_size id t = size_at (get_elem? t.buckets (get_bucket_index is_bit_set t.local_id id))

  size_at-append :
      (i p now : ℕ) (bs : List KBucket)
      → size_at (get_elem? (bs ++ (make_bucket p now ∷ [])) i) ≡ size_at (get_elem? bs i)
  unfolding make_bucket
  size_at-append zero p now [] = refl
  size_at-append (suc i) p now [] = refl
  size_at-append zero p now (b ∷ bs) = refl
  size_at-append (suc i) p now (b ∷ bs) = size_at-append i p now bs

  size_at-grow :
      (i rounds now index : ℕ) (bs : List KBucket)
      → size_at (get_elem? (grow rounds now index bs) i) ≡ size_at (get_elem? bs i)
  unfolding grow
  size_at-grow i zero now index bs = refl
  size_at-grow i (suc rounds) now index bs = elim (Bool-cases (leb (length bs) index)) [
    | inl e ↦ rw e (
        size_at-grow i rounds now index (bs ++ (make_bucket (length bs) now ∷ []))
        ∙ size_at-append i (length bs) now bs)
    | inr e ↦ rw e
  ]

  -- Changing one bucket changes the lookups that fall into it, and no others.
  lookup-set :
      (node : DhtNode) (x : Bool) (t : RoutingTable) (bs : List KBucket) (b b' : KBucket)
      (j : NodeId)
      → let index = get_bucket_index is_bit_set t.local_id node.id in
        get_elem? bs index ≡ some b
        → index < length bs
        → find_at j (get_elem? bs (get_bucket_index is_bit_set t.local_id j)) ≡ lookup j t
        → find j b'.nodes ≡ (if x && NodeId.eq node.id j then some node else find j b.nodes)
        → lookup j (record t { buckets = set bs index b' })
          ≡ (if x && NodeId.eq node.id j then some node else lookup j t)
  lookup-set node x t bs b b' j at lt same new = go (Bool-cases (index == other))
    where
      index : ℕ
      index = get_bucket_index is_bit_set t.local_id node.id

      other : ℕ
      other = get_bucket_index is_bit_set t.local_id j

      go :
          ((index == other) ≡ true) ⊎ ((index == other) ≡ false)
          → lookup j (record t { buckets = set bs index b' })
            ≡ (if x && NodeId.eq node.id j then some node else lookup j t)
      go (inl e) =
          let i : index ≡ other = ground arith in
          let here = get_elem?-set_self bs index b' lt in
          cc (
            ap (λ (o : ℕ). find_at j (get_elem? (set bs index b') o)) i,
            here,
            new,
            same,
            ap (λ (o : ℕ). find_at j (get_elem? bs o)) i,
            ap (find_at j) at,
          )
      go (inr e) =
          let apart : index ≢ other = ground arith in
          let differs : NodeId.eq node.id j ≡ false =
            ne_of_index (NodeId.eq node.id j) refl apart in
          ground (
            arith,
            differs,
            same,
            ap (find_at j) (get_elem?-set_ne bs {i = index} {j = other} b' apart),
          )
        where
          ne_of_index :
              (c : Bool) → NodeId.eq node.id j ≡ c → index ≢ other → NodeId.eq node.id j ≡ false
          ne_of_index false p q = p
          ne_of_index true p q =
              absurd (q (ap (get_bucket_index is_bit_set t.local_id) ((eq_iff node.id j).0 p)))

  -- With a mutex that its holder may lock again, adding a node with another identifier than the
  -- local one returns: true exactly where the bucket of its prefix length holds fewer than eight nodes,
  -- none of that identifier, and then the node is found under its identifier, while every other
  -- identifier is looked up as before; where it returns false no lookup changes.
  pub add_node_get_table :
      (now : ℕ) (node : DhtNode) (t : RoutingTable)
      → IsTable is_bit_set t
      → NodeId.eq node.id t.local_id ≡ false
      → (x : Bool) × (t' : RoutingTable) × (add_node is_bit_set passes now node t ≡ done (x, t'))
        × ((x ≡ true) ↔ ((bucket_size node.id t < KBucket.max_nodes) × (lookup node.id t ≡ none)))
        × ((j : NodeId)
            → get_node is_bit_set passes j t'
              ≡ done ((if x && NodeId.eq node.id j then some node else lookup j t), t'))
  unfolding add_node get_or_create_bucket on_bucket
  add_node_get_table now node t v other =
      let index = get_bucket_index is_bit_set t.local_id node.id in
      let grown = grow (suc index) now index t.buckets in
      let lt = (grow_lengths (suc index) now index t.buckets (omega arith)).0 in
      let (b, at) = get_elem?_lt grown index lt in
      let placed =
        grow-AllPlaced is_bit_set (suc index) now index t.local_id t.buckets v.layout.1 in
      let good = AllPlaced-at is_bit_set t.local_id 0 index grown b placed at in
      let (x, b', e, iff, gets) = Laws.add_node_get now node b good.0 in
      let t' : RoutingTable = record t { buckets = set grown index b' } in
      let added : add_node is_bit_set passes now node t ≡ done (x, t') =
        rw (other, v.unlocked) (rw (at, e) (ground (arith, v.unlocked))) in
      let table : IsTable is_bit_set t' =
        rw added at (add_node-IsTable is_bit_set passes now node t v) in
      let bucket : IsBucket b' = rw e at (Laws.add_node-IsBucket passes now node b good.0) in
      let sizes : bucket_size node.id t ≡ length b.nodes =
        sym (size_at-grow index (suc index) now index t.buckets) ∙ ap size_at at in
      let founds : lookup node.id t ≡ find node.id b.nodes =
        sym (find_at-grow node.id index (suc index) now index t.buckets)
        ∙ ap (find_at node.id) at in
      (
        x,
        t',
        added,
        rw (sizes, founds) iff,
        λ j.
            get_node_lem passes j t' table
            ∙ ap (λ o. done (o, t'))
                (lookup-set node x t grown b b' j at lt
                  (find_at-grow j (get_bucket_index is_bit_set t.local_id j) (suc index) now index
                    t.buckets)
                  (cc (bucket_get_node passes j b' bucket.free, gets j))),
      )
