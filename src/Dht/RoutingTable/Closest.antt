-- ===== src/Dht/RoutingTable/Closest.antt =====
-- The methods over all buckets: the nodes of the table, their number, and the closest of them.
use mathlib.Core.List.{Perm}
use Prim.Native.Nat.{min}
use dht_hunter.Base.{
  ℕ, suc, ◌+◌, ◌≡◌, refl, Bool, true, false, List, [], ◌∷◌, ◌++◌, append_assoc, append-nil, length,
  length-append, arith,
}
use dht_hunter.Types.NodeId.{NodeId}
use dht_hunter.Types.Node.{DhtNode}
use dht_hunter.Dht.Mutex.{Relock, blocks, passes, done, stuck, ◌>>=◌}
use dht_hunter.Dht.KBucket.{KBucket}
use dht_hunter.Dht.KBucket
use dht_hunter.Dht.RoutingTable.{
  RoutingTable, total_size, collect, sort, truncate, size, get_all_nodes, get_closest_nodes,
}
use dht_hunter.Dht.RoutingTable.Sort.{IsSorted, sort-IsSorted, sort-perm, length-sort, truncate_lem}
use dht_hunter.Dht.RoutingTable.Table.{AllPlaced, IsTable}

-- The nodes of all buckets, bucket by bucket.
abbrev pub all_nodes : List KBucket → List DhtNode
all_nodes [] = []
all_nodes (b ∷ bs) = b.nodes ++ all_nodes bs

size_free :
    (r : Relock) (b : KBucket) → b.held ≡ false → KBucket.size r b ≡ done (length b.nodes, b)
unfolding KBucket.size
size_free r b free = ground arith

get_nodes_free :
    (r : Relock) (b : KBucket) → b.held ≡ false → KBucket.get_nodes r b ≡ done (b.nodes, b)
unfolding KBucket.get_nodes
get_nodes_free r b free = ground arith

module _ (is_bit_set : NodeId → ℕ → Bool) where
  total_size_lem :
      (r : Relock) (local_id : NodeId) (i acc : ℕ) (bs : List KBucket)
      → AllPlaced is_bit_set local_id i bs
      → total_size r acc bs ≡ done (acc + length (all_nodes bs), bs)
  unfolding total_size
  total_size_lem r local_id i acc [] h = ground arith
  total_size_lem r local_id i acc (b ∷ bs) h =
      let one = size_free r b h.0.0.free in
      let more = total_size_lem r local_id (suc i) (acc + length b.nodes) bs h.1 in
      ground (arith, one, more, length-append b.nodes (all_nodes bs))

  collect_lem :
      (r : Relock) (local_id : NodeId) (i : ℕ) (acc : List DhtNode) (bs : List KBucket)
      → AllPlaced is_bit_set local_id i bs
      → collect r acc bs ≡ done (acc ++ all_nodes bs, bs)
  unfolding collect
  collect_lem r local_id i acc [] h = rw append-nil
  collect_lem r local_id i acc (b ∷ bs) h =
      let one = get_nodes_free r b h.0.0.free in
      let more = collect_lem r local_id (suc i) (acc ++ b.nodes) bs h.1 in
      ground (arith, one, more, append_assoc acc b.nodes (all_nodes bs))

  -- With any mutex, the size of a table is the number of its nodes, and nothing changes.
  pub size_lem :
      (r : Relock) (t : RoutingTable)
      → IsTable is_bit_set t
      → size r t ≡ done (length (all_nodes t.buckets), t)
  unfolding size
  size_lem r t v = ground (arith, v.unlocked, total_size_lem r t.local_id 0 0 t.buckets v.layout.1)

  pub get_all_nodes_lem :
      (r : Relock) (t : RoutingTable)
      → IsTable is_bit_set t
      → get_all_nodes r t ≡ done (all_nodes t.buckets, t)
  unfolding get_all_nodes
  get_all_nodes_lem r t v = ground (
    arith,
    v.unlocked,
    total_size_lem r t.local_id 0 0 t.buckets v.layout.1,
    collect_lem r t.local_id 0 [] t.buckets v.layout.1,
  )

  all_nodes_relocked :
      (t : RoutingTable)
      → AllPlaced is_bit_set t.local_id 0 t.buckets
      → t.held ≡ true
      → get_all_nodes passes t ≡ done (all_nodes t.buckets, t)
  unfolding get_all_nodes
  all_nodes_relocked t h held = ground (
    arith,
    total_size_lem passes t.local_id 0 0 t.buckets h,
    collect_lem passes t.local_id 0 [] t.buckets h,
  )

  closest_lem :
      (target : NodeId) (k : ℕ) (t : RoutingTable)
      → IsTable is_bit_set t
      → get_closest_nodes passes target k t
        ≡ done (truncate k (sort target (all_nodes t.buckets)), t)
  unfolding get_closest_nodes
  closest_lem target k t v =
      let inner = all_nodes_relocked (record t { held = true }) v.layout.1 refl in
      rw v.unlocked (rw (inner, ◌>>=◌) (ground (arith, v.unlocked)))

  -- With a mutex that its holder may lock again, `get_closest_nodes` returns min(k, size) nodes of
  -- the table and leaves the table as it was: they are sorted by their distance to the target, and
  -- none of the nodes left out is nearer than any of them.
  pub get_closest_nodes_lem :
      (target : NodeId) (k : ℕ) (t : RoutingTable)
      → IsTable is_bit_set t
      → (ns rest : List DhtNode) × (get_closest_nodes passes target k t ≡ done (ns, t))
        × Perm (ns ++ rest) (all_nodes t.buckets)
        × IsSorted target (ns ++ rest)
        × (length ns ≡ min k (length (all_nodes t.buckets)))
  get_closest_nodes_lem target k t v =
      let all = all_nodes t.buckets in
      let sorted = sort target all in
      let (rest, split, short) = truncate_lem k sorted in
      (
        truncate k sorted,
        rest,
        closest_lem target k t v,
        rw split (sort-perm target all),
        rw split (sort-IsSorted target all),
        omega (arith, short, length-sort target all),
      )

-- With a mutex that blocks its holder, asking a table for its closest nodes never returns.
pub get_closest_nodes-blocks :
    (target : NodeId) (k : ℕ) (t : RoutingTable)
    → t.held ≡ false
    → get_closest_nodes blocks target k t ≡ stuck
unfolding get_closest_nodes get_all_nodes
get_closest_nodes-blocks target k t free = ground arith
