-- ===== src/Dht/RoutingTable/Methods.antt =====
-- The methods of the table and its invariant; with a mutex that blocks its holder, adding a node
-- never returns.
use native.Mathlib.Nat.{zero-add}
use dht_hunter.Base.{
  ℕ, suc, none, ◌<◌, ◌≡◌, refl, Bool, true, false, inl, inr, Bool-cases, ltb, ltb→lt, length,
  length-set, get_elem?_lt, All, arith,
}
use dht_hunter.Types.NodeId.{NodeId, id_size}
use dht_hunter.Types.NodeId
use dht_hunter.Types.Node.{DhtNode}
use dht_hunter.Dht.Mutex.{
  Relock, blocks, Outcome, Method, Keeps, Leaves, Returns, done, stuck, undefined, guarded, unlock,
}
use dht_hunter.Dht.KBucket.{KBucket}
use dht_hunter.Dht.KBucket
use dht_hunter.Dht.KBucket.Laws.{IsBucket, add_node-blocks, methods_return}
use dht_hunter.Dht.KBucket.Members.{add_node-Members, remove_node-Members, update_node-Members}
use dht_hunter.Dht.RoutingTable.{
  RoutingTable, table_mutex, put_bucket, on_bucket, grow, get_bucket_index, get_or_create_bucket,
  if_bucket, add_node, remove_node, update_node, get_node, contains_node,
}
use dht_hunter.Dht.RoutingTable.Table.{
  Belongs, AllPlaced-at, AllPlaced-set, Layout, IsTable, grow-AllPlaced, grow_lengths,
  get_bucket_index_lt,
}

module _ (is_bit_set : NodeId → ℕ → Bool) where
  -- `Belongs`, of the identifier.
  abbrev AtIndex : NodeId → ℕ → NodeId → Type 0
  AtIndex local_id i id =
      (get_bucket_index is_bit_set local_id id ≡ i) × (NodeId.eq id local_id ≡ false)

  abbrev Good : NodeId → ℕ → KBucket → Type 0
  Good local_id i b = IsBucket b × All (Belongs is_bit_set local_id i) b.nodes

  put_bucket-Layout :
      {A : Type 0} (W : Type 0) (t : RoutingTable) (i : ℕ) (o : Outcome (A × KBucket))
      → Layout is_bit_set t
      → Leaves W (Good t.local_id i) o
      → Leaves W (Layout is_bit_set) (put_bucket t i o)
  put_bucket-Layout W t i stuck h k = k
  put_bucket-Layout W t i undefined h k = k
  put_bucket-Layout W t i (done (a, b)) h k = (
    omega (arith, length-set t.buckets i b, h.0),
    AllPlaced-set is_bit_set t.local_id 0 i t.buckets b h.1 k.0 (rw zero-add k.1),
  )

  pub on_bucket-Layout :
      {A : Type 0} (W : Type 0) (t : RoutingTable) (i : ℕ) (op : Method KBucket A)
      → i < length t.buckets
      → Layout is_bit_set t
      → ((b : KBucket) → Good t.local_id i b → Leaves W (Good t.local_id i) (op b))
      → Leaves W (Layout is_bit_set) (on_bucket i op t)
  unfolding on_bucket
  on_bucket-Layout W t i op lt h k =
      let (b, e) = get_elem?_lt t.buckets i lt in
      let good = AllPlaced-at is_bit_set t.local_id 0 i t.buckets b h.1 e in
      rw e (put_bucket-Layout W t i (op b) h (k b (good.0, rw zero-add at good.1)))

  unlock-IsTable :
      {A : Type 0} (W : Type 0) (o : Outcome (A × RoutingTable))
      → Leaves W (Layout is_bit_set) o
      → Leaves W (IsTable is_bit_set) (unlock table_mutex o)
  unlock-IsTable W stuck k = k
  unlock-IsTable W undefined k = k
  unlock-IsTable W (done (a, t)) k = record { unlocked = refl; layout = k }

  guarded-IsTable :
      {A : Type 0} (W : Type 0) (r : Relock) (body : Method RoutingTable A) (t : RoutingTable)
      → IsTable is_bit_set t
      → Leaves W (Layout is_bit_set) (body (record t { held = true }))
      → Leaves W (IsTable is_bit_set) (guarded table_mutex r body t)
  guarded-IsTable W r body t v k =
      rw v.unlocked (unlock-IsTable W (body (record t { held = true })) k)

  if_bucket-Layout :
      {A : Type 0} (W : Type 0) (r : Relock) (id : NodeId) (op : Method KBucket A) (a : A)
      (t : RoutingTable)
      → Layout is_bit_set t
      → ((b : KBucket)
          → Good t.local_id (get_bucket_index is_bit_set t.local_id id) b
          → Leaves W (Good t.local_id (get_bucket_index is_bit_set t.local_id id)) (op b))
      → Leaves W (Layout is_bit_set) (if_bucket is_bit_set r id op a t)
  unfolding if_bucket
  if_bucket-Layout W r id op a t h k =
      let index = get_bucket_index is_bit_set t.local_id id in
      elim (Bool-cases (ltb index (length t.buckets))) [
        | inl e ↦ rw e (on_bucket-Layout W t index op (ltb→lt index (length t.buckets) e) h k)
        | inr e ↦ rw e h
      ]

  pub add_node-IsTable :
      (r : Relock) (now : ℕ) (node : DhtNode) (t : RoutingTable)
      → IsTable is_bit_set t
      → Keeps (IsTable is_bit_set) (add_node is_bit_set r now node t)
  unfolding add_node get_or_create_bucket
  add_node-IsTable r now node t v = elim (Bool-cases (NodeId.eq node.id t.local_id)) [
    | inl self ↦ rw self v
    | inr other ↦
        let index = get_bucket_index is_bit_set t.local_id node.id in
        let sizes = grow_lengths (suc index) now index t.buckets (omega arith) in
        let below = get_bucket_index_lt is_bit_set t.local_id node.id in
        rw other (
          guarded-IsTable Unit r _ t v (
            on_bucket-Layout Unit
              (record t { buckets = grow (suc index) now index t.buckets; held = true }) index
              (KBucket.add_node r now node) sizes.0
              (
                omega (arith, sizes.1, below, v.layout.0),
                grow-AllPlaced is_bit_set (suc index) now index t.local_id t.buckets v.layout.1,
              )
              λ b good.
                add_node-Members (AtIndex t.local_id index) r now node b good.0 good.1
                  (refl, other)))
  ]

  on_found :
      {A : Type 0} (r : Relock) (id : NodeId) (op : Method KBucket A) (a : A) (t : RoutingTable)
      → IsTable is_bit_set t
      → ((b : KBucket)
          → Good t.local_id (get_bucket_index is_bit_set t.local_id id) b
          → Returns (Good t.local_id (get_bucket_index is_bit_set t.local_id id)) (op b))
      → Returns (IsTable is_bit_set) (guarded table_mutex r (if_bucket is_bit_set r id op a) t)
  on_found r id op a t v k =
      guarded-IsTable ⊥ r _ t v (if_bucket-Layout ⊥ r id op a (record t { held = true }) v.layout k)

  -- With any mutex, and on any table with the invariant (free mutexes; at most 160 buckets; in each
  -- at most eight nodes, with different identifiers, in the bucket of their prefix length): removing, updating, getting and asking for a node return, also where its bucket
  -- does not exist; they read no bucket out of range, and the table has the invariant afterwards.
  pub methods-IsTable :
      (r : Relock) (now : ℕ) (node : DhtNode) (id : NodeId) (t : RoutingTable)
      → IsTable is_bit_set t
      → Returns (IsTable is_bit_set) (remove_node is_bit_set r now id t)
        × Returns (IsTable is_bit_set) (update_node is_bit_set r now node t)
        × Returns (IsTable is_bit_set) (get_node is_bit_set r id t)
        × Returns (IsTable is_bit_set) (contains_node is_bit_set r id t)
  unfolding remove_node update_node get_node contains_node
  methods-IsTable r now node id t v =
      let at_id = AtIndex t.local_id (get_bucket_index is_bit_set t.local_id id) in
      let at_node = AtIndex t.local_id (get_bucket_index is_bit_set t.local_id node.id) in
      (
        on_found r id (KBucket.remove_node r now id) false t v
            λ b good. remove_node-Members at_id r now id b good.0 good.1,
        on_found r node.id (KBucket.update_node r now node) false t v
            λ b good. update_node-Members at_node r now node b good.0 good.1,
        on_found r id (KBucket.get_node r id) none t v λ b good.
            let (sized, listed, got, contained) = methods_return r now node id b good.0.free in
            rw got good,
        on_found r id (KBucket.contains_node r id) false t v λ b good.
            let (sized, listed, got, contained) = methods_return r now node id b good.0.free in
            rw contained good,
      )

  -- With a mutex that blocks its holder, adding any node but the local one to a table never
  -- returns.
  pub add_node-blocks_table :
      (now : ℕ) (node : DhtNode) (t : RoutingTable)
      → IsTable is_bit_set t
      → NodeId.eq node.id t.local_id ≡ false
      → add_node is_bit_set blocks now node t ≡ stuck
  unfolding add_node get_or_create_bucket on_bucket
  add_node-blocks_table now node t v other =
      let index = get_bucket_index is_bit_set t.local_id node.id in
      let sizes = grow_lengths (suc index) now index t.buckets (omega arith) in
      let grown = grow (suc index) now index t.buckets in
      let (b, e) = get_elem?_lt grown index sizes.0 in
      let all_good =
        grow-AllPlaced is_bit_set (suc index) now index t.local_id t.buckets v.layout.1 in
      let good = AllPlaced-at is_bit_set t.local_id 0 index grown b all_good e in
      rw (other, v.unlocked) (rw (e, add_node-blocks now node b good.0.free))
