-- ===== src/Dht/RoutingTable.antt =====
-- modules/dht/src/routing_table.cpp. `NodeID::is_bit_set`, which the table calls, is not declared
-- in the repository: it is the parameter `is_bit_set`.
pub mod Sort
pub mod Table
pub mod Methods
pub mod Lookup
pub mod Closest
use dht_hunter.Base.{
  ℕ, zero, suc, ◌+◌, ◌-◌, ◌*◌, Bool, true, false, List, [], ◌∷◌, ◌++◌, Option, none, some, ltb, leb,
  if◌then◌else◌, length, get_elem?, set, take,
}
use dht_hunter.Types.NodeId.{NodeId, id_size, distance}
use dht_hunter.Types.NodeId
use dht_hunter.Types.Node.{DhtNode}
use dht_hunter.Dht.Mutex.{
  Relock, Method, Outcome, Lockable, ◌>>=◌, pure, branch, guarded, done, stuck, undefined,
}
use dht_hunter.Dht.KBucket.{KBucket, make_bucket}
use dht_hunter.Dht.KBucket

pub record RoutingTable : Type 0 where
  pub local_id : NodeId
  pub buckets : List KBucket
  pub held : Bool

abbrev pub table_mutex : Lockable RoutingTable
table_mutex = record { held = λ t. t.held; set_held = λ h t. record t { held = h } }

unfoldable pub make_table : ℕ → NodeId → RoutingTable
make_table now local_id = record {
  local_id = local_id;
  buckets = make_bucket 0 now ∷ [];
  held = false;
}

-- `buckets_[i]`, and the method of that bucket.
abbrev pub put_bucket :
    {A : Type 0} → RoutingTable → ℕ → Outcome (A × KBucket) → Outcome (A × RoutingTable)
put_bucket t i stuck = stuck
put_bucket t i undefined = undefined
put_bucket t i (done (a, b)) = done (a, record t { buckets = set t.buckets i b })

abbrev pub run_on :
    {A : Type 0} → Method KBucket A → RoutingTable → ℕ → Option KBucket → Outcome (A × RoutingTable)
run_on op t i none = undefined
run_on op t i (some b) = put_bucket t i (op b)

unfoldable pub on_bucket : {A : Type 0} → ℕ → Method KBucket A → Method RoutingTable A
on_bucket i op t = run_on op t i (get_elem? t.buckets i)

-- `while (index >= buckets_.size()) buckets_.emplace_back(buckets_.size());` in at most `rounds`
-- rounds.
unfoldable pub grow : ℕ → ℕ → ℕ → List KBucket → List KBucket
grow zero now index bs = bs
grow (suc rounds) now index bs =
    let rest = grow rounds now index (bs ++ (make_bucket (length bs) now ∷ [])) in
    if leb (length bs) index then rest else bs

-- The two loops of `get_all_nodes`, and that of `size`, over the buckets' own methods.
unfoldable pub total_size : Relock → ℕ → List KBucket → Outcome (ℕ × List KBucket)
total_size r acc [] = done (acc, [])
total_size r acc (b ∷ bs) = elim (KBucket.size r b) [
  | stuck ↦ stuck
  | undefined ↦ undefined
  | done (n, b') ↦ elim (total_size r (acc + n) bs) [
    | stuck ↦ stuck
    | undefined ↦ undefined
    | done (m, bs') ↦ done (m, b' ∷ bs')
  ]
]

unfoldable pub collect :
    Relock → List DhtNode → List KBucket → Outcome (List DhtNode × List KBucket)
collect r acc [] = done (acc, [])
collect r acc (b ∷ bs) = elim (KBucket.get_nodes r b) [
  | stuck ↦ stuck
  | undefined ↦ undefined
  | done (ns, b') ↦ elim (collect r (acc ++ ns) bs) [
    | stuck ↦ stuck
    | undefined ↦ undefined
    | done (all, bs') ↦ done (all, b' ∷ bs')
  ]
]

abbrev pub over_buckets :
    {A : Type 0} → (List KBucket → Outcome (A × List KBucket)) → Method RoutingTable A
over_buckets f t = elim (f t.buckets) [
  | stuck ↦ stuck
  | undefined ↦ undefined
  | done (a, bs) ↦ done (a, record t { buckets = bs })
]

-- std::sort by the distance to the target. No two nodes of a table are at the same distance, so
-- that every sorting algorithm gives the same result; this one is by insertion.
unfoldable pub closer : NodeId → DhtNode → DhtNode → Bool
closer target a b = NodeId.lt (distance a.id target) (distance b.id target)

unfoldable pub insert_sorted : NodeId → DhtNode → List DhtNode → List DhtNode
insert_sorted target n [] = n ∷ []
insert_sorted target n (m ∷ ns) =
    if closer target m n then m ∷ insert_sorted target n ns else n ∷ m ∷ ns

unfoldable pub sort : NodeId → List DhtNode → List DhtNode
sort target [] = []
sort target (n ∷ ns) = insert_sorted target n (sort target ns)

-- `if (all_nodes.size() > k) all_nodes.resize(k);`
unfoldable pub truncate : ℕ → List DhtNode → List DhtNode
truncate k ns = if ltb k (length ns) then take k ns else ns

module _ (r : Relock) where
  unfoldable pub size : Method RoutingTable ℕ
  size = guarded table_mutex r (over_buckets (total_size r 0))

  unfoldable pub get_all_nodes : Method RoutingTable (List DhtNode)
  get_all_nodes =
      guarded table_mutex r
        do total_nodes ← over_buckets (total_size r 0); over_buckets (collect r [])

  -- `get_all_nodes` locks the mutex that is already held here.
  unfoldable pub get_closest_nodes : NodeId → ℕ → Method RoutingTable (List DhtNode)
  get_closest_nodes target k =
      guarded table_mutex r do all_nodes ← get_all_nodes; pure (truncate k (sort target all_nodes))

module _ (is_bit_set : NodeId → ℕ → Bool) where
  -- The loop over the bits from `i` on, `rounds` of them.
  unfoldable pub first_set_bit : ℕ → ℕ → NodeId → ℕ
  first_set_bit zero i id = 0
  first_set_bit (suc rounds) i id =
      let rest = first_set_bit rounds (suc i) id in if is_bit_set id i then i else rest

  unfoldable pub get_bucket_index : NodeId → NodeId → ℕ
  get_bucket_index local_id id = first_set_bit (id_size * 8) 0 (distance local_id id)

  unfoldable pub get_or_create_bucket : ℕ → NodeId → RoutingTable → ℕ × RoutingTable
  get_or_create_bucket now id t =
      let index = get_bucket_index t.local_id id in
      (index, record t { buckets = grow (suc index) now index t.buckets })

  module _ (r : Relock) where
    unfoldable pub add_node : ℕ → DhtNode → Method RoutingTable Bool
    add_node now node t =
        branch (NodeId.eq node.id t.local_id) (pure false)
          (guarded table_mutex r λ t.
            let (index, t') = get_or_create_bucket now node.id t in
            on_bucket index (KBucket.add_node r now node) t')
          t

    -- `if (index < buckets_.size()) return buckets_[index]....; return ...;`
    unfoldable pub if_bucket : {A : Type 0} → NodeId → Method KBucket A → A → Method RoutingTable A
    if_bucket id op otherwise t =
        let index = get_bucket_index t.local_id id in
        branch (ltb index (length t.buckets)) (on_bucket index op) (pure otherwise) t

    unfoldable pub remove_node : ℕ → NodeId → Method RoutingTable Bool
    unfolding if_bucket
    remove_node now id = guarded table_mutex r (if_bucket id (KBucket.remove_node r now id) false)

    unfoldable pub update_node : ℕ → DhtNode → Method RoutingTable Bool
    unfolding if_bucket
    update_node now node =
        guarded table_mutex r (if_bucket node.id (KBucket.update_node r now node) false)

    unfoldable pub get_node : NodeId → Method RoutingTable (Option DhtNode)
    unfolding if_bucket
    get_node id = guarded table_mutex r (if_bucket id (KBucket.get_node r id) none)

    unfoldable pub contains_node : NodeId → Method RoutingTable Bool
    unfolding if_bucket
    contains_node id = guarded table_mutex r (if_bucket id (KBucket.contains_node r id) false)
