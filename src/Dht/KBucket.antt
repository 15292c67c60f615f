-- ===== src/Dht/KBucket.antt =====
-- modules/dht/src/k_bucket.cpp. `held` says that the bucket's mutex is held by the caller's thread;
-- `now` is the clock's reading in the call. The `_async` members run the same methods on another
-- thread.
pub mod Nodes
pub mod Laws
pub mod Members
use dht_hunter.Base.{
  ℕ, ◌%◌, Bool, true, false, List, [], ◌∷◌, ◌++◌, Option, none, some, ltb, leb, ◌==◌, if◌then◌else◌,
  length,
}
use dht_hunter.Types.NodeId.{NodeId}
use dht_hunter.Types.NodeId
use dht_hunter.Types.Node.{DhtNode}
use dht_hunter.Dht.Mutex.{Relock, Method, Lockable, ◌>>=◌, pure, branch, guarded, done}

abbrev pub max_nodes : ℕ
max_nodes = 8

pub record KBucket : Type 0 where
  pub prefix_length : ℕ
  pub nodes : List DhtNode
  pub last_updated : ℕ
  pub held : Bool

abbrev pub bucket_mutex : Lockable KBucket
bucket_mutex = record { held = λ b. b.held; set_held = λ h b. record b { held = h } }

unfoldable pub make_bucket : ℕ → ℕ → KBucket
make_bucket prefix now = record {
  prefix_length = prefix % 256;
  nodes = [];
  last_updated = now;
  held = false;
}

-- std::find_if over the nodes, by identifier.
unfoldable pub find : NodeId → List DhtNode → Option DhtNode
find id [] = none
find id (n ∷ ns) = if NodeId.eq n.id id then some n else find id ns

abbrev pub found {ℓ} : {A : Type ℓ} → Option A → Bool
found none = false
found (some a) = true

-- erase(it) and *it = node at the node that std::find_if stops at.
unfoldable pub erase : NodeId → List DhtNode → List DhtNode
erase id [] = []
erase id (n ∷ ns) = if NodeId.eq n.id id then ns else n ∷ erase id ns

unfoldable pub replace : DhtNode → List DhtNode → List DhtNode
replace node [] = []
replace node (n ∷ ns) = if NodeId.eq n.id node.id then node ∷ ns else n ∷ replace node ns

abbrev read : {A : Type 0} → (KBucket → A) → Method KBucket A
read f b = done (f b, b)

module _ (r : Relock) where
  unfoldable pub size : Method KBucket ℕ
  size = guarded bucket_mutex r (read λ b. length b.nodes)

  unfoldable pub is_empty : Method KBucket Bool
  is_empty = guarded bucket_mutex r (read λ b. length b.nodes == 0)

  unfoldable pub is_full : Method KBucket Bool
  is_full = guarded bucket_mutex r (read λ b. leb max_nodes (length b.nodes))

  unfoldable pub contains_node : NodeId → Method KBucket Bool
  contains_node id = guarded bucket_mutex r (read λ b. found (find id b.nodes))

  unfoldable pub get_node : NodeId → Method KBucket (Option DhtNode)
  get_node id = guarded bucket_mutex r (read λ b. find id b.nodes)

  unfoldable pub get_nodes : Method KBucket (List DhtNode)
  get_nodes = guarded bucket_mutex r (read λ b. b.nodes)

  unfoldable pub last_updated : Method KBucket ℕ
  last_updated = guarded bucket_mutex r (read λ b. b.last_updated)

  push_node : ℕ → DhtNode → Method KBucket Bool
  push_node now node b =
      done (true, record b { nodes = b.nodes ++ (node ∷ []); last_updated = now })

  -- `is_full` and `contains_node` lock the mutex that is already held here.
  unfoldable pub add_node : ℕ → DhtNode → Method KBucket Bool
  unfolding is_full contains_node push_node
  add_node now node = guarded bucket_mutex r do
    full ← is_full
    branch full (pure false)
        do present ← contains_node node.id; branch present (pure false) (push_node now node)

  unfoldable pub remove_node : ℕ → NodeId → Method KBucket Bool
  remove_node now id = guarded bucket_mutex r λ b.
      if found (find id b.nodes)
      then done (true, record b { nodes = erase id b.nodes; last_updated = now })
      else done (false, b)

  unfoldable pub update_node : ℕ → DhtNode → Method KBucket Bool
  update_node now node = guarded bucket_mutex r λ b.
      if found (find node.id b.nodes)
      then done (true, record b { nodes = replace node b.nodes; last_updated = now })
      else done (false, b)

  unfoldable pub update_last_updated : ℕ → Method KBucket (Unit {0})
  update_last_updated now = guarded bucket_mutex r λ b. done (tt, record b { last_updated = now })
