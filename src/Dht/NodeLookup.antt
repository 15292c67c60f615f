-- ===== src/Dht/NodeLookup.antt =====
-- modules/dht/src/node_lookup.cpp. The state has, besides the members of the class, the nodes to
-- which a find_node message has been sent, in order. `start` waits for other threads: here it ends
-- before the wait, in `open_lookup`, and what the threads do meanwhile is a list of events, each a
-- response or the end of a node's timeout. `held` says that the thread holds the lookup's mutex.
pub mod Order
pub mod Queries
pub mod Sections
pub mod Progress
pub mod Limits
pub mod Tests
use dht_hunter.Base.{
  ℕ, zero, suc, ◌+◌, ◌-◌, ◌%◌, ◌^◌, Bool, true, false, ◌&&◌, not, List, [], ◌∷◌, ◌++◌, Option, none,
  some, ltb, leb, ◌==◌, if◌then◌else◌, length,
}
use dht_hunter.Types.NodeId.{NodeId, distance}
use dht_hunter.Types.NodeId
use dht_hunter.Types.Node.{DhtNode, Endpoint, endpoint_eq}
use dht_hunter.Dht.Mutex.{
  Relock, Outcome, Method, Lockable, branch, guarded, done, stuck, undefined,
}
use dht_hunter.Dht.RoutingTable.{RoutingTable}
use dht_hunter.Dht.RoutingTable

abbrev pub alpha : ℕ
alpha = 3

abbrev pub max_results : ℕ
max_results = 8

abbrev pub max_timeouts : ℕ
max_timeouts = 2

pub data NodeState : Type 0 where
  unknown queried responded failed : NodeState

pub record NodeEntry : Type 0 where
  pub node : DhtNode
  pub state : NodeState
  pub timeouts : ℕ

pub record NodeLookup : Type 0 where
  pub local_id : NodeId
  pub target_id : NodeId
  pub nodes : List NodeEntry
  pub active_queries : ℕ
  pub complete : Bool
  pub sent : List DhtNode
  pub held : Bool

abbrev pub lookup_mutex : Lockable NodeLookup
lookup_mutex = record { held = λ l. l.held; set_held = λ h l. record l { held = h } }

unfoldable pub make_lookup : NodeId → NodeId → NodeLookup
make_lookup local_id target_id = record {
  local_id = local_id;
  target_id = target_id;
  nodes = [];
  active_queries = 0;
  complete = false;
  sent = [];
  held = false;
}

-- The tests that the searches make on an entry.
abbrev pub in_state : NodeState → NodeState → Bool
in_state unknown unknown = true
in_state queried queried = true
in_state responded responded = true
in_state failed failed = true
in_state _ _ = false

abbrev pub has_id : NodeId → NodeEntry → Bool
has_id id e = NodeId.eq e.node.id id

abbrev pub at_endpoint : Endpoint → NodeEntry → Bool
at_endpoint endpoint e = endpoint_eq e.node.endpoint endpoint

-- std::find_if, and a change made through the iterator that it returns.
unfoldable pub find_entry : (NodeEntry → Bool) → List NodeEntry → Option NodeEntry
find_entry test [] = none
find_entry test (e ∷ es) = if test e then some e else find_entry test es

unfoldable pub update_entry :
    (NodeEntry → Bool) → (NodeEntry → NodeEntry) → List NodeEntry → List NodeEntry
update_entry test change [] = []
update_entry test change (e ∷ es) =
    if test e then change e ∷ es else e ∷ update_entry test change es

unfoldable pub compare_distance : NodeId → NodeEntry → NodeEntry → Bool
compare_distance target a b = NodeId.lt (distance a.node.id target) (distance b.node.id target)

-- std::sort by the distance to the target. No two entries are at the same distance, so that every
-- sorting algorithm gives the same result; this one is by insertion.
unfoldable pub insert_entry : NodeId → NodeEntry → List NodeEntry → List NodeEntry
insert_entry target a [] = a ∷ []
insert_entry target a (b ∷ es) =
    if compare_distance target b a then b ∷ insert_entry target a es else a ∷ b ∷ es

unfoldable pub sort_entries : NodeId → List NodeEntry → List NodeEntry
sort_entries target [] = []
sort_entries target (e ∷ es) = insert_entry target e (sort_entries target es)

abbrev pub present : Option NodeEntry → Bool
present none = false
present (some e) = true

unfoldable pub add_node : DhtNode → NodeLookup → NodeLookup
add_node node l =
    if NodeId.eq node.id l.local_id
    then l
    else if present (find_entry (has_id node.id) l.nodes)
    then l
    else record l {
      nodes =
          sort_entries l.target_id
            (l.nodes ++ (record { node = node; state = unknown; timeouts = 0 } ∷ []));
    }

unfoldable pub add_nodes : List DhtNode → NodeLookup → NodeLookup
add_nodes [] l = l
add_nodes (n ∷ ns) l = add_nodes ns (add_node n l)

-- The loop that appends what it finds to a vector, and breaks when the vector has `count` elements.
-- `test` sees the vector too.
unfoldable pub gather :
    {A : Type 0}
    → (List A → NodeEntry → Bool)
    → (NodeEntry → A)
    → ℕ
    → List NodeEntry
    → List A
    → List A
gather test get count [] result = result
gather test get count (e ∷ es) result = elim (test result e) [
  | false ↦ gather test get count es result
  | true ↦ elim (leb count (length (result ++ (get e ∷ [])))) [
    | true ↦ result ++ (get e ∷ [])
    | false ↦ gather test get count es (result ++ (get e ∷ []))
  ]
]

abbrev pub unqueried : {A : Type 0} → A → NodeEntry → Bool
unqueried _ e = in_state unknown e.state && ltb e.timeouts max_timeouts

unfoldable pub get_closest_unqueried_nodes : ℕ → NodeLookup → List DhtNode
get_closest_unqueried_nodes count l = gather unqueried (λ e. e.node) count l.nodes []

abbrev pub has_responded : {A : Type 0} → A → NodeEntry → Bool
has_responded _ e = in_state responded e.state

-- `closest.back()`, and the loop over the unqueried nodes.
unfoldable pub none_closer : NodeId → NodeEntry → List NodeEntry → Bool
none_closer target furthest [] = true
none_closer target furthest (e ∷ es) =
    not (in_state unknown e.state && compare_distance target e furthest)
    && none_closer target furthest es

abbrev pub last : {A : Type 0} → List A → Option A
last [] = none
last (x ∷ []) = some x
last (x ∷ y ∷ ys) = last (y ∷ ys)

abbrev pub converged_at : NodeLookup → Option NodeEntry → Bool
converged_at l none = false
converged_at l (some furthest) = none_closer l.target_id furthest l.nodes

unfoldable pub has_converged : NodeLookup → Bool
has_converged l =
    let closest = gather has_responded (λ e. e) max_results l.nodes [] in
    if ltb (length closest) max_results then false else converged_at l (last closest)

-- The nodes that responded, and then those not queried yet that are not among them.
abbrev pub not_listed : List DhtNode → NodeEntry → Bool
not_listed [] e = in_state unknown e.state
not_listed (n ∷ ns) e = not (NodeId.eq n.id e.node.id) && not_listed ns e

unfoldable pub closest_nodes : NodeLookup → List DhtNode
closest_nodes l =
    let result = gather has_responded (λ e. e.node) max_results l.nodes [] in
    if ltb (length result) max_results
    then gather not_listed (λ e. e.node) max_results l.nodes result
    else result

unfoldable pub get_closest_nodes : Relock → Method NodeLookup (List DhtNode)
unfolding closest_nodes
get_closest_nodes r = guarded lookup_mutex r λ l. done (closest_nodes l, l)

-- active_queries_ is a std::atomic<size_t>.
abbrev pub increment : ℕ → ℕ
increment n = (n + 1) % 2 ^ 64

abbrev pub decrement : ℕ → ℕ
decrement n = (n + 2 ^ 64 - 1) % 2 ^ 64

abbrev pub in_state? : NodeState → Option NodeEntry → Bool
in_state? s none = false
in_state? s (some e) = in_state s e.state

abbrev pub set_state : NodeState → NodeEntry → NodeEntry
set_state s e = record e { state = s }

unfoldable pub send_query : DhtNode → NodeLookup → Bool × NodeLookup
send_query node l =
    if in_state? unknown (find_entry (has_id node.id) l.nodes)
    then (
      true,
      record l {
        nodes = update_entry (has_id node.id) (set_state queried) l.nodes;
        sent = l.sent ++ (node ∷ []);
      },
    )
    else (false, l)

abbrev pub count_sent : Bool × NodeLookup → NodeLookup
count_sent (true, l) = record l { active_queries = increment l.active_queries }
count_sent (false, l) = l

unfoldable pub send_each : List DhtNode → NodeLookup → NodeLookup
send_each [] l = l
send_each (n ∷ ns) l = send_each ns (count_sent (send_query n l))

-- `if (active_queries_ == 0) { complete_ = true; cv_.notify_all(); }`
unfoldable pub finish_if_idle : NodeLookup → NodeLookup
finish_if_idle l = if l.active_queries == 0 then record l { complete = true } else l

-- ALPHA - active_queries_, in 64 bits.
abbrev pub free_slots : NodeLookup → ℕ
free_slots l = (alpha + 2 ^ 64 - l.active_queries) % 2 ^ 64

unfoldable pub query_more : NodeLookup → NodeLookup
query_more l = finish_if_idle (send_each (get_closest_unqueried_nodes (free_slots l) l) l)

unfoldable pub send_queries : Relock → Method NodeLookup (Unit {0})
unfolding query_more
send_queries r = guarded lookup_mutex r λ l. done (tt, query_more l)

-- The end of `process_response` and of a timeout, under the lock.
unfoldable pub continue_lookup : Relock → Method NodeLookup (Unit {0})
unfolding finish_if_idle
continue_lookup r l =
    branch (not l.complete && not (has_converged l)) (send_queries r)
      (λ l. done (tt, finish_if_idle l)) l

unfoldable pub mark_responded : Endpoint → NodeLookup → NodeLookup
mark_responded endpoint l = record l {
  nodes = update_entry (at_endpoint endpoint) (set_state responded) l.nodes;
  active_queries = decrement l.active_queries;
}

-- The response's own nodes are not read yet: the vector that is added is empty.
unfoldable pub process_response : Relock → Endpoint → Method NodeLookup (Unit {0})
process_response r endpoint = guarded lookup_mutex r λ l.
    if present (find_entry (at_endpoint endpoint) l.nodes)
    then continue_lookup r (add_nodes [] (mark_responded endpoint l))
    else done (tt, l)

abbrev pub time_out : NodeEntry → NodeEntry
time_out e = record e {
  state = if leb max_timeouts (suc e.timeouts) then failed else unknown;
  timeouts = suc e.timeouts;
}

unfoldable pub mark_timed_out : NodeId → NodeLookup → NodeLookup
mark_timed_out id l = record l {
  nodes = update_entry (has_id id) time_out l.nodes;
  active_queries = decrement l.active_queries;
}

-- What the thread that `send_query` starts does after its sleep.
unfoldable pub process_timeout : Relock → NodeId → Method NodeLookup (Unit {0})
process_timeout r id = guarded lookup_mutex r λ l.
    if in_state? queried (find_entry (has_id id) l.nodes)
    then continue_lookup r (mark_timed_out id l)
    else done (tt, l)

-- `start` up to its wait.
unfoldable pub open_lookup : Relock → RoutingTable → Method NodeLookup (Unit {0})
open_lookup r table l = elim (RoutingTable.get_closest_nodes r l.target_id max_results table) [
  | stuck ↦ stuck
  | undefined ↦ undefined
  | done (initial, _) ↦ send_queries r (add_nodes initial l)
]

pub data Event : Type 0 where
  response : Endpoint → Event
  timeout : NodeId → Event

unfoldable pub handle : Relock → Event → Method NodeLookup (Unit {0})
handle r (response endpoint) = process_response r endpoint
handle r (timeout id) = process_timeout r id
