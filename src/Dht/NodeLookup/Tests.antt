-- ===== src/Dht/NodeLookup/Tests.antt =====
-- Runs of a lookup, and instances of its theorems.
use dht_hunter.Base.{
  ◌+◌, ◌*◌, ◌≤◌, ◌≡◌, refl, true, false, List, [], ◌∷◌, length, replicate, bytes_eq, bytes_lt, some,
  arith, ℕ,
}
use dht_hunter.Base.Text.{codes}
use dht_hunter.Types.NodeId.{NodeId, distance}
use dht_hunter.Types.NodeId
use dht_hunter.Types.Node.{DhtNode, Endpoint, ipv4, endpoint_eq}
use dht_hunter.Types.Node
use dht_hunter.Dht.Mutex.{blocks, passes, done, stuck}
use dht_hunter.Dht.RoutingTable.Sort.{IsSorted}
use dht_hunter.Dht.NodeLookup.{
  NodeState, unknown, queried, responded, NodeEntry, NodeLookup, make_lookup, add_node, add_nodes,
  find_entry, update_entry, compare_distance, insert_entry, sort_entries, gather,
  get_closest_unqueried_nodes, has_converged, closest_nodes, send_query, send_each, finish_if_idle,
  query_more, send_queries, continue_lookup, mark_responded, process_response, mark_timed_out,
  process_timeout, response, timeout, handle, get_closest_nodes,
}
use dht_hunter.Dht.NodeLookup.Queries.{nodes_of, attempts}
use dht_hunter.Dht.NodeLookup.Order.{known}
use dht_hunter.Dht.NodeLookup.Progress.{Reach, here, next, lookup_bounded, lookup-IsSorted}
use dht_hunter.Dht.NodeLookup.Limits.{process_response-blocks}

abbrev local : NodeId
local = replicate 20 0

abbrev target : NodeId
target = replicate 20 255

abbrev at_port : ℕ → Endpoint
at_port port = record { address = codes "10.0.0.7"; port = port; address_type = ipv4 }

abbrev node_at : ℕ → ℕ → DhtNode
node_at b port = record {
  id = replicate 20 b;
  endpoint = at_port port;
  status = Node.unknown;
  last_seen = 0;
}

abbrev near : DhtNode
near = node_at 250 6881

abbrev far : DhtNode
far = node_at 3 6882

abbrev entry_of : DhtNode → NodeState → ℕ → NodeEntry
entry_of node state timeouts = record { node = node; state = state; timeouts = timeouts }

abbrev lookup_with : List NodeEntry → ℕ → List DhtNode → NodeLookup
lookup_with entries active sent = record {
  local_id = local;
  target_id = target;
  nodes = entries;
  active_queries = active;
  complete = false;
  sent = sent;
  held = false;
}

abbrev opened : NodeLookup
opened = lookup_with (entry_of near queried 0 ∷ entry_of far queried 0 ∷ []) 2 (near ∷ far ∷ [])

started :
    send_queries passes (add_nodes (far ∷ near ∷ []) (make_lookup local target)) ≡ done (tt, opened)
unfolding send_queries query_more finish_if_idle send_each send_query get_closest_unqueried_nodes
    gather add_nodes add_node make_lookup find_entry update_entry sort_entries insert_entry
    compare_distance NodeId.eq NodeId.lt distance bytes_eq bytes_lt
started = refl

abbrev answered : NodeLookup
answered = lookup_with (entry_of near responded 0 ∷ entry_of far queried 0 ∷ []) 1 (near ∷ far ∷ [])

answered_step : handle passes (response (at_port 6881)) opened ≡ done (tt, answered)
unfolding handle process_response continue_lookup send_queries query_more finish_if_idle send_each
    get_closest_unqueried_nodes gather add_nodes find_entry update_entry mark_responded
    has_converged endpoint_eq bytes_eq
answered_step = refl

-- The far node's timeout ends, and it is queried again.
abbrev retried : NodeLookup
retried =
    lookup_with (entry_of near responded 0 ∷ entry_of far queried 1 ∷ []) 1 (near ∷ far ∷ far ∷ [])

retried_step : handle passes (timeout far.id) answered ≡ done (tt, retried)
unfolding handle process_timeout continue_lookup send_queries query_more finish_if_idle send_each
    send_query get_closest_unqueried_nodes gather find_entry update_entry mark_timed_out
    has_converged NodeId.eq bytes_eq
retried_step = refl

reached : Reach passes opened retried
reached = next (timeout far.id) (next (response (at_port 6881)) here answered_step) retried_step

-- With the mutex of the code, the section of `start` returns, and so does a response from a stranger.
started_blocking :
    send_queries blocks (add_nodes (far ∷ near ∷ []) (make_lookup local target)) ≡ done (tt, opened)
unfolding send_queries query_more finish_if_idle send_each send_query get_closest_unqueried_nodes
    gather add_nodes add_node make_lookup find_entry update_entry sort_entries insert_entry
    compare_distance NodeId.eq NodeId.lt distance bytes_eq bytes_lt
started_blocking = refl

stray_step : handle blocks (response (at_port 9)) opened ≡ done (tt, opened)
unfolding handle process_response find_entry endpoint_eq bytes_eq
stray_step = refl

near_first :
    find_entry (λ e. endpoint_eq e.node.endpoint (at_port 6881)) opened.nodes
    ≡ some (entry_of near queried 0)
unfolding find_entry endpoint_eq bytes_eq
near_first = refl

results : get_closest_nodes blocks retried ≡ done (near ∷ [], retried)
unfolding get_closest_nodes closest_nodes gather NodeId.eq bytes_eq
results = refl

lookup_bounded_example : length retried.sent + attempts retried.nodes ≤ 2 * length (far ∷ near ∷ [])
lookup_bounded_example =
    lookup_bounded passes local target (far ∷ near ∷ []) opened retried (omega arith) started
      reached

lookup-IsSorted_example : IsSorted opened.target_id (nodes_of opened.nodes)
lookup-IsSorted_example =
    lookup-IsSorted blocks local target (far ∷ near ∷ []) opened opened (omega arith)
      started_blocking (next (response (at_port 9)) here stray_step)

new_node : NodeId.eq (node_at 77 9).id retried.local_id ≡ false
unfolding NodeId.eq bytes_eq
new_node = refl

not_known : known (node_at 77 9) retried ≡ false
unfolding find_entry NodeId.eq bytes_eq
not_known = refl

not_converged :
    has_converged (mark_responded (at_port 6881) (record opened { held = true })) ≡ false
unfolding has_converged mark_responded gather update_entry endpoint_eq bytes_eq
not_converged = refl

-- Three queries are active, and one entry is unknown.
abbrev full : NodeLookup
full =
    lookup_with
      (entry_of near queried 0
        ∷ entry_of (node_at 200 1) queried 0
        ∷ entry_of (node_at 100 2) queried 0
        ∷ entry_of far unknown 0
        ∷ [])
      3 []

process_response-blocks_example : process_response blocks (at_port 6881) opened ≡ stuck
process_response-blocks_example =
    process_response-blocks (at_port 6881) opened (entry_of near queried 0) refl near_first refl
      not_converged
