-- ===== src/Dht/NodeLookup/Progress.antt =====
-- What a lookup does while responses and timeouts come in.
use dht_hunter.Base.{◌+◌, ◌*◌, ◌≤◌, ◌≡◌, List, length, arith}
use dht_hunter.Types.NodeId.{NodeId}
use dht_hunter.Types.Node.{DhtNode}
use dht_hunter.Dht.Mutex.{Relock, done}
use dht_hunter.Dht.RoutingTable.Sort.{IsSorted}
use dht_hunter.Dht.NodeLookup.{
  max_results, NodeLookup, add_nodes, send_queries, Event, handle, make_lookup,
}
use dht_hunter.Dht.NodeLookup.Queries.{nodes_of, attempts, Keeps-trans}
use dht_hunter.Dht.NodeLookup.Order.{IsNew, IsNew-IsSound, add_nodes-IsNew, make_lookup-IsNew}
use dht_hunter.Dht.NodeLookup.Sections.{IsRunning, handle-IsRunning, send_queries-IsRunning}

-- Responses and timeouts, in any order, each of which was handled by a call that returned. A
-- response may come from anybody, late, and more than once.
pub data Reach (r : Relock) (l : NodeLookup) : NodeLookup → Type 0 where
  here : Reach r l l
  next :
      {m n : NodeLookup} (event : Event)
      → Reach r l m
      → handle r event m ≡ done (tt, n)
      → Reach r l n

Reach-IsRunning : (r : Relock) {l m n : NodeLookup} → IsRunning l m → Reach r m n → IsRunning l n
Reach-IsRunning r h here = h
Reach-IsRunning r {l} {m} {n} h (next {m = k} event path d) =
    let before = Reach-IsRunning r h path in
    let step = handle-IsRunning r event k n before.free before.kept.sound d in
    record { kept = Keeps-trans l k n before.kept step.kept; free = step.free }

-- What is known of a lookup at any time after it was started with `ns`.
running :
    (r : Relock) (local_id target_id : NodeId) (ns : List DhtNode) (l l' : NodeLookup)
    → length ns ≤ max_results
    → send_queries r (add_nodes ns (make_lookup local_id target_id)) ≡ done (tt, l)
    → Reach r l l'
    → IsRunning (add_nodes ns (make_lookup local_id target_id)) l'
      × IsNew (length ns + 0) (add_nodes ns (make_lookup local_id target_id))
running r local_id target_id ns l l' few d path =
    let opened = add_nodes ns (make_lookup local_id target_id) in
    let new =
      add_nodes-IsNew ns 0 (make_lookup local_id target_id)
        (make_lookup-IsNew local_id target_id) in
    let (sound, _) = IsNew-IsSound (length ns + 0) opened new (omega (arith, few)) in
    (Reach-IsRunning r (send_queries-IsRunning r opened l new.free sound d) path, new)

-- With any mutex, let a lookup be started with at most eight nodes, and let any responses and
-- timeouts follow, in any order, as long as the calls that handle them return. Then the lookup has
-- sent at most two queries for each node that it was started with: the messages sent, and the
-- attempts still left, are together at most twice the nodes.
pub lookup_bounded :
    (r : Relock) (local_id target_id : NodeId) (ns : List DhtNode) (l l' : NodeLookup)
    → length ns ≤ max_results
    → send_queries r (add_nodes ns (make_lookup local_id target_id)) ≡ done (tt, l)
    → Reach r l l'
    → length l'.sent + attempts l'.nodes ≤ 2 * length ns
lookup_bounded r local_id target_id ns l l' few d path =
    let (run, new) = running r local_id target_id ns l l' few d path in
    let (_, left) =
      IsNew-IsSound (length ns + 0) (add_nodes ns (make_lookup local_id target_id)) new
        (omega (arith, few)) in
    omega (arith, run.kept.bound, left)

-- With any mutex, at any time after a start with at most eight nodes, and after any responses and
-- timeouts handled by calls that return, the entries stand in the order of their distance to the
-- target.
pub lookup-IsSorted :
    (r : Relock) (local_id target_id : NodeId) (ns : List DhtNode) (l l' : NodeLookup)
    → length ns ≤ max_results
    → send_queries r (add_nodes ns (make_lookup local_id target_id)) ≡ done (tt, l)
    → Reach r l l'
    → IsSorted l'.target_id (nodes_of l'.nodes)
lookup-IsSorted r local_id target_id ns l l' few d path =
    let (run, new) = running r local_id target_id ns l l' few d path in
    rw run.kept.target (rw run.kept.entries new.sorted)
