-- ===== src/Dht/NodeLookup/Limits.antt =====
-- Where a lookup stops, and where it exceeds its own limit.
use dht_hunter.Base.{◌≡◌, refl, true, false, not, ◌&&◌, some}
use dht_hunter.Types.Node.{Endpoint}
use dht_hunter.Dht.Mutex.{blocks, stuck}
use dht_hunter.Dht.NodeLookup.{
  NodeEntry, NodeLookup, at_endpoint, find_entry, add_nodes, has_converged, send_queries,
  continue_lookup, mark_responded, process_response,
}
use dht_hunter.Dht.NodeLookup.Sections.{locked, responded_held}

continue_lookup-blocks :
    (l : NodeLookup)
    → l.held ≡ true
    → (not l.complete && not (has_converged l)) ≡ true
    → continue_lookup blocks l ≡ stuck
unfolding continue_lookup send_queries
continue_lookup-blocks l h more = rw more (rw h refl)

responded_complete :
    (endpoint : Endpoint) (l : NodeLookup)
    → (mark_responded endpoint (locked l)).complete ≡ l.complete
unfolding mark_responded
responded_complete endpoint l = refl

-- With a mutex that blocks its holder, a response from a node of the lookup never returns while the
-- lookup is not complete and, with this response, has not converged: `process_response` holds the
-- mutex when it calls `send_queries`, which locks it again.
pub process_response-blocks :
    (endpoint : Endpoint) (l : NodeLookup) (e : NodeEntry)
    → l.held ≡ false
    → find_entry (at_endpoint endpoint) l.nodes ≡ some e
    → l.complete ≡ false
    → has_converged (mark_responded endpoint (locked l)) ≡ false
    → process_response blocks endpoint l ≡ stuck
unfolding process_response add_nodes
process_response-blocks endpoint l e free h running c = rw free (
    rw h (
      rw
        (continue_lookup-blocks (mark_responded endpoint (locked l)) (responded_held endpoint l)
          (rw c (rw (responded_complete endpoint l) (rw running refl))))
        refl))
