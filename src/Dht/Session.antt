-- ===== src/Dht/Session.antt =====
-- modules/dht/src/dht_session.cpp. The state has, besides the members of the class, the datagrams
-- that were sent, each with its receiver, in order. `start` is modelled up to the bootstrap; whether
-- the socket could be bound is an argument. The thread that receives is a sequence of calls of
-- `receive`. lookups_mutex_ guards single accesses, and is left out.
pub mod Laws
pub mod Tests
use dht_hunter.Base.{
  ℕ, Bool, true, false, List, [], ◌∷◌, ◌++◌, Option, none, some, if◌then◌else◌, bytes_eq, Result,
  ok, throw, undefined, negative_char, out_of_fuel, ◌>>=◌,
}
use dht_hunter.Base
use dht_hunter.Types.NodeId.{NodeId}
use dht_hunter.Types.Node.{Endpoint}
use dht_hunter.Dht.Mutex.{Relock, Outcome, done, stuck}
use dht_hunter.Dht.Mutex
use dht_hunter.Dht.NodeLookup.{NodeLookup, process_response}
use dht_hunter.Dht.RoutingTable.{RoutingTable, make_table}
use dht_hunter.Dht.Message.{
  ping, find_node, get_peers, announce_peer, DhtPingMessage, Dictionary, is_response,
  create_ping_response, encode_ping, create_from_data,
}

pub record DhtSession : Type 0 where
  pub node_id : NodeId
  pub port : ℕ
  pub running : Bool
  pub routing_table : RoutingTable
  pub lookups : List (List ℕ × NodeLookup)
  pub sent : List (List ℕ × Endpoint)

-- `now` is the clock's reading.
unfoldable pub make_session : ℕ → NodeId → ℕ → DhtSession
make_session now node_id port = record {
  node_id = node_id;
  port = port;
  running = false;
  routing_table = make_table now node_id;
  lookups = [];
  sent = [];
}

-- `none` where `start` returns false.
unfoldable pub start : Bool → DhtSession → Option DhtSession
start bound s =
    if s.running then none else if bound then some (record s { running = true }) else none

unfoldable pub stop : DhtSession → DhtSession
stop s = if s.running then record s { running = false } else s

-- `lookups_.find`, and the map where the entry found there has changed.
abbrev pub find_lookup : List ℕ → List (List ℕ × NodeLookup) → Option NodeLookup
find_lookup id [] = none
find_lookup id ((i, l) ∷ m) = if bytes_eq i id then some l else find_lookup id m

abbrev pub set_lookup :
    List ℕ → NodeLookup → List (List ℕ × NodeLookup) → List (List ℕ × NodeLookup)
set_lookup id l [] = []
set_lookup id l ((i, k) ∷ m) = if bytes_eq i id then (i, l) ∷ m else (i, k) ∷ set_lookup id l m

-- `it->second->process_response(message, sender_endpoint)`.
unfoldable pub respond : Relock → List ℕ → Endpoint → NodeLookup → DhtSession → Outcome DhtSession
respond r id sender l s = elim (process_response r sender l) [
  | done (_, l') ↦ done (record s { lookups = set_lookup id l' s.lookups })
  | stuck ↦ stuck
  | Mutex.undefined ↦ Mutex.undefined
]

module _ (d : Dictionary) where
  unfoldable pub handle_ping : List ℕ → Endpoint → DhtSession → Result DhtSession
  handle_ping id sender s = do
    bytes ← encode_ping d (create_ping_response id s.node_id)
    ok (record s { sent = s.sent ++ ((bytes, sender) ∷ []) })

  -- handle_find_node, handle_get_peers and handle_announce_peer are empty.
  unfoldable pub dispatch : DhtPingMessage → Endpoint → DhtSession → Result DhtSession
  unfolding handle_ping
  dispatch m sender s = elim m.message.type [
    | ping ↦ handle_ping m.message.transaction_id sender s
    | find_node ↦ ok s
    | get_peers ↦ ok s
    | announce_peer ↦ ok s
    | _ ↦ ok s
  ]

  abbrev pub returned : Result DhtSession → Result (Outcome DhtSession)
  returned m = m >>= λ s. ok (done s)

  -- What is done with a message.
  unfoldable pub process :
      Relock → DhtPingMessage → Endpoint → DhtSession → Result (Outcome DhtSession)
  unfolding dispatch respond
  process r m sender s =
      if is_response m.message.type
      then elim (find_lookup m.message.transaction_id s.lookups) [
        | some l ↦ ok (respond r m.message.transaction_id sender l s)
        | none ↦ returned (dispatch m sender s)
      ]
      else returned (dispatch m sender s)

  unfoldable pub process_message :
      Relock → List ℕ → Endpoint → DhtSession → Result (Outcome DhtSession)
  unfolding process
  process_message r bytes sender s = create_from_data d bytes >>= λ o. elim o [
    | none ↦ ok (done s)
    | some m ↦ process r m sender s
  ]

  -- One round of the receive loop, which ignores exceptions.
  unfoldable pub receive : Relock → List ℕ → Endpoint → DhtSession → Outcome DhtSession
  receive r bytes sender s = elim (process_message r bytes sender s) [
    | ok o ↦ o
    | throw e ↦ done s
    | Base.undefined ↦ Mutex.undefined
    | negative_char ↦ Mutex.undefined
    | out_of_fuel ↦ Mutex.undefined
  ]
