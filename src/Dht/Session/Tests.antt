-- ===== src/Dht/Session/Tests.antt =====
-- Instances of the theorems on sessions.
use dht_hunter.Base.{
  negative_char, ℕ, ◌≡◌, refl, ◌⊎◌, true, List, [], ◌∷◌, ◌++◌, some, replicate, ok, arith,
}
use dht_hunter.Base.Text.{codes}
use dht_hunter.Types.Node.{Endpoint, ipv4}
use dht_hunter.Bencode.Decoder.{decode}
use dht_hunter.Dht.Mutex.{undefined, blocks, done}
use dht_hunter.Dht.RoutingTable.{make_table}
use dht_hunter.Dht.Message.{create_ping, create_ping_response, encode_ping, create_from_data}
use dht_hunter.Dht.Message.Tests.{members, members-IsDictionary, id}
use dht_hunter.Dht.Session.{DhtSession, process_message, receive}
use dht_hunter.Dht.Session.Laws.{process_message-encode_ping, process_message-response, receive_lem}

abbrev peer : Endpoint
peer = record { address = codes "10.0.0.7"; port = 6881; address_type = ipv4 }

abbrev session : DhtSession
session = record {
  node_id = replicate 20 98;
  port = 6881;
  running = true;
  routing_table = make_table 0 (replicate 20 98);
  lookups = [];
  sent = [];
}

process_message-encode_ping_example :
    (query answer : List ℕ) × (encode_ping members (create_ping (codes "xy") id) ≡ ok query)
    × (process_message members blocks query peer session
        ≡ ok (done (record session { sent = session.sent ++ ((answer, peer) ∷ []) })))
    × (create_from_data members answer
        ≡ ok (some (create_ping_response (codes "xy") session.node_id)))
process_message-encode_ping_example =
    process_message-encode_ping members members-IsDictionary blocks (codes "xy") id peer session
      (omega arith) refl refl

process_message-response_example :
    (answer : List ℕ) × (encode_ping members (create_ping_response (codes "xy") id) ≡ ok answer)
    × (process_message members blocks answer peer session ≡ ok (done session))
process_message-response_example =
    process_message-response members members-IsDictionary blocks (codes "xy") id peer session
      (omega arith) refl refl

receive_lem_example :
    (receive members blocks (codes "i7e") peer session ≡ done session)
    ⊎ (((id answer : List ℕ) × (encode_ping members (create_ping_response id session.node_id)
            ≡ ok answer)
          × (receive members blocks (codes "i7e") peer session
              ≡ done (record session { sent = session.sent ++ ((answer, peer) ∷ []) })))
        ⊎ ((decode (codes "i7e") ≡ negative_char)
            × (receive members blocks (codes "i7e") peer session ≡ undefined)))
receive_lem_example =
    receive_lem members members-IsDictionary blocks (codes "i7e") peer session (omega arith) refl
