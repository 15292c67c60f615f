-- ===== src/Dht/Session/Laws.antt =====
-- What a session answers, and what it does with answers.
use dht_hunter.Base.{
  ℕ, ◌<◌, ◌^◌, ◌≡◌, refl, ap, ◌⊎◌, inl, inr, true, false, List, [], ◌∷◌, ◌++◌, Option, none, some,
  length, ok, negative_char,
}
use dht_hunter.Types.NodeId.{NodeId, id_size}
use dht_hunter.Types.Node.{Endpoint}
use dht_hunter.Dht.Mutex.{Relock, Outcome, done, undefined}
use dht_hunter.Bencode.Decoder.{decode}
use dht_hunter.Dht.Message.{
  DhtPingMessage, MessageType, ping, ping_response, find_node, find_node_response, get_peers,
  get_peers_response, announce_peer, announce_peer_response, error, Dictionary, IsDictionary,
  make_ping, create_ping, create_ping_response, encode_ping, create_from_data,
}
use dht_hunter.Dht.Message.RoundTrip.{encode_ping-returns, create_from_data-encode_ping}
use dht_hunter.Dht.Message.Parsed.{create_from_data_lem}
use dht_hunter.Dht.Session.{
  DhtSession, find_lookup, handle_ping, dispatch, process, process_message, receive,
}

either : (A B C : Type 0) → A ⊎ B → A ⊎ (B ⊎ C)
either A B C (inl a) = inl a
either A B C (inr b) = inr (inl b)

module _ (d : Dictionary) (h : IsDictionary d) where
  -- A session answers a ping. Let one node encode a ping, and a session receive the bytes: whatever
  -- its lookups are, it sends one datagram, back to the sender, and changes nothing else; and what
  -- the sender's factory makes of the datagram is the response with the ping's transaction
  -- identifier and the session's node identifier. The bounds are those of reading back a ping.
  pub process_message-encode_ping :
      (r : Relock) (id : List ℕ) (node_id : NodeId) (sender : Endpoint) (s : DhtSession)
      → length id < 2 ^ 61
      → length node_id ≡ id_size
      → length s.node_id ≡ id_size
      → (query answer : List ℕ) × (encode_ping d (create_ping id node_id) ≡ ok query)
        × (process_message d r query sender s
            ≡ ok (done (record s { sent = s.sent ++ ((answer, sender) ∷ []) })))
        × (create_from_data d answer ≡ ok (some (create_ping_response id s.node_id)))
  unfolding process_message process dispatch handle_ping make_ping create_ping
  process_message-encode_ping r id node_id sender s short size own =
      let (query, encoded, read) = create_from_data-encode_ping d h id node_id false short size in
      let (answer, encoded', read') =
        create_from_data-encode_ping d h id s.node_id true short own in
      (query, answer, encoded, rw (read, encoded') refl, read')

  -- An answer to a ping is dropped: a session none of whose lookups has its transaction identifier
  -- is the same after it, with the same routing table. The bounds are those of reading back a ping.
  pub process_message-response :
      (r : Relock) (id : List ℕ) (node_id : NodeId) (sender : Endpoint) (s : DhtSession)
      → length id < 2 ^ 61
      → length node_id ≡ id_size
      → find_lookup id s.lookups ≡ none
      → (answer : List ℕ) × (encode_ping d (create_ping_response id node_id) ≡ ok answer)
        × (process_message d r answer sender s ≡ ok (done s))
  unfolding process_message process dispatch make_ping create_ping_response
  process_message-response r id node_id sender s short size idle =
      let (answer, encoded, read) = create_from_data-encode_ping d h id node_id true short size in
      (answer, encoded, rw (read, idle) refl)

  -- What became of a message, or of a datagram.
  abbrev Answers : Endpoint → DhtSession → Outcome DhtSession → Type 0
  Answers sender s o =
      (o ≡ done s)
      ⊎ ((id answer : List ℕ) × (encode_ping d (create_ping_response id s.node_id) ≡ ok answer)
          × (o ≡ done (record s { sent = s.sent ++ ((answer, sender) ∷ []) })))

  handle_ping_lem :
      (id : List ℕ) (sender : Endpoint) (s : DhtSession)
      → (answer : List ℕ) × (encode_ping d (create_ping_response id s.node_id) ≡ ok answer)
        × (handle_ping d id sender s ≡ ok (record s { sent = s.sent ++ ((answer, sender) ∷ []) }))
  unfolding handle_ping make_ping
  handle_ping_lem id sender s =
      let (answer, encoded) = encode_ping-returns d h id s.node_id true in
      (answer, encoded, rw encoded refl)

  process_cases :
      (r : Relock) (t : MessageType) (id : List ℕ) (n : NodeId) (sender : Endpoint) (s : DhtSession)
      → find_lookup id s.lookups ≡ none
      → (o : Outcome DhtSession) × (process d r
            (record { message = record { type = t; transaction_id = id }; node_id = n })
            sender
            s
          ≡ ok o)
        × Answers sender s o
  unfolding process dispatch
  process_cases r ping id n sender s idle =
      let (answer, encoded, handled) = handle_ping_lem id sender s in
      (
        done (record s { sent = s.sent ++ ((answer, sender) ∷ []) }),
        rw handled refl,
        inr (id, answer, encoded, refl),
      )
  process_cases r ping_response id n sender s idle = (done s, rw idle refl, inl refl)
  process_cases r find_node id n sender s idle = (done s, refl, inl refl)
  process_cases r find_node_response id n sender s idle = (done s, rw idle refl, inl refl)
  process_cases r get_peers id n sender s idle = (done s, refl, inl refl)
  process_cases r get_peers_response id n sender s idle = (done s, rw idle refl, inl refl)
  process_cases r announce_peer id n sender s idle = (done s, refl, inl refl)
  process_cases r announce_peer_response id n sender s idle = (done s, rw idle refl, inl refl)
  process_cases r error id n sender s idle = (done s, refl, inl refl)

  receive_created :
      (r : Relock) (bytes : List ℕ) (sender : Endpoint) (s : DhtSession)
      → s.lookups ≡ []
      → (m : Option DhtPingMessage) → create_from_data d bytes ≡ ok m
      → Answers sender s (receive d r bytes sender s)
  unfolding receive process_message
  receive_created r bytes sender s idle none created = rw (receive, created) (inl refl)
  receive_created r bytes sender s idle (some m) created =
      let (after, processed, answers) =
        process_cases r m.message.type m.message.transaction_id m.node_id sender s
          (ap (find_lookup m.message.transaction_id) idle) in
      rw (receive, created) (rw processed answers)

  -- Whatever datagram comes in, shorter than 2 ^ 63 bytes, a session without registered lookups
  -- goes on: it is the same after it, or it has sent one answer, back to the sender, with the
  -- encoding of a response to a ping from its own node identifier; or the decoder has called
  -- std::isdigit on a negative char, and only then the behaviour is undefined.
  pub receive_lem :
      (r : Relock) (bytes : List ℕ) (sender : Endpoint) (s : DhtSession)
      → length bytes < 2 ^ 63
      → s.lookups ≡ []
      → (receive d r bytes sender s ≡ done s)
        ⊎ (((id answer : List ℕ) × (encode_ping d (create_ping_response id s.node_id) ≡ ok answer)
              × (receive d r bytes sender s
                  ≡ done (record s { sent = s.sent ++ ((answer, sender) ∷ []) })))
            ⊎ ((decode bytes ≡ negative_char) × (receive d r bytes sender s ≡ undefined)))
  unfolding receive process_message
  receive_lem r bytes sender s short idle = elim (create_from_data_lem d h bytes short) [
    | inl (v, decoded, created) ↦ either _ _ _ (receive_created r bytes sender s idle _ created)
    | inr (inl (e, thrown, created)) ↦
        either _ _ _ (receive_created r bytes sender s idle _ created)
    | inr (inr (k, created)) ↦ inr (inr (k, rw (receive, created) refl))
  ]
