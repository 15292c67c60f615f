-- ===== src/Dht/Message.antt =====
-- modules/dht/src/dht_message.cpp and dht_message_factory.cpp: the messages of the DHT and their
-- factory. They call members of BencodeValue that the repository does not declare
-- (`dictionary_set`, `is_dictionary`, ...). These are the parameter `Dictionary`, and
-- `IsDictionary` is what their names promise of a std::map of values. A null pointer is `none`.
pub mod Parsed
pub mod RoundTrip
pub mod Tests
use dht_hunter.Base.{
  ℕ, ◌≡◌, Bool, true, false, ◌||◌, ◌&&◌, List, [], Option, none, some, if◌then◌else◌, bytes_eq,
  Result, ok, throw, undefined, negative_char, out_of_fuel, ◌>>=◌,
}
use dht_hunter.Base.Text.{codes}
use dht_hunter.Bencode.Value.{
  Value, Fields, string, dict, end, find, insert, found, is_string, is_dict,
}
use dht_hunter.Bencode.Encoder.{encode}
use dht_hunter.Bencode.Decoder.{decode}
use dht_hunter.Types.NodeId.{NodeId, from_bytes}

pub data MessageType : Type 0 where
  ping ping_response find_node find_node_response get_peers get_peers_response : MessageType
  announce_peer announce_peer_response error : MessageType

pub record DhtMessage : Type 0 where
  pub type : MessageType
  pub transaction_id : List ℕ

-- The one class of messages that is there besides the base class.
pub record DhtPingMessage : Type 0 where
  pub message : DhtMessage
  pub node_id : NodeId

pub record Dictionary : Type 0 where
  pub create_dictionary : Value
  pub is_dictionary : Value → Bool
  pub dictionary_contains : List ℕ → Value → Bool
  pub dictionary_get : List ℕ → Value → Result Value
  pub dictionary_set : List ℕ → Value → Value → Result Value
  pub string_value : Value → Result (List ℕ)

pub record IsDictionary (d : Dictionary) : Type 0 where
  pub created : d.create_dictionary ≡ dict end
  pub kind : (v : Value) → d.is_dictionary v ≡ is_dict v
  pub contained : (k : List ℕ) (fs : Fields) → d.dictionary_contains k (dict fs) ≡ found (find k fs)
  pub got :
      (k : List ℕ) (fs : Fields) (v : Value)
      → find k fs ≡ some v
      → d.dictionary_get k (dict fs) ≡ ok v
  pub put :
      (k : List ℕ) (v : Value) (fs : Fields)
      → d.dictionary_set k v (dict fs) ≡ ok (dict (insert k v fs))
  pub text : (s : List ℕ) → d.string_value (string s) ≡ ok s

abbrev pub is_query : MessageType → Bool
is_query t = elim t [
  | ping ↦ true
  | find_node ↦ true
  | get_peers ↦ true
  | announce_peer ↦ true
  | _ ↦ false
]

abbrev pub is_response : MessageType → Bool
is_response t = elim t [
  | ping_response ↦ true
  | find_node_response ↦ true
  | get_peers_response ↦ true
  | announce_peer_response ↦ true
  | _ ↦ false
]

unfoldable pub create_ping : List ℕ → NodeId → DhtPingMessage
create_ping id node_id = record {
  message = record { type = ping; transaction_id = id };
  node_id = node_id;
}

unfoldable pub create_ping_response : List ℕ → NodeId → DhtPingMessage
create_ping_response id node_id = record {
  message = record { type = ping_response; transaction_id = id };
  node_id = node_id;
}

-- DHTPingMessage(transaction_id, node_id, is_response).
unfoldable pub make_ping : List ℕ → NodeId → Bool → DhtPingMessage
unfolding create_ping create_ping_response
make_ping id node_id response =
    if response then create_ping_response id node_id else create_ping id node_id

-- try { a = m; } catch (const std::exception&) { return nullptr; }, and the rest.
abbrev pub caught : {A B : Type 0} → Result A → (A → Result (Option B)) → Result (Option B)
caught (ok a) rest = rest a
caught (throw e) rest = ok none
caught undefined rest = undefined
caught negative_char rest = negative_char
caught out_of_fuel rest = out_of_fuel

-- The rest, where no null pointer was returned so far.
abbrev pub or_null :
    {A B : Type 0} → Result (Option A) → (A → Result (Option B)) → Result (Option B)
or_null m rest = m >>= λ o. elim o [ none ↦ ok none | some a ↦ rest a ]

module _ (d : Dictionary) where
  open d use {
    create_dictionary, is_dictionary, dictionary_contains, dictionary_get, dictionary_set,
    string_value,
  }

  -- Message type (y).
  unfoldable pub add_kind : MessageType → Value → Result Value
  add_kind t v =
      if is_query t
      then dictionary_set (codes "y") (string (codes "q")) v
      else if is_response t
      then dictionary_set (codes "y") (string (codes "r")) v
      else dictionary_set (codes "y") (string (codes "e")) v

  -- Query type (q) for queries.
  unfoldable pub add_query : MessageType → Value → Result Value
  add_query t v = elim t [
    | ping ↦ dictionary_set (codes "q") (string (codes "ping")) v
    | find_node ↦ dictionary_set (codes "q") (string (codes "find_node")) v
    | get_peers ↦ dictionary_set (codes "q") (string (codes "get_peers")) v
    | announce_peer ↦ dictionary_set (codes "q") (string (codes "announce_peer")) v
    | _ ↦ ok v
  ]

  unfoldable pub add_common_fields : DhtMessage → Value → Result Value
  unfolding add_kind add_query
  add_common_fields m v = do
    with_id ← dictionary_set (codes "t") (string m.transaction_id) v
    with_kind ← add_kind m.type with_id
    with_query ← add_query m.type with_kind
    dictionary_set (codes "v") (string (codes "BS")) with_query

  -- DHTMessage::to_bencode.
  unfoldable pub to_bencode : DhtMessage → Result Value
  unfolding add_common_fields
  to_bencode m = add_common_fields m create_dictionary

  -- The dictionary of arguments (a) or of the response (r).
  unfoldable pub add_node_id : List ℕ → NodeId → Value → Result Value
  add_node_id key node_id v = do
    inner ← dictionary_set (codes "id") (string node_id) create_dictionary
    dictionary_set key inner v

  -- DHTPingMessage::to_bencode.
  unfoldable pub ping_to_bencode : DhtPingMessage → Result Value
  unfolding to_bencode add_node_id
  ping_to_bencode p = do
    v ← to_bencode p.message
    elim p.message.type [
      | ping ↦ add_node_id (codes "a") p.node_id v
      | ping_response ↦ add_node_id (codes "r") p.node_id v
      | _ ↦ ok v
    ]

  unfoldable pub encode_ping : DhtPingMessage → Result (List ℕ)
  unfolding ping_to_bencode
  encode_ping p = ping_to_bencode p >>= λ v. ok (encode v)

  -- if (!contains(k) || !get(k).is_string()) return nullptr; s = get(k).string_value();
  unfoldable pub get_string : List ℕ → Value → Result (Option (List ℕ))
  get_string k v =
      if dictionary_contains k v
      then (dictionary_get k v >>= λ w.
          if is_string w then (string_value w >>= λ s. ok (some s)) else ok none)
      else ok none

  -- if (!contains(k) || !get(k).is_dictionary()) return nullptr; r = get(k);
  unfoldable pub get_dictionary : List ℕ → Value → Result (Option Value)
  get_dictionary k v =
      if dictionary_contains k v
      then (dictionary_get k v >>= λ w. if is_dictionary w then ok (some w) else ok none)
      else ok none

  -- contains(k) && get(k).is_string()
  unfoldable pub has_string : List ℕ → Value → Result Bool
  has_string k v =
      if dictionary_contains k v then (dictionary_get k v >>= λ w. ok (is_string w)) else ok false

  unfoldable pub parse_ping : Value → List ℕ → Bool → Result (Option DhtPingMessage)
  unfolding get_string get_dictionary make_ping
  parse_ping v id response =
      or_null (get_dictionary (if response then codes "r" else codes "a") v) λ inner.
        or_null (get_string (codes "id") inner)
          λ id_str. caught (from_bytes id_str) λ node_id. ok (some (make_ping id node_id response))

  -- The branch for queries.
  unfoldable pub create_query : Value → List ℕ → Result (Option DhtPingMessage)
  unfolding get_string parse_ping
  create_query v id =
      or_null (get_string (codes "q") v)
        λ q. if bytes_eq q (codes "ping") then parse_ping v id false else ok none

  -- The branch for responses.
  unfoldable pub create_response : Value → List ℕ → Result (Option DhtPingMessage)
  unfolding get_dictionary has_string parse_ping
  create_response v id = or_null (get_dictionary (codes "r") v) λ r.
      has_string (codes "id") r >>= λ identified.
      if identified
      then (has_string (codes "nodes") r >>= λ nodes.
          if nodes then ok none else parse_ping v id true)
      else ok none

  unfoldable pub create_from_bencode : Value → Result (Option DhtPingMessage)
  unfolding get_string create_query create_response
  create_from_bencode v =
      if is_dictionary v
      then (or_null (get_string (codes "t") v) λ id. or_null (get_string (codes "y") v) λ y.
          if bytes_eq y (codes "q")
          then create_query v id
          else if bytes_eq y (codes "r")
          then create_response v id
          else ok none)
      else ok none

  unfoldable pub create_from_data : List ℕ → Result (Option DhtPingMessage)
  unfolding create_from_bencode
  create_from_data bytes = caught (decode bytes) λ v. create_from_bencode v
