-- ===== src/Dht/Message/RoundTrip.antt =====
-- A ping, and the response to one, are read back from their bytes.
use dht_hunter.Base.{
  ℕ, suc, ◌+◌, ◌*◌, ◌≤◌, ◌<◌, ◌^◌, ◌≡◌, refl, sym, ap, ◌∙◌, Bool, true, false, List, [], ◌∷◌, ◌++◌,
  append-nil, some, length, length-append, if◌then◌else◌, bytes_lt, bytes_eq, ok, arith,
}
use dht_hunter.Base.Text.{codes, to_string, emit}
use dht_hunter.Base.Text.RoundTrip.{length-to_string}
use dht_hunter.Bencode.Value.{Value, Fields, string, dict, end, field, insert, find, IsValid}
use dht_hunter.Bencode.Encoder.{encode, encode_string, encode_fields}
use dht_hunter.Bencode.Decoder.{decode}
use dht_hunter.Bencode.Decoder.RoundTrip.{decode-encode}
use dht_hunter.Types.NodeId.{NodeId, id_size}
use dht_hunter.Dht.Message.{
  Dictionary, IsDictionary, make_ping, ping_to_bencode, encode_ping, create_from_data,
}
use dht_hunter.Dht.Message.Parsed.{parsed, parsed_ping, create_from_bencode_lem}

-- The dictionaries that are sent.
abbrev ping_fields : List ℕ → NodeId → Fields
ping_fields id node_id = field (codes "a") (dict (field (codes "id") (string node_id) end)) (
    field (codes "q") (string (codes "ping")) (
      field (codes "t") (string id)
        (field (codes "v") (string (codes "BS")) (field (codes "y") (string (codes "q")) end))))

abbrev response_fields : List ℕ → NodeId → Fields
response_fields id node_id = field (codes "r") (dict (field (codes "id") (string node_id) end)) (
    field (codes "t") (string id)
      (field (codes "v") (string (codes "BS")) (field (codes "y") (string (codes "r")) end)))

abbrev sent_fields : List ℕ → NodeId → Bool → Fields
sent_fields id node_id response =
    if response then response_fields id node_id else ping_fields id node_id

parsed-sent_fields :
    (id : List ℕ) (node_id : NodeId) (response : Bool)
    → length node_id ≡ id_size
    → parsed (sent_fields id node_id response) ≡ some (make_ping id node_id response)
unfolding find bytes_eq make_ping parsed_ping
parsed-sent_fields id node_id true h = rw h refl
parsed-sent_fields id node_id false h = rw h refl

sent_fields-IsValid :
    (id : List ℕ) (node_id : NodeId) (response : Bool)
    → IsValid (dict (sent_fields id node_id response))
unfolding bytes_lt
sent_fields-IsValid id node_id true = ground arith
sent_fields-IsValid id node_id false = ground arith

length-encode_string : (s : List ℕ) → length (encode_string s) ≤ 2 * length s + 2
unfolding encode_string to_string emit
length-encode_string [] = omega arith
length-encode_string (x ∷ s) = omega (
  arith,
  length-append (to_string (suc (length s))) (b':' ∷ x ∷ s),
  length-to_string (suc (length s)),
)

length-encode_fields :
    (k : List ℕ) (v : Value) (fs : Fields)
    → length (encode_fields (field k v fs))
      ≤ 2 * length k + 2 + length (encode v) + length (encode_fields fs)
unfolding encode
length-encode_fields k v fs = omega (
  arith,
  length-append (encode_string k) (encode v ++ encode_fields fs),
  length-append (encode v) (encode_fields fs),
  length-encode_string k,
)

length-encode_dict : (fs : Fields) → length (encode (dict fs)) ≡ length (encode_fields fs) + 2
unfolding encode
length-encode_dict fs = omega (arith, length-append (encode_fields fs) (b'e' ∷ []))

length-text_field :
    (k s : List ℕ) (fs : Fields)
    → length (encode_fields (field k (string s) fs))
      ≤ 2 * length k + 2 * length s + 4 + length (encode_fields fs)
unfolding encode
length-text_field k s fs =
    omega (arith, length-encode_fields k (string s) fs, length-encode_string s)

length-end : length (encode_fields end) ≡ 0
unfolding encode
length-end = refl

length-id_dict :
    (node_id : NodeId)
    → length (encode (dict (field (codes "id") (string node_id) end))) ≤ 2 * length node_id + 12
length-id_dict node_id = omega (
  arith,
  length-encode_dict (field (codes "id") (string node_id) end),
  length-text_field (codes "id") node_id end,
  length-end,
)

length-sent_fields :
    (id : List ℕ) (node_id : NodeId) (response : Bool)
    → length id < 2 ^ 61
    → length node_id ≡ id_size
    → length (encode (dict (sent_fields id node_id response))) < 2 ^ 63
length-sent_fields id node_id true h k =
    let y = field (codes "y") (string (codes "r")) end in
    let v = field (codes "v") (string (codes "BS")) y in
    let t = field (codes "t") (string id) v in
    let inner = dict (field (codes "id") (string node_id) end) in
    omega (
      arith,
      h,
      k,
      length-id_dict node_id,
      length-encode_dict (field (codes "r") inner t),
      length-encode_fields (codes "r") inner t,
      length-text_field (codes "t") id v,
      length-text_field (codes "v") (codes "BS") y,
      length-text_field (codes "y") (codes "r") end,
      length-end,
    )
length-sent_fields id node_id false h k =
    let y = field (codes "y") (string (codes "q")) end in
    let v = field (codes "v") (string (codes "BS")) y in
    let t = field (codes "t") (string id) v in
    let q = field (codes "q") (string (codes "ping")) t in
    let inner = dict (field (codes "id") (string node_id) end) in
    omega (
      arith,
      h,
      k,
      length-id_dict node_id,
      length-encode_dict (field (codes "a") inner q),
      length-encode_fields (codes "a") inner q,
      length-text_field (codes "q") (codes "ping") t,
      length-text_field (codes "t") id v,
      length-text_field (codes "v") (codes "BS") y,
      length-text_field (codes "y") (codes "q") end,
      length-end,
    )

module _ (d : Dictionary) (h : IsDictionary d) where
  ping_to_bencode_lem :
      (id : List ℕ) (node_id : NodeId) (response : Bool)
      → ping_to_bencode d (make_ping id node_id response)
        ≡ ok (dict (sent_fields id node_id response))
  unfolding ping_to_bencode make_ping insert bytes_lt
  ping_to_bencode_lem id node_id true =
      let t = field (codes "t") (string id) in
      let y = field (codes "y") (string (codes "r")) end in
      let v = field (codes "v") (string (codes "BS")) y in
      rw (h.created, h.put (codes "t") (string id) end)
        (rw (h.put (codes "y") (string (codes "r")) (t end)) (
          rw (h.put (codes "v") (string (codes "BS")) (t y)) (
            rw (h.put (codes "id") (string node_id) end)
              (h.put (codes "r") (dict (field (codes "id") (string node_id) end)) (t v)))))
  ping_to_bencode_lem id node_id false =
      let q = field (codes "q") (string (codes "ping")) in
      let t = field (codes "t") (string id) in
      let y = field (codes "y") (string (codes "q")) end in
      let v = field (codes "v") (string (codes "BS")) y in
      rw (h.created, h.put (codes "t") (string id) end)
        (rw (h.put (codes "y") (string (codes "q")) (t end)) (
          rw (h.put (codes "q") (string (codes "ping")) (t y)) (
            rw (h.put (codes "v") (string (codes "BS")) (q (t y))) (
              rw (h.put (codes "id") (string node_id) end)
                (h.put (codes "a") (dict (field (codes "id") (string node_id) end)) (q (t v)))))))

  pub encode_ping-returns :
      (id : List ℕ) (node_id : NodeId) (response : Bool)
      → (bytes : List ℕ) × (encode_ping d (make_ping id node_id response) ≡ ok bytes)
  unfolding encode_ping
  encode_ping-returns id node_id response = (
    encode (dict (sent_fields id node_id response)),
    rw (ping_to_bencode_lem id node_id response) refl,
  )

  -- A ping, or the response to one, is read back from its bytes: encoding it returns, and the factory
  -- makes the same message of what it returned. The transaction identifier is shorter than 2 ^ 61
  -- bytes, the node identifier has 20, and the members of BencodeValue that the repository does not
  -- declare do what their names say.
  pub create_from_data-encode_ping :
      (id : List ℕ) (node_id : NodeId) (response : Bool)
      → length id < 2 ^ 61
      → length node_id ≡ id_size
      → (bytes : List ℕ) × (encode_ping d (make_ping id node_id response) ≡ ok bytes)
        × (create_from_data d bytes ≡ ok (some (make_ping id node_id response)))
  unfolding encode_ping create_from_data
  create_from_data-encode_ping id node_id response short size =
      let fs = sent_fields id node_id response in
      let read : decode (encode (dict fs)) ≡ ok (dict fs) =
        ap decode (sym (append-nil (encode (dict fs))))
        ∙ decode-encode (dict fs) [] (sent_fields-IsValid id node_id response) (
            rw (append-nil (encode (dict fs)))
              (length-sent_fields id node_id response short size)) in
      (
        encode (dict fs),
        rw (ping_to_bencode_lem id node_id response) refl,
        rw read
            (create_from_bencode_lem d h fs ∙ ap ok (parsed-sent_fields id node_id response size)),
      )
