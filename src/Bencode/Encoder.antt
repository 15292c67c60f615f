-- ===== src/Bencode/Encoder.antt =====
-- modules/bencode/src/bencode_encoder.cpp. The `_async` members run the same functions on another
-- thread.
use dht_hunter.Base.{ℕ, List, [], ◌∷◌, ◌++◌, length}
use dht_hunter.Base.Int.{ℤ}
use dht_hunter.Base.Text.{to_string, to_string_ℤ}
use dht_hunter.Bencode.Value.{
  Value, Items, Fields, string, integer, list, dict, nil, item, end, field,
}

-- <length>:<string>
unfoldable pub encode_string : List ℕ → List ℕ
encode_string s = to_string (length s) ++ (b':' ∷ s)

-- i<integer>e
unfoldable pub encode_integer : ℤ → List ℕ
encode_integer z = b'i' ∷ (to_string_ℤ z ++ (b'e' ∷ []))

-- l<item1><item2>...e and d<key1><value1><key2><value2>...e; the loops over the items.
unfoldable mutual
  pub encode : Value → List ℕ
  encode (string s) = encode_string s
  encode (integer z) = encode_integer z
  encode (list xs) = b'l' ∷ (encode_items xs ++ (b'e' ∷ []))
  encode (dict fs) = b'd' ∷ (encode_fields fs ++ (b'e' ∷ []))

  pub encode_items : Items → List ℕ
  encode_items nil = []
  encode_items (item x xs) = encode x ++ encode_items xs

  pub encode_fields : Fields → List ℕ
  encode_fields end = []
  encode_fields (field k v fs) = encode_string k ++ (encode v ++ encode_fields fs)
