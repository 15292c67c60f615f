-- ===== src/Dht/Message/Parsed.antt =====
-- What the factory makes of a dictionary, written without the calls, and that it makes it.
use dht_hunter.Base.{
  ℕ, ◌≡◌, refl, ap, Bool, true, false, List, Option, none, some, inl, inr, ◌⊎◌, Exception,
  if◌then◌else◌, ◌==◌, length, bytes_eq, Result, ok, throw, negative_char, ◌>>=◌, ◌<◌, ◌^◌,
  Bool-cases, Option-cases, returns, throws, Meets, meets, negative,
}
use dht_hunter.Base.Text.{codes}
use dht_hunter.Bencode.Value.{
  Value, Fields, string, integer, list, dict, find, found, is_string, is_dict, IsValid,
}
use dht_hunter.Bencode.Decoder.{decode}
use dht_hunter.Bencode.Decoder.Safe.{decode-Meets}
use dht_hunter.Types.NodeId.{id_size, from_bytes}
use dht_hunter.Dht.Message.{
  DhtPingMessage, Dictionary, IsDictionary, make_ping, caught, get_string, get_dictionary,
  has_string, parse_ping, create_query, create_response, create_from_bencode, create_from_data,
}

abbrev pub string_in : Option Value → Option (List ℕ)
string_in (some (string s)) = some s
string_in _ = none

abbrev pub dict_in : Option Value → Option Fields
dict_in (some (dict fs)) = some fs
dict_in _ = none

abbrev pub and_then : {A B : Type 0} → Option A → (A → Option B) → Option B
and_then none rest = none
and_then (some a) rest = rest a

unfoldable pub parsed_ping : Fields → List ℕ → Bool → Option DhtPingMessage
parsed_ping fs id response =
    and_then (dict_in (find (if response then codes "r" else codes "a") fs)) λ inner.
      and_then (string_in (find (codes "id") inner))
        λ node_id. if length node_id == id_size then some (make_ping id node_id response) else none

abbrev pub parsed_query : Fields → List ℕ → Option DhtPingMessage
parsed_query fs id =
    and_then (string_in (find (codes "q") fs))
      λ q. if bytes_eq q (codes "ping") then parsed_ping fs id false else none

abbrev pub parsed_response : Fields → List ℕ → Option DhtPingMessage
parsed_response fs id = and_then (dict_in (find (codes "r") fs)) λ r.
    if found (string_in (find (codes "id") r))
    then if found (string_in (find (codes "nodes") r)) then none else parsed_ping fs id true
    else none

-- The message in a dictionary: a ping, or the response to one.
abbrev pub parsed : Fields → Option DhtPingMessage
parsed fs = and_then (string_in (find (codes "t") fs)) λ id.
    and_then (string_in (find (codes "y") fs)) λ y.
      if bytes_eq y (codes "q")
      then parsed_query fs id
      else if bytes_eq y (codes "r")
      then parsed_response fs id
      else none

-- What the factory may come to, by what the decoder comes to.
abbrev pub Created : Result Value → Result (Option DhtPingMessage) → Type 0
Created m o =
    ((v : Value) × (m ≡ ok v) × (o ≡ ok (and_then (dict_in (some v)) parsed)))
    ⊎ (((e : Exception) × (m ≡ throw e) × (o ≡ ok none))
        ⊎ ((m ≡ negative_char) × (o ≡ negative_char)))

module _ (d : Dictionary) (h : IsDictionary d) where
  string_in_lem :
      (v : Value)
      → (if is_string v then (d.string_value v >>= λ s. ok (some s)) else ok none)
        ≡ ok (string_in (some v))
  unfolding is_string
  string_in_lem (string s) = rw (h.text s) refl
  string_in_lem (integer z) = refl
  string_in_lem (list xs) = refl
  string_in_lem (dict fs) = refl

  dict_in_lem :
      (v : Value)
      → (if is_dict v then ok (some v) else ok none)
        ≡ ok (and_then (dict_in (some v)) λ fs. some (dict fs))
  unfolding is_dict
  dict_in_lem (string s) = refl
  dict_in_lem (integer z) = refl
  dict_in_lem (list xs) = refl
  dict_in_lem (dict fs) = refl

  found_lem : (v : Value) → is_string v ≡ found (string_in (some v))
  unfolding is_string
  found_lem (string s) = refl
  found_lem (integer z) = refl
  found_lem (list xs) = refl
  found_lem (dict fs) = refl

  get_string_lem :
      (k : List ℕ) (fs : Fields) → get_string d k (dict fs) ≡ ok (string_in (find k fs))
  unfolding get_string
  get_string_lem k fs = elim (Option-cases (find k fs)) [
    | inl e ↦ rw (h.contained k fs, e) refl
    | inr (v, e) ↦ rw (h.contained k fs, h.got k fs v e, e) (string_in_lem v)
  ]

  get_dictionary_lem :
      (k : List ℕ) (fs : Fields)
      → get_dictionary d k (dict fs) ≡ ok (and_then (dict_in (find k fs)) λ gs. some (dict gs))
  unfolding get_dictionary
  get_dictionary_lem k fs = elim (Option-cases (find k fs)) [
    | inl e ↦ rw (h.contained k fs, e) refl
    | inr (v, e) ↦ rw (h.contained k fs, h.got k fs v e, e, h.kind v) (dict_in_lem v)
  ]

  has_string_lem :
      (k : List ℕ) (fs : Fields) → has_string d k (dict fs) ≡ ok (found (string_in (find k fs)))
  unfolding has_string
  has_string_lem k fs = elim (Option-cases (find k fs)) [
    | inl e ↦ rw (h.contained k fs, e) refl
    | inr (v, e) ↦ rw (h.contained k fs, h.got k fs v e, e) (ap ok (found_lem v))
  ]

  parse_ping_lem :
      (fs : Fields) (id : List ℕ) (response : Bool)
      → parse_ping d (dict fs) id response ≡ ok (parsed_ping fs id response)
  unfolding parse_ping parsed_ping from_bytes
  parse_ping_lem fs id response =
      let key : List ℕ = if response then codes "r" else codes "a" in
      rw (get_dictionary_lem key fs) (elim (Option-cases (dict_in (find key fs))) [
        | inl e ↦ rw e refl
        | inr (inner, e) ↦
            rw (e, get_string_lem (codes "id") inner)
              (elim (Option-cases (string_in (find (codes "id") inner))) [
                | inl k ↦ rw k refl
                | inr (node_id, k) ↦ rw k (elim (Bool-cases (length node_id == id_size)) [
                  | inl q ↦ rw q refl
                  | inr q ↦ rw q refl
                ])
              ])
      ])

  create_query_lem :
      (fs : Fields) (id : List ℕ) → create_query d (dict fs) id ≡ ok (parsed_query fs id)
  unfolding create_query
  create_query_lem fs id =
      rw (get_string_lem (codes "q") fs) (elim (Option-cases (string_in (find (codes "q") fs))) [
        | inl e ↦ rw e refl
        | inr (q, e) ↦
            rw (e, parse_ping_lem fs id false)
              (elim (Bool-cases (bytes_eq q (codes "ping"))) [
                | inl k ↦ rw k refl
                | inr k ↦ rw k refl
              ])
      ])

  create_response_lem :
      (fs : Fields) (id : List ℕ) → create_response d (dict fs) id ≡ ok (parsed_response fs id)
  unfolding create_response
  create_response_lem fs id =
      rw (get_dictionary_lem (codes "r") fs) (elim (Option-cases (dict_in (find (codes "r") fs))) [
        | inl e ↦ rw e refl
        | inr (r, e) ↦
            rw (e, has_string_lem (codes "id") r)
              (elim (Bool-cases (found (string_in (find (codes "id") r)))) [
                | inl k ↦
                    rw (k, has_string_lem (codes "nodes") r)
                      (elim (Bool-cases (found (string_in (find (codes "nodes") r)))) [
                        | inl q ↦ rw q refl
                        | inr q ↦ rw (q, parse_ping_lem fs id true) refl
                      ])
                | inr k ↦ rw k refl
              ])
      ])

  pub create_from_bencode_lem : (fs : Fields) → create_from_bencode d (dict fs) ≡ ok (parsed fs)
  unfolding create_from_bencode is_dict
  create_from_bencode_lem fs =
      rw (h.kind (dict fs), get_string_lem (codes "t") fs)
        (elim (Option-cases (string_in (find (codes "t") fs))) [
          | inl e ↦ rw e refl
          | inr (id, e) ↦
              rw (e, get_string_lem (codes "y") fs)
                (elim (Option-cases (string_in (find (codes "y") fs))) [
                  | inl k ↦ rw k refl
                  | inr (y, k) ↦
                      rw (k, create_query_lem fs id, create_response_lem fs id)
                        (elim (Bool-cases (bytes_eq y (codes "q"))) [
                          | inl q ↦ rw q refl
                          | inr q ↦ rw q (elim (Bool-cases (bytes_eq y (codes "r"))) [
                            | inl q' ↦ rw q' refl
                            | inr q' ↦ rw q' refl
                          ])
                        ])
                ])
        ])

  create_from_value :
      (v : Value) → create_from_bencode d v ≡ ok (and_then (dict_in (some v)) parsed)
  unfolding create_from_bencode is_dict
  create_from_value (string s) = rw (h.kind (string s)) refl
  create_from_value (integer z) = rw (h.kind (integer z)) refl
  create_from_value (list xs) = rw (h.kind (list xs)) refl
  create_from_value (dict fs) = create_from_bencode_lem fs

  -- What comes of the decoder, for the factory.
  create_from_result :
      (m : Result Value) → Meets IsValid m → Created m (caught m (λ v. create_from_bencode d v))
  create_from_result m (meets (returns {a} i)) = inl (a, refl, create_from_value a)
  create_from_result m (meets (throws {e})) = inr (inl (e, refl, refl))
  create_from_result m negative = inr (inr (refl, refl))

  -- Of any datagram shorter than 2 ^ 63 bytes, and whatever the members of BencodeValue do that
  -- keep to what their names say: where the decoder returns a value, the factory gives the ping, or
  -- the response to one, that stands in it, and a null pointer where the value is no dictionary or
  -- holds none; where the decoder throws, it gives a null pointer; and else the decoder has called
  -- std::isdigit on a negative char, which is undefined.
  pub create_from_data_lem :
      (bytes : List ℕ)
      → length bytes < 2 ^ 63
      → ((v : Value) × (decode bytes ≡ ok v)
          × (create_from_data d bytes ≡ ok (and_then (dict_in (some v)) parsed)))
        ⊎ (((e : Exception) × (decode bytes ≡ throw e) × (create_from_data d bytes ≡ ok none))
            ⊎ ((decode bytes ≡ negative_char) × (create_from_data d bytes ≡ negative_char)))
  unfolding create_from_data
  create_from_data_lem bytes short = create_from_result (decode bytes) (decode-Meets bytes short)
