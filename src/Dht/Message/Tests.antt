-- ===== src/Dht/Message/Tests.antt =====
-- Runs of the factory, instances of its theorems, and members of BencodeValue that do what their
-- names say.
use dht_hunter.Base.{
  negative_char, ℕ, zero, suc, ◌<◌, ◌^◌, ◌≡◌, refl, sym, ◌∙◌, ◌⊎◌, Bool, true, false, List, [], ◌∷◌,
  Option, none, some, length, replicate, Exception, bad_variant_access, Result, ok, throw, arith,
}
use dht_hunter.Base.Text.{codes}
use dht_hunter.Bencode.Value.{Value, string, dict, end, find, insert, found, is_dict}
use dht_hunter.Bencode.Decoder.{decode}
use dht_hunter.Types.NodeId.{NodeId}
use dht_hunter.Dht.Message.{Dictionary, IsDictionary, make_ping, encode_ping, create_from_data}
use dht_hunter.Dht.Message.Parsed.{dict_in, and_then, parsed, create_from_data_lem}
use dht_hunter.Dht.Message.RoundTrip.{create_from_data-encode_ping}

abbrev contains : List ℕ → Value → Bool
contains k (dict fs) = found (find k fs)
contains k _ = false

abbrev or_throw : Option Value → Result Value
or_throw none = throw bad_variant_access
or_throw (some v) = ok v

abbrev get : List ℕ → Value → Result Value
get k (dict fs) = or_throw (find k fs)
get k _ = throw bad_variant_access

abbrev put : List ℕ → Value → Value → Result Value
put k v (dict fs) = ok (dict (insert k v fs))
put k v _ = throw bad_variant_access

abbrev text : Value → Result (List ℕ)
text (string s) = ok s
text _ = throw bad_variant_access

abbrev pub members : Dictionary
members = record {
  create_dictionary = dict end;
  is_dictionary = is_dict;
  dictionary_contains = contains;
  dictionary_get = get;
  dictionary_set = put;
  string_value = text;
}

pub members-IsDictionary : IsDictionary members
members-IsDictionary = record {
  created = refl;
  kind = λ v. refl;
  contained = λ k fs. refl;
  got = λ k fs v e. rw e refl;
  put = λ k v fs. refl;
  text = λ s. refl;
}

abbrev pub id : NodeId
id = replicate 20 97

abbrev query : List ℕ
query = codes "d1:ad2:id20:aaaaaaaaaaaaaaaaaaaae1:q4:ping1:t2:xy1:v2:BS1:y1:qe"

test_encode : encode_ping members (make_ping (codes "xy") id false) ≡ ok query
unfolding encode_ping make_ping insert dht_hunter.Base.bytes_lt dht_hunter.Bencode.Encoder.encode
    dht_hunter.Base.Text.to_string dht_hunter.Bencode.Encoder.encode_string
test_encode = refl

create_from_data-encode_ping_example :
    (bytes : List ℕ) × (encode_ping members (make_ping (codes "xy") id true) ≡ ok bytes)
    × (create_from_data members bytes ≡ ok (some (make_ping (codes "xy") id true)))
create_from_data-encode_ping_example =
    create_from_data-encode_ping members members-IsDictionary (codes "xy") id true (omega arith)
      refl

create_from_data_lem_example :
    ((v : Value) × (decode query ≡ ok v)
      × (create_from_data members query ≡ ok (and_then (dict_in (some v)) parsed)))
    ⊎ (((e : Exception) × (decode query ≡ throw e) × (create_from_data members query ≡ ok none))
        ⊎ ((decode query ≡ negative_char) × (create_from_data members query ≡ negative_char)))
create_from_data_lem_example = create_from_data_lem members members-IsDictionary query (omega arith)
