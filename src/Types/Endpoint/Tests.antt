-- ===== src/Types/Endpoint/Tests.antt =====
-- Endpoints and their texts, over an inet_pton that looks at the characters of an address only.
use dht_hunter.Base.{
  ℕ, ◌≡◌, ◌↔◌, refl, Bool, true, ◌&&◌, ◌||◌, ◌==◌, List, [], ◌∷◌, ok, throw, invalid_argument,
}
use dht_hunter.Base.Text.{codes, to_string, isdigit, is_digit_of, digit_value}
use dht_hunter.Types.Node.{AddressType, ipv4, ipv6, Endpoint, endpoint_eq}
use dht_hunter.Types.Endpoint.{make_endpoint, endpoint_to_string}
use dht_hunter.Types.Endpoint.Printing.{RefusesBracket, endpoint_eq-endpoint_to_string}

abbrev is_part : AddressType → ℕ → Bool
is_part ipv4 c = isdigit c || c == b'.'
is_part ipv6 c = is_digit_of 16 c || c == b':'

abbrev is_address : AddressType → List ℕ → Bool
is_address type [] = true
is_address type (c ∷ s) = is_part type c && is_address type s

is_address-RefusesBracket : RefusesBracket is_address
is_address-RefusesBracket s = refl

abbrev loopback : Endpoint
loopback = record { address = codes "127.0.0.1"; port = 53; address_type = ipv4 }

abbrev documentation : Endpoint
documentation = record { address = codes "2001:db8::1"; port = 53; address_type = ipv6 }

make_ipv4 : make_endpoint is_address (codes "127.0.0.1") 53 ≡ ok loopback
unfolding make_endpoint
make_ipv4 = refl

make_ipv6 : make_endpoint is_address (codes "2001:db8::1") 53 ≡ ok documentation
unfolding make_endpoint is_digit_of digit_value
make_ipv6 = refl

make_name : make_endpoint is_address (codes "localhost") 53 ≡ throw invalid_argument
unfolding make_endpoint is_digit_of digit_value
make_name = refl

text_ipv6 : endpoint_to_string documentation ≡ codes "[2001:db8::1]:53"
unfolding endpoint_to_string to_string
text_ipv6 = refl

endpoint_eq-endpoint_to_string_example :
    (endpoint_eq loopback documentation ≡ true)
    ↔ (endpoint_to_string loopback ≡ endpoint_to_string documentation)
endpoint_eq-endpoint_to_string_example =
    endpoint_eq-endpoint_to_string is_address is_address-RefusesBracket (codes "127.0.0.1")
      (codes "2001:db8::1") 53 53 loopback documentation make_ipv4 make_ipv6
