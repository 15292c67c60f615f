-- ===== src/Types/Endpoint.antt =====
-- modules/types/src/endpoint.cpp: the constructor and the text of an endpoint. The system's
-- inet_pton is a parameter: whether it accepts a text as an address of the type.
pub mod Printing
pub mod Tests
use dht_hunter.Base.{
  ℕ, Bool, List, [], ◌∷◌, ◌++◌, if◌then◌else◌, Result, ok, throw, invalid_argument,
}
use dht_hunter.Base.Text.{c_str, to_string}
use dht_hunter.Types.Node.{AddressType, ipv4, ipv6, Endpoint}

unfoldable pub make_endpoint : (AddressType → List ℕ → Bool) → List ℕ → ℕ → Result Endpoint
unfolding c_str
make_endpoint inet_pton address port =
    if inet_pton ipv4 (c_str address)
    then ok (record { address = address; port = port; address_type = ipv4 })
    else if inet_pton ipv6 (c_str address)
    then ok (record { address = address; port = port; address_type = ipv6 })
    else throw invalid_argument

unfoldable pub endpoint_to_string : Endpoint → List ℕ
endpoint_to_string e = elim e.address_type [
  | ipv4 ↦ e.address ++ (b':' ∷ to_string e.port)
  | ipv6 ↦ (b'[' ∷ e.address) ++ (b']' ∷ b':' ∷ to_string e.port)
]
