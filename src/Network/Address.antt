-- ===== src/Network/Address.antt =====
-- modules/network/src/address.cpp: what an address is made of, and its kinds. The system's
-- `inet_pton` is a parameter: the bytes of a numeric address, in network order, or `none`. It reads the text up to the first NUL.
use dht_hunter.Base.{
  ℕ, ◌/◌, Bool, true, false, ◌||◌, List, [], ◌∷◌, Option, none, some, ◌==◌, bytes_eq, if◌then◌else◌,
}
use dht_hunter.Base.Text.{codes, c_str}
use dht_hunter.Network.Url.{split_at}

pub data AddressFamily : Type 0 where
  ipv4 ipv6 : AddressFamily

pub record Address : Type 0 where
  pub address : List ℕ
  pub port : ℕ
  pub family : AddressFamily
  pub valid : Bool

abbrev pub default_address : Address
default_address = record { address = codes "0.0.0.0"; port = 0; family = ipv4; valid = true }

abbrev pub any_address : ℕ → AddressFamily → Address
any_address port ipv4 = record {
  address = codes "0.0.0.0";
  port = port;
  family = ipv4;
  valid = true;
}
any_address port ipv6 = record { address = codes "::"; port = port; family = ipv6; valid = true }

abbrev family_at : Option (List ℕ × List ℕ) → AddressFamily
family_at none = ipv4
family_at (some split) = ipv6

-- Text with a ':' is an IPv6 address.
unfoldable pub family_of : List ℕ → AddressFamily
unfolding split_at
family_of text = family_at (split_at b':' text)

abbrev pub is_some {ℓ} : {A : Type ℓ} → Option A → Bool
is_some none = false
is_some (some a) = true

abbrev loopback_text : AddressFamily → List ℕ → Bool
loopback_text ipv4 text = bytes_eq text (codes "127.0.0.1") || bytes_eq text (codes "localhost")
loopback_text ipv6 text = bytes_eq text (codes "::1") || bytes_eq text (codes "localhost")

unfoldable pub is_loopback : Address → Bool
is_loopback a = if a.valid then loopback_text a.family a.address else false

-- The first byte of an IPv4 multicast address has the upper half 0xE, that of an IPv6 one is 0xFF.
abbrev multicast_bytes : AddressFamily → Option (List ℕ) → Bool
multicast_bytes family none = false
multicast_bytes family (some []) = false
multicast_bytes ipv4 (some (x ∷ bytes)) = x / 16 == 14
multicast_bytes ipv6 (some (x ∷ bytes)) = x == 255

module _ (inet_pton : AddressFamily → List ℕ → Option (List ℕ)) where
  unfoldable pub make_address : List ℕ → ℕ → Address
  unfolding family_of c_str
  make_address text port = record {
    address = text;
    port = port;
    family = family_of text;
    valid = is_some (inet_pton (family_of text) (c_str text));
  }

  unfoldable pub is_multicast : Address → Bool
  unfolding c_str
  is_multicast a =
      if a.valid then multicast_bytes a.family (inet_pton a.family (c_str a.address)) else false
