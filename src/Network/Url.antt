-- ===== src/Network/Url.antt =====
-- modules/network/src/http_client.cpp: `URLComponents::parse`. A call of `find` with the `substr`
-- that follow it is a split of the text.
pub mod RoundTrip
pub mod Tests
use dht_hunter.Base.{
  ℕ, zero, suc, ◌+◌, ◌-◌, ◌%◌, Bool, true, false, ◌&&◌, List, [], ◌∷◌, ◌++◌, map, Option, none,
  some, leb, ◌==◌, if◌then◌else◌, bytes_eq, Result, ok, ◌>>=◌,
}
use dht_hunter.Base.Int.{ℤ, pos, negsuc}
use dht_hunter.Base.Text.{codes, stos}

abbrev pub cons_before : ℕ → Option (List ℕ × List ℕ) → Option (List ℕ × List ℕ)
cons_before x none = none
cons_before x (some (before, behind)) = some (x ∷ before, behind)

-- The text before the first `c`, and the text behind it.
unfoldable pub split_at : ℕ → List ℕ → Option (List ℕ × List ℕ)
split_at c [] = none
split_at c (x ∷ s) = let rest = split_at c s in if x == c then some ([], s) else cons_before x rest

-- The text behind `t`, where `s` begins with it.
unfoldable pub strip : List ℕ → List ℕ → Option (List ℕ)
strip [] s = some s
strip (c ∷ t) [] = none
strip (c ∷ t) (x ∷ s) = if x == c then strip t s else none

abbrev pub found_here : Option (List ℕ) → Option (List ℕ × List ℕ) → Option (List ℕ × List ℕ)
found_here none later = later
found_here (some behind) later = some ([], behind)

-- The text before the first occurrence of `t`, and the text behind it.
unfoldable pub split_at_text : List ℕ → List ℕ → Option (List ℕ × List ℕ)
unfolding strip
split_at_text t [] = none
split_at_text t (x ∷ s) = found_here (strip t (x ∷ s)) (cons_before x (split_at_text t s))

abbrev pub or_else : {A : Type 0} → Option A → A → A
or_else none a = a
or_else (some b) a = b

-- std::tolower in the "C" locale.
unfoldable pub to_lower : ℕ → ℕ
to_lower c = if leb b'A' c && leb c b'Z' then c + 32 else c

pub record UrlComponents : Type 0 where
  pub protocol : List ℕ
  pub host : List ℕ
  pub port : ℕ
  pub path : List ℕ
  pub query : List ℕ

-- An int that is stored in a uint16_t.
unfoldable pub to_uint16 : ℤ → ℕ
to_uint16 (pos n) = n % 65536
to_uint16 (negsuc n) = (65535 - n % 65536) % 65536

-- Host and port.
unfoldable pub parse_host : ℕ → List ℕ → Result (List ℕ × ℕ)
unfolding split_at to_uint16
parse_host default_port host_port = elim (split_at b':' host_port) [
  | none ↦ ok (host_port, default_port)
  | some (host, digits) ↦ stos 32 10 digits >>= λ z. ok (host, to_uint16 z)
]

-- Path and query of what follows the host, which begins with '/'.
unfoldable pub split_query : List ℕ → List ℕ × List ℕ
unfolding split_at
split_query path_query = elim (split_at b'?' path_query) [
  | none ↦ (path_query, [])
  | some (path, query) ↦ (path, b'?' ∷ query)
]

-- What is made of the protocol, the text behind it, and this text split at the first '/'.
unfoldable pub parse_split : List ℕ → ℕ → List ℕ → Option (List ℕ × List ℕ) → Result UrlComponents
unfolding parse_host split_query
parse_split protocol default_port address none = parse_host default_port address >>= λ (host, port).
    ok (record { protocol = protocol; host = host; port = port; path = codes "/"; query = [] })
parse_split protocol default_port address (some (host_port, behind)) =
    parse_host default_port host_port >>= λ (host, port). ok (record {
      protocol = protocol;
      host = host;
      port = port;
      path = (split_query (b'/' ∷ behind)).0;
      query = (split_query (b'/' ∷ behind)).1;
    })

unfoldable pub parse_address : List ℕ → List ℕ → Result UrlComponents
unfolding parse_split split_at
parse_address protocol address =
    parse_split protocol (if bytes_eq protocol (codes "https") then 443 else 80) address
      (split_at b'/' address)

unfoldable pub parse : List ℕ → Result UrlComponents
unfolding split_at_text parse_address to_lower
parse url =
    let split = or_else (split_at_text (codes "://") url) (codes "http", url) in
    parse_address (map to_lower split.0) split.1
