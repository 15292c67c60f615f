-- ===== src/Network/Url/RoundTrip.antt =====
-- The printing of URLs, and reading them back: modules/network/src/http_client.cpp.
use dht_hunter.Base.{
  ℕ, ◌%◌, ◌<◌, ◌^◌, ◌≡◌, refl, sym, ap, ◌∙◌, subst, ◌⊎◌, inl, inr, false, ◌==◌, List, [], ◌∷◌, ◌++◌,
  append_assoc, append-nil, map, Option, none, some, All, bytes_eq, if◌then◌else◌, ok, arith,
}
use dht_hunter.Base.Text.{codes, to_string}
use dht_hunter.Base.Text.RoundTrip.{IsDigit, to_string-IsDigit, stos-to_string}
use dht_hunter.Network.Url.{
  split_at, strip, split_at_text, or_else, to_lower, to_uint16, UrlComponents, parse_host,
  split_query, parse_split, parse_address, parse,
}

-- Text without the byte `c`.
abbrev pub IsFree : ℕ → List ℕ → Type 0
IsFree c = All (λ x. (x == c) ≡ false)

pub split_at-IsFree : (c : ℕ) (s t : List ℕ) → IsFree c s → split_at c (s ++ (c ∷ t)) ≡ some (s, t)
unfolding split_at
split_at-IsFree c [] t h = ground arith
split_at-IsFree c (x ∷ s) t (h, free) = rw (h, split_at-IsFree c s t free) refl

pub split_at_missing : (c : ℕ) (s : List ℕ) → IsFree c s → split_at c s ≡ none
unfolding split_at
split_at_missing c [] h = refl
split_at_missing c (x ∷ s) (h, free) = rw (h, split_at_missing c s free) refl

strip_ne : (x : ℕ) (s : List ℕ) → (x == b':') ≡ false → strip (codes "://") (x ∷ s) ≡ none
unfolding strip
strip_ne x s h = rw h refl

split_at_text_here : (t : List ℕ) → split_at_text (codes "://") (codes "://" ++ t) ≡ some ([], t)
unfolding split_at_text
split_at_text_here t = refl

split_at_text-IsFree :
    (s t : List ℕ)
    → IsFree b':' s
    → split_at_text (codes "://") (s ++ (codes "://" ++ t)) ≡ some (s, t)
unfolding split_at_text
split_at_text-IsFree [] t h = split_at_text_here t
split_at_text-IsFree (x ∷ s) t (h, free) =
    rw (strip_ne x (s ++ (codes "://" ++ t)) h, split_at_text-IsFree s t free) refl

pub IsFree-append : (c : ℕ) (s t : List ℕ) → IsFree c s → IsFree c t → IsFree c (s ++ t)
IsFree-append c [] t h k = k
IsFree-append c (x ∷ s) t (h, free) k = (h, IsFree-append c s t free k)

pub digits-IsFree : (c : ℕ) (s : List ℕ) → (c < b'0') ⊎ (b'9' < c) → All IsDigit s → IsFree c s
digits-IsFree c [] h k = tt
digits-IsFree c (x ∷ s) h (k, rest) = (ground arith, digits-IsFree c s h rest)

-- A port is read back modulo 2 ^ 16.
parse_host-append :
    (default_port : ℕ) (host : List ℕ) (port : ℕ)
    → IsFree b':' host
    → port < 2 ^ 31
    → parse_host default_port (host ++ (b':' ∷ to_string port)) ≡ ok (host, port % 65536)
unfolding parse_host to_uint16
parse_host-append default_port host port free small =
    rw (parse_host, split_at-IsFree b':' host (to_string port) free, stos-to_string port small) refl

split_query_none : (path : List ℕ) → IsFree b'?' path → split_query path ≡ (path, [])
unfolding split_query
split_query_none path free = rw (split_query, split_at_missing b'?' path free) refl

split_query_some :
    (path q : List ℕ) → IsFree b'?' path → split_query (path ++ (b'?' ∷ q)) ≡ (path, b'?' ∷ q)
unfolding split_query
split_query_some path q free = rw (split_query, split_at-IsFree b'?' path q free) refl

split_query-append :
    (path query : List ℕ)
    → IsFree b'?' path
    → (query ≡ []) ⊎ ((q : List ℕ) × (query ≡ b'?' ∷ q))
    → split_query (path ++ query) ≡ (path, query)
split_query-append path query free (inl e) =
    subst (λ q. split_query (path ++ q) ≡ (path, q)) (sym e)
      (ap split_query (append-nil path) ∙ split_query_none path free)
split_query-append path query free (inr (q, e)) =
    subst (λ r. split_query (path ++ r) ≡ (path, r)) (sym e) (split_query_some path q free)

-- The parts as a URL writes them: a protocol in lower case without ':', a host without '/' and ':',
-- a path that begins with '/' and has no '?', and a query that is empty or begins with '?'.
pub record IsPrintable (u : UrlComponents) : Type 0 where
  pub lower : map to_lower u.protocol ≡ u.protocol
  pub protocol_free : IsFree b':' u.protocol
  pub host_free : IsFree b':' u.host
  pub host_ends : IsFree b'/' u.host
  pub path_free : IsFree b'?' u.path
  pub path_begins : (p : List ℕ) × (u.path ≡ b'/' ∷ p)
  pub query_begins : (u.query ≡ []) ⊎ ((q : List ℕ) × (u.query ≡ b'?' ∷ q))

abbrev pub print_url : UrlComponents → List ℕ
print_url u =
    u.protocol ++ (codes "://" ++ (u.host ++ ((b':' ∷ to_string u.port) ++ (u.path ++ u.query))))

split_address :
    (host digits p query : List ℕ)
    → IsFree b'/' host
    → IsFree b'/' digits
    → split_at b'/' (host ++ ((b':' ∷ digits) ++ ((b'/' ∷ p) ++ query)))
      ≡ some (host ++ (b':' ∷ digits), p ++ query)
split_address host digits p query h k =
    ap (split_at b'/') (sym (append_assoc host (b':' ∷ digits) ((b'/' ∷ p) ++ query)))
    ∙ split_at-IsFree b'/' (host ++ (b':' ∷ digits)) (p ++ query)
        (IsFree-append b'/' host (b':' ∷ digits) h (refl, k))

parse_split-some :
    (protocol host p query : List ℕ) (default_port port : ℕ) (address : List ℕ)
    → IsFree b':' host
    → split_query ((b'/' ∷ p) ++ query) ≡ (b'/' ∷ p, query)
    → port < 2 ^ 31
    → parse_split protocol default_port address (some (host ++ (b':' ∷ to_string port), p ++ query))
      ≡ ok (record {
        protocol = protocol;
        host = host;
        port = port % 65536;
        path = b'/' ∷ p;
        query = query;
      })
unfolding parse_split
parse_split-some protocol host p query default_port port address free queried small =
    rw (parse_host-append default_port host port free small, queried) refl

slash_small : b'/' < b'0'
slash_small = omega arith

parse_address_some :
    (protocol host p query : List ℕ) (port : ℕ)
    → IsFree b':' host
    → IsFree b'/' host
    → split_query ((b'/' ∷ p) ++ query) ≡ (b'/' ∷ p, query)
    → port < 2 ^ 31
    → parse_address protocol (host ++ ((b':' ∷ to_string port) ++ ((b'/' ∷ p) ++ query)))
      ≡ ok (record {
        protocol = protocol;
        host = host;
        port = port % 65536;
        path = b'/' ∷ p;
        query = query;
      })
unfolding parse_address
parse_address_some protocol host p query port free ends queried small =
    let default_port = if bytes_eq protocol (codes "https") then 443 else 80 in
    let address = host ++ ((b':' ∷ to_string port) ++ ((b'/' ∷ p) ++ query)) in
    ap (parse_split protocol default_port address) (
      split_address host (to_string port) p query ends
        (digits-IsFree b'/' (to_string port) (inl slash_small) (to_string-IsDigit port)))
    ∙ parse_split-some protocol host p query default_port port address free queried small

-- What is behind the protocol is read as an address.
parse-append :
    (protocol address : List ℕ)
    → IsFree b':' protocol
    → map to_lower protocol ≡ protocol
    → parse (protocol ++ (codes "://" ++ address)) ≡ parse_address protocol address
unfolding parse
parse-append protocol address free lower =
    let url = protocol ++ (codes "://" ++ address) in
    ap
      (λ (o : Option (List ℕ × List ℕ)).
        let split : List ℕ × List ℕ = or_else o (codes "http", url) in
        parse_address (map to_lower split.0) split.1)
      (split_at_text-IsFree protocol address free)
    ∙ ap (λ l. parse_address l address) lower

-- A printed URL is read back, with its port modulo 2 ^ 16, as it is stored: a port that does not fit
-- is not refused, but becomes another. The parts are such as a URL writes them, and the port fits an
-- int.
pub parse-print_url :
    (u : UrlComponents)
    → IsPrintable u
    → u.port < 2 ^ 31
    → parse (print_url u) ≡ ok (record u { port = u.port % 65536 })
parse-print_url u i small =
    let (p, begins) = i.path_begins in
    parse-append u.protocol (u.host ++ ((b':' ∷ to_string u.port) ++ (u.path ++ u.query)))
      i.protocol_free i.lower
    ∙ subst
        (λ path.
          split_query (path ++ u.query) ≡ (path, u.query)
          → parse_address u.protocol (u.host ++ ((b':' ∷ to_string u.port) ++ (path ++ u.query)))
            ≡ ok (record u { port = u.port % 65536; path = path }))
        (sym begins)
        (λ queried.
          parse_address_some u.protocol u.host p u.query u.port i.host_free i.host_ends queried
            small)
        (split_query-append u.path u.query i.path_free i.query_begins)
