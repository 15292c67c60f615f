-- ===== src/Network/Client/Defined.antt =====
-- What the readers of URLs and responses come to: modules/network/src/http_client.cpp.
use dht_hunter.Base.{
  ℕ, Bool, List, [], ◌∷◌, Option, none, some, ltb, if◌then◌else◌, Result, ok, Ensures, returns,
  throws, Ensures-bind, ◌-◌, ◌^◌, ◌||◌, ◌&&◌, ◌==◌, map, bytes_eq, Ensures-if, ◌>>=◌,
}
use dht_hunter.Base.Text.{codes, stos, stos_value, strto}
use dht_hunter.Network.Buffer.{Buffer}
use dht_hunter.Network.Url.{
  parse, parse_address, parse_split, parse_host, split_at, split_at_text, or_else, to_lower,
  to_uint16,
}
use dht_hunter.Network.Response.{
  parse_response, parse_parts, parse_lines, parse_status, status_after, status_of, end_of_headers,
  get_lines, at_start,
}

-- The call returns or throws.
abbrev pub Defined : {A : Type 0} → Result A → Type 0
Defined = Ensures (λ _. Unit {0})

stos_value-Defined : (width : ℕ) (o : Option (Bool × ℕ)) → Defined (stos_value width o)
stos_value-Defined width none = throws
stos_value-Defined width (some (minus, m)) =
    Ensures-if (ltb m (2 ^ (width - 1)) || (minus && m == 2 ^ (width - 1))) (λ _. returns tt)
      (λ _. throws)

stos-Defined : (width base : ℕ) (s : List ℕ) → Defined (stos width base s)
unfolding stos
stos-Defined width base s = stos_value-Defined width (strto base s)

parse_host-Defined : (default_port : ℕ) (text : List ℕ) → Defined (parse_host default_port text)
unfolding parse_host
parse_host-Defined default_port text = at_split (split_at b':' text)
  where
    at_split :
        (o : Option (List ℕ × List ℕ))
        → Defined {A = List ℕ × ℕ} (elim o [
          | none ↦ ok (text, default_port)
          | some (host, digits) ↦ stos 32 10 digits >>= λ z. ok (host, to_uint16 z)
        ])
    at_split none = returns tt
    at_split (some (host, digits)) = Ensures-bind (stos-Defined 32 10 digits) λ z _. returns tt

parse_split-Defined :
    (protocol : List ℕ) (default_port : ℕ) (address : List ℕ) (o : Option (List ℕ × List ℕ))
    → Defined (parse_split protocol default_port address o)
unfolding parse_split
parse_split-Defined protocol default_port address none =
    Ensures-bind (parse_host-Defined default_port address) λ p _. returns tt
parse_split-Defined protocol default_port address (some (host, behind)) =
    Ensures-bind (parse_host-Defined default_port host) λ p _. returns tt

pub parse-Defined : (url : List ℕ) → Defined (parse url)
unfolding parse parse_address
parse-Defined url =
    let split : List ℕ × List ℕ = or_else (split_at_text (codes "://") url) (codes "http", url) in
    parse_split-Defined (map to_lower split.0)
      (if bytes_eq (map to_lower split.0) (codes "https") then 443 else 80) split.1
      (split_at b'/' split.1)

status_of-Defined : (o : Option (List ℕ × List ℕ)) → Defined (status_of o)
status_of-Defined none = returns tt
status_of-Defined (some (code, reason)) = Ensures-bind (stos-Defined 32 10 code) λ z _. returns tt

status_after-Defined : (o : Option (List ℕ × List ℕ)) → Defined (status_after o)
status_after-Defined none = returns tt
status_after-Defined (some (version, text)) = status_of-Defined (split_at b' ' text)

parse_lines-Defined : (lines : List (List ℕ)) (body : Buffer) → Defined (parse_lines lines body)
unfolding parse_lines parse_status
parse_lines-Defined [] body = returns tt
parse_lines-Defined (line ∷ lines) body =
    Ensures-bind (status_after-Defined (split_at b' ' line)) λ code _. returns tt

parse_parts-Defined : (o : Option (List ℕ × List ℕ)) → Defined (parse_parts o)
parse_parts-Defined none = throws
parse_parts-Defined (some (start, body)) = parse_lines-Defined (get_lines at_start start) body

pub parse_response-Defined : (buffer : Buffer) → Defined (parse_response buffer)
unfolding parse_response
parse_response-Defined buffer = parse_parts-Defined (split_at_text end_of_headers buffer)
