-- ===== src/Network/Response.antt =====
-- modules/network/src/http_client.cpp: `parse_response`. A status code that is not set is `none`.
pub mod Framing
pub mod RoundTrip
pub mod Tests
use dht_hunter.Base.{
  ℕ, zero, suc, ◌+◌, ◌-◌, Bool, true, false, ◌||◌, List, [], ◌∷◌, ◌++◌, Option, none, some, ◌==◌,
  if◌then◌else◌, bytes_lt, Result, ok, throw, runtime_error, ◌>>=◌,
}
use dht_hunter.Base.Int.{ℤ}
use dht_hunter.Base.Text.{codes, stos}
use dht_hunter.Network.Buffer.{Buffer}
use dht_hunter.Network.Url.{split_at, split_at_text}

-- std::map of headers: in the order of the names.
abbrev pub Headers : Type 0
Headers = List (List ℕ × List ℕ)

-- `headers[name] = value`.
unfoldable pub set_header : List ℕ → List ℕ → Headers → Headers
set_header name value [] = (name, value) ∷ []
set_header name value ((other, w) ∷ headers) =
    let rest = set_header name value headers in
    if bytes_lt other name
    then (other, w) ∷ rest
    else if bytes_lt name other
    then (name, value) ∷ (other, w) ∷ headers
    else (other, value) ∷ headers

pub record HttpResponse : Type 0 where
  pub status_code : Option ℤ
  pub headers : Headers
  pub body : Buffer

-- Where the stream stands: at the first byte of a line, inside one, or at the byte behind '\r'.
pub data Reading : Type 0 where
  at_start inside behind : Reading

abbrev pub push : ℕ → List (List ℕ) → List (List ℕ)
push x [] = (x ∷ []) ∷ []
push x (line ∷ lines) = (x ∷ line) ∷ lines

-- The lines of `getline` up to '\r', each with one byte skipped behind it.
unfoldable pub get_lines : Reading → List ℕ → List (List ℕ)
get_lines at_start [] = []
get_lines inside [] = [] ∷ []
get_lines behind [] = []
get_lines behind (x ∷ s) = get_lines at_start s
get_lines at_start (x ∷ s) =
    let line_end = get_lines behind s in
    let more = get_lines inside s in if x == b'\r' then [] ∷ line_end else push x more
get_lines inside (x ∷ s) =
    let line_end = get_lines behind s in
    let more = get_lines inside s in if x == b'\r' then [] ∷ line_end else push x more

abbrev pub is_blank : ℕ → Bool
is_blank c = c == b' ' || c == b'\t'

unfoldable pub drop_blanks : List ℕ → List ℕ
drop_blanks [] = []
drop_blanks (c ∷ s) = let rest = drop_blanks s in if is_blank c then rest else c ∷ s

abbrev pub keep : ℕ → List ℕ → List ℕ
keep c [] = if is_blank c then [] else c ∷ []
keep c (d ∷ s) = c ∷ d ∷ s

unfoldable pub drop_last_blanks : List ℕ → List ℕ
drop_last_blanks [] = []
drop_last_blanks (c ∷ s) = keep c (drop_last_blanks s)

unfoldable pub trim : List ℕ → List ℕ
unfolding drop_blanks drop_last_blanks
trim value = drop_last_blanks (drop_blanks value)

abbrev pub status_of : Option (List ℕ × List ℕ) → Result (Option ℤ)
status_of none = ok none
status_of (some (code, reason)) = stos 32 10 code >>= λ z. ok (some z)

abbrev pub status_after : Option (List ℕ × List ℕ) → Result (Option ℤ)
status_after none = ok none
status_after (some (version, text)) = status_of (split_at b' ' text)

-- The status line: the number between the first two spaces.
unfoldable pub parse_status : List ℕ → Result (Option ℤ)
unfolding split_at
parse_status line = status_after (split_at b' ' line)

abbrev pub add_header : Option (List ℕ × List ℕ) → Headers → Headers
add_header none headers = headers
add_header (some (name, value)) headers = set_header name (trim value) headers

unfoldable pub parse_headers : List (List ℕ) → Headers → Headers
unfolding split_at set_header trim
parse_headers [] headers = headers
parse_headers (line ∷ lines) headers = parse_headers lines (add_header (split_at b':' line) headers)

unfoldable pub parse_lines : List (List ℕ) → Buffer → Result HttpResponse
unfolding parse_status parse_headers
parse_lines [] body = ok (record { status_code = none; headers = []; body = body })
parse_lines (line ∷ lines) body = parse_status line >>= λ code.
    ok (record { status_code = code; headers = parse_headers lines []; body = body })

abbrev pub end_of_headers : List ℕ
end_of_headers = codes "\r\n\r\n"

abbrev pub parse_parts : Option (List ℕ × List ℕ) → Result HttpResponse
parse_parts none = throw runtime_error
parse_parts (some (headers, body)) = parse_lines (get_lines at_start headers) body

unfoldable pub parse_response : Buffer → Result HttpResponse
unfolding split_at_text get_lines parse_lines
parse_response buffer = parse_parts (split_at_text end_of_headers buffer)
