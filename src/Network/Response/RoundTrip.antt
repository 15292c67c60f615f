-- ===== src/Network/Response/RoundTrip.antt =====
-- The printing of responses, and reading them back: modules/network/src/http_client.cpp.
use dht_hunter.Base.{
  ℕ, ◌<◌, ◌^◌, ◌≡◌, refl, ap, ◌∙◌, inl, List, [], ◌∷◌, ◌++◌, map, some, All, ok, ◌>>=◌, arith,
}
use dht_hunter.Base.Int.{pos}
use dht_hunter.Base.Text.{codes, to_string}
use dht_hunter.Base.Text.RoundTrip.{to_string-IsDigit, stos-to_string}
use dht_hunter.Network.Buffer.{Buffer}
use dht_hunter.Network.Url.{split_at}
use dht_hunter.Network.Url.RoundTrip.{IsFree, split_at-IsFree, IsFree-append, digits-IsFree}
use dht_hunter.Network.Response.{
  Headers, set_header, get_lines, trim, drop_blanks, parse_status, status_of, status_after,
  add_header, parse_headers, parse_lines, parse_parts, parse_response,
}
use dht_hunter.Network.Response.Framing.{
  print_status, header_line, print_response, IsHeader, IsHeader-lines, set_all, split_response,
  get_lines-print_headers,
}

space_small : b' ' < b'0'
space_small = omega arith

pub carriage_return_small : b'\r' < b'0'
carriage_return_small = omega arith

print_status-IsFree :
    (code : ℕ) (reason : List ℕ) → IsFree b'\r' reason → IsFree b'\r' (print_status code reason)
print_status-IsFree code reason free =
    IsFree-append b'\r' (codes "HTTP/1.1 ") (to_string code ++ (b' ' ∷ reason))
      (refl, (refl, (refl, (refl, (refl, (refl, (refl, (refl, (refl, tt)))))))))
      (IsFree-append b'\r' (to_string code) (b' ' ∷ reason)
        (digits-IsFree b'\r' (to_string code) (inl carriage_return_small) (to_string-IsDigit code))
        (refl, free))

split_version : (s : List ℕ) → split_at b' ' (codes "HTTP/1.1 " ++ s) ≡ some (codes "HTTP/1.1", s)
unfolding split_at
split_version s = refl

status_of_printed :
    (code : ℕ) (reason : List ℕ)
    → code < 2 ^ 31
    → status_of (some (to_string code, reason)) ≡ ok (some (pos code))
status_of_printed code reason small = ap (λ r. r >>= λ z. ok (some z)) (stos-to_string code small)

parse_status-print_status :
    (code : ℕ) (reason : List ℕ)
    → code < 2 ^ 31
    → parse_status (print_status code reason) ≡ ok (some (pos code))
unfolding parse_status
parse_status-print_status code reason small =
    ap status_after (split_version (to_string code ++ (b' ' ∷ reason)))
    ∙ ap status_of (
        split_at-IsFree b' ' (to_string code) reason
          (digits-IsFree b' ' (to_string code) (inl space_small) (to_string-IsDigit code)))
    ∙ status_of_printed code reason small

trim_space : (value : List ℕ) → trim (b' ' ∷ value) ≡ trim value
unfolding trim drop_blanks
trim_space value = refl

parse_headers-header_line :
    (headers before : Headers)
    → All IsHeader headers
    → parse_headers (map header_line headers) before ≡ set_all headers before
unfolding parse_headers
parse_headers-header_line [] before all = refl
parse_headers-header_line ((name, value) ∷ headers) before (is_header, all) =
    ap (λ o. parse_headers (map header_line headers) (add_header o before))
      (split_at-IsFree b':' name (b' ' ∷ value) is_header.1)
    ∙ ap (λ v. parse_headers (map header_line headers) (set_header name v before))
        (trim_space value ∙ is_header.2)
    ∙ parse_headers-header_line headers (set_header name value before) all

parse_lines_ok :
    (code : ℕ) (reason : List ℕ) (headers : Headers) (body : Buffer)
    → code < 2 ^ 31
    → All IsHeader headers
    → parse_lines (print_status code reason ∷ map header_line headers) body
      ≡ ok (record { status_code = some (pos code); headers = set_all headers []; body = body })
unfolding parse_lines
parse_lines_ok code reason headers body small all =
    rw
      (
        parse_lines,
        parse_status-print_status code reason small,
        parse_headers-header_line headers [] all,
      )
      refl

-- A response is read back, where its status code fits an int, its reason has no '\r', the names of
-- its headers have no ':', their values no blanks at the ends, and neither a '\r': the status code, the
-- headers, put into the map one after the other, and every byte of the body.
pub parse_response-print_response :
    (code : ℕ) (reason : List ℕ) (headers : Headers) (body : Buffer)
    → code < 2 ^ 31
    → IsFree b'\r' reason
    → All IsHeader headers
    → parse_response (print_response code reason headers body)
      ≡ ok (record { status_code = some (pos code); headers = set_all headers []; body = body })
unfolding parse_response get_lines
parse_response-print_response code reason headers body small free all =
    let line = print_status code reason in
    let is_line = print_status-IsFree code reason free in
    ap parse_parts (split_response line headers body is_line (IsHeader-lines headers all))
    ∙ ap (λ lines. parse_lines lines body)
        (get_lines-print_headers line headers is_line (IsHeader-lines headers all))
    ∙ parse_lines_ok code reason headers body small all
