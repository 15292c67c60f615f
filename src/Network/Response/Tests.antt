-- ===== src/Network/Response/Tests.antt =====
-- Tests and examples for responses.
use dht_hunter.Base.{
  ◌^◌, ◌<◌, ◌≡◌, refl, [], ◌∷◌, ok, throw, none, some, arith, runtime_error, bytes_lt,
}
use dht_hunter.Base.Int.{pos}
use dht_hunter.Base.Text.{codes, stos}
use dht_hunter.Network.Response.{parse_response, set_header, trim}
use dht_hunter.Network.Response.Framing.{IsHeader, print_response}
use dht_hunter.Network.Response.RoundTrip.{parse_response-print_response}

fits : 404 < 2 ^ 31
fits = omega arith

spaced-IsHeader : IsHeader (codes "B", codes "x y")
unfolding trim
spaced-IsHeader = (((refl, tt), (refl, (refl, (refl, tt)))), (refl, tt), refl)

bare-IsHeader : IsHeader (codes "A", [])
unfolding trim
bare-IsHeader = (((refl, tt), tt), (refl, tt), refl)

parse_response-print_response_example :
    parse_response (
      print_response 404
        (codes "No")
        ((codes "B", codes "x y") ∷ (codes "A", []) ∷ [])
        (codes "ab"))
    ≡ ok (record {
      status_code = some (pos 404);
      headers = (codes "A", []) ∷ (codes "B", codes "x y") ∷ [];
      body = codes "ab";
    })
unfolding set_header bytes_lt
parse_response-print_response_example =
    parse_response-print_response 404 (codes "No") ((codes "B", codes "x y") ∷ (codes "A", []) ∷ [])
      (codes "ab") fits (refl, (refl, tt)) (spaced-IsHeader, (bare-IsHeader, tt))

parse_response_blanks :
    parse_response (codes "HTTP/1.1 200 OK\r\nA: \t1 \r\n\r\n")
    ≡ ok (record { status_code = some (pos 200); headers = (codes "A", codes "1") ∷ []; body = [] })
unfolding parse_response stos
parse_response_blanks = refl

parse_response_no_status :
    parse_response (codes "\r\n\r\n") ≡ ok (record { status_code = none; headers = []; body = [] })
unfolding parse_response
parse_response_no_status = refl

parse_response_no_end : parse_response (codes "HTTP/1.1 200 OK\r\n") ≡ throw runtime_error
unfolding parse_response
parse_response_no_end = refl
