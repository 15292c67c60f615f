-- ===== src/Network/Client/Tests.antt =====
-- Tests and examples for the HTTP client.
use dht_hunter.Base.{
  ℕ, zero, suc, ◌^◌, ◌<◌, ◌≡◌, refl, Bool, true, false, List, [], ◌∷◌, Option, none, some, inl,
  throw, runtime_error, bytes_eq, arith,
}
use dht_hunter.Base.Int.{pos}
use dht_hunter.Base.Text.{c_str, codes, to_string, stos}
use dht_hunter.Network.Address.{AddressFamily, ipv4, ipv6, default_address, is_loopback}
use dht_hunter.Network.Buffer.{Buffer}
use dht_hunter.Network.Url.{UrlComponents, to_lower}
use dht_hunter.Network.Url.RoundTrip.{IsPrintable}
use dht_hunter.Network.Response.{parse_response}
use dht_hunter.Network.Request.{HttpMethod, find_header, request_buffer}
use dht_hunter.Network.Request
use dht_hunter.Network.Client.{
  HttpClient, Answer, received, create_http_client, set_max_redirects, request, get,
}
use dht_hunter.Network.Client.Redirects.{Accounts, request-Accounts}
use dht_hunter.Network.Client.Names.{RefusesNames, is_numeric, request_name}

-- It knows texts of digits and dots, and takes all of them for one address.
abbrev pton_bytes : Bool → Option (List ℕ)
pton_bytes false = none
pton_bytes true = some (127 ∷ 0 ∷ 0 ∷ 1 ∷ [])

unfoldable pton : AddressFamily → List ℕ → Option (List ℕ)
pton ipv4 text = pton_bytes (is_numeric text)
pton ipv6 text = none

pton-RefusesNames : RefusesNames pton
unfolding pton
pton-RefusesNames text name = rw name refl

abbrev two_chunks : ℕ → Buffer
two_chunks zero = codes "HTTP/1.1 302 Found\r\n"
two_chunks (suc zero) = codes "Location: 127.0.0.1\r\n\r\n"
two_chunks (suc (suc k)) = []

-- Every server redirects to itself.
abbrev redirection : Answer
redirection = received two_chunks

abbrev limited : HttpClient
limited = set_max_redirects (pos 2) create_http_client

request-Accounts_example :
    Accounts 2 (request pton 3 (λ n. redirection) Request.get [] [] limited (codes "127.0.0.1"))
request-Accounts_example =
    request-Accounts pton 3 (λ n. redirection) (λ n. (2, omega arith, refl)) Request.get [] []
      limited (codes "127.0.0.1")

-- After one call that is redirected twice, the client follows no redirect any more.
redirects_spent :
    (get pton 3 (λ n. redirection) limited (codes "127.0.0.1") []).0.max_redirects ≡ pos 0
unfolding get request parse_response stos bytes_eq pton
redirects_spent = refl

abbrev named : UrlComponents
named = record {
  protocol = codes "http";
  host = codes "t.org";
  port = 80;
  path = codes "/";
  query = [];
}

named-IsPrintable : IsPrintable named
unfolding to_lower
named-IsPrintable = record {
  lower = refl;
  protocol_free = (refl, (refl, (refl, (refl, tt))));
  host_free = (refl, (refl, (refl, (refl, (refl, tt)))));
  host_ends = (refl, (refl, (refl, (refl, (refl, tt)))));
  path_free = (refl, tt);
  path_begins = ([], refl);
  query_begins = inl refl;
}

port_fits : 80 < 2 ^ 31
port_fits = omega arith

request_name_example :
    request pton 3 (λ n. redirection) Request.post [] (codes "x") limited (codes "http://t.org:80/")
    ≡ (limited, [], throw runtime_error)
unfolding to_string c_str
request_name_example =
    request_name pton 3 (λ n. redirection) Request.post [] (codes "x") pton-RefusesNames limited
      named named-IsPrintable port_fits refl

is_loopback_default : is_loopback default_address ≡ false
unfolding is_loopback bytes_eq
is_loopback_default = refl
