-- ===== src/Network/Client/Names.antt =====
-- `HTTPClient::request` with host names: modules/network/src/http_client.cpp.
use dht_hunter.Base.{
  ◌%◌, Result, ℕ, ◌<◌, ◌^◌, ◌≡◌, refl, ap, ◌∙◌, Bool, true, false, ◌&&◌, ◌||◌, ◌==◌, List, [], ◌∷◌,
  Option, none, throw, runtime_error, ◌>>=◌,
}
use dht_hunter.Base.Text.{codes, isdigit, c_str}
use dht_hunter.Network.Buffer.{Buffer}
use dht_hunter.Network.Address.{AddressFamily, ipv4, family_of, make_address, is_some, is_loopback}
use dht_hunter.Network.Url.{UrlComponents}
use dht_hunter.Network.Url.RoundTrip.{
  IsFree, split_at_missing, IsPrintable, print_url, parse-print_url,
}
use dht_hunter.Network.Response.{Headers, parse_response}
use dht_hunter.Network.Request.{HttpMethod}
use dht_hunter.Network.Client.{
  Sent, HttpClient, Answer, perform, follow, request, remaining, with_result, behind_sent, resume,
  next,
}

abbrev pub is_numeric : List ℕ → Bool
is_numeric [] = true
is_numeric (c ∷ s) = (isdigit c || c == b'.') && is_numeric s

-- inet_pton reads an IPv4 address of digits and dots only, given as a text that ends at its NUL.
abbrev pub RefusesNames : (AddressFamily → List ℕ → Option (List ℕ)) → Type 0
RefusesNames inet_pton = (text : List ℕ) → is_numeric text ≡ false → inet_pton ipv4 text ≡ none

family_of-IsFree : (text : List ℕ) → IsFree b':' text → family_of text ≡ ipv4
unfolding family_of
family_of-IsFree text free = rw (family_of, split_at_missing b':' text free) refl

make_address_name :
    (inet_pton : AddressFamily → List ℕ → Option (List ℕ))
    → RefusesNames inet_pton
    → (text : List ℕ) (port : ℕ) → IsFree b':' text
    → is_numeric (c_str text) ≡ false
    → (make_address inet_pton text port).valid ≡ false
unfolding make_address
make_address_name inet_pton refuses text port free name =
    ap (λ f. is_some (inet_pton f (c_str text))) (family_of-IsFree text free)
    ∙ ap is_some (refuses (c_str text) name)

module _ (inet_pton : AddressFamily → List ℕ → Option (List ℕ)) (rounds : ℕ) (answer : ℕ → Answer)
    (method : HttpMethod) (headers : Headers) (body : Buffer) where
  perform_name :
      RefusesNames inet_pton
      → (n : ℕ) (c : UrlComponents) → IsFree b':' c.host
      → is_numeric (c_str c.host) ≡ false
      → perform inet_pton rounds answer method headers body n c ≡ ([], throw runtime_error)
  unfolding perform
  perform_name refuses n c free name =
      rw (perform, make_address_name inet_pton refuses c.host c.port free name) refl

  -- A printed URL whose port fits an int, and whose host has, in front of any NUL, a byte that is no
  -- digit and no dot, is read, and then nothing is sent: the call throws and leaves the client as it was. The
  -- host is not resolved, but taken for a numeric address, which inet_pton refuses.
  pub request_name :
      RefusesNames inet_pton
      → (client : HttpClient) (u : UrlComponents) → IsPrintable u
      → u.port < 2 ^ 31
      → is_numeric (c_str u.host) ≡ false
      → request inet_pton rounds answer method headers body client (print_url u)
        ≡ (client, [], throw runtime_error)
  unfolding request follow
  request_name refuses client u printable small name =
      let again =
        follow inet_pton rounds answer method headers body (remaining client.max_redirects) 1 in
      let finish = λ (p : List Sent × Result Buffer).
        behind_sent p.0
          (with_result client (p.1 >>= parse_response >>= next client) (resume client again)) in
      ap
        (λ m.
          with_result client m
            (λ c. finish (perform inet_pton rounds answer method headers body 0 c)))
        (parse-print_url u printable small)
      ∙ ap finish
          (perform_name refuses 0 (record u { port = u.port % 65536 }) printable.host_free name)

-- The loopback test asks for the text "localhost", which no valid address has.
is_loopback-make_address :
    (inet_pton : AddressFamily → List ℕ → Option (List ℕ))
    → RefusesNames inet_pton
    → (port : ℕ) → is_loopback (make_address inet_pton (codes "localhost") port) ≡ false
unfolding is_loopback c_str
is_loopback-make_address inet_pton refuses port =
    rw
      (
        is_loopback,
        make_address_name inet_pton refuses (codes "localhost") port
            (refl, (refl, (refl, (refl, (refl, (refl, (refl, (refl, (refl, tt))))))))) refl,
      )
      refl
