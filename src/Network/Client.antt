-- ===== src/Network/Client.antt =====
-- modules/network/src/http_client.cpp: `HTTPClient`. What the network does with each request is a
-- parameter, as the sockets are the system's: `answer n` is the fate of the n-th one. A request_async
-- runs `request` on another thread.
pub mod Defined
pub mod Redirects
pub mod Names
pub mod Tests
use dht_hunter.Base.{
  ℕ, zero, suc, Bool, true, false, ◌&&◌, ◌||◌, List, [], ◌∷◌, ◌++◌, Option, none, some, ltb, ◌==◌,
  if◌then◌else◌, Result, ok, throw, undefined, negative_char, out_of_fuel, runtime_error, ◌>>=◌,
  Exception,
}
use dht_hunter.Base.Int.{ℤ, pos, negsuc}
use dht_hunter.Base.Text.{codes}
use dht_hunter.Network.Buffer.{Buffer}
use dht_hunter.Network.Address.{Address, AddressFamily, make_address}
use dht_hunter.Network.Url.{UrlComponents, parse}
use dht_hunter.Network.Response.{Headers, HttpResponse, parse_response}
use dht_hunter.Network.Request.{HttpMethod, find_header, request_buffer}
use dht_hunter.Network.Request

pub record HttpClient : Type 0 where
  pub connection_timeout_ms : ℤ
  pub request_timeout_ms : ℤ
  pub follow_redirects : Bool
  pub max_redirects : ℤ

abbrev pub create_http_client : HttpClient
create_http_client = record {
  connection_timeout_ms = pos 30000;
  request_timeout_ms = pos 30000;
  follow_redirects = true;
  max_redirects = pos 5;
}

abbrev pub set_connection_timeout : ℤ → HttpClient → HttpClient
set_connection_timeout timeout client = record client { connection_timeout_ms = timeout }

abbrev pub set_request_timeout : ℤ → HttpClient → HttpClient
set_request_timeout timeout client = record client { request_timeout_ms = timeout }

abbrev pub set_follow_redirects : Bool → HttpClient → HttpClient
set_follow_redirects follow client = record client { follow_redirects = follow }

abbrev pub set_max_redirects : ℤ → HttpClient → HttpClient
set_max_redirects redirects client = record client { max_redirects = redirects }

-- The connection fails, or the sending, or the response is received: the stream gives the bytes of
-- each `receive` in turn, none where it returns 0 or less.
pub data Answer : Type 0 where
  connect_failed send_failed : Answer
  received : (ℕ → Buffer) → Answer

pub record Sent : Type 0 where
  pub to_address : Address
  pub bytes : Buffer

-- The client afterwards, what it has sent, and what the call comes to.
abbrev pub Outcome : Type 0
Outcome = HttpClient × List Sent × Result HttpResponse

abbrev pub append_chunk : Buffer → Result Buffer → Result Buffer
append_chunk [] rest = ok []
append_chunk (x ∷ chunk) rest = rest >>= λ bytes. ok ((x ∷ chunk) ++ bytes)

-- The loop that receives. Every chunk takes one round of fuel.
unfoldable pub receive_response : ℕ → (ℕ → Buffer) → Result Buffer
receive_response zero stream = out_of_fuel
receive_response (suc fuel) stream =
    append_chunk (stream 0) (receive_response fuel (λ k. stream (suc k)))

unfoldable pub exchange : ℕ → Address → Buffer → Answer → List Sent × Result Buffer
unfolding receive_response
exchange rounds address bytes connect_failed = ([], throw runtime_error)
exchange rounds address bytes send_failed =
    (record { to_address = address; bytes = bytes } ∷ [], throw runtime_error)
exchange rounds address bytes (received stream) =
    (record { to_address = address; bytes = bytes } ∷ [], receive_response rounds stream)

abbrev pub is_redirect : ℤ → Bool
is_redirect (pos n) = n == 301 || n == 302 || n == 303 || n == 307 || n == 308
is_redirect (negsuc n) = false

-- Redirects that the client still follows.
abbrev pub remaining : ℤ → ℕ
remaining (pos n) = n
remaining (negsuc n) = 0

abbrev pub decrement : ℤ → ℤ
decrement (pos zero) = negsuc 0
decrement (pos (suc n)) = pos n
decrement (negsuc n) = negsuc (suc n)

pub data Next : Type 0 where
  finished : HttpResponse → Next
  redirected : List ℕ → Next

abbrev pub next_location : HttpClient → HttpResponse → Option (List ℕ) → Next
next_location client response none = finished response
next_location client response (some url) =
    if ltb 0 (remaining client.max_redirects) then redirected url else finished response

-- A status code that was not set is read: undefined.
abbrev pub next_status : HttpClient → HttpResponse → Option ℤ → Result Next
next_status client response none = undefined
next_status client response (some code) = ok (
    if is_redirect code
    then next_location client response (find_header (codes "Location") response.headers)
    else finished response)

unfoldable pub next : HttpClient → HttpResponse → Result Next
unfolding find_header
next client response =
    if client.follow_redirects
    then next_status client response response.status_code
    else ok (finished response)

abbrev pub with_result {ℓ} : {A : Type ℓ} → HttpClient → Result A → (A → Outcome) → Outcome
with_result client (ok a) f = f a
with_result client (throw e) f = (client, [], throw e)
with_result client undefined f = (client, [], undefined)
with_result client negative_char f = (client, [], negative_char)
with_result client out_of_fuel f = (client, [], out_of_fuel)

abbrev pub behind_sent : List Sent → Outcome → Outcome
behind_sent sent (client, later, result) = (client, sent ++ later, result)

abbrev pub resume : HttpClient → (HttpClient → List ℕ → Outcome) → Next → Outcome
resume client again (finished response) = (client, [], ok response)
resume client again (redirected url) =
    again (record client { max_redirects = decrement client.max_redirects }) url

-- `rounds` is the fuel of the loop that receives.
module _ (inet_pton : AddressFamily → List ℕ → Option (List ℕ)) (rounds : ℕ) (answer : ℕ → Answer)
    (method : HttpMethod) (headers : Headers) (body : Buffer) where
  -- A connection is made to a valid address only.
  unfoldable pub perform : ℕ → UrlComponents → List Sent × Result Buffer
  unfolding make_address request_buffer exchange
  perform n c =
      let address = make_address inet_pton c.host c.port in
      if address.valid
      then exchange rounds address (request_buffer method c headers body) (answer n)
      else ([], throw runtime_error)

  -- Every redirect takes one round of fuel.
  unfoldable pub follow : ℕ → ℕ → HttpClient → List ℕ → Outcome
  unfolding parse perform parse_response next
  follow zero n client url = (client, [], out_of_fuel)
  follow (suc fuel) n client url = with_result client (parse url) (λ c.
      behind_sent (perform n c).0 (
        with_result client ((perform n c).1 >>= parse_response >>= next client)
          (resume client (follow fuel (suc n)))))

  unfoldable pub request : HttpClient → List ℕ → Outcome
  unfolding follow
  request client url = follow (suc (remaining client.max_redirects)) 0 client url

module _ (inet_pton : AddressFamily → List ℕ → Option (List ℕ)) (rounds : ℕ)
    (answer : ℕ → Answer) where
  unfoldable pub get : HttpClient → List ℕ → Headers → Outcome
  unfolding request
  get client url headers = request inet_pton rounds answer Request.get headers [] client url

  unfoldable pub post : HttpClient → List ℕ → Headers → Buffer → Outcome
  unfolding request
  post client url headers body =
      request inet_pton rounds answer Request.post headers body client url
