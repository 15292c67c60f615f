-- ===== src/Network/Client/Redirects.antt =====
-- The requests that one call of `HTTPClient::request` sends, and the redirects that are left.
use dht_hunter.Base.{
  ℕ, zero, suc, ◌+◌, ◌<◌, ◌≤◌, ◌≡◌, refl, Bool, true, false, List, [], ◌∷◌, ◌++◌, ◌⊎◌, inl, inr,
  Option, none, some, ltb, length, if◌then◌else◌, Result, ok, throw, undefined, negative_char,
  out_of_fuel, returns, throws, runtime_error, ◌>>=◌, arith, Exception,
}
use dht_hunter.Base.Int.{ℤ, pos, negsuc}
use dht_hunter.Base.Text.{codes}
use dht_hunter.Network.Buffer.{Buffer}
use dht_hunter.Network.Address.{Address, AddressFamily, make_address}
use dht_hunter.Network.Url.{UrlComponents, parse}
use dht_hunter.Network.Response.{Headers, HttpResponse, parse_response}
use dht_hunter.Network.Request.{HttpMethod, find_header, request_buffer}
use dht_hunter.Network.Client.{
  HttpClient, Answer, connect_failed, send_failed, received, Sent, Outcome, exchange, is_redirect,
  remaining, decrement, append_chunk, receive_response, Next, finished, redirected, next_location,
  next_status, next, with_result, behind_sent, resume, perform, follow, request,
}
use dht_hunter.Network.Client.Defined.{Defined, parse-Defined, parse_response-Defined}

-- The call returns or reads a status code that was not set, and the requests sent and the redirects
-- left make up one more than the redirects that it had; or it throws, and they are no more.
pub data Accounts (k : ℕ) : Outcome → Type 0 where
  answered :
      {client : HttpClient} {sent : List Sent} {response : HttpResponse}
      → length sent + remaining client.max_redirects ≡ suc k
      → Accounts k (client, sent, ok response)
  unset :
      {client : HttpClient} {sent : List Sent}
      → length sent + remaining client.max_redirects ≡ suc k
      → Accounts k (client, sent, undefined)
  failed :
      {client : HttpClient} {sent : List Sent} {e : Exception}
      → length sent + remaining client.max_redirects ≤ suc k
      → Accounts k (client, sent, throw e)

data IsPerformed : List Sent × Result Buffer → Type 0 where
  answered_to : (sent : Sent) (bytes : Buffer) → IsPerformed (sent ∷ [], ok bytes)
  not_sent : (e : Exception) → IsPerformed ([], throw e)
  not_answered : (sent : Sent) (e : Exception) → IsPerformed (sent ∷ [], throw e)

-- Where the connection is made and the request sent, one of the first `rounds` receives ends the
-- loop.
abbrev pub Closes : ℕ → Answer → Type 0
Closes rounds connect_failed = Unit
Closes rounds send_failed = Unit
Closes rounds (received stream) = (k : ℕ) × (k < rounds) × (stream k ≡ [])

at_chunk :
    (chunk : Buffer) (m : Result Buffer)
    → ((bytes : Buffer) × (m ≡ ok bytes)) ⊎ (chunk ≡ [])
    → (bytes : Buffer) × (append_chunk chunk m ≡ ok bytes)
at_chunk [] m h = ([], refl)
at_chunk (x ∷ chunk) m (inl (bytes, e)) = ((x ∷ chunk) ++ bytes, rw e refl)
at_chunk (x ∷ chunk) m (inr e) = absurd (cc)

receive_response-closes :
    (fuel : ℕ) (stream : ℕ → Buffer) (k : ℕ)
    → k < fuel
    → stream k ≡ []
    → (bytes : Buffer) × (receive_response fuel stream ≡ ok bytes)
unfolding receive_response
receive_response-closes zero stream k enough closed = absurd (omega arith)
receive_response-closes (suc fuel) stream zero enough closed =
    at_chunk (stream 0) (receive_response fuel (λ j. stream (suc j))) (inr closed)
receive_response-closes (suc fuel) stream (suc k) enough closed =
    at_chunk (stream 0) (receive_response fuel (λ j. stream (suc j)))
      (inl (receive_response-closes fuel (λ j. stream (suc j)) k (omega arith) closed))

exchange-IsPerformed :
    (rounds : ℕ) (address : Address) (bytes : Buffer) (a : Answer)
    → Closes rounds a
    → IsPerformed (exchange rounds address bytes a)
unfolding exchange
exchange-IsPerformed rounds address bytes connect_failed closes = not_sent runtime_error
exchange-IsPerformed rounds address bytes send_failed closes =
    not_answered (record { to_address = address; bytes = bytes }) runtime_error
exchange-IsPerformed rounds address bytes (received stream) (k, few, closed) =
    let (response, e) = receive_response-closes rounds stream k few closed in
    rw e (answered_to (record { to_address = address; bytes = bytes }) response)

data IsNext (left : ℕ) : Result Next → Type 0 where
  ends : (response : HttpResponse) → IsNext left (ok (finished response))
  goes_on : (url : List ℕ) → 0 < left → IsNext left (ok (redirected url))
  reads_unset : IsNext left undefined

next_location-IsNext :
    (client : HttpClient) (response : HttpResponse) (location : Option (List ℕ))
    → IsNext (remaining client.max_redirects) (ok (next_location client response location))
next_location-IsNext client response none = ends response
next_location-IsNext client response (some url) =
    at_test (ltb 0 (remaining client.max_redirects)) refl
  where
    at_test :
        (test : Bool)
        → ltb 0 (remaining client.max_redirects) ≡ test
        → IsNext
            (remaining client.max_redirects)
            (ok (if test then redirected url else finished response))
    at_test true h = goes_on url (ground arith)
    at_test false h = ends response

next_status-IsNext :
    (client : HttpClient) (response : HttpResponse) (status : Option ℤ)
    → IsNext (remaining client.max_redirects) (next_status client response status)
next_status-IsNext client response none = reads_unset
next_status-IsNext client response (some code) = at_code (is_redirect code)
  where
    at_code :
        (test : Bool)
        → IsNext (remaining client.max_redirects) (
            ok (
              if test
              then next_location client response (find_header (codes "Location") response.headers)
              else finished response))
    at_code true =
        next_location-IsNext client response (find_header (codes "Location") response.headers)
    at_code false = ends response

next-IsNext :
    (client : HttpClient) (response : HttpResponse)
    → IsNext (remaining client.max_redirects) (next client response)
unfolding next
next-IsNext client response = at_flag client.follow_redirects
  where
    at_flag :
        (follows : Bool)
        → IsNext (remaining client.max_redirects) (
            if follows
            then next_status client response response.status_code
            else ok (finished response))
    at_flag true = next_status-IsNext client response response.status_code
    at_flag false = ends response

remaining-decrement : (z : ℤ) → 0 < remaining z → suc (remaining (decrement z)) ≡ remaining z
remaining-decrement (pos zero) h = absurd (omega arith)
remaining-decrement (pos (suc n)) h = refl
remaining-decrement (negsuc n) h = absurd (omega arith)

one_more :
    (k k' : ℕ) (s : Sent) (o : Outcome)
    → suc k' ≡ k
    → Accounts k' o
    → Accounts k (behind_sent (s ∷ []) o)
one_more k k' s (client, sent, ok response) e (answered h) = answered (omega arith)
one_more k k' s (client, sent, undefined) e (unset h) = unset (omega arith)
one_more k k' s (client, sent, throw x) e (failed h) = failed (omega arith)
one_more k k' s (client, sent, negative_char) e h = elim h [ ]
one_more k k' s (client, sent, out_of_fuel) e h = elim h [ ]

module _ (client : HttpClient) (again : HttpClient → List ℕ → Outcome)
    (account : (later : HttpClient) (url : List ℕ)
      → remaining later.max_redirects < remaining client.max_redirects
      → Accounts (remaining later.max_redirects) (again later url)) where
  Accounts-next :
      (s : Sent) (m : Result Next)
      → IsNext (remaining client.max_redirects) m
      → Accounts
          (remaining client.max_redirects)
          (behind_sent (s ∷ []) (with_result client m (resume client again)))
  Accounts-next s m (ends response) = answered (omega arith)
  Accounts-next s m reads_unset = unset (omega arith)
  Accounts-next s m (goes_on url left) =
      let fewer = remaining-decrement client.max_redirects left in
      one_more (remaining client.max_redirects) (remaining (decrement client.max_redirects)) s
        (again (record client { max_redirects = decrement client.max_redirects }) url) fewer
        (account (record client { max_redirects = decrement client.max_redirects }) url
          (omega arith))

  Accounts-response :
      (s : Sent) (r : Result HttpResponse)
      → Defined r
      → Accounts
          (remaining client.max_redirects)
          (behind_sent (s ∷ []) (with_result client (r >>= next client) (resume client again)))
  Accounts-response s r (returns {a} h) = Accounts-next s (next client a) (next-IsNext client a)
  Accounts-response s r throws = failed (omega arith)

  Accounts-performed :
      (p : List Sent × Result Buffer)
      → IsPerformed p
      → Accounts (remaining client.max_redirects) (
          behind_sent p.0
            (with_result client (p.1 >>= parse_response >>= next client) (resume client again)))
  Accounts-performed p (answered_to s bytes) =
      Accounts-response s (parse_response bytes) (parse_response-Defined bytes)
  Accounts-performed p (not_sent e) = failed (omega arith)
  Accounts-performed p (not_answered s e) = failed (omega arith)

Accounts-parsed :
    (client : HttpClient) (m : Result UrlComponents) (f : UrlComponents → Outcome)
    → Defined m
    → ((c : UrlComponents) → Accounts (remaining client.max_redirects) (f c))
    → Accounts (remaining client.max_redirects) (with_result client m f)
Accounts-parsed client m f (returns {a} h) account = account a
Accounts-parsed client m f throws account = failed (omega arith)

module _ (inet_pton : AddressFamily → List ℕ → Option (List ℕ)) (rounds : ℕ) (answer : ℕ → Answer)
    (closes : (n : ℕ) → Closes rounds (answer n)) (method : HttpMethod) (headers : Headers)
    (body : Buffer) where
  perform-IsPerformed :
      (n : ℕ) (c : UrlComponents)
      → IsPerformed (perform inet_pton rounds answer method headers body n c)
  unfolding perform
  perform-IsPerformed n c = at_valid (make_address inet_pton c.host c.port).valid
    where
      at_valid :
          (valid : Bool)
          → IsPerformed (
              if valid
              then exchange rounds
                  (make_address inet_pton c.host c.port)
                  (request_buffer method c headers body)
                  (answer n)
              else ([], throw runtime_error))
      at_valid true =
          exchange-IsPerformed rounds (make_address inet_pton c.host c.port)
            (request_buffer method c headers body) (answer n) (closes n)
      at_valid false = not_sent runtime_error

  follow-Accounts :
      (fuel n : ℕ) (client : HttpClient) (url : List ℕ)
      → remaining client.max_redirects < fuel
      → Accounts
          (remaining client.max_redirects)
          (follow inet_pton rounds answer method headers body fuel n client url)
  unfolding follow
  follow-Accounts zero n client url enough = absurd (omega arith)
  follow-Accounts (suc fuel) n client url enough =
      Accounts-parsed client (parse url)
        (λ c. behind_sent (perform inet_pton rounds answer method headers body n c).0 (
          with_result client
            ((perform inet_pton rounds answer method headers body n c).1
              >>= parse_response
              >>= next client)
            (resume client (follow inet_pton rounds answer method headers body fuel (suc n)))))
        (parse-Defined url)
        (λ c.
          Accounts-performed client
            (follow inet_pton rounds answer method headers body fuel (suc n))
            (λ later url fewer. follow-Accounts fuel (suc n) later url (omega arith))
            (perform inet_pton rounds answer method headers body n c) (perform-IsPerformed n c))

  -- A request ends where each server ends its answer, by closing the connection or a failure, after
  -- fewer than `rounds` chunks; else the loop that receives has no limit of its own. The redirects
  -- that the client has left are fuel enough. Where it returns a response, or reads a status code that was not set, the requests that
  -- it sent and the redirects left afterwards make up one more than the redirects left before: no
  -- redirect is given back, and the limit is one for all requests of the client. Where it throws, they
  -- are no more than that.
  pub request-Accounts :
      (client : HttpClient) (url : List ℕ)
      → Accounts
          (remaining client.max_redirects)
          (request inet_pton rounds answer method headers body client url)
  unfolding request
  request-Accounts client url =
      follow-Accounts (suc (remaining client.max_redirects)) 0 client url (omega arith)
