-- ===== src/Network/Request/Framing.antt =====
-- The parts of the bytes that `HTTPClient::request` sends.
use dht_hunter.Base.{
  ℕ, ◌≡◌, refl, sym, ap, ◌∙◌, List, [], ◌∷◌, ◌++◌, append_assoc, Option, none, some, length,
}
use dht_hunter.Base.Text.{codes, to_string}
use dht_hunter.Network.Buffer.{Buffer}
use dht_hunter.Network.Url.{UrlComponents}
use dht_hunter.Network.Response.{Headers, end_of_headers}
use dht_hunter.Network.Response.Framing.{header_line, print_headers}
use dht_hunter.Network.Request.{
  HttpMethod, method_to_string, find_header, host_port, add_headers, content_length, add_connection,
  request_stream, request_buffer,
}

abbrev pub request_line : HttpMethod → UrlComponents → List ℕ
request_line method c =
    method_to_string method ++ (codes " " ++ (c.path ++ (c.query ++ codes " HTTP/1.1")))

abbrev pub length_header : Buffer → Headers
length_header [] = []
length_header (x ∷ body) = (codes "Content-Length", to_string (length (x ∷ body))) ∷ []

abbrev pub connection_header : Option (List ℕ) → Headers
connection_header none = (codes "Connection", codes "close") ∷ []
connection_header (some value) = []

-- The host with the port where it is named, the caller's headers, the length of a body, and a close
-- of the connection where the caller does not speak of it.
abbrev pub request_headers : UrlComponents → Headers → Buffer → Headers
request_headers c headers body =
    (codes "Host", c.host ++ host_port c)
    ∷ (headers
        ++ (length_header body ++ connection_header (find_header (codes "Connection") headers)))

add_header_assoc :
    (name value s t : List ℕ)
    → (name ++ (codes ": " ++ (value ++ s))) ++ t ≡ name ++ (codes ": " ++ (value ++ (s ++ t)))
add_header_assoc name value s t =
    append_assoc name (codes ": " ++ (value ++ s)) t
    ∙ ap (λ u. name ++ (codes ": " ++ u)) (append_assoc value s t)

-- Header lines with their ends behind them are the same lines with the ends before them.
add_headers_shift :
    (headers : Headers) (t : List ℕ)
    → codes "\r\n" ++ (add_headers headers ++ t) ≡ print_headers headers ++ (codes "\r\n" ++ t)
add_headers_shift [] t = refl
add_headers_shift ((name, value) ∷ headers) t =
    ap (λ u. codes "\r\n" ++ u)
      (add_header_assoc name value (codes "\r\n" ++ add_headers headers) t
        ∙ ap (λ u. name ++ (codes ": " ++ (value ++ u))) (add_headers_shift headers t)
        ∙ sym (
            append_assoc (header_line (name, value)) (print_headers headers) (codes "\r\n" ++ t)
            ∙ append_assoc name (codes ": " ++ value)
                (print_headers headers ++ (codes "\r\n" ++ t))))

content_length_eq : (body : Buffer) → content_length body ≡ add_headers (length_header body)
content_length_eq [] = refl
content_length_eq (x ∷ body) = refl

add_connection_eq : (o : Option (List ℕ)) → add_connection o ≡ add_headers (connection_header o)
add_connection_eq none = refl
add_connection_eq (some value) = refl

add_headers-append : (xs ys : Headers) → add_headers (xs ++ ys) ≡ add_headers xs ++ add_headers ys
add_headers-append [] ys = refl
add_headers-append ((name, value) ∷ xs) ys =
    ap (λ u. name ++ (codes ": " ++ (value ++ (codes "\r\n" ++ u)))) (add_headers-append xs ys)
    ∙ sym (add_header_assoc name value (codes "\r\n" ++ add_headers xs) (add_headers ys))

add_headers_join :
    (xs ys : Headers) (t : List ℕ)
    → add_headers xs ++ (add_headers ys ++ t) ≡ add_headers (xs ++ ys) ++ t
add_headers_join xs ys t =
    sym (append_assoc (add_headers xs) (add_headers ys) t)
    ∙ ap (λ u. u ++ t) (sym (add_headers-append xs ys))

host_line :
    (host port lines t : List ℕ)
    → host ++ (port ++ (codes "\r\n" ++ (lines ++ t)))
      ≡ ((host ++ port) ++ (codes "\r\n" ++ lines)) ++ t
host_line host port lines t = sym (
    append_assoc (host ++ port) (codes "\r\n" ++ lines) t
    ∙ append_assoc host port (codes "\r\n" ++ (lines ++ t)))

-- What stands behind the request line.
stream_headers :
    (c : UrlComponents) (headers : Headers) (body t : List ℕ)
    → codes "Host: "
        ++ (c.host
            ++ (host_port c
                ++ (codes "\r\n"
                    ++ (add_headers headers
                        ++ (content_length body
                            ++ (add_connection (find_header (codes "Connection") headers) ++ t))))))
      ≡ add_headers (request_headers c headers body) ++ t
stream_headers c headers body t =
    let connection = find_header (codes "Connection") headers in
    let more = length_header body ++ connection_header connection in
    ap (λ u. codes "Host: " ++ (c.host ++ (host_port c ++ (codes "\r\n" ++ u))))
      (ap (λ u. add_headers headers ++ u)
          (ap (λ u. u ++ (add_connection connection ++ t)) (content_length_eq body)
            ∙ ap (λ u. add_headers (length_header body) ++ (u ++ t)) (add_connection_eq connection)
            ∙ add_headers_join (length_header body) (connection_header connection) t)
        ∙ add_headers_join headers more t)
    ∙ ap (λ u. codes "Host: " ++ u)
        (host_line c.host (host_port c) (add_headers (headers ++ more)) t)

request_line-append :
    (method : HttpMethod) (c : UrlComponents) (t : List ℕ)
    → request_line method c ++ t
      ≡ method_to_string method ++ (codes " " ++ (c.path ++ (c.query ++ (codes " HTTP/1.1" ++ t))))
request_line-append method c t =
    append_assoc (method_to_string method) (codes " " ++ (c.path ++ (c.query ++ codes " HTTP/1.1")))
      t
    ∙ ap (λ u. method_to_string method ++ (codes " " ++ u))
        (append_assoc c.path (c.query ++ codes " HTTP/1.1") t
          ∙ ap (λ u. c.path ++ u) (append_assoc c.query (codes " HTTP/1.1") t))

request_stream_eq :
    (method : HttpMethod) (c : UrlComponents) (headers : Headers) (body : Buffer)
    → request_stream method c headers body
      ≡ request_line method c
        ++ (codes "\r\n" ++ (add_headers (request_headers c headers body) ++ codes "\r\n"))
unfolding request_stream
request_stream_eq method c headers body =
    ap
      (λ u.
        method_to_string method
        ++ (codes " " ++ (c.path ++ (c.query ++ (codes " HTTP/1.1\r\n" ++ u)))))
      (stream_headers c headers body (codes "\r\n"))
    ∙ sym (
        request_line-append method c
          (codes "\r\n" ++ (add_headers (request_headers c headers body) ++ codes "\r\n")))

pub request_buffer_eq :
    (method : HttpMethod) (c : UrlComponents) (headers : Headers) (body : Buffer)
    → request_buffer method c headers body
      ≡ request_line method c
        ++ (print_headers (request_headers c headers body) ++ (end_of_headers ++ body))
unfolding request_buffer
request_buffer_eq method c headers body =
    let lines = add_headers (request_headers c headers body) in
    ap (λ u. u ++ body) (request_stream_eq method c headers body)
    ∙ append_assoc (request_line method c) (codes "\r\n" ++ (lines ++ codes "\r\n")) body
    ∙ ap (λ u. request_line method c ++ u)
        (ap (λ u. codes "\r\n" ++ u) (append_assoc lines (codes "\r\n") body)
          ∙ add_headers_shift (request_headers c headers body) (codes "\r\n" ++ body))
