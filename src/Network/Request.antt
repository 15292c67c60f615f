-- ===== src/Network/Request.antt =====
-- modules/network/src/http_client.cpp: the method names, and the bytes that `HTTPClient::request`
-- builds.
pub mod Framing
pub mod Lines
pub mod Tests
use dht_hunter.Base.{
  ℕ, Bool, true, false, ◌&&◌, ◌||◌, List, [], ◌∷◌, ◌++◌, Option, none, some, ◌==◌, not, bytes_eq,
  length, if◌then◌else◌,
}
use dht_hunter.Base.Text.{codes, to_string}
use dht_hunter.Network.Buffer.{Buffer}
use dht_hunter.Network.Url.{UrlComponents}
use dht_hunter.Network.Response.{Headers}

pub data HttpMethod : Type 0 where
  get post put delete head options patch : HttpMethod

abbrev pub method_to_string : HttpMethod → List ℕ
method_to_string get = codes "GET"
method_to_string post = codes "POST"
method_to_string put = codes "PUT"
method_to_string delete = codes "DELETE"
method_to_string head = codes "HEAD"
method_to_string options = codes "OPTIONS"
method_to_string patch = codes "PATCH"

-- `headers.find(name)`.
unfoldable pub find_header : List ℕ → Headers → Option (List ℕ)
find_header name [] = none
find_header name ((other, value) ∷ headers) =
    let rest = find_header name headers in if bytes_eq other name then some value else rest

-- A port other than the default of the protocol.
unfoldable pub names_port : UrlComponents → Bool
names_port c =
    (bytes_eq c.protocol (codes "http") && not (c.port == 80))
    || (bytes_eq c.protocol (codes "https") && not (c.port == 443))

abbrev pub host_port : UrlComponents → List ℕ
host_port c = if names_port c then b':' ∷ to_string c.port else []

abbrev pub add_headers : Headers → List ℕ
add_headers [] = []
add_headers ((name, value) ∷ headers) =
    name ++ (codes ": " ++ (value ++ (codes "\r\n" ++ add_headers headers)))

abbrev pub content_length : Buffer → List ℕ
content_length [] = []
content_length (x ∷ body) =
    codes "Content-Length: " ++ (to_string (length (x ∷ body)) ++ codes "\r\n")

abbrev pub add_connection : Option (List ℕ) → List ℕ
add_connection none = codes "Connection: close\r\n"
add_connection (some value) = []

-- The bytes up to the body, written one after the other.
unfoldable pub request_stream : HttpMethod → UrlComponents → Headers → Buffer → List ℕ
unfolding find_header
request_stream method c headers body =
    method_to_string method
    ++ (codes " "
        ++ (c.path
            ++ (c.query
                ++ (codes " HTTP/1.1\r\n"
                    ++ (codes "Host: "
                        ++ (c.host
                            ++ (host_port c
                                ++ (codes "\r\n"
                                    ++ (add_headers headers
                                        ++ (content_length body
                                            ++ (add_connection
                                                  (find_header (codes "Connection") headers)
                                                ++ codes "\r\n")))))))))))

unfoldable pub request_buffer : HttpMethod → UrlComponents → Headers → Buffer → Buffer
unfolding request_stream
request_buffer method c headers body = request_stream method c headers body ++ body
