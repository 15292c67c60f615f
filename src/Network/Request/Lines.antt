-- ===== src/Network/Request/Lines.antt =====
-- The lines of what `HTTPClient::request` sends, as a reader of lines takes them.
use dht_hunter.Base.{
  ℕ, ◌≡◌, ◌≢◌, refl, sym, subst, ap, ◌∙◌, inl, inr, ◌==◌, Bool-cases, bytes_eq, bytes_eq_iff, arith,
  List, [], ◌∷◌, ◌++◌, map, Option, none, some, All, if◌then◌else◌, length, Bool, true, false,
}
use dht_hunter.Base.Text.{codes, to_string}
use dht_hunter.Base.Text.RoundTrip.{to_string-IsDigit}
use dht_hunter.Network.Buffer.{Buffer}
use dht_hunter.Network.Url.{UrlComponents, split_at_text}
use dht_hunter.Network.Url.RoundTrip.{IsFree, IsFree-append, digits-IsFree}
use dht_hunter.Network.Response.{Headers, end_of_headers, get_lines, at_start, inside}
use dht_hunter.Network.Response.RoundTrip.{carriage_return_small}
use dht_hunter.Network.Response.Framing.{
  header_line, print_headers, IsLine, split_response, get_lines-print_headers,
}
use dht_hunter.Network.Request.{
  HttpMethod, get, post, put, delete, head, options, patch, method_to_string, find_header,
  names_port, host_port, request_buffer,
}
use dht_hunter.Network.Request.Framing.{
  request_line, length_header, connection_header, request_headers, request_buffer_eq,
}

-- The parts of a request that the caller gives have no '\r'.
pub record IsPlain (c : UrlComponents) (headers : Headers) : Type 0 where
  pub host_plain : IsFree b'\r' c.host
  pub path_plain : IsFree b'\r' c.path
  pub query_plain : IsFree b'\r' c.query
  pub headers_plain : All IsLine headers

method-IsFree : (method : HttpMethod) → IsFree b'\r' (method_to_string method)
method-IsFree get = (refl, (refl, (refl, tt)))
method-IsFree post = (refl, (refl, (refl, (refl, tt))))
method-IsFree put = (refl, (refl, (refl, tt)))
method-IsFree delete = (refl, (refl, (refl, (refl, (refl, (refl, tt))))))
method-IsFree head = (refl, (refl, (refl, (refl, tt))))
method-IsFree options = (refl, (refl, (refl, (refl, (refl, (refl, (refl, tt)))))))
method-IsFree patch = (refl, (refl, (refl, (refl, (refl, tt)))))

number-IsFree : (n : ℕ) → IsFree b'\r' (to_string n)
number-IsFree n =
    digits-IsFree b'\r' (to_string n) (inl carriage_return_small) (to_string-IsDigit n)

port_text-IsFree : (named : Bool) (n : ℕ) → IsFree b'\r' (if named then b':' ∷ to_string n else [])
port_text-IsFree true n = (refl, number-IsFree n)
port_text-IsFree false n = tt

request_line-IsFree :
    (method : HttpMethod) (c : UrlComponents)
    → IsFree b'\r' c.path
    → IsFree b'\r' c.query
    → IsFree b'\r' (request_line method c)
request_line-IsFree method c path query =
    IsFree-append b'\r' (method_to_string method)
      (codes " " ++ (c.path ++ (c.query ++ codes " HTTP/1.1"))) (method-IsFree method)
      (
        refl,
        IsFree-append b'\r' c.path (c.query ++ codes " HTTP/1.1") path (
            IsFree-append b'\r' c.query (codes " HTTP/1.1") query
              (refl, (refl, (refl, (refl, (refl, (refl, (refl, (refl, (refl, tt)))))))))),
      )

IsLine-append : (xs ys : Headers) → All IsLine xs → All IsLine ys → All IsLine (xs ++ ys)
IsLine-append [] ys h k = k
IsLine-append (x ∷ xs) ys (h, all) k = (h, IsLine-append xs ys all k)

length_header-IsLine : (body : Buffer) → All IsLine (length_header body)
length_header-IsLine [] = tt
length_header-IsLine (x ∷ body) = (
  (
    (
      refl,
      (
        refl,
        (
          refl,
          (
            refl,
            (refl, (refl, (refl, (refl, (refl, (refl, (refl, (refl, (refl, (refl, tt)))))))))),
          ),
        ),
      ),
    ),
    number-IsFree (length (x ∷ body)),
  ),
  tt,
)

connection_header-IsLine : (o : Option (List ℕ)) → All IsLine (connection_header o)
connection_header-IsLine none = (
  (
    (refl, (refl, (refl, (refl, (refl, (refl, (refl, (refl, (refl, (refl, tt)))))))))),
    (refl, (refl, (refl, (refl, (refl, tt))))),
  ),
  tt,
)
connection_header-IsLine (some value) = tt

request_headers-IsLine :
    (c : UrlComponents) (headers : Headers) (body : Buffer)
    → IsPlain c headers
    → All IsLine (request_headers c headers body)
request_headers-IsLine c headers body plain =
    let connection = find_header (codes "Connection") headers in
    let host_value =
      IsFree-append b'\r' c.host (host_port c) plain.host_plain
        (port_text-IsFree (names_port c) c.port) in
    (
      ((refl, (refl, (refl, (refl, tt)))), host_value),
      IsLine-append headers (length_header body ++ connection_header connection) plain.headers_plain
          (IsLine-append (length_header body) (connection_header connection)
            (length_header-IsLine body) (connection_header-IsLine connection)),
    )

get_lines_first :
    (method : HttpMethod) (c : UrlComponents) (t : List ℕ)
    → get_lines at_start (request_line method c ++ t)
      ≡ get_lines inside (request_line method c ++ t)
unfolding get_lines
get_lines_first get c t = refl
get_lines_first post c t = refl
get_lines_first put c t = refl
get_lines_first delete c t = refl
get_lines_first head c t = refl
get_lines_first options c t = refl
get_lines_first patch c t = refl

-- The names of the methods in RFC 9110 and RFC 5789.
abbrev pub verb : HttpMethod → List ℕ
verb get = codes "GET"
verb post = codes "POST"
verb put = codes "PUT"
verb delete = codes "DELETE"
verb head = codes "HEAD"
verb options = codes "OPTIONS"
verb patch = codes "PATCH"

verb_eq : (method : HttpMethod) → method_to_string method ≡ verb method
verb_eq get = refl
verb_eq post = refl
verb_eq put = refl
verb_eq delete = refl
verb_eq head = refl
verb_eq options = refl
verb_eq patch = refl

-- The text behind the host: the port, unless it is the default one, 80 of http and 443 of https, or
-- the protocol is another.
pub data IsPortText (c : UrlComponents) : List ℕ → Type 0 where
  default_http : c.protocol ≡ codes "http" → c.port ≡ 80 → IsPortText c []
  default_https : c.protocol ≡ codes "https" → c.port ≡ 443 → IsPortText c []
  unknown_protocol : c.protocol ≢ codes "http" → c.protocol ≢ codes "https" → IsPortText c []
  named_http : c.protocol ≡ codes "http" → c.port ≢ 80 → IsPortText c (b':' ∷ to_string c.port)
  named_https : c.protocol ≡ codes "https" → c.port ≢ 443 → IsPortText c (b':' ∷ to_string c.port)

bytes_ne : (s t : List ℕ) → bytes_eq s t ≡ false → s ≢ t
bytes_ne s t e same = cc ((bytes_eq_iff s t).1 same)

host_port-IsPortText : (c : UrlComponents) → IsPortText c (host_port c)
unfolding names_port
host_port-IsPortText c = elim (Bool-cases (bytes_eq c.protocol (codes "http"))) [
  | inl http ↦
      let is_http = (bytes_eq_iff c.protocol (codes "http")).0 http in
      let not_https : bytes_eq c.protocol (codes "https") ≡ false =
        subst (λ p. bytes_eq p (codes "https") ≡ false) (sym is_http) (unfold bytes_eq in refl) in
      elim (Bool-cases (c.port == 80)) [
        | inl e ↦ rw (http, not_https, e) (default_http is_http (ground arith))
        | inr e ↦ rw (http, not_https, e) (named_http is_http (λ same. ground arith))
      ]
  | inr no_http ↦ elim (Bool-cases (bytes_eq c.protocol (codes "https"))) [
    | inl https ↦
        let is_https = (bytes_eq_iff c.protocol (codes "https")).0 https in
        elim (Bool-cases (c.port == 443)) [
          | inl e ↦ rw (no_http, https, e) (default_https is_https (ground arith))
          | inr e ↦ rw (no_http, https, e) (named_https is_https (λ same. ground arith))
        ]
    | inr no_https ↦
        rw (no_http, no_https)
          (unknown_protocol (bytes_ne c.protocol (codes "http") no_http)
            (bytes_ne c.protocol (codes "https") no_https))
  ]
]

-- The header line that closes the connection stands where no header of the caller has the name.
pub data IsClose (headers : Headers) : Headers → Type 0 where
  closes :
      All (λ h. h.0 ≢ codes "Connection") headers
      → IsClose headers ((codes "Connection", codes "close") ∷ [])
  caller_decides :
      (before behind : Headers) (value : List ℕ)
      → headers ≡ before ++ ((codes "Connection", value) ∷ behind)
      → IsClose headers []

IsClose-behind :
    (name value : List ℕ) (headers close : Headers)
    → name ≢ codes "Connection"
    → IsClose headers close
    → IsClose ((name, value) ∷ headers) close
IsClose-behind name value headers close other (closes none_of) = closes (other, none_of)
IsClose-behind name value headers close other (caller_decides before behind chosen e) =
    caller_decides ((name, value) ∷ before) behind chosen (ap (λ hs. (name, value) ∷ hs) e)

find_header-IsClose :
    (headers : Headers)
    → IsClose headers (connection_header (find_header (codes "Connection") headers))
unfolding find_header
find_header-IsClose [] = closes tt
find_header-IsClose ((name, value) ∷ headers) =
    elim (Bool-cases (bytes_eq name (codes "Connection"))) [
      | inl e ↦ rw e (
          caller_decides [] headers value
            (ap (λ n. (n, value) ∷ headers) ((bytes_eq_iff name (codes "Connection")).0 e)))
      | inr e ↦ rw e (
          IsClose-behind name value headers
            (connection_header (find_header (codes "Connection") headers))
            (bytes_ne name (codes "Connection") e) (find_header-IsClose headers))
    ]

-- What the client sends, where host, path, query and headers have no '\r': the first empty line
-- stands between the header lines and the body, and a reader of lines takes from what stands before
-- it the request line with the name of the method, the host, with the port unless that is 80 of http
-- or 443 of https or the protocol is another, the caller's headers, the length of a body that is not
-- empty, and a close of the connection exactly where no header of the caller is named Connection.
pub request_buffer_lem :
    (method : HttpMethod) (c : UrlComponents) (headers : Headers) (body : Buffer)
    → IsPlain c headers
    → (start port : List ℕ) × (close : Headers) × IsPortText c port
      × IsClose headers close
      × (split_at_text end_of_headers (request_buffer method c headers body) ≡ some (start, body))
      × (get_lines at_start start
          ≡ (verb method ++ (codes " " ++ (c.path ++ (c.query ++ codes " HTTP/1.1"))))
            ∷ map header_line
                ((codes "Host", c.host ++ port) ∷ (headers ++ (length_header body ++ close))))
request_buffer_lem method c headers body plain =
    let line = request_line method c in
    let lines = request_headers c headers body in
    let is_line = request_line-IsFree method c plain.path_plain plain.query_plain in
    let are_lines = request_headers-IsLine c headers body plain in
    (
      line ++ print_headers lines,
      host_port c,
      connection_header (find_header (codes "Connection") headers),
      host_port-IsPortText c,
      find_header-IsClose headers,
      ap (split_at_text end_of_headers) (request_buffer_eq method c headers body)
          ∙ split_response line lines body is_line are_lines,
      get_lines_first method c (print_headers lines)
          ∙ get_lines-print_headers line lines is_line are_lines
          ∙ ap
              (λ m.
                (m ++ (codes " " ++ (c.path ++ (c.query ++ codes " HTTP/1.1"))))
                ∷ map header_line lines)
              (verb_eq method),
    )
