-- ===== src/Network/Response/Framing.antt =====
-- Printed header lines, and where a reader finds their end: `parse_response`.
use dht_hunter.Base.{
  ℕ, ◌≡◌, refl, ap, ◌∙◌, false, ◌==◌, List, [], ◌∷◌, ◌++◌, append_assoc, append-nil, map, Option,
  none, some, All,
}
use dht_hunter.Base.Text.{codes, to_string}
use dht_hunter.Network.Buffer.{Buffer}
use dht_hunter.Network.Url.{strip, split_at_text, cons_before, found_here}
use dht_hunter.Network.Url.RoundTrip.{IsFree, IsFree-append}
use dht_hunter.Network.Response.{
  Headers, set_header, at_start, inside, get_lines, trim, end_of_headers,
}

abbrev pub print_status : ℕ → List ℕ → List ℕ
print_status code reason = codes "HTTP/1.1 " ++ (to_string code ++ (b' ' ∷ reason))

abbrev pub header_line : List ℕ × List ℕ → List ℕ
header_line (name, value) = name ++ (b':' ∷ b' ' ∷ value)

abbrev pub print_headers : Headers → List ℕ
print_headers [] = []
print_headers (h ∷ headers) = b'\r' ∷ b'\n' ∷ (header_line h ++ print_headers headers)

abbrev pub print_response : ℕ → List ℕ → Headers → Buffer → List ℕ
print_response code reason headers body =
    print_status code reason ++ (print_headers headers ++ (end_of_headers ++ body))

-- A name and a value that end no line.
abbrev pub IsLine : List ℕ × List ℕ → Type 0
IsLine (name, value) = IsFree b'\r' name × IsFree b'\r' value

-- A name without ':', and a value without blanks at its ends, both without '\r'.
abbrev pub IsHeader : List ℕ × List ℕ → Type 0
IsHeader (name, value) = IsLine (name, value) × IsFree b':' name × (trim value ≡ value)

pub IsHeader-lines : (headers : Headers) → All IsHeader headers → All IsLine headers
IsHeader-lines [] all = tt
IsHeader-lines ((name, value) ∷ headers) (h, all) = (h.0, IsHeader-lines headers all)

-- The headers, put into a map one after the other.
abbrev pub set_all : Headers → Headers → Headers
set_all [] headers = headers
set_all ((name, value) ∷ more) headers = set_all more (set_header name value headers)

abbrev prepend : List ℕ → Option (List ℕ × List ℕ) → Option (List ℕ × List ℕ)
prepend [] o = o
prepend (x ∷ s) o = cons_before x (prepend s o)

prepend_found : (s a b : List ℕ) → prepend s (some (a, b)) ≡ some (s ++ a, b)
prepend_found [] a b = refl
prepend_found (x ∷ s) a b = ap (cons_before x) (prepend_found s a b)

strip_end_ne : (x : ℕ) (s : List ℕ) → (x == b'\r') ≡ false → strip end_of_headers (x ∷ s) ≡ none
unfolding strip
strip_end_ne x s h = rw h refl

strip_line_ne :
    (x : ℕ) (s : List ℕ)
    → (x == b'\r') ≡ false
    → strip end_of_headers (b'\r' ∷ b'\n' ∷ x ∷ s) ≡ none
unfolding strip
strip_line_ne x s h = rw h refl

split_cons :
    (x : ℕ) (s : List ℕ)
    → strip end_of_headers (x ∷ s) ≡ none
    → split_at_text end_of_headers (x ∷ s) ≡ cons_before x (split_at_text end_of_headers s)
unfolding split_at_text
split_cons x s h = ap (λ o. found_here o (cons_before x (split_at_text end_of_headers s))) h

split_free :
    (s t : List ℕ)
    → IsFree b'\r' s
    → split_at_text end_of_headers (s ++ t) ≡ prepend s (split_at_text end_of_headers t)
split_free [] t h = refl
split_free (x ∷ s) t (h, free) =
    split_cons x (s ++ t) (strip_end_ne x (s ++ t) h) ∙ ap (cons_before x) (split_free s t free)

split_line :
    (x : ℕ) (s : List ℕ)
    → (x == b'\r') ≡ false
    → split_at_text end_of_headers (b'\r' ∷ b'\n' ∷ x ∷ s)
      ≡ cons_before b'\r' (cons_before b'\n' (split_at_text end_of_headers (x ∷ s)))
split_line x s h =
    split_cons b'\r' (b'\n' ∷ x ∷ s) (strip_line_ne x s h)
    ∙ ap (cons_before b'\r') (split_cons b'\n' (x ∷ s) (strip_end_ne b'\n' (x ∷ s) refl))

split_header_line :
    (name value s : List ℕ)
    → IsFree b'\r' name
    → split_at_text end_of_headers (b'\r' ∷ b'\n' ∷ (header_line (name, value) ++ s))
      ≡ cons_before b'\r'
          (cons_before b'\n' (split_at_text end_of_headers (header_line (name, value) ++ s)))
split_header_line [] value s h = split_line b':' (b' ' ∷ (value ++ s)) refl
split_header_line (x ∷ name) value s (h, free) = split_line x (header_line (name, value) ++ s) h

header_line-IsFree : (h : List ℕ × List ℕ) → IsLine h → IsFree b'\r' (header_line h)
header_line-IsFree (name, value) (b, c) =
    IsFree-append b'\r' name (b':' ∷ b' ' ∷ value) b (refl, (refl, c))

split_end :
    (body : List ℕ) → split_at_text end_of_headers (end_of_headers ++ body) ≡ some ([], body)
unfolding split_at_text strip
split_end body = refl

split_headers :
    (headers : Headers) (body : List ℕ)
    → All IsLine headers
    → split_at_text end_of_headers (print_headers headers ++ (end_of_headers ++ body))
      ≡ some (print_headers headers, body)
split_headers [] body all = split_end body
split_headers (h ∷ headers) body (is_line, all) =
    let line = header_line h in
    let rest = print_headers headers in
    let tail = end_of_headers ++ body in
    ap (λ s. split_at_text end_of_headers (b'\r' ∷ b'\n' ∷ s)) (append_assoc line rest tail)
    ∙ split_header_line h.0 h.1 (rest ++ tail) is_line.0
    ∙ ap (λ o. cons_before b'\r' (cons_before b'\n' o))
        (split_free line (rest ++ tail) (header_line-IsFree h is_line)
          ∙ ap (prepend line) (split_headers headers body all)
          ∙ prepend_found line rest body)

pub split_response :
    (line : List ℕ) (headers : Headers) (body : List ℕ)
    → IsFree b'\r' line
    → All IsLine headers
    → split_at_text end_of_headers (line ++ (print_headers headers ++ (end_of_headers ++ body)))
      ≡ some (line ++ print_headers headers, body)
split_response line headers body free all =
    split_free line (print_headers headers ++ (end_of_headers ++ body)) free
    ∙ ap (prepend line) (split_headers headers body all)
    ∙ prepend_found line (print_headers headers) body

get_lines_last : (s : List ℕ) → IsFree b'\r' s → get_lines inside s ≡ s ∷ []
unfolding get_lines
get_lines_last [] h = refl
get_lines_last (x ∷ s) (h, free) = rw (h, get_lines_last s free) refl

get_lines_free :
    (s t : List ℕ)
    → IsFree b'\r' s
    → get_lines inside (s ++ (b'\r' ∷ b'\n' ∷ t)) ≡ s ∷ get_lines at_start t
unfolding get_lines
get_lines_free [] t h = refl
get_lines_free (x ∷ s) t (h, free) = rw (h, get_lines_free s t free) refl

pub get_lines_start :
    (name value t : List ℕ)
    → get_lines at_start (header_line (name, value) ++ t)
      ≡ get_lines inside (header_line (name, value) ++ t)
unfolding get_lines
get_lines_start [] value t = refl
get_lines_start (x ∷ name) value t = refl

pub get_lines-print_headers :
    (line : List ℕ) (headers : Headers)
    → IsFree b'\r' line
    → All IsLine headers
    → get_lines inside (line ++ print_headers headers) ≡ line ∷ map header_line headers
get_lines-print_headers line [] free all =
    ap (get_lines inside) (append-nil line) ∙ get_lines_last line free
get_lines-print_headers line (h ∷ headers) free (is_line, all) =
    get_lines_free line (header_line h ++ print_headers headers) free
    ∙ ap (λ lines. line ∷ lines)
        (get_lines_start h.0 h.1 (print_headers headers)
          ∙ get_lines-print_headers (header_line h) headers (header_line-IsFree h is_line) all)
