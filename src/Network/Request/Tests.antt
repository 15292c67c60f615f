-- ===== src/Network/Request/Tests.antt =====
-- Tests and examples for requests.
use dht_hunter.Base.{ℕ, ◌≡◌, refl, List, [], ◌∷◌, some, map, ◌++◌}
use dht_hunter.Base.Text.{codes}
use dht_hunter.Network.Url.{UrlComponents, split_at_text}
use dht_hunter.Network.Response.{Headers, end_of_headers, get_lines, at_start}
use dht_hunter.Network.Request.{post, request_buffer}
use dht_hunter.Network.Response.Framing.{header_line}
use dht_hunter.Network.Request.Framing.{length_header}
use dht_hunter.Network.Request.Lines.{IsPlain, IsPortText, IsClose, request_buffer_lem}

abbrev page : UrlComponents
page = record {
  protocol = codes "http";
  host = codes "h";
  port = 8080;
  path = codes "/a";
  query = codes "?b";
}

page-IsPlain : IsPlain page ((codes "A", codes "1") ∷ [])
page-IsPlain = record {
  host_plain = (refl, tt);
  path_plain = (refl, (refl, tt));
  query_plain = (refl, (refl, tt));
  headers_plain = (((refl, tt), (refl, tt)), tt);
}

abbrev tagged : Headers
tagged = (codes "A", codes "1") ∷ []

request_buffer_lem_example :
    (start port : List ℕ) × (close : Headers) × IsPortText page port
    × IsClose tagged close
    × (split_at_text end_of_headers (request_buffer post page tagged (codes "xy"))
        ≡ some (start, codes "xy"))
    × (get_lines at_start start
        ≡ codes "POST /a?b HTTP/1.1"
          ∷ map header_line (
              (codes "Host", codes "h" ++ port)
              ∷ (tagged ++ (length_header (codes "xy") ++ close))))
request_buffer_lem_example = request_buffer_lem post page tagged (codes "xy") page-IsPlain
