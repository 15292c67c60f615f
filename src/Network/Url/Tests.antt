-- ===== src/Network/Url/Tests.antt =====
-- Tests and examples for URLs.
use dht_hunter.Base.{◌^◌, ◌≡◌, refl, inr, [], ok, arith, ◌<◌, bytes_eq}
use dht_hunter.Base.Text.{codes, to_string}
use dht_hunter.Network.Url.{UrlComponents, parse, to_lower}
use dht_hunter.Network.Url.RoundTrip.{IsPrintable, parse-print_url}

abbrev tracker : UrlComponents
tracker = record {
  protocol = codes "http";
  host = codes "t.org";
  port = 65616;
  path = codes "/add";
  query = codes "?n=1";
}

tracker-IsPrintable : IsPrintable tracker
unfolding to_lower
tracker-IsPrintable = record {
  lower = refl;
  protocol_free = (refl, (refl, (refl, (refl, tt))));
  host_free = (refl, (refl, (refl, (refl, (refl, tt)))));
  host_ends = (refl, (refl, (refl, (refl, (refl, tt)))));
  path_free = (refl, (refl, (refl, (refl, tt))));
  path_begins = (codes "add", refl);
  query_begins = inr (codes "n=1", refl);
}

port_fits : 65616 < 2 ^ 31
port_fits = omega arith

parse-print_url_example :
    parse (codes "http://t.org:65616/add?n=1")
    ≡ ok (record {
      protocol = codes "http";
      host = codes "t.org";
      port = 80;
      path = codes "/add";
      query = codes "?n=1";
    })
unfolding to_string
parse-print_url_example = parse-print_url tracker tracker-IsPrintable port_fits

parse_default_port :
    parse (codes "HTTPS://t.org")
    ≡ ok (record {
      protocol = codes "https";
      host = codes "t.org";
      port = 443;
      path = codes "/";
      query = [];
    })
unfolding parse bytes_eq
parse_default_port = refl
