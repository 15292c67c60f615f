-- ===== src/Beacon/Filter.antt =====
-- modules/beacon/src/beacon_sink.cpp: what a sink logs; and the line of a message, which
-- console_sink.cpp and file_sink.cpp write in the same way. The time is an argument, as text.
use dht_hunter.Base.{ℕ, Bool, true, false, ◌||◌, List, [], ◌∷◌, ◌++◌, ltb, ◌==◌, if◌then◌else◌}
use dht_hunter.Base.Text.{codes, to_string}
use dht_hunter.Beacon.Severity.{
  BeaconSeverity, BeaconCategory, debug, severity_value, category_value, severity_to_string,
  category_to_string,
}

pub record BeaconSink : Type 0 where
  pub min_severity : BeaconSeverity
  pub categories : List BeaconCategory
  pub filter_categories : Bool

abbrev pub new_sink : BeaconSink
new_sink = record { min_severity = debug; categories = []; filter_categories = false }

abbrev pub set_min_severity : BeaconSeverity → BeaconSink → BeaconSink
set_min_severity severity sink = record sink { min_severity = severity }

abbrev pub set_categories : List BeaconCategory → BeaconSink → BeaconSink
set_categories categories sink = record sink { categories = categories; filter_categories = true }

abbrev pub clear_category_filter : BeaconSink → BeaconSink
clear_category_filter sink = record sink { categories = []; filter_categories = false }

abbrev pub has_category : BeaconCategory → List BeaconCategory → Bool
has_category c [] = false
has_category c (d ∷ categories) = category_value d == category_value c || has_category c categories

unfoldable pub should_log : BeaconSeverity → BeaconCategory → BeaconSink → Bool
should_log severity category sink =
    if ltb (severity_value severity) (severity_value sink.min_severity)
    then false
    else if sink.filter_categories
    then has_category category sink.categories
    else true

pub record SourceLocation : Type 0 where
  pub file_name : List ℕ
  pub line : ℕ

abbrev is_separator : ℕ → Bool
is_separator c = c == b'/' || c == b'\\'

abbrev has_separator : List ℕ → Bool
has_separator [] = false
has_separator (c ∷ s) = is_separator c || has_separator s

-- What follows the last separator of a path.
unfoldable pub base_name : List ℕ → List ℕ
base_name [] = []
base_name (c ∷ s) =
    let rest = base_name s in if has_separator s then rest else if is_separator c then s else c ∷ s

unfoldable pub format_line :
    List ℕ → BeaconSeverity → BeaconCategory → List ℕ → SourceLocation → List ℕ
unfolding base_name
format_line now severity category message location =
    now
    ++ (codes " ["
        ++ (severity_to_string severity
            ++ (codes "] ["
                ++ (category_to_string category
                    ++ (codes "] "
                        ++ (message
                            ++ (codes " ("
                                ++ (base_name location.file_name
                                    ++ (codes ":"
                                        ++ (to_string location.line ++ codes ")\n"))))))))))
