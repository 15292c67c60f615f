-- ===== src/Beacon/Severity.antt =====
-- modules/types/src/beacon_types.cpp: severities and categories, with the values of the
-- enumerations.
use dht_hunter.Base.{ℕ, List}
use dht_hunter.Base.Text.{codes}

pub data BeaconSeverity : Type 0 where
  debug info warning error critical : BeaconSeverity

pub data BeaconCategory : Type 0 where
  general system network dht bittorrent tracker database ui : BeaconCategory

abbrev pub severity_value : BeaconSeverity → ℕ
severity_value debug = 0
severity_value info = 1
severity_value warning = 2
severity_value error = 3
severity_value critical = 4

abbrev pub category_value : BeaconCategory → ℕ
category_value general = 0
category_value system = 1
category_value network = 2
category_value dht = 3
category_value bittorrent = 4
category_value tracker = 5
category_value database = 6
category_value ui = 7

abbrev pub severity_to_string : BeaconSeverity → List ℕ
severity_to_string debug = codes "DEBUG"
severity_to_string info = codes "INFO"
severity_to_string warning = codes "WARNING"
severity_to_string error = codes "ERROR"
severity_to_string critical = codes "CRITICAL"

abbrev pub category_to_string : BeaconCategory → List ℕ
category_to_string general = codes "GENERAL"
category_to_string system = codes "SYSTEM"
category_to_string network = codes "NETWORK"
category_to_string dht = codes "DHT"
category_to_string bittorrent = codes "BITTORRENT"
category_to_string tracker = codes "TRACKER"
category_to_string database = codes "DATABASE"
category_to_string ui = codes "UI"
