-- ===== src/Beacon/Log/Tests.antt =====
-- Runs of the beacon.
use dht_hunter.Base.{ℕ, suc, refl, ◌≡◌, true, false, List, [], ◌∷◌, none}
use dht_hunter.Base.Text.{codes, to_string}
use dht_hunter.Beacon.Severity.{error, network}
use dht_hunter.Beacon.Filter.{new_sink, should_log, base_name}
use dht_hunter.Beacon.FileSink.{Disk, Entry}
use dht_hunter.Beacon.Log.{
  Sink, console_sink, event_sink, BeaconEvent, World, log, console_line, print,
}

abbrev disk : Disk
disk = record {
  opens = λ name. true;
  removes = λ name. true;
  renames = λ old new. true;
  start = λ n. n;
}

abbrev entry : Entry
entry = record {
  now = codes "1";
  severity = error;
  category = network;
  message = codes "no";
  location = record { file_name = codes "a.c"; line = 7 };
}

abbrev sinks : List Sink
sinks =
    console_sink (record { sink = new_sink; use_colors = false; stream = 1 })
    ∷ event_sink new_sink
    ∷ event_sink (record { min_severity = error; categories = []; filter_categories = true })
    ∷ []

-- A handler that counts the events.
abbrev counted : BeaconEvent → World ℕ → World ℕ
counted event w = record w { rest = suc w.rest }

abbrev world : World ℕ
world = record { output = λ stream. codes ">"; files = λ name. none; rest = 0 }

logged_output :
    (log counted disk entry sinks world).1.output 1 ≡ codes ">1 [ERROR] [NETWORK] no (a.c:7)\n"
unfolding log should_log console_line base_name to_string print
logged_output = refl

logged_events : (log counted disk entry sinks world).1.rest ≡ 1
unfolding log should_log
logged_events = refl
