-- ===== src/Beacon/Log.antt =====
-- modules/beacon/src/beacon.cpp, with the sinks of console_sink.cpp and event_sink.cpp. The
-- streams, the files, and the rest of the program, on which the handlers of the event bus act, are a
-- `World`. What the bus does with a published event is the parameter `publish`.
pub mod Tests
use dht_hunter.Base.{ℕ, Bool, true, false, List, [], ◌∷◌, ◌++◌, ◌==◌, if◌then◌else◌}
use dht_hunter.Base.Text.{codes, to_string}
use dht_hunter.Beacon.Severity.{
  BeaconSeverity, BeaconCategory, debug, info, warning, error, critical, severity_to_string,
  category_to_string,
}
use dht_hunter.Beacon.Filter.{BeaconSink, should_log, SourceLocation, base_name}
use dht_hunter.Beacon.FileSink.{Files, Disk, FileSink, Entry}
use dht_hunter.Beacon.FileSink

abbrev pub get_severity_color : BeaconSeverity → List ℕ
get_severity_color debug = 27 ∷ codes "[36m"
get_severity_color info = 27 ∷ codes "[32m"
get_severity_color warning = 27 ∷ codes "[33m"
get_severity_color error = 27 ∷ codes "[31m"
get_severity_color critical = 27 ∷ codes "[35m"

abbrev pub get_reset_color : List ℕ
get_reset_color = 27 ∷ codes "[0m"

pub record ConsoleSink : Type 0 where
  pub sink : BeaconSink
  pub use_colors : Bool
  pub stream : ℕ

abbrev pub set_use_colors : Bool → ConsoleSink → ConsoleSink
set_use_colors use_colors s = record s { use_colors = use_colors }

unfoldable pub console_line : Bool → Entry → List ℕ
unfolding base_name
console_line use_colors e =
    let color_start = if use_colors then get_severity_color e.severity else [] in
    let color_end = if use_colors then get_reset_color else [] in
    e.now
    ++ (codes " "
        ++ (color_start
            ++ (codes "["
                ++ (severity_to_string e.severity
                    ++ (codes "]"
                        ++ (color_end
                            ++ (codes " ["
                                ++ (category_to_string e.category
                                    ++ (codes "] "
                                        ++ (e.message
                                            ++ (codes " ("
                                                ++ (base_name e.location.file_name
                                                    ++ (codes ":"
                                                        ++ (to_string e.location.line
                                                            ++ codes ")\n"))))))))))))))

pub data Sink : Type 0 where
  console_sink : ConsoleSink → Sink
  file_sink : FileSink → Sink
  event_sink : BeaconSink → Sink

pub record BeaconEvent : Type 0 where
  pub severity : BeaconSeverity
  pub category : BeaconCategory
  pub message : List ℕ
  pub location : SourceLocation

-- What stands in each output stream, the files, and the rest.
pub record World (R : Type 0) : Type 0 where
  pub output : ℕ → List ℕ
  pub files : Files
  pub rest : R

unfoldable pub print : {R : Type 0} → ℕ → List ℕ → World R → World R
print stream line w = record w {
  output = λ i. if i == stream then w.output i ++ line else w.output i;
}

abbrev pub to_beacon_event : Entry → BeaconEvent
to_beacon_event e = record {
  severity = e.severity;
  category = e.category;
  message = e.message;
  location = e.location;
}

abbrev pub add_sink : Sink → List Sink → List Sink
add_sink sink sinks = sinks ++ (sink ∷ [])

module _ {R : Type 0} (publish : BeaconEvent → World R → World R) where
  -- The virtual `write`.
  unfoldable pub write_sink : Disk → Entry → Sink → World R → Sink × World R
  unfolding should_log console_line FileSink.write print
  write_sink disk e (console_sink s) w = (
    console_sink s,
    if should_log e.severity e.category s.sink
        then print s.stream (console_line s.use_colors e) w
        else w,
  )
  write_sink disk e (event_sink s) w = (
    event_sink s,
    if should_log e.severity e.category s then publish (to_beacon_event e) w else w,
  )
  write_sink disk e (file_sink s) w =
      let (s', files) =
        FileSink.write disk e.now e.severity e.category e.message e.location (s, w.files) in
      (file_sink s', record w { files = files })

  -- `debug` to `critical` call it with their severity.
  unfoldable pub log : Disk → Entry → List Sink → World R → List Sink × World R
  unfolding write_sink
  log disk e [] w = ([], w)
  log disk e (sink ∷ sinks) w =
      let (sink', w') = write_sink disk e sink w in
      let (sinks', last) = log disk e sinks w' in (sink' ∷ sinks', last)
