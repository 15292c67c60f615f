-- ===== src/Beacon/FileSink.antt =====
-- modules/beacon/src/file_sink.cpp, over files as a function from names to contents. What the system
-- refuses, and where it puts the position of a file that it opens, are parameters, the fields of
-- `Disk`. Writes to an open file succeed.
pub mod Names
pub mod Rotation
pub mod Lines
pub mod Kept
pub mod Writes
pub mod Refused
pub mod Tests
use dht_hunter.Base.{
  ℕ, zero, suc, ◌+◌, ◌-◌, ◌%◌, ◌^◌, Bool, true, false, ◌||◌, List, [], ◌∷◌, ◌++◌, Option, none,
  some, ltb, leb, bytes_eq, if◌then◌else◌, length,
}
use dht_hunter.Base.Text.{to_string}
use dht_hunter.Beacon.Severity.{BeaconSeverity, BeaconCategory}
use dht_hunter.Beacon.Filter.{BeaconSink, new_sink, should_log, SourceLocation, format_line}

abbrev pub Files : Type 0
Files = List ℕ → Option (List ℕ)

pub record Disk : Type 0 where
  pub opens : List ℕ → Bool
  pub removes : List ℕ → Bool
  pub renames : List ℕ → List ℕ → Bool
  pub start : ℕ → ℕ

-- The open file is the position in it.
pub record FileSink : Type 0 where
  pub sink : BeaconSink
  pub filename : List ℕ
  pub append : Bool
  pub max_file_size : ℕ
  pub max_files : ℕ
  pub file : Option ℕ

unfoldable pub update : List ℕ → Option (List ℕ) → Files → Files
update name contents files other = if bytes_eq name other then contents else files other

-- std::filesystem: `false` is a filesystem_error.
unfoldable pub remove : Disk → List ℕ → Files → Bool × Files
unfolding update
remove disk name files =
    if disk.removes name then (true, update name none files) else (false, files)

unfoldable pub rename : Disk → List ℕ → List ℕ → Files → Bool × Files
unfolding update
rename disk old new files =
    if disk.renames old new
    then (true, update new (files old) (update old none files))
    else (false, files)

abbrev pub rename_found : Disk → List ℕ → List ℕ → Files → Option (List ℕ) → Bool × Files
rename_found disk old new files none = (true, files)
rename_found disk old new files (some contents) = rename disk old new files

unfoldable pub rename_existing : Disk → List ℕ → List ℕ → Files → Bool × Files
unfolding rename
rename_existing disk old new files = rename_found disk old new files (files old)

-- An exception leaves the rest of the block out.
abbrev pub unless_thrown : Bool × Files → (Files → Bool × Files) → Bool × Files
unless_thrown (true, files) f = f files
unless_thrown (false, files) f = (false, files)

unfoldable pub archive : List ℕ → ℕ → List ℕ
archive filename i = filename ++ (b'.' ∷ to_string i)

-- The rounds of the loop from `i` down to 1.
unfoldable pub shift : Disk → List ℕ → ℕ → Files → Bool × Files
unfolding rename_existing archive
shift disk filename zero files = (true, files)
shift disk filename (suc i) files =
    unless_thrown
      (rename_existing disk (archive filename (suc i)) (archive filename (suc (suc i) % 2 ^ 64))
        files)
      (shift disk filename i)

unfoldable pub rotate_files : Disk → List ℕ → ℕ → Files → Bool × Files
unfolding remove shift
rotate_files disk filename max_files files =
    unless_thrown
      (if ltb 0 max_files then remove disk (archive filename max_files) files else (true, files))
      (λ kept.
        unless_thrown (shift disk filename ((max_files + (2 ^ 64 - 1)) % 2 ^ 64) kept)
          (rename_existing disk filename (archive filename 1)))

abbrev pub contents_of : Option (List ℕ) → List ℕ
contents_of none = []
contents_of (some contents) = contents

abbrev pub State : Type 0
State = FileSink × Files

unfoldable pub open_file : Disk → State → State
unfolding update
open_file disk (s, files) =
    let contents = if s.append then contents_of (files s.filename) else [] in
    if disk.opens s.filename
    then (
      record s { file = some (disk.start (length contents)) },
      update s.filename (some contents) files,
    )
    else (record s { file = none }, files)

unfoldable pub make_file_sink : Disk → List ℕ → Bool → Files → State
unfolding open_file
make_file_sink disk filename append files = open_file disk (
  record {
    sink = new_sink;
    filename = filename;
    append = append;
    max_file_size = 10485760;
    max_files = 5;
    file = none;
  },
  files,
)

abbrev pub set_max_file_size : ℕ → FileSink → FileSink
set_max_file_size size s = record s { max_file_size = size }

abbrev pub set_max_files : ℕ → FileSink → FileSink
set_max_files n s = record s { max_files = n }

-- The size is converted to a signed number of 64 bits.
unfoldable pub is_too_large : ℕ → ℕ → Bool
is_too_large max_file_size position = leb (2 ^ 63) max_file_size || leb max_file_size position

unfoldable pub rotate : Disk → State → State
unfolding rotate_files open_file
rotate disk (s, files) =
    open_file disk (record s { file = none }, (rotate_files disk s.filename s.max_files files).1)

-- A stream without an open file takes nothing.
abbrev pub put_line : List ℕ → State → Option ℕ → State
put_line line (s, files) none = (s, files)
put_line line (s, files) (some position) =
    let contents = contents_of (files s.filename) ++ line in
    (record s { file = some (length contents) }, update s.filename (some contents) files)

abbrev pub write_opened : Disk → List ℕ → State → Option ℕ → State
write_opened disk line (s, files) none = (s, files)
write_opened disk line (s, files) (some position) =
    let ready =
      if is_too_large s.max_file_size position then rotate disk (s, files) else (s, files) in
    put_line line ready ready.0.file

abbrev pub reopened : Disk → State → Option ℕ → State
reopened disk state none = open_file disk state
reopened disk state (some position) = state

unfoldable pub write_line : Disk → List ℕ → State → State
unfolding is_too_large rotate
write_line disk line state =
    let opened = reopened disk state state.0.file in write_opened disk line opened opened.0.file

unfoldable pub write :
    Disk → List ℕ → BeaconSeverity → BeaconCategory → List ℕ → SourceLocation → State → State
unfolding should_log write_line format_line
write disk now severity category message location (s, files) =
    if should_log severity category s.sink
    then write_line disk (format_line now severity category message location) (s, files)
    else (s, files)

pub record Entry : Type 0 where
  pub now : List ℕ
  pub severity : BeaconSeverity
  pub category : BeaconCategory
  pub message : List ℕ
  pub location : SourceLocation

-- A sequence of calls of `write`.
unfoldable pub write_each : Disk → List Entry → State → State
unfolding write
write_each disk [] state = state
write_each disk (e ∷ entries) state =
    write_each disk entries (write disk e.now e.severity e.category e.message e.location state)
