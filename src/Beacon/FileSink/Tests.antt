-- ===== src/Beacon/FileSink/Tests.antt =====
-- Runs of the file sink, and instances of its theorems.
use dht_hunter.Base.{
  ℕ, zero, suc, ◌^◌, ◌<◌, ◌≤◌, ◌≡◌, refl, ◌⊎◌, true, false, List, [], ◌∷◌, ◌++◌, none, some,
  bytes_eq, arith, length, if◌then◌else◌,
}
use dht_hunter.Base.Text.{codes, to_string}
use dht_hunter.Beacon.Severity.{debug, info, general, dht}
use dht_hunter.Beacon.Filter.{should_log, base_name, format_line}
use dht_hunter.Beacon.FileSink.{Files, Disk, FileSink, archive, rotate, Entry, write_each}
use dht_hunter.Beacon.FileSink.Names.{log_file}
use dht_hunter.Beacon.FileSink.Rotation.{Grants}
use dht_hunter.Beacon.FileSink.Lines.{logs, rotate_lem}
use dht_hunter.Beacon.FileSink.Kept.{log_text}
use dht_hunter.Beacon.FileSink.Writes.{write_each_lem}
use dht_hunter.Beacon.FileSink.Refused.{rotate_refused}

abbrev granting : Disk
granting = record {
  opens = λ name. true;
  removes = λ name. true;
  renames = λ old new. true;
  start = λ n. n;
}

granting-Grants : Grants granting
granting-Grants = record {
  opens_all = λ name. refl;
  removes_all = λ name. refl;
  renames_all = λ old new. refl;
}

start_fits : (n : ℕ) → n ≤ n
start_fits n = omega arith

abbrev logger : FileSink
logger = record {
  sink = record { min_severity = info; categories = []; filter_categories = false };
  filename = codes "l";
  append = false;
  max_file_size = 4;
  max_files = 2;
  file = some 3;
}

-- A log, and a file that is none of the sink's.
unfoldable disk_files : Files
disk_files name =
    if bytes_eq (codes "l") name
    then some (codes "abc")
    else if bytes_eq (codes "x") name
    then some (codes "x")
    else none

positive : 0 < 2
positive = omega arith

files_fit : 2 < 2 ^ 64
files_fit = omega arith

size_fits : 4 < 2 ^ 63
size_fits = omega arith

position_fits : 3 ≤ 3
position_fits = omega arith

x_ne : (k : ℕ) → k ≤ 2 → bytes_eq (log_file (codes "l") k) (codes "x") ≡ false
unfolding bytes_eq archive
x_ne zero le = refl
x_ne (suc k) le = refl

rotate_lem_example :
    (logs (codes "l") 0 3 (rotate granting (logger, disk_files)).1
      ≡ some [] ∷ some (codes "abc") ∷ none ∷ [])
    × ((rotate granting (logger, disk_files)).1 (codes "x") ≡ some (codes "x"))
    × ((rotate granting (logger, disk_files)).0 ≡ record logger { file = some 0 })
unfolding disk_files bytes_eq archive to_string
rotate_lem_example =
    rotate_lem granting granting-Grants logger disk_files (codes "x") positive files_fit x_ne

abbrev entries : List Entry
entries =
    record {
      now = codes "1";
      severity = info;
      category = general;
      message = codes "hi";
      location = record { file_name = codes "a/b.c"; line = 7 };
    }
    ∷ record {
      now = codes "2";
      severity = debug;
      category = dht;
      message = codes "no";
      location = record { file_name = codes "b.c"; line = 8 };
    }
    ∷ []

write_each_lem_example :
    (dropped : List ℕ) × (dropped ++ log_text (write_each granting entries (logger, disk_files))
      ≡ codes "abc1 [INFO] [GENERAL] hi (b.c:7)\n")
    × ((dropped ≡ []) ⊎ (8 ≤ length (log_text (write_each granting entries (logger, disk_files)))))
unfolding disk_files bytes_eq archive to_string should_log base_name format_line
write_each_lem_example =
    write_each_lem granting granting-Grants start_fits logger disk_files 3 (codes "abc") entries
      positive files_fit size_fits refl refl position_fits (refl, (refl, tt))

abbrev refusing : Disk
refusing = record granting { renames = λ old new. false }

no_archives : (k : ℕ) → 0 < k → k ≤ 2 → disk_files (log_file (codes "l") k) ≡ none
unfolding disk_files bytes_eq archive
no_archives zero pos le = absurd (omega arith)
no_archives (suc k) pos le = refl

rotate_refused_example : log_text (rotate refusing (logger, disk_files)) ≡ []
rotate_refused_example =
    rotate_refused refusing logger disk_files positive files_fit refl refl refl refl no_archives
