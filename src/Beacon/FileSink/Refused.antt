-- ===== src/Beacon/FileSink/Refused.antt =====
-- A rotation where the system refuses to rename the current file.
use dht_hunter.Base.{
  ℕ, zero, suc, ◌+◌, ◌-◌, ◌%◌, ◌^◌, ◌<◌, ◌≤◌, ◌≡◌, refl, ap, ◌∙◌, Bool, true, false, List, [], ◌++◌,
  Option, none, some, lt→ltb, if◌then◌else◌, arith, length, All, bytes_eq,
}
use dht_hunter.Beacon.FileSink.{
  Files, Disk, FileSink, State, update, remove, rename, rename_found, rename_existing,
  unless_thrown, archive, shift, rotate_files, open_file, rotate, contents_of,
}
use dht_hunter.Beacon.FileSink.Names.{log_file, update_self}
use dht_hunter.Beacon.FileSink.Lines.{logs, text_of, logs-update}
use dht_hunter.Beacon.FileSink.Kept.{log_text, IsGone}
use dht_hunter.Beacon.FileSink.Writes.{text_of-gone}

pub logs-IsGone :
    (f : List ℕ) (files : Files) (k n : ℕ)
    → ((i : ℕ) → k ≤ i → i < k + n → files (log_file f i) ≡ none)
    → All IsGone (logs f k n files)
logs-IsGone f files k zero gone = tt
logs-IsGone f files k (suc n) gone = (
  gone k (omega arith) (omega arith),
  logs-IsGone f files (suc k) n (λ i le less. gone i (omega arith) (omega arith)),
)

if_none : (b : Bool) (c : Option (List ℕ)) → c ≡ none → (if b then none else c) ≡ none
if_none true c e = refl
if_none false c e = e

update-gone : (name m : List ℕ) (files : Files) → files m ≡ none → update name none files m ≡ none
unfolding update
update-gone name m files e = if_none (bytes_eq name m) (files m) e

module _ (disk : Disk) (f : List ℕ) where
  rename_existing-gone :
      (old new : List ℕ) (files : Files)
      → files old ≡ none
      → rename_existing disk old new files ≡ (true, files)
  unfolding rename_existing
  rename_existing-gone old new files e = ap (rename_found disk old new files) e

  shift-gone :
      (n : ℕ) (files : Files)
      → ((k : ℕ) → 0 < k → k ≤ n → files (log_file f k) ≡ none)
      → shift disk f n files ≡ (true, files)
  unfolding shift
  shift-gone zero files gone = refl
  shift-gone (suc n) files gone =
      ap (λ r. unless_thrown r (shift disk f n))
        (rename_existing-gone (archive f (suc n)) (archive f (suc (suc n) % 2 ^ 64)) files
          (gone (suc n) (omega arith) (omega arith)))
      ∙ shift-gone n files (λ k pos le. gone k pos (omega arith))

  rename_refused :
      (new : List ℕ) (files : Files) (found : Option (List ℕ))
      → disk.renames f new ≡ false
      → (rename_found disk f new files found).1 ≡ files
  unfolding rename
  rename_refused new files none refused = refl
  rename_refused new files (some c) refused =
      let renamed : Bool × Files = (true, update new (files f) (update f none files)) in
      let kept : Bool × Files = (false, files) in
      ap (λ b. let r : Bool × Files = if b then renamed else kept in r.1) refused

  -- No archive is there, and none is made.
  rotate_files-gone :
      (n : ℕ) (files : Files)
      → suc n < 2 ^ 64
      → disk.removes (archive f (suc n)) ≡ true
      → disk.renames f (archive f 1) ≡ false
      → ((k : ℕ) → 0 < k → k ≤ suc n → files (log_file f k) ≡ none)
      → (rotate_files disk f (suc n) files).1 ≡ update (archive f (suc n)) none files
  unfolding rotate_files rename_existing remove
  rotate_files-gone n files small removes refused gone =
      let rounds : (suc n + (2 ^ 64 - 1)) % 2 ^ 64 ≡ n = omega arith in
      let kept = update (archive f (suc n)) none files in
      let finish = rename_existing disk f (archive f 1) in
      let shifted = λ (i : ℕ) (files : Files). unless_thrown (shift disk f i files) finish in
      ap
        (λ b.
          (unless_thrown (if b then remove disk (archive f (suc n)) files else (true, files))
            (shifted ((suc n + (2 ^ 64 - 1)) % 2 ^ 64))).1)
        (lt→ltb 0 (suc n) (omega arith))
      ∙ ap
          (λ b.
            (unless_thrown (if b then (true, kept) else (false, files))
              (shifted ((suc n + (2 ^ 64 - 1)) % 2 ^ 64))).1)
          removes
      ∙ ap (λ i. (shifted i kept).1) rounds
      ∙ ap (λ r. (unless_thrown r finish).1)
          (shift-gone n kept (λ k pos le.
            update-gone (archive f (suc n)) (log_file f k) files (gone k pos (omega arith))))
      ∙ rename_refused (archive f 1) kept (kept f) refused

open_truncates :
    (disk : Disk) (s : FileSink) (files : Files)
    → s.append ≡ false
    → disk.opens s.filename ≡ true
    → open_file disk (s, files)
      ≡ (record s { file = some (disk.start 0) }, update s.filename (some []) files)
unfolding open_file
open_truncates disk s files appends opens =
    let opened : List ℕ → State =
      λ c. (record s { file = some (disk.start (length c)) }, update s.filename (some c) files) in
    let closed : State = (record s { file = none }, files) in
    ap
      (λ b.
        if disk.opens s.filename
        then opened (if b then contents_of (files s.filename) else [])
        else closed)
      appends
    ∙ ap (λ b. if b then opened [] else closed) opens

emptied_text :
    (s : FileSink) (o : Option ℕ) (files : Files)
    → All IsGone (logs s.filename 1 s.max_files files)
    → log_text (record s { file = o }, update s.filename (some []) files) ≡ []
emptied_text s o files gone =
    let f = s.filename in
    ap (λ cs. text_of cs ++ contents_of (update f (some []) files f))
      (logs-update f (some []) files 1 s.max_files (omega arith))
    ∙ ap (λ t. t ++ contents_of (update f (some []) files f))
        (text_of-gone (logs f 1 s.max_files files) gone)
    ∙ ap contents_of (update_self f (some []) files)

rotate_files-left :
    (disk : Disk) (f : List ℕ) (max : ℕ) (files : Files)
    → 0 < max
    → max < 2 ^ 64
    → disk.removes (archive f max) ≡ true
    → disk.renames f (archive f 1) ≡ false
    → ((k : ℕ) → 0 < k → k ≤ max → files (log_file f k) ≡ none)
    → (rotate_files disk f max files).1 ≡ update (archive f max) none files
rotate_files-left disk f zero files pos small removes refused gone = absurd (omega arith)
rotate_files-left disk f (suc n) files pos small removes refused gone =
    rotate_files-gone disk f n files small removes refused gone

-- A sink that does not append loses its log where the system refuses to rename the current file:
-- the exception is dropped, and the file is opened again, which empties it. The sink keeps at least
-- one archive and has none yet, and the system opens the file and raises no error for the removal of
-- an archive.
pub rotate_refused :
    (disk : Disk) (s : FileSink) (files : Files)
    → 0 < s.max_files
    → s.max_files < 2 ^ 64
    → s.append ≡ false
    → disk.opens s.filename ≡ true
    → disk.removes (archive s.filename s.max_files) ≡ true
    → disk.renames s.filename (archive s.filename 1) ≡ false
    → ((k : ℕ) → 0 < k → k ≤ s.max_files → files (log_file s.filename k) ≡ none)
    → log_text (rotate disk (s, files)) ≡ []
unfolding rotate
rotate_refused disk s files pos small appends opens removes refused gone =
    let f = s.filename in
    let left = rotate_files-left disk f s.max_files files pos small removes refused gone in
    let kept = update (archive f s.max_files) none files in
    ap log_text (
      ap (λ later. open_file disk (record s { file = none }, later)) left
      ∙ open_truncates disk (record s { file = none }) kept appends opens)
    ∙ emptied_text s (some (disk.start 0)) kept (
        logs-IsGone f kept 1 s.max_files (λ i le less.
          update-gone (archive f s.max_files) (log_file f i) files
            (gone i (omega arith) (omega arith))))
