-- ===== src/Beacon/FileSink/Writes.antt =====
-- Sequences of writes to a file sink.
use dht_hunter.Base.{
  ℕ, zero, suc, ◌*◌, ◌^◌, ◌<◌, ◌≤◌, ◌≡◌, refl, sym, ap, subst, ◌∙◌, ◌⊎◌, inl, inr, Bool, true,
  false, List, [], ◌∷◌, ◌++◌, append_assoc, append-nil, Option, some, if◌then◌else◌, arith, length,
  length-append, All,
}
use dht_hunter.Beacon.Filter.{should_log, format_line}
use dht_hunter.Beacon.FileSink.{
  Files, Disk, FileSink, State, update, rotate, contents_of, is_too_large, put_line, write_opened,
  reopened, write_line, write, Entry, write_each,
}
use dht_hunter.Beacon.FileSink.Rotation.{Grants, zero-cases}
use dht_hunter.Beacon.FileSink.Lines.{logs, text_of, rotate-Renewed}
use dht_hunter.Beacon.FileSink.Kept.{
  log_text, logged, Keeps, put_line-Keeps, rotate-Keeps, IsGone-Stacked, IsGone, IsLarge,
  length-text_of,
}

length-logs : (f : List ℕ) (k n : ℕ) (files : Files) → length (logs f k n files) ≡ n
length-logs f k zero files = refl
length-logs f k (suc n) files = ap suc (length-logs f (suc k) n files)

pub text_of-gone : (cs : List (Option (List ℕ))) → All IsGone cs → text_of cs ≡ []
text_of-gone [] gone = refl
text_of-gone (c ∷ cs) (e, gone) =
    ap (λ t. t ++ contents_of c) (text_of-gone cs gone) ∙ ap contents_of e

module _ (disk : Disk) (grants : Grants disk) (starts : (n : ℕ) → disk.start n ≤ n)
    (s : FileSink) where
  abbrev with_file : Option ℕ → FileSink
  with_file o = record s { file = o }

  -- The sink with its settings, and files that keep `all`.
  record Holds (all : List ℕ) (state : State) : Type 0 where
    file : Option ℕ
    files : Files
    is_state : state ≡ (with_file file, files)
    keeps : Keeps s.max_file_size all (with_file file, files)

  module _ (pos : 0 < s.max_files) (small : s.max_files < 2 ^ 64)
      (size_small : s.max_file_size < 2 ^ 63) where
    rotate-Holds :
        (all : List ℕ) (o : Option ℕ) (files : Files)
        → (k : Keeps s.max_file_size all (with_file o, files)) → s.max_file_size ≤ k.position
        → Holds all (rotate disk (with_file o, files))
    rotate-Holds all o files k full = elim (zero-cases s.max_files) [
      | inl is ↦ absurd (omega arith)
      | inr (n, is) ↦ record {
        file = some (disk.start 0);
        files = (rotate disk (with_file o, files)).1;
        is_state =
            ap (λ x. (x, (rotate disk (with_file o, files)).1))
              (rotate-Renewed disk grants (with_file o) files pos small).reopens;
        keeps = rotate-Keeps disk grants starts all (with_file o) files n is (omega arith) k full;
      }
    ]

    too_large-le : (p : ℕ) → is_too_large s.max_file_size p ≡ true → s.max_file_size ≤ p
    unfolding is_too_large
    too_large-le p h = ground arith

    ready-Holds :
        (all : List ℕ) (o : Option ℕ) (files : Files) (b : Bool)
        → (k : Keeps s.max_file_size all (with_file o, files))
        → (b ≡ true → s.max_file_size ≤ k.position)
        → Holds all (if b then rotate disk (with_file o, files) else (with_file o, files))
    ready-Holds all o files true k full = rotate-Holds all o files k (full refl)
    ready-Holds all o files false k full = record {
      file = o;
      files = files;
      is_state = refl;
      keeps = k;
    }

    put-Holds :
        (all line : List ℕ) (state : State)
        → Holds all state
        → Holds (all ++ line) (put_line line state state.0.file)
    put-Holds all line state h =
        subst (λ x. Holds (all ++ line) (put_line line x x.0.file)) (sym h.is_state)
          (subst (λ o. Holds (all ++ line) (put_line line (with_file h.file, h.files) o))
            (sym h.keeps.opened)
            (record {
              file = some (length (contents_of (h.files s.filename) ++ line));
              files = update s.filename (some (contents_of (h.files s.filename) ++ line)) h.files;
              is_state = refl;
              keeps =
                  put_line-Keeps s.max_file_size all line (with_file h.file) h.files
                    h.keeps.position h.keeps;
            }))

    write_line-Holds :
        (all line : List ℕ) (o : Option ℕ) (files : Files)
        → Keeps s.max_file_size all (with_file o, files)
        → Holds (all ++ line) (write_line disk line (with_file o, files))
    unfolding write_line
    write_line-Holds all line o files k =
        let state : State = (with_file o, files) in
        let too_large = is_too_large s.max_file_size k.position in
        let put =
          put-Holds all line (if too_large then rotate disk state else state)
            (ready-Holds all o files too_large k (too_large-le k.position)) in
        subst
          (λ x.
            Holds (all ++ line)
              (write_opened disk line (reopened disk state x) (reopened disk state x).0.file))
          (sym k.opened)
          (subst (λ x. Holds (all ++ line) (write_opened disk line state x)) (sym k.opened) put)

    write-Holds :
        (all line : List ℕ) (o : Option ℕ) (files : Files) (logs : Bool)
        → Keeps s.max_file_size all (with_file o, files)
        → Holds
            (all ++ (if logs then line else []))
            (if logs then write_line disk line (with_file o, files) else (with_file o, files))
    write-Holds all line o files true k = write_line-Holds all line o files k
    write-Holds all line o files false k =
        subst (λ x. Holds x (with_file o, files)) (sym (append-nil all))
          (record { file = o; files = files; is_state = refl; keeps = k })

    write_each-Holds :
        (entries : List Entry) (all : List ℕ) (o : Option ℕ) (files : Files)
        → Keeps s.max_file_size all (with_file o, files)
        → Holds (all ++ logged s.sink entries) (write_each disk entries (with_file o, files))
    unfolding write_each write
    write_each-Holds [] all o files k =
        subst (λ x. Holds x (with_file o, files)) (sym (append-nil all))
          (record { file = o; files = files; is_state = refl; keeps = k })
    write_each-Holds (e ∷ entries) all o files k =
        let line = format_line e.now e.severity e.category e.message e.location in
        let passes = should_log e.severity e.category s.sink in
        let text = if passes then line else [] in
        let h = write-Holds all line o files passes k in
        subst (λ x. Holds x (write_each disk (e ∷ entries) (with_file o, files)))
          (append_assoc all text (logged s.sink entries))
          (subst (λ x. Holds ((all ++ text) ++ logged s.sink entries) (write_each disk entries x))
            (sym h.is_state) (write_each-Holds entries (all ++ text) h.file h.files h.keeps))

  kept_length :
      (files : Files)
      → All (IsLarge s.max_file_size) (logs s.filename 1 s.max_files files)
      → s.max_files * s.max_file_size ≤ length (log_text (s, files))
  kept_length files large =
      let archives = logs s.filename 1 s.max_files files in
      let whole = length-append (text_of archives) (contents_of (files s.filename)) in
      let bytes =
        subst (λ n. n * s.max_file_size ≤ length (text_of archives))
          (length-logs s.filename 1 s.max_files files)
          (length-text_of s.max_file_size archives large) in
      omega arith

  initial-Keeps :
      (files : Files) (position : ℕ) (current : List ℕ)
      → s.file ≡ some position
      → files s.filename ≡ some current
      → position ≤ length current
      → All IsGone (logs s.filename 1 s.max_files files)
      → Keeps s.max_file_size current (s, files)
  initial-Keeps files position current opened exists inside gone = record {
    dropped = [];
    splits =
        ap (λ t. t ++ contents_of (files s.filename))
          (text_of-gone (logs s.filename 1 s.max_files files) gone)
        ∙ ap contents_of exists;
    position = position;
    opened = opened;
    current = current;
    exists = exists;
    inside = inside;
    stacked = IsGone-Stacked s.max_file_size (logs s.filename 1 s.max_files files) gone;
    bounded = inl refl;
  }

  -- Where the system refuses nothing, and an open sink has no archives yet: after any sequence of
  -- writes its files together, oldest first, hold what the current file held and then the line of
  -- every message that passes the filter, in order and whole, but for a part at the front; and if
  -- this part is not empty, they hold at least as many bytes as the largest number of archives times
  -- the size at which a file is rotated. The sink keeps at least one archive, the two settings are
  -- below 2 ^ 64 and 2 ^ 63, and the system puts the position of a file no further than its end.
  pub write_each_lem :
      (files : Files) (position : ℕ) (current : List ℕ) (entries : List Entry)
      → 0 < s.max_files
      → s.max_files < 2 ^ 64
      → s.max_file_size < 2 ^ 63
      → s.file ≡ some position
      → files s.filename ≡ some current
      → position ≤ length current
      → All IsGone (logs s.filename 1 s.max_files files)
      → (dropped : List ℕ) × (dropped ++ log_text (write_each disk entries (s, files))
          ≡ current ++ logged s.sink entries)
        × ((dropped ≡ [])
            ⊎ (s.max_files * s.max_file_size
                ≤ length (log_text (write_each disk entries (s, files)))))
  write_each_lem files position current entries pos small size_small opened exists inside gone =
      let h =
        write_each-Holds pos small size_small entries current s.file files
          (initial-Keeps files position current opened exists inside gone) in
      subst
        (λ after.
          (dropped : List ℕ) × (dropped ++ log_text after ≡ current ++ logged s.sink entries)
          × ((dropped ≡ []) ⊎ (s.max_files * s.max_file_size ≤ length (log_text after))))
        (sym h.is_state)
        (
          h.keeps.dropped,
          h.keeps.splits,
          elim h.keeps.bounded [ inl e ↦ inl e | inr large ↦ inr (kept_length h.files large) ],
        )
