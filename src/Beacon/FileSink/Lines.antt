-- ===== src/Beacon/FileSink/Lines.antt =====
-- The log of a file sink: what its files hold, oldest first.
use dht_hunter.Base.{
  ℕ, zero, suc, ◌+◌, ◌^◌, ◌<◌, ◌≤◌, ◌≡◌, refl, sym, ap, subst, ◌∙◌, inl, inr, Bool, true, false,
  List, [], ◌∷◌, ◌++◌, append_assoc, append-nil, Option, none, some, bytes_eq, if◌then◌else◌, arith,
  length,
}
use dht_hunter.Beacon.FileSink.{
  Files, Disk, FileSink, State, update, rotate_files, open_file, rotate, contents_of,
}
use dht_hunter.Beacon.FileSink.Names.{log_file, log_file_ne, update_self, update_other}
use dht_hunter.Beacon.FileSink.Rotation.{Grants, Rotated, rotate_files-Rotated, zero-cases}

-- The files from number `k` on, `n` of them.
abbrev pub logs : List ℕ → ℕ → ℕ → Files → List (Option (List ℕ))
logs f k zero files = []
logs f k (suc n) files = files (log_file f k) ∷ logs f (suc k) n files

-- What they hold, the last of them first.
abbrev pub text_of : List (Option (List ℕ)) → List ℕ
text_of [] = []
text_of (c ∷ cs) = text_of cs ++ contents_of c

pub text_of-append :
    (cs : List (Option (List ℕ))) (c : Option (List ℕ))
    → text_of (cs ++ (c ∷ [])) ≡ contents_of c ++ text_of cs
text_of-append [] c = sym (append-nil (contents_of c))
text_of-append (d ∷ cs) c =
    ap (λ s. s ++ contents_of d) (text_of-append cs c)
    ∙ append_assoc (contents_of c) (text_of cs) (contents_of d)

pub logs_snoc :
    (f : List ℕ) (k n : ℕ) (files : Files)
    → logs f k (suc n) files ≡ logs f k n files ++ (files (log_file f (k + n)) ∷ [])
logs_snoc f k zero files = ap (λ i. files (log_file f i) ∷ []) (omega arith)
logs_snoc f k (suc n) files =
    ap (λ cs. files (log_file f k) ∷ cs)
      (logs_snoc f (suc k) n files
        ∙ ap (λ i. logs f (suc k) n files ++ (files (log_file f i) ∷ [])) (omega arith))

pub logs_moved :
    (f : List ℕ) (files later : Files) (k n : ℕ)
    → ((i : ℕ) → i < k + n → later (log_file f (suc i)) ≡ files (log_file f i))
    → logs f (suc k) n later ≡ logs f k n files
logs_moved f files later k zero moved = refl
logs_moved f files later k (suc n) moved =
    ap (λ c. c ∷ logs f (suc (suc k)) n later) (moved k (omega arith))
    ∙ ap (λ cs. files (log_file f k) ∷ cs)
        (logs_moved f files later (suc k) n (λ i less. moved i (omega arith)))

-- Only the current file is written.
pub logs-update :
    (f : List ℕ) (c : Option (List ℕ)) (files : Files) (k n : ℕ)
    → 0 < k
    → logs f k n (update f c files) ≡ logs f k n files
logs-update f c files k zero pos = refl
logs-update f c files k (suc n) pos =
    ap (λ d. d ∷ logs f (suc k) n (update f c files))
      (update_other f c files (log_file f k) (log_file_ne f 0 k (λ e. omega arith)))
    ∙ ap (λ cs. files (log_file f k) ∷ cs) (logs-update f c files (suc k) n (omega arith))

no_contents :
    (append : Bool) (c : Option (List ℕ)) → c ≡ none → (if append then contents_of c else []) ≡ []
no_contents true c gone = ap contents_of gone
no_contents false c gone = refl

module _ (disk : Disk) (grants : Grants disk) where
  open_file_lem :
      (s : FileSink) (files : Files)
      → files s.filename ≡ none
      → open_file disk (s, files)
        ≡ (record s { file = some (disk.start 0) }, update s.filename (some []) files)
  unfolding open_file
  open_file_lem s files gone =
      ap
        (λ contents.
          if disk.opens s.filename
          then (
            record s { file = some (disk.start (length contents)) },
            update s.filename (some contents) files,
          )
          else (record s { file = none }, files))
        (no_contents s.append (files s.filename) gone)
      ∙ ap
          (λ b.
            if b
            then (record s { file = some (disk.start 0) }, update s.filename (some []) files)
            else (record s { file = none }, files))
          (grants.opens_all s.filename)

  -- The files after a rotation, and the sink.
  pub record Renewed (s : FileSink) (files : Files) (after : State) : Type 0 where
    pub reopens : after.0 ≡ record s { file = some (disk.start 0) }
    pub current : after.1 s.filename ≡ some []
    pub archives :
        (k : ℕ)
        → k < s.max_files
        → after.1 (log_file s.filename (suc k)) ≡ files (log_file s.filename k)
    pub others :
        (m : List ℕ)
        → ((k : ℕ) → k ≤ s.max_files → bytes_eq (log_file s.filename k) m ≡ false)
        → after.1 m ≡ files m

  rotated :
      (s : FileSink) (files : Files) (n : ℕ)
      → s.max_files ≡ suc n
      → suc n < 2 ^ 64
      → (later : Files) × (rotate_files disk s.filename s.max_files files ≡ (true, later))
        × Rotated disk grants s.filename s.max_files files later
  rotated s files n is small =
      subst
        (λ max.
          (later : Files) × (rotate_files disk s.filename max files ≡ (true, later))
          × Rotated disk grants s.filename max files later)
        (sym is) (rotate_files-Rotated disk grants s.filename n files small)

  pub rotate-Renewed :
      (s : FileSink) (files : Files)
      → 0 < s.max_files
      → s.max_files < 2 ^ 64
      → Renewed s files (rotate disk (s, files))
  unfolding rotate
  rotate-Renewed s files pos small = elim (zero-cases s.max_files) [
    | inl is ↦ absurd (omega arith)
    | inr (n, is) ↦
        (let (later, e, r) = rotated s files n is (omega arith) in
          let f = s.filename in
          subst (Renewed s files)
            (sym (
              ap (λ r. open_file disk (record s { file = none }, r.1)) e
              ∙ open_file_lem (record s { file = none }) later r.emptied))
            (record {
              reopens = refl;
              current = update_self f (some []) later;
              archives = λ k less.
                  update_other f (some []) later (log_file f (suc k))
                    (log_file_ne f 0 (suc k) (λ e. omega arith))
                  ∙ r.moved k less;
              others =
                  λ m ne. update_other f (some []) later m (ne 0 (omega arith)) ∙ r.others m ne;
            }))
  ]

  -- After a rotation of a sink that keeps at least one archive, and where the system refuses nothing,
  -- the current file is empty, and every file stands one number higher than before, but for the
  -- oldest, which is gone; a file that is none of the sink's is as it was.
  pub rotate_lem :
      (s : FileSink) (files : Files) (m : List ℕ)
      → 0 < s.max_files
      → s.max_files < 2 ^ 64
      → ((k : ℕ) → k ≤ s.max_files → bytes_eq (log_file s.filename k) m ≡ false)
      → (logs s.filename 0 (suc s.max_files) (rotate disk (s, files)).1
          ≡ some [] ∷ logs s.filename 0 s.max_files files)
        × ((rotate disk (s, files)).1 m ≡ files m)
        × ((rotate disk (s, files)).0 ≡ record s { file = some (disk.start 0) })
  rotate_lem s files m pos small other =
      let r = rotate-Renewed s files pos small in
      (
        ap (λ c. c ∷ logs s.filename 1 s.max_files (rotate disk (s, files)).1) r.current
            ∙ ap (λ cs. some [] ∷ cs)
                (logs_moved s.filename files (rotate disk (s, files)).1 0 s.max_files
                  (λ i less. r.archives i (omega arith))),
        r.others m other,
        r.reopens,
      )
