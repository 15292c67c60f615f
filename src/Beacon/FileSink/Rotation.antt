-- ===== src/Beacon/FileSink/Rotation.antt =====
-- The rotation of log files, where the system refuses nothing.
use dht_hunter.Base.{
  ℕ, zero, suc, ◌+◌, ◌-◌, ◌%◌, ◌^◌, ◌<◌, ◌≤◌, ◌≡◌, refl, sym, ap, subst, ◌∙◌, ◌⊎◌, inl, inr, true,
  false, List, Option, none, some, ltb, lt→ltb, bytes_eq, if◌then◌else◌, arith,
}
use dht_hunter.Beacon.FileSink.{
  Files, Disk, update, remove, rename, rename_found, rename_existing, unless_thrown, archive, shift,
  rotate_files,
}
use dht_hunter.Beacon.FileSink.Names.{log_file, log_file_ne, archive_ne, update_self, update_other}

-- The system refuses nothing.
pub record Grants (disk : Disk) : Type 0 where
  pub opens_all : (name : List ℕ) → disk.opens name ≡ true
  pub removes_all : (name : List ℕ) → disk.removes name ≡ true
  pub renames_all : (old new : List ℕ) → disk.renames old new ≡ true

le-cases : (k n : ℕ) → k ≤ suc n → (k ≡ suc n) ⊎ (k ≤ n)
le-cases k n le = ground arith

pub zero-cases : (k : ℕ) → (k ≡ 0) ⊎ ((j : ℕ) × (k ≡ suc j))
zero-cases zero = inl refl
zero-cases (suc j) = inr (j, refl)

record Moved (old new : List ℕ) (files later : Files) : Type 0 where
  arrives : later new ≡ files old
  leaves : later old ≡ none
  stays : (m : List ℕ) → bytes_eq old m ≡ false → bytes_eq new m ≡ false → later m ≡ files m

module _ (disk : Disk) (grants : Grants disk) where
  rename_lem :
      (old new : List ℕ) (files : Files)
      → rename disk old new files ≡ (true, update new (files old) (update old none files))
  unfolding rename
  rename_lem old new files = rw (rename, grants.renames_all old new) refl

  rename_found-Moved :
      (old new : List ℕ) (files : Files) (found : Option (List ℕ))
      → files old ≡ found
      → files new ≡ none
      → bytes_eq new old ≡ false
      → (later : Files) × (rename_found disk old new files found ≡ (true, later))
        × Moved old new files later
  rename_found-Moved old new files none e free ne =
      (files, refl, record { arrives = free ∙ sym e; leaves = e; stays = λ m h k. refl })
  rename_found-Moved old new files (some contents) e free ne = (
    update new (files old) (update old none files),
    rename_lem old new files,
    record {
      arrives = update_self new (files old) (update old none files);
      leaves =
          update_other new (files old) (update old none files) old ne ∙ update_self old none files;
      stays = λ m h k.
          update_other new (files old) (update old none files) m k
          ∙ update_other old none files m h;
    },
  )

  rename_existing-Moved :
      (old new : List ℕ) (files : Files)
      → files new ≡ none
      → bytes_eq new old ≡ false
      → (later : Files) × (rename_existing disk old new files ≡ (true, later))
        × Moved old new files later
  unfolding rename_existing
  rename_existing-Moved old new files free ne =
      rename_found-Moved old new files (files old) refl free ne

  module _ (f : List ℕ) where
    -- Each file from 1 to `n` has moved to the next number.
    record Shifted (n : ℕ) (files later : Files) : Type 0 where
      moved : (k : ℕ) → 0 < k → k ≤ n → later (log_file f (suc k)) ≡ files (log_file f k)
      emptied : later (log_file f 1) ≡ none
      others :
          (m : List ℕ)
          → ((k : ℕ) → 0 < k → k ≤ suc n → bytes_eq (log_file f k) m ≡ false)
          → later m ≡ files m

    shift-Shifted :
        (n : ℕ) (files : Files)
        → suc n < 2 ^ 64
        → files (log_file f (suc n)) ≡ none
        → (later : Files) × (shift disk f n files ≡ (true, later)) × Shifted n files later
    unfolding shift
    shift-Shifted zero files small free = (
      files,
      refl,
      record { moved = λ k pos le. absurd (omega arith); emptied = free; others = λ m ne. refl },
    )
    shift-Shifted (suc n) files small free =
        let wraps : suc (suc n) % 2 ^ 64 ≡ suc (suc n) = omega arith in
        let (first, e, m) =
          rename_existing-Moved (archive f (suc n)) (archive f (suc (suc n))) files free
            (archive_ne f (suc (suc n)) (suc n) (λ e. omega arith)) in
        let (later, e', rest) = shift-Shifted n first (omega arith) m.leaves in
        (
          later,
          ap
                (λ i.
                  unless_thrown (rename_existing disk (archive f (suc n)) (archive f i) files)
                    (shift disk f n))
                wraps
              ∙ ap (λ r. unless_thrown r (shift disk f n)) e
              ∙ e',
          record {
            moved = λ k pos le. elim (le-cases k n le) [
              | inl is ↦
                  subst (λ k. later (log_file f (suc k)) ≡ files (log_file f k)) (sym is)
                    (rest.others (log_file f (suc (suc n)))
                        (λ j _ less. log_file_ne f j (suc (suc n)) (λ e. omega arith))
                      ∙ m.arrives)
              | inr less ↦
                  rest.moved k pos less
                  ∙ m.stays (log_file f k) (log_file_ne f (suc n) k (λ e. omega arith))
                      (log_file_ne f (suc (suc n)) k (λ e. omega arith))
            ];
            emptied = rest.emptied;
            others = λ x ne.
                rest.others x (λ k pos less. ne k pos (omega arith))
                ∙ m.stays x (ne (suc n) (omega arith) (omega arith))
                    (ne (suc (suc n)) (omega arith) (omega arith));
          },
        )

    -- Each file below `n` has moved to the next number.
    pub record Rotated (n : ℕ) (files later : Files) : Type 0 where
      pub moved : (k : ℕ) → k < n → later (log_file f (suc k)) ≡ files (log_file f k)
      pub emptied : later f ≡ none
      pub others :
          (m : List ℕ) → ((k : ℕ) → k ≤ n → bytes_eq (log_file f k) m ≡ false) → later m ≡ files m

    remove_lem :
        (name : List ℕ) (files : Files) → remove disk name files ≡ (true, update name none files)
    unfolding remove
    remove_lem name files = rw (remove, grants.removes_all name) refl

    remove_oldest :
        (n : ℕ) (name : List ℕ) (files : Files)
        → (if ltb 0 (suc n) then remove disk name files else (true, files))
          ≡ (true, update name none files)
    remove_oldest n name files =
        ap (λ b. if b then remove disk name files else (true, files))
          (lt→ltb 0 (suc n) (omega arith))
        ∙ remove_lem name files

    pub rotate_files-Rotated :
        (n : ℕ) (files : Files)
        → suc n < 2 ^ 64
        → (later : Files) × (rotate_files disk f (suc n) files ≡ (true, later))
          × Rotated (suc n) files later
    unfolding rotate_files
    rotate_files-Rotated n files small =
        let rounds : (suc n + (2 ^ 64 - 1)) % 2 ^ 64 ≡ n = omega arith in
        let kept = update (archive f (suc n)) none files in
        let (later, e, s) =
          shift-Shifted n kept small (update_self (archive f (suc n)) none files) in
        let (last, e', m) =
          rename_existing-Moved f (archive f 1) later s.emptied
            (log_file_ne f 1 0 (λ e. omega arith)) in
        let finish = rename_existing disk f (archive f 1) in
        (
          last,
          ap
                (λ r. unless_thrown r (λ files.
                  unless_thrown (shift disk f ((suc n + (2 ^ 64 - 1)) % 2 ^ 64) files) finish))
                (remove_oldest n (archive f (suc n)) files)
              ∙ ap (λ i. unless_thrown (shift disk f i kept) finish) rounds
              ∙ ap (λ r. unless_thrown r finish) e
              ∙ e',
          record {
            moved = λ k less. elim (zero-cases k) [
              | inl is ↦
                  subst (λ k. last (log_file f (suc k)) ≡ files (log_file f k)) (sym is)
                    (m.arrives
                      ∙ s.others f (λ j pos _. log_file_ne f j 0 (λ e. omega arith))
                      ∙ update_other (archive f (suc n)) none files f
                          (log_file_ne f (suc n) 0 (λ e. omega arith)))
              | inr (j, is) ↦
                  m.stays (log_file f (suc k)) (log_file_ne f 0 (suc k) (λ e. omega arith))
                    (log_file_ne f 1 (suc k) (λ e. omega arith))
                  ∙ s.moved k (omega arith) (omega arith)
                  ∙ update_other (archive f (suc n)) none files (log_file f k)
                      (log_file_ne f (suc n) k (λ e. omega arith))
            ];
            emptied = m.leaves;
            others = λ x ne.
                m.stays x (ne 0 (omega arith)) (ne 1 (omega arith))
                ∙ s.others x (λ k _ less. ne k (omega arith))
                ∙ update_other (archive f (suc n)) none files x (ne (suc n) (omega arith));
          },
        )
