-- ===== src/Beacon/FileSink/Names.antt =====
-- The names of log files, and what an update leaves alone.
use dht_hunter.Base.{
  ℕ, zero, suc, ◌≡◌, ◌≢◌, inl, inr, refl, sym, ap, ◌∙◌, true, false, List, [], ◌∷◌, ◌++◌, Option,
  bytes_eq, bytes_eq_iff, arith, Bool-cases,
}
use dht_hunter.Base.Text.{to_string, scan}
use dht_hunter.Base.Text.RoundTrip.{scan-to_string}
use dht_hunter.Beacon.FileSink.{Files, update, archive}

pub bytes_eq_refl : (s : List ℕ) → bytes_eq s s ≡ true
bytes_eq_refl s = (bytes_eq_iff s s).1 refl

pub to_string_inj : (i j : ℕ) → to_string i ≡ to_string j → i ≡ j
to_string_inj i j e = sym (scan-to_string i) ∙ ap (scan 10 0) e ∙ scan-to_string j

bytes_eq_ne : (s t : List ℕ) → s ≢ t → bytes_eq s t ≡ false
bytes_eq_ne s t ne = elim (Bool-cases (bytes_eq s t)) [
  | inl h ↦ absurd (ne ((bytes_eq_iff s t).0 h))
  | inr h ↦ h
]

bytes_eq_prefix : (f s t : List ℕ) → bytes_eq (f ++ s) (f ++ t) ≡ bytes_eq s t
unfolding bytes_eq
bytes_eq_prefix [] s t = refl
bytes_eq_prefix (x ∷ f) s t = ground (arith, bytes_eq_prefix f s t)

pub archive_ne : (f : List ℕ) (i j : ℕ) → i ≢ j → bytes_eq (archive f i) (archive f j) ≡ false
unfolding archive bytes_eq
archive_ne f i j ne =
    bytes_eq_prefix f (b'.' ∷ to_string i) (b'.' ∷ to_string j)
    ∙ bytes_eq_ne (to_string i) (to_string j) (λ e. ne (to_string_inj i j e))

longer_ne : (f : List ℕ) (c : ℕ) (s : List ℕ) → bytes_eq (f ++ (c ∷ s)) f ≡ false
unfolding bytes_eq
longer_ne [] c s = refl
longer_ne (x ∷ f) c s = ground (arith, longer_ne f c s)

shorter_ne : (f : List ℕ) (c : ℕ) (s : List ℕ) → bytes_eq f (f ++ (c ∷ s)) ≡ false
unfolding bytes_eq
shorter_ne [] c s = refl
shorter_ne (x ∷ f) c s = ground (arith, shorter_ne f c s)

-- The current log is file 0.
abbrev pub log_file : List ℕ → ℕ → List ℕ
log_file f zero = f
log_file f (suc i) = archive f (suc i)

pub log_file_ne : (f : List ℕ) (i j : ℕ) → i ≢ j → bytes_eq (log_file f i) (log_file f j) ≡ false
unfolding archive
log_file_ne f zero zero ne = absurd (ne refl)
log_file_ne f zero (suc j) ne = shorter_ne f b'.' (to_string (suc j))
log_file_ne f (suc i) zero ne = longer_ne f b'.' (to_string (suc i))
log_file_ne f (suc i) (suc j) ne = archive_ne f (suc i) (suc j) ne

pub update_self :
    (name : List ℕ) (c : Option (List ℕ)) (files : Files) → update name c files name ≡ c
unfolding update
update_self name c files = rw (update, bytes_eq_refl name) refl

pub update_other :
    (name : List ℕ) (c : Option (List ℕ)) (files : Files) (m : List ℕ)
    → bytes_eq name m ≡ false
    → update name c files m ≡ files m
unfolding update
update_other name c files m ne = rw (update, ne) refl
