-- ===== src/Beacon/FileSink/Kept.antt =====
-- What a file sink keeps of the lines that it logs.
use dht_hunter.Base.{
  ℕ, suc, ◌+◌, ◌*◌, ◌^◌, ◌<◌, ◌≤◌, ◌≡◌, refl, sym, ap, subst, ◌∙◌, ◌⊎◌, inl, inr, List, [], ◌∷◌,
  ◌++◌, append_assoc, append-nil, Option, none, some, if◌then◌else◌, arith, length, length-append,
  All,
}
use dht_hunter.Beacon.Filter.{BeaconSink, should_log, format_line}
use dht_hunter.Beacon.FileSink.{
  Files, Disk, FileSink, State, update, rotate, contents_of, put_line, Entry,
}
use dht_hunter.Beacon.FileSink.Names.{log_file, update_self}
use dht_hunter.Beacon.FileSink.Rotation.{Grants}
use dht_hunter.Beacon.FileSink.Lines.{
  logs, text_of, text_of-append, logs_snoc, logs_moved, logs-update, rotate-Renewed,
}

-- Everything in the files of a sink, oldest first.
abbrev pub log_text : State → List ℕ
log_text (s, files) = text_of (logs s.filename 0 (suc s.max_files) files)

abbrev pub logged : BeaconSink → List Entry → List ℕ
logged sink [] = []
logged sink (e ∷ entries) =
    (if should_log e.severity e.category sink
      then format_line e.now e.severity e.category e.message e.location
      else [])
    ++ logged sink entries

abbrev pub IsLarge : ℕ → Option (List ℕ) → Type 0
IsLarge size c = size ≤ length (contents_of c)

abbrev pub IsGone : Option (List ℕ) → Type 0
IsGone c = c ≡ none

-- Some files of at least `size` bytes, and then none.
abbrev pub Stacked : ℕ → List (Option (List ℕ)) → Type 0
Stacked size [] = Unit {0}
Stacked size (none ∷ cs) = All IsGone cs
Stacked size (some c ∷ cs) = (size ≤ length c) × Stacked size cs

pub IsGone-Stacked : (size : ℕ) (cs : List (Option (List ℕ))) → All IsGone cs → Stacked size cs
IsGone-Stacked size [] all = tt
IsGone-Stacked size (none ∷ cs) (e, all) = all
IsGone-Stacked size (some c ∷ cs) (e, all) = cc

IsGone-init :
    (cs : List (Option (List ℕ))) (c : Option (List ℕ))
    → All IsGone (cs ++ (c ∷ []))
    → All IsGone cs
IsGone-init [] c all = tt
IsGone-init (d ∷ cs) c (e, all) = (e, IsGone-init cs c all)

Stacked-init :
    (size : ℕ) (cs : List (Option (List ℕ))) (c : Option (List ℕ))
    → Stacked size (cs ++ (c ∷ []))
    → Stacked size cs
Stacked-init size [] c h = tt
Stacked-init size (none ∷ cs) c h = IsGone-init cs c h
Stacked-init size (some d ∷ cs) c (le, h) = (le, Stacked-init size cs c h)

IsGone-last :
    (cs : List (Option (List ℕ))) (c : Option (List ℕ)) → All IsGone (cs ++ (c ∷ [])) → c ≡ none
IsGone-last [] c (e, all) = e
IsGone-last (d ∷ cs) c (e, all) = IsGone-last cs c all

-- The oldest file is gone, or every file is large.
Stacked-last :
    (size : ℕ) (cs : List (Option (List ℕ))) (c : Option (List ℕ))
    → Stacked size (cs ++ (c ∷ []))
    → (c ≡ none) ⊎ All (IsLarge size) cs
Stacked-last size [] none h = inl refl
Stacked-last size [] (some c) h = inr tt
Stacked-last size (none ∷ cs) c h = inl (IsGone-last cs c h)
Stacked-last size (some d ∷ cs) c (le, h) = elim (Stacked-last size cs c h) [
  | inl gone ↦ inl gone
  | inr all ↦ inr (le, all)
]

All-init :
    (size : ℕ) (cs : List (Option (List ℕ))) (c : Option (List ℕ))
    → All (IsLarge size) (cs ++ (c ∷ []))
    → All (IsLarge size) cs
All-init size [] c all = tt
All-init size (d ∷ cs) c (le, all) = (le, All-init size cs c all)

pub length-text_of :
    (size : ℕ) (cs : List (Option (List ℕ)))
    → All (IsLarge size) cs
    → length cs * size ≤ length (text_of cs)
length-text_of size [] all = omega arith
length-text_of size (c ∷ cs) (le, all) =
    let rest = length-text_of size cs all in
    let whole = length-append (text_of cs) (contents_of c) in grind arith

-- `all` is what was ever in the files of the sink. What is no longer there is the oldest part of it,
-- and where this is not empty, each archive is large.
pub record Keeps (size : ℕ) (all : List ℕ) (state : State) : Type 0 where
  pub dropped : List ℕ
  pub splits : dropped ++ log_text state ≡ all
  pub position : ℕ
  pub opened : state.0.file ≡ some position
  pub current : List ℕ
  pub exists : state.1 state.0.filename ≡ some current
  pub inside : position ≤ length current
  pub stacked : Stacked size (logs state.0.filename 1 state.0.max_files state.1)
  pub bounded :
      (dropped ≡ []) ⊎ All (IsLarge size) (logs state.0.filename 1 state.0.max_files state.1)

pub put_line-Keeps :
    (size : ℕ) (all line : List ℕ) (s : FileSink) (files : Files) (p : ℕ)
    → Keeps size all (s, files)
    → Keeps size (all ++ line) (put_line line (s, files) (some p))
put_line-Keeps size all line s files p k =
    let f = s.filename in
    let text = contents_of (files f) ++ line in
    let later = update f (some text) files in
    let archives = logs-update f (some text) files 1 s.max_files (omega arith) in
    let old = text_of (logs f 1 s.max_files files) in
    record {
      dropped = k.dropped;
      splits =
          ap (λ cs. k.dropped ++ (text_of cs ++ contents_of (later f))) archives
          ∙ ap (λ c. k.dropped ++ (old ++ contents_of c)) (update_self f (some text) files)
          ∙ ap (λ u. k.dropped ++ u) (sym (append_assoc old (contents_of (files f)) line))
          ∙ sym (append_assoc k.dropped (old ++ contents_of (files f)) line)
          ∙ ap (λ u. u ++ line) k.splits;
      position = length text;
      opened = refl;
      current = text;
      exists = update_self f (some text) files;
      inside = omega arith;
      stacked = subst (Stacked size) (sym archives) k.stacked;
      bounded = subst (λ cs. (k.dropped ≡ []) ⊎ All (IsLarge size) cs) (sym archives) k.bounded;
    }

one_plus : (n : ℕ) → 1 + n ≡ suc n
one_plus n = omega arith

-- The oldest archive joins what is dropped.
drop_oldest :
    (dropped oldest archives current all : List ℕ)
    → dropped ++ ((oldest ++ archives) ++ current) ≡ all
    → (dropped ++ oldest) ++ ((archives ++ current) ++ []) ≡ all
drop_oldest dropped oldest archives current all e =
    ap (λ u. (dropped ++ oldest) ++ u) (append-nil (archives ++ current))
    ∙ append_assoc dropped oldest (archives ++ current)
    ∙ ap (λ u. dropped ++ u) (sym (append_assoc oldest archives current))
    ∙ e

bounded_later :
    (size : ℕ) (dropped : List ℕ) (cs : List (Option (List ℕ))) (c : Option (List ℕ))
    → Stacked size (cs ++ (c ∷ []))
    → (dropped ≡ []) ⊎ All (IsLarge size) (cs ++ (c ∷ []))
    → (dropped ++ contents_of c ≡ []) ⊎ All (IsLarge size) cs
bounded_later size dropped cs c h (inr all) = inr (All-init size cs c all)
bounded_later size dropped cs c h (inl e) = elim (Stacked-last size cs c h) [
  | inl gone ↦ inl (ap (λ d. d ++ contents_of c) e ∙ ap contents_of gone)
  | inr all ↦ inr all
]

with_newest :
    (size : ℕ) (dropped current : List ℕ) (cs : List (Option (List ℕ)))
    → size ≤ length current
    → (dropped ≡ []) ⊎ All (IsLarge size) cs
    → (dropped ≡ []) ⊎ All (IsLarge size) (some current ∷ cs)
with_newest size dropped current cs le (inl e) = inl e
with_newest size dropped current cs le (inr all) = inr (le, all)

module _ (disk : Disk) (grants : Grants disk) (starts : (n : ℕ) → disk.start n ≤ n) where
  pub rotate-Keeps :
      (all : List ℕ) (s : FileSink) (files : Files) (n : ℕ)
      → s.max_files ≡ suc n
      → suc n < 2 ^ 64
      → (k : Keeps s.max_file_size all (s, files)) → s.max_file_size ≤ k.position
      → Keeps s.max_file_size all
          (record s { file = some (disk.start 0) }, (rotate disk (s, files)).1)
  rotate-Keeps all s files n is small k full =
      let f = s.filename in
      let size = s.max_file_size in
      let r = rotate-Renewed disk grants s files (omega arith) (omega arith) in
      let later = (rotate disk (s, files)).1 in
      let cs = logs f 1 n files in
      let oldest = files (log_file f (suc n)) in
      let before : logs f 1 s.max_files files ≡ cs ++ (oldest ∷ []) =
        ap (λ m. logs f 1 m files) is
        ∙ logs_snoc f 1 n files
        ∙ ap (λ i. cs ++ (files (log_file f i) ∷ [])) (one_plus n) in
      let after : logs f 1 s.max_files later ≡ some k.current ∷ cs =
        logs_moved f files later 0 s.max_files (λ i less. r.archives i (omega arith))
        ∙ ap (λ m. logs f 0 m files) is
        ∙ ap (λ c. c ∷ cs) k.exists in
      let stack = subst (Stacked size) before k.stacked in
      record {
        dropped = k.dropped ++ contents_of oldest;
        splits =
            ap (λ ds. (k.dropped ++ contents_of oldest) ++ (text_of ds ++ contents_of (later f)))
              after
            ∙ ap
                (λ c.
                  (k.dropped ++ contents_of oldest) ++ ((text_of cs ++ k.current) ++ contents_of c))
                r.current
            ∙ drop_oldest k.dropped (contents_of oldest) (text_of cs) k.current all (
                sym (ap (λ u. k.dropped ++ (u ++ k.current)) (text_of-append cs oldest))
                ∙ sym (ap (λ ds. k.dropped ++ (text_of ds ++ k.current)) before)
                ∙ ap (λ c. k.dropped ++ (text_of (logs f 1 s.max_files files) ++ contents_of c))
                    (sym k.exists)
                ∙ k.splits);
        position = disk.start 0;
        opened = refl;
        current = [];
        exists = r.current;
        inside = starts 0;
        stacked = subst (Stacked size) (sym after) (omega arith, Stacked-init size cs oldest stack);
        bounded =
            subst (λ ds. (k.dropped ++ contents_of oldest ≡ []) ⊎ All (IsLarge size) ds) (sym after)
              (with_newest size (k.dropped ++ contents_of oldest) k.current cs (omega arith) (
                bounded_later size k.dropped cs oldest stack
                  (subst (λ ds. (k.dropped ≡ []) ⊎ All (IsLarge size) ds) before k.bounded)));
      }
