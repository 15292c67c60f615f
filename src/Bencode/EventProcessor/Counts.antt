-- ===== src/Bencode/EventProcessor/Counts.antt =====
-- How often a promise waits and was completed.
use dht_hunter.Base.{ℕ, ◌+◌, ◌≤◌, ◌≡◌, true, ◌==◌, if◌then◌else◌, List, [], ◌∷◌, ◌++◌, arith}
use dht_hunter.Bencode.EventProcessor.{Reply, waits, promise, forget}

abbrev pub occurrences : ℕ → List ℕ → ℕ
occurrences id [] = 0
occurrences id (i ∷ ids) = (if i == id then 1 else 0) + occurrences id ids

-- How often a promise was completed.
abbrev pub completions : ℕ → List (ℕ × Reply) → ℕ
completions id [] = 0
completions id ((i, r) ∷ done) = (if i == id then 1 else 0) + completions id done

pub completions-append :
    (id i : ℕ) (r : Reply) (done : List (ℕ × Reply))
    → completions id (done ++ ((i, r) ∷ [])) ≡ completions id done + (if i == id then 1 else 0)
completions-append id i r [] = ground arith
completions-append id i r ((j, r') ∷ done) = omega (arith, completions-append id i r done)

pub occurrences-append :
    (id i : ℕ) (ids : List ℕ)
    → occurrences id (ids ++ (i ∷ [])) ≡ occurrences id ids + (if i == id then 1 else 0)
occurrences-append id i [] = ground arith
occurrences-append id i (j ∷ ids) = omega (arith, occurrences-append id i ids)

pub occurrences-promise :
    (id i : ℕ) (ids : List ℕ)
    → occurrences id (promise i ids) ≤ occurrences id ids + (if i == id then 1 else 0)
unfolding promise
occurrences-promise id i ids = ground (arith, occurrences-append id i ids)

pub occurrences-forget :
    (id i : ℕ) (ids : List ℕ)
    → waits i ids ≡ true
    → occurrences id (forget i ids) + (if i == id then 1 else 0) ≡ occurrences id ids
unfolding waits forget
occurrences-forget id i [] h = absurd (cc)
occurrences-forget id i (j ∷ ids) h = ground (arith, occurrences-forget id i ids)
