-- ===== src/Network/Socket/Tests.antt =====
-- Runs of sockets, and instances of their theorem.
use dht_hunter.Base.{ℕ, suc, ◌+◌, ◌<◌, ◌≡◌, refl, false, List, [], ◌∷◌, Option, none, some, arith}
use dht_hunter.Network.Socket.{
  no_sockets, is_open, Call, create, close, move_from, assign_from, perform_calls,
}
use dht_hunter.Network.Socket.Owners.{IsOwned, IsFresh, sockets-IsOwned}

-- A system that gives out a number above all that are open.
abbrev total : List ℕ → ℕ
total [] = 2
total (d ∷ descriptors) = d + total descriptors

abbrev next_free : List ℕ → Option ℕ
next_free descriptors = some (suc (total descriptors))

is_open_above :
    (d : ℕ) (descriptors : List ℕ) → total descriptors < d → is_open d descriptors ≡ false
unfolding is_open
is_open_above d [] less = refl
is_open_above d (e ∷ descriptors) less = ground (arith, is_open_above d descriptors)

next_free-IsFresh : IsFresh next_free
next_free-IsFresh descriptors d e = is_open_above d descriptors (some_lt descriptors d e)
  where
    some_lt :
        (descriptors : List ℕ) (d : ℕ) → next_free descriptors ≡ some d → total descriptors < d
    some_lt descriptors d e = let same : suc (total descriptors) ≡ d = cc in omega arith

abbrev calls : List Call
calls = create ∷ create ∷ assign_from 0 1 ∷ move_from 0 ∷ close 1 ∷ create ∷ close 7 ∷ []

sockets-IsOwned_example : IsOwned (perform_calls next_free calls no_sockets)
sockets-IsOwned_example = sockets-IsOwned next_free next_free-IsFresh calls

test_calls : perform_calls next_free calls no_sockets ≡ record {
  system = record { descriptors = 6 ∷ 3 ∷ []; faults = 0 };
  objects = some 6 ∷ some 3 ∷ none ∷ none ∷ [];
}
unfolding perform_calls
test_calls = refl
