-- ===== src/Dht/Bootstrap/Tests.antt =====
-- Runs of the bootstrap, and instances of its theorems.
use dht_hunter.Base.{ℕ, ◌≡◌, true}
use dht_hunter.Dht.Bootstrap.{State, started, Reach}
use dht_hunter.Dht.Bootstrap.Waiting.{complete_early}

complete_early_example :
    (steps : ℕ) × (s : State) × Reach (started 5) steps s
    × (s.bootstrap.complete ≡ true)
    × (s.to_begin ≡ 0)
    × (s.running ≡ 7)
complete_early_example = complete_early 5
