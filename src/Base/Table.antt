-- ===== src/Base/Table.antt =====
-- Checking a property of every small number by evaluation.
use dht_hunter.Base.{ℕ, zero, suc, ◌<◌, ◌≡◌, Bool, true, ◌&&◌, arith}

module _ (test : ℕ → Bool) where
  unfoldable pub passes : ℕ → Bool
  passes zero = true
  passes (suc limit) = passes limit && test limit

  pub passes_lem : (limit : ℕ) {m : ℕ} → m < limit → passes limit ≡ true → test m ≡ true
  unfolding passes
  passes_lem zero below all = absurd (omega arith)
  passes_lem (suc limit) {m} below all = ground (arith, passes_lem limit {m = m})
