-- ===== src/Base/Int.antt =====
-- Signed integers over the native numbers, under the library's names, and the range of int64_t.
use dht_hunter.Base.{ℕ, ◌^◌, ◌<◌}

-- `negsuc n` is -(n + 1).
pub data ℤ : Type 0 where
  pos : ℕ → ℤ
  negsuc : ℕ → ℤ

-- INT64_MIN ≤ z ≤ INT64_MAX.
abbrev pub IsInt64 : ℤ → Type 0
IsInt64 (pos n) = n < 2 ^ 63
IsInt64 (negsuc n) = n < 2 ^ 63
