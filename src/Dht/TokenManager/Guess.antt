-- ===== src/Dht/TokenManager/Guess.antt =====
-- Which byte strings are tokens.
use dht_hunter.Base.{
  ℕ, ◌<◌, ◌≡◌, sym, ◌∙◌, Bool, true, false, ◌||◌, List, length, bytes_eq, bytes_eq_iff, Bool-cases,
  inl, inr,
}
use dht_hunter.Types.Node.{Endpoint}
use dht_hunter.Dht.Mutex.{Relock, Outcome, done}
use dht_hunter.Dht.TokenManager.{
  DhtToken, TokenManager, rotate_if_due, generate_token_with_secret, generate_token, verify_token,
}
use dht_hunter.Dht.TokenManager.Secrets.{
  IsManager, repeat, bytes_of, generate_bytes, bytes_of-repeat, generate_token_lem,
  rotate_if_due-IsManager, verify_token_lem, accepts_current,
}

-- A token holds one byte. From a manager whose mutex is free and whose current secret has sixteen
-- bytes, `generate_token` with a new secret of sixteen bytes returns, leaves such a manager, and
-- gives a token that is one byte below 256 repeated to the token's size.
pub generate_token-repeat :
    (size : ℕ) (r : Relock) (now : ℕ) (fresh other : List ℕ) (e : Endpoint) (m : TokenManager)
    → IsManager m
    → length fresh ≡ 16
    → (t : DhtToken) × (m' : TokenManager) × (b : ℕ) × (generate_token size r now fresh other e m
        ≡ done (t, m'))
      × IsManager m'
      × (b < 256)
      × (t.bytes ≡ repeat size b)
generate_token-repeat size r now fresh other e m i l =
    let start = rotate_if_due-IsManager now fresh m l i in
    let byte = bytes_of-repeat size (rotate_if_due now fresh m).current_secret e in
    (
      generate_token_with_secret size now other e (rotate_if_due now fresh m).current_secret,
      record (rotate_if_due now fresh m) { held = false },
      byte.0,
      generate_token_lem size r now fresh other e m i.free,
      start,
      byte.1,
      generate_bytes size now other e (rotate_if_due now fresh m).current_secret start.secret
          ∙ byte.2,
    )

-- One of 256 guesses is accepted. For every endpoint and every manager whose mutex is free and whose
-- current secret has sixteen bytes, there is a byte below 256 such that `verify_token` returns true
-- on that byte repeated to the token's size.
pub verify_token_guess :
    (size : ℕ) (r : Relock) (now : ℕ) (other other' : List ℕ) (created : ℕ) (e : Endpoint)
    (m : TokenManager)
    → IsManager m
    → (b : ℕ) × (b < 256)
      × (verify_token size r now other other'
            (record { bytes = repeat size b; creation_time = created })
            e
            m
          ≡ done (true, record m { held = false }))
verify_token_guess size r now other other' created e m i =
    let byte = bytes_of-repeat size m.current_secret e in
    (byte.0, byte.1, accepts_current size r now other other' _ e m i.free i.secret (sym byte.2))

abbrev returned : Bool → TokenManager → Outcome (Bool × TokenManager)
returned b m = done (b, m)

or_second :
    {a b : Bool} {m m' : TokenManager}
    → returned (a || b) m ≡ returned true m'
    → a ≡ false
    → b ≡ true
or_second {a = true} h n = absurd (cc)
or_second {a = false} h n = cc

either :
    (size : ℕ) (r : Relock) (now : ℕ) (other other' : List ℕ) (t : DhtToken) (e : Endpoint)
    (m m' : TokenManager)
    → IsManager m
    → length m.previous_secret ≡ 16
    → verify_token size r now other other' t e m ≡ done (true, m')
    → returned
        (bytes_eq t.bytes (bytes_of size m.current_secret e)
          || bytes_eq t.bytes (bytes_of size m.previous_secret e))
        (record m { held = false })
      ≡ returned true m'
either size r now other other' t e m m' i l h =
    rw (sym (generate_bytes size now other e m.current_secret i.secret)) (
      rw (sym (generate_bytes size now other' e m.previous_secret l))
        (sym (verify_token_lem size r now other other' t e m i.free) ∙ h))

-- Nothing else is accepted. If the mutex is free and both secrets have sixteen bytes, a token on
-- which `verify_token` returns true is one byte below 256 repeated to the token's size.
pub verify_token-repeat :
    (size : ℕ) (r : Relock) (now : ℕ) (other other' : List ℕ) (t : DhtToken) (e : Endpoint)
    (m m' : TokenManager)
    → IsManager m
    → length m.previous_secret ≡ 16
    → verify_token size r now other other' t e m ≡ done (true, m')
    → (b : ℕ) × (b < 256) × (t.bytes ≡ repeat size b)
verify_token-repeat size r now other other' t e m m' i l h =
    let current = bytes_of-repeat size m.current_secret e in
    let previous = bytes_of-repeat size m.previous_secret e in
    elim (Bool-cases (bytes_eq t.bytes (bytes_of size m.current_secret e))) [
      | inl c ↦ (
        current.0,
        current.1,
        (bytes_eq_iff t.bytes (bytes_of size m.current_secret e)).0 c ∙ current.2,
      )
      | inr n ↦ (
        previous.0,
        previous.1,
        (bytes_eq_iff t.bytes (bytes_of size m.previous_secret e)).0
              (or_second (either size r now other other' t e m m' i l h) n)
            ∙ previous.2,
      )
    ]
