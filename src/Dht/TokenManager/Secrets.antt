-- ===== src/Dht/TokenManager/Secrets.antt =====
-- The bytes of a token, and what the token manager's methods keep.
use dht_hunter.Base.{
  ℕ, zero, suc, ◌-◌, ◌/◌, ◌<◌, ◌≡◌, refl, ap, true, false, ◌||◌, List, [], ◌∷◌, ◌++◌, leb, length,
  bytes_eq, bytes_eq_iff, Bool-cases, inl, inr, arith,
}
use dht_hunter.Types.Node.{Endpoint}
use dht_hunter.Types.Endpoint.{endpoint_to_string}
use dht_hunter.Dht.Mutex.{Relock, done}
use dht_hunter.Dht.TokenManager.{
  token_rotation_interval, nanoseconds, DhtToken, token_eq, TokenManager, rotate_left, mix,
  token_data, generate_token_with_secret, rotate_secret, rotate_if_due, generate_token,
  verify_token,
}

-- Between calls: the mutex is free, and the current secret has its sixteen bytes.
pub record IsManager (m : TokenManager) : Type 0 where
  pub free : m.held ≡ false
  pub secret : length m.current_secret ≡ 16

abbrev pub repeat : ℕ → ℕ → List ℕ
repeat zero b = []
repeat (suc n) b = b ∷ repeat n b

token_data-repeat :
    (secret text : List ℕ) (n : ℕ) → token_data secret text n ≡ repeat n (mix secret 0 0 text)
unfolding token_data
token_data-repeat secret text zero = refl
token_data-repeat secret text (suc n) =
    ap (λ (bs : List ℕ). mix secret 0 0 text ∷ bs) (token_data-repeat secret text n)

mix_below :
    (secret : List ℕ) (j byte : ℕ) (text : List ℕ) → byte < 256 → mix secret j byte text < 256
unfolding mix rotate_left
mix_below secret j byte [] h = h
mix_below secret j byte (c ∷ text) h = mix_below secret (suc j) _ text (omega arith)

-- The bytes of a token depend on neither the clock nor the random bytes.
unfoldable pub bytes_of : ℕ → List ℕ → Endpoint → List ℕ
bytes_of size s e = token_data s (endpoint_to_string e ++ s) size

pub generate_bytes :
    (size now : ℕ) (other : List ℕ) (e : Endpoint) (s : List ℕ)
    → length s ≡ 16
    → (generate_token_with_secret size now other e s).bytes ≡ bytes_of size s e
unfolding generate_token_with_secret bytes_of
generate_bytes size now other e [] h = absurd (omega arith)
generate_bytes size now other e (b ∷ s) h = refl

pub bytes_of-repeat :
    (size : ℕ) (s : List ℕ) (e : Endpoint)
    → (b : ℕ) × (b < 256) × (bytes_of size s e ≡ repeat size b)
unfolding bytes_of
bytes_of-repeat size s e = (
  mix s 0 0 (endpoint_to_string e ++ s),
  mix_below s 0 0 _ (omega arith),
  token_data-repeat s _ size,
)

-- A free mutex is free again after `generate_token`, in the state that the rotation leaves.
pub generate_token_lem :
    (size : ℕ) (r : Relock) (now : ℕ) (fresh other : List ℕ) (e : Endpoint) (m : TokenManager)
    → m.held ≡ false
    → generate_token size r now fresh other e m
      ≡ done (
        generate_token_with_secret size now other e (rotate_if_due now fresh m).current_secret,
        record (rotate_if_due now fresh m) { held = false },
      )
unfolding generate_token rotate_if_due rotate_secret
generate_token_lem size r now fresh other e m free =
    elim (Bool-cases (leb token_rotation_interval ((now - m.last_rotation) / nanoseconds))) [
      | inl due ↦ rw free (rw due refl)
      | inr due ↦ rw free (rw due refl)
    ]

pub rotate_if_due-IsManager :
    (now : ℕ) (fresh : List ℕ) (m : TokenManager)
    → length fresh ≡ 16
    → IsManager m
    → IsManager (record (rotate_if_due now fresh m) { held = false })
unfolding rotate_if_due rotate_secret
rotate_if_due-IsManager now fresh m h i =
    elim (Bool-cases (leb token_rotation_interval ((now - m.last_rotation) / nanoseconds))) [
      | inl due ↦ rw due (record { free = refl; secret = h })
      | inr due ↦ rw due (record { free = refl; secret = i.secret })
    ]

-- With two secrets that are not empty, the test is on the bytes of the token.
pub verify_token_lem :
    (size : ℕ) (r : Relock) (now : ℕ) (other other' : List ℕ) (t : DhtToken) (e : Endpoint)
    (m : TokenManager)
    → m.held ≡ false
    → verify_token size r now other other' t e m
      ≡ done (
        bytes_eq t.bytes (generate_token_with_secret size now other e m.current_secret).bytes
            || bytes_eq t.bytes
                (generate_token_with_secret size now other' e m.previous_secret).bytes,
        record m { held = false },
      )
unfolding verify_token token_eq
verify_token_lem size r now other other' t e m free = rw free refl

pub accepts_current :
    (size : ℕ) (r : Relock) (now : ℕ) (other other' : List ℕ) (t : DhtToken) (e : Endpoint)
    (m : TokenManager)
    → m.held ≡ false
    → length m.current_secret ≡ 16
    → t.bytes ≡ bytes_of size m.current_secret e
    → verify_token size r now other other' t e m ≡ done (true, record m { held = false })
accepts_current size r now other other' t e m free l h =
    rw (verify_token_lem size r now other other' t e m free) (
      rw (generate_bytes size now other e m.current_secret l)
        (rw ((bytes_eq_iff t.bytes (bytes_of size m.current_secret e)).1 h) refl))

pub accepts_previous :
    (size : ℕ) (r : Relock) (now : ℕ) (other other' : List ℕ) (t : DhtToken) (e : Endpoint)
    (m : TokenManager)
    → m.held ≡ false
    → length m.previous_secret ≡ 16
    → t.bytes ≡ bytes_of size m.previous_secret e
    → verify_token size r now other other' t e m ≡ done (true, record m { held = false })
accepts_previous size r now other other' t e m free l h =
    rw (verify_token_lem size r now other other' t e m free) (
      rw (generate_bytes size now other' e m.previous_secret l)
        (rw ((bytes_eq_iff t.bytes (bytes_of size m.previous_secret e)).1 h) (ground arith)))
