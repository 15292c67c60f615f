-- ===== src/Dht/TokenManager.antt =====
-- modules/dht/src/token_manager.cpp, and the tokens of modules/types/src/dht_token.cpp. Bytes are
-- numbers below 256. What the source draws from std::random_device is an argument: `fresh` for the
-- sixteen bytes of a new secret, `other` for the bytes of a random token. `now` is the reading of
-- std::chrono::system_clock in nanoseconds. `size` is DHTToken::SIZE, which DHTToken does not
-- declare.
pub mod Secrets
pub mod Window
pub mod Guess
pub mod Tests
use Prim.Native.Nat.{bit_or}
use dht_hunter.Base.{
  ℕ, zero, suc, ◌-◌, ◌*◌, ◌/◌, ◌%◌, bit_xor, Bool, false, ◌||◌, List, [], ◌∷◌, ◌++◌, leb,
  if◌then◌else◌, length, get_or, bytes_eq,
}
use dht_hunter.Types.Node.{Endpoint}
use dht_hunter.Types.Endpoint.{endpoint_to_string}
use dht_hunter.Dht.Mutex.{Relock, Method, Lockable, guarded, done}

-- TOKEN_ROTATION_INTERVAL, in seconds.
abbrev pub token_rotation_interval : ℕ
token_rotation_interval = 300

abbrev pub nanoseconds : ℕ
nanoseconds = 1000000000

pub record DhtToken : Type 0 where
  pub bytes : List ℕ
  pub creation_time : ℕ

-- The creation time is not compared.
unfoldable pub token_eq : DhtToken → DhtToken → Bool
token_eq a b = bytes_eq a.bytes b.bytes

pub record TokenManager : Type 0 where
  pub current_secret : List ℕ
  pub previous_secret : List ℕ
  pub last_rotation : ℕ
  pub held : Bool

abbrev pub manager_mutex : Lockable TokenManager
manager_mutex = record { held = λ m. m.held; set_held = λ h m. record m { held = h } }

unfoldable pub rotate_secret : List ℕ → TokenManager → TokenManager
rotate_secret fresh m = record m { previous_secret = m.current_secret; current_secret = fresh }

unfoldable pub make_manager : ℕ → List ℕ → TokenManager
unfolding rotate_secret
make_manager now fresh =
    rotate_secret fresh
      (record { current_secret = []; previous_secret = []; last_rotation = now; held = false })

-- (byte << 1) | (byte >> 7), kept in a uint8_t.
unfoldable pub rotate_left : ℕ → ℕ
rotate_left byte = bit_or (byte * 2) (byte / 128) % 256

-- The inner loop, from index `j` with the rest of the data; secret[j % secret.size()] is inside the
-- secret, which is not empty here.
unfoldable pub mix : List ℕ → ℕ → ℕ → List ℕ → ℕ
mix secret j byte [] = byte
mix secret j byte (c ∷ text) =
    mix secret (suc j)
      (rotate_left (bit_xor byte (bit_xor c (get_or secret (j % length secret) 0)) % 256)) text

-- The outer loop: each round starts from 0 and reads all the data.
unfoldable pub token_data : List ℕ → List ℕ → ℕ → List ℕ
token_data secret text zero = []
token_data secret text (suc rounds) = mix secret 0 0 text ∷ token_data secret text rounds

-- The test in `generate_token`, and the rotation.
unfoldable pub rotate_if_due : ℕ → List ℕ → TokenManager → TokenManager
rotate_if_due now fresh m =
    if leb token_rotation_interval ((now - m.last_rotation) / nanoseconds)
    then record (rotate_secret fresh m) { last_rotation = now }
    else m

module _ (size : ℕ) where
  unfoldable pub generate_token_with_secret : ℕ → List ℕ → Endpoint → List ℕ → DhtToken
  generate_token_with_secret now other e [] = record { bytes = other; creation_time = now }
  generate_token_with_secret now other e (b ∷ secret) = record {
    bytes = token_data (b ∷ secret) (endpoint_to_string e ++ (b ∷ secret)) size;
    creation_time = now;
  }

  unfoldable pub generate_token :
      Relock → ℕ → List ℕ → List ℕ → Endpoint → Method TokenManager DhtToken
  unfolding rotate_if_due generate_token_with_secret
  generate_token r now fresh other e = guarded manager_mutex r λ m.
      let m' = rotate_if_due now fresh m in
      done (generate_token_with_secret now other e m'.current_secret, m')

  unfoldable pub verify_token :
      Relock → ℕ → List ℕ → List ℕ → DhtToken → Endpoint → Method TokenManager Bool
  unfolding generate_token_with_secret
  verify_token r now other other' token e = guarded manager_mutex r λ m.
      let current = generate_token_with_secret now other e m.current_secret in
      let previous = generate_token_with_secret now other' e m.previous_secret in
      done (token_eq token current || token_eq token previous, m)
