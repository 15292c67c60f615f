-- ===== src/Dht/TokenManager/Tests.antt =====
-- Instances of the theorems on the token manager.
use dht_hunter.Base.{
  ℕ, ◌<◌, ◌≡◌, refl, true, false, List, [], ◌∷◌, length, replicate, bytes_eq, arith,
}
use dht_hunter.Base.Text.{codes, to_string}
use dht_hunter.Types.Node.{Endpoint, ipv4}
use dht_hunter.Types.Endpoint.{endpoint_to_string}
use dht_hunter.Dht.Mutex.{◌>>=◌, blocks, done}
use dht_hunter.Dht.TokenManager.{
  DhtToken, TokenManager, make_manager, rotate_secret, generate_token, verify_token,
  generate_token_with_secret, token_data, mix, token_eq, rotate_left,
}
use dht_hunter.Dht.TokenManager.Secrets.{IsManager, repeat}
use dht_hunter.Dht.TokenManager.Window.{Request, serve, verify-generate}
use dht_hunter.Dht.TokenManager.Guess.{verify_token_guess}

abbrev peer : Endpoint
peer = record { address = codes "10.0.0.7"; port = 6881; address_type = ipv4 }

printed : endpoint_to_string peer ≡ codes "10.0.0.7:6881"
unfolding endpoint_to_string to_string
printed = refl

abbrev first_secret : List ℕ
first_secret = replicate 16 37

abbrev second_secret : List ℕ
second_secret = replicate 16 114

abbrev third_secret : List ℕ
third_secret = replicate 16 201

abbrev manager : TokenManager
manager = make_manager 5 first_secret

manager-IsManager : IsManager manager
unfolding make_manager rotate_secret
manager-IsManager = record { free = refl; secret = refl }

-- A call 299 seconds after the token, by which the secret rotates.
abbrev request : Request
request = record { at = 499000000000; fresh = third_secret; other = []; endpoint = peer }

verify-generate_example :
    (m' : TokenManager) × ((do
      t ← generate_token 20 blocks 200000000000 second_secret [] peer
      u ← serve 20 blocks (request ∷ [])
      verify_token 20 blocks 900000000000 [] [] t peer)
        manager
      ≡ done (true, m'))
verify-generate_example =
    verify-generate 20 blocks 200000000000 second_secret [] peer manager (request ∷ []) 900000000000
      [] [] manager-IsManager refl ((omega arith, omega arith, refl), tt)

verify_token_guess_example :
    (b : ℕ) × (b < 256)
    × (verify_token 20 blocks 7 [] []
          (record { bytes = repeat 20 b; creation_time = 0 })
          peer
          manager
        ≡ done (true, record manager { held = false }))
verify_token_guess_example = verify_token_guess 20 blocks 7 [] [] 0 peer manager manager-IsManager

abbrev rotated : TokenManager
rotated = rotate_secret second_secret manager

rotated-IsManager : IsManager rotated
unfolding rotate_secret make_manager
rotated-IsManager = record { free = refl; secret = refl }

rotated_previous : length rotated.previous_secret ≡ 16
unfolding rotate_secret make_manager
rotated_previous = refl

abbrev token : DhtToken
token = generate_token_with_secret 20 8 [] peer second_secret

accepted : verify_token 20 blocks 9 [] [] token peer rotated ≡ done (true, rotated)
unfolding verify_token generate_token_with_secret rotate_secret make_manager token_eq token_data mix
    bytes_eq endpoint_to_string to_string rotate_left
accepted = refl
