-- ===== src/Dht/TokenManager/Window.antt =====
-- How long a token is accepted, and which byte strings are.
use dht_hunter.Base.{
  ℕ, ◌+◌, ◌-◌, ◌*◌, ◌/◌, ◌<◌, ◌≤◌, ◌≡◌, refl, ◌∙◌, ◌⊎◌, inl, inr, true, false, List, [], ◌∷◌, leb,
  length, Bool-cases, All, arith,
}
use dht_hunter.Types.Node.{Endpoint}
use dht_hunter.Dht.Mutex.{Relock, Method, done, pure, ◌>>=◌}
use dht_hunter.Dht.TokenManager.{
  token_rotation_interval, nanoseconds, DhtToken, TokenManager, rotate_secret, rotate_if_due,
  generate_token, verify_token,
}
use dht_hunter.Dht.TokenManager.Secrets.{
  IsManager, bytes_of, generate_bytes, generate_token_lem, rotate_if_due-IsManager, accepts_current,
  accepts_previous,
}

-- A call of `generate_token`, with what it reads from outside.
pub record Request : Type 0 where
  pub at : ℕ
  pub fresh : List ℕ
  pub other : List ℕ
  pub endpoint : Endpoint

bind_done :
    {S A B : Type 0} (method : Method S A) (k : A → Method S B) (s : S) {a : A} {s' : S}
    → method s ≡ done (a, s')
    → (method >>= k) s ≡ k a s'
bind_done method k s e = rw (e, ◌>>=◌) refl

unfoldable pub serve : ℕ → Relock → List Request → Method TokenManager (Unit {0})
serve size r [] = pure tt
serve size r (q ∷ qs) = do
  t ← generate_token size r q.at q.fresh q.other q.endpoint
  serve size r qs

-- The call falls within one rotation interval from `now`.
abbrev pub InWindow : ℕ → Request → Type 0
InWindow now q =
    (now ≤ q.at) × (q.at < now + token_rotation_interval * nanoseconds) × (length q.fresh ≡ 16)

-- `s` is the current secret, or the previous one since a rotation no earlier than `now`.
record Remembers (s : List ℕ) (now : ℕ) (m : TokenManager) : Type 0 where
  is_manager : IsManager m
  place : (m.current_secret ≡ s) ⊎ ((m.previous_secret ≡ s) × (now ≤ m.last_rotation))

rotate-Remembers :
    (s : List ℕ) (now : ℕ) (q : Request) (m : TokenManager)
    → InWindow now q
    → Remembers s now m
    → Remembers s now (record (rotate_if_due q.at q.fresh m) { held = false })
unfolding rotate_if_due rotate_secret
rotate-Remembers s now q m h i = record {
  is_manager = rotate_if_due-IsManager q.at q.fresh m h.2 i.is_manager;
  place = elim (Bool-cases (leb token_rotation_interval ((q.at - m.last_rotation) / nanoseconds))) [
    | inl due ↦ elim i.place [
      | inl e ↦ rw due (inr (e, h.0))
      | inr e ↦ absurd (ground (arith, h.1, e.1))
    ]
    | inr due ↦ rw due i.place
  ];
}

serve-Remembers :
    (size : ℕ) (r : Relock) (s : List ℕ) (now : ℕ) (qs : List Request) (m : TokenManager)
    → All (InWindow now) qs
    → Remembers s now m
    → (m' : TokenManager) × (serve size r qs m ≡ done (tt, m')) × Remembers s now m'
unfolding serve generate_token
serve-Remembers size r s now [] m h i = (m, refl, i)
serve-Remembers size r s now (q ∷ qs) m h i =
    rw (generate_token_lem size r q.at q.fresh q.other q.endpoint m i.is_manager.free)
      (serve-Remembers size r s now qs _ h.1 (rotate-Remembers s now q m h.0 i))

accepts :
    (size : ℕ) (r : Relock) (later : ℕ) (other other' : List ℕ) (s : List ℕ) (now : ℕ)
    (t : DhtToken) (e : Endpoint) (m : TokenManager)
    → length s ≡ 16
    → t.bytes ≡ bytes_of size s e
    → Remembers s now m
    → verify_token size r later other other' t e m ≡ done (true, record m { held = false })
accepts size r later other other' s now t e m l h i = elim i.place [
  | inl c ↦
      accepts_current size r later other other' t e m i.is_manager.free i.is_manager.secret
        (h ∙ (rw c refl))
  | inr p ↦
      accepts_previous size r later other other' t e m i.is_manager.free (rw p.0 l)
        (h ∙ (rw p.0 refl))
]

-- A token stays valid for a rotation interval. From a manager whose mutex is free and whose current
-- secret has sixteen bytes, a token is generated for an endpoint at `now`; then any number of
-- tokens are generated, for any endpoints, at readings of the clock (in any order) from `now` to
-- less than 300 seconds later, new secrets having sixteen bytes. Every call returns, and
-- `verify_token` then accepts the first token for its endpoint, whatever the clock reads and
-- whichever of these calls rotated the secret.
pub verify-generate :
    (size : ℕ) (r : Relock) (now : ℕ) (fresh other : List ℕ) (e : Endpoint) (m : TokenManager)
    (qs : List Request) (later : ℕ) (other₁ other₂ : List ℕ)
    → IsManager m
    → length fresh ≡ 16
    → All (InWindow now) qs
    → (m' : TokenManager) × ((do
      t ← generate_token size r now fresh other e
      u ← serve size r qs
      verify_token size r later other₁ other₂ t e)
          m
        ≡ done (true, m'))
verify-generate size r now fresh other e m qs later other₁ other₂ i l h =
    let start = rotate_if_due-IsManager now fresh m l i in
    let s = (rotate_if_due now fresh m).current_secret in
    let after =
      serve-Remembers size r s now qs _ h (record { is_manager = start; place = inl refl }) in
    (
      record after.0 { held = false },
      bind_done (generate_token size r now fresh other e) _ m
            (generate_token_lem size r now fresh other e m i.free)
          ∙ (bind_done (serve size r qs) _ _ after.1
              ∙ accepts size r later other₁ other₂ s now _ e after.0 start.secret
                  (generate_bytes size now other e s start.secret) after.2),
    )
