-- ===== src/Types/Endpoint/Printing.antt =====
-- The text of an endpoint tells endpoints apart: modules/types/src/endpoint.cpp.
use mathlib.Core.List.{append_cancel_right}
use dht_hunter.Base.{
  ℕ, ◌≡◌, refl, sym, ap, subst, ◌∙◌, ◌⊎◌, inl, inr, ◌↔◌, Bool, true, false, Bool-cases, List, [],
  ◌∷◌, ◌++◌, append_assoc, bytes_eq_iff, ok, arith,
}
use dht_hunter.Base.Text.{c_str, to_string, scan}
use dht_hunter.Base.Text.RoundTrip.{to_string-IsDigit, scan-to_string}
use dht_hunter.Network.Url.RoundTrip.{IsFree, digits-IsFree}
use dht_hunter.Types.Node.{AddressType, ipv4, ipv6, Endpoint, endpoint_eq}
use dht_hunter.Types.Endpoint.{make_endpoint, endpoint_to_string}

-- inet_pton reads no IPv4 address from a text that begins with '['.
abbrev pub RefusesBracket : (AddressType → List ℕ → Bool) → Type 0
RefusesBracket inet_pton = (s : List ℕ) → inet_pton ipv4 (b'[' ∷ s) ≡ false

cons_inj : (x y : ℕ) (s t : List ℕ) → x ∷ s ≡ y ∷ t → (x ≡ y) × (s ≡ t)
cons_inj x y s t e = (cc, cc)

not-IsFree : (c : ℕ) (s t : List ℕ) → ¬ IsFree c (s ++ (c ∷ t))
not-IsFree c [] t (h, free) = absurd (ground arith)
not-IsFree c (x ∷ s) t (h, free) = not-IsFree c s t free

-- The last `c` of a text splits it in one way.
last_inj :
    (c : ℕ) (s t u v : List ℕ)
    → IsFree c u
    → IsFree c v
    → s ++ (c ∷ u) ≡ t ++ (c ∷ v)
    → (s ≡ t) × (u ≡ v)
last_inj c [] [] u v h k e = (refl, (cons_inj c c u v e).1)
last_inj c [] (y ∷ t) u v h k e =
    absurd (not-IsFree c t v (subst (IsFree c) (cons_inj c y u (t ++ (c ∷ v)) e).1 h))
last_inj c (x ∷ s) [] u v h k e =
    absurd (not-IsFree c s u (subst (IsFree c) (sym (cons_inj x c (s ++ (c ∷ u)) v e).1) k))
last_inj c (x ∷ s) (y ∷ t) u v h k e =
    let (head, rest) = cons_inj x y (s ++ (c ∷ u)) (t ++ (c ∷ v)) e in
    let (front, back) = last_inj c s t u v h k rest in (cc, back)

port-IsFree : (p : ℕ) → IsFree b':' (to_string p)
port-IsFree p = digits-IsFree b':' (to_string p) (inr (omega arith)) (to_string-IsDigit p)

port_inj :
    (s t : List ℕ) (p q : ℕ)
    → s ++ (b':' ∷ to_string p) ≡ t ++ (b':' ∷ to_string q)
    → (s ≡ t) × (p ≡ q)
port_inj s t p q e =
    let (front, back) =
      last_inj b':' s t (to_string p) (to_string q) (port-IsFree p) (port-IsFree q) e in
    (front, sym (scan-to_string p) ∙ ap (scan 10 0) back ∙ scan-to_string q)

bracket_inj :
    (s t : List ℕ) (p q : ℕ)
    → (b'[' ∷ s) ++ (b']' ∷ b':' ∷ to_string p) ≡ (b'[' ∷ t) ++ (b']' ∷ b':' ∷ to_string q)
    → (s ≡ t) × (p ≡ q)
bracket_inj s t p q e =
    let (front, same) = port_inj ((b'[' ∷ s) ++ (b']' ∷ [])) ((b'[' ∷ t) ++ (b']' ∷ [])) p q (
      append_assoc (b'[' ∷ s) (b']' ∷ []) (b':' ∷ to_string p)
      ∙ e
      ∙ sym (append_assoc (b'[' ∷ t) (b']' ∷ []) (b':' ∷ to_string q))) in
    let whole = append_cancel_right (b'[' ∷ s) (b'[' ∷ t) (b']' ∷ []) front in
    ((cons_inj b'[' b'[' s t whole).1, same)

abbrev at : List ℕ → ℕ → AddressType → Endpoint
at s p type = record { address = s; port = p; address_type = type }

endpoint_eq-at :
    (s t : List ℕ) (p q : ℕ) (type type' : AddressType)
    → (endpoint_eq (at s p type) (at t q type') ≡ true) ↔ ((s ≡ t) × (p ≡ q))
unfolding endpoint_eq
endpoint_eq-at s t p q type type' = (
  λ e. ((bytes_eq_iff s t).0 (ground arith), ground arith),
  λ (same, here). rw ((bytes_eq_iff s t).1 same, here) (ground arith),
)

module _ (inet_pton : AddressType → List ℕ → Bool) where
  IsMade : List ℕ → ℕ → Endpoint → Type 0
  IsMade s p a =
      ((a ≡ at s p ipv4) × (inet_pton ipv4 (c_str s) ≡ true))
      ⊎ ((a ≡ at s p ipv6) × (inet_pton ipv4 (c_str s) ≡ false))

  make_endpoint-IsMade :
      (s : List ℕ) (p : ℕ) (a : Endpoint) → make_endpoint inet_pton s p ≡ ok a → IsMade s p a
  unfolding make_endpoint IsMade
  make_endpoint-IsMade s p a e = elim (Bool-cases (inet_pton ipv4 (c_str s))) [
    | inl accepted ↦ inl (ground arith, accepted)
    | inr refused ↦ inr (ground arith, refused)
  ]

  bracket_refused :
      RefusesBracket inet_pton → (s : List ℕ) → ¬ (inet_pton ipv4 (c_str (b'[' ∷ s)) ≡ true)
  unfolding c_str
  bracket_refused refuses s e = cc (refuses (c_str s))

  -- An IPv4 text and an IPv6 text differ.
  mixed :
      RefusesBracket inet_pton
      → (s t u : List ℕ) → inet_pton ipv4 (c_str s) ≡ true
      → ¬ (s ++ (b':' ∷ u) ≡ b'[' ∷ t)
  mixed refuses [] t u accepted e = absurd (ground arith)
  mixed refuses (x ∷ s) t u accepted e =
      let (same, rest) = cons_inj x b'[' (s ++ (b':' ∷ u)) t e in
      bracket_refused refuses s (subst (λ y. inet_pton ipv4 (c_str (y ∷ s)) ≡ true) same accepted)

  iff_at :
      (s t : List ℕ) (p q : ℕ) (type type' : AddressType) (text text' : List ℕ)
      → (text ≡ text' → (s ≡ t) × (p ≡ q))
      → ((s ≡ t) × (p ≡ q) → text ≡ text')
      → (endpoint_eq (at s p type) (at t q type') ≡ true) ↔ (text ≡ text')
  iff_at s t p q type type' text text' f g = (
    λ e. g ((endpoint_eq-at s t p q type type').0 e),
    λ e. (endpoint_eq-at s t p q type type').1 (f e),
  )

  same_text :
      RefusesBracket inet_pton
      → (s t : List ℕ) (p q : ℕ) (a b : Endpoint) → IsMade s p a
      → IsMade t q b
      → (endpoint_eq a b ≡ true) ↔ (endpoint_to_string a ≡ endpoint_to_string b)
  unfolding IsMade endpoint_to_string
  same_text refuses s t p q a b (inl (e, h)) (inl (e', k)) =
      rw (e, e')
        (iff_at s t p q ipv4 ipv4 _ _ (port_inj s t p q) (λ (same, here). rw (same, here) refl))
  same_text refuses s t p q a b (inr (e, h)) (inr (e', k)) =
      rw (e, e')
        (iff_at s t p q ipv6 ipv6 _ _ (bracket_inj s t p q) (λ (same, here). rw (same, here) refl))
  same_text refuses s t p q a b (inl (e, h)) (inr (e', k)) =
      rw (e, e')
        (iff_at s t p q ipv4 ipv6 _ _ (λ text. absurd (mixed refuses s _ _ h text))
          (λ (same, here). absurd (cc)))
  same_text refuses s t p q a b (inr (e, h)) (inl (e', k)) =
      rw (e, e')
        (iff_at s t p q ipv6 ipv4 _ _ (λ text. absurd (mixed refuses t _ _ k (sym text)))
          (λ (same, here). absurd (cc)))

  -- Two endpoints that the constructor returns, over an inet_pton that reads no IPv4 address from a
  -- text that begins with '[', are equal exactly if to_string prints the same text for both.
  -- operator== does not compare the address types, and the text shows them.
  pub endpoint_eq-endpoint_to_string :
      RefusesBracket inet_pton
      → (s t : List ℕ) (p q : ℕ) (a b : Endpoint) → make_endpoint inet_pton s p ≡ ok a
      → make_endpoint inet_pton t q ≡ ok b
      → (endpoint_eq a b ≡ true) ↔ (endpoint_to_string a ≡ endpoint_to_string b)
  endpoint_eq-endpoint_to_string refuses s t p q a b made made' =
      same_text refuses s t p q a b (make_endpoint-IsMade s p a made)
        (make_endpoint-IsMade t q b made')
