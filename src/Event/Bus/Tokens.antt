-- ===== src/Event/Bus/Tokens.antt =====
-- The tokens in the vectors of the bus.
use dht_hunter.Base.{
  ℕ, suc, ◌<◌, ◌≡◌, refl, sym, subst, ◌∙◌, ==_iff, true, false, ◌==◌, List, [], ◌∷◌, ◌++◌, inl, inr,
  Bool-cases, arith,
}
use dht_hunter.Event.Bus.{
  HandlerEntry, append_to, handlers_of, has_token, erase_token, remove_token,
}

module _ {A : Type 0} where
  pub append_to_self :
      (class : ℕ) (a : A) (m : List (ℕ × List A))
      → handlers_of class (append_to class a m) ≡ handlers_of class m ++ (a ∷ [])
  unfolding append_to handlers_of
  append_to_self class a [] = ground arith
  append_to_self class a ((c, xs) ∷ m) = ground (arith, append_to_self class a m)

  pub append_to_other :
      (class other : ℕ) (a : A) (m : List (ℕ × List A))
      → (class == other) ≡ false
      → handlers_of other (append_to class a m) ≡ handlers_of other m
  unfolding append_to handlers_of
  append_to_other class other a [] h = rw h refl
  append_to_other class other a ((c, xs) ∷ m) h = ground (arith, append_to_other class other a m h)

module _ {H : Type 0} where
  -- No vector reached by any class has the token.
  abbrev pub IsAbsent : ℕ → List (ℕ × List (HandlerEntry H)) → Type 0
  IsAbsent token m = (class : ℕ) → has_token token (handlers_of class m) ≡ false

  abbrev pub IsUnique : List (HandlerEntry H) → Type 0
  IsUnique [] = Unit
  IsUnique (e ∷ es) = (has_token e.token es ≡ false) × IsUnique es

  -- The tokens are below the next one, and each belongs to one entry of one vector.
  abbrev pub HasTokens : ℕ → List (ℕ × List (HandlerEntry H)) → Type 0
  HasTokens n [] = Unit
  HasTokens n ((c, es) ∷ m) =
      ((token : ℕ) → has_token token es ≡ true → (token < n) × IsAbsent token m)
      × IsUnique es
      × HasTokens n m

  pub has_token-append :
      (token : ℕ) (e : HandlerEntry H) (es : List (HandlerEntry H))
      → (e.token == token) ≡ false
      → has_token token (es ++ (e ∷ [])) ≡ has_token token es
  unfolding has_token
  has_token-append token e [] h = rw h refl
  has_token-append token e (x ∷ es) h = rw (has_token-append token e es h) refl

  pub has_token-erase_token :
      (token other : ℕ) (es : List (HandlerEntry H))
      → has_token other es ≡ false
      → has_token other (erase_token token es) ≡ false
  unfolding has_token erase_token
  has_token-erase_token token other [] h = refl
  has_token-erase_token token other (x ∷ es) h =
      ground (arith, has_token-erase_token token other es)

  erase-IsUnique :
      (token : ℕ) (es : List (HandlerEntry H)) → IsUnique es → IsUnique (erase_token token es)
  unfolding erase_token
  erase-IsUnique token [] u = tt
  erase-IsUnique token (x ∷ es) (a, u) = elim (Bool-cases (x.token == token)) [
    | inl h ↦ rw h u
    | inr h ↦ rw h (has_token-erase_token token x.token es a, erase-IsUnique token es u)
  ]

  append-IsUnique :
      (e : HandlerEntry H) (es : List (HandlerEntry H))
      → has_token e.token es ≡ false
      → IsUnique es
      → IsUnique (es ++ (e ∷ []))
  unfolding has_token
  append-IsUnique e [] h u = (refl, tt)
  append-IsUnique e (x ∷ es) h (a, u) = elim (Bool-cases (x.token == e.token)) [
    | inl k ↦ ground (arith, k, h)
    | inr k ↦ (
      has_token-append x.token e es (ground (arith, k)) ∙ a,
      append-IsUnique e es (ground (arith, k, h)) u,
    )
  ]

  pub erase_token_absent :
      (token : ℕ) (es : List (HandlerEntry H))
      → has_token token es ≡ false
      → erase_token token es ≡ es
  unfolding has_token erase_token
  erase_token_absent token [] h = refl
  erase_token_absent token (x ∷ es) h = ground (arith, erase_token_absent token es)

  pub HasTokens-suc :
      (n : ℕ) (m : List (ℕ × List (HandlerEntry H))) → HasTokens n m → HasTokens (suc n) m
  HasTokens-suc n [] i = tt
  HasTokens-suc n ((c, es) ∷ m) (f, u, i) = (
    λ token h. let (below, absent) = f token h in (omega (arith, below), absent),
    u,
    HasTokens-suc n m i,
  )

  -- The next token is in no vector.
  pub next-IsAbsent : (n : ℕ) (m : List (ℕ × List (HandlerEntry H))) → HasTokens n m → IsAbsent n m
  unfolding handlers_of has_token
  next-IsAbsent n [] i class = refl
  next-IsAbsent n ((c, es) ∷ m) (f, u, i) class = elim (Bool-cases (c == class)) [
    | inl h ↦ rw h (elim (Bool-cases (has_token n es)) [
      | inl k ↦ absurd (omega (arith, (f n k).0))
      | inr k ↦ k
    ])
    | inr h ↦ rw h (next-IsAbsent n m i class)
  ]

  append_to-IsAbsent :
      (class token : ℕ) (e : HandlerEntry H) (m : List (ℕ × List (HandlerEntry H)))
      → (e.token == token) ≡ false
      → IsAbsent token m
      → IsAbsent token (append_to class e m)
  append_to-IsAbsent class token e m ne absent other = elim (Bool-cases (class == other)) [
    | inl h ↦
        subst (λ k. has_token token (handlers_of k (append_to class e m)) ≡ false)
          ((==_iff class other).0 h)
          (rw (append_to_self class e m)
            (has_token-append token e (handlers_of class m) ne ∙ absent class))
    | inr h ↦ rw (append_to_other class other e m h) (absent other)
  ]

  -- The vector that takes the new entry.
  append-HasTokens :
      (e : HandlerEntry H) (es : List (HandlerEntry H)) (m : List (ℕ × List (HandlerEntry H)))
      → ((token : ℕ) → has_token token es ≡ true → (token < e.token) × IsAbsent token m)
      → IsAbsent e.token m
      → (token : ℕ) → has_token token (es ++ (e ∷ [])) ≡ true
      → (token < suc e.token) × IsAbsent token m
  append-HasTokens e es m f absent token h = elim (Bool-cases (e.token == token)) [
    | inl k ↦
        let same = (==_iff e.token token).0 k in
        (omega (arith, same), subst (λ t. IsAbsent t m) same absent)
    | inr k ↦
        let (below, apart) = f token (sym (has_token-append token e es k) ∙ h) in
        (omega (arith, below), apart)
  ]

  -- Both operations keep the tokens in order, if the new one is the next.
  pub append_to-HasTokens :
      (class : ℕ) (e : HandlerEntry H) (m : List (ℕ × List (HandlerEntry H)))
      → HasTokens e.token m
      → HasTokens (suc e.token) (append_to class e m)
  unfolding append_to has_token handlers_of
  append_to-HasTokens class e [] i = (λ token h. (ground (arith, h), λ other. refl), (refl, tt), tt)
  append_to-HasTokens class e ((c, es) ∷ m) (f, u, i) = elim (Bool-cases (c == class)) [
    | inl h ↦ rw h (
      append-HasTokens e es m f (next-IsAbsent e.token m i),
      append-IsUnique e es
          (elim (Bool-cases (has_token e.token es)) [
            | inl k ↦ absurd (omega (arith, (f e.token k).0))
            | inr k ↦ k
          ])
          u,
      HasTokens-suc e.token m i,
    )
    | inr h ↦ rw h (
      λ token k.
          let (below, absent) = f token k in
          (omega (arith, below), append_to-IsAbsent class token e m (ground (arith, below)) absent),
      u,
      append_to-HasTokens class e m i,
    )
  ]

  pub handlers_of-remove_token :
      (n class token : ℕ) (m : List (ℕ × List (HandlerEntry H)))
      → HasTokens n m
      → handlers_of class (remove_token token m).1 ≡ erase_token token (handlers_of class m)
  unfolding handlers_of remove_token erase_token
  handlers_of-remove_token n class token [] i = refl
  handlers_of-remove_token n class token ((c, es) ∷ m) (f, u, i) =
      elim (Bool-cases (has_token token es)) [
        | inl h ↦ rw h (elim (Bool-cases (c == class)) [
          | inl k ↦ rw k refl
          | inr k ↦
              rw k (sym (erase_token_absent token (handlers_of class m) ((f token h).1 class)))
        ])
        | inr h ↦ rw h (elim (Bool-cases (c == class)) [
          | inl k ↦ rw k (sym (erase_token_absent token es h))
          | inr k ↦ rw k (handlers_of-remove_token n class token m i)
        ])
      ]

  has_token_erased :
      (token other : ℕ) (es : List (HandlerEntry H))
      → has_token other (erase_token token es) ≡ true
      → has_token other es ≡ true
  unfolding has_token erase_token
  has_token_erased token other [] h = h
  has_token_erased token other (x ∷ es) h = ground (arith, has_token_erased token other es)

  remove-IsAbsent :
      (n token other : ℕ) (m : List (ℕ × List (HandlerEntry H)))
      → HasTokens n m
      → IsAbsent other m
      → IsAbsent other (remove_token token m).1
  remove-IsAbsent n token other m i absent class =
      rw (handlers_of-remove_token n class token m i)
        (has_token-erase_token token other (handlers_of class m) (absent class))

  pub remove-HasTokens :
      (n token : ℕ) (m : List (ℕ × List (HandlerEntry H)))
      → HasTokens n m
      → HasTokens n (remove_token token m).1
  unfolding remove_token
  remove-HasTokens n token [] i = tt
  remove-HasTokens n token ((c, es) ∷ m) (f, u, i) = elim (Bool-cases (has_token token es)) [
    | inl h ↦
        rw h (λ other k. f other (has_token_erased token other es k), erase-IsUnique token es u, i)
    | inr h ↦ rw h (
      λ other k.
          let (below, absent) = f other k in (below, remove-IsAbsent n token other m i absent),
      u,
      remove-HasTokens n token m i,
    )
  ]

  pub handlers_of-IsUnique :
      (n class : ℕ) (m : List (ℕ × List (HandlerEntry H)))
      → HasTokens n m
      → IsUnique (handlers_of class m)
  unfolding handlers_of
  handlers_of-IsUnique n class [] i = tt
  handlers_of-IsUnique n class ((c, es) ∷ m) (f, u, i) = elim (Bool-cases (c == class)) [
    | inl h ↦ rw h u
    | inr h ↦ rw h (handlers_of-IsUnique n class m i)
  ]
