-- ===== src/Event/Adapter/Laws.antt =====
-- Connecting an adapter, and disconnecting it.
use dht_hunter.Base.{
  ℕ, zero, suc, ◌+◌, ◌%◌, ◌^◌, ◌<◌, ◌≡◌, refl, sym, ap, subst, ◌∙◌, inl, inr, Bool, true, false,
  ◌==◌, if◌then◌else◌, List, [], ◌∷◌, ◌++◌, append_assoc, append-nil, length, arith, Bool-cases,
}
use dht_hunter.Event.Bus.{
  HandlerEntry, EventBus, append_to, handlers_of, subscribe, unsubscribe, has_token, erase_token,
}
use dht_hunter.Event.Bus.Tokens.{
  HasTokens, HasTokens-suc, next-IsAbsent, append_to-HasTokens, handlers_of-remove_token,
  remove-HasTokens, erase_token_absent,
}
use dht_hunter.Event.Bus.Log.{handlers_of-append_to}
use dht_hunter.Event.Adapter.{
  EventAdapter, create_event_adapter, adapter_subscribe, register_handlers, unsubscribe_each,
  disconnect, connect,
}

module _ {H : Type 0} where
  -- The tokens from `n` on, one for each registration.
  abbrev range : ℕ → List (ℕ × H) → List ℕ
  range n [] = []
  range n (r ∷ rs) = n ∷ range (suc n) rs

  -- The new entries of a class.
  abbrev news : ℕ → ℕ → List (ℕ × H) → List (HandlerEntry H)
  news c n [] = []
  news c n ((class, handler) ∷ rs) =
      (if class == c then record { token = n; handler = handler } ∷ [] else []) ++ news c (suc n) rs

  abbrev erase_each : List ℕ → List (HandlerEntry H) → List (HandlerEntry H)
  erase_each [] es = es
  erase_each (t ∷ ts) es = erase_each ts (erase_token t es)

  HasTokens-plus :
      (n k : ℕ) (m : List (ℕ × List (HandlerEntry H))) → HasTokens n m → HasTokens (n + k) m
  HasTokens-plus n zero m i = subst (λ x. HasTokens x m) (omega arith) i
  HasTokens-plus n (suc k) m i =
      subst (λ x. HasTokens x m) (omega arith) (HasTokens-suc (n + k) m (HasTokens-plus n k m i))

  has_token-news : (c t n : ℕ) (rs : List (ℕ × H)) → t < n → has_token t (news c n rs) ≡ false
  unfolding has_token
  has_token-news c t n [] less = refl
  has_token-news c t n ((class, handler) ∷ rs) less =
      let rest = has_token-news c t (suc n) rs (omega arith) in
      elim (Bool-cases (class == c)) [ inl h ↦ rw h (ground (arith, rest)) | inr h ↦ rw h rest ]

  has_token-join :
      (t : ℕ) (es fs : List (HandlerEntry H))
      → has_token t es ≡ false
      → has_token t fs ≡ false
      → has_token t (es ++ fs) ≡ false
  unfolding has_token
  has_token-join t [] fs h k = k
  has_token-join t (e ∷ es) fs h k = ground (arith, has_token-join t es fs)

  erase_token_first :
      (e : HandlerEntry H) (es fs : List (HandlerEntry H))
      → has_token e.token es ≡ false
      → erase_token e.token (es ++ (e ∷ fs)) ≡ es ++ fs
  unfolding has_token erase_token
  erase_token_first e [] fs h = ground arith
  erase_token_first e (x ∷ es) fs h = ground (arith, erase_token_first e es fs)

  -- To erase the new tokens leaves the old entries.
  erase_each-news :
      (c n : ℕ) (rs : List (ℕ × H)) (es : List (HandlerEntry H))
      → ((k : ℕ) → has_token (n + k) es ≡ false)
      → erase_each (range n rs) (es ++ news c n rs) ≡ es
  erase_each-news c n [] es absent = append-nil es
  erase_each-news c n ((class, handler) ∷ rs) es absent =
      let here : has_token n es ≡ false =
        subst (λ t. has_token t es ≡ false) (omega arith) (absent 0) in
      let rest =
        erase_each-news c (suc n) rs es
          (λ k. subst (λ t. has_token t es ≡ false) (omega arith) (absent (suc k))) in
      let later = news c (suc n) rs in
      elim (Bool-cases (class == c)) [
        | inl h ↦ rw h (
            ap (erase_each (range (suc n) rs))
              (erase_token_first (record { token = n; handler = handler }) es later here)
            ∙ rest)
        | inr h ↦ rw h (
            ap (erase_each (range (suc n) rs)) (
              erase_token_absent n (es ++ later)
                (has_token-join n es later here (has_token-news c n (suc n) rs (omega arith))))
            ∙ rest)
      ]

  handlers_of-unsubscribe_each :
      (n c : ℕ) (tokens : List ℕ) (bus : EventBus H)
      → HasTokens n bus.handlers
      → handlers_of c (unsubscribe_each tokens bus).handlers
        ≡ erase_each tokens (handlers_of c bus.handlers)
  unfolding unsubscribe_each unsubscribe
  handlers_of-unsubscribe_each n c [] bus i = refl
  handlers_of-unsubscribe_each n c (t ∷ ts) bus i =
      handlers_of-unsubscribe_each n c ts (unsubscribe t bus).1
        (remove-HasTokens n t bus.handlers i)
      ∙ ap (erase_each ts) (handlers_of-remove_token n c t bus.handlers i)

  -- What registering has done.
  record Registered (rs : List (ℕ × H)) (tokens : List ℕ) (bus : EventBus H)
      (after : EventAdapter × EventBus H) : Type 0 where
    is_connected : after.0.connected ≡ true
    has_new : after.0.tokens ≡ tokens ++ range bus.next_token_id rs
    bound : ℕ
    in_order : HasTokens bound after.1.handlers
    handlers :
        (c : ℕ)
        → handlers_of c after.1.handlers ≡ handlers_of c bus.handlers ++ news c bus.next_token_id rs

  join_news :
      (b : Bool) (e : HandlerEntry H) (es rest : List (HandlerEntry H))
      → (if b then es ++ (e ∷ []) else es) ++ rest ≡ es ++ ((if b then e ∷ [] else []) ++ rest)
  join_news true e es rest = append_assoc es (e ∷ []) rest
  join_news false e es rest = refl

  register_handlers-Registered :
      (rs : List (ℕ × H)) (tokens : List ℕ) (bus : EventBus H)
      → HasTokens bus.next_token_id bus.handlers
      → bus.next_token_id + length rs < 2 ^ 64
      → Registered rs tokens bus
          (register_handlers rs (record { connected = true; tokens = tokens }, bus))
  unfolding register_handlers adapter_subscribe subscribe
  register_handlers-Registered [] tokens bus i small = record {
    is_connected = refl;
    has_new = sym (append-nil tokens);
    bound = bus.next_token_id;
    in_order = i;
    handlers = λ c. sym (append-nil (handlers_of c bus.handlers));
  }
  register_handlers-Registered ((class, handler) ∷ rs) tokens bus i small =
      let n = bus.next_token_id in
      let e : HandlerEntry H = record { token = n; handler = handler } in
      let entries = append_to class e bus.handlers in
      let wraps : suc n % 2 ^ 64 ≡ suc n = omega arith in
      let r =
        register_handlers-Registered rs (tokens ++ (n ∷ []))
          (record { handlers = entries; next_token_id = suc n })
          (append_to-HasTokens class e bus.handlers i) (omega arith) in
      subst
        (λ next. Registered ((class, handler) ∷ rs) tokens bus (
          register_handlers rs (
            record { connected = true; tokens = tokens ++ (n ∷ []) },
            record { handlers = entries; next_token_id = next },
          )))
        (sym wraps)
        (record {
          is_connected = r.is_connected;
          has_new = r.has_new ∙ append_assoc tokens (n ∷ []) (range (suc n) rs);
          bound = r.bound;
          in_order = r.in_order;
          handlers = λ c.
              r.handlers c
              ∙ ap (λ es. es ++ news c (suc n) rs) (handlers_of-append_to c class e bus.handlers)
              ∙ join_news (class == c) e (handlers_of c bus.handlers) (news c (suc n) rs);
        })

  disconnect_lem :
      (state : EventAdapter × EventBus H)
      → state.0.connected ≡ true
      → disconnect state ≡ (create_event_adapter, unsubscribe_each state.0.tokens state.1)
  unfolding disconnect
  disconnect_lem (a, bus) h = rw h refl

  -- An adapter that is connected to a bus and disconnected again is as new, and leaves the handlers
  -- of every class as they were, whichever handlers it registers: no handler of it stays behind. The
  -- bus's tokens are those that it has given out, and they do not run out.
  pub disconnect-connect :
      (rs : List (ℕ × H)) (bus : EventBus H) (c : ℕ)
      → HasTokens bus.next_token_id bus.handlers
      → bus.next_token_id + length rs < 2 ^ 64
      → ((disconnect (connect rs (create_event_adapter, bus))).0 ≡ create_event_adapter)
        × (handlers_of c (disconnect (connect rs (create_event_adapter, bus))).1.handlers
            ≡ handlers_of c bus.handlers)
  unfolding connect
  disconnect-connect rs bus c i small =
      let r = register_handlers-Registered rs [] bus i small in
      let state = register_handlers rs (record { connected = true; tokens = [] }, bus) in
      let done = disconnect_lem state r.is_connected in
      (
        ap (λ x. x.0) done,
        ap (λ x. handlers_of c x.1.handlers) done
            ∙ handlers_of-unsubscribe_each r.bound c state.0.tokens state.1 r.in_order
            ∙ ap (λ ts. erase_each ts (handlers_of c state.1.handlers)) r.has_new
            ∙ ap (erase_each (range bus.next_token_id rs)) (r.handlers c)
            ∙ erase_each-news c bus.next_token_id rs (handlers_of c bus.handlers) (λ k.
              next-IsAbsent (bus.next_token_id + k) bus.handlers
                (HasTokens-plus bus.next_token_id k bus.handlers i) c),
      )
