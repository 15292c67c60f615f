-- ===== src/Event/Bus/Log.antt =====
-- What the bus promises: a log of subscriptions, in the order in which they were made.
use dht_hunter.Base.{
  ℕ, suc, ◌+◌, ◌^◌, ◌<◌, ◌≡◌, refl, sym, subst, ◌∙◌, ap, false, ◌==◌, ==_iff, if◌then◌else◌, List,
  [], ◌∷◌, ◌++◌, length, inl, inr, Bool-cases, arith,
}
use dht_hunter.Event.{Event}
use dht_hunter.Event.Bus.{
  HandlerEntry, EventBus, append_to, handlers_of, has_token, erase_token, subscribe, unsubscribe,
  create_event_bus, call_handlers, publish_event,
}
use dht_hunter.Event.Bus.Tokens.{
  append_to_self, append_to_other, IsUnique, HasTokens, append_to-HasTokens,
  handlers_of-remove_token, remove-HasTokens, handlers_of-IsUnique,
}

pub data Operation (H : Type 0) : Type 0 where
  add : ℕ → H → Operation H
  cancel : ℕ → Operation H

module _ {H : Type 0} where
  -- The subscriptions in force: for each its class, its token and its handler.
  abbrev pub log_out : ℕ → List (ℕ × HandlerEntry H) → List (ℕ × HandlerEntry H)
  log_out token [] = []
  log_out token ((c, e) ∷ log) =
      if e.token == token then log_out token log else (c, e) ∷ log_out token log

  abbrev pub log_in : ℕ → ℕ → H → List (ℕ × HandlerEntry H) → List (ℕ × HandlerEntry H)
  log_in class n handler log = log ++ ((class, record { token = n; handler = handler }) ∷ [])

  abbrev pub in_force :
      ℕ → List (ℕ × HandlerEntry H) → List (Operation H) → List (ℕ × HandlerEntry H)
  in_force n log [] = log
  in_force n log (add class handler ∷ ops) = in_force (suc n) (log_in class n handler log) ops
  in_force n log (cancel token ∷ ops) = in_force n (log_out token log) ops

  abbrev pub select : ℕ → List (ℕ × HandlerEntry H) → List (HandlerEntry H)
  select class [] = []
  select class ((c, e) ∷ log) = if c == class then e ∷ select class log else select class log

  -- The same operations on the bus.
  abbrev pub run : List (Operation H) → EventBus H → EventBus H
  run [] bus = bus
  run (add class handler ∷ ops) bus = run ops (subscribe class handler bus).1
  run (cancel token ∷ ops) bus = run ops (unsubscribe token bus).1

  drop_token : ℕ → List (HandlerEntry H) → List (HandlerEntry H)
  drop_token token [] = []
  drop_token token (e ∷ es) =
      if e.token == token then drop_token token es else e ∷ drop_token token es

  drop_token_absent :
      (token : ℕ) (es : List (HandlerEntry H))
      → has_token token es ≡ false
      → drop_token token es ≡ es
  unfolding drop_token has_token
  drop_token_absent token [] h = refl
  drop_token_absent token (e ∷ es) h = ground (arith, drop_token_absent token es)

  -- Where a token occurs at most once, to erase the first entry erases them all.
  erase_token-drop_token :
      (token : ℕ) (es : List (HandlerEntry H))
      → IsUnique es
      → erase_token token es ≡ drop_token token es
  unfolding drop_token erase_token
  erase_token-drop_token token [] u = refl
  erase_token-drop_token token (e ∷ es) (a, u) = elim (Bool-cases (e.token == token)) [
    | inl h ↦ rw h (
        sym (
          drop_token_absent token es
            (subst (λ t. has_token t es ≡ false) ((==_iff e.token token).0 h) a)))
    | inr h ↦ rw h (ap (λ es. e ∷ es) (erase_token-drop_token token es u))
  ]

  select-log_out :
      (class token : ℕ) (log : List (ℕ × HandlerEntry H))
      → select class (log_out token log) ≡ drop_token token (select class log)
  unfolding drop_token
  select-log_out class token [] = refl
  select-log_out class token ((c, e) ∷ log) = ground (arith, select-log_out class token log)

  select-append :
      (class c : ℕ) (e : HandlerEntry H) (log : List (ℕ × HandlerEntry H))
      → select class (log ++ ((c, e) ∷ []))
        ≡ (if c == class then select class log ++ (e ∷ []) else select class log)
  select-append class c e [] = refl
  select-append class c e ((c', e') ∷ log) = ground (arith, select-append class c e log)

  -- The bus holds what the log holds, class by class.
  record Implements (n : ℕ) (bus : EventBus H) (log : List (ℕ × HandlerEntry H)) : Type 0 where
    next : bus.next_token_id ≡ n
    tokens : HasTokens n bus.handlers
    agree : (class : ℕ) → handlers_of class bus.handlers ≡ select class log

  pub handlers_of-append_to :
      (class c : ℕ) (e : HandlerEntry H) (m : List (ℕ × List (HandlerEntry H)))
      → handlers_of class (append_to c e m)
        ≡ (if c == class then handlers_of class m ++ (e ∷ []) else handlers_of class m)
  handlers_of-append_to class c e m = elim (Bool-cases (c == class)) [
    | inl h ↦ rw h (
        subst (λ k. handlers_of k (append_to c e m) ≡ handlers_of k m ++ (e ∷ []))
          ((==_iff c class).0 h) (append_to_self c e m))
    | inr h ↦ rw h (append_to_other c class e m h)
  ]

  subscribe-Implements :
      (n class : ℕ) (handler : H) (bus : EventBus H) (log : List (ℕ × HandlerEntry H))
      → suc n < 2 ^ 64
      → Implements n bus log
      → Implements (suc n) (subscribe class handler bus).1 (log_in class n handler log)
  unfolding subscribe
  subscribe-Implements n class handler bus log h i = record {
    next = omega (arith, h, i.next);
    tokens =
        rw i.next (
          append_to-HasTokens class (record { token = n; handler = handler }) bus.handlers
            i.tokens);
    agree = λ c. rw i.next (
        let e : HandlerEntry H = record { token = n; handler = handler } in
        rw (handlers_of-append_to c class e bus.handlers, select-append c class e log, i.agree c)
          refl);
  }

  unsubscribe-Implements :
      (n token : ℕ) (bus : EventBus H) (log : List (ℕ × HandlerEntry H))
      → Implements n bus log
      → Implements n (unsubscribe token bus).1 (log_out token log)
  unfolding unsubscribe
  unsubscribe-Implements n token bus log i = record {
    next = i.next;
    tokens = remove-HasTokens n token bus.handlers i.tokens;
    agree = λ class.
        handlers_of-remove_token n class token bus.handlers i.tokens
        ∙ erase_token-drop_token token (handlers_of class bus.handlers)
            (handlers_of-IsUnique n class bus.handlers i.tokens)
        ∙ ap (drop_token token) (i.agree class)
        ∙ sym (select-log_out class token log);
  }

  run_agree :
      (ops : List (Operation H)) (n : ℕ) (bus : EventBus H) (log : List (ℕ × HandlerEntry H))
      → n + length ops < 2 ^ 64
      → Implements n bus log
      → (class : ℕ) → handlers_of class (run ops bus).handlers ≡ select class (in_force n log ops)
  run_agree [] n bus log h i class = i.agree class
  run_agree (add c handler ∷ ops) n bus log h i class =
      run_agree ops (suc n) (subscribe c handler bus).1 (log_in c n handler log) (omega (arith, h))
        (subscribe-Implements n c handler bus log (omega (arith, h)) i) class
  run_agree (cancel token ∷ ops) n bus log h i class =
      run_agree ops n (unsubscribe token bus).1 (log_out token log) (omega (arith, h))
        (unsubscribe-Implements n token bus log i) class

  create-Implements : Implements 1 (create_event_bus {H = H}) []
  unfolding create_event_bus handlers_of
  create-Implements = record { next = refl; tokens = tt; agree = λ class. refl }

  -- The bus is a log. After any subscriptions and cancellations, fewer than 2 ^ 64 in all, an event
  -- that is published reaches exactly the handlers that were subscribed to its class, and whose
  -- tokens were not cancelled since, in the order in which they subscribed, and whatever these
  -- handlers do to the bus.
  pub publish_event-in_force :
      {W : Type 0} (act : H → Event → EventBus H × W → EventBus H × W) (ops : List (Operation H))
      → 1 + length ops < 2 ^ 64
      → (event : Event) (w : W)
      → publish_event act event (run ops create_event_bus, w)
        ≡ call_handlers act
            (select event.class (in_force 1 [] ops))
            event
            (run ops create_event_bus, w)
  unfolding publish_event
  publish_event-in_force act ops h event w =
      rw (run_agree ops 1 create_event_bus [] h create-Implements event.class) refl
