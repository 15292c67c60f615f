-- ===== src/Event/Processor/Laws.antt =====
-- A processor and the bus that it subscribes to.
use dht_hunter.Base.{
  ℕ, suc, ◌≡◌, refl, ap, ◌∙◌, false, ◌==◌, List, [], ◌∷◌, ◌++◌, inl, inr, Bool-cases, arith,
}
use dht_hunter.Event.{Event, event_class}
use dht_hunter.Event.Bus.{
  HandlerEntry, EventBus, append_to, handlers_of, has_token, erase_token, subscribe, unsubscribe,
  call_handlers, publish_event,
}
use dht_hunter.Event.Bus.Tokens.{
  append_to_other, HasTokens, erase_token_absent, next-IsAbsent, append_to-HasTokens,
  handlers_of-remove_token,
}
use dht_hunter.Event.Bus.Log.{handlers_of-append_to}
use dht_hunter.Event.Processor.{EventProcessor, start, stop, process}

module _ {H : Type 0} where
  erase_token-append :
      (e : HandlerEntry H) (es : List (HandlerEntry H))
      → has_token e.token es ≡ false
      → erase_token e.token (es ++ (e ∷ [])) ≡ es
  unfolding erase_token has_token
  erase_token-append e [] h = ground arith
  erase_token-append e (x ∷ es) h = ground (arith, erase_token-append e es)

  -- To cancel a subscription at once leaves the handlers of every class as they were.
  pub unsubscribe-subscribe :
      (class other : ℕ) (handler : H) (bus : EventBus H)
      → HasTokens bus.next_token_id bus.handlers
      → handlers_of other (unsubscribe bus.next_token_id (subscribe class handler bus).1).1.handlers
        ≡ handlers_of other bus.handlers
  unfolding unsubscribe subscribe
  unsubscribe-subscribe class other handler bus i =
      let e : HandlerEntry H = record { token = bus.next_token_id; handler = handler } in
      let absent = next-IsAbsent bus.next_token_id bus.handlers i other in
      handlers_of-remove_token (suc bus.next_token_id) other bus.next_token_id
        (append_to class e bus.handlers) (append_to-HasTokens class e bus.handlers i)
      ∙ elim (Bool-cases (class == other)) [
        | inl h ↦
            rw (handlers_of-append_to other class e bus.handlers, h)
              (erase_token-append e (handlers_of other bus.handlers) absent)
        | inr h ↦
            rw (handlers_of-append_to other class e bus.handlers, h)
              (erase_token_absent bus.next_token_id (handlers_of other bus.handlers) absent)
      ]

module _ {G H : Type 0} where
  handlers_of-start :
      (self : H) (p : EventProcessor G) (bus : EventBus H) (class : ℕ)
      → (event_class == class) ≡ false
      → handlers_of class (start self (p, bus)).1.handlers ≡ handlers_of class bus.handlers
  unfolding start subscribe
  handlers_of-start self p bus class h = elim (Bool-cases p.running) [
    | inl k ↦ rw k refl
    | inr k ↦ rw k (append_to_other event_class class _ bus.handlers h)
  ]

module _ {G H W : Type 0} where
  -- A processor does not hear what is published. `start` subscribes it to typeid(Event), an abstract
  -- class; an event of any other class calls the same handlers, in the same bus but for the new
  -- entry, as if the processor had not been started.
  pub publish_event-start :
      (act : H → Event → EventBus H × W → EventBus H × W) (self : H) (p : EventProcessor G)
      (bus : EventBus H) (event : Event) (w : W)
      → (event_class == event.class) ≡ false
      → publish_event act event ((start self (p, bus)).1, w)
        ≡ call_handlers act
            (handlers_of event.class bus.handlers)
            event
            ((start self (p, bus)).1, w)
  unfolding publish_event
  publish_event-start act self p bus event w h =
      ap (λ es. call_handlers act es event ((start self (p, bus)).1, w))
        (handlers_of-start self p bus event.class h)

module _ {G H : Type 0} where
  -- Started and stopped, a processor that was not running does not run and processes no event, and
  -- the handlers that the bus has for each class are those from before.
  pub stop-start :
      (self : H) (p : EventProcessor G) (bus : EventBus H)
      → p.running ≡ false
      → HasTokens bus.next_token_id bus.handlers
      → (event : Event) (class : ℕ)
      → let after = stop (start self (p, bus)) in
        (after.0.running ≡ false)
        × (process event after.0 ≡ [])
        × (handlers_of class after.1.handlers ≡ handlers_of class bus.handlers)
  unfolding stop start process subscribe
  stop-start self p bus idle i event class =
      rw idle (refl, refl, unsubscribe-subscribe event_class class self bus i)
