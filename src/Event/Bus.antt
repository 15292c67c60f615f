-- ===== src/Event/Bus.antt =====
-- modules/event/src/event_bus.cpp and its header. handlers_ is a list of classes, each with its
-- vector; std::unordered_map leaves the order in which `unsubscribe` visits them open. What a
-- handler does is a parameter of `publish_event`: it may change the bus, and anything else.
pub mod Tokens
pub mod Log
use dht_hunter.Base.{
  ℕ, suc, ◌+◌, ◌%◌, ◌^◌, Bool, true, false, ◌||◌, ◌==◌, if◌then◌else◌, List, [], ◌∷◌, ◌++◌, map,
}
use dht_hunter.Event.{Event}

module _ {A : Type 0} where
  -- `handlers_[type_index].push_back(a)`, which makes the vector of a class that has none.
  unfoldable pub append_to : ℕ → A → List (ℕ × List A) → List (ℕ × List A)
  append_to class a [] = (class, a ∷ []) ∷ []
  append_to class a ((c, xs) ∷ m) =
      if c == class then (c, xs ++ (a ∷ [])) ∷ m else (c, xs) ∷ append_to class a m

  -- `handlers_.find(type_index)`, and the vector found there.
  unfoldable pub handlers_of : ℕ → List (ℕ × List A) → List A
  handlers_of class [] = []
  handlers_of class ((c, xs) ∷ m) = if c == class then xs else handlers_of class m

pub record HandlerEntry (H : Type 0) : Type 0 where
  pub token : ℕ
  pub handler : H

pub record EventBus (H : Type 0) : Type 0 where
  pub handlers : List (ℕ × List (HandlerEntry H))
  pub next_token_id : ℕ

module _ {H : Type 0} where
  unfoldable pub create_event_bus : EventBus H
  create_event_bus = record { handlers = []; next_token_id = 1 }

  -- The token, and the bus afterwards.
  unfoldable pub subscribe : ℕ → H → EventBus H → ℕ × EventBus H
  subscribe class handler bus = (
    bus.next_token_id,
    record {
      handlers =
          append_to class (record { token = bus.next_token_id; handler = handler }) bus.handlers;
      next_token_id = suc bus.next_token_id % 2 ^ 64;
    },
  )

  -- std::find_if for an entry with the token.
  unfoldable pub has_token : ℕ → List (HandlerEntry H) → Bool
  has_token token [] = false
  has_token token (e ∷ es) = e.token == token || has_token token es

  unfoldable pub erase_token : ℕ → List (HandlerEntry H) → List (HandlerEntry H)
  erase_token token [] = []
  erase_token token (e ∷ es) = if e.token == token then es else e ∷ erase_token token es

  unfoldable pub remove_token :
      ℕ → List (ℕ × List (HandlerEntry H)) → Bool × List (ℕ × List (HandlerEntry H))
  remove_token token [] = (false, [])
  remove_token token ((c, es) ∷ m) =
      let rest = remove_token token m in
      if has_token token es
      then (true, (c, erase_token token es) ∷ m)
      else (rest.0, (c, es) ∷ rest.1)

  unfoldable pub unsubscribe : ℕ → EventBus H → Bool × EventBus H
  unsubscribe token bus =
      let removed = remove_token token bus.handlers in
      (removed.0, record bus { handlers = removed.1 })

  -- `for (const auto& entry : handlers_to_call) entry.handler(event)`.
  unfoldable pub call_handlers :
      {W : Type 0}
      → (H → Event → EventBus H × W → EventBus H × W)
      → List (HandlerEntry H)
      → Event
      → EventBus H × W
      → EventBus H × W
  call_handlers run [] event world = world
  call_handlers run (e ∷ es) event world = call_handlers run es event (run e.handler event world)

  unfoldable pub publish_event :
      {W : Type 0}
      → (H → Event → EventBus H × W → EventBus H × W)
      → Event
      → EventBus H × W
      → EventBus H × W
  publish_event run event (bus, w) =
      call_handlers run (handlers_of event.class bus.handlers) event (bus, w)
