-- ===== src/Event/Adapter.antt =====
-- modules/event/include/bitscrape/event/event_adapter.hpp: an adapter and the one bus that it is
-- given. `registrations` are the classes and handlers for which a derived class's
-- `register_handlers` calls `subscribe`; event_adapter.cpp has none.
pub mod Laws
pub mod Tests
use dht_hunter.Base.{ℕ, Bool, true, false, List, [], ◌∷◌, ◌++◌, if◌then◌else◌}
use dht_hunter.Event.{Event}
use dht_hunter.Event.Bus.{EventBus, subscribe, unsubscribe, publish_event}

pub record EventAdapter : Type 0 where
  pub connected : Bool
  pub tokens : List ℕ

abbrev pub create_event_adapter : EventAdapter
create_event_adapter = record { connected = false; tokens = [] }

module _ {H : Type 0} where
  unfoldable pub adapter_subscribe : ℕ → H → EventAdapter × EventBus H → EventAdapter × EventBus H
  unfolding subscribe
  adapter_subscribe class handler (a, bus) =
      let (token, bus') = subscribe class handler bus in
      if a.connected then (record a { tokens = a.tokens ++ (token ∷ []) }, bus') else (a, bus)

  unfoldable pub register_handlers :
      List (ℕ × H) → EventAdapter × EventBus H → EventAdapter × EventBus H
  unfolding adapter_subscribe
  register_handlers [] state = state
  register_handlers ((class, handler) ∷ registrations) state =
      register_handlers registrations (adapter_subscribe class handler state)

  unfoldable pub unsubscribe_each : List ℕ → EventBus H → EventBus H
  unfolding unsubscribe
  unsubscribe_each [] bus = bus
  unsubscribe_each (token ∷ tokens) bus = unsubscribe_each tokens (unsubscribe token bus).1

  unfoldable pub disconnect : EventAdapter × EventBus H → EventAdapter × EventBus H
  unfolding unsubscribe_each
  disconnect (a, bus) =
      if a.connected
      then (record { connected = false; tokens = [] }, unsubscribe_each a.tokens bus)
      else (a, bus)

  unfoldable pub connect : List (ℕ × H) → EventAdapter × EventBus H → EventAdapter × EventBus H
  unfolding disconnect register_handlers
  connect registrations (a, bus) =
      let state = if a.connected then disconnect (a, bus) else (a, bus) in
      register_handlers registrations (record state.0 { connected = true }, state.1)

  unfoldable pub adapter_publish :
      {W : Type 0}
      → (H → Event → EventBus H × W → EventBus H × W)
      → Event
      → EventAdapter
      → EventBus H × W
      → EventBus H × W
  unfolding publish_event
  adapter_publish run event a world = if a.connected then publish_event run event world else world
