-- ===== src/Event/Processor.antt =====
-- modules/event/src/event_processor.cpp. A processor's state holds the bus that it points to by
-- whether it has one; each method that calls the bus takes and returns it. `H` are the handlers of
-- the bus; the one by which a processor subscribes is `self`, which calls its `process`.
pub mod Laws
use dht_hunter.Base.{ℕ, Bool, true, false, if◌then◌else◌, List, []}
use dht_hunter.Event.{Event, event_class}
use dht_hunter.Event.Bus.{EventBus, append_to, handlers_of, subscribe, unsubscribe}

pub record EventProcessor (G : Type 0) : Type 0 where
  pub running : Bool
  pub has_bus : Bool
  pub token : ℕ
  pub handlers : List (ℕ × List G)

module _ {G : Type 0} where
  unfoldable pub create_event_processor : EventProcessor G
  create_event_processor = record { running = false; has_bus = false; token = 0; handlers = [] }

  -- The handlers that `process` calls, in order.
  unfoldable pub process : Event → EventProcessor G → List G
  process event p = if p.running then handlers_of event.class p.handlers else []

  unfoldable pub register_handler : ℕ → G → EventProcessor G → EventProcessor G
  register_handler class handler p = record p { handlers = append_to class handler p.handlers }

module _ {G H : Type 0} where
  unfoldable pub start : H → EventProcessor G × EventBus H → EventProcessor G × EventBus H
  start self (p, bus) =
      let (token, subscribed) = subscribe event_class self bus in
      if p.running
      then (p, bus)
      else (record p { running = true; has_bus = true; token = token }, subscribed)

  unfoldable pub stop : EventProcessor G × EventBus H → EventProcessor G × EventBus H
  stop (p, bus) =
      if p.running
      then if p.has_bus
        then (record p { running = false; has_bus = false }, (unsubscribe p.token bus).1)
        else (record p { running = false }, bus)
      else (p, bus)
