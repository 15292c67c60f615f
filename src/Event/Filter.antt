-- ===== src/Event/Filter.antt =====
-- modules/event/include/bitscrape/event/event_filter.hpp.
use dht_hunter.Base.{Bool, ◌&&◌, ◌||◌, not, ◌==◌, ℕ}
use dht_hunter.Event.{Event}

pub data EventFilter : Type 0 where
  type_filter : ℕ → EventFilter
  predicate_filter : (Event → Bool) → EventFilter
  and_filter or_filter : EventFilter → EventFilter → EventFilter
  not_filter : EventFilter → EventFilter

unfoldable pub passes : EventFilter → Event → Bool
passes (type_filter type) event = event.type == type
passes (predicate_filter predicate) event = predicate event
passes (and_filter f g) event = passes f event && passes g event
passes (or_filter f g) event = passes f event || passes g event
passes (not_filter f) event = not (passes f event)
