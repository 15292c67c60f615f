-- ===== src/Event/AsyncProcessor.antt =====
-- modules/event/src/async_event_processor.cpp. `processed` records the events that reach
-- `process_event`, which does nothing with them. A worker thread's round is the step `work`, and it
-- waits where the step changes nothing; `stop` joins the workers between their rounds.
pub mod Laws
use dht_hunter.Base.{
  ℕ, zero, suc, Bool, true, false, ◌==◌, if◌then◌else◌, List, [], ◌∷◌, ◌++◌, Option, none, some,
  length,
}
use dht_hunter.Event.{Event, event_class}
use dht_hunter.Event.Filter.{EventFilter, passes}
use dht_hunter.Event.Bus.{EventBus, subscribe, unsubscribe}

pub record AsyncEventProcessor : Type 0 where
  pub running : Bool
  pub has_bus : Bool
  pub token : ℕ
  pub num_threads : ℕ
  pub workers : ℕ
  pub event_queue : List Event
  pub filter : Option EventFilter
  pub processed : List Event

-- `passes` is true where there is no filter.
unfoldable pub passes_filter : Option EventFilter → Event → Bool
passes_filter none event = true
passes_filter (some f) event = passes f event

unfoldable pub process_event : Event → AsyncEventProcessor → AsyncEventProcessor
process_event event p = record p { processed = p.processed ++ (event ∷ []) }

unfoldable pub process : Event → AsyncEventProcessor → AsyncEventProcessor
process event p =
    if p.running then if passes_filter p.filter event then process_event event p else p else p

unfoldable pub enqueue_event : Event → AsyncEventProcessor → AsyncEventProcessor
enqueue_event event p =
    if p.running
    then if passes_filter p.filter event
      then record p { event_queue = p.event_queue ++ (event ∷ []) }
      else p
    else p

-- A round of `worker_thread`.
unfoldable pub work : AsyncEventProcessor → AsyncEventProcessor
work p =
    if p.running
    then elim p.event_queue [
      | [] ↦ p
      | event ∷ rest ↦
          let left = record p { event_queue = rest } in
          if passes_filter p.filter event then process_event event left else left
    ]
    else p

unfoldable pub set_filter : EventFilter → AsyncEventProcessor → AsyncEventProcessor
set_filter f p = record p { filter = some f }

unfoldable pub clear_filter : AsyncEventProcessor → AsyncEventProcessor
clear_filter p = record p { filter = none }

unfoldable pub queue_size : AsyncEventProcessor → ℕ
queue_size p = length p.event_queue

module _ {H : Type 0} where
  unfoldable pub start : H → AsyncEventProcessor × EventBus H → AsyncEventProcessor × EventBus H
  start self (p, bus) =
      let (token, subscribed) = subscribe event_class self bus in
      if p.running then (p, bus) else (
        record p { running = true; has_bus = true; token = token; workers = p.num_threads },
        subscribed,
      )

  unfoldable pub stop : AsyncEventProcessor × EventBus H → AsyncEventProcessor × EventBus H
  stop (p, bus) =
      if p.running
      then (
        record p { running = false; has_bus = false; workers = 0; event_queue = [] },
        if p.has_bus then (unsubscribe p.token bus).1 else bus,
      )
      else (p, bus)

  unfoldable pub set_num_threads :
      H → ℕ → AsyncEventProcessor × EventBus H → AsyncEventProcessor × EventBus H
  set_num_threads self n (p, bus) =
      let (stopped, left) = stop (p, bus) in
      let resized : AsyncEventProcessor = record stopped { num_threads = n } in
      if p.running
      then if stopped.has_bus then start self (resized, left) else (resized, left)
      else (record p { num_threads = n }, bus)

-- The constructor, where `hardware` is std::thread::hardware_concurrency().
unfoldable pub create_async_event_processor : ℕ → ℕ → AsyncEventProcessor
create_async_event_processor hardware n = record {
  running = false;
  has_bus = false;
  token = 0;
  num_threads = if n == 0 then if hardware == 0 then 2 else hardware else n;
  workers = 0;
  event_queue = [];
  filter = none;
  processed = [];
}
