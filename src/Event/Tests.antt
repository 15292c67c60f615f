-- ===== src/Event/Tests.antt =====
-- Runs of the bus and the processors, and instances of their theorems.
use dht_hunter.Base.{ℕ, ◌≡◌, refl, true, false, List, [], ◌∷◌, ◌++◌, some, arith}
use dht_hunter.Event.{Event, event_class}
use dht_hunter.Event.Filter.{type_filter, not_filter, and_filter, passes}
use dht_hunter.Event.Bus.{
  EventBus, create_event_bus, handlers_of, has_token, call_handlers, publish_event,
}
use dht_hunter.Event.Bus.Tokens.{HasTokens}
use dht_hunter.Event.Bus.Log.{Operation, add, cancel, run, in_force, select, publish_event-in_force}
use dht_hunter.Event.Processor.{EventProcessor}
use dht_hunter.Event.AsyncProcessor.{
  AsyncEventProcessor, create_async_event_processor, set_filter, queue_size, set_num_threads,
}
use dht_hunter.Event.AsyncProcessor
use dht_hunter.Event.AsyncProcessor.Laws.{enqueue_each, rounds, keep, rounds-enqueue_each}

abbrev found : Event
found = record { class = 7; type = 8; custom_type_id = 0; timestamp = 0; content = [] }

abbrev lost : Event
lost = record { class = 8; type = 9; custom_type_id = 0; timestamp = 0; content = [] }

-- A handler is a number, which it notes.
abbrev note : ℕ → Event → EventBus ℕ × List ℕ → EventBus ℕ × List ℕ
note h event (bus, notes) = (bus, notes ++ (h ∷ []))

abbrev three_added : List (Operation ℕ)
three_added = add 7 10 ∷ add 8 11 ∷ add 7 12 ∷ cancel 1 ∷ add 7 13 ∷ []

test_publish : (publish_event note found (run three_added create_event_bus, [])).1 ≡ 12 ∷ 13 ∷ []
unfolding publish_event create_event_bus dht_hunter.Event.Bus.subscribe
    dht_hunter.Event.Bus.unsubscribe dht_hunter.Event.Bus.remove_token
    dht_hunter.Event.Bus.has_token dht_hunter.Event.Bus.erase_token dht_hunter.Event.Bus.append_to
    handlers_of call_handlers
test_publish = refl

publish_event-in_force_example :
    publish_event note found (run three_added create_event_bus, [])
    ≡ call_handlers note
        (select 7 (in_force 1 [] three_added))
        found
        (run three_added create_event_bus, [])
publish_event-in_force_example = publish_event-in_force note three_added (omega arith) found []

abbrev processor : EventProcessor ℕ
processor = record { running = false; has_bus = false; token = 0; handlers = (7, 20 ∷ []) ∷ [] }

abbrev bus_of_one : EventBus ℕ
bus_of_one = record {
  handlers = (7, record { token = 1; handler = 10 } ∷ []) ∷ [];
  next_token_id = 2;
}

bus_of_one-HasTokens : HasTokens bus_of_one.next_token_id bus_of_one.handlers
unfolding has_token handlers_of
bus_of_one-HasTokens = (λ token h. (ground (arith, h), λ class. refl), (refl, tt), tt)

abbrev two_threads : AsyncEventProcessor
two_threads = record {
  running = true;
  has_bus = true;
  token = 1;
  num_threads = 2;
  workers = 2;
  event_queue = lost ∷ [];
  filter = some (type_filter 8);
  processed = [];
}

test_filter : passes (and_filter (not_filter (type_filter 8)) (type_filter 9)) lost ≡ true
unfolding passes
test_filter = refl

rounds-enqueue_each_example :
    let queued =
      set_filter (not_filter (type_filter 9)) (enqueue_each (found ∷ lost ∷ []) two_threads) in
    let after = rounds (queue_size queued) queued in
    (after.event_queue ≡ [])
    × (after.processed
        ≡ keep
            (some (not_filter (type_filter 9)))
            (lost ∷ keep (some (type_filter 8)) (found ∷ lost ∷ [])))
rounds-enqueue_each_example =
    rounds-enqueue_each (found ∷ lost ∷ []) (not_filter (type_filter 9)) two_threads refl

test_rounds :
    let queued =
      set_filter (not_filter (type_filter 9)) (enqueue_each (found ∷ lost ∷ []) two_threads) in
    (rounds 3 queued).processed ≡ found ∷ []
unfolding set_filter dht_hunter.Event.AsyncProcessor.enqueue_event
    dht_hunter.Event.AsyncProcessor.work dht_hunter.Event.AsyncProcessor.process_event
    dht_hunter.Event.AsyncProcessor.passes_filter passes
test_rounds = refl
