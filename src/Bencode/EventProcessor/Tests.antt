-- ===== src/Bencode/EventProcessor/Tests.antt =====
-- Instances of the theorems on the processor of bencode events.
use dht_hunter.Base.{
  ℕ, ◌+◌, ◌≤◌, ◌≡◌, refl, true, false, List, [], ◌∷◌, ◌++◌, invalid_argument, arith,
}
use dht_hunter.Base.Int.{pos}
use dht_hunter.Base.Text.{codes}
use dht_hunter.Bencode.Value.{integer}
use dht_hunter.Event.{Event}
use dht_hunter.Event.Bus.{EventBus, handlers_of, call_handlers, publish_event}
use dht_hunter.Bencode.EventProcessor.{
  encode_request, encode_response, error, to_event, BencodeEventProcessor,
  create_bencode_event_processor, start, waits,
}
use dht_hunter.Bencode.EventProcessor.Counts.{occurrences, completions}
use dht_hunter.Bencode.EventProcessor.Once.{
  Operation, begin, ask_encode, ask_decode, hear, run, completions_once,
}
use dht_hunter.Bencode.EventProcessor.Laws.{publish_event-start_bencode}

abbrev bus : EventBus ℕ
bus = record { handlers = (11, record { token = 1; handler = 7 } ∷ []) ∷ []; next_token_id = 2 }

abbrev note : ℕ → Event → EventBus ℕ × List ℕ → EventBus ℕ × List ℕ
note h event (b, notes) = (b, notes ++ (h ∷ []))

abbrev processor : BencodeEventProcessor
processor = record {
  running = true;
  has_bus = true;
  token = 2;
  next_request_id = 3;
  encode_promises = 1 ∷ [];
  decode_promises = 2 ∷ [];
  completed = [];
}

-- Two requests, a response, the same forged again, and an error.
abbrev operations : List (Operation ℕ)
operations =
    begin 9
    ∷ ask_encode (integer (pos 5))
    ∷ ask_decode (codes "i5e")
    ∷ hear (encode_response 1 (codes "i5e"))
    ∷ hear (encode_response 1 (codes "i6e"))
    ∷ hear (error 1 invalid_argument)
    ∷ []

completions_once_example :
    let p = (run operations (create_bencode_event_processor, bus)).0 in
    occurrences 1 p.encode_promises + occurrences 1 p.decode_promises + completions 1 p.completed
    ≤ 1
completions_once_example = completions_once operations bus 1 (omega arith)

new_es : waits 3 processor.encode_promises ≡ false
unfolding waits
new_es = refl

new_ds : waits 3 processor.decode_promises ≡ false
unfolding waits
new_ds = refl

publish_event-start_bencode_example :
    publish_event note
      (to_event 0 (encode_request 3 (integer (pos 5))))
      ((start 9 (processor, bus)).1, [])
    ≡ call_handlers note
        (handlers_of 11 bus.handlers)
        (to_event 0 (encode_request 3 (integer (pos 5))))
        ((start 9 (processor, bus)).1, [])
publish_event-start_bencode_example =
    publish_event-start_bencode note 9 processor bus 0 (encode_request 3 (integer (pos 5))) []
