-- ===== src/Bencode/EventProcessor.antt =====
-- modules/bencode/src/bencode_event_processor.cpp. The promises are the identifiers that wait in
-- the two maps; `completed` records what they were completed with, in order. A method returns the
-- events that it publishes besides the next state: who hears them is the bus's affair, and
-- `process` is what the processor does with an event that it hears. The mutex is held for single
-- accesses, and is left out. `H` are the handlers of the bus.
pub mod Counts
pub mod Hearing
pub mod Laws
pub mod Once
pub mod Tests
use dht_hunter.Base.{
  ℕ, suc, ◌%◌, ◌^◌, Bool, true, false, ◌||◌, ◌&&◌, not, ◌==◌, if◌then◌else◌, List, [], ◌∷◌, ◌++◌,
  Exception, Result, ok, throw, undefined, negative_char, out_of_fuel,
}
use dht_hunter.Bencode.Value.{Value}
use dht_hunter.Bencode.Encoder.{encode}
use dht_hunter.Bencode.Decoder.{decode}
use dht_hunter.Event.{Event}
use dht_hunter.Event.Bus.{EventBus, subscribe, unsubscribe}

pub data BencodeEvent : Type 0 where
  encode_request : ℕ → Value → BencodeEvent
  encode_response : ℕ → List ℕ → BencodeEvent
  decode_request : ℕ → List ℕ → BencodeEvent
  decode_response : ℕ → Value → BencodeEvent
  error : ℕ → Exception → BencodeEvent

-- The classes, as the bus tells them apart: the base class, and those derived from it.
abbrev pub bencode_event_class : ℕ
bencode_event_class = 10

abbrev pub class_of : BencodeEvent → ℕ
class_of (encode_request id v) = 11
class_of (encode_response id bytes) = 12
class_of (decode_request id bytes) = 13
class_of (decode_response id v) = 14
class_of (error id e) = 15

-- What the bus sees of an event: USER_DEFINED with the custom type 1001.
unfoldable pub to_event : ℕ → BencodeEvent → Event
to_event now e = record {
  class = class_of e;
  type = 1000;
  custom_type_id = 1001;
  timestamp = now;
  content = [];
}

pub data Reply : Type 0 where
  encoded : List ℕ → Reply
  decoded : Value → Reply
  failed : Exception → Reply

pub record BencodeEventProcessor : Type 0 where
  pub running : Bool
  pub has_bus : Bool
  pub token : ℕ
  pub next_request_id : ℕ
  pub encode_promises : List ℕ
  pub decode_promises : List ℕ
  pub completed : List (ℕ × Reply)

unfoldable pub create_bencode_event_processor : BencodeEventProcessor
create_bencode_event_processor = record {
  running = false;
  has_bus = false;
  token = 0;
  next_request_id = 1;
  encode_promises = [];
  decode_promises = [];
  completed = [];
}

module _ {H : Type 0} where
  unfoldable pub start : H → BencodeEventProcessor × EventBus H → BencodeEventProcessor × EventBus H
  start self (p, bus) =
      let (token, subscribed) = subscribe bencode_event_class self bus in
      if p.running
      then (p, bus)
      else (record p { running = true; has_bus = true; token = token }, subscribed)

  -- The bus is kept, and the promises that still wait are broken.
  unfoldable pub stop : BencodeEventProcessor × EventBus H → BencodeEventProcessor × EventBus H
  stop (p, bus) =
      if p.running
      then (
        record p { running = false; encode_promises = []; decode_promises = [] },
        if p.has_bus then (unsubscribe p.token bus).1 else bus,
      )
      else (p, bus)

-- The keys of a std::unordered_map: find, an assignment through operator[], erase.
unfoldable pub waits : ℕ → List ℕ → Bool
waits id [] = false
waits id (i ∷ ids) = i == id || waits id ids

unfoldable pub promise : ℕ → List ℕ → List ℕ
unfolding waits
promise id ids = if waits id ids then ids else ids ++ (id ∷ [])

unfoldable pub forget : ℕ → List ℕ → List ℕ
forget id [] = []
forget id (i ∷ ids) = if i == id then ids else i ∷ forget id ids

unfoldable pub process_encode_request :
    ℕ → Value → BencodeEventProcessor → BencodeEventProcessor × List BencodeEvent
process_encode_request id v p =
    if p.running && p.has_bus
    then (p, encode_response id (encode v) ∷ encode_response id (encode v) ∷ [])
    else (p, [])

-- try { publish(decode_response) } catch { publish(error) }, each twice. Undefined behaviour of the
-- decoder publishes nothing here.
abbrev pub decode_events : ℕ → Result Value → List BencodeEvent
decode_events id (ok v) = decode_response id v ∷ decode_response id v ∷ []
decode_events id (throw e) = error id e ∷ error id e ∷ []
decode_events id undefined = []
decode_events id negative_char = []
decode_events id out_of_fuel = []

unfoldable pub process_decode_request :
    ℕ → List ℕ → BencodeEventProcessor → BencodeEventProcessor × List BencodeEvent
process_decode_request id bytes p =
    if p.running && p.has_bus then (p, decode_events id (decode bytes)) else (p, [])

unfoldable pub process_encode_response : ℕ → List ℕ → BencodeEventProcessor → BencodeEventProcessor
process_encode_response id bytes p =
    if waits id p.encode_promises
    then record p {
      encode_promises = forget id p.encode_promises;
      completed = p.completed ++ ((id, encoded bytes) ∷ []);
    }
    else p

unfoldable pub process_decode_response : ℕ → Value → BencodeEventProcessor → BencodeEventProcessor
process_decode_response id v p =
    if waits id p.decode_promises
    then record p {
      decode_promises = forget id p.decode_promises;
      completed = p.completed ++ ((id, decoded v) ∷ []);
    }
    else p

unfoldable pub process_error : ℕ → Exception → BencodeEventProcessor → BencodeEventProcessor
process_error id e p =
    if waits id p.encode_promises
    then record p {
      encode_promises = forget id p.encode_promises;
      completed = p.completed ++ ((id, failed e) ∷ []);
    }
    else if waits id p.decode_promises
    then record p {
      decode_promises = forget id p.decode_promises;
      completed = p.completed ++ ((id, failed e) ∷ []);
    }
    else p

abbrev pub dispatch :
    BencodeEvent → BencodeEventProcessor → BencodeEventProcessor × List BencodeEvent
dispatch (encode_request id v) p = process_encode_request id v p
dispatch (encode_response id bytes) p = (process_encode_response id bytes p, [])
dispatch (decode_request id bytes) p = process_decode_request id bytes p
dispatch (decode_response id v) p = (process_decode_response id v p, [])
dispatch (error id e) p = (process_error id e p, [])

unfoldable pub process :
    BencodeEvent → BencodeEventProcessor → BencodeEventProcessor × List BencodeEvent
process e p = if p.running then dispatch e p else (p, [])

-- A future: of another thread that runs the call, or of the promise with this identifier.
pub data Future (A : Type 0) : Type 0 where
  elsewhere : A → Future A
  promised : ℕ → Future A

unfoldable pub encode_async :
    Value → BencodeEventProcessor → Future (List ℕ) × BencodeEventProcessor × List BencodeEvent
encode_async v p = if not p.running || not p.has_bus then (elsewhere (encode v), p, []) else (
  promised p.next_request_id,
  record p {
    next_request_id = suc p.next_request_id % 2 ^ 64;
    encode_promises = promise p.next_request_id p.encode_promises;
  },
  encode_request p.next_request_id v ∷ [],
)

unfoldable pub decode_async :
    List ℕ
    → BencodeEventProcessor
    → Future (Result Value) × BencodeEventProcessor × List BencodeEvent
decode_async bytes p =
    if not p.running || not p.has_bus then (elsewhere (decode bytes), p, []) else (
      promised p.next_request_id,
      record p {
        next_request_id = suc p.next_request_id % 2 ^ 64;
        decode_promises = promise p.next_request_id p.decode_promises;
      },
      decode_request p.next_request_id bytes ∷ [],
    )
