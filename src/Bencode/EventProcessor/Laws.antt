-- ===== src/Bencode/EventProcessor/Laws.antt =====
-- What becomes of a request, with the events of the processor heard and not heard.
use dht_hunter.Base.{
  Ensures, ℕ, suc, ◌%◌, ◌^◌, ◌≡◌, refl, sym, subst, ap, ap₂, Bool, true, false, ◌==◌, List, [], ◌∷◌,
  ◌++◌, inl, inr, Bool-cases,
}
use dht_hunter.Bencode.Value.{IsValid, Value}
use dht_hunter.Bencode.Encoder.{encode}
use dht_hunter.Bencode.Decoder.{decode}
use dht_hunter.Event.{Event}
use dht_hunter.Event.Bus.{EventBus, handlers_of, subscribe, call_handlers, publish_event}
use dht_hunter.Event.Bus.Tokens.{append_to_other}
use dht_hunter.Bencode.EventProcessor.{
  bencode_event_class, BencodeEvent, encode_request, encode_response, decode_request,
  decode_response, error, class_of, to_event, Reply, encoded, BencodeEventProcessor, start, waits,
  encode_async, decode_async,
}
use dht_hunter.Bencode.EventProcessor.Hearing.{
  hear_all, at, reply_of, encode_async-at, decode_async-at,
}

at_self :
    (p : BencodeEventProcessor)
    → p.running ≡ true
    → p.has_bus ≡ true
    → at p p.next_request_id p.encode_promises p.decode_promises p.completed ≡ p
at_self p h k = ap₂ (λ (a b : Bool). record p { running = a; has_bus = b }) (sym h) (sym k)

-- After `events`, the promise `id` is completed by `reply`, and nothing else has changed.
abbrev Completes : ℕ → Reply → BencodeEventProcessor → BencodeEventProcessor → Type 0
Completes id reply p after =
    (after.completed ≡ p.completed ++ ((id, reply) ∷ []))
    × (after.encode_promises ≡ p.encode_promises)
    × (after.decode_promises ≡ p.decode_promises)

Completes-eq :
    (p q : BencodeEventProcessor) (reply : Reply)
    → q
      ≡ at p
          (suc p.next_request_id % 2 ^ 64)
          p.encode_promises
          p.decode_promises
          (p.completed ++ ((p.next_request_id, reply) ∷ []))
    → Completes p.next_request_id reply p q
Completes-eq p q reply e = subst (Completes p.next_request_id reply p) (sym e) (refl, refl, refl)

module _ (p : BencodeEventProcessor) (fuel : ℕ) (running : p.running ≡ true)
    (has_bus : p.has_bus ≡ true) (new_es : waits p.next_request_id p.encode_promises ≡ false)
    (new_ds : waits p.next_request_id p.decode_promises ≡ false) where
  -- What `encode_async` promises comes true where the processor hears its own events: for a running
  -- processor with a new identifier, once the request and the response were heard, the promise is
  -- completed with the encoding of the value, and is not waited for any more.
  pub encode_async-completes :
      (v : Value)
      → let asked = encode_async v p in
        let after = hear_all (suc (suc (suc fuel))) asked.2 asked.1 in
        (after.completed ≡ p.completed ++ ((p.next_request_id, encoded (encode v)) ∷ []))
        × (after.encode_promises ≡ p.encode_promises)
        × (after.decode_promises ≡ p.decode_promises)
  encode_async-completes v = Completes-eq p _ (encoded (encode v)) (
      subst
        (λ q.
          let asked = encode_async v q in
          hear_all (suc (suc (suc fuel))) asked.2 asked.1
          ≡ at p (suc p.next_request_id % 2 ^ 64) p.encode_promises p.decode_promises
              (p.completed ++ ((p.next_request_id, encoded (encode v)) ∷ [])))
        (at_self p running has_bus)
        (encode_async-at p p.next_request_id fuel p.encode_promises p.decode_promises p.completed
          new_es new_ds v))

  -- The same of `decode_async`, where the decoder returns a valid value or throws: the promise is
  -- completed with the decoded value, or with the exception.
  pub decode_async-completes :
      (bytes : List ℕ)
      → Ensures IsValid (decode bytes)
      → let asked = decode_async bytes p in
        let after = hear_all (suc (suc (suc fuel))) asked.2 asked.1 in
        (reply : Reply) × (reply_of (decode bytes) ≡ reply ∷ [])
        × (after.completed ≡ p.completed ++ ((p.next_request_id, reply) ∷ []))
        × (after.encode_promises ≡ p.encode_promises)
        × (after.decode_promises ≡ p.decode_promises)
  decode_async-completes bytes ensures =
      let (reply, e, k) =
        decode_async-at p p.next_request_id fuel p.encode_promises p.decode_promises p.completed
          new_es new_ds bytes (decode bytes) refl ensures in
      let (a, b, c) = Completes-eq p _ reply (
        subst
          (λ q.
            let asked = decode_async bytes q in
            hear_all (suc (suc (suc fuel))) asked.2 asked.1
            ≡ at p (suc p.next_request_id % 2 ^ 64) p.encode_promises p.decode_promises
                (p.completed ++ ((p.next_request_id, reply) ∷ [])))
          (at_self p running has_bus) k) in
      (reply, e, a, b, c)

differs : (e : BencodeEvent) → (bencode_event_class == class_of e) ≡ false
differs (encode_request id v) = refl
differs (encode_response id bytes) = refl
differs (decode_request id bytes) = refl
differs (decode_response id v) = refl
differs (error id e) = refl

module _ {H : Type 0} where
  handlers_of-start :
      (self : H) (p : BencodeEventProcessor) (bus : EventBus H) (e : BencodeEvent)
      → handlers_of (class_of e) (start self (p, bus)).1.handlers
        ≡ handlers_of (class_of e) bus.handlers
  unfolding start subscribe
  handlers_of-start self p bus e = elim (Bool-cases p.running) [
    | inl k ↦ rw k refl
    | inr k ↦ rw k (append_to_other bencode_event_class (class_of e) _ bus.handlers (differs e))
  ]

module _ {H W : Type 0} where
  -- But it does not hear them. `start` subscribes to the base class of the events; the bus calls for
  -- each of the five events the handlers that it had before the processor was started, so that no
  -- promise of a started processor is completed through the bus.
  pub publish_event-start_bencode :
      (act : H → Event → EventBus H × W → EventBus H × W) (self : H) (p : BencodeEventProcessor)
      (bus : EventBus H) (now : ℕ) (e : BencodeEvent) (w : W)
      → publish_event act (to_event now e) ((start self (p, bus)).1, w)
        ≡ call_handlers act
            (handlers_of (class_of e) bus.handlers)
            (to_event now e)
            ((start self (p, bus)).1, w)
  unfolding publish_event to_event
  publish_event-start_bencode act self p bus now e w =
      ap (λ es. call_handlers act es (to_event now e) ((start self (p, bus)).1, w))
        (handlers_of-start self p bus e)
