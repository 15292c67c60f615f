-- ===== src/Bencode/EventProcessor/Once.antt =====
-- No promise is completed twice.
use dht_hunter.Base.{
  ℕ, suc, ◌+◌, ◌%◌, ◌≤◌, ◌<◌, ◌^◌, ◌≡◌, Bool, ◌==◌, ltb, if◌then◌else◌, List, [], ◌∷◌, ◌&&◌, ◌||◌,
  not, subst, sym, length, Exception, inl, inr, Bool-cases, arith,
}
use dht_hunter.Bencode.Value.{Value}
use dht_hunter.Event.Bus.{EventBus}
use dht_hunter.Bencode.EventProcessor.{
  BencodeEvent, encode_request, encode_response, decode_request, decode_response, error, encoded,
  decoded, failed, BencodeEventProcessor, create_bencode_event_processor, start, stop, waits,
  promise, process_encode_response, process_decode_response, process_error, process,
  process_encode_request, process_decode_request, dispatch, encode_async, decode_async,
}
use dht_hunter.Bencode.EventProcessor.Counts.{
  occurrences, completions, completions-append, occurrences-promise, occurrences-forget,
}

-- Each identifier below the next one waits or was completed, at most once in all.
abbrev pub IsOnce : BencodeEventProcessor → Type 0
IsOnce p =
    (id : ℕ)
    → occurrences id p.encode_promises
        + occurrences id p.decode_promises
        + completions id p.completed
      ≤ (if ltb id p.next_request_id then 1 else 0)

process_encode_response-IsOnce :
    (id : ℕ) (bytes : List ℕ) (p : BencodeEventProcessor)
    → IsOnce p
    → IsOnce (process_encode_response id bytes p)
unfolding process_encode_response
process_encode_response-IsOnce id bytes p h i = elim (Bool-cases (waits id p.encode_promises)) [
  | inl k ↦ rw k (
      omega (
        arith,
        h i,
        occurrences-forget i id p.encode_promises k,
        completions-append i id (encoded bytes) p.completed,
      ))
  | inr k ↦ rw k (h i)
]

process_decode_response-IsOnce :
    (id : ℕ) (v : Value) (p : BencodeEventProcessor)
    → IsOnce p
    → IsOnce (process_decode_response id v p)
unfolding process_decode_response
process_decode_response-IsOnce id v p h i = elim (Bool-cases (waits id p.decode_promises)) [
  | inl k ↦ rw k (
      omega (
        arith,
        h i,
        occurrences-forget i id p.decode_promises k,
        completions-append i id (decoded v) p.completed,
      ))
  | inr k ↦ rw k (h i)
]

process_error-IsOnce :
    (id : ℕ) (e : Exception) (p : BencodeEventProcessor) → IsOnce p → IsOnce (process_error id e p)
unfolding process_error
process_error-IsOnce id e p h i = elim (Bool-cases (waits id p.encode_promises)) [
  | inl k ↦ rw k (
      omega (
        arith,
        h i,
        occurrences-forget i id p.encode_promises k,
        completions-append i id (failed e) p.completed,
      ))
  | inr k ↦ rw k (elim (Bool-cases (waits id p.decode_promises)) [
    | inl q ↦ rw q (
        omega (
          arith,
          h i,
          occurrences-forget i id p.decode_promises q,
          completions-append i id (failed e) p.completed,
        ))
    | inr q ↦ rw q (h i)
  ])
]

process_encode_request-IsOnce :
    (id : ℕ) (v : Value) (p : BencodeEventProcessor)
    → IsOnce p
    → IsOnce (process_encode_request id v p).0
unfolding process_encode_request
process_encode_request-IsOnce id v p h i = elim (Bool-cases (p.running && p.has_bus)) [
  | inl k ↦ rw k (h i)
  | inr k ↦ rw k (h i)
]

process_decode_request-IsOnce :
    (id : ℕ) (bytes : List ℕ) (p : BencodeEventProcessor)
    → IsOnce p
    → IsOnce (process_decode_request id bytes p).0
unfolding process_decode_request
process_decode_request-IsOnce id bytes p h i = elim (Bool-cases (p.running && p.has_bus)) [
  | inl k ↦ rw k (h i)
  | inr k ↦ rw k (h i)
]

dispatch-IsOnce :
    (e : BencodeEvent) (p : BencodeEventProcessor) → IsOnce p → IsOnce (dispatch e p).0
dispatch-IsOnce (encode_request id v) p h = process_encode_request-IsOnce id v p h
dispatch-IsOnce (encode_response id bytes) p h = process_encode_response-IsOnce id bytes p h
dispatch-IsOnce (decode_request id bytes) p h = process_decode_request-IsOnce id bytes p h
dispatch-IsOnce (decode_response id v) p h = process_decode_response-IsOnce id v p h
dispatch-IsOnce (error id e) p h = process_error-IsOnce id e p h

process-IsOnce : (e : BencodeEvent) (p : BencodeEventProcessor) → IsOnce p → IsOnce (process e p).0
unfolding process
process-IsOnce e p h = elim (Bool-cases p.running) [
  | inl k ↦
      subst (λ (b : Bool). IsOnce (if b then dispatch e p else (p, [])).0) (sym k)
        (dispatch-IsOnce e p h)
  | inr k ↦ subst (λ (b : Bool). IsOnce (if b then dispatch e p else (p, [])).0) (sym k) h
]

-- The next identifier is used.
issue-IsOnce :
    (p : BencodeEventProcessor) (encodes decodes : List ℕ)
    → suc p.next_request_id < 2 ^ 64
    → IsOnce p
    → ((id : ℕ)
        → occurrences id encodes + occurrences id decodes
          ≤ occurrences id p.encode_promises
            + occurrences id p.decode_promises
            + (if p.next_request_id == id then 1 else 0))
    → IsOnce (record p {
      next_request_id = suc p.next_request_id % 2 ^ 64;
      encode_promises = encodes;
      decode_promises = decodes;
    })
issue-IsOnce p encodes decodes small h issued i =
    let exact : suc p.next_request_id % 2 ^ 64 ≡ suc p.next_request_id = omega (arith, small) in
    rw exact (ground (arith, h i, issued i))

encode_async-IsOnce :
    (v : Value) (p : BencodeEventProcessor)
    → suc p.next_request_id < 2 ^ 64
    → IsOnce p
    → IsOnce (encode_async v p).1
unfolding encode_async
encode_async-IsOnce v p small h = elim (Bool-cases (not p.running || not p.has_bus)) [
  | inl k ↦ rw k h
  | inr k ↦ rw k (
      issue-IsOnce p (promise p.next_request_id p.encode_promises) p.decode_promises small h
        λ id. omega (arith, occurrences-promise id p.next_request_id p.encode_promises))
]

decode_async-IsOnce :
    (bytes : List ℕ) (p : BencodeEventProcessor)
    → suc p.next_request_id < 2 ^ 64
    → IsOnce p
    → IsOnce (decode_async bytes p).1
unfolding decode_async
decode_async-IsOnce bytes p small h = elim (Bool-cases (not p.running || not p.has_bus)) [
  | inl k ↦ rw k h
  | inr k ↦ rw k (
      issue-IsOnce p p.encode_promises (promise p.next_request_id p.decode_promises) small h
        λ id. omega (arith, occurrences-promise id p.next_request_id p.decode_promises))
]

next-process :
    (e : BencodeEvent) (p : BencodeEventProcessor)
    → (process e p).0.next_request_id ≡ p.next_request_id
unfolding process process_encode_request process_decode_request process_encode_response
    process_decode_response process_error
next-process (encode_request id v) p = ground arith
next-process (encode_response id bytes) p = ground arith
next-process (decode_request id bytes) p = ground arith
next-process (decode_response id v) p = ground arith
next-process (error id e) p = ground arith

create-IsOnce : IsOnce create_bencode_event_processor
unfolding create_bencode_event_processor
create-IsOnce id = ground arith

pub data Operation (H : Type 0) : Type 0 where
  begin : H → Operation H
  finish : Operation H
  ask_encode : Value → Operation H
  ask_decode : List ℕ → Operation H
  hear : BencodeEvent → Operation H

module _ {H : Type 0} where
  abbrev pub apply :
      Operation H → BencodeEventProcessor × EventBus H → BencodeEventProcessor × EventBus H
  apply (begin self) s = start self s
  apply finish s = stop s
  apply (ask_encode v) s = ((encode_async v s.0).1, s.1)
  apply (ask_decode bytes) s = ((decode_async bytes s.0).1, s.1)
  apply (hear e) s = ((process e s.0).0, s.1)

  abbrev pub run :
      List (Operation H) → BencodeEventProcessor × EventBus H → BencodeEventProcessor × EventBus H
  run [] s = s
  run (o ∷ ops) s = run ops (apply o s)

  start-IsOnce :
      (self : H) (s : BencodeEventProcessor × EventBus H) → IsOnce s.0 → IsOnce (start self s).0
  unfolding start
  start-IsOnce self (p, bus) h i = elim (Bool-cases p.running) [
    | inl k ↦ rw k (h i)
    | inr k ↦ rw k (h i)
  ]

  stop-IsOnce : (s : BencodeEventProcessor × EventBus H) → IsOnce s.0 → IsOnce (stop s).0
  unfolding stop
  stop-IsOnce (p, bus) h i = elim (Bool-cases p.running) [
    | inl k ↦ rw k (omega (arith, h i))
    | inr k ↦ rw k (h i)
  ]

  apply-IsOnce :
      (o : Operation H) (s : BencodeEventProcessor × EventBus H)
      → suc s.0.next_request_id < 2 ^ 64
      → IsOnce s.0
      → IsOnce (apply o s).0
  apply-IsOnce (begin self) s small h = start-IsOnce self s h
  apply-IsOnce finish s small h = stop-IsOnce s h
  apply-IsOnce (ask_encode v) s small h = encode_async-IsOnce v s.0 small h
  apply-IsOnce (ask_decode bytes) s small h = decode_async-IsOnce bytes s.0 small h
  apply-IsOnce (hear e) s small h = process-IsOnce e s.0 h

  next-apply :
      (o : Operation H) (s : BencodeEventProcessor × EventBus H)
      → suc s.0.next_request_id < 2 ^ 64
      → (apply o s).0.next_request_id ≤ suc s.0.next_request_id
  unfolding start stop encode_async decode_async
  next-apply (begin self) s small = ground arith
  next-apply finish s small = ground arith
  next-apply (ask_encode v) s small = ground arith
  next-apply (ask_decode bytes) s small = ground arith
  next-apply (hear e) s small = omega (arith, next-process e s.0)

  run-IsOnce :
      (ops : List (Operation H)) (s : BencodeEventProcessor × EventBus H)
      → s.0.next_request_id + length ops < 2 ^ 64
      → IsOnce s.0
      → IsOnce (run ops s).0
  run-IsOnce [] s small h = h
  run-IsOnce (o ∷ ops) s small h =
      run-IsOnce ops (apply o s) (omega (arith, small, next-apply o s (omega (arith, small))))
        (apply-IsOnce o s (omega (arith, small)) h)

  -- A promise is completed at most once, and not while it still waits. Let a new processor be
  -- started, stopped, asked, and sent any events, forged ones too, fewer than 2 ^ 64 times in all:
  -- then every identifier is at most once among the promises that wait, of both kinds, and those
  -- that were completed.
  pub completions_once :
      (ops : List (Operation H)) (bus : EventBus H) (id : ℕ)
      → 1 + length ops < 2 ^ 64
      → let p = (run ops (create_bencode_event_processor, bus)).0 in
        occurrences id p.encode_promises
          + occurrences id p.decode_promises
          + completions id p.completed
        ≤ 1
  unfolding create_bencode_event_processor
  completions_once ops bus id small =
      ground (arith, run-IsOnce ops (create_bencode_event_processor, bus) small create-IsOnce id)
