-- ===== src/Bencode/EventProcessor/Hearing.antt =====
-- A processor that hears its own events.
use dht_hunter.Base.{
  ℕ, zero, suc, ◌%◌, ◌^◌, ◌≡◌, refl, ap, ◌∙◌, true, false, List, [], ◌∷◌, ◌++◌, Result, ok, throw,
  undefined, Exception, negative_char, out_of_fuel, Ensures, arith,
}
use dht_hunter.Bencode.Value.{Value, IsValid}
use dht_hunter.Bencode.Encoder.{encode}
use dht_hunter.Bencode.Decoder.{decode}
use dht_hunter.Bencode.EventProcessor.{
  BencodeEvent, encode_request, encode_response, decode_request, decode_response, error, Reply,
  encoded, decoded, failed, BencodeEventProcessor, waits, promise, forget, process_encode_request,
  process_decode_request, process_encode_response, process_decode_response, process_error, process,
  encode_async, decode_async,
}

-- A processor that hears everything it publishes: the events in the order in which they are
-- published, at most `fuel` of them.
abbrev pub hear_all : ℕ → List BencodeEvent → BencodeEventProcessor → BencodeEventProcessor
hear_all zero events p = p
hear_all (suc fuel) [] p = p
hear_all (suc fuel) (e ∷ events) p = hear_all fuel (events ++ (process e p).1) (process e p).0

waits_last : (id : ℕ) (ids : List ℕ) → waits id (ids ++ (id ∷ [])) ≡ true
unfolding waits
waits_last id [] = ground arith
waits_last id (i ∷ ids) = rw (waits_last id ids) (ground arith)

forget_last : (id : ℕ) (ids : List ℕ) → waits id ids ≡ false → forget id (ids ++ (id ∷ [])) ≡ ids
unfolding waits forget
forget_last id [] h = ground arith
forget_last id (i ∷ ids) h = ground (arith, forget_last id ids)

promise_new : (id : ℕ) (ids : List ℕ) → waits id ids ≡ false → promise id ids ≡ ids ++ (id ∷ [])
unfolding promise
promise_new id ids h = rw h refl

hear_all_nil : (fuel : ℕ) (p : BencodeEventProcessor) → hear_all fuel [] p ≡ p
hear_all_nil zero p = refl
hear_all_nil (suc fuel) p = refl

-- One event is heard.
hear_next :
    (fuel : ℕ) (e : BencodeEvent) (events published : List BencodeEvent)
    (p q : BencodeEventProcessor)
    → process e p ≡ (q, published)
    → hear_all (suc fuel) (e ∷ events) p ≡ hear_all fuel (events ++ published) q
hear_next fuel e events published p q h =
    ap (λ (r : BencodeEventProcessor × List BencodeEvent). hear_all fuel (events ++ r.1) r.0) h

-- A request that is answered by two events of which the first is heard, and the second ignored.
hear_request :
    (fuel : ℕ) (request response : BencodeEvent) (p q r : BencodeEventProcessor)
    → process request p ≡ (q, response ∷ response ∷ [])
    → process response q ≡ (r, [])
    → process response r ≡ (r, [])
    → hear_all (suc (suc (suc fuel))) (request ∷ []) p ≡ r
hear_request fuel request response p q r asked heard ignored =
    hear_next (suc (suc fuel)) request [] (response ∷ response ∷ []) p q asked
    ∙ hear_next (suc fuel) response (response ∷ []) [] q r heard
    ∙ hear_next fuel response [] [] r r ignored
    ∙ hear_all_nil fuel r

-- A running processor and what it holds.
abbrev pub at :
    BencodeEventProcessor → ℕ → List ℕ → List ℕ → List (ℕ × Reply) → BencodeEventProcessor
at p n es ds done = record p {
  running = true;
  has_bus = true;
  next_request_id = n;
  encode_promises = es;
  decode_promises = ds;
  completed = done;
}

module _ (p : BencodeEventProcessor) (n m : ℕ) (es ds : List ℕ) (done : List (ℕ × Reply))
    (new_es : waits n es ≡ false) (new_ds : waits n ds ≡ false) where
  hear_encode_response :
      (bytes : List ℕ)
      → process (encode_response n bytes) (at p m (es ++ (n ∷ [])) ds done)
        ≡ (at p m es ds (done ++ ((n, encoded bytes) ∷ [])), [])
  unfolding process process_encode_response
  hear_encode_response bytes = rw (waits_last n es, forget_last n es new_es) refl

  ignore_encode_response :
      (bytes : List ℕ)
      → process (encode_response n bytes) (at p m es ds done) ≡ (at p m es ds done, [])
  unfolding process process_encode_response
  ignore_encode_response bytes = rw new_es refl

  hear_decode_response :
      (v : Value)
      → process (decode_response n v) (at p m es (ds ++ (n ∷ [])) done)
        ≡ (at p m es ds (done ++ ((n, decoded v) ∷ [])), [])
  unfolding process process_decode_response
  hear_decode_response v = rw (waits_last n ds, forget_last n ds new_ds) refl

  ignore_decode_response :
      (v : Value) → process (decode_response n v) (at p m es ds done) ≡ (at p m es ds done, [])
  unfolding process process_decode_response
  ignore_decode_response v = rw new_ds refl

  hear_error :
      (e : Exception)
      → process (error n e) (at p m es (ds ++ (n ∷ [])) done)
        ≡ (at p m es ds (done ++ ((n, failed e) ∷ [])), [])
  unfolding process process_error
  hear_error e = rw (new_es, waits_last n ds, forget_last n ds new_ds) refl

  ignore_error : (e : Exception) → process (error n e) (at p m es ds done) ≡ (at p m es ds done, [])
  unfolding process process_error
  ignore_error e = rw (new_es, new_ds) refl

-- What a promise is completed with by the outcome of the decoder.
abbrev pub reply_of : Result Value → List Reply
reply_of (ok v) = decoded v ∷ []
reply_of (throw e) = failed e ∷ []
reply_of undefined = []
reply_of negative_char = []
reply_of out_of_fuel = []

module _ (p : BencodeEventProcessor) (n fuel : ℕ) (es ds : List ℕ) (done : List (ℕ × Reply))
    (new_es : waits n es ≡ false) (new_ds : waits n ds ≡ false) where
  abbrev after : Reply → BencodeEventProcessor
  after reply = at p (suc n % 2 ^ 64) es ds (done ++ ((n, reply) ∷ []))

  pub encode_async-at :
      (v : Value)
      → let asked = encode_async v (at p n es ds done) in
        hear_all (suc (suc (suc fuel))) asked.2 asked.1 ≡ after (encoded (encode v))
  unfolding encode_async process process_encode_request
  encode_async-at v =
      let start_es = at p (suc n % 2 ^ 64) (es ++ (n ∷ [])) ds done in
      rw (promise_new n es new_es) (
        hear_request fuel (encode_request n v) (encode_response n (encode v)) start_es start_es
          (after (encoded (encode v))) refl
          (hear_encode_response p n (suc n % 2 ^ 64) es ds done new_es new_ds (encode v))
          (ignore_encode_response p n (suc n % 2 ^ 64) es ds _ new_es new_ds (encode v)))

  pub decode_async-at :
      (bytes : List ℕ) (m : Result Value)
      → decode bytes ≡ m
      → Ensures IsValid m
      → let asked = decode_async bytes (at p n es ds done) in
        (reply : Reply) × (reply_of m ≡ reply ∷ [])
        × (hear_all (suc (suc (suc fuel))) asked.2 asked.1 ≡ after reply)
  unfolding decode_async process process_decode_request
  decode_async-at bytes (ok v) e i =
      let asked = at p (suc n % 2 ^ 64) es (ds ++ (n ∷ [])) done in
      (
        decoded v,
        refl,
        rw (promise_new n ds new_ds) (
            hear_request fuel (decode_request n bytes) (decode_response n v) asked asked
              (after (decoded v)) (rw e refl)
              (hear_decode_response p n (suc n % 2 ^ 64) es ds done new_es new_ds v)
              (ignore_decode_response p n (suc n % 2 ^ 64) es ds _ new_es new_ds v)),
      )
  decode_async-at bytes (throw x) e i =
      let asked = at p (suc n % 2 ^ 64) es (ds ++ (n ∷ [])) done in
      (
        failed x,
        refl,
        rw (promise_new n ds new_ds) (
            hear_request fuel (decode_request n bytes) (error n x) asked asked (after (failed x))
              (rw e refl) (hear_error p n (suc n % 2 ^ 64) es ds done new_es new_ds x)
              (ignore_error p n (suc n % 2 ^ 64) es ds _ new_es new_ds x)),
      )
  decode_async-at bytes undefined e i = elim i [ ]
  decode_async-at bytes negative_char e i = elim i [ ]
  decode_async-at bytes out_of_fuel e i = elim i [ ]
