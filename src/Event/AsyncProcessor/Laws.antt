-- ===== src/Event/AsyncProcessor/Laws.antt =====
-- What an asynchronous processor does with events, and with its threads.
use dht_hunter.Base.{
  ℕ, zero, suc, ◌≡◌, refl, sym, subst, ap, ◌∙◌, Bool, true, false, if◌then◌else◌, List, [], ◌∷◌,
  ◌++◌, append_assoc, append-nil, Option, some, length, inl, inr, Bool-cases,
}
use dht_hunter.Event.{Event}
use dht_hunter.Event.Filter.{EventFilter}
use dht_hunter.Event.Bus.{EventBus}
use dht_hunter.Event.AsyncProcessor.{
  AsyncEventProcessor, passes_filter, process_event, enqueue_event, work, set_filter, queue_size,
  stop, set_num_threads,
}

abbrev pub enqueue_each : List Event → AsyncEventProcessor → AsyncEventProcessor
enqueue_each [] p = p
enqueue_each (e ∷ es) p = enqueue_each es (enqueue_event e p)

abbrev pub rounds : ℕ → AsyncEventProcessor → AsyncEventProcessor
rounds zero p = p
rounds (suc n) p = rounds n (work p)

-- The events that a filter lets through.
abbrev pub keep : Option EventFilter → List Event → List Event
keep f [] = []
keep f (e ∷ es) = if passes_filter f e then e ∷ keep f es else keep f es

-- A running processor with the given queue and record.
abbrev pub at : AsyncEventProcessor → List Event → List Event → AsyncEventProcessor
at p queue done = record p { running = true; event_queue = queue; processed = done }

enqueue_each_lem :
    (p : AsyncEventProcessor) (es queue done : List Event)
    → enqueue_each es (at p queue done) ≡ at p (queue ++ keep p.filter es) done
unfolding enqueue_event
enqueue_each_lem p [] queue done = ap (λ q. at p q done) (sym (append-nil queue))
enqueue_each_lem p (e ∷ es) queue done = elim (Bool-cases (passes_filter p.filter e)) [
  | inl k ↦ rw k (
      enqueue_each_lem p es (queue ++ (e ∷ [])) done
      ∙ ap (λ q. at p q done) (append_assoc queue (e ∷ []) (keep p.filter es)))
  | inr k ↦ rw k (enqueue_each_lem p es queue done)
]

work-at :
    (p : AsyncEventProcessor) (e : Event) (es done : List Event)
    → work (at p (e ∷ es) done)
      ≡ (if passes_filter p.filter e then at p es (done ++ (e ∷ [])) else at p es done)
unfolding work process_event
work-at p e es done = refl

rounds_lem :
    (p : AsyncEventProcessor) (queue done : List Event)
    → rounds (length queue) (at p queue done) ≡ at p [] (done ++ keep p.filter queue)
rounds_lem p [] done = ap (at p []) (sym (append-nil done))
rounds_lem p (e ∷ es) done =
    ap (rounds (length es)) (work-at p e es done) ∙ elim (Bool-cases (passes_filter p.filter e)) [
      | inl k ↦ rw k (
          rounds_lem p es (done ++ (e ∷ []))
          ∙ ap (at p []) (append_assoc done (e ∷ []) (keep p.filter es)))
      | inr k ↦ rw k (rounds_lem p es done)
    ]

-- What is left and what was processed after events were enqueued and the filter was replaced.
abbrev Drains : List Event → EventFilter → AsyncEventProcessor → Type 0
Drains es f p =
    let queued = set_filter f (enqueue_each es p) in
    let after = rounds (queue_size queued) queued in
    (after.event_queue ≡ [])
    × (after.processed ≡ p.processed ++ keep (some f) (p.event_queue ++ keep p.filter es))

at-Drains :
    (es queue done : List Event) (f : EventFilter) (p : AsyncEventProcessor)
    → Drains es f (at p queue done)
unfolding set_filter queue_size
at-Drains es queue done f p =
    rw (enqueue_each_lem p es queue done)
      (rw (rounds_lem (record p { filter = some f }) (queue ++ keep p.filter es) done) (refl, refl))

-- Of a running processor: after events were enqueued and the filter was replaced, as many rounds of
-- a worker as there are events in the queue empty it, and process, in the order in which they came,
-- the events that pass the new filter, those enqueued now having passed the old one too.
pub rounds-enqueue_each :
    (es : List Event) (f : EventFilter) (p : AsyncEventProcessor)
    → p.running ≡ true
    → let queued = set_filter f (enqueue_each es p) in
      let after = rounds (queue_size queued) queued in
      (after.event_queue ≡ [])
      × (after.processed ≡ p.processed ++ keep (some f) (p.event_queue ++ keep p.filter es))
rounds-enqueue_each es f p h =
    subst (Drains es f) (ap (λ (b : Bool). record p { running = b }) (sym h))
      (at-Drains es p.event_queue p.processed f p)

-- To change the number of threads of a running processor stops it: afterwards it does not run,
-- has no worker and no event left, and the bus is the one that `stop` leaves.
pub set_num_threads_stops :
    {H : Type 0} (self : H) (n : ℕ) (p : AsyncEventProcessor) (bus : EventBus H)
    → p.running ≡ true
    → let after = set_num_threads self n (p, bus) in
      (after.0.running ≡ false)
      × (after.0.num_threads ≡ n)
      × (after.0.workers ≡ 0)
      × (after.0.event_queue ≡ [])
      × (after.1 ≡ (stop (p, bus)).1)
unfolding set_num_threads stop
set_num_threads_stops self n p bus h = rw h (refl, refl, refl, refl, refl)
