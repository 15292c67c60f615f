-- ===== src/Dht/NodeLookup/Sections.antt =====
-- The locked sections of a lookup that return, with any mutex.
use dht_hunter.Base.{
  ◌≡◌, refl, subst, true, false, not, ◌&&◌, Option, none, some, Bool-cases, Option-cases, inl, inr,
}
use dht_hunter.Types.NodeId.{NodeId}
use dht_hunter.Types.Node.{Endpoint}
use dht_hunter.Dht.Mutex.{Relock, blocks, passes, Outcome, done, stuck, undefined, unlock}
use dht_hunter.Dht.NodeLookup.{
  NodeState, queried, NodeEntry, NodeLookup, lookup_mutex, has_id, at_endpoint, find_entry,
  in_state?, add_nodes, has_converged, query_more, send_queries, continue_lookup, mark_responded,
  process_response, mark_timed_out, process_timeout, Event, response, timeout, handle,
}
use dht_hunter.Dht.NodeLookup.Queries.{
  IsSound, Keeps, Keeps-trans, Keeps-refl, query_more-Keeps, finish_if_idle-Keeps,
  mark_responded-Keeps, mark_timed_out-Keeps, in_state-eq,
}

abbrev pub locked : NodeLookup → NodeLookup
locked l = record l { held = true }

abbrev pub unlocked : NodeLookup → NodeLookup
unlocked l = record l { held = false }

pub responded_held :
    (endpoint : Endpoint) (l : NodeLookup) → (mark_responded endpoint (locked l)).held ≡ true
unfolding mark_responded
responded_held endpoint l = refl

pub timed_out_held : (id : NodeId) (l : NodeLookup) → (mark_timed_out id (locked l)).held ≡ true
unfolding mark_timed_out
timed_out_held id l = refl

outcome_eq :
    {o : Outcome (Unit {0} × NodeLookup)} {l m : NodeLookup}
    → o ≡ done (tt, l)
    → o ≡ done (tt, m)
    → l ≡ m
outcome_eq h k = cc

-- Where the end of a section returns, it has kept the lookup.
continue_lookup-Keeps :
    (r : Relock) (l m : NodeLookup)
    → l.held ≡ true
    → IsSound l
    → continue_lookup r l ≡ done (tt, m)
    → Keeps l m
unfolding continue_lookup send_queries
continue_lookup-Keeps blocks l m h i d =
    elim (Bool-cases (not l.complete && not (has_converged l))) [
      | inr over ↦ subst (Keeps l) (outcome_eq (rw over refl) d) (finish_if_idle-Keeps l i)
      | inl more ↦ cc (rw (more, h) at d)
    ]
continue_lookup-Keeps passes l m h i d =
    elim (Bool-cases (not l.complete && not (has_converged l))) [
      | inr over ↦ subst (Keeps l) (outcome_eq (rw over refl) d) (finish_if_idle-Keeps l i)
      | inl more ↦ subst (Keeps l) (outcome_eq (rw more (rw h refl)) d) (query_more-Keeps l i)
    ]

pub found_in :
    (s : NodeState) (o : Option NodeEntry)
    → in_state? s o ≡ true
    → (e : NodeEntry) × (o ≡ some e) × (e.state ≡ s)
found_in s none h = cc
found_in s (some e) h = (e, refl, in_state-eq s e.state h)

unlock_inv :
    (o : Outcome (Unit {0} × NodeLookup)) (l' : NodeLookup)
    → unlock lookup_mutex o ≡ done (tt, l')
    → (m : NodeLookup) × (o ≡ done (tt, m)) × (unlocked m ≡ l')
unlock_inv (done (a, m)) l' d = (m, refl, outcome_eq refl d)
unlock_inv stuck l' d = cc
unlock_inv undefined l' d = cc

-- The mutex is free after a section, and what it kept stays.
pub record IsRunning (l l' : NodeLookup) : Type 0 where
  pub kept : Keeps l l'
  pub free : l'.held ≡ false

section-IsRunning : (l m l' : NodeLookup) → Keeps (locked l) m → unlocked m ≡ l' → IsRunning l l'
section-IsRunning l m l' k e = subst (IsRunning l) e (record {
  kept = record {
    sound = record { all_fresh = k.sound.all_fresh };
    bound = k.bound;
    entries = k.entries;
    target = k.target;
  };
  free = refl;
})

locked-IsSound : (l : NodeLookup) → IsSound l → IsSound (locked l)
locked-IsSound l i = record { all_fresh = i.all_fresh }

process_response-IsRunning :
    (r : Relock) (endpoint : Endpoint) (l l' : NodeLookup)
    → l.held ≡ false
    → IsSound l
    → process_response r endpoint l ≡ done (tt, l')
    → IsRunning l l'
unfolding process_response add_nodes
process_response-IsRunning r endpoint l l' free i d =
    elim (Option-cases (find_entry (at_endpoint endpoint) l.nodes)) [
      | inl h ↦
          let (m, e, same) = unlock_inv _ l' (rw (free, h) at d) in
          section-IsRunning l m l'
            (subst (Keeps (locked l)) (outcome_eq refl e)
              (Keeps-refl (locked l) (locked-IsSound l i)))
            same
      | inr (entry, h) ↦
          let (m, e, same) = unlock_inv _ l' (rw (free, h) at d) in
          let marked = mark_responded endpoint (locked l) in
          let kept = mark_responded-Keeps endpoint (locked l) entry h (locked-IsSound l i) in
          section-IsRunning l m l'
            (Keeps-trans (locked l) marked m kept
              (continue_lookup-Keeps r marked m (responded_held endpoint l) kept.sound e))
            same
    ]

process_timeout-IsRunning :
    (r : Relock) (id : NodeId) (l l' : NodeLookup)
    → l.held ≡ false
    → IsSound l
    → process_timeout r id l ≡ done (tt, l')
    → IsRunning l l'
unfolding process_timeout
process_timeout-IsRunning r id l l' free i d =
    elim (Bool-cases (in_state? queried (find_entry (has_id id) l.nodes))) [
      | inr late ↦
          let (m, e, same) = unlock_inv _ l' (rw (free, late) at d) in
          section-IsRunning l m l'
            (subst (Keeps (locked l)) (outcome_eq refl e)
              (Keeps-refl (locked l) (locked-IsSound l i)))
            same
      | inl waits ↦
          let (m, e, same) = unlock_inv _ l' (rw (free, waits) at d) in
          let (entry, h, q) = found_in queried (find_entry (has_id id) l.nodes) waits in
          let marked = mark_timed_out id (locked l) in
          let kept = mark_timed_out-Keeps id (locked l) entry h q (locked-IsSound l i) in
          section-IsRunning l m l'
            (Keeps-trans (locked l) marked m kept
              (continue_lookup-Keeps r marked m (timed_out_held id l) kept.sound e))
            same
    ]

pub handle-IsRunning :
    (r : Relock) (event : Event) (l l' : NodeLookup)
    → l.held ≡ false
    → IsSound l
    → handle r event l ≡ done (tt, l')
    → IsRunning l l'
unfolding handle
handle-IsRunning r (response endpoint) l l' free i d =
    process_response-IsRunning r endpoint l l' free i d
handle-IsRunning r (timeout id) l l' free i d = process_timeout-IsRunning r id l l' free i d

-- The section that `start` runs before it waits.
pub send_queries-IsRunning :
    (r : Relock) (l l' : NodeLookup)
    → l.held ≡ false
    → IsSound l
    → send_queries r l ≡ done (tt, l')
    → IsRunning l l'
unfolding send_queries
send_queries-IsRunning r l l' free i d =
    section-IsRunning l (query_more (locked l)) l'
      (query_more-Keeps (locked l) (locked-IsSound l i)) (outcome_eq (rw free refl) d)
