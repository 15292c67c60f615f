-- ===== src/Dht/NodeLookup/Queries.antt =====
-- How many queries a lookup sends.
use dht_hunter.Base.{
  ℕ, suc, ◌+◌, ◌-◌, ◌≤◌, ◌≡◌, refl, sym, subst, ◌∙◌, inl, inr, Bool, true, List, [], ◌∷◌, some, ltb,
  ◌==◌, length, length-append, Bool-cases, Option-cases, All, arith,
}
use dht_hunter.Types.NodeId.{NodeId}
use dht_hunter.Types.Node.{DhtNode, Endpoint}
use dht_hunter.Dht.NodeLookup.{
  max_timeouts, NodeState, unknown, queried, responded, failed, NodeEntry, NodeLookup, in_state,
  has_id, at_endpoint, find_entry, update_entry, set_state, send_query, count_sent, send_each,
  finish_if_idle, query_more, get_closest_unqueried_nodes, free_slots, time_out, mark_responded,
  mark_timed_out,
}

abbrev pub sum : (NodeEntry → ℕ) → List NodeEntry → ℕ
sum f [] = 0
sum f (e ∷ es) = f e + sum f es

-- The nodes of the entries.
abbrev pub nodes_of : List NodeEntry → List DhtNode
nodes_of [] = []
nodes_of (e ∷ es) = e.node ∷ nodes_of es

-- How often an entry may still be queried.
abbrev pub attempts_of : NodeState → ℕ → ℕ
attempts_of unknown timeouts = max_timeouts - timeouts
attempts_of queried timeouts = max_timeouts - suc timeouts
attempts_of _ timeouts = 0

abbrev pub attempts : List NodeEntry → ℕ
attempts = sum (λ e. attempts_of e.state e.timeouts)

-- An entry that has failed twice is neither unknown nor queried.
abbrev pub fresh : NodeState → ℕ → Bool
fresh unknown timeouts = ltb timeouts max_timeouts
fresh queried timeouts = ltb timeouts max_timeouts
fresh _ timeouts = true

abbrev pub IsFresh : NodeEntry → Type 0
IsFresh e = fresh e.state e.timeouts ≡ true

sum-update_entry :
    (f : NodeEntry → ℕ) (test : NodeEntry → Bool) (change : NodeEntry → NodeEntry)
    (es : List NodeEntry) (e : NodeEntry)
    → find_entry test es ≡ some e
    → sum f (update_entry test change es) + f e ≡ sum f es + f (change e)
unfolding find_entry update_entry
sum-update_entry f test change [] e h = absurd (cc)
sum-update_entry f test change (x ∷ es) e h = elim (Bool-cases (test x)) [
  | inl t ↦ ground (arith, t)
  | inr t ↦ ground (arith, t, sum-update_entry f test change es e)
]

nodes_of-update_entry :
    (test : NodeEntry → Bool) (change : NodeEntry → NodeEntry) (es : List NodeEntry)
    → ((e : NodeEntry) → (change e).node ≡ e.node)
    → nodes_of (update_entry test change es) ≡ nodes_of es
unfolding update_entry
nodes_of-update_entry test change [] h = refl
nodes_of-update_entry test change (x ∷ es) h =
    ground (arith, h x, nodes_of-update_entry test change es h)

update_entry-All :
    (P : NodeEntry → Type 0) (test : NodeEntry → Bool) (change : NodeEntry → NodeEntry)
    (es : List NodeEntry) (e : NodeEntry)
    → find_entry test es ≡ some e
    → (P e → P (change e))
    → All P es
    → All P (update_entry test change es)
unfolding find_entry update_entry
update_entry-All P test change [] e h k a = tt
update_entry-All P test change (x ∷ es) e h k a = elim (Bool-cases (test x)) [
  | inl t ↦
      let same : x ≡ e = cc (rw t at h) in
      rw t (subst (λ y. P y → P (change y)) (sym same) k a.0, a.1)
  | inr t ↦ rw t (a.0, update_entry-All P test change es e (rw t at h) k a.1)
]

find_entry-All :
    (P : NodeEntry → Type 0) (test : NodeEntry → Bool) (es : List NodeEntry) (e : NodeEntry)
    → find_entry test es ≡ some e
    → All P es
    → P e
unfolding find_entry
find_entry-All P test [] e h a = absurd (cc)
find_entry-All P test (x ∷ es) e h a = elim (Bool-cases (test x)) [
  | inl t ↦ let same : x ≡ e = cc (rw t at h) in subst P same a.0
  | inr t ↦ find_entry-All P test es e (rw t at h) a.1
]

-- What holds of a lookup between two locked sections: an entry that has failed twice is not tried
-- again.
pub record IsSound (l : NodeLookup) : Type 0 where
  pub all_fresh : All IsFresh l.nodes

-- A change that keeps the lookup sound, its entries, and a bound on the queries ever sent.
pub record Keeps (l l' : NodeLookup) : Type 0 where
  pub sound : IsSound l'
  pub bound : length l'.sent + attempts l'.nodes ≤ length l.sent + attempts l.nodes
  pub entries : nodes_of l'.nodes ≡ nodes_of l.nodes
  pub target : l'.target_id ≡ l.target_id

pub Keeps-trans : (l m n : NodeLookup) → Keeps l m → Keeps m n → Keeps l n
Keeps-trans l m n h k = record {
  sound = k.sound;
  bound = omega (arith, h.bound, k.bound);
  entries = k.entries ∙ h.entries;
  target = k.target ∙ h.target;
}

pub in_state-eq : (s t : NodeState) → in_state s t ≡ true → t ≡ s
in_state-eq unknown t h = ground arith
in_state-eq queried t h = ground arith
in_state-eq responded t h = ground arith
in_state-eq failed t h = ground arith

-- An unknown entry that is marked as queried may be queried once less.
pub mark_queried :
    (test : NodeEntry → Bool) (es : List NodeEntry) (e : NodeEntry)
    → find_entry test es ≡ some e
    → e.state ≡ unknown
    → All IsFresh es
    → All IsFresh (update_entry test (set_state queried) es)
      × (suc (attempts (update_entry test (set_state queried) es)) ≡ attempts es)
mark_queried test es e h u a =
    let f = find_entry-All IsFresh test es e h a in
    (
      update_entry-All IsFresh test (set_state queried) es e h (λ k. ground (arith, u, k)) a,
      ground (
        arith,
        u,
        f,
        sum-update_entry (λ e. attempts_of e.state e.timeouts) test (set_state queried) es e h,
      ),
    )

query_entry :
    (node : DhtNode) (l : NodeLookup) (e : NodeEntry)
    → find_entry (has_id node.id) l.nodes ≡ some e
    → IsSound l
    → Keeps l (count_sent (send_query node l))
unfolding send_query
query_entry node l e h i = elim (Bool-cases (in_state unknown e.state)) [
  | inr other ↦
      rw (h, other) (record { sound = i; bound = omega arith; entries = refl; target = refl })
  | inl eligible ↦
      let marked =
        mark_queried (has_id node.id) l.nodes e h (in_state-eq unknown e.state eligible)
          i.all_fresh in
      rw (h, eligible)
        (record {
          sound = record { all_fresh = marked.0 };
          bound = omega (arith, marked.1, length-append l.sent (node ∷ []));
          entries = nodes_of-update_entry (has_id node.id) (set_state queried) l.nodes (λ e. refl);
          target = refl;
        })
]

pub Keeps-refl : (l : NodeLookup) → IsSound l → Keeps l l
Keeps-refl l i = record { sound = i; bound = omega arith; entries = refl; target = refl }

send_query-Keeps :
    (node : DhtNode) (l : NodeLookup) → IsSound l → Keeps l (count_sent (send_query node l))
send_query-Keeps node l i = elim (Option-cases (find_entry (has_id node.id) l.nodes)) [
  | inl absent ↦ unfold send_query in rw absent (Keeps-refl l i)
  | inr (e, h) ↦ query_entry node l e h i
]

send_each-Keeps : (ns : List DhtNode) (l : NodeLookup) → IsSound l → Keeps l (send_each ns l)
unfolding send_each
send_each-Keeps [] l i = Keeps-refl l i
send_each-Keeps (n ∷ ns) l i =
    let k = send_query-Keeps n l i in
    Keeps-trans l (count_sent (send_query n l)) (send_each ns (count_sent (send_query n l))) k
      (send_each-Keeps ns (count_sent (send_query n l)) k.sound)

pub finish_if_idle-Keeps : (l : NodeLookup) → IsSound l → Keeps l (finish_if_idle l)
unfolding finish_if_idle
finish_if_idle-Keeps l i = elim (Bool-cases (l.active_queries == 0)) [
  | inl idle ↦ rw idle (record {
    sound = record { all_fresh = i.all_fresh };
    bound = omega arith;
    entries = refl;
    target = refl;
  })
  | inr busy ↦ rw busy (Keeps-refl l i)
]

pub query_more-Keeps : (l : NodeLookup) → IsSound l → Keeps l (query_more l)
unfolding query_more
query_more-Keeps l i =
    let ns = get_closest_unqueried_nodes (free_slots l) l in
    let k = send_each-Keeps ns l i in
    Keeps-trans l (send_each ns l) (finish_if_idle (send_each ns l)) k
      (finish_if_idle-Keeps (send_each ns l) k.sound)

-- An entry that responds or times out.
settled :
    (test : NodeEntry → Bool) (change : NodeEntry → NodeEntry) (l : NodeLookup) (e : NodeEntry)
    (active : ℕ)
    → find_entry test l.nodes ≡ some e
    → attempts_of (change e).state (change e).timeouts ≤ attempts_of e.state e.timeouts
    → (IsFresh e → IsFresh (change e))
    → ((x : NodeEntry) → (change x).node ≡ x.node)
    → IsSound l
    → Keeps l (record l { nodes = update_entry test change l.nodes; active_queries = active })
settled test change l e active h a f n i =
    let attempts' =
      sum-update_entry (λ e. attempts_of e.state e.timeouts) test change l.nodes e h in
    record {
      sound = record { all_fresh = update_entry-All IsFresh test change l.nodes e h f i.all_fresh };
      bound = omega (arith, attempts', a);
      entries = nodes_of-update_entry test change l.nodes n;
      target = refl;
    }

pub mark_responded-Keeps :
    (endpoint : Endpoint) (l : NodeLookup) (e : NodeEntry)
    → find_entry (at_endpoint endpoint) l.nodes ≡ some e
    → IsSound l
    → Keeps l (mark_responded endpoint l)
unfolding mark_responded
mark_responded-Keeps endpoint l e h i =
    settled (at_endpoint endpoint) (set_state responded) l e _ h (omega arith) (λ f. refl)
      (λ x. refl) i

pub mark_timed_out-Keeps :
    (id : NodeId) (l : NodeLookup) (e : NodeEntry)
    → find_entry (has_id id) l.nodes ≡ some e
    → e.state ≡ queried
    → IsSound l
    → Keeps l (mark_timed_out id l)
unfolding mark_timed_out
mark_timed_out-Keeps id l e h q i =
    settled (has_id id) time_out l e _ h (ground (arith, q)) (λ f. ground (arith, q, f)) (λ x. refl)
      i
