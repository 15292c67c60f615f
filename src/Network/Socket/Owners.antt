-- ===== src/Network/Socket/Owners.antt =====
-- Who owns the open descriptors.
use dht_hunter.Base.{
  ℕ, zero, suc, ◌+◌, ◌<◌, ◌≤◌, ◌≡◌, ◌≢◌, refl, subst, ◌∙◌, inl, inr, true, false, ◌==◌, ==_iff,
  if◌then◌else◌, List, [], ◌∷◌, Option, none, some, Bool-cases, get_elem?, set, get_elem?-set_ne,
  arith,
}
use dht_hunter.Network.Socket.{
  System, Sockets, no_sockets, is_open, remove_open, close_descriptor, close_valid, with_socket,
  created, close_socket, move_construct, move_assign, Call, create, close, move_from, assign_from,
  perform_call, perform_calls,
}

abbrev pub occurs : ℕ → List ℕ → ℕ
occurs d [] = 0
occurs d (e ∷ descriptors) = (if e == d then 1 else 0) + occurs d descriptors

abbrev pub holds : ℕ → Option ℕ → ℕ
holds d none = 0
holds d (some e) = if e == d then 1 else 0

-- How many objects hold `d`.
abbrev pub owners : ℕ → List (Option ℕ) → ℕ
owners d [] = 0
owners d (o ∷ objects) = holds d o + owners d objects

owners-set :
    (d i : ℕ) (v o : Option ℕ) (objects : List (Option ℕ))
    → get_elem? objects i ≡ some o
    → owners d (set objects i v) + holds d o ≡ owners d objects + holds d v
owners-set d i v o [] e = cc
owners-set d zero v o (p ∷ objects) e =
    let same : p ≡ o = cc in
    subst
      (λ o. (holds d v + owners d objects) + holds d o ≡ (holds d p + owners d objects) + holds d v)
      same (omega arith)
owners-set d (suc i) v o (p ∷ objects) e = omega (arith, owners-set d i v o objects e)

owners_le :
    (d i : ℕ) (o : Option ℕ) (objects : List (Option ℕ))
    → get_elem? objects i ≡ some o
    → holds d o ≤ owners d objects
owners_le d i o objects e = omega (arith, owners-set d i none o objects e)

holds_self : (e : ℕ) → holds e (some e) ≡ 1
holds_self e = ground arith

is_open-occurs :
    (d : ℕ) (descriptors : List ℕ) → 0 < occurs d descriptors → is_open d descriptors ≡ true
unfolding is_open
is_open-occurs d [] h = absurd (omega arith)
is_open-occurs d (e ∷ descriptors) h = ground (arith, is_open-occurs d descriptors)

occurs-closed :
    (d : ℕ) (descriptors : List ℕ) → is_open d descriptors ≡ false → occurs d descriptors ≡ 0
unfolding is_open
occurs-closed d [] h = refl
occurs-closed d (e ∷ descriptors) h = ground (arith, occurs-closed d descriptors)

occurs-remove_open :
    (d e : ℕ) (descriptors : List ℕ)
    → is_open e descriptors ≡ true
    → occurs d (remove_open e descriptors) + holds d (some e) ≡ occurs d descriptors
unfolding is_open remove_open
occurs-remove_open d e [] h = cc
occurs-remove_open d e (x ∷ descriptors) h = elim (Bool-cases (x == e)) [
  | inl k ↦ rw k (
      subst
        (λ y.
          occurs d descriptors + holds d (some y)
          ≡ (if x == d then 1 else 0) + occurs d descriptors)
        ((==_iff x e).0 k) (omega arith))
  | inr k ↦ rw k (omega (arith, occurs-remove_open d e descriptors (ground (arith, h, k))))
]

-- Each descriptor that is open belongs to one object, and no other was closed.
pub record IsOwned (s : Sockets) : Type 0 where
  pub same : (d : ℕ) → occurs d s.system.descriptors ≡ owners d s.objects
  pub single : (d : ℕ) → occurs d s.system.descriptors ≤ 1
  pub safe : s.system.faults ≡ 0

record Closed (o : Option ℕ) (before after : System) : Type 0 where
  taken : (d : ℕ) → occurs d after.descriptors + holds d o ≡ occurs d before.descriptors
  no_fault : after.faults ≡ before.faults

close_valid-Closed :
    (o : Option ℕ) (s : System)
    → ((d : ℕ) → holds d o ≤ occurs d s.descriptors)
    → Closed o s (close_valid o s)
unfolding close_descriptor
close_valid-Closed none s held = record { taken = λ d. omega arith; no_fault = refl }
close_valid-Closed (some e) s held =
    let here = is_open-occurs e s.descriptors (omega (arith, held e, holds_self e)) in
    rw (here) (record { taken = λ d. occurs-remove_open d e s.descriptors here; no_fault = refl })

created-IsOwned :
    (s : Sockets) (o : Option ℕ)
    → IsOwned s
    → ((d : ℕ) → o ≡ some d → is_open d s.system.descriptors ≡ false)
    → IsOwned (created o s)
created-IsOwned s none owned new = owned
created-IsOwned s (some d) owned new =
    let absent = occurs-closed d s.system.descriptors (new d refl) in
    record {
      same = λ x. omega (arith, owned.same x);
      single = λ x. elim (Bool-cases (d == x)) [
        | inl h ↦
            rw h
              (subst (λ y. 1 + occurs y s.system.descriptors ≤ 1) ((==_iff d x).0 h) (omega arith))
        | inr h ↦ rw h (omega (arith, owned.single x))
      ];
      safe = owned.safe;
    }

module _ (s : Sockets) (owned : IsOwned s) where
  close_held :
      (i : ℕ) (o : Option ℕ)
      → get_elem? s.objects i ≡ some o
      → Closed o s.system (close_valid o s.system)
  close_held i o e =
      close_valid-Closed o s.system (λ d. omega (arith, owners_le d i o s.objects e, owned.same d))

  close_socket-IsOwned :
      (i : ℕ) (found : Option (Option ℕ))
      → get_elem? s.objects i ≡ found
      → IsOwned (
          with_socket found
            (λ o. record { system = close_valid o s.system; objects = set s.objects i none })
            s)
  close_socket-IsOwned i none e = owned
  close_socket-IsOwned i (some o) e =
      let c = close_held i o e in
      record {
        same = λ d. omega (arith, c.taken d, owners-set d i none o s.objects e, owned.same d);
        single = λ d. omega (arith, c.taken d, owned.single d);
        safe = c.no_fault ∙ owned.safe;
      }

  move_construct-IsOwned :
      (j : ℕ) (found : Option (Option ℕ))
      → get_elem? s.objects j ≡ found
      → IsOwned (with_socket found (λ o. record s { objects = o ∷ set s.objects j none }) s)
  move_construct-IsOwned j none e = owned
  move_construct-IsOwned j (some o) e = record {
    same = λ d. omega (arith, owners-set d j none o s.objects e, owned.same d);
    single = owned.single;
    safe = owned.safe;
  }

  assigned :
      (i j : ℕ) (o p : Option ℕ)
      → i ≢ j
      → get_elem? s.objects i ≡ some o
      → get_elem? s.objects j ≡ some p
      → IsOwned
          (record { system = close_valid o s.system; objects = set (set s.objects i p) j none })
  assigned i j o p ne e e' =
      let c = close_held i o e in
      let still = get_elem?-set_ne s.objects p ne ∙ e' in
      record {
        same = λ d. omega (
          arith,
          c.taken d,
          owners-set d i p o s.objects e,
          owners-set d j none p (set s.objects i p) still,
          owned.same d,
        );
        single = λ d. omega (arith, c.taken d, owned.single d);
        safe = c.no_fault ∙ owned.safe;
      }

  move_assign-IsOwned :
      (i j : ℕ) (to from : Option (Option ℕ))
      → i ≢ j
      → get_elem? s.objects i ≡ to
      → get_elem? s.objects j ≡ from
      → IsOwned (
          with_socket to
            (λ o.
              with_socket from
                (λ p. record {
                  system = close_valid o s.system;
                  objects = set (set s.objects i p) j none;
                })
                s)
            s)
  move_assign-IsOwned i j none from ne e e' = owned
  move_assign-IsOwned i j (some o) none ne e e' = owned
  move_assign-IsOwned i j (some o) (some p) ne e e' = assigned i j o p ne e e'

-- The system gives out a descriptor that is not open.
abbrev pub IsFresh : (List ℕ → Option ℕ) → Type 0
IsFresh fresh =
    (descriptors : List ℕ) (d : ℕ) → fresh descriptors ≡ some d → is_open d descriptors ≡ false

module _ (fresh : List ℕ → Option ℕ) (new : IsFresh fresh) where
  perform_call-IsOwned : (c : Call) (s : Sockets) → IsOwned s → IsOwned (perform_call fresh c s)
  unfolding perform_call close_socket move_construct move_assign
  perform_call-IsOwned create s owned =
      created-IsOwned s (fresh s.system.descriptors) owned (new s.system.descriptors)
  perform_call-IsOwned (close i) s owned =
      close_socket-IsOwned s owned i (get_elem? s.objects i) refl
  perform_call-IsOwned (move_from j) s owned =
      move_construct-IsOwned s owned j (get_elem? s.objects j) refl
  perform_call-IsOwned (assign_from i j) s owned = elim (Bool-cases (i == j)) [
    | inl h ↦ rw h owned
    | inr h ↦ rw h (
        move_assign-IsOwned s owned i j (get_elem? s.objects i) (get_elem? s.objects j)
          (λ e. ground (arith, h, e)) refl refl)
  ]

  perform_calls-IsOwned :
      (calls : List Call) (s : Sockets) → IsOwned s → IsOwned (perform_calls fresh calls s)
  unfolding perform_calls
  perform_calls-IsOwned [] s owned = owned
  perform_calls-IsOwned (c ∷ calls) s owned =
      perform_calls-IsOwned calls (perform_call fresh c s) (perform_call-IsOwned c s owned)

  -- No descriptor leaks, and none is closed twice. After any sequence of constructions, moves, closes
  -- and destructions of sockets, each descriptor is open exactly as often as objects own it, which is
  -- once at most, and no close has met a descriptor that was not open. The system gives out
  -- descriptors that are not open.
  pub sockets-IsOwned : (calls : List Call) → IsOwned (perform_calls fresh calls no_sockets)
  sockets-IsOwned calls =
      perform_calls-IsOwned calls no_sockets
        (record { same = λ d. refl; single = λ d. omega arith; safe = refl })
