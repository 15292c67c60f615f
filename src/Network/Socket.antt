-- ===== src/Network/Socket.antt =====
-- modules/network/src/socket.cpp: the descriptors that sockets own. The objects of a program are a
-- list, and an object is its descriptor; one that is destroyed stays in the list without one. A
-- close of a descriptor that is not open is counted as a fault. Which descriptor the system gives
-- out is a parameter.
pub mod Owners
pub mod Tests
use dht_hunter.Base.{
  ℕ, zero, suc, Bool, true, false, ◌||◌, ◌==◌, if◌then◌else◌, List, [], ◌∷◌, Option, none, some,
  get_elem?, set,
}

pub record System : Type 0 where
  pub descriptors : List ℕ
  pub faults : ℕ

pub record Sockets : Type 0 where
  pub system : System
  pub objects : List (Option ℕ)

abbrev pub no_sockets : Sockets
no_sockets = record { system = record { descriptors = []; faults = 0 }; objects = [] }

unfoldable pub is_open : ℕ → List ℕ → Bool
is_open d [] = false
is_open d (e ∷ descriptors) = e == d || is_open d descriptors

unfoldable pub remove_open : ℕ → List ℕ → List ℕ
remove_open d [] = []
remove_open d (e ∷ descriptors) = if e == d then descriptors else e ∷ remove_open d descriptors

-- The system's close.
unfoldable pub close_descriptor : ℕ → System → System
unfolding is_open remove_open
close_descriptor d s =
    if is_open d s.descriptors
    then record s { descriptors = remove_open d s.descriptors }
    else record s { faults = suc s.faults }

-- `Socket::close`, but for the assignment of -1.
abbrev pub close_valid : Option ℕ → System → System
close_valid none s = s
close_valid (some d) s = close_descriptor d s

abbrev pub with_socket : Option (Option ℕ) → (Option ℕ → Sockets) → Sockets → Sockets
with_socket none f s = s
with_socket (some o) f s = f o

-- The constructor; where the system gives no descriptor it throws, and there is no object.
abbrev pub created : Option ℕ → Sockets → Sockets
created none s = s
created (some d) s = record {
  system = record s.system { descriptors = d ∷ s.system.descriptors };
  objects = some d ∷ s.objects;
}

-- `close`, which the destructor calls as well.
unfoldable pub close_socket : ℕ → Sockets → Sockets
unfolding close_descriptor
close_socket i s =
    with_socket (get_elem? s.objects i)
      (λ o. record { system = close_valid o s.system; objects = set s.objects i none }) s

unfoldable pub move_construct : ℕ → Sockets → Sockets
move_construct j s =
    with_socket (get_elem? s.objects j) (λ o. record s { objects = o ∷ set s.objects j none }) s

unfoldable pub move_assign : ℕ → ℕ → Sockets → Sockets
unfolding close_descriptor
move_assign i j s =
    if i == j
    then s
    else with_socket (get_elem? s.objects i)
        (λ o.
          with_socket (get_elem? s.objects j)
            (λ p. record {
              system = close_valid o s.system;
              objects = set (set s.objects i p) j none;
            })
            s)
        s

pub data Call : Type 0 where
  create : Call
  close move_from : ℕ → Call
  assign_from : ℕ → ℕ → Call

module _ (fresh : List ℕ → Option ℕ) where
  unfoldable pub perform_call : Call → Sockets → Sockets
  unfolding close_socket move_construct move_assign
  perform_call create s = created (fresh s.system.descriptors) s
  perform_call (close i) s = close_socket i s
  perform_call (move_from j) s = move_construct j s
  perform_call (assign_from i j) s = move_assign i j s

  unfoldable pub perform_calls : List Call → Sockets → Sockets
  unfolding perform_call
  perform_calls [] s = s
  perform_calls (c ∷ calls) s = perform_calls calls (perform_call c s)
