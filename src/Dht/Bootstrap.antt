-- ===== src/Dht/Bootstrap.antt =====
-- modules/dht/src/bootstrap.cpp: the counter of running lookups, as a step relation between the
-- thread of `start` and the threads that it makes, which may end in any order. That a thread may end
-- does not say that it does: a lookup's thread uses a lookup that is gone, and may do anything. The
-- messages sent, and the nodes found, are left out.
pub mod Waiting
pub mod Tests
use dht_hunter.Base.{ℕ, zero, suc, ◌+◌, ◌-◌, ◌%◌, ◌^◌, Bool, true, false, ◌==◌, if◌then◌else◌}

pub record Bootstrap : Type 0 where
  pub active_lookups : ℕ
  pub complete : Bool

abbrev pub create_bootstrap : Bootstrap
create_bootstrap = record { active_lookups = 0; complete = false }

abbrev pub random_lookups : ℕ
random_lookups = 3

-- `contact_bootstrap_node` and `perform_random_lookup` count the thread that they make.
unfoldable pub count_lookup : Bootstrap → Bootstrap
count_lookup b = record b { active_lookups = suc b.active_lookups % 2 ^ 64 }

-- The end of each thread, under the mutex.
unfoldable pub end_lookup : Bootstrap → Bootstrap
end_lookup b =
    let left = (b.active_lookups + (2 ^ 64 - 1)) % 2 ^ 64 in
    record { active_lookups = left; complete = if left == 0 then true else b.complete }

-- What `start` has still to begin, and the threads that run.
pub record State : Type 0 where
  pub bootstrap : Bootstrap
  pub to_begin : ℕ
  pub running : ℕ

-- `start`, with the number of bootstrap nodes.
unfoldable pub started : ℕ → State
started nodes = record {
  bootstrap = create_bootstrap;
  to_begin = nodes + random_lookups;
  running = 0;
}

pub data Step : State → State → Type 0 where
  begins :
      {b : Bootstrap} {n r : ℕ}
      → Step
          (record { bootstrap = b; to_begin = suc n; running = r })
          (record { bootstrap = count_lookup b; to_begin = n; running = suc r })
  ends :
      {b : Bootstrap} {n r : ℕ}
      → Step
          (record { bootstrap = b; to_begin = n; running = suc r })
          (record { bootstrap = end_lookup b; to_begin = n; running = r })

-- `steps` steps lead from one state to the other.
pub data Reach (s : State) : ℕ → State → Type 0 where
  here : Reach s 0 s
  onwards : {steps : ℕ} {t u : State} → Reach s steps t → Step t u → Reach s (suc steps) u
