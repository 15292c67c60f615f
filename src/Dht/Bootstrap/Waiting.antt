-- ===== src/Dht/Bootstrap/Waiting.antt =====
-- When `wait_for_completion` may return.
use dht_hunter.Base.{
  ℕ, zero, suc, ◌+◌, ◌-◌, ◌%◌, ◌^◌, ◌≡◌, refl, ap, subst, true, ◌==◌, if◌then◌else◌, arith,
}
use dht_hunter.Dht.Bootstrap.{
  Bootstrap, create_bootstrap, random_lookups, count_lookup, end_lookup, State, started, begins,
  ends, Reach, here, onwards,
}

end_lookup-complete :
    (b : Bootstrap) (r : ℕ) → b.active_lookups ≡ suc r → r ≡ 0 → (end_lookup b).complete ≡ true
unfolding end_lookup
end_lookup-complete b r counts e =
    let last : (b.active_lookups + (2 ^ 64 - 1)) % 2 ^ 64 ≡ 0 = omega arith in
    ap (λ x. if x == 0 then true else b.complete) last

begin_all :
    (s : State) (n : ℕ) (b : Bootstrap) (r steps : ℕ)
    → Reach s steps (record { bootstrap = b; to_begin = n; running = r })
    → b.complete ≡ true
    → (more : ℕ) × (t : State) × Reach s more t
      × (t.bootstrap.complete ≡ true)
      × (t.to_begin ≡ 0)
      × (t.running ≡ n + r)
unfolding count_lookup
begin_all s zero b r steps path complete =
    (steps, record { bootstrap = b; to_begin = 0; running = r }, path, complete, refl, omega arith)
begin_all s (suc n) b r steps path complete =
    let (more, t, later, is_complete, begun, run) =
      begin_all s n (count_lookup b) (suc r) (suc steps) (onwards path begins) complete in
    (more, t, later, is_complete, begun, omega (arith, run))

initial : ℕ → State
initial total = record { bootstrap = create_bootstrap; to_begin = total; running = 0 }

complete_from :
    (m : ℕ)
    → (steps : ℕ) × (s : State) × Reach (initial (suc m)) steps s
      × (s.bootstrap.complete ≡ true)
      × (s.to_begin ≡ 0)
      × (s.running ≡ m)
unfolding initial count_lookup
complete_from m =
    let counted : (count_lookup create_bootstrap).active_lookups ≡ 1 = omega arith in
    let (steps, s, path, complete, begun, run) =
      begin_all (initial (suc m)) m (end_lookup (count_lookup create_bootstrap)) 0 2
        (onwards (onwards here begins) ends)
        (end_lookup-complete (count_lookup create_bootstrap) 0 counted refl) in
    (steps, s, path, complete, begun, omega (arith, run))

-- The bootstrap may be complete too early: with any number `n` of bootstrap nodes, a run leads to a
-- state in which it is complete, `start` has begun all n + 3 threads and waits no longer, and all of
-- them but one still run. This is so where the first thread ends before the second begins.
pub complete_early :
    (nodes : ℕ)
    → (steps : ℕ) × (s : State) × Reach (started nodes) steps s
      × (s.bootstrap.complete ≡ true)
      × (s.to_begin ≡ 0)
      × (s.running ≡ nodes + 2)
unfolding started initial
complete_early nodes =
    let same : suc (nodes + 2) ≡ nodes + random_lookups = omega arith in
    subst
      (λ total.
        (steps : ℕ) × (s : State) × Reach (initial total) steps s
        × (s.bootstrap.complete ≡ true)
        × (s.to_begin ≡ 0)
        × (s.running ≡ nodes + 2))
      same (complete_from (nodes + 2))
