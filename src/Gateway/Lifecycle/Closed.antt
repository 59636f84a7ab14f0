-- ===== src/Gateway/Lifecycle/Closed.antt =====
-- What becomes of the instances that the gateway spawns.
use cfunc.Base.{
  pos_part, Option-cases, inl, inr, ℕ, ◌+◌, ◌≡◌, refl, List, [], ◌∷◌, none, Str, Map, get, arith,
  str_eq, nat_eq, Distinct, put-Distinct, remove-Distinct,
}
use cfunc.Gateway.Pool.{Pool, attempt, spawn_failed, unlock, count_invoke, count_error, new_pool}
use cfunc.Gateway.Registry.{Gateway, new_gateway, apply_put, apply_delete, find_pool}
use cfunc.Gateway.Lifecycle.Traces.{
  Step, step, puts, deletes, finds, leases, fails_to_spawn, reaps, spawns, spawns_late, releases,
  counts_error, counts_invoke, found, run_all, made, missed, made_by, missed_by, times,
}
use cfunc.Gateway.Lifecycle.{reap_once, reap_pools, close_gateway, close_pools}
use cfunc.Gateway.Lifecycle.Counted.{
  known, times-append, times-attempt, times-update_at, known-drop, known-reap_once,
  times-close_pools, known-same, known-spawns, known-finds, Distinct-on_pool,
}

known-step :
    (id : ℕ) (g : Gateway) (s : Step)
    → Distinct g.pools
    → known id (step g s) + missed id g s ≡ known id g + made id s
unfolding step apply_put apply_delete unlock count_invoke count_error spawn_failed
known-step id g (puts def) d = omega (arith, known-drop id g def.name d)
known-step id g (deletes name) d = omega (arith, known-drop id g name d)
known-step id g (finds name) d = omega (arith, known-finds id g name)
known-step id g (leases name) d =
    omega (arith, known-same id g name (λ p. (attempt p).1) (times-attempt id))
known-step id g (fails_to_spawn name) d =
    omega (arith, known-same id g name spawn_failed (λ p. refl))
known-step id g (reaps now ttl) d = omega (arith, known-reap_once id g now ttl)
known-step id g (spawns name j inst now) d = known-spawns id g name j inst now
known-step id g (spawns_late j) d = refl
known-step id g (releases name j) d = omega (
  arith,
  known-same id g name (λ p. unlock p j) (λ p. times-update_at id j _ p.instances (λ mi. refl)),
)
known-step id g (counts_error name j) d = omega (
  arith,
  known-same id g name (λ p. count_error p j)
      (λ p. times-update_at id j _ p.instances (λ mi. refl)),
)
known-step id g (counts_invoke name j now dur) d = omega (
  arith,
  known-same id g name (λ p. count_invoke p j now dur)
      (λ p. times-update_at id j _ p.instances (λ mi. refl)),
)

get-reap_pools :
    (pools : Map Str Pool) (now ttl : ℕ) (name : Str)
    → get pools name ≡ none
    → get (reap_pools pools now ttl).1 name ≡ none
unfolding reap_pools get
get-reap_pools [] now ttl name absent = refl
get-reap_pools ((k, p) ∷ rest) now ttl name absent =
    ground (arith, get-reap_pools rest now ttl name)

reap_pools-Distinct :
    (pools : Map Str Pool) (now ttl : ℕ) → Distinct pools → Distinct (reap_pools pools now ttl).1
unfolding reap_pools
reap_pools-Distinct [] now ttl d = tt
reap_pools-Distinct ((k, p) ∷ rest) now ttl d =
    (get-reap_pools rest now ttl k d.0, reap_pools-Distinct rest now ttl d.1)

find_pool-Distinct :
    (g : Gateway) (name : Str) → Distinct g.pools → Distinct (found g (find_pool g name)).pools
unfolding find_pool
find_pool-Distinct g name d = elim (Option-cases (get g.functions name)) [
  | inl unknown ↦ rw (find_pool, unknown) d
  | inr (def, has_def) ↦ elim (Option-cases (get g.pools name)) [
    | inl absent ↦
        rw (find_pool, has_def, absent)
          (put-Distinct g.pools name (new_pool (pos_part def.max_concurrency)) d)
    | inr (p, present) ↦ rw (find_pool, has_def, present) d
  ]
]

step-Distinct : (g : Gateway) (s : Step) → Distinct g.pools → Distinct (step g s).pools
unfolding step apply_put apply_delete reap_once
step-Distinct g (puts def) d = remove-Distinct g.pools def.name d
step-Distinct g (deletes name) d = remove-Distinct g.pools name d
step-Distinct g (finds name) d = find_pool-Distinct g name d
step-Distinct g (leases name) d = Distinct-on_pool g name _ d
step-Distinct g (fails_to_spawn name) d = Distinct-on_pool g name _ d
step-Distinct g (reaps now ttl) d = reap_pools-Distinct g.pools now ttl d
step-Distinct g (spawns name j inst now) d = Distinct-on_pool g name _ d
step-Distinct g (spawns_late j) d = d
step-Distinct g (releases name j) d = Distinct-on_pool g name _ d
step-Distinct g (counts_error name j) d = Distinct-on_pool g name _ d
step-Distinct g (counts_invoke name j now dur) d = Distinct-on_pool g name _ d

known-run_all :
    (id : ℕ) (g : Gateway) (steps : List Step)
    → Distinct g.pools
    → known id (run_all g steps) + missed_by id g steps ≡ known id g + made_by id steps
unfolding run_all missed_by
known-run_all id g [] d = refl
known-run_all id g (s ∷ steps) d =
    omega (arith, known-step id g s d, known-run_all id (step g s) steps (step-Distinct g s d))

-- From its start, whatever requests, registrations, events and reaper passes come before, a gateway
-- that Close has stopped has no pools and has closed every instance as often as it was spawned,
-- save those spawned for a pool that had left the gateway.
pub close_gateway-Closes :
    (id : ℕ) (steps : List Step)
    → let g = close_gateway (run_all new_gateway steps) in
      (g.pools ≡ []) × (times id g.closing + missed_by id new_gateway steps ≡ made_by id steps)
unfolding close_gateway
close_gateway-Closes id steps =
    let g = run_all new_gateway steps in
    (
      refl,
      omega (
        arith,
        known-run_all id new_gateway steps tt,
        times-close_pools id g.pools,
        times-append id g.closing (close_pools g.pools),
      ),
    )
