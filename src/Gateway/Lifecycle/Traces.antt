-- ===== src/Gateway/Lifecycle/Traces.antt =====
-- Sequences of what happens to a gateway from its start: requests, with what they do to the pool
-- that they found, registrations and events, and the reaper.
use cfunc.Base.{
  ℕ, ◌+◌, List, [], ◌∷◌, Option, none, some, Str, get, put, tally, str_eq, nat_eq, ◌==◌,
  if◌then◌else◌, ℤ,
}
use cfunc.Gateway.Pool.{
  Pool, ManagedInstance, Spawned, attempt, spawn_done, spawn_failed, unlock, count_invoke,
  count_error,
}
use cfunc.Gateway.Registry.{Gateway, FunctionDef, apply_put, apply_delete, find_pool}
use cfunc.Gateway.Lifecycle.{reap_once}

-- What a request, the reaper, a registration or an event does to the gateway. `spawns_late` is a
-- spawn for a pool that has left the gateway since acquire found it.
pub data Step : Type 0 where
  puts : FunctionDef → Step
  deletes finds leases fails_to_spawn : Str → Step
  reaps : ℕ → ℕ → Step
  spawns : Str → ℕ → Spawned → ℕ → Step
  spawns_late : ℕ → Step
  releases counts_error : Str → ℕ → Step
  counts_invoke : Str → ℕ → ℕ → ℤ → Step

-- A change of the pool that stands under a name.
unfoldable pub on_pool : Gateway → Str → (Pool → Pool) → Gateway
on_pool g name f = elim (get g.pools name) [
  | none ↦ g
  | some p ↦ record g { pools = put g.pools name (f p) }
]

abbrev pub found : Gateway → Option (FunctionDef × Pool × Gateway) → Gateway
found g none = g
found g (some (def, p, g')) = g'

unfoldable pub step : Gateway → Step → Gateway
step g (puts def) = apply_put g def
step g (deletes name) = apply_delete g name
step g (finds name) = found g (find_pool g name)
step g (leases name) = on_pool g name (λ p. (attempt p).1)
step g (fails_to_spawn name) = on_pool g name spawn_failed
step g (reaps now ttl) = reap_once g now ttl
step g (spawns name id inst now) = on_pool g name (λ p. (spawn_done p id inst now).1)
step g (spawns_late id) = g
step g (releases name id) = on_pool g name (λ p. unlock p id)
step g (counts_error name id) = on_pool g name (λ p. count_error p id)
step g (counts_invoke name id now dur) = on_pool g name (λ p. count_invoke p id now dur)

-- How often an instance's number stands in a list.
abbrev pub times : ℕ → List ManagedInstance → ℕ
times id is = tally (λ mi. if mi.id == id then 1 else 0) is

unfoldable pub run_all : Gateway → List Step → Gateway
run_all g [] = g
run_all g (s ∷ steps) = run_all (step g s) steps

abbrev pub once : ℕ → ℕ → ℕ
once id j = if j == id then 1 else 0

-- How often a step spawns the instance of that number.
abbrev pub made : ℕ → Step → ℕ
made id (spawns name j inst now) = once id j
made id (spawns_late j) = once id j
made id _ = 0

abbrev pub if_missing : ℕ → Option Pool → ℕ
if_missing n none = n
if_missing n (some p) = 0

-- And how often it does so for a pool that the gateway does not have.
abbrev pub missed : ℕ → Gateway → Step → ℕ
missed id g (spawns name j inst now) = if_missing (once id j) (get g.pools name)
missed id g (spawns_late j) = once id j
missed id g _ = 0

abbrev pub made_by : ℕ → List Step → ℕ
made_by id steps = tally (made id) steps

unfoldable pub missed_by : ℕ → Gateway → List Step → ℕ
missed_by id g [] = 0
missed_by id g (s ∷ steps) = missed id g s + missed_by id (step g s) steps
