-- ===== src/Gateway/Lifecycle/Examples.antt =====
-- The gateway from start to Close on a small run.
use cfunc.Base.{◌≡◌, ◌+◌, refl, lit, [], ◌∷◌, List, pos}
use cfunc.Gateway.Pool.{Spawned, ManagedInstance}
use cfunc.Gateway.Registry.{FunctionDef, Gateway, new_gateway}
use cfunc.Gateway.Lifecycle.{close_gateway}
use cfunc.Gateway.Lifecycle.Traces.{
  Step, run_all, puts, finds, leases, spawns, spawns_late, releases, reaps, times, made_by,
  missed_by,
}
use cfunc.Gateway.Lifecycle.Closed.{close_gateway-Closes}

abbrev hello : FunctionDef
hello = record {
  name = lit "hello";
  binary = lit "/bin/hello";
  env = [];
  layers = [];
  max_concurrency = pos 2;
  project = [];
}

abbrev process : Spawned
process = record { mode = lit "process"; cold_start = 5 }

-- Instance 1 is reaped. Instance 2 is spawned for the pool that the second registration replaces,
-- and instance 3 for the new one.
abbrev steps : List Step
steps =
    puts hello
    ∷ finds (lit "hello")
    ∷ leases (lit "hello")
    ∷ spawns (lit "hello") 1 process 10
    ∷ releases (lit "hello") 1
    ∷ reaps 100 20
    ∷ leases (lit "hello")
    ∷ puts hello
    ∷ spawns_late 2
    ∷ finds (lit "hello")
    ∷ leases (lit "hello")
    ∷ spawns (lit "hello") 3 process 110
    ∷ []

close_gateway-Closes_example :
    let g = close_gateway (run_all new_gateway steps) in
    (g.pools ≡ []) × (times 2 g.closing + missed_by 2 new_gateway steps ≡ made_by 2 steps)
close_gateway-Closes_example = close_gateway-Closes 2 steps

-- What Close leaves of the run: instances 1 and 3 are closed, and instance 2 never is.
late_is_not_closed :
    let g = close_gateway (run_all new_gateway steps) in
    (times 1 g.closing ≡ 1) × (times 2 g.closing ≡ 0) × (times 3 g.closing ≡ 1)
unfolding close_gateway run_all cfunc.Gateway.Lifecycle.Traces.step
    cfunc.Gateway.Lifecycle.Traces.on_pool cfunc.Base.get cfunc.Gateway.Registry.find_pool
    cfunc.Gateway.Registry.apply_put cfunc.Base.put cfunc.Gateway.Lifecycle.reap_once
    cfunc.Gateway.Lifecycle.reap_pools cfunc.Base.str_beq cfunc.Base.remove cfunc.Gateway.Pool.reap
    cfunc.Gateway.Pool.reap_scan cfunc.Gateway.Pool.unlock cfunc.Gateway.Pool.update_at
    cfunc.Gateway.Pool.spawn_done cfunc.Base.add64 cfunc.Base.wrap64
    cfunc.Gateway.Lifecycle.close_pools cfunc.Gateway.Pool.attempt cfunc.Gateway.Pool.close_all
    cfunc.Gateway.Pool.last_used cfunc.Gateway.Pool.new_pool cfunc.Gateway.Pool.roll_up
    cfunc.Gateway.Pool.spawn_failed cfunc.Gateway.Pool.try_lock
late_is_not_closed = (refl, refl, refl)
