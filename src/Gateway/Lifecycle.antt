-- ===== src/Gateway/Lifecycle.antt =====
-- The gateway from its start to Close (internal/gateway/gateway.go): the options, registration as
-- the system, the watcher's loop, the reaper's pass over all pools, and Close.
pub mod Traces
pub mod Counted
pub mod Closed
pub mod Watched
mod Examples
use cfunc.Base.{
  ℕ, Bool, List, [], ◌∷◌, ◌++◌, Option, none, some, Str, lit, Map, nat_eq, ◌==◌, if◌then◌else◌,
  Result, ok, err, ◌*◌, ◌^◌, get, put, str_eq, pos,
}
use cfunc.State.Data.{StoreError, Event}
use cfunc.State.Iface.{FunctionStore}
use cfunc.Gateway.Pool.{Pool, ManagedInstance, close_all, reap}
use cfunc.Gateway.Registry.{
  Gateway, FunctionDef, RegisterError, new_gateway, register_def_as, unregister_as, apply_event,
  bootstrap_cache_from_store,
}

-- The options that are durations, in nanoseconds.
pub record Options : Type 0 where
  pub idle_ttl : ℕ
  pub reap_interval : ℕ

abbrev pub default_idle_ttl : ℕ
default_idle_ttl = 30 * 10 ^ 9

abbrev pub default_reap_interval : ℕ
default_reap_interval = 5 * 10 ^ 9

abbrev pub options_or_default : Options → Options
options_or_default opts = record {
  idle_ttl = if opts.idle_ttl == 0 then default_idle_ttl else opts.idle_ttl;
  reap_interval = if opts.reap_interval == 0 then default_reap_interval else opts.reap_interval;
}

-- reapOnce: the pools one after the other, then the victims of all of them are closed.
unfoldable pub reap_pools : Map Str Pool → ℕ → ℕ → List ManagedInstance × Map Str Pool
reap_pools [] now ttl = ([], [])
reap_pools ((name, p) ∷ rest) now ttl =
    let more = reap_pools rest now ttl in
    ((reap p now ttl).0 ++ more.0, (name, (reap p now ttl).2) ∷ more.1)

unfoldable pub reap_once : Gateway → ℕ → ℕ → Gateway
reap_once g now ttl = record g {
  pools = (reap_pools g.pools now ttl).1;
  closing = g.closing ++ (reap_pools g.pools now ttl).0;
}

-- Close: the pools are taken off the gateway, then closed one after the other.
unfoldable pub close_pools : Map Str Pool → List ManagedInstance
close_pools [] = []
close_pools ((name, p) ∷ rest) = (close_all p).0 ++ close_pools rest

unfoldable pub close_gateway : Gateway → Gateway
close_gateway g = record g { pools = []; closing = g.closing ++ close_pools g.pools }

-- What the watcher's select takes next: the stop, the end of the channel, or an event, with the
-- store as the lookup for that event finds it.
pub data Arrival (S : Type 0) : Type 0 where
  stopped closed : Arrival S
  arrived : S → Event → Arrival S

module _ {S : Type 0} (store : FunctionStore S) where
  unfoldable pub watch_loop : Gateway → List (Arrival S) → Gateway
  watch_loop g [] = g
  watch_loop g (stopped ∷ rest) = g
  watch_loop g (closed ∷ rest) = g
  watch_loop g (arrived s ev ∷ rest) = watch_loop (apply_event store g s ev) rest

  abbrev pub watch_store : Gateway → Result StoreError (List (Arrival S)) → Gateway
  watch_store g (err e) = g
  watch_store g (ok arrivals) = watch_loop g arrivals

  abbrev pub new_with_options : S → Options → Options × Gateway
  new_with_options s opts =
      (options_or_default opts, bootstrap_cache_from_store store new_gateway s)

  abbrev pub register_def : Gateway → S → ℕ → FunctionDef → Option RegisterError × Gateway × S
  register_def g s now def = register_def_as store g s now def (lit "system")

  abbrev pub or_panic : Option RegisterError × Gateway × S → Result RegisterError (Gateway × S)
  or_panic (some e, g, s) = err e
  or_panic (none, g, s) = ok (g, s)

  -- An error is a panic.
  abbrev pub register : Gateway → S → ℕ → Str → Str → Result RegisterError (Gateway × S)
  register g s now name binary = or_panic (
      register_def g s now (record {
        name = name;
        binary = binary;
        env = [];
        layers = [];
        max_concurrency = pos 0;
        project = [];
      }))

  abbrev pub unregister : Gateway → S → ℕ → Str → Bool × Gateway × S
  unregister g s now name = unregister_as store g s now name (lit "system")
