-- ===== src/Gateway/Examples.antt =====
-- The gateway on small inputs.
use cfunc.State.InMem.Functions.{stored_at}
use cfunc.Base.{
  ◌≡◌, ◌≢◌, ◌↔◌, ◌⊎◌, ◌++◌, inl, inr, refl, Str, lit, List, [], ◌∷◌, Option, none, some, ok, err, ℕ,
  ℤ, pos, Result, true, false, get, str_eq, ◌==◌, if◌then◌else◌, ◌&&◌, map, keep, not, ltb, length,
  arith,
}
use cfunc.State.Data
use cfunc.State.Data.{not_found, Event, function_put, function_delete, cron_put}
use cfunc.State.InMem
use cfunc.State.InMem.{InMemStore, new_in_mem_store}
use cfunc.State.Iface.{in_mem_functions}
use cfunc.Auth.{Identity}
use cfunc.Quota.{Limiter, read}
use cfunc.Names.{is_valid_function_name}
use cfunc.Gateway.Path.{parse_function_path, Route, parse_function_path_iff}
use cfunc.Gateway.Pool.{Pool, ManagedInstance, new_pool, reap, locked, update_at}
use cfunc.Gateway.Pool.Reaping.{stays, counted_by, reap_splits, reap_conserves}
use cfunc.Gateway.Pool.Threads.{start, run, Action, arrive, look, spawned, free, notify, reaper}
use cfunc.Gateway.Pool.Threads.Invariant.{Inv}
use cfunc.Gateway.Pool.Threads.Steps.{run-start-Inv}
use cfunc.Gateway.Registry.{Gateway, FunctionDef, new_gateway, apply_put}
use cfunc.Gateway.Registry.Synced.{IsKeyed, cached, put_function-IsKeyed}
use cfunc.Gateway.Lifecycle.{watch_loop, arrived, stopped}
use cfunc.Gateway.Lifecycle.Watched.{watch_loop-CatchesUp, followed_by}
use cfunc.Gateway.Serve.{
  admit, admitted, Admission, owner, Reply, result_reply, Response, answer, serve_leased,
  max_request_body,
}
use cfunc.Gateway.Stats.{function_stats}
use cfunc.Gateway.Stats.Counts.{function_stats-reap}
use cfunc.Gateway.Serve.Guards.{IsAllowed, Counts, HasRoom, admit_iff}
use cfunc.Gateway.Serve.Replies.{served, serve_leased-update, InRange, answer-InRange, Asks, is_ok}

parse_function_path_iff_example :
    (parse_function_path (lit "/v1/blue/fn/hello") ≡ some (lit "blue", lit "hello"))
    ↔ Route (lit "/v1/blue/fn/hello") (lit "blue") (lit "hello")
parse_function_path_iff_example =
    parse_function_path_iff (lit "/v1/blue/fn/hello") (lit "blue") (lit "hello")

-- Two requests at a pool of one instance: the second waits and is woken, and the reaper comes last.
abbrev actions : List Action
actions =
    arrive
    ∷ arrive
    ∷ look 0
    ∷ look 1
    ∷ spawned 0 (record { mode = lit "runc"; cold_start = 9 }) 5
    ∷ free 0
    ∷ notify 0
    ∷ look 1
    ∷ free 1
    ∷ reaper 99 10
    ∷ notify 1
    ∷ []

run-start-Inv_example : Inv (run (start 1) actions)
run-start-Inv_example = run-start-Inv 1 actions (omega arith)

abbrev warm : ManagedInstance
warm = record {
  id = 0;
  inst = record { mode = lit "runc"; cold_start = 9 };
  busy = false;
  created = 1;
  invokes = 3;
  errors = 1;
  total_ns = pos 30;
  last_used_ns = 4;
}

abbrev pool : Pool
pool = record (new_pool 2) { instances = warm ∷ record warm { id = 1; busy = true } ∷ [] }

reap_splits_example :
    ((reap pool 50 10).2.instances ≡ keep (stays 50 10) pool.instances)
    × ((reap pool 50 10).0 ≡ map locked (keep (λ mi. not (stays 50 10 mi)) pool.instances))
reap_splits_example = reap_splits pool 50 10

reap_conserves_example :
    let q = (reap pool 50 10).2 in
    (counted_by (λ mi. mi.invokes) q.lifetime_invokes q.instances
      ≡ counted_by (λ mi. mi.invokes) pool.lifetime_invokes pool.instances)
    × (counted_by (λ mi. mi.errors) q.lifetime_errors q.instances
        ≡ counted_by (λ mi. mi.errors) pool.lifetime_errors pool.instances)
reap_conserves_example = reap_conserves pool 50 10

abbrev hello : FunctionDef
hello = record {
  name = lit "hello";
  binary = lit "/fn/hello";
  env = [];
  layers = [];
  max_concurrency = pos 0;
  project = [];
}

abbrev blue_hello : Data.FunctionDef
blue_hello = record {
  name = lit "hello";
  binary = lit "/fn/hello";
  env = [];
  layers = [];
  max_concurrency = pos 4;
  project = lit "blue";
  updated_at = 0;
}

abbrev stored : InMemStore
stored = InMem.put_function new_in_mem_store 7 blue_hello

abbrev event : Event
event = record { kind = function_put; name = lit "hello" }

empty-IsKeyed : IsKeyed new_in_mem_store
unfolding get InMem.get_function new_in_mem_store
empty-IsKeyed k d found = cc

stored-IsKeyed : IsKeyed stored
stored-IsKeyed = put_function-IsKeyed new_in_mem_store 7 blue_hello empty-IsKeyed

hello_found : InMem.get_function stored (lit "hello") ≡ ok (stored_at 7 blue_hello)
unfolding InMem.get_function get InMem.put_function InMem.broadcast cfunc.Base.put new_in_mem_store
    cfunc.Base.str_beq
hello_found = refl

-- The first event deletes the function, the second brings it back, and the third is about a job.
watch_loop-CatchesUp_example :
    get
      (watch_loop in_mem_functions new_gateway (
        followed_by ((stored, record { kind = function_delete; name = lit "hello" }) ∷ []) (
          arrived stored (record { kind = function_put; name = lit "hello" })
          ∷ arrived stored (record { kind = cron_put; name = lit "hello" })
          ∷ stopped
          ∷ []))).functions
      (lit "hello")
    ≡ cached (InMem.get_function stored (lit "hello"))
watch_loop-CatchesUp_example =
    watch_loop-CatchesUp new_gateway stored (lit "hello")
      ((stored, record { kind = function_delete; name = lit "hello" }) ∷ []) stored function_put
      (arrived stored (record { kind = cron_put; name = lit "hello" }) ∷ stopped ∷ [])
      stored-IsKeyed (stored_at 7 blue_hello, hello_found, hello_found)
      (stored-IsKeyed, (λ e. tt), tt)

abbrev serving : Gateway
serving = apply_put new_gateway (record hello { project = lit "blue" })

abbrev blue_key : Identity
blue_key = record { key_id = lit "ck_1"; project = lit "blue"; scopes = [] }

abbrev red_key : Identity
red_key = record { key_id = lit "ck_2"; project = lit "red"; scopes = [] }

-- Of two requests a minute, one was synced and none has come since.
abbrev with_limit : Limiter
with_limit = record {
  local = [];
  remote = (lit "blue", (lit "requests_per_min", pos 1) ∷ []) ∷ [];
  limits = (lit "blue", (lit "requests_per_min", pos 2) ∷ []) ∷ [];
  last_sync = 0;
}

one_counted : Counts (some with_limit) (owner (get serving.functions (lit "hello"))) 1
unfolding read get apply_put cfunc.Base.put cfunc.Base.str_beq
one_counted = (1, 0, refl, refl, refl, omega arith)

admit_iff_example :
    ((admit serving (some with_limit) blue_key (lit "/v1/blue/fn/hello")).0
      ≡ admitted (lit "hello"))
    ↔ (IsAllowed serving blue_key (lit "/v1/blue/fn/hello") (lit "hello")
        × HasRoom (some with_limit) (owner (get serving.functions (lit "hello"))) 1)
admit_iff_example =
    admit_iff serving (some with_limit) blue_key (lit "/v1/blue/fn/hello") (lit "hello") 1
      one_counted

abbrev counting : Limiter
counting = record { local = []; remote = []; limits = []; last_sync = 0 }

red_is_refused : (admit serving (some counting) red_key (lit "/fn/hello")).0 ≡ Admission.not_found
unfolding admit parse_function_path cfunc.Base.has_prefix is_valid_function_name
    cfunc.Base.trim_prefix cfunc.Base.str_beq get apply_put cfunc.Base.put
red_is_refused = refl

-- A stand-in for the codec: a response of one byte, its status.
abbrev read_status : Str → Result Str Response
read_status [] = err (lit "unexpected end of JSON input")
read_status (s ∷ rest) = ok (record { status = pos s; headers = []; body = rest })

abbrev no_string : Str → Option Str
no_string s = none

abbrev echo : Str → Result Str Reply
echo body = ok (result_reply body)

serve_leased-update_example :
    (serve_leased read_status no_string pool 1 (lit "hi") echo 60 (pos 5)).1 ≡ record pool {
      instances =
          update_at 1
            (served (ltb max_request_body (length (lit "hi"))) (is_ok (echo (lit "hi"))) 60 (pos 5))
            pool.instances;
    }
serve_leased-update_example =
    serve_leased-update read_status no_string pool 1 (lit "hi") echo 60 (pos 5)

-- The status 42 is written as it stands.
answer-InRange_example : InRange (answer read_status no_string (result_reply (42 ∷ []))).status ↔ (
    (r : Response)
    → Asks read_status no_string (result_reply (42 ∷ [])) r
    → (r.status ≡ pos 0) ⊎ InRange r.status)
answer-InRange_example = answer-InRange read_status no_string (result_reply (42 ∷ []))

function_stats-reap_example :
    ((function_stats 60 (lit "hello") hello (some pool)).invokes
      ≡ counted_by (λ mi. mi.invokes) 0 pool.instances)
    × ((function_stats 70 (lit "hello") hello (some (reap pool 50 10).2)).invokes
        ≡ (function_stats 60 (lit "hello") hello (some pool)).invokes)
unfolding new_pool
function_stats-reap_example = function_stats-reap 60 70 50 10 (lit "hello") hello pool (omega arith)
