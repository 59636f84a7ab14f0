-- ===== src/Gateway/Pool/Threads.antt =====
-- Requests at one pool, the reaper and closeAll, interleaved. A request goes through acquire and
-- its release function (internal/gateway/gateway.go); each action is one critical section.
pub mod Invariant
pub mod Requests
pub mod Steps
use cfunc.Base.{
  ℕ, ◌+◌, Bool, true, false, List, [], ◌∷◌, ◌++◌, map, Option, none, some, get_elem?, set,
  if◌then◌else◌,
}
use cfunc.Gateway.Pool.{
  Pool, Spawned, ManagedInstance, Attempt, leased, must_spawn, must_wait, new_pool, attempt,
  spawn_failed, spawn_done, unlock, close_all, reap,
}

-- `trying` is in the loop of acquire, `waiting` in cond.Wait, `spawning` resolves layers or spawns
-- outside the mutex, `holding` has an instance, and `unlocked` has freed its instance and not yet
-- broadcast.
pub data Thread : Type 0 where
  trying waiting spawning unlocked finished : Thread
  holding : ℕ → Thread

pub record System : Type 0 where
  pub pool : Pool
  pub next_id : ℕ
  pub threads : List Thread

abbrev pub start : ℕ → System
start max_size = record { pool = new_pool max_size; next_id = 0; threads = [] }

-- cond.Broadcast
abbrev pub wake : Thread → Thread
wake waiting = trying
wake t = t

abbrev pub broadcast : List Thread → List Thread
broadcast = map wake

pub data Action : Type 0 where
  -- A request arrives.
  arrive : Action
  -- Request `i` goes once round the loop of acquire.
  look : ℕ → Action
  -- Its spawn succeeds at a time, or it or the layer resolution before it fails.
  spawned : ℕ → Spawned → ℕ → Action
  failed : ℕ → Action
  -- Its release function frees the instance, and then broadcasts.
  free : ℕ → Action
  notify : ℕ → Action
  -- The reaper's pass, at a time and with an idle window; and closeAll.
  reaper : ℕ → ℕ → Action
  closing : Action

abbrev looked : System → ℕ → Attempt × Pool → System
looked s i (leased mi, p) = record s { pool = p; threads = set s.threads i (holding mi.id) }
looked s i (must_spawn, p) = record s { pool = p; threads = set s.threads i spawning }
looked s i (must_wait, p) = record s { pool = p; threads = set s.threads i waiting }

abbrev reaped : System → List ManagedInstance × Bool × Pool → System
reaped s (victims, woken, p) = record s {
  pool = p;
  threads = if woken then broadcast s.threads else s.threads;
}

-- An action of a request that is not at that point changes nothing.
abbrev act : System → Action → ℕ → Option Thread → System
act s (look _) i (some trying) = looked s i (attempt s.pool)
act s (spawned _ inst now) i (some spawning) = record s {
  pool = (spawn_done s.pool s.next_id inst now).1;
  next_id = s.next_id + 1;
  threads = set s.threads i (holding s.next_id);
}
act s (failed _) i (some spawning) = record s {
  pool = spawn_failed s.pool;
  threads = broadcast (set s.threads i finished);
}
act s (free _) i (some (holding id)) = record s {
  pool = unlock s.pool id;
  threads = set s.threads i unlocked;
}
act s (notify _) i (some unlocked) = record s { threads = broadcast (set s.threads i finished) }
act s _ i _ = s

pub step : System → Action → System
step s arrive = record s { threads = s.threads ++ trying ∷ [] }
step s (look i) = act s (look i) i (get_elem? s.threads i)
step s (spawned i inst now) = act s (spawned i inst now) i (get_elem? s.threads i)
step s (failed i) = act s (failed i) i (get_elem? s.threads i)
step s (free i) = act s (free i) i (get_elem? s.threads i)
step s (notify i) = act s (notify i) i (get_elem? s.threads i)
step s (reaper now ttl) = reaped s (reap s.pool now ttl)
step s closing = record s { pool = (close_all s.pool).1 }

pub run : System → List Action → System
run s [] = s
run s (a ∷ actions) = run (step s a) actions
