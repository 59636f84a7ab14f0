-- ===== src/Gateway/Pool.antt =====
-- The pool of warm instances of one function: `pool`, `managedInstance`, acquire, release, closeAll
-- and the pool's part of reapOnce in internal/gateway/gateway.go. Each function below is what the
-- code does while it holds the pool's mutex. Times and durations are in nanoseconds.
pub mod Reaping
pub mod Threads
use cfunc.Base.{
  ℕ, ◌+◌, ◌-◌, ◌%◌, ◌^◌, Bool, true, false, not, List, [], ◌∷◌, ◌++◌, Option, none, some, Str,
  length, ltb, leb, nat_beq, if◌then◌else◌, nat_eq, ◌==◌, ℤ, add64, pos,
}

-- What a spawner hands over (internal/spawn): the mode, and how long the cold start took.
pub record Spawned : Type 0 where
  pub mode : Str
  pub cold_start : ℕ

-- `id` stands for the instance's address, `busy` for its mutex.
pub record ManagedInstance : Type 0 where
  pub id : ℕ
  pub inst : Spawned
  pub busy : Bool
  pub created : ℕ
  pub invokes : ℕ
  pub errors : ℕ
  pub total_ns : ℤ
  pub last_used_ns : ℕ

pub record Pool : Type 0 where
  pub instances : List ManagedInstance
  pub spawning : ℕ
  pub max_size : ℕ
  pub lifetime_invokes : ℕ
  pub lifetime_errors : ℕ
  pub lifetime_total_dur : ℤ

-- uint64 addition.
abbrev pub add_u64 : ℕ → ℕ → ℕ
add_u64 a b = (a + b) % 2 ^ 64

unfoldable pub new_pool : ℕ → Pool
new_pool max_size = record {
  instances = [];
  spawning = 0;
  max_size = max_size;
  lifetime_invokes = 0;
  lifetime_errors = 0;
  lifetime_total_dur = pos 0;
}

unfoldable pub last_used : ManagedInstance → ℕ
last_used mi = if nat_beq mi.last_used_ns 0 then mi.created else mi.last_used_ns

-- The first instance whose mutex is free, locked, and the list with it.
abbrev pub beside :
    ManagedInstance
    → Option (ManagedInstance × List ManagedInstance)
    → Option (ManagedInstance × List ManagedInstance)
beside mi none = none
beside mi (some (found, rest)) = some (found, mi ∷ rest)

abbrev pub locked : ManagedInstance → ManagedInstance
locked mi = record mi { busy = true }

unfoldable pub try_lock : List ManagedInstance → Option (ManagedInstance × List ManagedInstance)
try_lock [] = none
try_lock (mi ∷ rest) =
    if mi.busy then beside mi (try_lock rest) else some (locked mi, locked mi ∷ rest)

-- One round of the loop of acquire: what it found, and the pool after it.
pub data Attempt : Type 0 where
  leased : ManagedInstance → Attempt
  must_spawn must_wait : Attempt

unfoldable pub attempt : Pool → Attempt × Pool
attempt p = elim (try_lock p.instances) [
  | some (mi, instances) ↦ (leased mi, record p { instances = instances })
  | none ↦
      if ltb (length p.instances + p.spawning) p.max_size
      then (must_spawn, record p { spawning = p.spawning + 1 })
      else (must_wait, p)
]

-- Layer resolution or the spawn failed. (The waiters are woken: see Threads.)
unfoldable pub spawn_failed : Pool → Pool
spawn_failed p = record p { spawning = p.spawning - 1 }

-- The spawn succeeded: the new instance is locked before it is shown to the others.
unfoldable pub spawn_done : Pool → ℕ → Spawned → ℕ → ManagedInstance × Pool
spawn_done p id inst now =
    let mi : ManagedInstance = record {
      id = id;
      inst = inst;
      busy = true;
      created = now;
      invokes = 0;
      errors = 0;
      total_ns = pos 0;
      last_used_ns = now;
    } in
    (mi, record p { spawning = p.spawning - 1; instances = p.instances ++ mi ∷ [] })

-- A change to the instance at one address, wherever it stands.
unfoldable pub update_at :
    ℕ → (ManagedInstance → ManagedInstance) → List ManagedInstance → List ManagedInstance
update_at id f [] = []
update_at id f (mi ∷ rest) = (if mi.id == id then f mi else mi) ∷ update_at id f rest

-- `mi.busy.Unlock()` of the release function.
unfoldable pub unlock : Pool → ℕ → Pool
unlock p id = record p { instances = update_at id (λ mi. record mi { busy = false }) p.instances }

-- ServeHTTP's bookkeeping after a call that the instance answered.
unfoldable pub count_invoke : Pool → ℕ → ℕ → ℤ → Pool
count_invoke p id now dur = record p {
  instances =
      update_at id
        (λ mi. record mi {
          last_used_ns = now;
          invokes = add_u64 mi.invokes 1;
          total_ns = add64 mi.total_ns dur;
        })
        p.instances;
}

-- And after one that failed.
unfoldable pub count_error : Pool → ℕ → Pool
count_error p id = record p {
  instances = update_at id (λ mi. record mi { errors = add_u64 mi.errors 1 }) p.instances;
}

-- closeAll: the pool is emptied, and what it held is closed.
unfoldable pub close_all : Pool → List ManagedInstance × Pool
close_all p = (p.instances, record p { instances = [] })

-- `now.Sub(mi.lastUsed()) >= IdleTTL`
abbrev pub is_idle : ℕ → ℕ → ManagedInstance → Bool
is_idle now ttl mi = leb (last_used mi + ttl) now

-- The scan of reapOnce: the instances that stay, and the victims, which stay locked.
unfoldable pub reap_scan :
    ℕ → ℕ → List ManagedInstance → List ManagedInstance × List ManagedInstance
reap_scan now ttl [] = ([], [])
reap_scan now ttl (mi ∷ rest) =
    let (kept, victims) = reap_scan now ttl rest in
    if mi.busy
    then (mi ∷ kept, victims)
    else if is_idle now ttl mi
    then (kept, locked mi ∷ victims)
    else (mi ∷ kept, victims)

-- The victims' counters are rolled into the pool's.
abbrev pub roll_one : Pool → ManagedInstance → Pool
roll_one p mi = record p {
  lifetime_invokes = add_u64 p.lifetime_invokes mi.invokes;
  lifetime_errors = add_u64 p.lifetime_errors mi.errors;
  lifetime_total_dur = add64 p.lifetime_total_dur mi.total_ns;
}

unfoldable pub roll_up : Pool → List ManagedInstance → Pool
roll_up p [] = p
roll_up p (mi ∷ victims) = roll_up (roll_one p mi) victims

-- reapOnce on one pool: the victims, whether the waiters are woken, and the pool.
unfoldable pub reap : Pool → ℕ → ℕ → List ManagedInstance × Bool × Pool
reap p now ttl =
    let (kept, victims) = reap_scan now ttl p.instances in
    let reaped = not (length p.instances == length kept) in
    (victims, reaped, record (roll_up p victims) { instances = kept })
