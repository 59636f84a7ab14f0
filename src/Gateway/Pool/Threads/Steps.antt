-- ===== src/Gateway/Pool/Threads/Steps.antt =====
-- Every action keeps the invariant of the pool and its requests.
use cfunc.Base.{
  ℕ, ◌+◌, ◌-◌, ◌<◌, ◌≡◌, refl, ◌∙◌, Bool, true, false, List, [], ◌∷◌, ◌++◌, Option, some, length,
  get_elem?, tally-set, tally-append, if◌then◌else◌, arith, inl, inr, Bool-cases, Option-cases,
  nat_eq, ltb,
}
use cfunc.Gateway.Pool.{try_lock, attempt, spawn_failed, close_all, reap, reap_scan, new_pool}
use cfunc.Gateway.Pool.Threads.{
  Thread, trying, spawning, unlocked, finished, holding, System, Action, arrive, look, spawned,
  failed, free, notify, reaper, closing, step, run, start, act, looked, reaped, broadcast,
}
use cfunc.Gateway.Pool.Threads.Invariant.{
  holds, spawns, waits, is_active, Held, Inv, All-imp, reap_scan-All, reap_scan-DistinctIds,
  length-reap_scan, holds-broadcast, spawns-broadcast, waits-broadcast, roll_up_keeps,
}
use cfunc.Gateway.Pool.Threads.Requests.{
  leased-Inv, must_spawn-Inv, must_wait-Inv, ended-Inv, spawned-Inv, freed-Inv,
}

module _ (s : System) (v : Inv s) where
  arrive-Inv : Inv (record s { threads = s.threads ++ trying ∷ [] })
  arrive-Inv = record {
    bounded = v.bounded;
    positive = v.positive;
    counted = omega (arith, v.counted, tally-append spawns s.threads (trying ∷ []));
    held =
        All-imp (Held s.next_id s.threads) _
          (λ mi h. (h.0, omega (arith, h.1, tally-append (holds mi.id) s.threads (trying ∷ []))))
          s.pool.instances v.held;
    distinct = v.distinct;
    exclusive =
        λ id. omega (arith, v.exclusive id, tally-append (holds id) s.threads (trying ∷ []));
    unused = λ id h. omega (arith, v.unused id h, tally-append (holds id) s.threads (trying ∷ []));
    live = λ h. omega (
      arith,
      tally-append is_active s.threads (trying ∷ []),
      v.live (omega (arith, h, tally-append waits s.threads (trying ∷ []))),
    );
  }

  closing-Inv : Inv (record s { pool = (close_all s.pool).1 })
  unfolding close_all
  closing-Inv = record {
    bounded = omega (arith, v.bounded);
    positive = v.positive;
    counted = v.counted;
    held = tt;
    distinct = tt;
    exclusive = v.exclusive;
    unused = v.unused;
    live = v.live;
  }

  broadcast-Inv : Inv (record s { threads = broadcast s.threads })
  broadcast-Inv = record {
    bounded = v.bounded;
    positive = v.positive;
    counted = omega (arith, v.counted, spawns-broadcast s.threads);
    held =
        All-imp (Held s.next_id s.threads) (Held s.next_id (broadcast s.threads))
          (λ mi h. (h.0, holds-broadcast mi.id s.threads ∙ h.1)) s.pool.instances v.held;
    distinct = v.distinct;
    exclusive = λ id. rw (holds-broadcast id s.threads) (v.exclusive id);
    unused = λ id h. holds-broadcast id s.threads ∙ v.unused id h;
    live = λ h. absurd (omega (arith, waits-broadcast s.threads));
  }

  swept-Inv : (now ttl : ℕ) → Inv (record s { pool = (reap s.pool now ttl).2 })
  unfolding reap
  swept-Inv now ttl =
      let (kept_spawning, kept_size) =
        roll_up_keeps s.pool (reap_scan now ttl s.pool.instances).1 in
      record {
        bounded =
            rw (kept_spawning, kept_size)
              (omega (arith, v.bounded, length-reap_scan now ttl s.pool.instances));
        positive = rw kept_size v.positive;
        counted = kept_spawning ∙ v.counted;
        held = reap_scan-All now ttl (Held s.next_id s.threads) s.pool.instances v.held;
        distinct = reap_scan-DistinctIds now ttl s.pool.instances v.distinct;
        exclusive = v.exclusive;
        unused = v.unused;
        live = v.live;
      }

wake_if-Inv :
    (b : Bool) (s : System)
    → Inv s
    → Inv (record s { threads = if b then broadcast s.threads else s.threads })
wake_if-Inv true s v = broadcast-Inv s v
wake_if-Inv false s v = v

reaper-Inv : (s : System) → Inv s → (now ttl : ℕ) → Inv (reaped s (reap s.pool now ttl))
reaper-Inv s v now ttl =
    let (victims, woken, p) = reap s.pool now ttl in
    wake_if-Inv woken (record s { pool = p }) (swept-Inv s v now ttl)

look-Inv :
    (s : System) (i : ℕ)
    → Inv s
    → get_elem? s.threads i ≡ some trying
    → Inv (looked s i (attempt s.pool))
unfolding attempt
look-Inv s i v at = elim (Option-cases (try_lock s.pool.instances)) [
  | inl none_free ↦
      elim (Bool-cases (ltb (length s.pool.instances + s.pool.spawning) s.pool.max_size)) [
        | inl room ↦ rw (none_free, attempt, room) (must_spawn-Inv s v i at (ground arith))
        | inr full ↦ rw (none_free, attempt, full) (must_wait-Inv s v i at none_free (ground arith))
      ]
  | inr ((mi, is), found) ↦ rw (found, attempt) (leased-Inv s v i mi is at found)
]

act-Inv :
    (s : System) (a : Action) (i : ℕ) (t : Option Thread)
    → Inv s
    → get_elem? s.threads i ≡ t
    → Inv (act s a i t)
unfolding spawn_failed
act-Inv s (look j) i (some trying) v at = look-Inv s i v at
act-Inv s (spawned j inst now) i (some spawning) v at = spawned-Inv s v i inst now at
act-Inv s (failed j) i (some spawning) v at =
    ended-Inv s v i spawning at (λ id. refl) (s.pool.spawning - 1)
      (omega (arith, v.counted, tally-set spawns s.threads i spawning finished at))
act-Inv s (free j) i (some (holding id)) v at = freed-Inv s v i id at
act-Inv s (notify j) i (some unlocked) v at =
    ended-Inv s v i unlocked at (λ id. refl) s.pool.spawning (omega arith)
act-Inv s a i t v at = v

step-Inv : (s : System) (a : Action) → Inv s → Inv (step s a)
unfolding step
step-Inv s arrive v = arrive-Inv s v
step-Inv s (look i) v = act-Inv s (look i) i _ v refl
step-Inv s (spawned i inst now) v = act-Inv s (spawned i inst now) i _ v refl
step-Inv s (failed i) v = act-Inv s (failed i) i _ v refl
step-Inv s (free i) v = act-Inv s (free i) i _ v refl
step-Inv s (notify i) v = act-Inv s (notify i) i _ v refl
step-Inv s (reaper now ttl) v = reaper-Inv s v now ttl
step-Inv s closing v = closing-Inv s v

run-Inv : (s : System) (actions : List Action) → Inv s → Inv (run s actions)
unfolding run
run-Inv s [] v = v
run-Inv s (a ∷ actions) v = run-Inv (step s a) actions (step-Inv s a v)

start-Inv : (max_size : ℕ) → 0 < max_size → Inv (start max_size)
unfolding new_pool
start-Inv max_size h = record {
  bounded = omega arith;
  positive = h;
  counted = refl;
  held = tt;
  distinct = tt;
  exclusive = λ id. omega arith;
  unused = λ id h. refl;
  live = λ h. absurd (omega arith);
}

-- Whatever requests, reaper passes and closings interleave at a pool of a positive size: the
-- instances and the spawns under way are within the size, an instance of the pool is locked exactly
-- while one request holds it, no instance is held by two, and while a request waits another one is
-- under way that will wake it.
pub run-start-Inv :
    (max_size : ℕ) (actions : List Action) → 0 < max_size → Inv (run (start max_size) actions)
run-start-Inv max_size actions h = run-Inv (start max_size) actions (start-Inv max_size h)
