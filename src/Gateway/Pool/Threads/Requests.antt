-- ===== src/Gateway/Pool/Threads/Requests.antt =====
-- Each step of one request keeps the invariant: acquire and its release function.
use cfunc.Base.{
  ℕ, ◌+◌, ◌≤◌, ◌<◌, ◌≡◌, ◌≢◌, refl, ap, subst, sym, ◌∙◌, true, false, List, [], ◌∷◌, none, some,
  All, All-append, length, length-append, get_elem?, set, tally, tally-set, tally-le, arith, nat_eq,
}
use cfunc.Gateway.Pool.{ManagedInstance, Spawned, locked, try_lock, update_at, spawn_done, unlock}
use cfunc.Gateway.Pool.Threads.{
  Thread, trying, waiting, spawning, unlocked, finished, holding, System, broadcast,
}
use cfunc.Gateway.Pool.Threads.Invariant.{
  holds, spawns, waits, is_active, flag, Held, Inv, try_lock-free, try_lock-none, try_lock-update,
  length-update_at, update-All, update-DistinctIds, All-imp, DistinctIds-append, holds-broadcast,
  spawns-broadcast, waits-broadcast, busy-is_active,
}

module _ (s : System) (v : Inv s) (i : ℕ) where
  -- A request takes the lock of a free instance.
  pub leased-Inv :
      (mi : ManagedInstance) (is : List ManagedInstance)
      → get_elem? s.threads i ≡ some trying
      → try_lock s.pool.instances ≡ some (mi, is)
      → Inv (record s {
        pool = record s.pool { instances = is };
        threads = set s.threads i (holding mi.id);
      })
  leased-Inv mi is at found = record {
    bounded = rw update (omega (arith, v.bounded, length-update_at mi.id locked s.pool.instances));
    positive = v.positive;
    counted = omega (arith, v.counted, moved spawns);
    held = rw update (update-All mi.id locked _ _ hit miss s.pool.instances v.held);
    distinct = rw update (update-DistinctIds mi.id locked (λ mk. refl) s.pool.instances v.distinct);
    exclusive = λ id. ground (arith, moved (holds id), v.exclusive id, taken.1);
    unused = λ id h. ground (arith, moved (holds id), v.unused id h, taken.0);
    live = λ h. omega (arith, moved is_active);
  }
    where
      update : is ≡ update_at mi.id locked s.pool.instances
      update = try_lock-update s.pool.instances v.distinct found

      moved :
          (f : Thread → ℕ)
          → tally f (set s.threads i (holding mi.id)) + f trying
            ≡ tally f s.threads + f (holding mi.id)
      moved f = tally-set f s.threads i trying (holding mi.id) at

      taken : (mi.id < s.next_id) × (tally (holds mi.id) s.threads ≡ 0)
      taken =
          let (mj, same, open_lock, held) =
            try_lock-free (Held s.next_id s.threads) s.pool.instances v.held found in
          subst (λ m. (m.id < s.next_id) × (tally (holds m.id) s.threads ≡ 0)) (sym same)
            (held.0, held.1 ∙ ap flag open_lock)

      hit :
          (mk : ManagedInstance)
          → mk.id ≡ mi.id
          → Held s.next_id s.threads mk
          → Held s.next_id (set s.threads i (holding mi.id)) (locked mk)
      hit mk e h = (h.0, ground (arith, moved (holds mk.id), taken.1))

      miss :
          (mk : ManagedInstance)
          → mk.id ≢ mi.id
          → Held s.next_id s.threads mk
          → Held s.next_id (set s.threads i (holding mi.id)) mk
      miss mk e h = (h.0, ground (arith, moved (holds mk.id)))

  -- What the requests hold does not change where one that holds nothing goes on holding nothing.
  module _ (t t' : Thread) (at : get_elem? s.threads i ≡ some t)
      (plain : (id : ℕ) → holds id t ≡ holds id t') where
    same_holds : (id : ℕ) → tally (holds id) (set s.threads i t') ≡ tally (holds id) s.threads
    same_holds id = omega (arith, tally-set (holds id) s.threads i t t' at, plain id)

    same_Held :
        (is : List ManagedInstance)
        → All (Held s.next_id s.threads) is
        → All (Held s.next_id (set s.threads i t')) is
    same_Held =
        All-imp (Held s.next_id s.threads) (Held s.next_id (set s.threads i t'))
          (λ mi h. (h.0, same_holds mi.id ∙ h.1))

  pub must_spawn-Inv :
      get_elem? s.threads i ≡ some trying
      → length s.pool.instances + s.pool.spawning < s.pool.max_size
      → Inv (record s {
        pool = record s.pool { spawning = s.pool.spawning + 1 };
        threads = set s.threads i spawning;
      })
  must_spawn-Inv at room = record {
    bounded = omega arith;
    positive = v.positive;
    counted = omega (arith, v.counted, tally-set spawns s.threads i trying spawning at);
    held = same_Held trying spawning at (λ id. refl) s.pool.instances v.held;
    distinct = v.distinct;
    exclusive = λ id. rw (same_holds trying spawning at (λ id. refl) id) (v.exclusive id);
    unused = λ id h. same_holds trying spawning at (λ id. refl) id ∙ v.unused id h;
    live = λ h. omega (arith, tally-set is_active s.threads i trying spawning at);
  }

  -- A pool that is full and wholly locked has a request under way.
  full-is_active :
      (is : List ManagedInstance)
      → All (Held s.next_id s.threads) is
      → All (λ mi. mi.busy ≡ true) is
      → 0 < length is + s.pool.spawning
      → 0 < tally is_active s.threads
  full-is_active [] held busy h =
      omega (arith, v.counted, tally-le spawns is_active s.threads spawns-le)
    where
      spawns-le : (t : Thread) → spawns t ≤ is_active t
      spawns-le spawning = omega arith
      spawns-le t = omega arith
  full-is_active (mi ∷ is) held busy h = busy-is_active s.next_id s.threads mi held.0 busy.0

  pub must_wait-Inv :
      get_elem? s.threads i ≡ some trying
      → try_lock s.pool.instances ≡ none
      → s.pool.max_size ≤ length s.pool.instances + s.pool.spawning
      → Inv (record s { threads = set s.threads i waiting })
  must_wait-Inv at none_free full = record {
    bounded = v.bounded;
    positive = v.positive;
    counted = omega (arith, v.counted, tally-set spawns s.threads i trying waiting at);
    held = same_Held trying waiting at (λ id. refl) s.pool.instances v.held;
    distinct = v.distinct;
    exclusive = λ id. rw (same_holds trying waiting at (λ id. refl) id) (v.exclusive id);
    unused = λ id h. same_holds trying waiting at (λ id. refl) id ∙ v.unused id h;
    live = λ h. omega (
      arith,
      tally-set is_active s.threads i trying waiting at,
      full-is_active s.pool.instances v.held (try_lock-none s.pool.instances none_free)
          (omega (arith, v.positive)),
    );
  }

  -- A request that ends wakes the waiting ones.
  module _ (t : Thread) (at : get_elem? s.threads i ≡ some t)
      (plain : (id : ℕ) → holds id t ≡ 0) where
    ended :
        (id : ℕ)
        → tally (holds id) (broadcast (set s.threads i finished)) ≡ tally (holds id) s.threads
    ended id = omega (
      arith,
      holds-broadcast id (set s.threads i finished),
      tally-set (holds id) s.threads i t finished at,
      plain id,
    )

    pub ended-Inv :
        (n : ℕ)
        → n + spawns t ≡ s.pool.spawning
        → Inv (record s {
          pool = record s.pool { spawning = n };
          threads = broadcast (set s.threads i finished);
        })
    ended-Inv n left = record {
      bounded = omega (arith, v.bounded);
      positive = v.positive;
      counted = omega (
        arith,
        v.counted,
        spawns-broadcast (set s.threads i finished),
        tally-set spawns s.threads i t finished at,
      );
      held =
          All-imp _ (Held s.next_id (broadcast (set s.threads i finished)))
            (λ mi h. (h.0, ended mi.id ∙ h.1)) s.pool.instances v.held;
      distinct = v.distinct;
      exclusive = λ id. rw (ended id) (v.exclusive id);
      unused = λ id h. ended id ∙ v.unused id h;
      live = λ h. absurd (omega (arith, waits-broadcast (set s.threads i finished)));
    }

  pub spawned-Inv :
      (inst : Spawned) (now : ℕ)
      → get_elem? s.threads i ≡ some spawning
      → Inv (record s {
        pool = (spawn_done s.pool s.next_id inst now).1;
        next_id = s.next_id + 1;
        threads = set s.threads i (holding s.next_id);
      })
  unfolding spawn_done
  spawned-Inv inst now at = record {
    bounded = omega (arith, v.bounded, some_spawn, length-append s.pool.instances (fresh ∷ []));
    positive = v.positive;
    counted = omega (arith, v.counted, moved spawns);
    held =
        All-append (Held (s.next_id + 1) (set s.threads i (holding s.next_id))) s.pool.instances
          (fresh ∷ []) (All-imp (Held s.next_id s.threads) _ older s.pool.instances v.held)
          ((omega arith, ground (arith, moved (holds s.next_id), v.unused s.next_id)), tt);
    distinct = DistinctIds-append s.pool.instances fresh v.distinct (
        All-imp (Held s.next_id s.threads) _ (λ mi h e. omega (arith, h.0)) s.pool.instances
          v.held);
    exclusive = λ id. ground (arith, moved (holds id), v.exclusive id, v.unused id);
    unused = λ id h. ground (arith, moved (holds id), v.unused id);
    live = λ h. omega (arith, moved is_active, v.live (omega (arith, h, moved waits)));
  }
    where
      fresh : ManagedInstance
      fresh = (spawn_done s.pool s.next_id inst now).0

      moved :
          (f : Thread → ℕ)
          → tally f (set s.threads i (holding s.next_id)) + f spawning
            ≡ tally f s.threads + f (holding s.next_id)
      moved f = tally-set f s.threads i spawning (holding s.next_id) at

      some_spawn : 0 < s.pool.spawning
      some_spawn = omega (arith, v.counted, moved spawns)

      older :
          (mi : ManagedInstance)
          → Held s.next_id s.threads mi
          → Held (s.next_id + 1) (set s.threads i (holding s.next_id)) mi
      older mi h = (omega (arith, h.0), ground (arith, moved (holds mi.id), h.0, h.1))

  -- A request frees its instance; it will broadcast.
  pub freed-Inv :
      (id : ℕ)
      → get_elem? s.threads i ≡ some (holding id)
      → Inv (record s { pool = unlock s.pool id; threads = set s.threads i unlocked })
  unfolding unlock
  freed-Inv id at = record {
    bounded =
        omega (
          arith,
          v.bounded,
          length-update_at id (λ mi. record mi { busy = false }) s.pool.instances,
        );
    positive = v.positive;
    counted = omega (arith, v.counted, moved spawns);
    held = update-All id (λ mi. record mi { busy = false }) _ _ hit miss s.pool.instances v.held;
    distinct =
        update-DistinctIds id (λ mi. record mi { busy = false }) (λ mi. refl) s.pool.instances
          v.distinct;
    exclusive = λ j. ground (arith, moved (holds j), v.exclusive j);
    unused = λ j h. ground (arith, moved (holds j), v.unused j h);
    live = λ h. omega (arith, moved is_active, v.live (omega (arith, h, moved waits)));
  }
    where
      moved :
          (f : Thread → ℕ)
          → tally f (set s.threads i unlocked) + f (holding id) ≡ tally f s.threads + f unlocked
      moved f = tally-set f s.threads i (holding id) unlocked at

      hit :
          (mi : ManagedInstance)
          → mi.id ≡ id
          → Held s.next_id s.threads mi
          → Held s.next_id (set s.threads i unlocked) (record mi { busy = false })
      hit mi e h = (h.0, ground (arith, moved (holds mi.id), v.exclusive mi.id))

      miss :
          (mi : ManagedInstance)
          → mi.id ≢ id
          → Held s.next_id s.threads mi
          → Held s.next_id (set s.threads i unlocked) mi
      miss mi e h = (h.0, ground (arith, moved (holds mi.id), h.1))
