-- ===== src/Gateway/Lifecycle/Counted.antt =====
-- How often an instance stands in what the gateway knows, under each thing that happens to it.
use cfunc.Base.{
  pos_part, Option-cases, inl, inr, ℕ, ◌+◌, ◌≡◌, refl, List, [], ◌∷◌, ◌++◌, Option, none, some, Str,
  Map, get, remove, tally-append, arith, str_eq, nat_eq, ◌==◌, if◌then◌else◌, Distinct,
  put-Distinct, total, held, total-remove, total-put,
}
use cfunc.Gateway.Pool.{
  Pool, ManagedInstance, Spawned, attempt, spawn_done, reap, update_at, try_lock, close_all, beside,
  new_pool,
}
use cfunc.Gateway.Pool.Reaping.{tally-split}
use cfunc.Gateway.Registry.{Gateway, find_pool, closed_by}
use cfunc.Gateway.Lifecycle.Traces.{
  step, finds, spawns, on_pool, once, made, if_missing, missed, times,
}
use cfunc.Gateway.Lifecycle.{reap_once, reap_pools, close_pools}

pub times-append :
    (id : ℕ) (xs ys : List ManagedInstance) → times id (xs ++ ys) ≡ times id xs + times id ys
times-append id xs ys = tally-append (λ (mi : ManagedInstance). if mi.id == id then 1 else 0) xs ys

abbrev Kept : (ManagedInstance → ManagedInstance) → Type 0
Kept f = (mi : ManagedInstance) → (f mi).id ≡ mi.id

pub times-update_at :
    (id j : ℕ) (f : ManagedInstance → ManagedInstance) (is : List ManagedInstance)
    → Kept f
    → times id (update_at j f is) ≡ times id is
unfolding update_at
times-update_at id j f [] kept = refl
times-update_at id j f (mi ∷ is) kept = ground (arith, kept mi, times-update_at id j f is kept)

-- The list after a lock was tried on it.
abbrev tried :
    List ManagedInstance → Option (ManagedInstance × List ManagedInstance) → List ManagedInstance
tried is none = is
tried is (some (mi, is')) = is'

times-beside :
    (id : ℕ) (mi : ManagedInstance) (is : List ManagedInstance)
    (o : Option (ManagedInstance × List ManagedInstance))
    → times id (tried is o) ≡ times id is
    → times id (tried (mi ∷ is) (beside mi o)) ≡ times id (mi ∷ is)
times-beside id mi is none same = refl
times-beside id mi is (some (mj, is')) same = omega (arith, same)

times-try_lock :
    (id : ℕ) (is : List ManagedInstance) → times id (tried is (try_lock is)) ≡ times id is
unfolding try_lock
times-try_lock id [] = refl
times-try_lock id (mi ∷ is) =
    ground (arith, times-beside id mi is (try_lock is) (times-try_lock id is))

pub times-attempt : (id : ℕ) (p : Pool) → times id (attempt p).1.instances ≡ times id p.instances
unfolding attempt
times-attempt id p = ground (arith, times-try_lock id p.instances)

times-reap :
    (id : ℕ) (p : Pool) (now ttl : ℕ)
    → times id (reap p now ttl).2.instances + times id (reap p now ttl).0 ≡ times id p.instances
unfolding reap
times-reap id p now ttl =
    tally-split (λ mi. if mi.id == id then 1 else 0) now ttl p.instances (λ mi. refl)

-- The instances in the pools of a gateway, and all that it still knows of.
abbrev pub pooled : ℕ → Map Str Pool → ℕ
pooled id pools = total (λ p. times id p.instances) pools

abbrev pub known : ℕ → Gateway → ℕ
known id g = times id g.closing + pooled id g.pools

pooled-reap :
    (id : ℕ) (pools : Map Str Pool) (now ttl : ℕ)
    → pooled id (reap_pools pools now ttl).1 + times id (reap_pools pools now ttl).0
      ≡ pooled id pools
unfolding reap_pools
pooled-reap id [] now ttl = refl
pooled-reap id ((name, p) ∷ rest) now ttl = omega (
  arith,
  times-reap id p now ttl,
  pooled-reap id rest now ttl,
  times-append id (reap p now ttl).0 (reap_pools rest now ttl).0,
)

pub known-reap_once :
    (id : ℕ) (g : Gateway) (now ttl : ℕ) → known id (reap_once g now ttl) ≡ known id g
unfolding reap_once
known-reap_once id g now ttl = omega (
  arith,
  pooled-reap id g.pools now ttl,
  times-append id g.closing (reap_pools g.pools now ttl).0,
)

pub times-close_pools :
    (id : ℕ) (pools : Map Str Pool) → times id (close_pools pools) ≡ pooled id pools
unfolding close_pools close_all
times-close_pools id [] = refl
times-close_pools id ((name, p) ∷ rest) =
    omega (arith, times-close_pools id rest, times-append id p.instances (close_pools rest))

closed_by-held :
    (id : ℕ) (o : Option Pool) → times id (closed_by o) ≡ held (λ p. times id p.instances) o
unfolding close_all
closed_by-held id none = refl
closed_by-held id (some p) = refl

-- What both applyPut and applyDelete do to the pools.
pub known-drop :
    (id : ℕ) (g : Gateway) (name : Str)
    → Distinct g.pools
    → times id (g.closing ++ closed_by (get g.pools name)) + pooled id (remove g.pools name)
      ≡ known id g
known-drop id g name d = omega (
  arith,
  closed_by-held id (get g.pools name),
  total-remove (λ (p : Pool). times id p.instances) g.pools name d,
  times-append id g.closing (closed_by (get g.pools name)),
)

known-on_pool :
    (id n : ℕ) (g : Gateway) (name : Str) (f : Pool → Pool)
    → ((p : Pool) → times id (f p).instances ≡ times id p.instances + n)
    → known id (on_pool g name f) + if_missing n (get g.pools name) ≡ known id g + n
unfolding on_pool
known-on_pool id n g name f grows = elim (Option-cases (get g.pools name)) [
  | inl absent ↦ rw (absent, on_pool) refl
  | inr (p, present) ↦
      let moved = total-put (λ (q : Pool). times id q.instances) g.pools name (f p) in
      let before : held (λ (q : Pool). times id q.instances) (get g.pools name)
          ≡ times id p.instances =
        rw present refl in
      rw (present, on_pool) (omega (arith, grows p, moved, before))
]

pub Distinct-on_pool :
    (g : Gateway) (name : Str) (f : Pool → Pool)
    → Distinct g.pools
    → Distinct (on_pool g name f).pools
unfolding on_pool
Distinct-on_pool g name f d = elim (Option-cases (get g.pools name)) [
  | inl absent ↦ rw (on_pool, absent) d
  | inr (p, present) ↦ rw (on_pool, present) (put-Distinct g.pools name (f p) d)
]

-- A change that leaves the pool's instances as they are, but for their locks and counters.
pub known-same :
    (id : ℕ) (g : Gateway) (name : Str) (f : Pool → Pool)
    → ((p : Pool) → times id (f p).instances ≡ times id p.instances)
    → known id (on_pool g name f) ≡ known id g
known-same id g name f same =
    let none_missing : (o : Option Pool) → if_missing 0 o ≡ 0 = λ o. ground arith in
    omega (
      arith,
      known-on_pool id 0 g name f (λ p. omega (arith, same p)),
      none_missing (get g.pools name),
    )

pub known-spawns :
    (id : ℕ) (g : Gateway) (name : Str) (j : ℕ) (inst : Spawned) (now : ℕ)
    → known id (step g (spawns name j inst now)) + missed id g (spawns name j inst now)
      ≡ known id g + made id (spawns name j inst now)
unfolding step spawn_done
known-spawns id g name j inst now =
    known-on_pool id (once id j) g name (λ p. (spawn_done p j inst now).1)
      (λ p. omega (arith, times-append id p.instances ((spawn_done p j inst now).0 ∷ [])))

pub known-finds : (id : ℕ) (g : Gateway) (name : Str) → known id (step g (finds name)) ≡ known id g
unfolding step find_pool new_pool
known-finds id g name = elim (Option-cases (get g.functions name)) [
  | inl unknown ↦ rw (find_pool, unknown) refl
  | inr (def, has_def) ↦ elim (Option-cases (get g.pools name)) [
    | inl absent ↦
        let moved =
          total-put (λ (q : Pool). times id q.instances) g.pools name
            (new_pool (pos_part def.max_concurrency)) in
        let before : held (λ (q : Pool). times id q.instances) (get g.pools name) ≡ 0 =
          rw absent refl in
        rw (find_pool, has_def, absent) (omega (arith, moved, before))
    | inr (p, present) ↦ rw (find_pool, has_def, present) refl
  ]
]
