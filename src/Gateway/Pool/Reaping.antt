-- ===== src/Gateway/Pool/Reaping.antt =====
-- The reaper's pass over one pool: which instances it takes, and that no count is lost.
use cfunc.Base.{
  ℕ, ltb, nat_beq, if◌then◌else◌, ◌+◌, ◌%◌, ◌^◌, ◌≡◌, refl, Bool, not, ◌||◌, List, [], ◌∷◌, map,
  keep, tally, arith,
}
use cfunc.Gateway.Pool.{
  Pool, ManagedInstance, locked, reap, reap_scan, roll_up, roll_one, last_used,
}

-- In use, or used within the window before `now`; an instance that was never used counts from its
-- creation.
abbrev pub stays : ℕ → ℕ → ManagedInstance → Bool
stays now ttl mi =
    mi.busy
    || (if nat_beq mi.last_used_ns 0
        then ltb now (mi.created + ttl)
        else ltb now (mi.last_used_ns + ttl))

reap_scan-keep :
    (now ttl : ℕ) (is : List ManagedInstance) → (reap_scan now ttl is).0 ≡ keep (stays now ttl) is
unfolding reap_scan last_used
reap_scan-keep now ttl [] = refl
reap_scan-keep now ttl (mi ∷ is) = ground (arith, reap_scan-keep now ttl is)

reap_scan-victims :
    (now ttl : ℕ) (is : List ManagedInstance)
    → (reap_scan now ttl is).1 ≡ map locked (keep (λ mi. not (stays now ttl mi)) is)
unfolding reap_scan last_used
reap_scan-victims now ttl [] = refl
reap_scan-victims now ttl (mi ∷ is) = ground (arith, reap_scan-victims now ttl is)

-- The pass keeps, in order, the instances that are in use or whose last use, or creation where they
-- were never used, is less than the window ago, and takes all others, locked so that no request can
-- get them.
pub reap_splits :
    (p : Pool) (now ttl : ℕ)
    → ((reap p now ttl).2.instances ≡ keep (stays now ttl) p.instances)
      × ((reap p now ttl).0 ≡ map locked (keep (λ mi. not (stays now ttl mi)) p.instances))
unfolding reap
reap_splits p now ttl = (reap_scan-keep now ttl p.instances, reap_scan-victims now ttl p.instances)

-- What a pool has counted in all, as a uint64: its instances and its lifetime total.
abbrev pub counted_by : (ManagedInstance → ℕ) → ℕ → List ManagedInstance → ℕ
counted_by f lifetime is = (lifetime + tally f is) % 2 ^ 64

pub tally-split :
    (f : ManagedInstance → ℕ) (now ttl : ℕ) (is : List ManagedInstance)
    → ((mi : ManagedInstance) → f (locked mi) ≡ f mi)
    → tally f (reap_scan now ttl is).0 + tally f (reap_scan now ttl is).1 ≡ tally f is
unfolding reap_scan
tally-split f now ttl [] same = refl
tally-split f now ttl (mi ∷ is) same = ground (arith, tally-split f now ttl is same, same mi)

roll_up-invokes :
    (p : Pool) (is : List ManagedInstance) (rest : ℕ)
    → ((roll_up p is).lifetime_invokes + rest) % 2 ^ 64
      ≡ (p.lifetime_invokes + (tally (λ mi. mi.invokes) is + rest)) % 2 ^ 64
unfolding roll_up
roll_up-invokes p [] rest = omega arith
roll_up-invokes p (mi ∷ is) rest = omega (arith, roll_up-invokes (roll_one p mi) is rest)

roll_up-errors :
    (p : Pool) (is : List ManagedInstance) (rest : ℕ)
    → ((roll_up p is).lifetime_errors + rest) % 2 ^ 64
      ≡ (p.lifetime_errors + (tally (λ mi. mi.errors) is + rest)) % 2 ^ 64
unfolding roll_up
roll_up-errors p [] rest = omega arith
roll_up-errors p (mi ∷ is) rest = omega (arith, roll_up-errors (roll_one p mi) is rest)

-- The pass loses no count: the calls and the errors that the dashboard adds up for a pool, over its
-- instances and its lifetime totals, are the same uint64 before and after.
pub reap_conserves :
    (p : Pool) (now ttl : ℕ)
    → let q = (reap p now ttl).2 in
      (counted_by (λ mi. mi.invokes) q.lifetime_invokes q.instances
        ≡ counted_by (λ mi. mi.invokes) p.lifetime_invokes p.instances)
      × (counted_by (λ mi. mi.errors) q.lifetime_errors q.instances
          ≡ counted_by (λ mi. mi.errors) p.lifetime_errors p.instances)
unfolding reap
reap_conserves p now ttl = (
  omega (
    arith,
    roll_up-invokes p (reap_scan now ttl p.instances).1
        (tally (λ (mi : ManagedInstance). mi.invokes) (reap_scan now ttl p.instances).0),
    tally-split (λ mi. mi.invokes) now ttl p.instances (λ mi. refl),
  ),
  omega (
    arith,
    roll_up-errors p (reap_scan now ttl p.instances).1
        (tally (λ (mi : ManagedInstance). mi.errors) (reap_scan now ttl p.instances).0),
    tally-split (λ mi. mi.errors) now ttl p.instances (λ mi. refl),
  ),
)
