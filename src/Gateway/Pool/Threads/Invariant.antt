-- ===== src/Gateway/Pool/Threads/Invariant.antt =====
-- What holds of a pool and its requests at every moment, and how locking and updating an instance
-- bear on it.
use cfunc.Base.{
  ℕ, suc, ◌+◌, ◌≤◌, ◌<◌, ◌≡◌, ◌≢◌, refl, ap, Bool, true, false, List, [], ◌∷◌, ◌++◌, none, some,
  All, length, tally, nat_beq, if◌then◌else◌, arith, inl, inr, Bool-cases, Option-cases, nat_eq,
  ◌==◌, ◌∙◌, sym, All-append, tally-le,
}
use cfunc.Gateway.Pool.{
  Pool, ManagedInstance, locked, try_lock, update_at, reap_scan, roll_up, roll_one,
}
use cfunc.Gateway.Pool.Threads.{Thread, waiting, spawning, unlocked, holding, System, broadcast}

abbrev pub holds : ℕ → Thread → ℕ
holds id (holding j) = if nat_beq j id then 1 else 0
holds id _ = 0

abbrev pub spawns : Thread → ℕ
spawns spawning = 1
spawns _ = 0

abbrev pub waits : Thread → ℕ
waits waiting = 1
waits _ = 0

-- Requests that will broadcast when they are done.
abbrev pub is_active : Thread → ℕ
is_active spawning = 1
is_active unlocked = 1
is_active (holding id) = 1
is_active _ = 0

abbrev pub flag : Bool → ℕ
flag true = 1
flag false = 0

-- An instance is locked exactly while one request holds it, and its address was given out.
abbrev pub Held : ℕ → List Thread → ManagedInstance → Type 0
Held next ts mi = (mi.id < next) × (tally (holds mi.id) ts ≡ flag mi.busy)

abbrev pub DistinctIds : List ManagedInstance → Type 0
DistinctIds [] = Unit
DistinctIds (mi ∷ rest) = All (λ mj. mj.id ≢ mi.id) rest × DistinctIds rest

pub record Inv (s : System) : Type 0 where
  -- The pool is within its size, the spawns under way counted.
  pub bounded : length s.pool.instances + s.pool.spawning ≤ s.pool.max_size
  pub positive : 0 < s.pool.max_size
  -- `spawning` is the number of requests that are spawning.
  pub counted : s.pool.spawning ≡ tally spawns s.threads
  pub held : All (Held s.next_id s.threads) s.pool.instances
  pub distinct : DistinctIds s.pool.instances
  -- No instance is held twice.
  pub exclusive : (id : ℕ) → tally (holds id) s.threads ≤ 1
  pub unused : (id : ℕ) → s.next_id ≤ id → tally (holds id) s.threads ≡ 0
  -- While a request waits, another is under way that will broadcast.
  pub live : 0 < tally waits s.threads → 0 < tally is_active s.threads

module _ (P : ManagedInstance → Type 0) where
  -- try_lock takes an instance that was free.
  pub try_lock-free :
      (is : List ManagedInstance) {mi : ManagedInstance} {is' : List ManagedInstance}
      → All P is
      → try_lock is ≡ some (mi, is')
      → (mj : ManagedInstance) × (mi ≡ locked mj) × (mj.busy ≡ false) × P mj
  unfolding try_lock
  try_lock-free [] a h = cc
  try_lock-free (mk ∷ is) {mi} a h = elim (Bool-cases mk.busy) [
    | inl e ↦ elim (Option-cases (try_lock is)) [
      | inl e' ↦ ground arith
      | inr ((mf, rest), e') ↦
          let same : (mf ≡ mi) = ground arith in
          let (mj, is_locked, free, p) = try_lock-free is a.1 e' in
          (mj, sym same ∙ is_locked, free, p)
    ]
    | inr e ↦ (mk, ground arith, e, a.0)
  ]

-- It fails only where every instance is locked.
pub try_lock-none : (is : List ManagedInstance) → try_lock is ≡ none → All (λ mi. mi.busy ≡ true) is
unfolding try_lock
try_lock-none [] h = tt
try_lock-none (mk ∷ is) h = elim (Bool-cases mk.busy) [
  | inl e ↦ elim (Option-cases (try_lock is)) [
    | inl e' ↦ (e, try_lock-none is e')
    | inr ((mf, rest), e') ↦ ground arith
  ]
  | inr e ↦ ground arith
]

update_absent :
    (id : ℕ) (f : ManagedInstance → ManagedInstance) (is : List ManagedInstance)
    → All (λ mj. mj.id ≢ id) is
    → update_at id f is ≡ is
unfolding update_at
update_absent id f [] a = refl
update_absent id f (mi ∷ is) a = ground (arith, update_absent id f is a.1)

try_lock-ne :
    (id : ℕ) (is : List ManagedInstance) {mi : ManagedInstance} {is' : List ManagedInstance}
    → All (λ mj. mj.id ≢ id) is
    → try_lock is ≡ some (mi, is')
    → mi.id ≢ id
try_lock-ne id is {mi} a h =
    let (mj, same, free, ne) = try_lock-free (λ mj. mj.id ≢ id) is a h in
    λ e. ne (sym (ap (λ (m : ManagedInstance). m.id) same) ∙ e)

-- It changes that instance and no other.
pub try_lock-update :
    (is : List ManagedInstance) {mi : ManagedInstance} {is' : List ManagedInstance}
    → DistinctIds is
    → try_lock is ≡ some (mi, is')
    → is' ≡ update_at mi.id locked is
unfolding try_lock update_at
try_lock-update [] d h = cc
try_lock-update (mk ∷ is) {mi} {is'} d h = elim (Bool-cases mk.busy) [
  | inl e ↦ elim (Option-cases (try_lock is)) [
    | inl e' ↦ ground arith
    | inr ((mf, rest), e') ↦
        let ih = try_lock-update is d.1 e' in
        let ne = try_lock-ne mk.id is d.0 e' in ground (arith, ih, ne)
  ]
  | inr e ↦ ground (arith, update_absent mk.id locked is d.0)
]

pub length-update_at :
    (id : ℕ) (f : ManagedInstance → ManagedInstance) (is : List ManagedInstance)
    → length (update_at id f is) ≡ length is
unfolding update_at
length-update_at id f [] = refl
length-update_at id f (mi ∷ is) = ap suc (length-update_at id f is)

module _ (id : ℕ) (f : ManagedInstance → ManagedInstance) where
  pub update-All :
      (P Q : ManagedInstance → Type 0)
      → ((mi : ManagedInstance) → mi.id ≡ id → P mi → Q (f mi))
      → ((mi : ManagedInstance) → mi.id ≢ id → P mi → Q mi)
      → (is : List ManagedInstance) → All P is
      → All Q (update_at id f is)
  unfolding update_at
  update-All P Q hit miss [] a = tt
  update-All P Q hit miss (mi ∷ is) a = elim (Bool-cases (mi.id == id)) [
    | inl e ↦ rw e (hit mi (ground arith) a.0, update-All P Q hit miss is a.1)
    | inr e ↦ rw e (miss mi (ground arith) a.0, update-All P Q hit miss is a.1)
  ]

  pub update-DistinctIds :
      ((mi : ManagedInstance) → (f mi).id ≡ mi.id)
      → (is : List ManagedInstance) → DistinctIds is
      → DistinctIds (update_at id f is)
  unfolding update_at
  update-DistinctIds keeps [] d = tt
  update-DistinctIds keeps (mi ∷ is) d = elim (Bool-cases (mi.id == id)) [
    | inl e ↦ rw e (rw (keeps mi) (away), update-DistinctIds keeps is d.1)
    | inr e ↦ rw e (away, update-DistinctIds keeps is d.1)
  ]
    where
      away : All (λ mj. mj.id ≢ mi.id) (update_at id f is)
      away =
          update-All (λ mj. mj.id ≢ mi.id) (λ mj. mj.id ≢ mi.id)
            (λ mk _ n e. n (sym (keeps mk) ∙ e)) (λ mk _ n. n) is d.0

pub All-imp {ℓ} :
    {A : Type ℓ} (P Q : A → Type 0) → ((x : A) → P x → Q x) → (xs : List A) → All P xs → All Q xs
All-imp P Q h [] a = tt
All-imp P Q h (x ∷ xs) a = (h x a.0, All-imp P Q h xs a.1)

pub DistinctIds-append :
    (is : List ManagedInstance) (mi : ManagedInstance)
    → DistinctIds is
    → All (λ mj. mj.id ≢ mi.id) is
    → DistinctIds (is ++ mi ∷ [])
DistinctIds-append [] mi d a = (tt, tt)
DistinctIds-append (mk ∷ is) mi d a = (
  All-append (λ mj. mj.id ≢ mk.id) is (mi ∷ []) d.0 ((λ e. a.0 (sym e)), tt),
  DistinctIds-append is mi d.1 a.1,
)

-- What stays of a reaper's scan has the properties that the list had.
module _ (now ttl : ℕ) where
  pub reap_scan-All :
      (P : ManagedInstance → Type 0) (is : List ManagedInstance)
      → All P is
      → All P (reap_scan now ttl is).0
  unfolding reap_scan
  reap_scan-All P [] a = tt
  reap_scan-All P (mi ∷ is) a = ground (arith, reap_scan-All P is a.1)

  pub reap_scan-DistinctIds :
      (is : List ManagedInstance) → DistinctIds is → DistinctIds (reap_scan now ttl is).0
  unfolding reap_scan
  reap_scan-DistinctIds [] d = tt
  reap_scan-DistinctIds (mi ∷ is) d =
      ground (arith, reap_scan-DistinctIds is d.1, reap_scan-All (λ mj. mj.id ≢ mi.id) is d.0)

  pub length-reap_scan : (is : List ManagedInstance) → length (reap_scan now ttl is).0 ≤ length is
  unfolding reap_scan
  length-reap_scan [] = omega arith
  length-reap_scan (mi ∷ is) = ground (arith, length-reap_scan is)

-- A broadcast moves the waiting requests and no other.
pub holds-broadcast :
    (id : ℕ) (ts : List Thread) → tally (holds id) (broadcast ts) ≡ tally (holds id) ts
holds-broadcast id [] = refl
holds-broadcast id (waiting ∷ ts) = omega (arith, holds-broadcast id ts)
holds-broadcast id (t ∷ ts) = ap (λ n. holds id t + n) (holds-broadcast id ts)

pub spawns-broadcast : (ts : List Thread) → tally spawns (broadcast ts) ≡ tally spawns ts
spawns-broadcast [] = refl
spawns-broadcast (waiting ∷ ts) = omega (arith, spawns-broadcast ts)
spawns-broadcast (t ∷ ts) = ap (λ n. spawns t + n) (spawns-broadcast ts)

pub waits-broadcast : (ts : List Thread) → tally waits (broadcast ts) ≡ 0
waits-broadcast [] = refl
waits-broadcast (waiting ∷ ts) = omega (arith, waits-broadcast ts)
waits-broadcast (t ∷ ts) = omega (arith, waits-broadcast ts)

pub roll_up_keeps :
    (p : Pool) (is : List ManagedInstance)
    → ((roll_up p is).spawning ≡ p.spawning) × ((roll_up p is).max_size ≡ p.max_size)
unfolding roll_up
roll_up_keeps p [] = (refl, refl)
roll_up_keeps p (mi ∷ is) = roll_up_keeps (roll_one p mi) is

-- A locked instance is in the hands of a request that will broadcast.
pub busy-is_active :
    (next : ℕ) (ts : List Thread) (mi : ManagedInstance)
    → Held next ts mi
    → mi.busy ≡ true
    → 0 < tally is_active ts
busy-is_active next ts mi h e =
    omega (arith, rw e at h.1, tally-le (holds mi.id) is_active ts (holds-le mi.id))
  where
    holds-le : (id : ℕ) (t : Thread) → holds id t ≤ is_active t
    holds-le id (holding j) = ground arith
    holds-le id t = omega arith
