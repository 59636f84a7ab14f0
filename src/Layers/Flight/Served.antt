-- ===== src/Layers/Flight/Served.antt =====
-- What holds of the callers of ensureLocal (internal/gateway/layers.go) for one digest at every moment,
-- and which moves of a caller keep it.
use cfunc.Base.{
  zero, suc, ◌≡◌, ◌⊎◌, inl, inr, ℕ, ◌+◌, ◌≤◌, Bool, true, List, [], ◌∷◌, Option, none, some,
  get_elem?, set, contains, if◌then◌else◌, tally, tally-set, All, nat_beq, arith, nat_eq, suc,
}
use cfunc.Layers.Flight.{
  Flight, Caller, asking, locking, waiting, holding, fetching, leaving, closing, returned, at,
}

-- Has the caller the slot, does it pull, and will it close a channel?
abbrev pub has_slot : Caller → ℕ
has_slot (holding _) = 1
has_slot (fetching _) = 1
has_slot (leaving _ _) = 1
has_slot _ = 0

abbrev pub is_fetching : Caller → ℕ
is_fetching (fetching _) = 1
is_fetching _ = 0

abbrev pub count_if : Bool → ℕ
count_if b = if b then 1 else 0

abbrev pub has_channel : ℕ → Caller → ℕ
has_channel c (holding d) = count_if (nat_beq d c)
has_channel c (fetching d) = count_if (nat_beq d c)
has_channel c (leaving d _) = count_if (nat_beq d c)
has_channel c _ = 0

abbrev pub will_close : ℕ → Caller → ℕ
will_close c (closing d _) = count_if (nat_beq d c)
will_close c t = has_channel c t

-- The channel is closed, or a caller under way closes it.
abbrev pub IsServed : List ℕ → List Caller → ℕ → Type 0
IsServed closed callers c = (contains closed c ≡ true) ⊎ (1 ≤ tally (will_close c) callers)

abbrev pub Waits : List ℕ → List Caller → Caller → Type 0
Waits closed callers (waiting c) = IsServed closed callers c
Waits closed callers _ = Unit

-- The slot is taken exactly while one caller has it, by that caller's channel.
abbrev pub IsHeld : Option ℕ → List Caller → Type 0
IsHeld none callers = tally has_slot callers ≡ 0
IsHeld (some c) callers = (tally has_slot callers ≡ 1) × (tally (has_channel c) callers ≡ 1)

pub record IsSingle (s : Flight) : Type 0 where
  pub held : IsHeld s.slot s.callers
  pub idle : s.present ≡ true → tally is_fetching s.callers ≡ 0
  pub once : s.installs ≡ count_if s.present
  pub served : All (Waits s.closed s.callers) s.callers

pub All-map :
    {A : Type 0} (P Q : A → Type 0) (xs : List A) → All P xs → ((x : A) → P x → Q x) → All Q xs
All-map P Q [] a f = tt
All-map P Q (x ∷ xs) a f = (f x a.0, All-map P Q xs a.1 f)

pub All-set-map :
    {A : Type 0} (P Q : A → Type 0) (xs : List A) (i : ℕ) (y : A)
    → All P xs
    → ((x : A) → P x → Q x)
    → Q y
    → All Q (set xs i y)
All-set-map P Q [] i y a f q = tt
All-set-map P Q (x ∷ xs) zero y a f q = (q, All-map P Q xs a.1 f)
All-set-map P Q (x ∷ xs) (suc i) y a f q = (f x a.0, All-set-map P Q xs i y a.1 f q)

pub Waits-map :
    (closed closed' : List ℕ) (ts ts' : List Caller)
    → ((c : ℕ) → IsServed closed ts c → IsServed closed' ts' c)
    → (t : Caller) → Waits closed ts t
    → Waits closed' ts' t
Waits-map closed closed' ts ts' f asking w = tt
Waits-map closed closed' ts ts' f locking w = tt
Waits-map closed closed' ts ts' f (waiting c) w = f c w
Waits-map closed closed' ts ts' f (holding c) w = tt
Waits-map closed closed' ts ts' f (fetching c) w = tt
Waits-map closed closed' ts ts' f (leaving c b) w = tt
Waits-map closed closed' ts ts' f (closing c b) w = tt
Waits-map closed closed' ts ts' f (returned b) w = tt

pub at-least :
    (f : Caller → ℕ) (ts : List Caller) (i : ℕ) (x : Caller)
    → get_elem? ts i ≡ some x
    → f x ≤ tally f ts
at-least f [] i x h = ground arith
at-least f (t ∷ ts) zero x h = let same : (t ≡ x) = ground arith in rw same (omega arith)
at-least f (t ∷ ts) (suc i) x h = omega (arith, at-least f ts i x h)

pub has_channel-le : (c : ℕ) (t : Caller) → has_channel c t ≤ has_slot t
has_channel-le c (holding d) = ground arith
has_channel-le c (fetching d) = ground arith
has_channel-le c (leaving d b) = ground arith
has_channel-le c asking = omega arith
has_channel-le c locking = omega arith
has_channel-le c (waiting d) = omega arith
has_channel-le c (closing d b) = omega arith
has_channel-le c (returned b) = omega arith

pub will_close-ge : (c : ℕ) (t : Caller) → has_channel c t ≤ will_close c t
will_close-ge c (closing d b) = omega arith
will_close-ge c (holding d) = omega arith
will_close-ge c (fetching d) = omega arith
will_close-ge c (leaving d b) = omega arith
will_close-ge c asking = omega arith
will_close-ge c locking = omega arith
will_close-ge c (waiting d) = omega arith
will_close-ge c (returned b) = omega arith

module _ (s : Flight) (i : ℕ) (x y : Caller) (here : get_elem? s.callers i ≡ some x)
    (inv : IsSingle s) where
  pub moved : (f : Caller → ℕ) → tally f (set s.callers i y) + f x ≡ tally f s.callers + f y
  moved f = tally-set f s.callers i x y here

  pub still-IsHeld :
      (slot : Option ℕ)
      → has_slot x ≡ has_slot y
      → ((c : ℕ) → has_channel c x ≡ has_channel c y)
      → IsHeld slot s.callers
      → IsHeld slot (set s.callers i y)
  still-IsHeld none same ch h = omega (arith, moved has_slot, same, h)
  still-IsHeld (some c) same ch h =
      (omega (arith, moved has_slot, same, h.0), omega (arith, moved (has_channel c), ch c, h.1))

  pub still-served :
      (closed : List ℕ)
      → ((c : ℕ) → IsServed s.closed s.callers c → IsServed closed (set s.callers i y) c)
      → Waits closed (set s.callers i y) y
      → All (Waits closed (set s.callers i y)) (set s.callers i y)
  still-served closed f w =
      All-set-map (Waits s.closed s.callers) (Waits closed (set s.callers i y)) s.callers i y
        inv.served (Waits-map s.closed closed s.callers (set s.callers i y) f) w

  pub kept-IsServed :
      ((c : ℕ) → will_close c x ≤ will_close c y)
      → (c : ℕ) → IsServed s.closed s.callers c
      → IsServed s.closed (set s.callers i y) c
  kept-IsServed keeps c (inl is_closed) = inl is_closed
  kept-IsServed keeps c (inr under_way) =
      inr (omega (arith, moved (will_close c), keeps c, under_way))

  -- A caller that keeps what it has of slot and channel leaves all as it was.
  pub moves :
      has_slot x ≡ has_slot y
      → ((c : ℕ) → has_channel c x ≡ has_channel c y)
      → ((c : ℕ) → will_close c x ≤ will_close c y)
      → (s.present ≡ true → is_fetching y ≤ is_fetching x)
      → Waits s.closed (set s.callers i y) y
      → IsSingle (at s i y)
  moves same ch keeps fetch w = record {
    held = still-IsHeld s.slot same ch inv.held;
    idle = λ p. omega (arith, moved is_fetching, fetch p, inv.idle p);
    once = inv.once;
    served = still-served s.closed (kept-IsServed keeps) w;
  }

pub is_fetching-le : (t : Caller) → is_fetching t ≤ has_slot t
is_fetching-le (holding d) = omega arith
is_fetching-le (fetching d) = omega arith
is_fetching-le (leaving d b) = omega arith
is_fetching-le asking = omega arith
is_fetching-le locking = omega arith
is_fetching-le (waiting d) = omega arith
is_fetching-le (closing d b) = omega arith
is_fetching-le (returned b) = omega arith

pub at_most_one : (slot : Option ℕ) (ts : List Caller) → IsHeld slot ts → tally has_slot ts ≤ 1
at_most_one none ts h = omega (arith, h)
at_most_one (some c) ts h = omega (arith, h.0)
