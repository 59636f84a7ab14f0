-- ===== src/Layers/Flight/Moves.antt =====
-- Each step of a caller of ensureLocal in internal/gateway/layers.go keeps what holds of all.
use cfunc.Base.{
  ◌≡◌, refl, sym, inl, inr, ℕ, Bool, true, false, ◌∷◌, Option, none, some, get_elem?, set, contains,
  if◌then◌else◌, tally, tally-le, nat_beq, arith, Bool-cases, nat_eq, subst,
}
use cfunc.Layers.Flight.{
  Flight, asking, locking, waiting, holding, fetching, leaving, closing, returned, at, slot_locked,
  fetched,
}
use cfunc.Layers.Flight.Served.{
  IsHeld, IsServed, IsSingle, at-least, at_most_one, has_channel, has_channel-le, has_slot,
  is_fetching, is_fetching-le, kept-IsServed, moved, moves, still-IsHeld, still-served, will_close,
  will_close-ge,
}

module _ (s : Flight) (i : ℕ) (inv : IsSingle s) where
  pub slot_locked-IsSingle :
      get_elem? s.callers i ≡ some locking
      → (slot : Option ℕ) → s.slot ≡ slot
      → IsSingle (slot_locked s i slot)
  slot_locked-IsSingle here none e =
      let n = s.next_channel in
      let empty : (tally has_slot s.callers ≡ 0) = subst (λ o. IsHeld o s.callers) e inv.held in
      let moved_to = moved s i locking (holding n) here inv in
      record {
        held = (
          omega (arith, moved_to has_slot, empty),
          ground (
            arith,
            moved_to (has_channel n),
            empty,
            tally-le (has_channel n) has_slot s.callers (has_channel-le n),
          ),
        );
        idle = λ p. omega (arith, moved_to is_fetching, inv.idle p);
        once = inv.once;
        served =
            still-served s i locking (holding n) here inv s.closed
              (kept-IsServed s i locking (holding n) here inv (λ d. omega arith)) tt;
      }
  slot_locked-IsSingle here (some c) e =
      let held = subst (λ o. IsHeld o s.callers) e inv.held in
      moves s i locking (waiting c) here inv refl (λ d. refl) (λ d. omega arith) (λ p. omega arith)
        (inr (
          omega (
            arith,
            moved s i locking (waiting c) here inv (will_close c),
            tally-le (has_channel c) (will_close c) s.callers (will_close-ge c),
            held.1,
          )))

  pub pulled-IsSingle :
      (c : ℕ) → get_elem? s.callers i ≡ some (fetching c) → IsSingle (fetched s i c true)
  pulled-IsSingle c here =
      let moved_to = moved s i (fetching c) (leaving c true) here inv in
      let absent : (s.present ≡ false) = elim (Bool-cases s.present) [
        | inl e ↦
            absurd (omega (arith, inv.idle e, at-least is_fetching s.callers i (fetching c) here))
        | inr e ↦ e
      ] in
      record {
        held =
            still-IsHeld s i (fetching c) (leaving c true) here inv s.slot refl (λ d. refl)
              inv.held;
        idle = λ p. omega (
          arith,
          moved_to is_fetching,
          tally-le is_fetching has_slot s.callers is_fetching-le,
          at_most_one s.slot s.callers inv.held,
        );
        once = let first = rw absent at inv.once in omega (arith, first);
        served =
            still-served s i (fetching c) (leaving c true) here inv s.closed
              (kept-IsServed s i (fetching c) (leaving c true) here inv (λ d. omega arith)) tt;
      }

  pub left-IsSingle :
      (c : ℕ) (good : Bool)
      → get_elem? s.callers i ≡ some (leaving c good)
      → IsSingle (record s { slot = none; callers = set s.callers i (closing c good) })
  left-IsSingle c good here =
      let moved_to = moved s i (leaving c good) (closing c good) here inv in
      record {
        held = omega (arith, moved_to has_slot, at_most_one s.slot s.callers inv.held);
        idle = λ p. omega (arith, moved_to is_fetching, inv.idle p);
        once = inv.once;
        served =
            still-served s i (leaving c good) (closing c good) here inv s.closed
              (kept-IsServed s i (leaving c good) (closing c good) here inv (λ d. omega arith)) tt;
      }

  pub finished-IsSingle :
      (c : ℕ) (good : Bool)
      → get_elem? s.callers i ≡ some (closing c good)
      → IsSingle (record s { closed = c ∷ s.closed; callers = set s.callers i (returned good) })
  finished-IsSingle c good here =
      let moved_to = moved s i (closing c good) (returned good) here inv in
      record {
        held =
            still-IsHeld s i (closing c good) (returned good) here inv s.slot refl (λ d. refl)
              inv.held;
        idle = λ p. omega (arith, moved_to is_fetching, inv.idle p);
        once = inv.once;
        served =
            still-served s i (closing c good) (returned good) here inv (c ∷ s.closed)
              (λ d h. closes d h) tt;
      }
    where
      closes :
          (d : ℕ)
          → IsServed s.closed s.callers d
          → IsServed (c ∷ s.closed) (set s.callers i (returned good)) d
      closes d (inl is_closed) = inl (ground (arith, is_closed))
      closes d (inr under_way) = elim (Bool-cases (nat_beq c d)) [
        | inl e ↦ inl (rw e refl)
        | inr e ↦
            let one = moved s i (closing c good) (returned good) here inv (will_close d) in
            let same = rw e at one in inr (omega (arith, same, under_way))
      ]

  pub rechecked-IsSingle :
      (c : ℕ)
      → get_elem? s.callers i ≡ some (holding c)
      → IsSingle (at s i (if s.present then leaving c true else fetching c))
  rechecked-IsSingle c here = elim (Bool-cases s.present) [
    | inl e ↦
        subst (λ b. IsSingle (at s i (if b then leaving c true else fetching c))) (sym e)
          (moves s i (holding c) (leaving c true) here inv refl (λ d. refl) (λ d. omega arith)
            (λ p. omega arith) tt)
    | inr e ↦
        subst (λ b. IsSingle (at s i (if b then leaving c true else fetching c))) (sym e)
          (moves s i (holding c) (fetching c) here inv refl (λ d. refl) (λ d. omega arith)
            (λ p. let bad = rw e at p in ground arith) tt)
  ]

  pub looked-IsSingle :
      get_elem? s.callers i ≡ some asking
      → IsSingle (at s i (if s.present then returned true else locking))
  looked-IsSingle here = elim (Bool-cases s.present) [
    | inl e ↦
        subst (λ b. IsSingle (at s i (if b then returned true else locking))) (sym e)
          (moves s i asking (returned true) here inv refl (λ d. refl) (λ d. omega arith)
            (λ p. omega arith) tt)
    | inr e ↦
        subst (λ b. IsSingle (at s i (if b then returned true else locking))) (sym e)
          (moves s i asking locking here inv refl (λ d. refl) (λ d. omega arith) (λ p. omega arith)
            tt)
  ]

  pub released-IsSingle :
      (c : ℕ) (good : Bool)
      → get_elem? s.callers i ≡ some (waiting c)
      → IsSingle (at s i (returned good))
  released-IsSingle c good here =
      moves s i (waiting c) (returned good) here inv refl (λ d. refl) (λ d. omega arith)
        (λ p. omega arith) tt

  pub resumed-IsSingle :
      (c : ℕ)
      → get_elem? s.callers i ≡ some (waiting c)
      → IsSingle (if contains s.closed c then at s i (returned true) else s)
  resumed-IsSingle c here = elim (Bool-cases (contains s.closed c)) [
    | inl e ↦ rw e (released-IsSingle c true here)
    | inr e ↦ rw e inv
  ]
