-- ===== src/Quota/Race.antt =====
-- The compare-and-swap loop of Allow under concurrent calls (internal/quota/quota.go). The calls
-- have read the limit and the synced total and share one counter; a schedule says which call makes
-- its next access.
use cfunc.Base.{
  ℕ, zero, suc, ◌+◌, ◌≤◌, ◌<◌, ◌≡◌, refl, Bool, true, false, List, [], ◌∷◌, All, ℤ, pos, pos_part,
  ltz, add64, add64-pos, max_int64, int_eq, if◌then◌else◌, ◌==◌, arith, inl, inr, Bool-cases, ◌⊎◌,
  negsuc, nat_beq, ltb, ◌≢◌, ap, ◌∙◌, get_elem?, some, subst,
}

-- Where a call stands: before the load, between the load and the swap, or returned.
pub data Phase : Type 0 where
  ready : Phase
  loaded : ℤ → Phase
  returned : Bool → Phase

module _ (limit remote : ℤ) where
  -- One access to the counter. The test on the loaded value needs none, so it goes with the swap.
  unfoldable pub cas_step : ℤ → Phase → ℤ × Phase
  cas_step counter ready = (counter, loaded counter)
  cas_step counter (loaded cur) =
      if ltz limit (add64 (add64 remote cur) (pos 1))
      then (counter, returned false)
      else if counter == cur
      then (add64 cur (pos 1), returned true)
      else (counter, ready)
  cas_step counter (returned b) = (counter, returned b)

  -- Call number `i` makes its next step.
  unfoldable pub step_call : ℕ → ℤ → List Phase → ℤ × List Phase
  unfolding cas_step
  step_call i counter [] = (counter, [])
  step_call zero counter (p ∷ ps) = let (counter', p') = cas_step counter p in (counter', p' ∷ ps)
  step_call (suc i) counter (p ∷ ps) =
      let (counter', ps') = step_call i counter ps in (counter', p ∷ ps')

  unfoldable pub run_calls : List ℕ → ℤ → List Phase → ℤ × List Phase
  run_calls [] counter ps = (counter, ps)
  run_calls (i ∷ is) counter ps =
      let (counter', ps') = step_call i counter ps in run_calls is counter' ps'

-- How many calls have returned true.
abbrev pub wins : List Phase → ℕ
wins [] = 0
wins (returned true ∷ ps) = suc (wins ps)
wins (_ ∷ ps) = wins ps

-- What a call has loaded is a count, no larger than the counter is now; and where a call has
-- returned false, the limit is used up.
abbrev pub IsPast : ℕ → ℕ → ℕ → Phase → Type 0
IsPast limit remote n ready = Unit
IsPast limit remote n (loaded cur) = (cur ≡ pos (pos_part cur)) × (pos_part cur ≤ n)
IsPast limit remote n (returned true) = Unit
IsPast limit remote n (returned false) = limit ≤ remote + n

int_not_count : (m : ℕ) → negsuc m ≢ pos 0
int_not_count m h = cc

ltz_test : (a b : ℕ) → ltz (pos a) (pos b) ≡ ltb a b
ltz_test a b = ground arith

module _ (limit remote : ℕ) (small : limit < max_int64) where
  IsPast-mono : (m n : ℕ) (p : Phase) → m ≤ n → IsPast limit remote m p → IsPast limit remote n p
  IsPast-mono m n ready h k = tt
  IsPast-mono m n (loaded cur) h k = (k.0, omega arith)
  IsPast-mono m n (returned true) h k = tt
  IsPast-mono m n (returned false) h k = omega arith

  All-mono :
      (m n : ℕ) (ps : List Phase)
      → m ≤ n
      → All (IsPast limit remote m) ps
      → All (IsPast limit remote n) ps
  All-mono m n [] h k = tt
  All-mono m n (p ∷ ps) h k = (IsPast-mono m n p h k.0, All-mono m n ps h k.1)

  abbrev Next : ℕ → ℤ → Phase → ℤ × Phase → Type 0
  Next total counter p r =
      (r.0 ≡ counter) × (wins (r.1 ∷ []) ≡ wins (p ∷ [])) × IsPast limit remote total r.1
      ⊎ ((r.0 ≡ pos (total + 1))
          × (wins (r.1 ∷ []) ≡ 1)
          × (wins (p ∷ []) ≡ 0)
          × IsPast limit remote (total + 1) r.1
          × (remote + total + 1 ≤ limit))

  cas_step-Next :
      (total : ℕ) (p : Phase)
      → remote + total < max_int64
      → IsPast limit remote total p
      → Next total (pos total) p (cas_step (pos limit) (pos remote) (pos total) p)
  unfolding cas_step
  cas_step-Next total ready room k = inl (refl, refl, (refl, omega arith))
  cas_step-Next total (loaded (negsuc m)) room k = absurd (int_not_count m k.0)
  cas_step-Next total (loaded (pos m)) room k =
      rw
        (
          add64-pos remote m (omega arith),
          add64-pos (remote + m) 1 (omega arith),
          add64-pos m 1 (omega arith),
        )
        (elim (Bool-cases (ltb limit (remote + m + 1))) [
          | inl e ↦ rw (ltz_test limit (remote + m + 1), e) (inl (refl, refl, ground arith))
          | inr e ↦ elim (Bool-cases (nat_beq total m)) [
            | inl e' ↦
                rw (ltz_test limit (remote + m + 1), e, e')
                  (inr (ground arith, refl, refl, tt, ground arith))
            | inr e' ↦ rw (ltz_test limit (remote + m + 1), e, e') (inl (refl, refl, tt))
          ]
        ])
  cas_step-Next total (returned b) room k = inl (refl, refl, k)

  wins-cons : (p : Phase) (ps : List Phase) → wins (p ∷ ps) ≡ wins (p ∷ []) + wins ps
  wins-cons ready ps = omega arith
  wins-cons (loaded cur) ps = omega arith
  wins-cons (returned true) ps = omega arith
  wins-cons (returned false) ps = omega arith

  -- A step of one of the calls leaves the counter, or wins and raises it within the limit.
  abbrev NextAll : ℕ → List Phase → ℤ × List Phase → Type 0
  NextAll total ps r =
      (r.0 ≡ pos total) × (wins r.1 ≡ wins ps) × All (IsPast limit remote total) r.1
      ⊎ ((r.0 ≡ pos (total + 1))
          × (wins r.1 ≡ wins ps + 1)
          × All (IsPast limit remote (total + 1)) r.1
          × (remote + total + 1 ≤ limit))

  step_call-NextAll :
      (i total : ℕ) (ps : List Phase)
      → remote + total < max_int64
      → All (IsPast limit remote total) ps
      → NextAll total ps (step_call (pos limit) (pos remote) i (pos total) ps)
  unfolding step_call
  step_call-NextAll i total [] room past = inl (refl, refl, tt)
  step_call-NextAll zero total (p ∷ ps) room past = elim (cas_step-Next total p room past.0) [
    | inl (same, kept, k) ↦ inl (same, wins_same p _ ps kept, (k, past.1))
    | inr (grown, won, open_call, k, fits) ↦ inr (
      grown,
      wins_more p _ ps won open_call,
      (k, All-mono total (total + 1) ps (omega arith) past.1),
      fits,
    )
  ]
    where
      wins_same :
          (p q : Phase) (ps : List Phase)
          → wins (q ∷ []) ≡ wins (p ∷ [])
          → wins (q ∷ ps) ≡ wins (p ∷ ps)
      wins_same p q ps h = omega (arith, wins-cons p ps, wins-cons q ps)

      wins_more :
          (p q : Phase) (ps : List Phase)
          → wins (q ∷ []) ≡ 1
          → wins (p ∷ []) ≡ 0
          → wins (q ∷ ps) ≡ wins (p ∷ ps) + 1
      wins_more p q ps h k = omega (arith, wins-cons p ps, wins-cons q ps)
  step_call-NextAll (suc i) total (p ∷ ps) room past =
      elim (step_call-NextAll i total ps room past.1) [
        | inl (same, kept, k) ↦ inl (
          same,
          omega (
            arith,
            wins-cons p ps,
            wins-cons p (step_call (pos limit) (pos remote) i (pos total) ps).1,
          ),
          (past.0, k),
        )
        | inr (grown, won, k, fits) ↦ inr (
          grown,
          omega (
            arith,
            wins-cons p ps,
            wins-cons p (step_call (pos limit) (pos remote) i (pos total) ps).1,
          ),
          (IsPast-mono total (total + 1) p (omega arith) past.0, k),
          fits,
        )
      ]

  -- The gain of a whole schedule.
  abbrev Gains : ℕ → List Phase → ℕ → ℤ × List Phase → Type 0
  Gains total ps gain r =
      (r.0 ≡ pos (total + gain))
      × (wins r.1 ≡ wins ps + gain)
      × All (IsPast limit remote (total + gain)) r.1
      × ((gain ≡ 0) ⊎ (remote + total + gain ≤ limit))

  run_calls-Gains :
      (schedule : List ℕ) (total : ℕ) (ps : List Phase)
      → remote + total < max_int64
      → All (IsPast limit remote total) ps
      → (gain : ℕ) × Gains total ps gain
          (run_calls (pos limit) (pos remote) schedule (pos total) ps)
  unfolding run_calls
  run_calls-Gains [] total ps room past = (
    0,
    (ap pos (omega arith), omega arith, All-mono total (total + 0) ps (omega arith) past, inl refl),
  )
  run_calls-Gains (i ∷ is) total ps room past = elim (step_call-NextAll i total ps room past) [
    | inl (same, kept, k) ↦
        let (gain, (e, w, a, b)) = run_calls-Gains is total _ room k in
        (gain, rw (same, run_calls) (e, w ∙ ap (λ n. n + gain) kept, a, b))
    | inr (grown, won, k, fits) ↦
        let (gain, (e, w, a, b)) = run_calls-Gains is (total + 1) _ (omega arith) k in
        (
          gain + 1,
          rw (grown, run_calls)
              (
                e ∙ ap pos (omega arith),
                omega (arith, w, won),
                All-mono (total + 1 + gain) (total + (gain + 1)) _ (omega arith) a,
                inr (omega (arith, b)),
              ),
        )
  ]

-- Calls that have not started.
abbrev pub AllReady : List Phase → Type 0
AllReady [] = Unit
AllReady (p ∷ ps) = (p ≡ ready) × AllReady ps

-- The answers that were given agree with the limit: it is never passed, and no call was refused
-- before it was used up.
pub record IsFair (limit remote start : ℕ) (counter : ℤ) (ps : List Phase) : Type 0 where
  pub counted : counter ≡ pos (start + wins ps)
  pub bounded : (wins ps ≡ 0) ⊎ (remote + start + wins ps ≤ limit)
  pub refused : (i : ℕ) → get_elem? ps i ≡ some (returned false) → limit ≤ remote + start + wins ps

ready-IsPast :
    (limit remote n : ℕ) (ps : List Phase)
    → AllReady ps
    → All (IsPast limit remote n) ps × (wins ps ≡ 0)
ready-IsPast limit remote n [] h = (tt, refl)
ready-IsPast limit remote n (p ∷ ps) h =
    let (past, none_won) = ready-IsPast limit remote n ps h.1 in rw h.0 ((tt, past), none_won)

IsPast-refused :
    (limit remote n i : ℕ) (ps : List Phase)
    → All (IsPast limit remote n) ps
    → get_elem? ps i ≡ some (returned false)
    → limit ≤ remote + n
IsPast-refused limit remote n i [] past h = ground arith
IsPast-refused limit remote n zero (p ∷ ps) past h =
    let same : (p ≡ returned false) = ground arith in subst (IsPast limit remote n) same past.0
IsPast-refused limit remote n (suc i) (p ∷ ps) past h = IsPast-refused limit remote n i ps past.1 h

-- With a limit and a count below the largest int64, however concurrent calls of Allow interleave from
-- their start: each call that returns true is counted once, they do not pass the limit, and a call is
-- refused only when the limit is used up.
pub run_calls-IsFair :
    (limit remote start : ℕ) (schedule : List ℕ) (ps : List Phase)
    → limit < max_int64
    → remote + start < max_int64
    → AllReady ps
    → let r = run_calls (pos limit) (pos remote) schedule (pos start) ps in
      IsFair limit remote start r.0 r.1
run_calls-IsFair limit remote start schedule ps small room fresh =
    let (past, none_won) = ready-IsPast limit remote start ps fresh in
    let (gain, (e, w, a, b)) = run_calls-Gains limit remote small schedule start ps room past in
    record {
      counted = e ∙ ap pos (omega arith);
      bounded = ground arith;
      refused = λ i h. omega (arith, IsPast-refused limit remote (start + gain) i _ a h);
    }
