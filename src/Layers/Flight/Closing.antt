-- ===== src/Layers/Flight/Closing.antt =====
-- A caller of ensureLocal (internal/gateway/layers.go) that has a channel closes it in the rest of its
-- steps.
use cfunc.Base.{
  zero, suc, ◌≡◌, refl, sym, ap, ◌∙◌, inl, inr, ℕ, ◌≤◌, Bool, true, false, List, [], ◌∷◌, none,
  some, get_elem?, set, contains, if◌then◌else◌, tally, nat_beq, arith, Bool-cases, subst, nat_eq,
}
use cfunc.Layers.Flight.{
  Flight, Caller, asking, locking, waiting, holding, fetching, leaving, closing, returned,
  CallerAction, recheck, pulled, leave, finish, at, fetched, caller_step, run_callers,
}
use cfunc.Layers.Flight.Served.{will_close}

pub tally-find :
    (f : Caller → ℕ) (ts : List Caller)
    → 1 ≤ tally f ts
    → (j : ℕ) × (t : Caller) × (get_elem? ts j ≡ some t) × (1 ≤ f t)
tally-find f [] h = absurd (omega arith)
tally-find f (t ∷ ts) h = elim (Bool-cases (nat_beq (f t) 0)) [
  | inl e ↦
      let zero_here : (f t ≡ 0) = ground arith in
      let (j, u, here, some_left) = tally-find f ts (omega (arith, h, zero_here)) in
      (suc j, u, here, some_left)
  | inr e ↦ (0, t, refl, ground arith)
]

pub get-set :
    (ts : List Caller) (j : ℕ) (t u : Caller)
    → get_elem? ts j ≡ some t
    → get_elem? (set ts j u) j ≡ some u
get-set [] j t u h = ground arith
get-set (x ∷ ts) zero t u h = refl
get-set (x ∷ ts) (suc j) t u h = get-set ts j t u h

pub set-apart :
    (ts : List Caller) (j i : ℕ) (u : Caller)
    → nat_beq j i ≡ false
    → get_elem? (set ts j u) i ≡ get_elem? ts i
set-apart [] j i u h = refl
set-apart (x ∷ ts) zero zero u h = ground arith
set-apart (x ∷ ts) zero (suc i) u h = refl
set-apart (x ∷ ts) (suc j) zero u h = refl
set-apart (x ∷ ts) (suc j) (suc i) u h = set-apart ts j i u (ground arith)

-- What the caller with the slot goes through; the pull succeeds or not.
abbrev pub rest_of : ℕ → Bool → List CallerAction
rest_of j good = recheck j ∷ pulled j good ∷ leave j ∷ finish j ∷ []

module _ (j c : ℕ) where
  abbrev pub Closes : Flight → List CallerAction → Type 0
  Closes s actions = contains (run_callers s actions).closed c ≡ true

  pub closing-Closes :
      (s : Flight) (good : Bool)
      → get_elem? s.callers j ≡ some (closing c good)
      → Closes s (finish j ∷ [])
  unfolding run_callers caller_step
  closing-Closes s good here = rw here (ground arith)

  pub leaving-Closes :
      (s : Flight) (good : Bool)
      → get_elem? s.callers j ≡ some (leaving c good)
      → Closes s (leave j ∷ finish j ∷ [])
  unfolding run_callers caller_step
  leaving-Closes s good here = rw here (
      closing-Closes (record s { slot = none; callers = set s.callers j (closing c good) }) good
        (get-set s.callers j (leaving c good) (closing c good) here))

  pub pulled-Closes :
      (s : Flight) (good : Bool)
      → get_elem? s.callers j ≡ some (fetching c)
      → Closes s (pulled j good ∷ leave j ∷ finish j ∷ [])
  unfolding run_callers caller_step
  pulled-Closes s true here = rw here (
      leaving-Closes (fetched s j c true) true
        (get-set s.callers j (fetching c) (leaving c true) here))
  pulled-Closes s false here = rw here (
      leaving-Closes (at s j (leaving c false)) false
        (get-set s.callers j (fetching c) (leaving c false) here))

  pub unpulled-Closes :
      (s : Flight) (good done : Bool)
      → get_elem? s.callers j ≡ some (leaving c done)
      → Closes s (pulled j good ∷ leave j ∷ finish j ∷ [])
  unfolding run_callers caller_step
  unpulled-Closes s good done here = let rest = leaving-Closes s done here in rw here rest

  pub holding-Closes :
      (s : Flight) (good : Bool)
      → get_elem? s.callers j ≡ some (holding c)
      → Closes s (rest_of j good)
  unfolding run_callers caller_step
  holding-Closes s good here = elim (Bool-cases s.present) [
    | inl e ↦ rw here (
        subst
          (λ b.
            Closes (at s j (if b then leaving c true else fetching c))
              (pulled j good ∷ leave j ∷ finish j ∷ []))
          (sym e)
          (unpulled-Closes (at s j (leaving c true)) good true
            (get-set s.callers j (holding c) (leaving c true) here)))
    | inr e ↦ rw here (
        subst
          (λ b.
            Closes (at s j (if b then leaving c true else fetching c))
              (pulled j good ∷ leave j ∷ finish j ∷ []))
          (sym e)
          (pulled-Closes (at s j (fetching c)) good
            (get-set s.callers j (holding c) (fetching c) here)))
  ]

  -- A caller that will close the channel does so in the rest of its steps.
  pub rest-Closes :
      (s : Flight) (good : Bool) (t : Caller)
      → get_elem? s.callers j ≡ some t
      → 1 ≤ will_close c t
      → Closes s (rest_of j good)
  rest-Closes s good (holding d) here h =
      let same : (d ≡ c) = ground arith in
      holding-Closes s good (here ∙ ap (λ e. some (holding e)) same)
  rest-Closes s good (fetching d) here h =
      let same : (d ≡ c) = ground arith in
      let now = here ∙ ap (λ e. some (fetching e)) same in
      let rest = pulled-Closes s good now in unfold run_callers in unfold caller_step in rw now rest
  rest-Closes s good (leaving d done) here h =
      let same : (d ≡ c) = ground arith in
      let now = here ∙ ap (λ e. some (leaving e done)) same in
      let rest = unpulled-Closes s good done now in
      unfold run_callers in unfold caller_step in rw now rest
  rest-Closes s good (closing d done) here h =
      let same : (d ≡ c) = ground arith in
      let now = here ∙ ap (λ e. some (closing e done)) same in
      let rest = closing-Closes s done now in
      unfold run_callers in unfold caller_step in rw (now, now, now) rest
  rest-Closes s good asking here h = absurd (omega arith)
  rest-Closes s good locking here h = absurd (omega arith)
  rest-Closes s good (waiting d) here h = absurd (omega arith)
  rest-Closes s good (returned d) here h = absurd (omega arith)
