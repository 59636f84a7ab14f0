-- ===== src/Layers/Flight/Released.antt =====
-- A caller of ensureLocal that waits is released whatever becomes of the pull that it waits for.
use cfunc.Base.{
  zero, suc, ◌≡◌, refl, sym, ◌∙◌, ◌⊎◌, inl, inr, ℕ, ◌≤◌, Bool, true, false, List, [], ◌∷◌, ◌++◌,
  Option, none, some, get_elem?, set, contains, nat_beq, arith, Bool-cases, subst, nat_eq, All,
}
use cfunc.Layers.Flight.{
  Flight, Caller, asking, locking, waiting, holding, fetching, leaving, closing, returned,
  no_callers, CallerAction, recheck, pulled, leave, finish, act_on, fetched, caller_step,
  run_callers, resume,
}
use cfunc.Layers.Flight.Served.{will_close, Waits}
use cfunc.Layers.Flight.Single.{run_callers-IsSingle}
use cfunc.Layers.Flight.Closing.{get-set, rest-Closes, rest_of, set-apart, tally-find}

module _ (i j : ℕ) (other : nat_beq j i ≡ false) where
  get-set-other : (ts : List Caller) (u : Caller) → get_elem? (set ts j u) i ≡ get_elem? ts i
  get-set-other ts u = set-apart ts j i u other

  -- The steps of one caller leave another one where it is.
  fetched-apart :
      (s : Flight) (c : ℕ) (good : Bool)
      → get_elem? (fetched s j c good).callers i ≡ get_elem? s.callers i
  fetched-apart s c true = get-set-other s.callers (leaving c true)
  fetched-apart s c false = get-set-other s.callers (leaving c false)

  act_on-apart :
      (s : Flight) (good : Bool) (t : Option Caller)
      → (get_elem? (act_on s (recheck j) j t).callers i ≡ get_elem? s.callers i)
        × (get_elem? (act_on s (pulled j good) j t).callers i ≡ get_elem? s.callers i)
        × (get_elem? (act_on s (leave j) j t).callers i ≡ get_elem? s.callers i)
        × (get_elem? (act_on s (finish j) j t).callers i ≡ get_elem? s.callers i)
  act_on-apart s good none = (refl, refl, refl, refl)
  act_on-apart s good (some (holding c)) = (get-set-other s.callers _, refl, refl, refl)
  act_on-apart s good (some (fetching c)) = (refl, fetched-apart s c good, refl, refl)
  act_on-apart s good (some (leaving c done)) = (refl, refl, get-set-other s.callers _, refl)
  act_on-apart s good (some (closing c done)) = (refl, refl, refl, get-set-other s.callers _)
  act_on-apart s good (some asking) = (refl, refl, refl, refl)
  act_on-apart s good (some locking) = (refl, refl, refl, refl)
  act_on-apart s good (some (waiting c)) = (refl, refl, refl, refl)
  act_on-apart s good (some (returned done)) = (refl, refl, refl, refl)

  rest-apart :
      (s : Flight) (good : Bool)
      → get_elem? (run_callers s (rest_of j good)).callers i ≡ get_elem? s.callers i
  unfolding run_callers caller_step
  rest-apart s good =
      let a = caller_step s (recheck j) in
      let b = caller_step a (pulled j good) in
      let c = caller_step b (leave j) in
      (act_on-apart c good (get_elem? c.callers j)).3
      ∙ (act_on-apart b good (get_elem? b.callers j)).2
      ∙ (act_on-apart a good (get_elem? a.callers j)).1
      ∙ (act_on-apart s good (get_elem? s.callers j)).0

All-get :
    (P : Caller → Type 0) (ts : List Caller) (i : ℕ) (t : Caller)
    → All P ts
    → get_elem? ts i ≡ some t
    → P t
All-get P [] i t a h = ground arith
All-get P (x ∷ ts) zero t a h = let same : (x ≡ t) = ground arith in subst P same a.0
All-get P (x ∷ ts) (suc i) t a h = All-get P ts i t a.1 h

run_callers-append :
    (s : Flight) (xs ys : List CallerAction)
    → run_callers s (xs ++ ys) ≡ run_callers (run_callers s xs) ys
unfolding run_callers
run_callers-append s [] ys = refl
run_callers-append s (x ∷ xs) ys = run_callers-append (caller_step s x) xs ys

-- Has the caller returned without an error?
abbrev pub HasSucceeded : Flight → ℕ → Type 0
HasSucceeded s i = get_elem? s.callers i ≡ some (returned true)

resumed :
    (s : Flight) (i c : ℕ)
    → get_elem? s.callers i ≡ some (waiting c)
    → contains s.closed c ≡ true
    → HasSucceeded (run_callers s (resume i ∷ [])) i
unfolding run_callers caller_step
resumed s i c here is_closed =
    rw (here, is_closed) (get-set s.callers i (waiting c) (returned true) here)

not_itself :
    (c : ℕ) (s : Flight) (i j : ℕ) (t : Caller)
    → get_elem? s.callers i ≡ some (waiting c)
    → get_elem? s.callers j ≡ some t
    → 1 ≤ will_close c t
    → nat_beq j i ≡ false
not_itself c s i j t here there h = elim (Bool-cases (nat_beq j i)) [
  | inl e ↦
      let same : (j ≡ i) = ground arith in
      let is_waiting : (t ≡ waiting c) = let k = rw same at there in ground arith in
      let bad = rw is_waiting at h in absurd (omega arith)
  | inr e ↦ e
]

-- A caller that waits, after any interleaving of callers of one digest, has its channel closed, or waits for a
-- caller under way: once that one has gone through the rest of its steps, the waiting caller goes on. Either way it
-- then returns without an error, and it does so even if the pull has failed.
pub waiting-returns :
    (actions : List CallerAction) (i c : ℕ)
    → get_elem? (run_callers no_callers actions).callers i ≡ some (waiting c)
    → HasSucceeded (run_callers (run_callers no_callers actions) (resume i ∷ [])) i
      ⊎ ((j : ℕ) × ((good : Bool)
            → HasSucceeded
                (run_callers (run_callers no_callers actions) (rest_of j good ++ resume i ∷ []))
                i))
waiting-returns actions i c here =
    let s = run_callers no_callers actions in
    let inv = run_callers-IsSingle actions in
    elim (All-get (Waits s.closed s.callers) s.callers i (waiting c) inv.served here) [
      | inl is_closed ↦ inl (resumed s i c here is_closed)
      | inr under_way ↦
          let (j, t, there, closes) = tally-find (will_close c) s.callers under_way in
          let other = not_itself c s i j t here there closes in
          inr (
            j,
            λ good.
                subst (λ r. HasSucceeded r i)
                  (sym (run_callers-append s (rest_of j good) (resume i ∷ [])))
                  (resumed (run_callers s (rest_of j good)) i c (rest-apart i j other s good ∙ here)
                    (rest-Closes j c s good t there closes)),
          )
    ]
