-- ===== src/Scheduler/Host/Reloaded.antt =====
-- What the single-host scheduler of internal/scheduler/scheduler.go has after a reload.
use cfunc.Base.{
  subst, any, ◌||◌, ℕ, Bool, true, false, List, [], ◌∷◌, Option, none, some, Str, Map, get, put,
  get-put, str_eq, ◌==◌, ◌≡◌, refl, sym, ap, ◌∙◌, if◌then◌else◌, Result, ok, err, arith, Bool-cases,
  Option-cases, Result-cases, inl, inr, str_beq_iff, or_nothing, or_true,
}
use cfunc.Scheduler.{Job}
use cfunc.Scheduler.Jobs.{JobFile}
use cfunc.Scheduler.Host.{
  HostCron, HostScheduler, HostError, desired_jobs, drop_outdated, is_outdated, add_new, synced,
  reload,
}

-- Is the key in the map?
abbrev pub is_there : {A : Type 0} → Option A → Bool
is_there none = false
is_there (some a) = true

abbrev pub has : {V : Type 0} → Map Str V → Str → Bool
has m k = is_there (get m k)

has-put :
    {V : Type 0} (m : Map Str V) (k id : Str) (v : V)
    → has (put m k v) id ≡ (if k == id then true else has m id)
has-put m k id v = ap is_there (get-put m k id v) ∙ pushed (k == id) v (get m id)
  where
    pushed :
        {V : Type 0} (b : Bool) (v : V) (o : Option V)
        → is_there (if b then some v else o) ≡ (if b then true else is_there o)
    pushed true v o = refl
    pushed false v o = refl

has-cons :
    {V : Type 0} (m : Map Str V) (k id : Str) (v : V)
    → has ((k, v) ∷ m) id ≡ (if k == id then true else has m id)
unfolding get
has-cons m k id v = elim (Bool-cases (k == id)) [ inl e ↦ rw e refl | inr e ↦ rw e refl ]

or_assoc : (a b c : Bool) → ((a || b) || c) ≡ (a || (b || c))
or_assoc true b c = refl
or_assoc false b c = refl

or_if : (b x y : Bool) → ((if b then true else x) || y) ≡ (x || (if b then true else y))
or_if true true y = refl
or_if true false y = refl
or_if false x y = refl

desired_jobs-any :
    (m : Map Str Job) (jobs : List Job) (id : Str)
    → has (desired_jobs m jobs) id ≡ (has m id || any (λ j. j.id == id) jobs)
unfolding desired_jobs
desired_jobs-any m [] id = sym (or_nothing (has m id))
desired_jobs-any m (j ∷ js) id =
    desired_jobs-any (put m j.id j) js id
    ∙ rw (has-put m j.id id j) (or_if_is (j.id == id) (has m id) (any (λ j. j.id == id) js))
  where
    or_if_is : (b x y : Bool) → ((if b then true else x) || y) ≡ (x || (b || y))
    or_if_is true true y = refl
    or_if_is true false y = refl
    or_if_is false x y = refl

module _ {C Schedule : Type 0} (engine : HostCron C Schedule) where
  -- What is kept is desired.
  drop_outdated-has :
      (now : ℕ) (desired : Map Str Job) (c : C) (entries : Map Str ℕ) (id : Str)
      → has desired id ≡ false
      → has (drop_outdated engine now desired c entries).1 id ≡ false
  unfolding drop_outdated get
  drop_outdated-has now desired c [] id h = refl
  drop_outdated-has now desired c ((k, eid) ∷ entries) id h =
      elim (Bool-cases (is_outdated engine now c eid (get desired k))) [
        | inl e ↦ rw e (drop_outdated-has now desired (engine.remove_entry c eid) entries id h)
        | inr e ↦
            rw e
              (has-cons _ k id eid ∙ rw (other k e) (drop_outdated-has now desired c entries id h))
      ]
    where
      other : (k : Str) → is_outdated engine now c eid (get desired k) ≡ false → (k == id) ≡ false
      other k e = elim (Bool-cases (k == id)) [
        | inl f ↦
            let here : (has desired k ≡ false) = rw ((str_beq_iff k id).0 f) h in
            elim (Option-cases (get desired k)) [
              | inl g ↦ let bad = rw (is_outdated, g) at e in ground arith
              | inr (w, g) ↦ let bad = rw g at here in ground arith
            ]
        | inr f ↦ f
      ]

  -- The end of the loop that adds, where no error ends it.
  abbrev Adds : Bool → Str → HostScheduler C × Option HostError → Type 0
  Adds b id (s, none) = has s.entries id ≡ b
  Adds b id (s, some e) = Unit

  -- An entry that is there need not be added.
  kept_there :
      (s : HostScheduler C) (k id : Str) (eid : ℕ) (b : Bool)
      → get s.entries k ≡ some eid
      → (has s.entries id || (if k == id then true else b)) ≡ (has s.entries id || b)
  kept_there s k id eid b e = elim (Bool-cases (k == id)) [
    | inl f ↦
        let there : (has s.entries id ≡ true) =
          subst (λ i. has s.entries i ≡ true) ((str_beq_iff k id).0 f) (ap is_there e) in
        rw there refl
    | inr f ↦ rw f refl
  ]

  add_new-Adds :
      (s : HostScheduler C) (desired : Map Str Job) (id : Str)
      → Adds (has s.entries id || has desired id) id (add_new engine s desired)
  unfolding add_new
  add_new-Adds s [] id = unfold get in sym (or_nothing (has s.entries id))
  add_new-Adds s ((k, j) ∷ desired) id = elim (Option-cases (get s.entries k)) [
    | inr (eid, e) ↦ rw e (
        subst (λ b. Adds b id (add_new engine s desired))
          (sym (
            ap (λ b. has s.entries id || b) (has-cons desired k id j)
            ∙ kept_there s k id eid (has desired id) e))
          (add_new-Adds s desired id))
    | inl e ↦ elim (Result-cases (engine.add_func s.cron j.schedule j)) [
      | inr (bad, f) ↦ rw (e, f) tt
      | inl ((eid, c), f) ↦
          let added : HostScheduler C = record { cron = c; entries = put s.entries k eid } in
          rw (e, f)
            (subst (λ b. Adds b id (add_new engine added desired))
              (ap (λ b. b || has desired id) (has-put s.entries k id eid)
                ∙ or_if (k == id) (has s.entries id) (has desired id)
                ∙ ap (λ b. has s.entries id || b) (sym (has-cons desired k id j)))
              (add_new-Adds added desired id))
    ]
  ]

  -- The jobs that a reload is to end up with.
  abbrev pub IsMirrored : Result Str (List Job) → HostScheduler C × Option HostError → Type 0
  IsMirrored (ok jobs) (s, none) = (id : Str) → has s.entries id ≡ any (λ j. j.id == id) jobs
  IsMirrored _ _ = Unit

  synced-IsMirrored :
      {F : Type 0} (file : JobFile F) (now : ℕ) (s : HostScheduler C) (r : Result Str (List Job))
      → IsMirrored r (synced engine file now s r)
  unfolding get
  synced-IsMirrored file now s (err e) = tt
  synced-IsMirrored file now s (ok jobs) =
      ends (add_new engine _ (desired_jobs [] jobs))
        (λ id. add_new-Adds _ (desired_jobs [] jobs) id)
    where
      kept :
          (id : Str) (b : Bool)
          → has (desired_jobs [] jobs) id ≡ b
          → (has (drop_outdated engine now (desired_jobs [] jobs) s.cron s.entries).1 id
              || has (desired_jobs [] jobs) id)
            ≡ has (desired_jobs [] jobs) id
      kept id true e =
          rw e
            (or_true (has (drop_outdated engine now (desired_jobs [] jobs) s.cron s.entries).1 id))
      kept id false e =
          rw (e, drop_outdated-has now (desired_jobs [] jobs) s.cron s.entries id e) refl

      ends :
          (r : HostScheduler C × Option HostError)
          → ((id : Str)
              → Adds
                  (has (drop_outdated engine now (desired_jobs [] jobs) s.cron s.entries).1 id
                    || has (desired_jobs [] jobs) id)
                  id
                  r)
          → IsMirrored (ok jobs) r
      ends (s', some e) h = tt
      ends (s', none) h =
          λ id. h id ∙ kept id (has (desired_jobs [] jobs) id) refl ∙ desired_jobs-any [] jobs id

  -- After a Reload without an error, the scheduler has an entry for exactly the ids that the job file
  -- lists.
  pub reload-IsMirrored :
      {F : Type 0} (file : JobFile F) (now : ℕ) (f : F) (s : HostScheduler C)
      → IsMirrored (file.load f) (reload engine file now f s)
  unfolding reload
  reload-IsMirrored file now f s = synced-IsMirrored file now s (file.load f)
