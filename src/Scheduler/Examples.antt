-- ===== src/Scheduler/Examples.antt =====
-- An engine that meets the interface, and a reconcile on it.
use cfunc.Scheduler.Leadership.{IsSilent, turns, tick, stop-turns}
use cfunc.Scheduler.{Job, Cron, StateScheduler, new_with_state, reconcile, add_desired, start, stop}
use cfunc.Scheduler.Jobs.{JobFile, add_job, remove_job, IsAdded, by_id, add_job-IsAdded}
use cfunc.Base.{
  IsSorted, keep, not, ◌≡◌, refl, sym, ap, ℕ, zero, suc, Bool, true, false, List, [], ◌∷◌, ◌++◌,
  Option, none, some, Str, lit, get, str_eq, ◌==◌, nat_beq, if◌then◌else◌, Result, ok, err, arith,
  length, Bool-cases, inl, inr, put,
}
use cfunc.State.Data.{CronJob}
use cfunc.Scheduler.Wired.{armed}

-- The entries in the order of their numbers, a removed one empty.
abbrev Slots : Type 0
Slots = List (Option CronJob)

abbrev slot : Slots → ℕ → Option CronJob
slot [] i = none
slot (x ∷ xs) zero = x
slot (x ∷ xs) (suc i) = slot xs i

abbrev clear : Slots → ℕ → Slots
clear [] i = []
clear (x ∷ xs) zero = none ∷ xs
clear (x ∷ xs) (suc i) = x ∷ clear xs i

slot-end : (xs : Slots) → slot xs (length xs) ≡ none
slot-end [] = refl
slot-end (x ∷ xs) = slot-end xs

slot-append :
    (xs : Slots) (j : CronJob) (i : ℕ)
    → slot (xs ++ some j ∷ []) i ≡ (if nat_beq (length xs) i then some j else slot xs i)
slot-append [] j zero = refl
slot-append [] j (suc i) = ground arith
slot-append (x ∷ xs) j zero = ground arith
slot-append (x ∷ xs) j (suc i) = ground (arith, slot-append xs j i)

slot-clear :
    (xs : Slots) (k i : ℕ) → slot (clear xs k) i ≡ (if nat_beq k i then none else slot xs i)
slot-clear [] k i = ground arith
slot-clear (x ∷ xs) zero zero = ground arith
slot-clear (x ∷ xs) zero (suc i) = ground arith
slot-clear (x ∷ xs) (suc k) zero = ground arith
slot-clear (x ∷ xs) (suc k) (suc i) = ground (arith, slot-clear xs k i)

-- An empty schedule does not parse.
abbrev add_slot : Slots → Str → CronJob → Result Str (ℕ × Slots)
add_slot xs schedule j =
    if schedule == [] then err (lit "empty spec string") else ok (length xs, xs ++ some j ∷ [])

add_slot-ok :
    (xs ys : Slots) (schedule : Str) (j : CronJob) (id : ℕ)
    → add_slot xs schedule j ≡ ok (id, ys)
    → (length xs ≡ id) × (xs ++ some j ∷ [] ≡ ys)
add_slot-ok xs ys schedule j id h = elim (Bool-cases (schedule == [])) [
  | inl e ↦ ground arith
  | inr e ↦ (ground arith, ground arith)
]

abbrev slots : Cron Slots
slots = record {
  add_func = add_slot;
  remove_entry = clear;
  runs = slot;
  add_fresh = λ c c' schedule j id h.
      let (same, made) = add_slot-ok c c' schedule j id h in rw (← same) (slot-end c);
  add_runs = λ c c' schedule j id i h.
      let (same, made) = add_slot-ok c c' schedule j id h in
      rw (← same, ← made) (slot-append c j i);
  remove_runs = slot-clear;
}

abbrev nightly : CronJob
nightly = record {
  id = lit "nightly";
  schedule = lit "0 3 * * *";
  function = lit "report";
  method = lit "POST";
  body = [];
  headers = [];
  project = lit "default";
  updated_at = 5;
}

-- The scheduler after the job is registered, and the job with another function.
abbrev running : StateScheduler Slots
running = (reconcile slots (new_with_state []) (ok (nightly ∷ []))).1

abbrev edited : CronJob
edited = record nightly { function = lit "cleanup" }

-- The edit is not seen: the old function is called on.
still_old :
    armed slots
      (reconcile slots running (ok (edited ∷ []))).1.cron
      (reconcile slots running (ok (edited ∷ []))).1.entries
      (lit "nightly")
    ≡ some nightly
unfolding get reconcile cfunc.Scheduler.add_missing add_desired put cfunc.Scheduler.add_one
    cfunc.Scheduler.prune new_with_state cfunc.Base.str_beq
still_old = refl

-- A job file that never fails.
abbrev disk : JobFile (List Job)
disk = record { load = λ f. ok f; save = λ f jobs. ok jobs; load-save = λ f f' jobs h. sym h }

abbrev any_schedule : Str → Bool
any_schedule s = true

abbrev weekly : Job
weekly = record {
  id = lit "weekly";
  schedule = lit "0 4 * * 1";
  function = lit "report";
  method = [];
  body = [];
  headers = [];
}

abbrev alpha : Job
alpha = record weekly { id = lit "alpha" }

added_alpha : add_job disk any_schedule (weekly ∷ []) alpha ≡ ok (alpha ∷ weekly ∷ [])
unfolding add_job cfunc.Scheduler.Jobs.validate cfunc.Names.is_valid_function_name
    cfunc.Base.str_beq cfunc.Base.sort_by cfunc.Base.str_less
added_alpha = refl

add_job-IsAdded_example :
    (before : List Job) × (after : List Job) × (disk.load (weekly ∷ []) ≡ ok before)
    × (disk.load (alpha ∷ weekly ∷ []) ≡ ok after)
    × IsAdded any_schedule alpha before after
add_job-IsAdded_example = add_job-IsAdded disk any_schedule (weekly ∷ []) alpha added_alpha

removed_weekly : remove_job disk any_schedule (alpha ∷ weekly ∷ []) (lit "weekly") ≡ ok (alpha ∷ [])
unfolding remove_job cfunc.Base.sort_by cfunc.Base.str_beq
removed_weekly = refl

stop-turns_example : IsSilent slots (
    stop slots
      (turns slots (start slots (new_with_state []) (ok (nightly ∷ [])) true).1 (tick true ∷ [])))
stop-turns_example = stop-turns slots [] (ok (nightly ∷ [])) true (tick true ∷ [])
