-- ===== src/Scheduler.antt =====
-- internal/scheduler/state.go: the scheduler that mirrors the store's cron jobs. The cron engine is an
-- interface; a mutex makes reconcile, tryLeader and the test of fire one step each.
pub mod Wired
pub mod Prune
pub mod Reconcile
pub mod Jobs
pub mod Trigger
pub mod Host
pub mod Leadership
mod Examples
use cfunc.Base.{
  ℕ, Bool, true, false, not, List, [], ◌∷◌, Option, none, some, Str, Map, get, get_zero, put,
  remove, str_eq, nat_beq, ◌==◌, if◌then◌else◌, Result, ok, err, ◌≡◌,
}
use cfunc.State.Data.{
  CronJob, StoreError, Event, EventKind, cron_put, cron_delete, function_put, function_delete,
}

-- What the scheduler uses of the cron library: `runs` is the job behind an entry. An entry's number
-- is new, and adding or removing one leaves the others alone.
pub record Cron (C : Type 0) : Type 0 where
  pub add_func : C → Str → CronJob → Result Str (ℕ × C)
  pub remove_entry : C → ℕ → C
  pub runs : C → ℕ → Option CronJob
  pub add_fresh :
      (c c' : C) (schedule : Str) (j : CronJob) (id : ℕ)
      → add_func c schedule j ≡ ok (id, c')
      → runs c id ≡ none
  pub add_runs :
      (c c' : C) (schedule : Str) (j : CronJob) (id i : ℕ)
      → add_func c schedule j ≡ ok (id, c')
      → runs c' i ≡ (if nat_beq id i then some j else runs c i)
  pub remove_runs :
      (c : C) (id i : ℕ) → runs (remove_entry c id) i ≡ (if nat_beq id i then none else runs c i)

-- `releasable` says that a release function is kept.
pub record StateScheduler (C : Type 0) : Type 0 where
  pub cron : C
  pub entries : Map Str ℕ
  pub specs : Map Str Str
  pub is_leader : Bool
  pub releasable : Bool

unfoldable pub new_with_state : {C : Type 0} → C → StateScheduler C
new_with_state c = record {
  cron = c;
  entries = [];
  specs = [];
  is_leader = false;
  releasable = false;
}

unfoldable pub add_desired : Map Str CronJob → List CronJob → Map Str CronJob
add_desired m [] = m
add_desired m (j ∷ js) = add_desired (put m j.id j) js

-- `!present || want.Schedule != s.specs[id]`
abbrev pub changed : Map Str Str → Str → Option CronJob → Bool
changed specs id none = true
changed specs id (some want) = not (want.schedule == get_zero [] (get specs id))

pub data ReconcileError : Type 0 where
  list_failed : StoreError → ReconcileError
  register_failed : Str → Str → ReconcileError

-- The shape of job that the trigger gets.
pub record Job : Type 0 where
  pub id : Str
  pub schedule : Str
  pub function : Str
  pub method : Str
  pub body : Str
  pub headers : Map Str Str

unfoldable pub job_from_state : CronJob → Job
job_from_state j = record {
  id = j.id;
  schedule = j.schedule;
  function = j.function;
  method = j.method;
  body = j.body;
  headers = j.headers;
}

module _ {C : Type 0} (engine : Cron C) where
  -- The loop that removes the jobs that are gone or have another schedule.
  unfoldable pub prune : Map Str CronJob → C → Map Str Str → Map Str ℕ → C × Map Str Str × Map Str ℕ
  prune desired c specs [] = (c, specs, [])
  prune desired c specs ((id, eid) ∷ entries) =
      let gone = changed specs id (get desired id) in
      let (c', specs', kept) =
        prune desired (if gone then engine.remove_entry c eid else c)
          (if gone then remove specs id else specs) entries in
      (c', specs', if gone then kept else (id, eid) ∷ kept)

  abbrev pub registered :
      StateScheduler C
      → Str
      → CronJob
      → Result Str (ℕ × C)
      → Result ReconcileError (StateScheduler C)
  registered s id j (err e) = err (register_failed id e)
  registered s id j (ok (eid, c)) =
      ok (record s { cron = c; entries = put s.entries id eid; specs = put s.specs id j.schedule })

  unfoldable pub add_one :
      StateScheduler C → Str → CronJob → Result ReconcileError (StateScheduler C)
  add_one s id j = elim (get s.entries id) [
    | some _ ↦ ok s
    | none ↦ registered s id j (engine.add_func s.cron j.schedule j)
  ]

  -- The loop that adds the jobs without an entry. It stops at the first schedule that does not parse.
  unfoldable pub add_missing :
      StateScheduler C → Map Str CronJob → Option ReconcileError × StateScheduler C
  add_missing s [] = (none, s)
  add_missing s ((id, j) ∷ desired) = elim (add_one s id j) [
    | err e ↦ (some e, s)
    | ok s' ↦ add_missing s' desired
  ]

  abbrev pub pruned : StateScheduler C → Map Str CronJob → StateScheduler C
  pruned s desired =
      let (c, specs, entries) = prune desired s.cron s.specs s.entries in
      record s { cron = c; specs = specs; entries = entries }

  unfoldable pub reconcile :
      StateScheduler C → Result StoreError (List CronJob) → Option ReconcileError × StateScheduler C
  reconcile s (err e) = (some (list_failed e), s)
  reconcile s (ok jobs) =
      let desired = add_desired [] jobs in add_missing (pruned s desired) desired

  -- The answer of the elector: true where it grants leadership.
  unfoldable pub try_leader : StateScheduler C → Bool → StateScheduler C
  try_leader s true = record s { is_leader = true; releasable = true }
  try_leader s false = record s { is_leader = false }

  -- The job that the trigger is called with when an entry's time comes.
  abbrev pub fired : Bool → Option CronJob → Option Job
  fired true (some j) = some (job_from_state j)
  fired _ _ = none

  unfoldable pub fire : StateScheduler C → ℕ → Option Job
  fire s eid = fired s.is_leader (engine.runs s.cron eid)

  -- What run does with an event, with what ListCronJobs then returns, and at a tick.
  abbrev pub on_kind :
      StateScheduler C → EventKind → Result StoreError (List CronJob) → StateScheduler C
  on_kind s cron_put listed = (reconcile s listed).1
  on_kind s cron_delete listed = (reconcile s listed).1
  on_kind s function_put listed = s
  on_kind s function_delete listed = s

  unfoldable pub on_event :
      StateScheduler C → Event → Result StoreError (List CronJob) → StateScheduler C
  on_event s ev listed = on_kind s ev.kind listed

  unfoldable pub on_tick : StateScheduler C → Bool → StateScheduler C
  on_tick s granted = if s.is_leader then s else try_leader s granted

  -- Start: the reconcile, whose error is returned, and then the first try for leadership. The
  -- subscription to the store's events is made before.
  abbrev pub started :
      Bool → Option ReconcileError × StateScheduler C → Option ReconcileError × StateScheduler C
  started granted (some e, s) = (some e, s)
  started granted (none, s) = (none, try_leader s granted)

  unfoldable pub start :
      StateScheduler C
      → Result StoreError (List CronJob)
      → Bool
      → Option ReconcileError × StateScheduler C
  start s listed granted = started granted (reconcile s listed)

  -- Stop: leadership is given up where it is held.
  unfoldable pub stop : StateScheduler C → StateScheduler C
  stop s = if s.releasable then record s { is_leader = false; releasable = false } else s
