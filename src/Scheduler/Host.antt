-- ===== src/Scheduler/Host.antt =====
-- The single-host scheduler of internal/scheduler/scheduler.go: it mirrors a job file in the cron
-- engine. The engine and the job file are parameters, a time is an argument.
pub mod Reloaded
mod Examples
use cfunc.Base.{
  ℕ, Bool, true, false, not, List, [], ◌∷◌, Option, none, some, Str, Map, get, put, remove, str_eq,
  nat_beq, ◌==◌, if◌then◌else◌, Result, ok, err,
}
use cfunc.Scheduler.{Job}
use cfunc.Scheduler.Jobs.{JobFile}

-- What the scheduler uses of the cron library: a schedule with its next time after a given one, and
-- the schedule of an entry.
pub record HostCron (C Schedule : Type 0) : Type 0 where
  pub add_func : C → Str → Job → Result Str (ℕ × C)
  pub remove_entry : C → ℕ → C
  pub entry : C → ℕ → Option Schedule
  pub parse_standard : Str → Result Str Schedule
  pub next : Schedule → ℕ → ℕ

pub record HostScheduler (C : Type 0) : Type 0 where
  pub cron : C
  pub entries : Map Str ℕ

pub data HostError : Type 0 where
  list_failed : Str → HostError
  register_failed : Str → Str → HostError

pub data FireResult (E : Type 0) : Type 0 where
  file_failed : Str → FireResult E
  job_not_found : FireResult E
  has_fired : Option E → FireResult E

unfoldable pub new_host : {C : Type 0} → C → HostScheduler C
new_host c = record { cron = c; entries = [] }

unfoldable pub desired_jobs : Map Str Job → List Job → Map Str Job
desired_jobs m [] = m
desired_jobs m (j ∷ js) = desired_jobs (put m j.id j) js

module _ {C Schedule : Type 0} (engine : HostCron C Schedule) where
  abbrev pub same_next : ℕ → Result Str Schedule → Option Schedule → Bool
  same_next now (err e) live = false
  same_next now (ok parsed) none = false
  same_next now (ok parsed) (some live) = nat_beq (engine.next parsed now) (engine.next live now)

  -- sameSchedule
  unfoldable pub same_schedule : ℕ → Job → ℕ → C → Bool
  same_schedule now want eid c =
      same_next now (engine.parse_standard want.schedule) (engine.entry c eid)

  abbrev pub is_outdated : ℕ → C → ℕ → Option Job → Bool
  is_outdated now c eid none = true
  is_outdated now c eid (some want) = not (same_schedule now want eid c)

  -- The loop that removes the jobs that are gone or changed.
  unfoldable pub drop_outdated : ℕ → Map Str Job → C → Map Str ℕ → C × Map Str ℕ
  unfolding same_schedule
  drop_outdated now desired c [] = (c, [])
  drop_outdated now desired c ((id, eid) ∷ entries) =
      let gone = is_outdated now c eid (get desired id) in
      let (c', kept) =
        drop_outdated now desired (if gone then engine.remove_entry c eid else c) entries in
      (c', if gone then kept else (id, eid) ∷ kept)

  abbrev pub then_register :
      Result Str (ℕ × C)
      → Str
      → HostScheduler C
      → (HostScheduler C → HostScheduler C × Option HostError)
      → HostScheduler C × Option HostError
  then_register (err e) id s next = (s, some (register_failed id e))
  then_register (ok (eid, c)) id s next = next (record { cron = c; entries = put s.entries id eid })

  abbrev pub add_or_skip :
      Option ℕ
      → Str
      → Job
      → HostScheduler C
      → (HostScheduler C → HostScheduler C × Option HostError)
      → HostScheduler C × Option HostError
  add_or_skip (some _) id j s next = next s
  add_or_skip none id j s next = then_register (engine.add_func s.cron j.schedule j) id s next

  -- The loop that adds new jobs; it stops at the first that cannot be registered.
  unfoldable pub add_new : HostScheduler C → Map Str Job → HostScheduler C × Option HostError
  add_new s [] = (s, none)
  add_new s ((id, j) ∷ desired) = add_or_skip (get s.entries id) id j s (λ s'. add_new s' desired)

  module _ {F : Type 0} (file : JobFile F) where
    abbrev pub synced :
        ℕ → HostScheduler C → Result Str (List Job) → HostScheduler C × Option HostError
    synced now s (err e) = (s, some (list_failed e))
    synced now s (ok jobs) =
        let desired = desired_jobs [] jobs in
        let (c, entries) = drop_outdated now desired s.cron s.entries in
        add_new (record { cron = c; entries = entries }) desired

    -- Reload, which is what Start does before the engine runs.
    unfoldable pub reload : ℕ → F → HostScheduler C → HostScheduler C × Option HostError
    reload now f s = synced now s (file.load f)

-- FireNow: the first job of the id is has_fired.
abbrev pub fire_first : {E : Type 0} → (Job → Option E) → Str → List Job → FireResult E
fire_first fire id [] = job_not_found
fire_first fire id (j ∷ js) =
    let rest = fire_first fire id js in if j.id == id then has_fired (fire j) else rest

abbrev pub fire_listed :
    {E : Type 0} → (Job → Option E) → Str → Result Str (List Job) → FireResult E
fire_listed fire id (err e) = file_failed e
fire_listed fire id (ok jobs) = fire_first fire id jobs

unfoldable pub fire_now : {E F : Type 0} → JobFile F → (Job → Option E) → F → Str → FireResult E
fire_now file fire f id = fire_listed fire id (file.load f)
