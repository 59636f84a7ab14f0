-- ===== src/Scheduler/Reconcile.antt =====
-- What the cron engine runs after a reconcile.
use cfunc.Base.{ℕ, [], Option, none, some, Str, get, get_zero, str_eq, ◌==◌, if◌then◌else◌}
use cfunc.State.Data.{CronJob}
use cfunc.Scheduler.{Cron, StateScheduler}

module _ {C : Type 0} (engine : Cron C) where
  -- What runs for an id: its entry, or else the desired job.
  abbrev pub filled : C → Option ℕ → Option CronJob → Option CronJob
  filled c (some eid) want = engine.runs c eid
  filled c none want = want

  -- What runs for an id after a reconcile: nothing where the store has no such job; the old job
  -- where the schedule on record is that of the store's job; and the store's job otherwise.
  abbrev pub settled : StateScheduler C → Option CronJob → Str → Option CronJob
  settled s none id = none
  settled s (some want) id =
      if want.schedule == get_zero [] (get s.specs id)
      then filled s.cron (get s.entries id) (some want)
      else some want
