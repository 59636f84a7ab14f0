-- ===== src/Scheduler/Host/Examples.antt =====
-- A reload with one job, a single fire, and a request's body.
use cfunc.Base.{
  ◌≡◌, refl, ℕ, Bool, true, false, List, [], ◌∷◌, Option, none, some, Str, lit, Result, ok, err,
  length, sym,
}
use cfunc.Scheduler.{Job}
use cfunc.Scheduler.Jobs.{JobFile}
use cfunc.Scheduler.Host.{
  HostCron, HostScheduler, new_host, reload, fire_now, job_not_found, FireResult,
}
use cfunc.Scheduler.Host.Reloaded.{IsMirrored, reload-IsMirrored}

-- An engine that numbers its entries and whose schedules are their texts' lengths.
abbrev numbered : HostCron (List ℕ) ℕ
numbered = record {
  add_func = λ c schedule j. ok (length c, length schedule ∷ c);
  remove_entry = λ c eid. c;
  entry = λ c eid. none;
  parse_standard = λ s. ok (length s);
  next = λ n now. now;
}

abbrev listed : JobFile (List Job)
listed = record { load = λ f. ok f; save = λ f jobs. ok jobs; load-save = λ f f' jobs h. sym h }

abbrev hourly : Job
hourly = record {
  id = lit "h";
  schedule = lit "@hourly";
  function = lit "f";
  method = [];
  body = [];
  headers = [];
}

reload-IsMirrored_example :
    IsMirrored numbered (ok (hourly ∷ [])) (reload numbered listed 0 (hourly ∷ []) (new_host []))
reload-IsMirrored_example = reload-IsMirrored numbered listed 0 (hourly ∷ []) (new_host [])

one_entry :
    reload numbered listed 0 (hourly ∷ []) (new_host [])
    ≡ (record { cron = 7 ∷ []; entries = (lit "h", 0) ∷ [] }, none)
unfolding reload cfunc.Scheduler.Host.add_new cfunc.Scheduler.Host.desired_jobs cfunc.Base.put
    cfunc.Base.get cfunc.Scheduler.Host.drop_outdated new_host
one_entry = refl

abbrev refuse : Job → Option Str
refuse j = some j.function

not_listed : fire_now listed refuse (hourly ∷ []) (lit "x") ≡ job_not_found
unfolding fire_now cfunc.Base.str_beq
not_listed = refl
