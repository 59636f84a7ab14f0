-- ===== src/Scheduler/Jobs.antt =====
-- The job file of internal/scheduler/scheduler.go. The file and the parser of schedules are
-- parameters; a mutex makes each method one step.
use mathlib.Core.List.{Perm}
use cfunc.Base.{
  IsSorted, sort_by-perm, sort_by-IsSorted, str_less_asym, str_less_trans, ◌≡◌, ◌≢◌, Bool, true,
  false, not, List, [], ◌∷◌, ◌++◌, Str, str_eq, str_beq_iff, ◌==◌, if◌then◌else◌, Result, ok, err,
  any, keep, All, sort_by, str_less, arith, Bool-cases, Result-cases, inl, inr,
}
use cfunc.Names.{is_valid_function_name}
use cfunc.Scheduler.{Job}

pub data JobError : Type 0 where
  invalid_job_id schedule_required invalid_function_name : JobError
  invalid_schedule job_exists : JobError
  file_failed : Str → JobError

-- The job file: what reading and decoding it gives, and what encoding and replacing it leaves. A
-- write that succeeds is read back.
pub record JobFile (F : Type 0) : Type 0 where
  pub load : F → Result Str (List Job)
  pub save : F → List Job → Result Str F
  pub load-save : (f f' : F) (jobs : List Job) → save f jobs ≡ ok f' → load f' ≡ ok jobs

-- Validate; none is `ok`. The id and the function have the gateway's allow-list.
unfoldable pub validate : Job → Result JobError (Unit {0})
validate j =
    if not (is_valid_function_name j.id)
    then err invalid_job_id
    else if j.schedule == []
    then err schedule_required
    else if not (is_valid_function_name j.function)
    then err invalid_function_name
    else ok tt

abbrev pub by_id : Job → Job → Bool
by_id a b = str_less a.id b.id

module _ {F : Type 0} (file : JobFile F) (parses : Str → Bool) where
  abbrev pub saved : Result Str F → Result JobError F
  saved (ok f) = ok f
  saved (err e) = err (file_failed e)

  -- save sorts the jobs by id.
  abbrev pub save_sorted : F → List Job → Result JobError F
  save_sorted f jobs = saved (file.save f (sort_by by_id jobs))

  abbrev pub appended : F → Job → Result Str (List Job) → Result JobError F
  appended f j (err e) = err (file_failed e)
  appended f j (ok jobs) =
      if any (λ existing. existing.id == j.id) jobs
      then err job_exists
      else save_sorted f (jobs ++ j ∷ [])

  abbrev pub checked : F → Job → Result JobError (Unit {0}) → Result JobError F
  checked f j (err e) = err e
  checked f j (ok _) =
      if not (parses j.schedule) then err invalid_schedule else appended f j (file.load f)

  -- Add
  unfoldable pub add_job : F → Job → Result JobError F
  add_job f j = checked f j (validate j)

  abbrev pub without : F → Str → Result Str (List Job) → Result JobError F
  without f id (err e) = err (file_failed e)
  without f id (ok jobs) = save_sorted f (keep (λ j. not (j.id == id)) jobs)

  -- Remove
  unfoldable pub remove_job : F → Str → Result JobError F
  remove_job f id = without f id (file.load f)

-- A job file that was written by Add: the job is valid and new, and the file lists it with the
-- others, sorted by id.
pub record IsAdded (parses : Str → Bool) (j : Job) (before after : List Job) : Type 0 where
  pub valid : validate j ≡ ok tt
  pub parsed : parses j.schedule ≡ true
  pub fresh : All (λ old. old.id ≢ j.id) before
  pub same : Perm after (before ++ j ∷ [])
  pub sorted : IsSorted by_id after

by_id_asym : (a b : Job) → by_id a b ≡ true → by_id b a ≡ false
by_id_asym a b h = str_less_asym a.id b.id h

by_id_trans : (a b c : Job) → by_id b a ≡ false → by_id c b ≡ false → by_id c a ≡ false
by_id_trans a b c h k = str_less_trans a.id b.id c.id h k

by_id-IsSorted : (jobs : List Job) → IsSorted by_id (sort_by by_id jobs)
by_id-IsSorted jobs = sort_by-IsSorted by_id by_id_asym by_id_trans jobs

any-fresh :
    (id : Str) (jobs : List Job)
    → any (λ old. old.id == id) jobs ≡ false
    → All (λ old. old.id ≢ id) jobs
any-fresh id [] h = tt
any-fresh id (old ∷ jobs) h =
    let test = str_beq_iff old.id id in (ground arith, any-fresh id jobs (ground arith))

module _ {F : Type 0} (file : JobFile F) (parses : Str → Bool) (f : F) {f' : F} where
  save_sorted-load :
      (jobs : List Job)
      → save_sorted file parses f jobs ≡ ok f'
      → file.load f' ≡ ok (sort_by by_id jobs)
  save_sorted-load jobs h = elim (Result-cases (file.save f (sort_by by_id jobs))) [
    | inl (g, e) ↦
        let same : (g ≡ f') = let k = rw e at h in ground arith in
        file.load-save f f' _ (rw same at e)
    | inr (er, e) ↦ let bad = rw e at h in ground arith
  ]

  -- An Add that succeeds found a readable file, a valid job with a schedule that parses and an id
  -- that no job in the file has; then the file lists the old jobs and the new one, sorted by id.
  pub add_job-IsAdded :
      (j : Job)
      → add_job file parses f j ≡ ok f'
      → (before : List Job) × (after : List Job) × (file.load f ≡ ok before)
        × (file.load f' ≡ ok after)
        × IsAdded parses j before after
  unfolding add_job
  add_job-IsAdded j h = elim (Result-cases (validate j)) [
    | inr (er, e) ↦ let bad = rw e at h in ground arith
    | inl (u, e) ↦ elim (Bool-cases (parses j.schedule)) [
      | inr e' ↦ let bad = rw (e, e') at h in ground arith
      | inl e' ↦ elim (Result-cases (file.load f)) [
        | inr (er, e'') ↦ let bad = rw (e, e', e'') at h in ground arith
        | inl (jobs, e'') ↦ elim (Bool-cases (any (λ old. old.id == j.id) jobs)) [
          | inl dup ↦ let bad = rw (e, e', e'', dup) at h in ground arith
          | inr new ↦ (
            jobs,
            sort_by by_id (jobs ++ j ∷ []),
            e'',
            save_sorted-load (jobs ++ j ∷ []) (rw (e, e', e'', new) at h),
            record {
              valid = e;
              parsed = e';
              fresh = any-fresh j.id jobs new;
              same = sort_by-perm by_id (jobs ++ j ∷ []);
              sorted = by_id-IsSorted (jobs ++ j ∷ []);
            },
          )
        ]
      ]
    ]
  ]

  -- A Remove that succeeds leaves in the file the jobs of another id, sorted, whether or not the id
  -- was there.
  pub remove_job-IsSorted :
      (id : Str)
      → remove_job file parses f id ≡ ok f'
      → (before : List Job) × (after : List Job) × (file.load f ≡ ok before)
        × (file.load f' ≡ ok after)
        × Perm after (keep (λ j. not (j.id == id)) before)
        × IsSorted by_id after
  unfolding remove_job
  remove_job-IsSorted id h = elim (Result-cases (file.load f)) [
    | inr (er, e) ↦ let bad = rw e at h in ground arith
    | inl (jobs, e) ↦ (
      jobs,
      sort_by by_id (keep (λ j. not (j.id == id)) jobs),
      e,
      save_sorted-load (keep (λ j. not (j.id == id)) jobs) (rw e at h),
      sort_by-perm by_id (keep (λ j. not (j.id == id)) jobs),
      by_id-IsSorted (keep (λ j. not (j.id == id)) jobs),
    )
  ]
