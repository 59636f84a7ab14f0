-- ===== src/Scheduler/Leadership.antt =====
-- Who may fire: leadership in internal/scheduler/state.go over the life of a scheduler.
use cfunc.Base.{
  ◌≡◌, refl, sym, ap, ◌∙◌, inl, inr, ℕ, Bool, true, false, List, [], ◌∷◌, Option, none, some, Str,
  Map, get, str_eq, Result, ok, err, arith, if◌then◌else◌, Bool-cases, Option-cases, Result-cases,
}
use cfunc.State.Data.{
  CronJob, StoreError, Event, EventKind, cron_put, cron_delete, function_put, function_delete,
}
use cfunc.Scheduler.{
  Cron, StateScheduler, new_with_state, add_one, add_missing, reconcile, try_leader, on_kind,
  on_event, on_tick, start, started, stop, fire, fired, pruned, ReconcileError, add_desired,
}

-- What the loop of run handles: an event with the listing that follows it, and a tick with the
-- elector's answer.
pub data Turn : Type 0 where
  event : Event → Result StoreError (List CronJob) → Turn
  tick : Bool → Turn

module _ {C : Type 0} (engine : Cron C) where
  abbrev pub turn : StateScheduler C → Turn → StateScheduler C
  turn s (event ev listed) = on_event engine s ev listed
  turn s (tick granted) = on_tick engine s granted

  abbrev pub turns : StateScheduler C → List Turn → StateScheduler C
  turns s [] = s
  turns s (x ∷ xs) = turns (turn s x) xs

  -- A leader keeps what it needs to give leadership up.
  abbrev IsHeld : StateScheduler C → Type 0
  IsHeld s = s.is_leader ≡ true → s.releasable ≡ true

  add_missing-IsHeld :
      (desired : Map Str CronJob) (s : StateScheduler C)
      → IsHeld s
      → IsHeld (add_missing engine s desired).1
  unfolding add_missing add_one
  add_missing-IsHeld [] s h = h
  add_missing-IsHeld ((i, j) ∷ desired) s h = elim (Option-cases (get s.entries i)) [
    | inr (eid, e) ↦ rw (e, add_missing) (add_missing-IsHeld desired s h)
    | inl e ↦ elim (Result-cases (engine.add_func s.cron j.schedule j)) [
      | inl ((eid, c'), added) ↦ rw (e, added, add_missing) (add_missing-IsHeld desired _ h)
      | inr (er, failed) ↦ rw (e, failed, add_missing) h
    ]
  ]

  reconcile-IsHeld :
      (s : StateScheduler C) (listed : Result StoreError (List CronJob))
      → IsHeld s
      → IsHeld (reconcile engine s listed).1
  unfolding reconcile
  reconcile-IsHeld s (err e) h = h
  reconcile-IsHeld s (ok jobs) h =
      add_missing-IsHeld (add_desired [] jobs) (pruned engine s (add_desired [] jobs)) h

  try_leader-IsHeld : (s : StateScheduler C) (granted : Bool) → IsHeld (try_leader engine s granted)
  unfolding try_leader
  try_leader-IsHeld s true = λ h. refl
  try_leader-IsHeld s false = λ h. ground arith

  either-IsHeld :
      (b : Bool) (s t : StateScheduler C) → IsHeld s → IsHeld t → IsHeld (if b then s else t)
  either-IsHeld true s t h k = h
  either-IsHeld false s t h k = k

  turn-IsHeld : (s : StateScheduler C) (x : Turn) → IsHeld s → IsHeld (turn s x)
  unfolding on_event on_tick
  turn-IsHeld s (event ev listed) h = kinds ev.kind
    where
      kinds : (kind : EventKind) → IsHeld (on_kind engine s kind listed)
      kinds cron_put = reconcile-IsHeld s listed h
      kinds cron_delete = reconcile-IsHeld s listed h
      kinds function_put = h
      kinds function_delete = h
  turn-IsHeld s (tick granted) h =
      either-IsHeld s.is_leader s (try_leader engine s granted) h (try_leader-IsHeld s granted)

  turns-IsHeld : (s : StateScheduler C) (xs : List Turn) → IsHeld s → IsHeld (turns s xs)
  turns-IsHeld s [] h = h
  turns-IsHeld s (x ∷ xs) h = turns-IsHeld (turn s x) xs (turn-IsHeld s x h)

  started-IsHeld :
      (granted : Bool) (r : Option ReconcileError × StateScheduler C)
      → IsHeld r.1
      → IsHeld (started engine granted r).1
  started-IsHeld granted (some e, s) h = h
  started-IsHeld granted (none, s) h = try_leader-IsHeld s granted

  start-IsHeld :
      (s : StateScheduler C) (listed : Result StoreError (List CronJob)) (granted : Bool)
      → IsHeld s
      → IsHeld (start engine s listed granted).1
  unfolding start
  start-IsHeld s listed granted h =
      started-IsHeld granted (reconcile engine s listed) (reconcile-IsHeld s listed h)

  new-IsHeld : (c : C) → IsHeld (new_with_state c)
  unfolding new_with_state
  new-IsHeld c h = absurd (ground arith)

  -- A scheduler that is stopped neither leads nor keeps a lock.
  abbrev pub IsSilent : StateScheduler C → Type 0
  IsSilent s =
      (s.is_leader ≡ false) × (s.releasable ≡ false) × ((eid : ℕ) → fire engine s eid ≡ none)

  unled-IsSilent : (s : StateScheduler C) → s.is_leader ≡ false → s.releasable ≡ false → IsSilent s
  unfolding fire
  unled-IsSilent s e r = (e, r, λ eid. ap (λ b. fired engine b (engine.runs s.cron eid)) e)

  either-IsSilent :
      (b : Bool) (s t : StateScheduler C)
      → (b ≡ true → IsSilent s)
      → (b ≡ false → IsSilent t)
      → IsSilent (if b then s else t)
  either-IsSilent true s t h k = h refl
  either-IsSilent false s t h k = k refl

  unheld : (s : StateScheduler C) → IsHeld s → s.releasable ≡ false → s.is_leader ≡ false
  unheld s h e = elim (Bool-cases s.is_leader) [
    | inl led ↦ let bad = sym (h led) ∙ e in ground arith
    | inr unled ↦ unled
  ]

  stop-IsSilent : (s : StateScheduler C) → IsHeld s → IsSilent (stop engine s)
  unfolding stop
  stop-IsSilent s h =
      either-IsSilent s.releasable (record s { is_leader = false; releasable = false }) s
        (λ _. unled-IsSilent (record s { is_leader = false; releasable = false }) refl refl)
        (λ e. unled-IsSilent s (unheld s h e) e)

  -- Whatever the store, the cron library and the elector answer over the life of a scheduler, once it
  -- is stopped it does not lead, keeps no lock, and fires no job.
  pub stop-turns :
      (c : C) (listed : Result StoreError (List CronJob)) (granted : Bool) (xs : List Turn)
      → IsSilent (stop engine (turns (start engine (new_with_state c) listed granted).1 xs))
  stop-turns c listed granted xs =
      stop-IsSilent (turns (start engine (new_with_state c) listed granted).1 xs) (
        turns-IsHeld (start engine (new_with_state c) listed granted).1 xs
          (start-IsHeld (new_with_state c) listed granted (new-IsHeld c)))
