-- ===== src/Layers/Flight/Single.antt =====
-- Concurrent callers of ensureLocal make one pull at a time, and none is left waiting.
use cfunc.Base.{
  ◌≡◌, refl, inl, inr, ℕ, true, false, List, [], ◌∷◌, ◌++◌, Option, none, some, get_elem?,
  tally-append, All-append, arith, nat_eq,
}
use cfunc.Layers.Flight.{
  look, lock, recheck, pulled, leave, finish, resume, cancel, arrive, Flight, Caller, asking,
  locking, waiting, holding, fetching, leaving, closing, no_callers, CallerAction, act_on,
  caller_step, run_callers,
}
use cfunc.Layers.Flight.Served.{
  All-map, IsHeld, IsServed, IsSingle, Waits, Waits-map, has_channel, has_slot, is_fetching, moves,
  will_close,
}
use cfunc.Layers.Flight.Moves.{
  finished-IsSingle, left-IsSingle, looked-IsSingle, pulled-IsSingle, rechecked-IsSingle,
  released-IsSingle, resumed-IsSingle, slot_locked-IsSingle,
}

arrived-IsSingle :
    (s : Flight) → IsSingle s → IsSingle (record s { callers = s.callers ++ asking ∷ [] })
arrived-IsSingle s inv =
    let more = λ (f : Caller → ℕ). tally-append f s.callers (asking ∷ []) in
    record {
      held = still s.slot inv.held;
      idle = λ p. omega (arith, more is_fetching, inv.idle p);
      once = inv.once;
      served =
          All-append (Waits s.closed (s.callers ++ asking ∷ [])) s.callers (asking ∷ [])
            (All-map (Waits s.closed s.callers) (Waits s.closed (s.callers ++ asking ∷ []))
              s.callers inv.served
              (Waits-map s.closed s.closed s.callers (s.callers ++ asking ∷ []) keeps))
            (tt, tt);
    }
  where
    still : (slot : Option ℕ) → IsHeld slot s.callers → IsHeld slot (s.callers ++ asking ∷ [])
    still none h = omega (arith, tally-append has_slot s.callers (asking ∷ []), h)
    still (some c) h = (
      omega (arith, tally-append has_slot s.callers (asking ∷ []), h.0),
      omega (arith, tally-append (has_channel c) s.callers (asking ∷ []), h.1),
    )

    keeps : (c : ℕ) → IsServed s.closed s.callers c → IsServed s.closed (s.callers ++ asking ∷ []) c
    keeps c (inl h) = inl h
    keeps c (inr h) = inr (omega (arith, tally-append (will_close c) s.callers (asking ∷ []), h))

act_on-IsSingle :
    (s : Flight) (a : CallerAction) (i : ℕ) (t : Option Caller)
    → IsSingle s
    → get_elem? s.callers i ≡ t
    → IsSingle (act_on s a i t)
act_on-IsSingle s (look j) i (some asking) inv here = looked-IsSingle s i inv here
act_on-IsSingle s (lock j) i (some locking) inv here = slot_locked-IsSingle s i inv here s.slot refl
act_on-IsSingle s (recheck j) i (some (holding c)) inv here = rechecked-IsSingle s i inv c here
act_on-IsSingle s (pulled j true) i (some (fetching c)) inv here = pulled-IsSingle s i inv c here
act_on-IsSingle s (pulled j false) i (some (fetching c)) inv here =
    moves s i (fetching c) (leaving c false) here inv refl (λ d. refl) (λ d. omega arith)
      (λ p. omega arith) tt
act_on-IsSingle s (leave j) i (some (leaving c good)) inv here = left-IsSingle s i inv c good here
act_on-IsSingle s (finish j) i (some (closing c good)) inv here =
    finished-IsSingle s i inv c good here
act_on-IsSingle s (resume j) i (some (waiting c)) inv here = resumed-IsSingle s i inv c here
act_on-IsSingle s (cancel j) i (some (waiting c)) inv here = released-IsSingle s i inv c false here
act_on-IsSingle s a i t inv here = inv

caller_step-IsSingle : (s : Flight) (a : CallerAction) → IsSingle s → IsSingle (caller_step s a)
unfolding caller_step
caller_step-IsSingle s arrive inv = arrived-IsSingle s inv
caller_step-IsSingle s (look i) inv = act_on-IsSingle s (look i) i _ inv refl
caller_step-IsSingle s (lock i) inv = act_on-IsSingle s (lock i) i _ inv refl
caller_step-IsSingle s (recheck i) inv = act_on-IsSingle s (recheck i) i _ inv refl
caller_step-IsSingle s (pulled i good) inv = act_on-IsSingle s (pulled i good) i _ inv refl
caller_step-IsSingle s (leave i) inv = act_on-IsSingle s (leave i) i _ inv refl
caller_step-IsSingle s (finish i) inv = act_on-IsSingle s (finish i) i _ inv refl
caller_step-IsSingle s (resume i) inv = act_on-IsSingle s (resume i) i _ inv refl
caller_step-IsSingle s (cancel i) inv = act_on-IsSingle s (cancel i) i _ inv refl

run_callers-keeps :
    (s : Flight) (actions : List CallerAction) → IsSingle s → IsSingle (run_callers s actions)
unfolding run_callers
run_callers-keeps s [] inv = inv
run_callers-keeps s (a ∷ actions) inv =
    run_callers-keeps (caller_step s a) actions (caller_step-IsSingle s a inv)

-- However callers of one digest interleave, and whether their pulls succeed or fail: the map has a
-- channel for the digest exactly while one caller has the slot, and it is that caller's; a pull is under
-- way only while the layer is not on disk; the layer is installed once if it is on disk and never
-- otherwise; and the channel that a caller waits on is closed, or a caller under way will close it.
pub run_callers-IsSingle : (actions : List CallerAction) → IsSingle (run_callers no_callers actions)
run_callers-IsSingle actions =
    run_callers-keeps no_callers actions
      (record { held = refl; idle = λ p. refl; once = refl; served = tt })
