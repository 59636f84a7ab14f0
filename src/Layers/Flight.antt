-- ===== src/Layers/Flight.antt =====
-- internal/gateway/layers.go: callers of ensureLocal for one digest, interleaved. Each action is a
-- look at the disk, a critical section of the resolver's mutex, a pull, or an operation on a channel.
pub mod Served
pub mod Moves
pub mod Single
pub mod Closing
pub mod Released
use cfunc.Base.{
  ℕ, ◌+◌, Bool, true, false, List, [], ◌∷◌, ◌++◌, Option, none, some, get_elem?, set, contains,
  if◌then◌else◌, nat_eq,
}

-- A caller is about to look at the disk (`asking`) or to take the mutex (`locking`), waits on a
-- channel, has the slot and looks again (`holding`) or pulls (`fetching`), takes itself out of the
-- map (`leaving`) and closes its channel (`closing`), or is done, with success or not.
pub data Caller : Type 0 where
  asking locking : Caller
  waiting holding fetching : ℕ → Caller
  leaving closing : ℕ → Bool → Caller
  returned : Bool → Caller

-- `present` is what a look at the target says, `slot` the channel that the map has for the digest,
-- and `installs` counts the renames onto the target.
pub record Flight : Type 0 where
  pub present : Bool
  pub slot : Option ℕ
  pub next_channel : ℕ
  pub closed : List ℕ
  pub installs : ℕ
  pub callers : List Caller

abbrev pub no_callers : Flight
no_callers = record {
  present = false;
  slot = none;
  next_channel = 0;
  closed = [];
  installs = 0;
  callers = [];
}

pub data CallerAction : Type 0 where
  arrive : CallerAction
  -- Caller `i` goes on; a pull succeeds or not, and a wait may be cancelled.
  look lock recheck leave finish resume cancel : ℕ → CallerAction
  pulled : ℕ → Bool → CallerAction

abbrev pub at : Flight → ℕ → Caller → Flight
at s i c = record s { callers = set s.callers i c }

abbrev pub slot_locked : Flight → ℕ → Option ℕ → Flight
slot_locked s i (some channel) = at s i (waiting channel)
slot_locked s i none = record s {
  slot = some s.next_channel;
  next_channel = s.next_channel + 1;
  callers = set s.callers i (holding s.next_channel);
}

abbrev pub fetched : Flight → ℕ → ℕ → Bool → Flight
fetched s i channel true = record s {
  present = true;
  installs = s.installs + 1;
  callers = set s.callers i (leaving channel true);
}
fetched s i channel false = at s i (leaving channel false)

-- An action of a caller that is not at that point changes nothing.
abbrev pub act_on : Flight → CallerAction → ℕ → Option Caller → Flight
act_on s (look _) i (some asking) = at s i (if s.present then returned true else locking)
act_on s (lock _) i (some locking) = slot_locked s i s.slot
act_on s (recheck _) i (some (holding channel)) =
    at s i (if s.present then leaving channel true else fetching channel)
act_on s (pulled _ good) i (some (fetching channel)) = fetched s i channel good
act_on s (leave _) i (some (leaving channel good)) = record s {
  slot = none;
  callers = set s.callers i (closing channel good);
}
act_on s (finish _) i (some (closing channel good)) = record s {
  closed = channel ∷ s.closed;
  callers = set s.callers i (returned good);
}
act_on s (resume _) i (some (waiting channel)) =
    if contains s.closed channel then at s i (returned true) else s
act_on s (cancel _) i (some (waiting channel)) = at s i (returned false)
act_on s _ i _ = s

unfoldable pub caller_step : Flight → CallerAction → Flight
caller_step s arrive = record s { callers = s.callers ++ asking ∷ [] }
caller_step s (look i) = act_on s (look i) i (get_elem? s.callers i)
caller_step s (lock i) = act_on s (lock i) i (get_elem? s.callers i)
caller_step s (recheck i) = act_on s (recheck i) i (get_elem? s.callers i)
caller_step s (pulled i good) = act_on s (pulled i good) i (get_elem? s.callers i)
caller_step s (leave i) = act_on s (leave i) i (get_elem? s.callers i)
caller_step s (finish i) = act_on s (finish i) i (get_elem? s.callers i)
caller_step s (resume i) = act_on s (resume i) i (get_elem? s.callers i)
caller_step s (cancel i) = act_on s (cancel i) i (get_elem? s.callers i)

unfoldable pub run_callers : Flight → List CallerAction → Flight
run_callers s [] = s
run_callers s (a ∷ actions) = run_callers (caller_step s a) actions
