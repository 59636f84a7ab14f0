-- ===== src/State/InMem.antt =====
-- InMemStore: internal/state/inmem.go, functions, cron jobs and the event channels. A mutex makes
-- each method one step; the clock's reading is an argument. A clone of an immutable value is the
-- value itself.
pub mod Tenancy
pub mod Events
pub mod Functions
pub mod Usage
pub mod Keys
pub mod Audit
use cfunc.Base.{
  ℕ, ◌+◌, Bool, List, [], ◌∷◌, ◌++◌, map, Option, none, some, Str, lit, Map, get, put, remove,
  values, length, ltb, str_eq, nat_eq, if◌then◌else◌, ℤ, pos, Result, ok, err, ◌==◌,
}
use cfunc.State.Data.{
  FunctionDef, CronJob, EventKind, function_put, function_delete, cron_put, cron_delete, Event,
  Project, ApiKey, Quota, AuditEntry, StoreError, not_found,
}

-- `tenancy` says that the maps of ensureTenancyMaps are made. A subscriber's channel is known by a
-- number and holds the events that wait in its buffer; `detached` are the channels that a subscriber
-- may still read but nothing is sent to.
pub record InMemStore : Type 0 where
  pub functions : Map Str FunctionDef
  pub crons : Map Str CronJob
  pub tenancy : Bool
  pub projects : Map Str Project
  pub api_keys : Map Str ApiKey
  pub quotas : Map Str (Map Str Quota)
  pub usage : Map Str (Map Str (Map ℕ ℤ))
  pub audit : List AuditEntry
  pub next_audit_id : ℤ
  pub next_sub : ℕ
  pub subs : Map ℕ (List Event)
  pub detached : Map ℕ (List Event)

unfoldable pub new_in_mem_store : InMemStore
new_in_mem_store = record {
  functions = [];
  crons = [];
  tenancy = Bool.false;
  projects = [];
  api_keys = [];
  quotas = [];
  usage = [];
  audit = [];
  next_audit_id = pos 0;
  next_sub = 0;
  subs = [];
  detached = [];
}

-- make(chan Event, 16)
abbrev pub channel_capacity : ℕ
channel_capacity = 16

-- A send that does not block: a full channel drops the event.
unfoldable pub offer : Event → List Event → List Event
offer ev queue = if ltb (length queue) channel_capacity then queue ++ ev ∷ [] else queue

abbrev offer_to : Event → ℕ × List Event → ℕ × List Event
offer_to ev (ch, queue) = (ch, offer ev queue)

unfoldable pub broadcast : InMemStore → Event → InMemStore
broadcast s ev = record s { subs = map (offer_to ev) s.subs }

-- `Project: "default"` where none is given.
abbrev pub or_default : Str → Str
or_default project = if project == lit "" then lit "default" else project

unfoldable pub get_function : InMemStore → Str → Result StoreError FunctionDef
get_function s name = elim (get s.functions name) [ none ↦ err not_found | some d ↦ ok d ]

unfoldable pub list_functions : InMemStore → List FunctionDef
list_functions s = values s.functions

unfoldable pub put_function : InMemStore → ℕ → FunctionDef → InMemStore
put_function s now def =
    let stored : FunctionDef = record def { project = or_default def.project; updated_at = now } in
    broadcast (record s { functions = put s.functions def.name stored })
      (record { kind = function_put; name = def.name })

unfoldable pub delete_function : InMemStore → Str → InMemStore
delete_function s name =
    broadcast (record s { functions = remove s.functions name })
      (record { kind = function_delete; name = name })

unfoldable pub get_cron_job : InMemStore → Str → Result StoreError CronJob
get_cron_job s id = elim (get s.crons id) [ none ↦ err not_found | some j ↦ ok j ]

unfoldable pub list_cron_jobs : InMemStore → List CronJob
list_cron_jobs s = values s.crons

unfoldable pub put_cron_job : InMemStore → ℕ → CronJob → InMemStore
put_cron_job s now j =
    let stored : CronJob = record j { project = or_default j.project; updated_at = now } in
    broadcast (record s { crons = put s.crons j.id stored })
      (record { kind = cron_put; name = j.id })

unfoldable pub delete_cron_job : InMemStore → Str → InMemStore
delete_cron_job s id =
    broadcast (record s { crons = remove s.crons id }) (record { kind = cron_delete; name = id })

-- Watch: the new channel, and the store that sends to it.
unfoldable pub watch : InMemStore → ℕ × InMemStore
watch s = (s.next_sub, record s { subs = put s.subs s.next_sub []; next_sub = s.next_sub + 1 })

abbrev detach : Map ℕ (List Event) → ℕ → Option (List Event) → Map ℕ (List Event)
detach m ch none = m
detach m ch (some queue) = put m ch queue

-- The goroutine behind Watch, when its context is cancelled. The events that wait can still be read.
unfoldable pub cancel_watch : InMemStore → ℕ → InMemStore
cancel_watch s ch = record s {
  subs = remove s.subs ch;
  detached = detach s.detached ch (get s.subs ch);
}

-- A receive that does not block, and whose event is dropped.
abbrev drain_one : ℕ × List Event → ℕ × List Event
drain_one (ch, []) = (ch, [])
drain_one (ch, ev ∷ queue) = (ch, queue)

-- Close: no subscriber is left.
unfoldable pub close : InMemStore → InMemStore
close s = record s { subs = []; detached = map drain_one s.subs ++ s.detached }

-- A subscriber's receive from its channel, when an event waits.
abbrev taken : List Event → (List Event → InMemStore) → Option (Event × InMemStore)
taken [] rest = none
taken (ev ∷ queue) rest = some (ev, rest queue)

abbrev received :
    InMemStore → ℕ → Option (List Event) → Option (List Event) → Option (Event × InMemStore)
received s ch (some queue) _ = taken queue (λ q. record s { subs = put s.subs ch q })
received s ch none (some queue) = taken queue (λ q. record s { detached = put s.detached ch q })
received s ch none none = none

unfoldable pub receive : InMemStore → ℕ → Option (Event × InMemStore)
receive s ch = received s ch (get s.subs ch) (get s.detached ch)
