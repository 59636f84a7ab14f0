-- ===== src/Quota.antt =====
-- internal/quota/quota.go: the request-rate limiter. A mutex or an atomic makes each access one
-- step; a counter is known by its project and kind, since its pointer is never replaced.
pub mod Tables
pub mod Allow
pub mod Race
pub mod Flush
pub mod Pushed
mod Examples
use cfunc.Base.{
  ℕ, Bool, true, false, List, [], ◌∷◌, ◌++◌, Option, none, some, Str, lit, Map, get, get_zero, put,
  str_eq, if◌then◌else◌, ℤ, pos, ltz, is_nonpos, add64, Result, ok, err,
}
use cfunc.State.Data.{Project, Quota, StoreError}
use cfunc.State.Iface.{QuotaStore}
use cfunc.State.InMem.Tenancy.{truncate}

abbrev pub kind_requests_per_min : Str
kind_requests_per_min = lit "requests_per_min"

abbrev pub Table : Type 0
Table = Map Str (Map Str ℤ)

-- `m[project][kind]`, and the write to it that makes the inner map where it is missing.
unfoldable pub read : Table → Str → Str → ℤ
read m project kind = get_zero (pos 0) (get (get_zero [] (get m project)) kind)

unfoldable pub write : Table → Str → Str → ℤ → Table
write m project kind v = put m project (put (get_zero [] (get m project)) kind v)

pub record Limiter : Type 0 where
  pub local : Table
  pub remote : Table
  pub limits : Table
  pub last_sync : ℕ

unfoldable pub new_limiter : Limiter
new_limiter = record { local = []; remote = []; limits = []; last_sync = 0 }

-- getOrCreateCounter: a missing counter starts at zero.
unfoldable pub get_or_create_counter : Table → Str → Str → Table
get_or_create_counter local project kind = elim (get (get_zero [] (get local project)) kind) [
  | some _ ↦ local
  | none ↦ write local project kind (pos 0)
]

-- One call of Allow with no other call in between: its compare-and-swap succeeds at once.
unfoldable pub allow : Limiter → Str → Str → Bool × Limiter
allow l project kind =
    let limit = read l.limits project kind in
    let remote = read l.remote project kind in
    let local = get_or_create_counter l.local project kind in
    let cur = read local project kind in
    let counted : Limiter = record l { local = write local project kind (add64 cur (pos 1)) } in
    if is_nonpos limit
    then (true, counted)
    else if ltz limit (add64 (add64 remote cur) (pos 1))
    then (false, record l { local = local })
    else (true, counted)

unfoldable pub observe : Limiter → Str → Str → ℤ → Limiter
observe l project kind delta =
    let local = get_or_create_counter l.local project kind in
    record l { local = write local project kind (add64 (read local project kind) delta) }

pub record Sample : Type 0 where
  pub project : Str
  pub kind : Str
  pub delta : ℤ

-- The swaps of flush: every counter is set to zero, and those that were positive are sampled.
unfoldable pub drain_kinds : Str → Map Str ℤ → Map Str ℤ × List Sample
drain_kinds project [] = ([], [])
drain_kinds project ((kind, d) ∷ m) =
    let (zeros, samples) = drain_kinds project m in
    (
      (kind, pos 0) ∷ zeros,
      if ltz (pos 0) d
          then record { project = project; kind = kind; delta = d } ∷ samples
          else samples,
    )

unfoldable pub drain : Table → Table × List Sample
unfolding drain_kinds
drain [] = ([], [])
drain ((project, by_kind) ∷ m) =
    let (zeros, samples) = drain_kinds project by_kind in
    let (rest, more) = drain m in ((project, zeros) ∷ rest, samples ++ more)

module _ {S : Type 0} (store : QuotaStore S) where
  -- `_ = l.store.AddQuotaUsage(…)`: an error is dropped.
  abbrev pub attempt : S → Result StoreError S → S
  attempt s (ok s') = s'
  attempt s (err e) = s

  unfoldable pub push : S → ℕ → List Sample → S
  push s bucket [] = s
  push s bucket (x ∷ xs) =
      push (attempt s (store.add_quota_usage s x.project x.kind bucket x.delta)) bucket xs

  unfoldable pub set_limits : Table → Str → List Quota → Table
  set_limits limits p [] = limits
  set_limits limits p (q ∷ qs) = set_limits (write limits p q.kind q.value) p qs

  abbrev pub refreshed : Table → Str → Str → Result StoreError ℤ → Table
  refreshed remote p kind (ok used) = write remote p kind used
  refreshed remote p kind (err e) = remote

  unfoldable pub refresh_usage : S → ℕ → Table → Str → List Quota → Table
  refresh_usage s bucket remote p [] = remote
  refresh_usage s bucket remote p (q ∷ qs) =
      refresh_usage s bucket (refreshed remote p q.kind (store.get_quota_usage s p q.kind bucket)) p
        qs

  abbrev pub refresh_one : S → ℕ → Limiter → Str → Result StoreError (List Quota) → Limiter
  refresh_one s bucket l p (err e) = l
  refresh_one s bucket l p (ok quotas) = record l {
    limits = set_limits l.limits p quotas;
    remote = refresh_usage s bucket l.remote p quotas;
  }

  unfoldable pub refresh : S → ℕ → Limiter → List Project → Limiter
  refresh s bucket l [] = l
  refresh s bucket l (p ∷ ps) =
      refresh s bucket (refresh_one s bucket l p.name (store.list_quotas s p.name)) ps

  -- flush: the error is that of ListProjects, after the counters are pushed. `now` and `later` are
  -- the two readings of the clock.
  abbrev pub finish :
      S → ℕ → ℕ → Limiter → Result StoreError (List Project) → Option StoreError × Limiter × S
  finish s bucket later l (err e) = (some e, l, s)
  finish s bucket later l (ok projects) =
      (none, record (refresh s bucket l projects) { last_sync = later }, s)

  unfoldable pub flush : Limiter → S → ℕ → ℕ → Option StoreError × Limiter × S
  flush l s now later =
      let bucket = truncate now in
      let (zeros, samples) = drain l.local in
      let s' = push s bucket samples in
      finish s' bucket later (record l { local = zeros }) (store.list_projects s')
