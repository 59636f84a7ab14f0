-- ===== src/Quota/Examples.antt =====
-- The limiter on small inputs.
use cfunc.State.InMem.Tenancy.{get_quota_usage, truncate}
use cfunc.State.InMem.Usage.{IsMade, IsCount, buckets_of, total_since}
use cfunc.Quota.Pushed.{flush-conserves}
use cfunc.Base.{
  ◌≡◌, refl, arith, lit, List, [], ◌∷◌, some, err, Str, ℤ, pos, pos_part, is_nonpos, ℕ, ◌-◌, ◌+◌,
  Bool, true, false, ◌&&◌, if◌then◌else◌, ◌==◌, str_eq, leb, negsuc, get, max_int64, ◌≤◌,
}
use Prim.Native.Nat.{min}
use cfunc.State.Data.{backend}
use cfunc.State.Iface.{QuotaStore, in_mem_quotas}
use cfunc.State.InMem.{InMemStore, new_in_mem_store}
use cfunc.Quota.{Limiter, read, allow, drain, flush}
use cfunc.Quota.Allow.{CountsOne, allow_unlimited, allow_limited, allow_many, allow_many_lem}
use cfunc.Quota.Race.{ready, run_calls, IsFair, run_calls-IsFair}
use cfunc.Quota.Flush.{sampled, DistinctTable, drain_lem, AddFails, flush_loses}

abbrev blue : Str
blue = lit "blue"

abbrev rpm : Str
rpm = lit "requests_per_min"

-- A limit of 5, 3 events synced and 1 counted since.
abbrev limiter : Limiter
limiter = record {
  local = (blue, (rpm, pos 1) ∷ []) ∷ [];
  remote = (blue, (rpm, pos 3) ∷ []) ∷ [];
  limits = (blue, (rpm, pos 5) ∷ []) ∷ [];
  last_sync = 0;
}

limit_read : read limiter.limits blue rpm ≡ pos 5
unfolding read get cfunc.Base.str_beq
limit_read = refl

remote_read : read limiter.remote blue rpm ≡ pos 3
unfolding read get cfunc.Base.str_beq
remote_read = refl

local_read : read limiter.local blue rpm ≡ pos 1
unfolding read get cfunc.Base.str_beq
local_read = refl

allow_many_example : (allow_many 4 limiter blue rpm).0 ≡ min 4 (5 - (3 + 1))
allow_many_example =
    allow_many_lem 4 limiter blue rpm 5 3 1 (omega arith) (omega arith) (omega arith) limit_read
      remote_read local_read

allow_limited_example :
    ((allow limiter blue rpm).0 ≡ leb (3 + 1 + 1) 5)
    × ((p k : Str)
        → read (allow limiter blue rpm).1.local p k ≡ (
            if leb (3 + 1 + 1) 5 && (blue == p && rpm == k)
            then pos (1 + 1)
            else read limiter.local p k))
    × ((allow limiter blue rpm).1.limits ≡ limiter.limits)
    × ((allow limiter blue rpm).1.remote ≡ limiter.remote)
allow_limited_example =
    allow_limited limiter blue rpm 5 3 1 (omega arith) limit_read remote_read local_read
      (omega arith)

red_is_unlimited : is_nonpos (read limiter.limits (lit "red") rpm) ≡ true
unfolding read get cfunc.Base.str_beq
red_is_unlimited = refl

allow_unlimited_example :
    ((allow limiter (lit "red") rpm).0 ≡ true)
    × CountsOne limiter.local (allow limiter (lit "red") rpm).1.local (lit "red") rpm
allow_unlimited_example = allow_unlimited limiter (lit "red") rpm red_is_unlimited

-- Three calls at one free event: the second takes it while the first has loaded the old count.
abbrev schedule : List ℕ
schedule = 0 ∷ 1 ∷ 1 ∷ 0 ∷ 0 ∷ 0 ∷ 2 ∷ 2 ∷ []

run_calls-IsFair_example :
    let r = run_calls (pos 5) (pos 3) schedule (pos 1) (ready ∷ ready ∷ ready ∷ []) in
    IsFair 5 3 1 r.0 r.1
run_calls-IsFair_example =
    run_calls-IsFair 5 3 1 schedule (ready ∷ ready ∷ ready ∷ []) (omega arith) (omega arith)
      (refl, (refl, (refl, tt)))

limiter-DistinctTable : DistinctTable limiter.local
unfolding get
limiter-DistinctTable = (refl, (refl, tt), tt)

drain_lem_example :
    (read (drain limiter.local).0 blue rpm ≡ pos 0)
    × (sampled (drain limiter.local).1 blue rpm ≡ pos_part (read limiter.local blue rpm))
drain_lem_example = drain_lem limiter.local limiter-DistinctTable blue rpm

abbrev broken : QuotaStore InMemStore
broken = record in_mem_quotas {
  add_quota_usage = λ s project kind bucket delta. err (backend (lit "connection lost"));
}

broken-AddFails : AddFails broken
broken-AddFails s project kind bucket delta = (backend (lit "connection lost"), refl)

flush_loses_example :
    ((flush broken limiter new_in_mem_store 60 61).2 ≡ new_in_mem_store)
    × ((p k : Str) → read (flush broken limiter new_in_mem_store 60 61).1.local p k ≡ pos 0)
flush_loses_example = flush_loses broken limiter new_in_mem_store 60 61 broken-AddFails

abbrev fresh_store : InMemStore
fresh_store = new_in_mem_store

empty-IsMade : IsMade fresh_store
unfolding new_in_mem_store
empty-IsMade h = refl

empty-IsCount : IsCount (buckets_of fresh_store blue rpm)
unfolding new_in_mem_store get
empty-IsCount = tt

room_left :
    total_since 0 (buckets_of fresh_store blue rpm) + pos_part (read limiter.local blue rpm)
    ≤ max_int64
unfolding new_in_mem_store read get cfunc.Base.str_beq
room_left = omega arith

flush-conserves_example :
    let r = flush in_mem_quotas limiter fresh_store 60000000017 60000000018 in
    (get_quota_usage r.2 blue rpm 60000000017
      ≡ pos (
          total_since (truncate 60000000017) (buckets_of fresh_store blue rpm)
          + pos_part (read limiter.local blue rpm)))
    × (read r.1.local blue rpm ≡ pos 0)
flush-conserves_example =
    flush-conserves limiter fresh_store 60000000017 60000000018 blue rpm limiter-DistinctTable
      empty-IsMade empty-IsCount room_left
