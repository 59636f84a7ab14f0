-- ===== src/State/Examples.antt =====
-- The in-memory store on small inputs.
use cfunc.Base.{
  ◌≡◌, ◌≢◌, refl, arith, lit, List, [], ◌∷◌, ◌++◌, get, take, some, ok, err, Str, ℤ, pos, ℕ,
  if◌then◌else◌, ◌==◌, str_eq, nat_eq, ltb, ◌+◌, none, max_int64, ◌≤◌, ◌*◌,
}
use cfunc.State.Data.{FunctionDef, ApiKey, Event, function_put, function_delete, AuditEntry}
use cfunc.State.InMem.{InMemStore, new_in_mem_store, watch, channel_capacity}
use cfunc.State.InMem.Tenancy.{
  list_audit, append_audit, add_quota_usage, get_quota_usage, truncate, ensure_tenancy_maps,
  bump_usage, minute,
}
use cfunc.State.InMem.Events.{broadcast_all, broadcast_all-queue}
use cfunc.State.InMem.Audit.{IsReport, list_audit-IsReport}
use cfunc.State.InMem.Keys.{NoStar, KeyCall, create, lookup, delete, call_all, call_all-NoStar}
use cfunc.State.InMem.Usage.{buckets_of, total_since, get_quota_usage-add, IsMade, IsCount}

abbrev hello : FunctionDef
hello = record {
  name = lit "hello";
  binary = lit "/fn/hello";
  env = [];
  layers = [];
  max_concurrency = pos 4;
  project = [];
  updated_at = 0;
}

abbrev empty_store : InMemStore
empty_store = new_in_mem_store

abbrev put_hello : Event
put_hello = record { kind = function_put; name = lit "hello" }

abbrev delete_hello : Event
delete_hello = record { kind = function_delete; name = lit "hello" }

watched : get (watch empty_store).1.subs 0 ≡ some []
unfolding watch new_in_mem_store get cfunc.Base.put
watched = refl

broadcast_all-queue_example :
    get (broadcast_all (watch empty_store).1 (put_hello ∷ delete_hello ∷ [])).subs 0
    ≡ some (take channel_capacity ([] ++ put_hello ∷ delete_hello ∷ []))
broadcast_all-queue_example =
    broadcast_all-queue (watch empty_store).1 (put_hello ∷ delete_hello ∷ []) 0 [] watched
      (ground arith)

abbrev entry : AuditEntry
entry = record {
  id = pos 0;
  ts = 0;
  project = lit "default";
  actor = lit "ck_1";
  action = lit "function.put";
  target = lit "hello";
  metadata = [];
}

abbrev logged : InMemStore
logged = append_audit (append_audit empty_store 5 entry) 9 entry

list_audit-IsReport_example :
    IsReport (lit "default") 6 (pos 10) logged.audit (list_audit logged (lit "default") 6 (pos 10))
list_audit-IsReport_example = list_audit-IsReport logged (lit "default") 6 (pos 10)

abbrev key : ApiKey
key = record {
  id = lit "ck_1";
  project = lit "blue";
  description = [];
  token_sha256 = lit "abc";
  scopes = lit "invoke" ∷ [];
  created_at = 3;
  last_used_at = none;
}

abbrev star_key : ApiKey
star_key = record key { id = lit "ck_2"; project = lit "*" }

no_key : NoStar empty_store.api_keys
unfolding new_in_mem_store
no_key = tt

abbrev calls : List KeyCall
calls = create 5 key ∷ create 6 star_key ∷ lookup 8 (lit "abc") ∷ delete (lit "ck_2") ∷ []

call_all-NoStar_example : NoStar (call_all empty_store calls).api_keys
call_all-NoStar_example = call_all-NoStar empty_store calls no_key

no_usage : IsMade empty_store
no_usage = λ h. unfold new_in_mem_store in refl

no_counts : IsCount (buckets_of empty_store (lit "blue") (lit "requests_per_min"))
unfolding new_in_mem_store get
no_counts = tt

small : total_since 0 (buckets_of empty_store (lit "blue") (lit "requests_per_min")) + 5 ≤ max_int64
unfolding new_in_mem_store get
small = omega arith

abbrev used : InMemStore
used = record (ensure_tenancy_maps empty_store) {
  usage =
      bump_usage (ensure_tenancy_maps empty_store).usage (lit "blue") (lit "requests_per_min")
        (truncate (3 * minute + 17)) (pos 5);
}

is_used :
    add_quota_usage empty_store (lit "blue") (lit "requests_per_min") (3 * minute + 17) (pos 5)
    ≡ ok used
unfolding add_quota_usage
is_used = refl

get_quota_usage-add_example :
    (get_quota_usage empty_store (lit "blue") (lit "requests_per_min") (3 * minute)
      ≡ pos (
          total_since
            (truncate (3 * minute))
            (buckets_of empty_store (lit "blue") (lit "requests_per_min"))))
    × (get_quota_usage used (lit "blue") (lit "requests_per_min") (3 * minute)
        ≡ pos (
            total_since
              (truncate (3 * minute))
              (buckets_of empty_store (lit "blue") (lit "requests_per_min"))
            + (if ltb (truncate (3 * minute + 17)) (truncate (3 * minute)) then 0 else 5)))
get_quota_usage-add_example =
    get_quota_usage-add empty_store (lit "blue") (lit "requests_per_min") (3 * minute + 17)
      (3 * minute) 5 no_usage no_counts small is_used
