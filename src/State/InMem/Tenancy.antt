-- ===== src/State/InMem/Tenancy.antt =====
-- internal/state/inmem_tenancy.go: projects, API keys, quotas, usage and the audit log.
use cfunc.Base.{
  ℕ, ◌-◌, ◌%◌, Bool, true, not, ◌&&◌, List, [], ◌∷◌, ◌++◌, Option, none, some, Str, lit, Map, get,
  get_zero, put, remove, values, length, take, ltb, nat_beq, str_eq, nat_eq, if◌then◌else◌, ℤ, pos,
  ltz, add64, Result, ok, err, ◌==◌, keep, sort_by, str_less, pos_part,
}
use cfunc.State.Data.{
  Project, ApiKey, Quota, AuditEntry, StoreError, not_found, already_exists, reserved_project,
  negative_delta,
}
use cfunc.State.InMem.{InMemStore}

-- The maps of the tenancy state are made by the first call that writes to one.
unfoldable pub ensure_tenancy_maps : InMemStore → InMemStore
ensure_tenancy_maps s = if s.tenancy then s else record s {
  tenancy = true;
  projects = [];
  api_keys = [];
  quotas = [];
  usage = [];
  audit = [];
  next_audit_id = pos 1;
}

-- `if t.IsZero() { t = time.Now().UTC() }`
abbrev pub or_now : ℕ → ℕ → ℕ
or_now now t = if nat_beq t 0 then now else t

unfoldable pub create_project : InMemStore → ℕ → Project → Result StoreError InMemStore
create_project s now p =
    let s' = ensure_tenancy_maps s in
    elim (get s'.projects p.name) [
      | some _ ↦ err (already_exists p.name)
      | none ↦
          let made : Project = record p { created_at = or_now now p.created_at } in
          ok (record s' { projects = put s'.projects p.name made })
    ]

unfoldable pub get_project : InMemStore → Str → Result StoreError Project
get_project s name = elim (get s.projects name) [ none ↦ err not_found | some p ↦ ok p ]

unfoldable pub list_projects : InMemStore → List Project
list_projects s = sort_by (λ a b. str_less a.name b.name) (values s.projects)

unfoldable pub delete_project : InMemStore → Str → InMemStore
delete_project s name = record s { projects = remove s.projects name }

unfoldable pub create_api_key : InMemStore → ℕ → ApiKey → Result StoreError InMemStore
create_api_key s now k =
    if k.project == lit "*"
    then err reserved_project
    else (let s' = ensure_tenancy_maps s in
        elim (get s'.api_keys k.id) [
          | some _ ↦ err (already_exists k.id)
          | none ↦
              let made : ApiKey = record k { created_at = or_now now k.created_at } in
              ok (record s' { api_keys = put s'.api_keys k.id made })
        ])

-- The loop of LookupAPIKey, with the key under which the match stands.
unfoldable pub find_token : Map Str ApiKey → Str → Option (Str × ApiKey)
find_token [] token = none
find_token ((id, k) ∷ m) token =
    if k.token_sha256 == token then some (id, k) else find_token m token

unfoldable pub lookup_api_key : InMemStore → ℕ → Str → Result StoreError (ApiKey × InMemStore)
lookup_api_key s now token = elim (find_token s.api_keys token) [
  | none ↦ err not_found
  | some (id, k) ↦
      let stamped : ApiKey = record k { last_used_at = some now } in
      ok (stamped, record s { api_keys = put s.api_keys id stamped })
]

unfoldable pub list_api_keys : InMemStore → Str → List ApiKey
list_api_keys s project =
    sort_by (λ a b. str_less a.id b.id) (keep (λ k. k.project == project) (values s.api_keys))

unfoldable pub delete_api_key : InMemStore → Str → InMemStore
delete_api_key s id = record s { api_keys = remove s.api_keys id }

unfoldable pub set_quota : InMemStore → ℕ → Str → Str → ℤ → InMemStore
set_quota s now project kind value =
    let s' = ensure_tenancy_maps s in
    let by_kind : Map Str Quota = get_zero [] (get s'.quotas project) in
    let q : Quota = record { project = project; kind = kind; value = value; updated_at = now } in
    record s' { quotas = put s'.quotas project (put by_kind kind q) }

abbrev quota_value : Option Quota → ℤ
quota_value none = pos 0
quota_value (some q) = q.value

unfoldable pub get_quota : InMemStore → Str → Str → ℤ
get_quota s project kind = quota_value (get (get_zero [] (get s.quotas project)) kind)

unfoldable pub list_quotas : InMemStore → Str → List Quota
list_quotas s project =
    sort_by (λ a b. str_less a.kind b.kind) (values (get_zero [] (get s.quotas project)))

-- time.Minute, in nanoseconds
abbrev pub minute : ℕ
minute = 60000000000

-- t.UTC().Truncate(time.Minute)
unfoldable pub truncate : ℕ → ℕ
truncate t = t - t % minute

-- `s.usage[project][kind][bucket] += delta`, with the inner maps made where they are missing.
unfoldable pub bump_usage :
    Map Str (Map Str (Map ℕ ℤ)) → Str → Str → ℕ → ℤ → Map Str (Map Str (Map ℕ ℤ))
bump_usage usage project kind bucket delta =
    let by_kind : Map Str (Map ℕ ℤ) = get_zero [] (get usage project) in
    let buckets : Map ℕ ℤ = get_zero [] (get by_kind kind) in
    let used : ℤ = get_zero (pos 0) (get buckets bucket) in
    put usage project (put by_kind kind (put buckets bucket (add64 used delta)))

unfoldable pub add_quota_usage : InMemStore → Str → Str → ℕ → ℤ → Result StoreError InMemStore
add_quota_usage s project kind bucket delta =
    if ltz delta (pos 0)
    then err negative_delta
    else (let s' = ensure_tenancy_maps s in
        ok (record s' { usage = bump_usage s'.usage project kind (truncate bucket) delta }))

-- The sum of the buckets that are not before `since`.
unfoldable pub sum_since : ℕ → Map ℕ ℤ → ℤ → ℤ
sum_since since [] total = total
sum_since since ((ts, v) ∷ m) total =
    sum_since since m (if ltb ts since then total else add64 total v)

unfoldable pub get_quota_usage : InMemStore → Str → Str → ℕ → ℤ
get_quota_usage s project kind since =
    sum_since (truncate since) (get_zero [] (get (get_zero [] (get s.usage project)) kind)) (pos 0)

unfoldable pub append_audit : InMemStore → ℕ → AuditEntry → InMemStore
append_audit s now e =
    let s' = ensure_tenancy_maps s in
    let entry : AuditEntry = record e { ts = or_now now e.ts; id = s'.next_audit_id } in
    record s' { audit = s'.audit ++ entry ∷ []; next_audit_id = add64 s'.next_audit_id (pos 1) }

-- Newest first, and of one instant the larger id first.
abbrev pub newer : AuditEntry → AuditEntry → Bool
newer a b = if nat_beq a.ts b.ts then ltz b.id a.id else ltb b.ts a.ts

abbrev pub audit_matches : Str → ℕ → AuditEntry → Bool
audit_matches project since e =
    e.project == project && not (not (nat_beq since 0) && ltb e.ts since)

-- `if limit > 0 && len(out) > limit { out = out[:limit] }`
abbrev pub cap_at : ℤ → List AuditEntry → List AuditEntry
cap_at limit out =
    if ltz (pos 0) limit && ltb (pos_part limit) (length out)
    then take (pos_part limit) out
    else out

unfoldable pub list_audit : InMemStore → Str → ℕ → ℤ → List AuditEntry
list_audit s project since limit =
    cap_at limit (sort_by newer (keep (audit_matches project since) s.audit))
