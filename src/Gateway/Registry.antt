-- ===== src/Gateway/Registry.antt =====
-- The gateway's read-cache of functions and its pools (internal/gateway/gateway.go): registration,
-- the Watch events, and the first part of acquire. The gateway's mutex makes each access one step.
pub mod Synced
pub mod Changed
mod Examples
use cfunc.Base.{
  ℕ, ◌+◌, Bool, true, false, not, ◌&&◌, List, [], ◌∷◌, ◌++◌, map, Option, none, some, Str, lit, Map,
  get, put, remove, values, str_eq, ◌==◌, if◌then◌else◌, ℤ, pos, pos_part, is_nonpos, Result, ok,
  err,
}
use cfunc.State.Data
use cfunc.State.Data.{StoreError, Event, EventKind, function_put, function_delete, AuditEntry}
use cfunc.State.Iface.{FunctionStore}
use cfunc.Names.{is_valid_function_name}
use cfunc.Gateway.Pool.{Pool, ManagedInstance, new_pool, close_all}

pub record LayerMount : Type 0 where
  pub name : Str
  pub host_path : Str
  pub mount_path : Str
  pub digest : Str

pub record FunctionDef : Type 0 where
  pub name : Str
  pub binary : Str
  pub env : List Str
  pub layers : List LayerMount
  pub max_concurrency : ℤ
  pub project : Str

abbrev pub from_state_layer : Data.LayerMount → LayerMount
from_state_layer l = record {
  name = l.name;
  host_path = l.host_path;
  mount_path = l.mount_path;
  digest = l.digest;
}

abbrev pub to_state_layer : LayerMount → Data.LayerMount
to_state_layer l = record {
  name = l.name;
  host_path = l.host_path;
  mount_path = l.mount_path;
  digest = l.digest;
}

abbrev pub from_state_def : Data.FunctionDef → FunctionDef
from_state_def d = record {
  name = d.name;
  binary = d.binary;
  env = d.env;
  layers = map from_state_layer d.layers;
  max_concurrency = d.max_concurrency;
  project = d.project;
}

-- UpdatedAt is left at its zero value for the store to set.
abbrev pub to_state_def : FunctionDef → Data.FunctionDef
to_state_def d = record {
  name = d.name;
  binary = d.binary;
  env = d.env;
  layers = map to_state_layer d.layers;
  max_concurrency = d.max_concurrency;
  project = d.project;
  updated_at = 0;
}

-- `closing` lists the instances that closeAll or the reaper closed, the latest last.
pub record Gateway : Type 0 where
  pub functions : Map Str FunctionDef
  pub pools : Map Str Pool
  pub closing : List ManagedInstance

abbrev pub new_gateway : Gateway
new_gateway = record { functions = []; pools = []; closing = [] }

abbrev pub default_max_concurrency : ℤ
default_max_concurrency = pos 4

abbrev pub with_default_concurrency : FunctionDef → FunctionDef
with_default_concurrency def = record def {
  max_concurrency =
      if is_nonpos def.max_concurrency then default_max_concurrency else def.max_concurrency;
}

-- What closeAll closes of the pool that stood under a name.
abbrev pub closed_by : Option Pool → List ManagedInstance
closed_by none = []
closed_by (some p) = (close_all p).0

unfoldable pub apply_put : Gateway → FunctionDef → Gateway
apply_put g def = record {
  functions = put g.functions def.name (with_default_concurrency def);
  pools = remove g.pools def.name;
  closing = g.closing ++ closed_by (get g.pools def.name);
}

unfoldable pub apply_delete : Gateway → Str → Gateway
apply_delete g name = record {
  functions = remove g.functions name;
  pools = remove g.pools name;
  closing = g.closing ++ closed_by (get g.pools name);
}

pub data RegisterError : Type 0 where
  invalid_name : RegisterError
  store_failed : StoreError → RegisterError

-- The entry that a change of a function leaves in the audit log; its time and id are the store's.
abbrev pub audit_of : Str → Str → Str → Str → AuditEntry
audit_of project actor action target = record {
  id = pos 0;
  ts = 0;
  project = project;
  actor = actor;
  action = action;
  target = target;
  metadata = [];
}

abbrev pub project_or_default : Str → Str
project_or_default project = if project == [] then lit "default" else project

module _ {S : Type 0} (store : FunctionStore S) where
  -- `_ = g.store.…`: an error is dropped.
  abbrev pub attempt : S → Result StoreError S → S
  attempt s (ok s') = s'
  attempt s (err e) = s

  abbrev pub put_result :
      Gateway → S → ℕ → FunctionDef → Str → Result StoreError S → Option RegisterError × Gateway × S
  put_result g s now def actor (err e) = (some (store_failed e), g, s)
  put_result g s now def actor (ok s') = (
    none,
    apply_put g def,
    attempt s'
        (store.append_audit s' now (audit_of def.project actor (lit "function.put") def.name)),
  )

  -- The definition as RegisterDefAs writes it to the store.
  abbrev pub normalised : FunctionDef → FunctionDef
  normalised def =
      let d = with_default_concurrency def in record d { project = project_or_default def.project }

  unfoldable pub register_def_as :
      Gateway → S → ℕ → FunctionDef → Str → Option RegisterError × Gateway × S
  register_def_as g s now def actor =
      if not (is_valid_function_name def.name)
      then (some invalid_name, g, s)
      else put_result g s now (normalised def) actor
          (store.put_function s now (to_state_def (normalised def)))

  abbrev pub log_delete : S → ℕ → Str → Str → Option FunctionDef → S
  log_delete s now name actor none = s
  log_delete s now name actor (some def) = attempt s (
      store.append_audit s now
        (audit_of (project_or_default def.project) actor (lit "function.delete") name))

  abbrev pub is_some {ℓ} : {A : Type ℓ} → Option A → Bool
  is_some none = false
  is_some (some a) = true

  -- The store's error is dropped, and the answer says whether the cache had the name.
  unfoldable pub unregister_as : Gateway → S → ℕ → Str → Str → Bool × Gateway × S
  unregister_as g s now name actor =
      let had = get g.functions name in
      let s' = attempt s (store.delete_function s name) in
      (is_some had, apply_delete g name, log_delete s' now name actor had)

  abbrev pub put_event : Gateway → Result StoreError Data.FunctionDef → Gateway
  put_event g (err e) = g
  put_event g (ok d) = apply_put g (from_state_def d)

  abbrev pub event_of : Gateway → S → Str → EventKind → Gateway
  event_of g s name function_put = put_event g (store.get_function s name)
  event_of g s name function_delete = apply_delete g name
  event_of g s name _ = g

  unfoldable pub apply_event : Gateway → S → Event → Gateway
  apply_event g s ev = event_of g s ev.name ev.kind

  unfoldable pub apply_puts : Gateway → List Data.FunctionDef → Gateway
  apply_puts g [] = g
  apply_puts g (d ∷ ds) = apply_puts (apply_put g (from_state_def d)) ds

  abbrev pub bootstrapped : Gateway → Result StoreError (List Data.FunctionDef) → Gateway
  bootstrapped g (err e) = g
  bootstrapped g (ok ds) = apply_puts g ds

  unfoldable pub bootstrap_cache_from_store : Gateway → S → Gateway
  bootstrap_cache_from_store g s = bootstrapped g (store.list_functions s)

-- acquire up to the pool's own mutex: the definition, and the pool, made where there is none.
-- `none` is errFunctionNotFound.
abbrev pub pool_of : Gateway → Str → FunctionDef → Option Pool → FunctionDef × Pool × Gateway
pool_of g name def (some p) = (def, p, g)
pool_of g name def none =
    let p = new_pool (pos_part def.max_concurrency) in
    (def, p, record g { pools = put g.pools name p })

unfoldable pub find_pool : Gateway → Str → Option (FunctionDef × Pool × Gateway)
find_pool g name = elim (get g.functions name) [
  | none ↦ none
  | some def ↦ some (pool_of g name def (get g.pools name))
]
