-- ===== src/State/Iface.antt =====
-- The parts of the state.Store interface (internal/state/state.go) that the gateway and the limiter
-- call, over any state. A call that fails leaves the state as it was.
use cfunc.Base.{ℕ, List, Str, ℤ, Result, ok}
use cfunc.State.Data.{FunctionDef, AuditEntry, Project, Quota, StoreError}
use cfunc.State.InMem.{InMemStore}
use cfunc.State.InMem
use cfunc.State.InMem.Tenancy

pub record QuotaStore (S : Type 0) : Type 0 where
  pub list_projects : S → Result StoreError (List Project)
  pub list_quotas : S → Str → Result StoreError (List Quota)
  pub add_quota_usage : S → Str → Str → ℕ → ℤ → Result StoreError S
  pub get_quota_usage : S → Str → Str → ℕ → Result StoreError ℤ

abbrev pub in_mem_quotas : QuotaStore InMemStore
in_mem_quotas = record {
  list_projects = λ s. ok (InMem.Tenancy.list_projects s);
  list_quotas = λ s project. ok (InMem.Tenancy.list_quotas s project);
  add_quota_usage = InMem.Tenancy.add_quota_usage;
  get_quota_usage = λ s project kind since. ok (InMem.Tenancy.get_quota_usage s project kind since);
}

pub record FunctionStore (S : Type 0) : Type 0 where
  pub get_function : S → Str → Result StoreError FunctionDef
  pub list_functions : S → Result StoreError (List FunctionDef)
  pub put_function : S → ℕ → FunctionDef → Result StoreError S
  pub delete_function : S → Str → Result StoreError S
  pub append_audit : S → ℕ → AuditEntry → Result StoreError S

abbrev pub in_mem_functions : FunctionStore InMemStore
in_mem_functions = record {
  get_function = InMem.get_function;
  list_functions = λ s. ok (InMem.list_functions s);
  put_function = λ s now def. ok (InMem.put_function s now def);
  delete_function = λ s name. ok (InMem.delete_function s name);
  append_audit = λ s now e. ok (InMem.Tenancy.append_audit s now e);
}
