-- ===== src/State/Data.antt =====
-- The persistent shapes: internal/state/state.go and internal/state/tenancy.go. A time is a number
-- of nanoseconds, and 0 is Go's zero time.
use cfunc.Base.{ℕ, Option, List, Str, Map, ℤ}

pub record LayerMount : Type 0 where
  pub name : Str
  pub host_path : Str
  pub mount_path : Str
  pub digest : Str

pub record FunctionDef : Type 0 where
  pub name : Str
  pub binary : Str
  pub env : List Str
  pub layers : List LayerMount
  pub max_concurrency : ℤ
  pub project : Str
  pub updated_at : ℕ

pub record CronJob : Type 0 where
  pub id : Str
  pub schedule : Str
  pub function : Str
  pub method : Str
  pub body : Str
  pub headers : Map Str Str
  pub project : Str
  pub updated_at : ℕ

pub data EventKind : Type 0 where
  function_put function_delete cron_put cron_delete : EventKind

pub record Event : Type 0 where
  pub kind : EventKind
  pub name : Str

pub record Project : Type 0 where
  pub name : Str
  pub description : Str
  pub created_at : ℕ

pub record ApiKey : Type 0 where
  pub id : Str
  pub project : Str
  pub description : Str
  pub token_sha256 : Str
  pub scopes : List Str
  pub created_at : ℕ
  pub last_used_at : Option ℕ

pub record Quota : Type 0 where
  pub project : Str
  pub kind : Str
  pub value : ℤ
  pub updated_at : ℕ

pub record AuditEntry : Type 0 where
  pub id : ℤ
  pub ts : ℕ
  pub project : Str
  pub actor : Str
  pub action : Str
  pub target : Str
  pub metadata : Map Str Str

-- state.ErrNotFound and the errors that the in-memory store makes.
pub data StoreError : Type 0 where
  not_found : StoreError
  already_exists : Str → StoreError
  reserved_project : StoreError
  negative_delta : StoreError
  -- A failure of the backend, such as a lost database connection.
  backend : Str → StoreError
