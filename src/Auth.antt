-- ===== src/Auth.antt =====
-- internal/auth: token and API-key authentication of requests.
pub mod Laws
mod Examples
use cfunc.Base.{
  ℕ, Bool, true, false, not, ◌&&◌, List, [], ◌∷◌, Option, none, some, Str, lit, length, drop,
  has_prefix, trim_space, contains, str_eq, ◌==◌, if◌then◌else◌, Result, ok, err,
}
use cfunc.State.Data.{ApiKey, StoreError}

-- What the middleware reads of a request: the Authorization header and the `token` query value,
-- each empty where it is missing.
pub record Credentials : Type 0 where
  pub authorization : Str
  pub query_token : Str

-- Identity, of internal/auth/apikey.go.
pub record Identity : Type 0 where
  pub key_id : Str
  pub project : Str
  pub scopes : List Str

abbrev pub anonymous : Identity
anonymous = record { key_id = []; project = []; scopes = [] }

abbrev pub cluster_admin : Identity
cluster_admin = record { key_id = lit "admin-token"; project = lit "*"; scopes = lit "admin" ∷ [] }

unfoldable pub has_scope : Identity → Str → Bool
has_scope id scope = if id.key_id == lit "admin-token" then true else contains id.scopes scope

unfoldable pub bearer : Credentials → Str
bearer r =
    if has_prefix r.authorization (lit "Bearer ") then trim_space (drop 7 r.authorization) else []

unfoldable pub bearer_or_query : Credentials → Str
bearer_or_query r = let t = bearer r in if not (t == []) then t else r.query_token

-- subtle.ConstantTimeCompare, whose answer is that of a comparison.
abbrev pub constant_time_compare : Str → Str → Bool
constant_time_compare a b = a == b

-- validToken, of internal/auth/token.go.
unfoldable pub valid_token : Credentials → Str → Bool
valid_token r want =
    if not (bearer r == [])
    then constant_time_compare (bearer r) want
    else if not (r.query_token == [])
    then constant_time_compare r.query_token want
    else false

-- What becomes of a request: the next handler runs, with an identity in its context or without one,
-- or the request is answered with 401 or 403.
pub data Verdict : Type 0 where
  pass : Verdict
  pass_as : Identity → Verdict
  unauthorized forbidden : Verdict

unfoldable pub token_auth : Str → Credentials → Verdict
token_auth token r =
    if token == [] then pass else if valid_token r token then pass else unauthorized

-- LoadToken: the trimmed contents of the token file, the environment's value or the literal, the
-- first that is not empty. The file is none where it cannot be read.
abbrev env_or_literal : Str → Str → Str → Str
env_or_literal env_var env_value literal =
    if not (env_var == []) && not (trim_space env_value == [])
    then trim_space env_value
    else trim_space literal

unfoldable pub load_token : Str → (Str → Option Str) → Str → (Str → Str) → Str → Option Str
load_token token_file read_file env_var getenv literal =
    if token_file == []
    then some (env_or_literal env_var (getenv env_var) literal)
    else (elim (read_file token_file) [
      | none ↦ none
      | some b ↦
          if not (trim_space b == [])
          then some (trim_space b)
          else some (env_or_literal env_var (getenv env_var) literal)
    ])

-- The lookup of an API key by the hash of the presented token; none where the store is nil.
abbrev pub KeyLookup : Type 0 → Type 0
KeyLookup S = S → Str → Result StoreError (ApiKey × S)

module _ {S : Type 0} (sha256 : Str → Str) where
  abbrev pub check_scope : Str → Identity → S → Verdict × S
  check_scope require_scope id s =
      if not (require_scope == []) && not (has_scope id require_scope)
      then (forbidden, s)
      else (pass_as id, s)

  abbrev pub as_key : Str → S → Result StoreError (ApiKey × S) → Verdict × S
  as_key require_scope s (err e) = (unauthorized, s)
  as_key require_scope s (ok (k, s')) =
      check_scope require_scope (record { key_id = k.id; project = k.project; scopes = k.scopes })
        s'

  abbrev pub by_store : Str → Str → S → Option (KeyLookup S) → Verdict × S
  by_store require_scope got s none = (unauthorized, s)
  by_store require_scope got s (some lookup) = as_key require_scope s (lookup s (sha256 got))

  abbrev pub is_nil : Option (KeyLookup S) → Bool
  is_nil none = true
  is_nil (some lookup) = false

  -- APIKeyAuth, of internal/auth/apikey.go.
  unfoldable pub api_key_auth : Str → Option (KeyLookup S) → Str → Credentials → S → Verdict × S
  api_key_auth admin_token store require_scope r s =
      let got = bearer_or_query r in
      if admin_token == [] && is_nil store
      then (pass, s)
      else if got == []
      then (unauthorized, s)
      else if not (admin_token == []) && constant_time_compare got admin_token
      then check_scope require_scope cluster_admin s
      else by_store require_scope got s store
