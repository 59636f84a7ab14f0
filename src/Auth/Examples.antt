-- ===== src/Auth/Examples.antt =====
-- Requests with an admin token, a key and neither.
use cfunc.Base.{
  ◌≡◌, ◌≢◌, ◌↔◌, ◌⊎◌, inl, inr, refl, Str, lit, List, [], ◌∷◌, Option, none, some, ok, err, ℕ,
  Result, true, false,
}
use cfunc.State.Data.{ApiKey}
use cfunc.State.InMem.{InMemStore, new_in_mem_store}
use cfunc.State.InMem.Tenancy.{lookup_api_key}
use cfunc.State.InMem.Keys.{NoStar}
use cfunc.Auth.{
  Credentials, Identity, cluster_admin, KeyLookup, api_key_auth, pass, pass_as, unauthorized,
  bearer_or_query,
}
use cfunc.Auth.Laws.{
  Source, HasRequired, key_identity, api_key_auth-Source, api_key_auth_open, star_only_by_token,
}

-- A stand-in for the hash.
abbrev hash : Str → Str
hash s = b'h' ∷ s

abbrev key : ApiKey
key = record {
  id = lit "ck_1";
  project = lit "blue";
  description = [];
  token_sha256 = lit "htok";
  scopes = lit "invoke" ∷ [];
  created_at = 3;
  last_used_at = none;
}

abbrev keyed : InMemStore
keyed = record new_in_mem_store { api_keys = (lit "ck_1", key) ∷ [] }

abbrev request : Credentials
request = record { authorization = lit "Bearer tok"; query_token = [] }

abbrev admin_request : Credentials
admin_request = record { authorization = []; query_token = lit "secret" }

abbrev lookup_at : ℕ → KeyLookup InMemStore
lookup_at now = λ st token. lookup_api_key st now token

abbrev used : InMemStore
used = record keyed { api_keys = (lit "ck_1", record key { last_used_at = some 9 }) ∷ [] }

passes_by_key :
    api_key_auth hash (lit "secret") (some (lookup_at 9)) (lit "invoke") request keyed
    ≡ (pass_as (key_identity key), used)
unfolding api_key_auth bearer_or_query cfunc.Auth.bearer lookup_api_key
    cfunc.State.InMem.Tenancy.find_token cfunc.Base.str_beq cfunc.Base.has_prefix
    cfunc.Base.trim_space cfunc.Auth.has_scope cfunc.Base.put
passes_by_key = refl

api_key_auth-Source_example :
    Source hash (lit "secret") (some (lookup_at 9)) request keyed (key_identity key) used
    × HasRequired (lit "invoke") (key_identity key)
api_key_auth-Source_example =
    api_key_auth-Source hash (lit "secret") (lit "invoke") (some (lookup_at 9)) request keyed
      passes_by_key

api_key_auth_open_example :
    (((api_key_auth hash (lit "secret") (some (lookup_at 9)) [] request keyed).0 ≡ pass)
      ↔ ((lit "secret" ≡ []) × (some (lookup_at 9) ≡ none)))
    × (bearer_or_query request ≡ []
        → (lit "secret" ≢ []) ⊎ (some (lookup_at 9) ≢ none)
        → api_key_auth hash (lit "secret") (some (lookup_at 9)) [] request keyed
          ≡ (unauthorized, keyed))
api_key_auth_open_example =
    api_key_auth_open hash (lit "secret") [] (some (lookup_at 9)) request keyed

passes_by_token :
    api_key_auth hash (lit "secret") (some (lookup_at 9)) [] admin_request keyed
    ≡ (pass_as cluster_admin, keyed)
unfolding api_key_auth bearer_or_query cfunc.Auth.bearer cfunc.Base.str_beq cfunc.Base.has_prefix
passes_by_token = refl

not_star : NoStar keyed.api_keys
not_star = ((λ h. cc), tt)

star_only_by_token_example : (lit "secret" ≢ []) × (bearer_or_query admin_request ≡ lit "secret")
star_only_by_token_example =
    star_only_by_token hash (lit "secret") [] 9 admin_request keyed not_star passes_by_token refl
