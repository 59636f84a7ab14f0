-- ===== src/Auth/Laws.antt =====
-- What APIKeyAuth and TokenAuth of internal/auth let through.
use mathlib.Core.Option.{some-injective}
use cfunc.Base.{
  ℕ, ◌≡◌, ◌≢◌, ◌⊎◌, inl, inr, refl, sym, ap, ◌∙◌, subst, true, false, not, ◌&&◌, [], Option, none,
  some, Str, lit, str_eq, str_beq_iff, ◌==◌, ok, Result-cases, Bool-cases, arith, ◌↔◌, str_beq_refl,
}
use cfunc.State.Data.{ApiKey}
use cfunc.State.InMem.{InMemStore}
use cfunc.State.InMem.Tenancy.{lookup_api_key}
use cfunc.State.InMem.Keys.{NoStar, lookup_api_key-NoStar}
use cfunc.Auth.{
  Credentials, Identity, cluster_admin, has_scope, bearer_or_query, pass, pass_as, unauthorized,
  KeyLookup, is_nil, check_scope, as_key, by_store, api_key_auth,
}

abbrev pub key_identity : ApiKey → Identity
key_identity k = record { key_id = k.id; project = k.project; scopes = k.scopes }

-- A required scope that the identity has.
abbrev pub HasRequired : Str → Identity → Type 0
HasRequired scope id = (scope ≡ []) ⊎ (has_scope id scope ≡ true)

required :
    (scope : Str) (id : Identity)
    → not (scope == []) && not (has_scope id scope) ≡ false
    → HasRequired scope id
required scope id h = elim (Bool-cases (scope == [])) [
  | inl e ↦ inl ((str_beq_iff scope []).0 e)
  | inr e ↦ inr (ground arith)
]

module _ {S : Type 0} (sha256 : Str → Str) where
  check_scope-pass :
      (scope : Str) (id : Identity) (s : S) {who : Identity} {t : S}
      → check_scope sha256 scope id s ≡ (pass_as who, t)
      → (who ≡ id) × (t ≡ s) × HasRequired scope id
  check_scope-pass scope id s h =
      elim (Bool-cases (not (scope == []) && not (has_scope id scope))) [
        | inl e ↦ ground arith
        | inr e ↦ (ground arith, ground arith, required scope id e)
      ]

  -- Where an identity that passed comes from.
  pub data Source (admin_token : Str) (store : Option (KeyLookup S)) (r : Credentials) (s : S)
      (who : Identity) (t : S) : Type 0 where
    by_token :
        admin_token ≢ []
        → bearer_or_query r ≡ admin_token
        → who ≡ cluster_admin
        → t ≡ s
        → Source admin_token store r s who t
    by_key :
        (lookup : KeyLookup S) (k : ApiKey)
        → store ≡ some lookup
        → lookup s (sha256 (bearer_or_query r)) ≡ ok (k, t)
        → who ≡ key_identity k
        → Source admin_token store r s who t

  as_key-Source :
      (admin_token scope : Str) (lookup : KeyLookup S) (r : Credentials) (s : S) {who : Identity}
      {t : S}
      → as_key sha256 scope s (lookup s (sha256 (bearer_or_query r))) ≡ (pass_as who, t)
      → Source admin_token (some lookup) r s who t × HasRequired scope who
  as_key-Source admin_token scope lookup r s {who} {t} h =
      elim (Result-cases (lookup s (sha256 (bearer_or_query r)))) [
        | inl ((k, s'), e) ↦
            let (same, kept, scoped) = check_scope-pass scope (key_identity k) s' (rw e at h) in
            (by_key lookup k refl (rw kept e) same, rw same scoped)
        | inr (error, e) ↦ ground arith
      ]

  by_store-Source :
      (admin_token scope : Str) (store : Option (KeyLookup S)) (r : Credentials) (s : S)
      {who : Identity} {t : S}
      → by_store sha256 scope (bearer_or_query r) s store ≡ (pass_as who, t)
      → Source admin_token store r s who t × HasRequired scope who
  by_store-Source admin_token scope none r s h = ground arith
  by_store-Source admin_token scope (some lookup) r s h =
      as_key-Source admin_token scope lookup r s h

  -- A request that passes with an identity presented the admin token and is the cluster
  -- administrator, or presented a token whose hash the store knows and is that key; and the identity
  -- has the required scope, where one is required.
  pub api_key_auth-Source :
      (admin_token scope : Str) (store : Option (KeyLookup S)) (r : Credentials) (s : S)
      {who : Identity} {t : S}
      → api_key_auth sha256 admin_token store scope r s ≡ (pass_as who, t)
      → Source admin_token store r s who t × HasRequired scope who
  unfolding api_key_auth
  api_key_auth-Source admin_token scope store r s {who} {t} h =
      elim (Bool-cases (admin_token == [] && is_nil sha256 store)) [
        | inl e ↦ ground arith
        | inr e ↦ elim (Bool-cases (bearer_or_query r == [])) [
          | inl e' ↦ ground arith
          | inr e' ↦
              elim (Bool-cases (not (admin_token == []) && bearer_or_query r == admin_token)) [
                | inl e'' ↦
                    let (same, kept, scoped) =
                      check_scope-pass scope cluster_admin s (rw (e, e', e'') at h) in
                    (
                      by_token (λ p. ground (arith, str_beq_iff admin_token []))
                          (ground (arith, str_beq_iff (bearer_or_query r) admin_token)) same kept,
                      rw same scoped,
                    )
                | inr e'' ↦ by_store-Source admin_token scope store r s (rw (e, e', e'') at h)
              ]
        ]
      ]

  check_scope-ne-pass :
      (scope : Str) (id : Identity) (s : S) → (check_scope sha256 scope id s).0 ≢ pass
  check_scope-ne-pass scope id s = ground arith

  by_store-ne-pass :
      (scope got : Str) (s : S) (store : Option (KeyLookup S))
      → (by_store sha256 scope got s store).0 ≢ pass
  by_store-ne-pass scope got s none = λ h. cc
  by_store-ne-pass scope got s (some lookup) = elim (Result-cases (lookup s (sha256 got))) [
    | inl ((k, s'), e) ↦ rw e (check_scope-ne-pass scope (key_identity k) s')
    | inr (error, e) ↦ rw e (λ h. cc)
  ]

  nil_store : (store : Option (KeyLookup S)) → is_nil sha256 store ≡ true → store ≡ none
  nil_store none h = refl
  nil_store (some lookup) h = cc

  module _ (admin_token scope : Str) (store : Option (KeyLookup S)) (r : Credentials) (s : S) where
    only_open :
        (api_key_auth sha256 admin_token store scope r s).0 ≡ pass
        → (admin_token ≡ []) × (store ≡ none)
    unfolding api_key_auth
    only_open h = elim (Bool-cases (admin_token == [] && is_nil sha256 store)) [
      | inl e ↦ ((str_beq_iff admin_token []).0 (ground arith), nil_store store (ground arith))
      | inr e ↦ elim (Bool-cases (bearer_or_query r == [])) [
        | inl e' ↦ ground arith
        | inr e' ↦ elim (Bool-cases (not (admin_token == []) && bearer_or_query r == admin_token)) [
          | inl e'' ↦ absurd (check_scope-ne-pass scope cluster_admin s (rw (e, e', e'') at h))
          | inr e'' ↦
              absurd (by_store-ne-pass scope (bearer_or_query r) s store (rw (e, e', e'') at h))
        ]
      ]
    ]

    is_open :
        (admin_token ≡ []) × (store ≡ none)
        → (api_key_auth sha256 admin_token store scope r s).0 ≡ pass
    unfolding api_key_auth
    is_open h = rw (h.0, h.1, str_beq_refl) refl

    not_open :
        (admin_token ≢ []) ⊎ (store ≢ none) → (admin_token == [] && is_nil sha256 store) ≡ false
    not_open (inl ne) = ground (arith, str_beq_iff admin_token [])
    not_open (inr ne) = ground (arith, nil_store store)

    -- A request goes through without an identity exactly when there is neither an admin token nor a
    -- store; otherwise one that presents no token is refused with 401.
    pub api_key_auth_open :
        (((api_key_auth sha256 admin_token store scope r s).0 ≡ pass)
          ↔ ((admin_token ≡ []) × (store ≡ none)))
        × (bearer_or_query r ≡ []
            → (admin_token ≢ []) ⊎ (store ≢ none)
            → api_key_auth sha256 admin_token store scope r s ≡ (unauthorized, s))
    unfolding api_key_auth
    api_key_auth_open = ((only_open, is_open), λ e h. rw (not_open h, e, str_beq_refl) refl)

-- Over an in-memory store where no key claims it, only the admin token gives the project "*" of the
-- cluster administrator.
pub star_only_by_token :
    (sha256 : Str → Str) (admin_token scope : Str) (now : ℕ) (r : Credentials) (s : InMemStore)
    {who : Identity} {t : InMemStore}
    → NoStar s.api_keys
    → api_key_auth sha256 admin_token (some (λ st token. lookup_api_key st now token)) scope r s
      ≡ (pass_as who, t)
    → who.project ≡ lit "*"
    → (admin_token ≢ []) × (bearer_or_query r ≡ admin_token)
star_only_by_token sha256 admin_token scope now r s {who} {t} n h star =
    from_source
      (api_key_auth-Source sha256 admin_token scope (some (λ st token. lookup_api_key st now token))
        r s h).0
  where
    from_source :
        Source sha256 admin_token (some (λ st token. lookup_api_key st now token)) r s who t
        → (admin_token ≢ []) × (bearer_or_query r ≡ admin_token)
    from_source (by_token set matches same kept) = (set, matches)
    from_source (by_key lookup k is_store found same) =
        let found' : (lookup_api_key s now (sha256 (bearer_or_query r)) ≡ ok (k, t)) =
          subst (λ (f : KeyLookup InMemStore). f s (sha256 (bearer_or_query r)) ≡ ok (k, t))
            (sym (some-injective _ _ is_store)) found in
        absurd (
          (lookup_api_key-NoStar s now (sha256 (bearer_or_query r)) n found').0
            (sym (ap (λ (x : Identity). x.project) same) ∙ star))
