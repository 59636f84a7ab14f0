-- ===== src/State/InMem/Keys.antt =====
-- API keys of internal/state/inmem_tenancy.go: what a lookup returns.
use cfunc.Base.{
  ℕ, ◌≡◌, ◌≢◌, refl, [], ◌∷◌, some, Str, lit, Map, get, put, str_eq, str_beq_iff, subst, ok, ◌==◌,
  arith, remove, Option-cases, inl, inr, Bool-cases, Result, err, Result-cases, List,
}
use cfunc.State.Data.{ApiKey, StoreError}
use cfunc.State.InMem.{InMemStore}
use cfunc.State.InMem.Tenancy.{
  or_now, ensure_tenancy_maps, create_api_key, find_token, lookup_api_key, delete_api_key,
}

-- No stored key claims the project of the cluster administrator.
abbrev pub NoStar : Map Str ApiKey → Type 0
NoStar [] = Unit
NoStar ((id, k) ∷ m) = (k.project ≢ lit "*") × NoStar m

put-NoStar :
    (m : Map Str ApiKey) (id : Str) (k : ApiKey)
    → k.project ≢ lit "*"
    → NoStar m
    → NoStar (put m id k)
unfolding put
put-NoStar [] id k h n = (h, tt)
put-NoStar ((j, w) ∷ m) id k h n = elim (Bool-cases (j == id)) [
  | inl e ↦ rw e (h, n.1)
  | inr e ↦ rw e (n.0, put-NoStar m id k h n.1)
]

remove-NoStar : (m : Map Str ApiKey) (id : Str) → NoStar m → NoStar (remove m id)
unfolding remove
remove-NoStar [] id n = tt
remove-NoStar ((j, w) ∷ m) id n = elim (Bool-cases (j == id)) [
  | inl e ↦ rw e (remove-NoStar m id n.1)
  | inr e ↦ rw e (n.0, remove-NoStar m id n.1)
]

find_token-NoStar :
    (m : Map Str ApiKey) (token id : Str) (k : ApiKey)
    → NoStar m
    → find_token m token ≡ some (id, k)
    → (k.project ≢ lit "*") × (k.token_sha256 ≡ token)
unfolding find_token
find_token-NoStar [] token id k n h = cc
find_token-NoStar ((j, w) ∷ m) token id k n h = elim (Bool-cases (w.token_sha256 == token)) [
  | inl e ↦
      let same : (w ≡ k) = ground arith in
      subst (λ x. (x.project ≢ lit "*") × (x.token_sha256 ≡ token)) same
        (n.0, (str_beq_iff _ _).0 e)
  | inr e ↦ find_token-NoStar m token id k n.1 (ground arith)
]

ensure-NoStar : (s : InMemStore) → NoStar s.api_keys → NoStar (ensure_tenancy_maps s).api_keys
unfolding ensure_tenancy_maps
ensure-NoStar s n = elim (Bool-cases s.tenancy) [ inl e ↦ rw e n | inr e ↦ rw e tt ]

-- A create that succeeds keeps that: it refuses the reserved project.
pub create_api_key-NoStar :
    (s : InMemStore) (now : ℕ) (k : ApiKey) {t : InMemStore}
    → NoStar s.api_keys
    → create_api_key s now k ≡ ok t
    → NoStar t.api_keys
unfolding create_api_key
create_api_key-NoStar s now k {t} n h = elim (Bool-cases (k.project == lit "*")) [
  | inl e ↦ ground arith
  | inr e ↦ elim (Option-cases (get (ensure_tenancy_maps s).api_keys k.id)) [
    | inl fresh ↦
        let made : ApiKey = record k { created_at = or_now now k.created_at } in
        let kept : (put (ensure_tenancy_maps s).api_keys k.id made ≡ t.api_keys) = ground arith in
        subst NoStar kept (
          put-NoStar _ k.id made (λ p. ground (arith, str_beq_iff k.project (lit "*")))
            (ensure-NoStar s n))
    | inr (old, taken) ↦ ground arith
  ]
]

-- Where no key claims that project, a lookup that succeeds returns a key of another project, whose
-- hash is the one asked for, stamped with the time; and the keys stay so.
pub lookup_api_key-NoStar :
    (s : InMemStore) (now : ℕ) (token : Str) {k : ApiKey} {t : InMemStore}
    → NoStar s.api_keys
    → lookup_api_key s now token ≡ ok (k, t)
    → (k.project ≢ lit "*")
      × (k.token_sha256 ≡ token)
      × (k.last_used_at ≡ some now)
      × NoStar t.api_keys
unfolding lookup_api_key
lookup_api_key-NoStar s now token {k} {t} n h = elim (Option-cases (find_token s.api_keys token)) [
  | inl e ↦ ground arith
  | inr ((id, w), e) ↦
      let (open_project, matches) = find_token-NoStar s.api_keys token id w n e in
      let stamped : ApiKey = record w { last_used_at = some now } in
      let same : (stamped ≡ k) = ground arith in
      let kept : (put s.api_keys id stamped ≡ t.api_keys) = ground arith in
      (
        subst (λ x. x.project ≢ lit "*") same open_project,
        subst (λ x. x.token_sha256 ≡ token) same matches,
        subst (λ x. x.last_used_at ≡ some now) same refl,
        subst NoStar kept (put-NoStar s.api_keys id stamped open_project n),
      )
]

pub delete_api_key-NoStar :
    (s : InMemStore) (id : Str) → NoStar s.api_keys → NoStar (delete_api_key s id).api_keys
unfolding delete_api_key
delete_api_key-NoStar s id n = remove-NoStar s.api_keys id n

-- The calls that change the keys, and one that does not.
pub data KeyCall : Type 0 where
  create : ℕ → ApiKey → KeyCall
  lookup : ℕ → Str → KeyCall
  delete : Str → KeyCall

abbrev created : InMemStore → Result StoreError InMemStore → InMemStore
created s (ok t) = t
created s (err e) = s

abbrev looked_up : InMemStore → Result StoreError (ApiKey × InMemStore) → InMemStore
looked_up s (ok (k, t)) = t
looked_up s (err e) = s

pub call_keys : InMemStore → KeyCall → InMemStore
call_keys s (create now k) = created s (create_api_key s now k)
call_keys s (lookup now token) = looked_up s (lookup_api_key s now token)
call_keys s (delete id) = delete_api_key s id

pub call_all : InMemStore → List KeyCall → InMemStore
call_all s [] = s
call_all s (c ∷ cs) = call_all (call_keys s c) cs

call_keys-NoStar :
    (s : InMemStore) (c : KeyCall) → NoStar s.api_keys → NoStar (call_keys s c).api_keys
unfolding call_keys
call_keys-NoStar s (create now k) n = elim (Result-cases (create_api_key s now k)) [
  | inl (t, e) ↦ rw e (create_api_key-NoStar s now k n e)
  | inr (er, e) ↦ rw e n
]
call_keys-NoStar s (lookup now token) n = elim (Result-cases (lookup_api_key s now token)) [
  | inl ((k, t), e) ↦ rw e (lookup_api_key-NoStar s now token n e).3
  | inr (er, e) ↦ rw e n
]
call_keys-NoStar s (delete id) n = delete_api_key-NoStar s id n

-- From a store where no key claims the project "*" of the cluster administrator, none does after
-- whatever calls create, look up and delete keys.
pub call_all-NoStar :
    (s : InMemStore) (calls : List KeyCall) → NoStar s.api_keys → NoStar (call_all s calls).api_keys
unfolding call_all
call_all-NoStar s [] n = n
call_all-NoStar s (c ∷ cs) n = call_all-NoStar (call_keys s c) cs (call_keys-NoStar s c n)
