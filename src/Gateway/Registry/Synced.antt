-- ===== src/Gateway/Registry/Synced.antt =====
-- The cache against the in-memory store that it mirrors.
use cfunc.Base.{
  ℕ, ◌≡◌, ◌≢◌, refl, sym, ap, ◌∙◌, ◌⊎◌, inl, inr, List, [], ◌∷◌, map, Option, none, some, Str, get,
  str_eq, str_beq_iff, str_beq_refl, get-put, get-remove, ◌==◌, if◌then◌else◌, ℤ, is_nonpos, Result,
  ok, err, Bool-cases, arith,
}
use cfunc.State.Data
use cfunc.State.Data.{
  StoreError, Event, EventKind, function_put, function_delete, cron_put, cron_delete, not_found,
  AuditEntry,
}
use cfunc.State.InMem
use cfunc.State.InMem.{InMemStore}
use cfunc.State.InMem.Tenancy.{append_audit, ensure_tenancy_maps}
use cfunc.State.InMem.Functions.{stored_at, get_function-put}
use cfunc.State.Iface.{in_mem_functions}
use cfunc.Gateway.Registry.{
  Gateway, FunctionDef, LayerMount, from_state_def, to_state_def, from_state_layer, to_state_layer,
  with_default_concurrency, normalised, project_or_default, apply_put, apply_delete, apply_event,
}

-- What the cache keeps of a lookup in the store.
abbrev pub cached : Result StoreError Data.FunctionDef → Option FunctionDef
cached (err e) = none
cached (ok d) = some (with_default_concurrency (from_state_def d))

-- The cache has of every name what the store has.
abbrev pub IsSynced : Gateway → InMemStore → Type 0
IsSynced g s = (name : Str) → get g.functions name ≡ cached (InMem.get_function s name)

layers_roundtrip : (ls : List LayerMount) → map from_state_layer (map to_state_layer ls) ≡ ls
layers_roundtrip [] = refl
layers_roundtrip (l ∷ ls) = ap (◌∷◌ l) (layers_roundtrip ls)

default_idem :
    (c : ℤ)
    → (if is_nonpos (if is_nonpos c then ℤ.pos 4 else c)
        then ℤ.pos 4
        else (if is_nonpos c then ℤ.pos 4 else c))
      ≡ (if is_nonpos c then ℤ.pos 4 else c)
default_idem c = ground arith

or_default_idem : (p : Str) → InMem.or_default (project_or_default p) ≡ project_or_default p
or_default_idem p = elim (Bool-cases (p == [])) [
  | inl e ↦ rw e (ground arith)
  | inr e ↦ rw (e, e) refl
]

-- A definition that is registered comes back from the store as it went in, but for its defaults.
pub cached-stored :
    (now : ℕ) (def : FunctionDef)
    → cached (ok (stored_at now (to_state_def (normalised in_mem_functions def))))
      ≡ some (normalised in_mem_functions def)
cached-stored now def = ap some (λ i. record {
  name = def.name;
  binary = def.binary;
  env = def.env;
  layers = layers_roundtrip def.layers i;
  max_concurrency = default_idem def.max_concurrency i;
  project = or_default_idem def.project i;
})

pub normalised_idem :
    (def : FunctionDef)
    → normalised in_mem_functions def ≡ with_default_concurrency (normalised in_mem_functions def)
normalised_idem def =
    let same = sym (default_idem def.max_concurrency) in
    λ i. record {
      name = def.name;
      binary = def.binary;
      env = def.env;
      layers = def.layers;
      max_concurrency = same i;
      project = project_or_default def.project;
    }

pub get_function-append_audit :
    (s : InMemStore) (now : ℕ) (e : AuditEntry) (name : Str)
    → InMem.get_function (append_audit s now e) name ≡ InMem.get_function s name
unfolding append_audit ensure_tenancy_maps InMem.get_function
get_function-append_audit s now e name = ground arith

pub functions-apply_put :
    (g : Gateway) (def : FunctionDef) (name : Str)
    → get (apply_put g def).functions name
      ≡ (if def.name == name then some (with_default_concurrency def) else get g.functions name)
unfolding apply_put
functions-apply_put g def name = get-put g.functions def.name name (with_default_concurrency def)

pub functions-apply_delete :
    (g : Gateway) (gone name : Str)
    → get (apply_delete g gone).functions name
      ≡ (if gone == name then none else get g.functions name)
unfolding apply_delete
functions-apply_delete g gone name = get-remove g.functions gone name

pub pools-apply_put :
    (g : Gateway) (def : FunctionDef) (name : Str)
    → get (apply_put g def).pools name ≡ (if def.name == name then none else get g.pools name)
unfolding apply_put
pools-apply_put g def name = get-remove g.pools def.name name

pub pools-apply_delete :
    (g : Gateway) (gone name : Str)
    → get (apply_delete g gone).pools name ≡ (if gone == name then none else get g.pools name)
unfolding apply_delete
pools-apply_delete g gone name = get-remove g.pools gone name

-- The store keeps a definition under its own name.
abbrev pub IsKeyed : InMemStore → Type 0
IsKeyed s = (k : Str) (d : Data.FunctionDef) → InMem.get_function s k ≡ ok d → d.name ≡ k

-- Every put keeps that.
pub put_function-IsKeyed :
    (s : InMemStore) (now : ℕ) (def : Data.FunctionDef)
    → IsKeyed s
    → IsKeyed (InMem.put_function s now def)
put_function-IsKeyed s now def keyed k d found =
    let after : ((if def.name == k then ok (stored_at now def) else InMem.get_function s k)
        ≡ ok d) =
      sym (get_function-put s now def k) ∙ found in
    elim (Bool-cases (def.name == k)) [
      | inl e ↦ ground (arith, str_beq_iff def.name k)
      | inr e ↦ keyed k d (rw e at after)
    ]

-- Over a store that keeps every definition under its own name, a replica that handles an event of a
-- function it can still read, or of one that is deleted, has of that name what the store has, whatever
-- it had before; and it keeps the other names.
apply_event-syncs :
    (g : Gateway) (s : InMemStore) (ev : Event)
    → IsKeyed s
    → ((ev.kind ≡ function_put) × ((d : Data.FunctionDef) × (InMem.get_function s ev.name ≡ ok d)))
      ⊎ ((ev.kind ≡ function_delete) × (InMem.get_function s ev.name ≡ err not_found))
    → let g' = apply_event in_mem_functions g s ev in
      (get g'.functions ev.name ≡ cached (InMem.get_function s ev.name))
      × ((name : Str) → ev.name ≢ name → get g'.functions name ≡ get g.functions name)
unfolding apply_event
apply_event-syncs g s ev keyed (inl (is_put, (d, found))) =
    let same = keyed ev.name d found in
    rw (is_put, found)
      (
        ground (
          arith,
          functions-apply_put g (from_state_def d) ev.name,
          str_beq_iff d.name ev.name,
          same,
        ),
        λ name other.
            ground
              (arith, functions-apply_put g (from_state_def d) name, str_beq_iff d.name name, same),
      )
apply_event-syncs g s ev keyed (inr (is_delete, gone)) =
    rw (is_delete, gone)
      (
        ground (arith, functions-apply_delete g ev.name ev.name, str_beq_refl ev.name),
        λ name other.
            ground (arith, functions-apply_delete g ev.name name, str_beq_iff ev.name name),
      )
