-- ===== src/Gateway/Registry/Changed.antt =====
-- RegisterDefAs and UnregisterAs over the in-memory store, any of whose writes may fail.
use cfunc.Base.{
  ℕ, ◌≡◌, ◌≢◌, ◌↔◌, refl, sym, ap, ◌∙◌, Bool, true, false, not, ◌&&◌, Option, none, some, Str, get,
  str_eq, ◌==◌, if◌then◌else◌, Result, ok, err, Bool-cases, inl, inr,
}
use cfunc.State.Data.{StoreError, AuditEntry, not_found}
use cfunc.State.InMem
use cfunc.State.InMem.{InMemStore}
use cfunc.State.InMem.Tenancy.{append_audit}
use cfunc.State.InMem.Functions.{stored_at, get_function-put, get_function-delete}
use cfunc.State.Iface.{FunctionStore}
use cfunc.Names.{is_valid_function_name}
use cfunc.Gateway.Registry.{
  Gateway, FunctionDef, RegisterError, to_state_def, normalised, apply_put, register_def_as,
  put_result, unregister_as, attempt, log_delete, invalid_name, store_failed, is_some,
}
use cfunc.Gateway.Registry.Synced.{
  IsSynced, cached, cached-stored, normalised_idem, get_function-append_audit, functions-apply_put,
  functions-apply_delete, pools-apply_put, pools-apply_delete,
}

-- A write that may fail.
abbrev pub failing : Option StoreError → InMemStore → Result StoreError InMemStore
failing none s = ok s
failing (some e) s = err e

abbrev pub fails : Option StoreError → Bool
fails none = false
fails (some e) = true

-- What RegisterDefAs answers.
abbrev pub refusal : Bool → Option StoreError → Option RegisterError
refusal false fault = some invalid_name
refusal true none = none
refusal true (some e) = some (store_failed e)

module _ (put_fault delete_fault audit_fault : Option StoreError) where
  -- The in-memory store, where the writes fail that have an error.
  abbrev pub faulty : FunctionStore InMemStore
  faulty = record {
    get_function = InMem.get_function;
    list_functions = λ s. ok (InMem.list_functions s);
    put_function = λ s now def. failing put_fault (InMem.put_function s now def);
    delete_function = λ s name. failing delete_fault (InMem.delete_function s name);
    append_audit = λ s now e. failing audit_fault (append_audit s now e);
  }

  get_function-audited :
      (fault : Option StoreError) (t : InMemStore) (now : ℕ) (e : AuditEntry) (name : Str)
      → InMem.get_function (attempt faulty t (failing fault (append_audit t now e))) name
        ≡ InMem.get_function t name
  get_function-audited none t now e name = get_function-append_audit t now e name
  get_function-audited (some bad) t now e name = refl

  module _ (g : Gateway) (s : InMemStore) (now : ℕ) where
    module _ (def : FunctionDef) (actor : Str) where
      -- The gateway and the store after an answer, where `accepted` says whether it was a success.
      abbrev pub IsRegistered : Bool → Gateway × InMemStore → Type 0
      IsRegistered accepted (g', s') =
          IsSynced g' s'
          × ((name : Str)
              → (get g'.functions name ≡ (
                  if accepted && def.name == name
                  then some (normalised faulty def)
                  else get g.functions name))
                × (get g'.pools name
                    ≡ (if accepted && def.name == name then none else get g.pools name))
                × (InMem.get_function s' name ≡ (
                    if accepted && def.name == name
                    then ok (stored_at now (to_state_def (normalised faulty def)))
                    else InMem.get_function s name)))

      put-IsRegistered :
          (t : InMemStore)
          → IsSynced g s
          → ((name : Str)
              → InMem.get_function t name
                ≡ InMem.get_function
                    (InMem.put_function s now (to_state_def (normalised faulty def)))
                    name)
          → IsRegistered true (apply_put g (normalised faulty def), t)
      put-IsRegistered t synced reads = (
        agree,
        λ name. (
          functions-apply_put g (normalised faulty def) name
              ∙ ap (λ d. if def.name == name then some d else get g.functions name)
                  (sym (normalised_idem def)),
          pools-apply_put g (normalised faulty def) name,
          reads name ∙ get_function-put s now (to_state_def (normalised faulty def)) name,
        ),
      )
        where
          agree : IsSynced (apply_put g (normalised faulty def)) t
          agree name =
              rw
                (
                  functions-apply_put g (normalised faulty def) name,
                  reads name,
                  get_function-put s now (to_state_def (normalised faulty def)) name,
                )
                (elim (Bool-cases (def.name == name)) [
                  | inl e ↦ rw e (sym (cached-stored now def ∙ ap some (normalised_idem def)))
                  | inr e ↦ rw e (synced name)
                ])

      put_result-IsRegistered :
          (fault : Option StoreError)
          → IsSynced g s
          → let r =
              put_result faulty g s now
                (normalised faulty def)
                actor
                (failing fault (InMem.put_function s now (to_state_def (normalised faulty def)))) in
            (r.0 ≡ refusal true fault) × IsRegistered (not (fails fault)) (r.1, r.2)
      put_result-IsRegistered (some e) synced = (refl, (synced, λ name. (refl, refl, refl)))
      put_result-IsRegistered none synced = (
        refl,
        put-IsRegistered _ synced (λ name.
            get_function-audited audit_fault
              (InMem.put_function s now (to_state_def (normalised faulty def))) now _ name),
      )

      -- Over the in-memory store, whichever of its writes fail: RegisterDefAs refuses an invalid name,
      -- passes on an error of PutFunction, and succeeds otherwise. Where it succeeds, cache and store
      -- have the definition under its name with its defaults, the old pool is gone, and the rest is as
      -- it was; otherwise nothing changes. A cache that agrees with the store before does so after,
      -- either way.
      pub register_def_as-IsSynced :
          IsSynced g s
          → let r = register_def_as faulty g s now def actor in
            let valid = is_valid_function_name def.name in
            (r.0 ≡ refusal valid put_fault)
            × IsRegistered (valid && not (fails put_fault)) (r.1, r.2)
      unfolding register_def_as
      register_def_as-IsSynced synced = elim (Bool-cases (is_valid_function_name def.name)) [
        | inl e ↦ simp e (put_result-IsRegistered put_fault synced)
        | inr e ↦ simp e (refl, (synced, λ name. (refl, refl, refl)))
      ]

    get_function-log_delete :
        (t : InMemStore) (gone actor : Str) (had : Option FunctionDef) (name : Str)
        → InMem.get_function (log_delete faulty t now gone actor had) name
          ≡ InMem.get_function t name
    get_function-log_delete t gone actor none name = refl
    get_function-log_delete t gone actor (some def) name =
        get_function-audited audit_fault t now _ name

    get_function-deleted :
        (fault : Option StoreError) (gone name : Str)
        → InMem.get_function (attempt faulty s (failing fault (InMem.delete_function s gone))) name
          ≡ (if not (fails fault) && gone == name then err not_found else InMem.get_function s name)
    get_function-deleted none gone name = get_function-delete s gone name
    get_function-deleted (some e) gone name = refl

    still-agrees :
        (fault : Option StoreError) (gone name : Str)
        → get g.functions name ≡ cached (InMem.get_function s name)
        → (if gone == name then none else get g.functions name) ≡ (
            if fails fault && gone == name
            then none
            else cached (
                if not (fails fault) && gone == name
                then err not_found
                else InMem.get_function s name))
    still-agrees none gone name h = elim (Bool-cases (gone == name)) [
      | inl e ↦ rw e refl
      | inr e ↦ rw e h
    ]
    still-agrees (some x) gone name h = elim (Bool-cases (gone == name)) [
      | inl e ↦ rw e refl
      | inr e ↦ rw e h
    ]

    had_iff : (o : Option FunctionDef) → (is_some faulty o ≡ true) ↔ (o ≢ none)
    had_iff none = ((λ h. cc), λ h. absurd (h refl))
    had_iff (some d) = ((λ h e. cc), λ h. refl)

    -- Over the in-memory store, whichever of its writes fail: UnregisterAs says whether the cache had
    -- the name, and takes it, its pool and nothing else from the cache. It takes the name and nothing
    -- else from the store, unless DeleteFunction fails, whose error is dropped: then the store stays as
    -- it was. A cache that agrees with the store before does so after at every name, but for the one
    -- whose deletion failed.
    pub unregister_as-IsSynced :
        (gone actor : Str)
        → IsSynced g s
        → let r = unregister_as faulty g s now gone actor in
          ((r.0 ≡ true) ↔ (get g.functions gone ≢ none))
          × ((name : Str)
              → (get r.1.functions name ≡ (if gone == name then none else get g.functions name))
                × (get r.1.pools name ≡ (if gone == name then none else get g.pools name))
                × (InMem.get_function r.2 name ≡ (
                    if not (fails delete_fault) && gone == name
                    then err not_found
                    else InMem.get_function s name))
                × (get r.1.functions name ≡ (
                    if fails delete_fault && gone == name
                    then none
                    else cached (InMem.get_function r.2 name))))
    unfolding unregister_as
    unregister_as-IsSynced gone actor synced = (
      had_iff (get g.functions gone),
      λ name.
          let stored =
            get_function-log_delete
              (attempt faulty s (failing delete_fault (InMem.delete_function s gone))) gone actor
              (get g.functions gone) name
            ∙ get_function-deleted delete_fault gone name in
          (
            functions-apply_delete g gone name,
            pools-apply_delete g gone name,
            stored,
            functions-apply_delete g gone name
                ∙ still-agrees delete_fault gone name (synced name)
                ∙ ap (λ r. if fails delete_fault && gone == name then none else cached r)
                    (sym stored),
          ),
    )
