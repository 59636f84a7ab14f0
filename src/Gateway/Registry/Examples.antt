-- ===== src/Gateway/Registry/Examples.antt =====
-- Registration and its reverse over an empty store, where a write fails.
use cfunc.Base.{
  ◌≡◌, ◌≢◌, ◌↔◌, refl, ◌&&◌, lit, [], Option, none, some, get, str_eq, ◌==◌, if◌then◌else◌, not,
  pos, Str, err, true,
}
use cfunc.State.Data.{StoreError, not_found, backend}
use cfunc.State.InMem
use cfunc.State.InMem.{InMemStore, new_in_mem_store}
use cfunc.Names.{is_valid_function_name}
use cfunc.Gateway.Registry.{FunctionDef, new_gateway, register_def_as, unregister_as, Gateway}
use cfunc.Gateway.Registry.Synced.{IsSynced, cached}
use cfunc.Gateway.Registry.Changed.{
  faulty, fails, refusal, IsRegistered, register_def_as-IsSynced, unregister_as-IsSynced,
}

abbrev hello : FunctionDef
hello = record {
  name = lit "hello";
  binary = lit "/fn/hello";
  env = [];
  layers = [];
  max_concurrency = pos 0;
  project = [];
}

empty-IsSynced : IsSynced new_gateway new_in_mem_store
unfolding get InMem.get_function new_in_mem_store
empty-IsSynced name = refl

-- Some error of the store.
abbrev broken : Option StoreError
broken = some (backend (lit "connection lost"))

register_def_as-IsSynced_example :
    let r =
      register_def_as (faulty none none broken) new_gateway new_in_mem_store 7 hello (lit "ck_1") in
    let valid = is_valid_function_name (lit "hello") in
    (r.0 ≡ refusal valid none)
    × IsRegistered none none broken new_gateway new_in_mem_store 7 hello
        (lit "ck_1")
        (valid && not (fails none))
        (r.1, r.2)
register_def_as-IsSynced_example =
    register_def_as-IsSynced none none broken new_gateway new_in_mem_store 7 hello (lit "ck_1")
      empty-IsSynced

abbrev cache : Gateway
cache =
    (register_def_as (faulty none none none) new_gateway new_in_mem_store 7 hello (lit "ck_1")).1

abbrev registered : InMemStore
registered =
    (register_def_as (faulty none none none) new_gateway new_in_mem_store 7 hello (lit "ck_1")).2

registered-IsSynced : IsSynced cache registered
registered-IsSynced =
    (register_def_as-IsSynced none none none new_gateway new_in_mem_store 7 hello (lit "ck_1")
      empty-IsSynced).1.0

unregister_as-IsSynced_example :
    let r = unregister_as (faulty none broken none) cache registered 7 (lit "hello") (lit "ck_1") in
    ((r.0 ≡ true) ↔ (get cache.functions (lit "hello") ≢ none))
    × ((name : Str)
        → (get r.1.functions name
            ≡ (if lit "hello" == name then none else get cache.functions name))
          × (get r.1.pools name ≡ (if lit "hello" == name then none else get cache.pools name))
          × (InMem.get_function r.2 name ≡ (
              if not (fails broken) && lit "hello" == name
              then err not_found
              else InMem.get_function registered name))
          × (get r.1.functions name ≡ (
              if fails broken && lit "hello" == name
              then none
              else cached (InMem.get_function r.2 name))))
unregister_as-IsSynced_example =
    unregister_as-IsSynced none broken none cache registered 7 (lit "hello") (lit "ck_1")
      registered-IsSynced
