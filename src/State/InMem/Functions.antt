-- ===== src/State/InMem/Functions.antt =====
-- The map contract of PutFunction, DeleteFunction and GetFunction of internal/state/inmem.go.
use cfunc.Base.{ℕ, ◌≡◌, Str, str_eq, get-put, get-remove, if◌then◌else◌, ok, err, ◌==◌, arith}
use cfunc.State.Data.{FunctionDef, not_found}
use cfunc.State.InMem.{
  InMemStore, or_default, broadcast, get_function, put_function, delete_function,
}

-- What the store keeps of a definition that is put at the time `now`.
abbrev pub stored_at : ℕ → FunctionDef → FunctionDef
stored_at now def = record def { project = or_default def.project; updated_at = now }

-- A put is read back, in the default project where it named none and with its time; the other
-- names keep what they had.
pub get_function-put :
    (s : InMemStore) (now : ℕ) (def : FunctionDef) (name : Str)
    → get_function (put_function s now def) name
      ≡ (if def.name == name then ok (stored_at now def) else get_function s name)
unfolding get_function put_function broadcast
get_function-put s now def name =
    ground (arith, get-put s.functions def.name name (stored_at now def))

-- A delete takes away its name, present or not, and no other.
pub get_function-delete :
    (s : InMemStore) (gone name : Str)
    → get_function (delete_function s gone) name
      ≡ (if gone == name then err not_found else get_function s name)
unfolding get_function delete_function broadcast
get_function-delete s gone name = ground (arith, get-remove s.functions gone name)
