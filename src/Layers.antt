-- ===== src/Layers.antt =====
-- Dependency layers: the files that the code of internal/gateway/layers.go reads and writes, with
-- the store of internal/layers/store.go beside it. A file system maps each path, as its components
-- from the root, to what stands there; there are no symbolic links in it, since the code refuses to
-- make one.
pub mod Extract
pub mod Joined
pub mod Frames
pub mod Dirs
pub mod Pull
pub mod Confined
pub mod Present
pub mod Atomic
pub mod Flight
pub mod Refs
pub mod Trees
pub mod Store
pub mod Resolved
pub mod Added
mod Examples
use cfunc.Base.{
  ◌≡◌, refl, ◌↔◌, ℕ, Bool, true, false, not, ◌&&◌, ◌||◌, List, [], ◌∷◌, ◌++◌, Option, none, some,
  Str, Map, keys, get, put, remove, Eq, ◌==◌, if◌then◌else◌, any, arith, slash, is_entry, keep,
  split, str_beq_iff, str_beq_refl, drop, str_eq, length,
}

pub data Node : Type 0 where
  directory : Node
  file : ℕ → Str → Node

unfoldable pub path_beq : List Str → List Str → Bool
path_beq [] [] = true
path_beq (p ∷ ps) (q ∷ qs) = p == q && path_beq ps qs
path_beq _ _ = false

path_beq_sound : (ps qs : List Str) → path_beq ps qs ≡ true → ps ≡ qs
unfolding path_beq
path_beq_sound [] [] h = refl
path_beq_sound [] (q ∷ qs) h = ground arith
path_beq_sound (p ∷ ps) [] h = ground arith
path_beq_sound (p ∷ ps) (q ∷ qs) h = ground (arith, path_beq_sound ps qs, str_beq_iff p q)

path_beq_refl : (ps : List Str) → path_beq ps ps ≡ true
unfolding path_beq
path_beq_refl [] = refl
path_beq_refl (p ∷ ps) = ground (arith, path_beq_refl ps, str_beq_refl p)

pub path_beq_iff : (ps qs : List Str) → (path_beq ps qs ≡ true) ↔ (ps ≡ qs)
path_beq_iff ps qs = (path_beq_sound ps qs, λ e. rw e (path_beq_refl qs))

instance abbrev pub path_eq : Eq (List Str)
path_eq = record { equal = path_beq; equal_iff = path_beq_iff }

abbrev pub FileSystem : Type 0
FileSystem = Map (List Str) Node

-- The components of a cleaned path that starts at the root.
unfoldable pub parts : Str → List Str
parts s = keep is_entry (split slash s)

-- Is the second path the first one, or below it?
unfoldable pub is_under : List Str → List Str → Bool
is_under [] qs = true
is_under (p ∷ ps) [] = false
is_under (p ∷ ps) (q ∷ qs) = p == q && is_under ps qs

-- The components of the directory that a path stands in.
abbrev pub parts_above : List Str → List Str
parts_above [] = []
parts_above (p ∷ []) = []
parts_above (p ∷ q ∷ ps) = p ∷ parts_above (q ∷ ps)

pub data FileError : Type 0 where
  not_exist exists not_directory is_directory not_empty : FileError

-- What an operation leaves behind, and its error.
abbrev pub Done : Type 0 → Type 0
Done E = FileSystem × Option E

-- os.MkdirAll of the components below a directory that exists.
unfoldable pub make_below : FileSystem → List Str → List Str → Done FileError
make_below fs at [] = (fs, none)
make_below fs at (p ∷ ps) = elim (get fs (at ++ p ∷ [])) [
  | none ↦ make_below (put fs (at ++ p ∷ []) directory) (at ++ p ∷ []) ps
  | some directory ↦ make_below fs (at ++ p ∷ []) ps
  | some (file mode bytes) ↦ (fs, some not_directory)
]

abbrev pub mkdir_all : FileSystem → List Str → Done FileError
mkdir_all fs ps = make_below fs [] ps

abbrev pub is_dir : FileSystem → List Str → Bool
is_dir fs [] = true
is_dir fs (p ∷ ps) = elim (get fs (p ∷ ps)) [ some directory ↦ true | _ ↦ false ]

-- Is something below the path?
abbrev pub has_entries : FileSystem → List Str → Bool
has_entries fs ps = any (λ qs. is_under ps qs && not (qs == ps)) (keys fs)

-- os.Remove, where a path at which nothing stands is no error.
unfoldable pub remove_if_there : FileSystem → List Str → Done FileError
remove_if_there fs ps = elim (get fs ps) [
  | none ↦ (fs, none)
  | some (file mode bytes) ↦ (remove fs ps, none)
  | some directory ↦ if has_entries fs ps then (fs, some not_empty) else (remove fs ps, none)
]

-- os.OpenFile to create or truncate, and a write of the bytes.
unfoldable pub write_file : FileSystem → List Str → ℕ → Str → Done FileError
write_file fs ps mode bytes = elim (get fs ps) [
  | none ↦
      if is_dir fs (parts_above ps)
      then (put fs ps (file mode bytes), none)
      else (fs, some not_exist)
  | some (file old _) ↦ (put fs ps (file old bytes), none)
  | some directory ↦ (fs, some is_directory)
]

-- os.RemoveAll
unfoldable pub remove_all : FileSystem → List Str → FileSystem
remove_all [] ps = []
remove_all ((qs, n) ∷ fs) ps =
    if is_under ps qs then remove_all fs ps else (qs, n) ∷ remove_all fs ps

-- os.Rename of a directory: each path below the old name is one below the new name.
abbrev pub moved : List Str → List Str → List Str → List Str
moved old new qs = if is_under old qs then new ++ drop (length old) qs else qs

unfoldable pub move_all : FileSystem → List Str → List Str → FileSystem
move_all [] old new = []
move_all ((qs, n) ∷ fs) old new = (moved old new qs, n) ∷ move_all fs old new

-- A name that is taken by a file or by a directory that is not empty is an error.
unfoldable pub rename : FileSystem → List Str → List Str → Done FileError
unfolding is_under
rename fs old new =
    let whole : Done FileError = (move_all (remove fs new) old new, none) in
    elim (get fs new) [
      | none ↦ whole
      | some (file mode bytes) ↦ (fs, some not_directory)
      | some directory ↦ if has_entries fs new then (fs, some exists) else whole
    ]
