-- ===== src/Layers/Refs.antt =====
-- internal/layers/store.go: manifests and references of layers, and the errors of the store.
use cfunc.Base.{
  ℕ, [], ◌∷◌, ◌++◌, Option, none, some, Str, ◌==◌, if◌then◌else◌, Result, ok, err, nat_eq, str_eq,
  Lacks, str_beq, ◌≡◌, false, refl,
}

pub record Manifest : Type 0 where
  pub name : Str
  pub version : Str
  pub runtime : Str
  pub mount_path : Str
  pub digest : Str
  pub size : ℕ

pub record Ref : Type 0 where
  pub name : Str
  pub version : Str

-- Ref.String, with the "@" between name and version.
abbrev pub at_sign : ℕ
at_sign = 64

unfoldable pub ref_string : Ref → Str
ref_string r = r.name ++ at_sign ∷ r.version

-- A string at its last "@", the cut that strings.LastIndex makes; none where there is no "@".
abbrev pub longer : ℕ → Str → Option (Str × Str) → Option (Str × Str)
longer c s (some (before, after)) = some (c ∷ before, after)
longer c s none = if c == at_sign then some ([], s) else none

unfoldable pub cut_last : Str → Option (Str × Str)
cut_last [] = none
cut_last (c ∷ s) = longer c s (cut_last s)

pub data LayerError : Type 0 where
  empty_ref missing_name not_absolute not_directory symlink no_index : LayerError
  not_found : Ref → LayerError
  no_manifest : Str → LayerError
  io_failed : Str → LayerError

abbrev pub as_ref : Str → Option (Str × Str) → Ref
as_ref s none = record { name = s; version = [] }
as_ref s (some (before, after)) = record { name = before; version = after }

unfoldable pub parse_ref : Str → Result LayerError Ref
unfolding cut_last
parse_ref s = if s == [] then err empty_ref else ok (as_ref s (cut_last s))

cut_last-Lacks : (s : Str) → Lacks at_sign s → cut_last s ≡ none
unfolding cut_last
cut_last-Lacks [] h = refl
cut_last-Lacks (c ∷ s) h = rw (cut_last-Lacks s h.1, h.0) refl

cut_last-append : (s t : Str) → Lacks at_sign t → cut_last (s ++ at_sign ∷ t) ≡ some (s, t)
unfolding cut_last
cut_last-append [] t h = rw (cut_last-Lacks t h) refl
cut_last-append (c ∷ s) t h = rw (cut_last-append s t h) refl

full_ref : (s t : Str) → (s ++ at_sign ∷ t == []) ≡ false
unfolding str_beq
full_ref [] t = refl
full_ref (c ∷ s) t = refl

-- A reference whose version has no "@" is read back from what String prints, whatever its name.
parse_ref-string : (r : Ref) → Lacks at_sign r.version → parse_ref (ref_string r) ≡ ok r
unfolding parse_ref ref_string
parse_ref-string r h = rw (full_ref r.name r.version, cut_last-append r.name r.version h) refl
