-- ===== src/Manifest.antt =====
-- internal/manifest/manifest.go: the cfunc.yaml of a function. Reading the file and decoding YAML are
-- parameters.
use cfunc.Base.{
  ◌≡◌, refl, true, List, [], ◌∷◌, ◌++◌, Option, none, some, Str, ◌==◌, if◌then◌else◌, Result, ok,
  err, is_abs, join, dir, clean, up_to_slash, slash, arith, Bool-cases, inl, inr, str_eq,
}

pub record Function : Type 0 where
  pub name : Str
  pub runtime : Str
  pub binary : Str
  pub layers : List Str

pub data ManifestError : Type 0 where
  name_required runtime_required binary_required : ManifestError
  unreadable malformed : Str → ManifestError

unfoldable pub validate_function : Function → Option ManifestError
validate_function f =
    if f.name == []
    then some name_required
    else if f.runtime == []
    then some runtime_required
    else if f.binary == []
    then some binary_required
    else none

-- The binary is found from the directory of the manifest.
abbrev pub located : Str → Function → Function
located path f = if is_abs f.binary then f else record f { binary = join (dir path) f.binary }

abbrev pub validated : Str → Function → Option ManifestError → Result ManifestError Function
validated path f (some e) = err e
validated path f none = ok (located path f)

module _ (read_file : Str → Result Str Str) (unmarshal : Str → Result Str Function) where
  abbrev pub parsed : Str → Result Str Function → Result ManifestError Function
  parsed path (err e) = err (malformed e)
  parsed path (ok f) = validated path f (validate_function f)

  abbrev pub opened : Str → Result Str Str → Result ManifestError Function
  opened path (err e) = err (unreadable e)
  opened path (ok bytes) = parsed path (unmarshal bytes)

  unfoldable pub load : Str → Result ManifestError Function
  unfolding validate_function
  load path = opened path (read_file path)

clean-is_abs : (s : Str) → is_abs s ≡ true → is_abs (clean s) ≡ true
unfolding clean
clean-is_abs [] h = ground arith
clean-is_abs (c ∷ s) h = rw h refl

dir-is_abs : (s : Str) → is_abs s ≡ true → is_abs (dir s) ≡ true
unfolding dir
dir-is_abs [] h = ground arith
dir-is_abs (c ∷ s) h = rw h (clean-is_abs (c ∷ up_to_slash s) h)

join-is_abs : (s t : Str) → is_abs s ≡ true → is_abs (join s t) ≡ true
unfolding join
join-is_abs [] t h = ground arith
join-is_abs (c ∷ s) t h = clean-is_abs ((c ∷ s) ++ slash ∷ t) h

located-is_abs :
    (path : Str) (f : Function) → is_abs path ≡ true → is_abs (located path f).binary ≡ true
located-is_abs path f h = elim (Bool-cases (is_abs f.binary)) [
  | inl e ↦ rw e e
  | inr e ↦ rw e (join-is_abs (dir path) f.binary (dir-is_abs path h))
]

-- Is there a binary with a path from the root?
abbrev pub IsLocated : Result ManifestError Function → Type 0
IsLocated (ok f) = is_abs f.binary ≡ true
IsLocated (err e) = Unit

module _ (read_file : Str → Result Str Str) (unmarshal : Str → Result Str Function) (path : Str)
    (rooted : is_abs path ≡ true) where
  validated-IsLocated : (f : Function) (o : Option ManifestError) → IsLocated (validated path f o)
  validated-IsLocated f none = located-is_abs path f rooted
  validated-IsLocated f (some e) = tt

  parsed-IsLocated : (r : Result Str Function) → IsLocated (parsed read_file unmarshal path r)
  parsed-IsLocated (ok f) = validated-IsLocated f (validate_function f)
  parsed-IsLocated (err e) = tt

  opened-IsLocated : (r : Result Str Str) → IsLocated (opened read_file unmarshal path r)
  opened-IsLocated (ok bytes) = parsed-IsLocated (unmarshal bytes)
  opened-IsLocated (err e) = tt

  -- A manifest that is loaded from a path from the root has a binary with such a path.
  load-IsLocated : IsLocated (load read_file unmarshal path)
  unfolding load
  load-IsLocated = opened-IsLocated (read_file path)
