-- ===== src/Layers/Examples.antt =====
-- Layers on concrete disks.
use cfunc.Base.{
  ◌≡◌, refl, sym, ap, Bool, true, false, List, [], ◌∷◌, Option, none, some, Str, lit, get, Result,
  ok, err, All, IsName, arith, Bool-cases, inl, inr, ◌⊎◌, ℕ, get_elem?, slash, ◌++◌, str_eq,
  str_beq, split, joined, subst,
}
use cfunc.Layers.{
  path_eq, Node, directory, FileSystem, FileError, parts, is_under, path_beq, path_beq_iff,
}
use cfunc.Layers.Extract.{
  Entry, Archive, entries, type_reg, type_symlink, safe_join, extract_tar_gz,
}
use cfunc.Layers.Joined.{rooted, safe_join_exact}
use cfunc.Layers.Pull.{pull}
use cfunc.Layers.Atomic.{IsAtomic, IsTemp, IsFresh, pull-IsAtomic}
use cfunc.Layers.Flight.{no_callers, run_callers, arrive, look, lock, waiting, resume}
use cfunc.Layers.Flight.Served.{IsSingle}
use cfunc.Layers.Flight.Single.{run_callers-IsSingle}
use cfunc.Layers.Flight.Closing.{rest_of}
use cfunc.Layers.Flight.Released.{HasSucceeded, waiting-returns}
use cfunc.Layers.Refs.{LayerError, Manifest}
use cfunc.Layers.Trees.{Item, regular}
use cfunc.Layers.Store.{Disk, WriteErrors, add}

cache-IsName : IsName (lit "cache")
unfolding str_beq
cache-IsName = (refl, refl, (refl, (refl, (refl, (refl, (refl, tt))))))

temp-IsName : IsName (lit "tmp")
unfolding str_beq
temp-IsName = (refl, refl, (refl, (refl, (refl, tt))))

safe_join_exact_example :
    safe_join (rooted (lit "cache" ∷ lit "tmp" ∷ [])) (lit "a/./b") ≡ ok (lit "/cache/tmp/a/b")
unfolding str_beq split joined
safe_join_exact_example =
    safe_join_exact (lit "cache") (lit "tmp" ∷ []) (lit "a/./b") (cache-IsName, (temp-IsName, tt))

abbrev on_disk : FileSystem
on_disk = (lit "cache" ∷ [], directory) ∷ []

abbrev sha256 : Str → Str
sha256 s = s

abbrev unpack : Str → Archive
unpack raw =
    entries
      (record {
        name = lit "a";
        typeflag = type_reg;
        mode = 420;
        content = lit "x";
        is_whole = true;
      }
        ∷ [])
      none true

abbrev fetch : Str → Result Str Str
fetch digest = ok (lit "abc")

abbrev mkdir_temp : FileSystem → Str → Result FileError Str
mkdir_temp fs cache = ok (rooted (lit "cache" ∷ lit "tmp" ∷ []))

unused : (q : List Str) → is_under (lit "cache" ∷ lit "tmp" ∷ []) q ≡ true → get on_disk q ≡ none
unfolding get is_under str_beq
unused q h = elim (Bool-cases (path_beq (lit "cache" ∷ []) q)) [
  | inl e ↦
      let bad : (is_under (lit "cache" ∷ lit "tmp" ∷ []) (lit "cache" ∷ []) ≡ true) =
        subst (λ r. is_under (lit "cache" ∷ lit "tmp" ∷ []) r ≡ true)
          (sym ((path_beq_iff (lit "cache" ∷ []) q).0 e)) h in
      let no : (false ≡ true) = bad in ground arith
  | inr e ↦ rw e refl
]

fresh : IsFresh on_disk (lit "cache" ∷ []) (lit "tmp")
unfolding get path_beq str_beq
fresh = record { names = (cache-IsName, (temp-IsName, tt)); stands = (refl, tt); unused = unused }

abbrev target : Str
target = lit "/cache/sha256-abc"

is_temp : IsTemp sha256 unpack fetch mkdir_temp on_disk (lit "/cache") target
unfolding parts split str_beq is_under
is_temp tmp h =
    let same : (rooted (lit "cache" ∷ lit "tmp" ∷ []) ≡ tmp) = ground arith in
    (lit "cache" ∷ [], lit "tmp", sym same, fresh, refl)

pull-IsAtomic_example :
    IsAtomic sha256 unpack fetch mkdir_temp
      (lit "sha256:abc")
      target
      on_disk
      (pull sha256 unpack fetch mkdir_temp (lit "/cache") (lit "sha256:abc") target on_disk)
pull-IsAtomic_example =
    pull-IsAtomic sha256 unpack fetch mkdir_temp (lit "/cache") (lit "sha256:abc") target on_disk
      is_temp

is_installed :
    (pull sha256 unpack fetch mkdir_temp (lit "/cache") (lit "sha256:abc") target on_disk).1
    ≡ ok target
unfolding pull get path_beq parts split str_beq extract_tar_gz cfunc.Layers.Extract.write_entries
    cfunc.Layers.Extract.write_entry safe_join cfunc.Base.has_prefix cfunc.Base.clean
    cfunc.Base.join joined cfunc.Base.walk cfunc.Layers.make_below cfunc.Base.dir cfunc.Base.put
    cfunc.Base.remove cfunc.Base.trim_prefix cfunc.Layers.Extract.digest_matches is_under
    cfunc.Layers.move_all cfunc.Layers.remove_all cfunc.Layers.remove_if_there cfunc.Layers.rename
    cfunc.Layers.write_file
is_installed = refl

run_callers-IsSingle_example : IsSingle (run_callers no_callers (arrive ∷ look 0 ∷ lock 0 ∷ []))
run_callers-IsSingle_example = run_callers-IsSingle (arrive ∷ look 0 ∷ lock 0 ∷ [])

two_callers :
    get_elem?
      (run_callers no_callers (arrive ∷ arrive ∷ look 0 ∷ look 1 ∷ lock 0 ∷ lock 1 ∷ [])).callers
      1
    ≡ some (waiting 0)
unfolding run_callers cfunc.Layers.Flight.caller_step
two_callers = refl

waiting-returns_example :
    HasSucceeded
      (run_callers
        (run_callers no_callers (arrive ∷ arrive ∷ look 0 ∷ look 1 ∷ lock 0 ∷ lock 1 ∷ []))
        (resume 1 ∷ []))
      1
    ⊎ ((j : ℕ) × ((good : Bool)
          → HasSucceeded
              (run_callers
                (run_callers no_callers (arrive ∷ arrive ∷ look 0 ∷ look 1 ∷ lock 0 ∷ lock 1 ∷ []))
                (rest_of j good ++ resume 1 ∷ []))
              1))
waiting-returns_example =
    waiting-returns (arrive ∷ arrive ∷ look 0 ∷ look 1 ∷ lock 0 ∷ lock 1 ∷ []) 1 0 two_callers

abbrev empty_disk : Disk
empty_disk = record { blobs = []; manifests = []; index = some [] }

abbrev source : Str → Result LayerError (List Item)
source dir =
    ok (record { rel = lit "a"; kind = regular; perm = 420; size = 1; content = ok (lit "x") } ∷ [])

-- A hash that is never empty.
abbrev marked : Str → Str
marked s = 1 ∷ s

abbrev made : Manifest
made = record {
  name = lit "lib";
  version = lit "1";
  runtime = lit "go";
  mount_path = lit "/opt/lib";
  digest = lit "sha256:" ++ marked (lit "a" ++ 0 ∷ (lit "644" ++ 0 ∷ (lit "1" ++ 0 ∷ lit "x")));
  size = 1;
}

abbrev no_errors : WriteErrors
no_errors = record { on_rename = none; on_manifest = none; on_index = none }

abbrev after_add : Disk × Result LayerError Manifest
after_add =
    add marked source no_errors empty_disk (lit "lib") (lit "1") (lit "/opt/lib") (lit "go")
      (lit "/src")
