-- ===== src/Layers/Pull.antt =====
-- internal/gateway/layers.go: a layer that is not on disk is pulled by its digest, and the mounts of
-- a function are resolved. The layer store and os.MkdirTemp are parameters.
use cfunc.Base.{
  Bool, true, false, List, [], ◌∷◌, Option, none, some, Str, get, put, ◌==◌, if◌then◌else◌, Result,
  ok, err, join, not, str_eq,
}
use cfunc.Layers.{
  path_eq, directory, FileSystem, FileError, not_exist, Done, parts, remove_all, rename,
}
use cfunc.Layers.Extract.{ExtractError, Archive, extract_tar_gz, sanitise_digest, digest_matches}
use cfunc.Gateway.Registry.{LayerMount}

pub data PullError : Type 0 where
  get_failed : Str → PullError
  temp_failed rename_failed stat_failed : FileError → PullError
  extract_failed : ExtractError → PullError
  digest_mismatch : Str → PullError
  no_host_path : PullError

-- os.Stat without an error.
abbrev pub exists_at : FileSystem → Str → Bool
exists_at fs path = elim (get fs (parts path)) [ none ↦ false | some n ↦ true ]

abbrev pub Pulled : Type 0
Pulled = FileSystem × Result PullError Str

-- os.Rename's error counts for nothing when the target is there.
abbrev pub installed : Str → Str → Done FileError → Pulled
installed tmp target (fs, none) = (fs, ok target)
installed tmp target (fs, some e) =
    (remove_all fs (parts tmp), if exists_at fs target then ok target else err (rename_failed e))

abbrev pub digest_checked : Str → Str → Str → FileSystem × Result ExtractError Str → Pulled
digest_checked digest tmp target (fs, err e) = (remove_all fs (parts tmp), err (extract_failed e))
digest_checked digest tmp target (fs, ok got) =
    if not (digest_matches digest got)
    then (remove_all fs (parts tmp), err (digest_mismatch got))
    else installed tmp target (rename fs (parts tmp) (parts target))

module _ (sha256 : Str → Str) (unpack : Str → Archive) (fetch : Str → Result Str Str)
    (mkdir_temp : FileSystem → Str → Result FileError Str) where
  abbrev pub in_temp : Str → Str → Str → FileSystem → Result FileError Str → Pulled
  in_temp digest target raw fs (err e) = (fs, err (temp_failed e))
  in_temp digest target raw fs (ok tmp) =
      digest_checked digest tmp target
        (extract_tar_gz sha256 unpack raw tmp (put fs (parts tmp) directory))

  abbrev pub got : Str → Str → Str → FileSystem → Result Str Str → Pulled
  got cache digest target fs (err e) = (fs, err (get_failed e))
  got cache digest target fs (ok raw) = in_temp digest target raw fs (mkdir_temp fs cache)

  -- ensureLocal from the second look at the target on, which the caller that holds the slot does.
  unfoldable pub pull : Str → Str → Str → FileSystem → Pulled
  pull cache digest target fs =
      if exists_at fs target then (fs, ok target) else got cache digest target fs (fetch digest)

  -- ensureLocal of a caller that no other one meets.
  unfoldable pub ensure_local : Str → Str → FileSystem → Pulled
  ensure_local cache digest fs =
      let target = join cache (sanitise_digest digest) in
      if exists_at fs target then (fs, ok target) else pull cache digest target fs

  abbrev pub checked_on_disk : FileSystem → LayerMount → Result PullError Str
  checked_on_disk fs m =
      if m.host_path == []
      then err no_host_path
      else if exists_at fs m.host_path
      then ok m.host_path
      else err (stat_failed not_exist)

  abbrev pub resolve_one : Str → FileSystem → LayerMount → Pulled
  resolve_one cache fs m =
      if m.digest == [] then (fs, checked_on_disk fs m) else ensure_local cache m.digest fs

  -- The mounts that are left behind an error are as they were.
  abbrev pub and_rest :
      LayerMount
      → List LayerMount
      → Pulled
      → (FileSystem → FileSystem × List LayerMount × Option PullError)
      → FileSystem × List LayerMount × Option PullError
  and_rest m ms (fs, err e) next = (fs, m ∷ ms, some e)
  and_rest m ms (fs, ok path) next =
      let (fs', ms', e) = next fs in (fs', record m { host_path = path } ∷ ms', e)

  -- StoreResolver.Resolve: the file system, the mounts and the error.
  unfoldable pub resolve_mounts :
      Str → FileSystem → List LayerMount → FileSystem × List LayerMount × Option PullError
  resolve_mounts cache fs [] = (fs, [], none)
  resolve_mounts cache fs (m ∷ ms) =
      and_rest m ms (resolve_one cache fs m) (λ fs'. resolve_mounts cache fs' ms)

-- NopResolver.Resolve
unfoldable pub resolve_nop : FileSystem → List LayerMount → Option PullError
resolve_nop fs [] = none
resolve_nop fs (m ∷ ms) =
    let rest = resolve_nop fs ms in
    if m.host_path == []
    then some no_host_path
    else if exists_at fs m.host_path
    then rest
    else some (stat_failed not_exist)
