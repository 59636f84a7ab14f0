-- ===== src/Layers/Store.antt =====
-- internal/layers/store.go: layers by name and version over directory trees by digest. The disk is
-- the directory below the store's root, its JSON files by what they decode to; the hash, and what
-- stands at a source path, are parameters, and so are the errors of Add's writes; a write that fails
-- leaves what it writes to as it was.
use cfunc.Base.{
  ℕ, not, ◌||◌, List, [], ◌∷◌, ◌++◌, Option, none, some, map, Str, lit, Map, keys, get, put,
  get_zero, has_prefix, keep, ◌==◌, if◌then◌else◌, Result, ok, err, ◌>>=◌, sort_by, str_less,
  is_abs, join, nat_eq, str_eq, Bool,
}
use cfunc.Layers.Refs.{
  Manifest, Ref, at_sign, ref_string, LayerError, missing_name, not_absolute, no_index, not_found,
  no_manifest, io_failed,
}
use cfunc.Layers.Trees.{Item, hash_stream, Stored, copy_tree, drop_write}

-- `index` is none where index.json cannot be read or parsed.
pub record Disk : Type 0 where
  pub blobs : Map Str (List Stored)
  pub manifests : Map Str Manifest
  pub index : Option (Map Str Str)

abbrev pub manifest_read : Str → Option Manifest → Result LayerError Manifest
manifest_read digest none = err (no_manifest digest)
manifest_read digest (some man) = ok man

abbrev pub read_manifest : Disk → Str → Result LayerError Manifest
read_manifest d digest = manifest_read digest (get d.manifests digest)

abbrev pub with_blob : Disk → Str → List Stored → Disk
with_blob d digest tree = record d { blobs = put d.blobs digest (map drop_write tree) }

-- The errors of the rename of the copied tree, and of the writes of the sidecar and the index.
pub record WriteErrors : Type 0 where
  pub on_rename : Option Str
  pub on_manifest : Option Str
  pub on_index : Option Str

abbrev pub write_index :
    Option Str → Disk → Str → Manifest → Map Str Str → Disk × Result LayerError Manifest
write_index (some e) d digest man idx = (d, err (io_failed e))
write_index none d digest man idx = (
  record d {
    index = some (put idx (ref_string (record { name = man.name; version = man.version })) digest);
  },
  ok man,
)

module _ (errors : WriteErrors) where
  -- Behind the write of the sidecar, which stays when the index cannot be read or written.
  abbrev pub indexed :
      Disk → Str → Manifest → Option (Map Str Str) → Disk × Result LayerError Manifest
  indexed d digest man none = (d, err no_index)
  indexed d digest man (some idx) = write_index errors.on_index d digest man idx

  abbrev pub write_manifest : Option Str → Disk → Str → Manifest → Disk × Result LayerError Manifest
  write_manifest (some e) d digest man = (d, err (io_failed e))
  write_manifest none d digest man =
      indexed (record d { manifests = put d.manifests digest man }) digest man d.index

  abbrev pub blob_renamed :
      Option Str → Disk → Str → Manifest → List Stored → Disk × Result LayerError Manifest
  blob_renamed (some e) d digest man tree = (d, err (io_failed e))
  blob_renamed none d digest man tree =
      write_manifest errors.on_manifest (with_blob d digest tree) digest man

  abbrev pub blob_copied :
      Disk → Str → Manifest → Result LayerError (List Stored) → Disk × Result LayerError Manifest
  blob_copied d digest man (err e) = (d, err e)
  blob_copied d digest man (ok tree) = blob_renamed errors.on_rename d digest man tree

  abbrev pub blob_stored :
      Disk → Str → Manifest → List Item → Option (List Stored) → Disk × Result LayerError Manifest
  blob_stored d digest man items (some _) = write_manifest errors.on_manifest d digest man
  blob_stored d digest man items none = blob_copied d digest man (copy_tree items)

module _ (sha256 : Str → Str) (source : Str → Result LayerError (List Item))
    (errors : WriteErrors) where
  abbrev pub manifest_of : Str → Str → Str → Str → Str → ℕ → Manifest
  manifest_of name version mount_path runtime digest size = record {
    name = name;
    version = version;
    runtime = runtime;
    mount_path = mount_path;
    digest = lit "sha256:" ++ digest;
    size = size;
  }

  abbrev pub hashed :
      Disk
      → Str
      → Str
      → Str
      → Str
      → List Item
      → Result LayerError (Str × ℕ)
      → Disk × Result LayerError Manifest
  hashed d name version mount_path runtime items (err e) = (d, err e)
  hashed d name version mount_path runtime items (ok (bytes, size)) =
      let digest = sha256 bytes in
      blob_stored errors d digest (manifest_of name version mount_path runtime digest size) items
        (get d.blobs digest)

  abbrev pub walked :
      Disk
      → Str
      → Str
      → Str
      → Str
      → Result LayerError (List Item)
      → Disk × Result LayerError Manifest
  walked d name version mount_path runtime (err e) = (d, err e)
  walked d name version mount_path runtime (ok items) =
      hashed d name version mount_path runtime items (hash_stream items)

  -- Store.Add, with what it leaves on disk.
  unfoldable pub add : Disk → Str → Str → Str → Str → Str → Disk × Result LayerError Manifest
  add d name version mount_path runtime src_dir =
      if name == [] || version == []
      then (d, err missing_name)
      else if not (is_abs mount_path)
      then (d, err not_absolute)
      else walked d name version mount_path runtime (source src_dir)

-- The digest under the greatest reference of a name, or "".
abbrev pub last_of : List Str → Option Str
last_of [] = none
last_of (x ∷ []) = some x
last_of (x ∷ y ∷ ys) = last_of (y ∷ ys)

abbrev pub digest_at : Map Str Str → Str → Str
digest_at idx key = get_zero [] (get idx key)

abbrev pub latest : Map Str Str → Str → Str
latest idx name =
    elim (last_of (sort_by str_less (keep (λ k. has_prefix k (name ++ at_sign ∷ [])) (keys idx)))) [
      | none ↦ []
      | some k ↦ digest_at idx k
    ]

abbrev pub found : Str → Disk → Ref → Str → Result LayerError (Manifest × Str)
found root d ref digest =
    if digest == []
    then err (not_found ref)
    else read_manifest d digest >>= λ man. ok (man, join (join root (lit "blobs")) digest)

abbrev pub resolve_in : Str → Disk → Ref → Option (Map Str Str) → Result LayerError (Manifest × Str)
resolve_in root d ref none = err no_index
resolve_in root d ref (some idx) =
    found root d ref
      (if ref.version == [] then latest idx ref.name else digest_at idx (ref_string ref))

-- Store.Resolve
unfoldable pub resolve : Str → Disk → Ref → Result LayerError (Manifest × Str)
resolve root d ref = resolve_in root d ref d.index

abbrev pub read_all : Disk → Map Str Str → List Str → Result LayerError (List Manifest)
read_all d idx [] = ok []
read_all d idx (r ∷ rs) =
    read_manifest d (digest_at idx r) >>= λ man. read_all d idx rs >>= λ ms. ok (man ∷ ms)

abbrev pub list_in : Disk → Option (Map Str Str) → Result LayerError (List Manifest)
list_in d none = err no_index
list_in d (some idx) = read_all d idx (sort_by str_less (keys idx))

-- Store.List
unfoldable pub list : Disk → Result LayerError (List Manifest)
list d = list_in d d.index

-- Open: an index is written where os.Stat finds none.
unfoldable pub open_store : Bool → Disk → Disk
open_store has_index d = if has_index then d else record d { index = some [] }
