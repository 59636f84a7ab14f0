-- ===== src/Layers/Added.antt =====
-- What Resolve of internal/layers/store.go answers after Add, and references read back.
use cfunc.Base.{
  ◌≡◌, false, List, [], ◌++◌, Option, none, some, Str, lit, map, get, ◌==◌, if◌then◌else◌, Result,
  ok, err, str_eq, ℕ,
}
use cfunc.Layers.Refs.{Manifest, Ref, LayerError, ref_string}
use cfunc.Layers.Trees.{Item, hash_stream, copy_tree, Stored, drop_write}
use cfunc.Layers.Store.{WriteErrors, Disk, resolve, manifest_of}
use cfunc.Layers.Resolved.{blob_path, digest_of}

-- The blob after an add: the one that was there already, or else the tree that was copied, without
-- the write bits of its files.
abbrev pub Keeps : List Item → Option (List Stored) → Option (List Stored) → Type 0
Keeps items (some tree) after = after ≡ some tree
Keeps items none after =
    (tree : List Stored) × (copy_tree items ≡ ok tree) × (after ≡ some (map drop_write tree))

-- What an add of a directory has stored, under the hash of what it read there.
pub record IsStored (sha256 : Str → Str) (source : Str → Result LayerError (List Item))
    (d d' : Disk) (ref : Ref) (mount_path runtime src_dir : Str) (man : Manifest) (digest : Str)
    : Type 0 where
  pub items : List Item
  pub bytes : Str
  pub size : ℕ
  pub from : source src_dir ≡ ok items
  pub hashes : hash_stream items ≡ ok (bytes, size)
  pub by_content : digest ≡ sha256 bytes
  pub manifest : man ≡ record {
    name = ref.name;
    version = ref.version;
    runtime = runtime;
    mount_path = mount_path;
    digest = lit "sha256:" ++ digest;
    size = size;
  }
  pub blob : Keeps items (get d.blobs digest) (get d'.blobs digest)
  pub other_blobs : (q : Str) → digest == q ≡ false → get d'.blobs q ≡ get d.blobs q

pub record IsAdded (sha256 : Str → Str) (source : Str → Result LayerError (List Item)) (root : Str)
    (d d' : Disk) (ref : Ref) (mount_path runtime src_dir : Str) (man : Manifest) : Type 0 where
  pub digest : Str
  pub stored : IsStored sha256 source d d' ref mount_path runtime src_dir man digest
  -- The reference is resolved to what was added.
  pub own : resolve root d' ref ≡ ok (man, blob_path root digest)
  -- Another one, with a version, resolves as before, save that one with the same digest now has the
  -- manifest that was added.
  pub others :
      (r : Ref)
      → r.version == [] ≡ false
      → ref_string ref == ref_string r ≡ false
      → resolve root d' r
        ≡ (if digest == digest_of d r then ok (man, blob_path root digest) else resolve root d r)

module _ (sha256 : Str → Str) (source : Str → Result LayerError (List Item)) (errors : WriteErrors)
    (full : (s : Str) → sha256 s == [] ≡ false) (root : Str) (d : Disk)
    (name version mount_path runtime src_dir : Str) where
  abbrev ref : Ref
  ref = record { name = name; version = version }

  -- What an add that succeeded has done, from its last step backwards.
  abbrev Adds : Disk × Result LayerError Manifest → Type 0
  Adds (d', ok man) = IsAdded sha256 source root d d' ref mount_path runtime src_dir man
  Adds (d', err e) = Unit

  module _ (versioned : version == [] ≡ false) (items : List Item)
      (from : source src_dir ≡ ok items) where
    module _ (bytes : Str) (size : ℕ) (hashes : hash_stream items ≡ ok (bytes, size)) where
      abbrev made : Manifest
      made = manifest_of sha256 source errors name version mount_path runtime (sha256 bytes) size
