-- ===== src/Layers/Resolved.antt =====
-- What Resolve of internal/layers/store.go answers where one manifest and one index entry are new.
use cfunc.Base.{
  ◌≡◌, refl, sym, ap, ◌∙◌, Bool, true, false, List, [], Option, none, some, Str, lit, Map, get, put,
  get-put, ◌==◌, if◌then◌else◌, ok, join, Bool-cases, inl, inr, str_beq_iff, str_beq_refl, subst,
  str_eq,
}
use cfunc.Layers.Refs.{Manifest, Ref, ref_string}
use cfunc.Layers.Trees.{Stored}
use cfunc.Layers.Store.{Disk, resolve, digest_at, found, read_manifest, resolve_in, manifest_read}

abbrev pub blob_path : Str → Str → Str
blob_path root digest = join (join root (lit "blobs")) digest

-- The digest that the index has for a reference, or "".
abbrev pub digest_in : Ref → Option (Map Str Str) → Str
digest_in r none = []
digest_in r (some idx) = digest_at idx (ref_string r)

abbrev pub digest_of : Disk → Ref → Str
digest_of d r = digest_in r d.index

resolve_versioned :
    (root : Str) (d : Disk) (idx : Map Str Str) (r : Ref)
    → d.index ≡ some idx
    → r.version == [] ≡ false
    → resolve root d r ≡ found root d r (digest_at idx (ref_string r))
unfolding resolve
resolve_versioned root d idx r readable v = ap (resolve_in root d r) readable ∙ rw v refl

module _ (root : Str) (d : Disk) (idx : Map Str Str) (digest : Str) (man : Manifest) (ref : Ref)
    (readable : d.index ≡ some idx) (full : digest == [] ≡ false)
    (versioned : ref.version == [] ≡ false) where
  abbrev pub after : Map Str (List Stored) → Disk
  after blobs = record {
    blobs = blobs;
    manifests = put d.manifests digest man;
    index = some (put idx (ref_string ref) digest);
  }

  at-put :
      (r : Ref)
      → digest_at (put idx (ref_string ref) digest) (ref_string r)
        ≡ (if ref_string ref == ref_string r then digest else digest_at idx (ref_string r))
  at-put r = elim (Bool-cases (ref_string ref == ref_string r)) [
    | inl e ↦ rw (get-put idx (ref_string ref) (ref_string r) digest, e) refl
    | inr e ↦ rw (get-put idx (ref_string ref) (ref_string r) digest, e) refl
  ]

  read-put :
      (blobs : Map Str (List Stored)) (q : Str)
      → read_manifest (after blobs) q ≡ (if digest == q then ok man else read_manifest d q)
  read-put blobs q = ap (manifest_read q) (get-put d.manifests digest q man) ∙ go (digest == q)
    where
      go :
          (b : Bool)
          → manifest_read q (if b then some man else get d.manifests q)
            ≡ (if b then ok man else read_manifest d q)
      go true = refl
      go false = refl

  found-after :
      (blobs : Map Str (List Stored)) (r : Ref) (q : Str)
      → found root (after blobs) r q
        ≡ (if digest == q then ok (man, blob_path root digest) else found root d r q)
  found-after blobs r q = elim (Bool-cases (digest == q)) [
    | inl e ↦
        let same = (str_beq_iff digest q).0 e in
        subst
          (λ q.
            found root (after blobs) r q
            ≡ (if digest == q then ok (man, blob_path root digest) else found root d r q))
          same (rw (full, read-put blobs digest, str_beq_refl digest) refl)
    | inr e ↦ rw (read-put blobs q, e) refl
  ]

  pub own-after :
      (blobs : Map Str (List Stored))
      → resolve root (after blobs) ref ≡ ok (man, blob_path root digest)
  own-after blobs =
      resolve_versioned root (after blobs) (put idx (ref_string ref) digest) ref refl versioned
      ∙ ap (found root (after blobs) ref) (at-put ref ∙ rw (str_beq_refl (ref_string ref)) refl)
      ∙ found-after blobs ref digest
      ∙ rw (str_beq_refl digest) refl

  pub others-after :
      (blobs : Map Str (List Stored)) (r : Ref)
      → r.version == [] ≡ false
      → ref_string ref == ref_string r ≡ false
      → resolve root (after blobs) r
        ≡ (if digest == digest_of d r then ok (man, blob_path root digest) else resolve root d r)
  others-after blobs r v apart =
      resolve_versioned root (after blobs) (put idx (ref_string ref) digest) r refl v
      ∙ ap (found root (after blobs) r) (at-put r ∙ rw apart refl)
      ∙ found-after blobs r (digest_at idx (ref_string r))
      ∙ ap
          (λ q.
            if digest == q
            then ok (man, blob_path root digest)
            else found root d r (digest_at idx (ref_string r)))
          (sym (ap (digest_in r) readable))
      ∙ ap (λ o. if digest == digest_of d r then ok (man, blob_path root digest) else o)
          (sym (resolve_versioned root d idx r readable v))
