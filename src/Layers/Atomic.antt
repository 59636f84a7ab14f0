-- ===== src/Layers/Atomic.antt =====
-- A pull of internal/gateway/layers.go as a whole: what it leaves alone on disk, and what
-- stands at the target. That the files there are those of the archive is not stated.
use cfunc.Base.{
  ◌≡◌, refl, sym, ◌∙◌, ◌⊎◌, Bool, true, false, List, [], ◌∷◌, ◌++◌, none, some, Str, lit, get, put,
  ◌==◌, arith, Bool-cases, Option-cases, Result-cases, inl, inr, All, IsName, Result, ok, err,
  remove, subst, length-append,
}
use cfunc.Layers.{
  path_eq, path_beq_iff, directory, FileSystem, FileError, Done, parts, is_under, remove_all,
  move_all, rename,
}
use cfunc.Layers.Extract.{
  Archive, bad_gzip, no_gzip, entries, ExtractError, extract_tar_gz, digest_matches, write_entries,
  with_digest, unpacked,
}
use cfunc.Layers.Joined.{rooted}
use cfunc.Layers.Dirs.{parts-rooted}
use cfunc.Layers.Frames.{
  Off, Off-trans, Stands, get-remove_all, remove-Off, under_refl, get-move_all, put-Off,
}
use cfunc.Layers.Confined.{write_entries-Off, Stands-Off}
use cfunc.Layers.Present.{
  Present, PresentIf, remove-Present, put_here-Present, write_entries-Present, move_all-Present,
}
use cfunc.Layers.Pull.{Pulled, pull, exists_at, digest_checked, installed, in_temp}

-- A directory name that os.MkdirTemp can give: nothing stands at or below it, and the directories
-- above it are there.
pub record IsFresh (fs : FileSystem) (above : List Str) (t : Str) : Type 0 where
  pub names : All IsName (above ++ t ∷ [])
  pub stands : Stands fs [] above
  pub unused : (q : List Str) → is_under (above ++ t ∷ []) q ≡ true → get fs q ≡ none

module _ (sha256 : Str → Str) (unpack : Str → Archive) (fetch : Str → Result Str Str)
    (mkdir_temp : FileSystem → Str → Result FileError Str) where
  -- A pull that fails leaves every path as it was. One that succeeds gives the target, at which
  -- something stands then, changes nothing outside of it, and had it on disk already or fetched bytes
  -- of the digest asked for.
  abbrev pub IsAtomic : Str → Str → FileSystem → Pulled → Type 0
  IsAtomic digest target fs (fs', err e) = (q : List Str) → get fs' q ≡ get fs q
  IsAtomic digest target fs (fs', ok path) =
      (path ≡ target)
      × (exists_at fs' target ≡ true)
      × Off (parts target) fs fs'
      × ((exists_at fs target ≡ true)
          ⊎ ((raw : Str) × (fetch digest ≡ ok raw)
              × (digest_matches digest (lit "sha256:" ++ sha256 raw) ≡ true)))

  with_digest-files :
      (raw : Str) (drained : Bool) (r : Done ExtractError)
      → (with_digest sha256 unpack raw drained r).0 ≡ r.0
  with_digest-files raw drained (fs, some e) = refl
  with_digest-files raw true (fs, none) = refl
  with_digest-files raw false (fs, none) = refl

  with_digest-ok :
      (raw : Str) (drained : Bool) (r : Done ExtractError) (d : Str)
      → (with_digest sha256 unpack raw drained r).1 ≡ ok d
      → d ≡ lit "sha256:" ++ sha256 raw
  with_digest-ok raw drained (fs, some e) d h = ground arith
  with_digest-ok raw true (fs, none) d h = ground arith
  with_digest-ok raw false (fs, none) d h = ground arith

  with_digest-Present :
      (raw : Str) (drained : Bool) (p : List Str) (r : Done ExtractError) (d : Str)
      → PresentIf p r
      → (with_digest sha256 unpack raw drained r).1 ≡ ok d
      → Present p (with_digest sha256 unpack raw drained r).0
  with_digest-Present raw drained p (fs, some e) d there h = ground arith
  with_digest-Present raw true p (fs, none) d there h = there
  with_digest-Present raw false p (fs, none) d there h = ground arith

  Present-exists :
      (fs : FileSystem) (target : Str) → Present (parts target) fs → exists_at fs target ≡ true
  Present-exists fs target (n, h) = rw (exists_at, h) refl

  module _ (digest target raw : Str) (fs : FileSystem) (above : List Str) (t : Str)
      (fetched : fetch digest ≡ ok raw) (absent : exists_at fs target ≡ false)
      (fresh : IsFresh fs above t) (apart : is_under (above ++ t ∷ []) (parts target) ≡ false) where
    abbrev base : List Str
    base = above ++ t ∷ []

    -- What changed only below the temporary directory is gone with it.
    cleaned :
        (fs' : FileSystem)
        → Off base fs fs'
        → (q : List Str) → get (remove_all fs' base) q ≡ get fs q
    cleaned fs' off q = elim (Bool-cases (is_under base q)) [
      | inl e ↦ get-remove_all fs' base q ∙ rw (e, fresh.unused q e) refl
      | inr e ↦ get-remove_all fs' base q ∙ rw (e, off q e) refl
    ]

    still-absent : (fs' : FileSystem) → Off base fs fs' → get fs' (parts target) ≡ none
    still-absent fs' off = off (parts target) apart ∙ (elim (Option-cases (get fs (parts target))) [
      | inl e ↦ e
      | inr (n, e) ↦ let bad = rw (exists_at, e) at absent in ground arith
    ])

    moves :
        (fs' : FileSystem)
        → Off base fs fs'
        → Off (parts target) fs (move_all (remove fs' (parts target)) base (parts target))
    moves fs' off q away =
        let here : (get (remove fs' (parts target)) q ≡ get fs' q) =
          remove-Off (parts target) fs' (parts target) (under_refl (parts target)) q away in
        get-move_all (remove fs' (parts target)) base (parts target) q away
        ∙ (elim (Bool-cases (is_under base q)) [
          | inl e ↦ rw (e, fresh.unused q e) refl
          | inr e ↦ rw (e, here, off q e) refl
        ])

    other_name : parts target == base ≡ false
    other_name = elim (Bool-cases (parts target == base)) [
      | inl e ↦
          let under = rw ((path_beq_iff (parts target) base).0 e) at apart in
          let self = under_refl base in ground arith
      | inr e ↦ e
    ]

    arrives :
        (fs' : FileSystem)
        → Present base fs'
        → exists_at (move_all (remove fs' (parts target)) base (parts target)) target ≡ true
    arrives fs' there =
        Present-exists (move_all (remove fs' (parts target)) base (parts target)) target (
          move_all-Present (remove fs' (parts target)) base (parts target)
            (remove-Present base fs' (parts target) other_name there))

    installs :
        (fs' : FileSystem)
        → Off base fs fs'
        → Present base fs'
        → digest_matches digest (lit "sha256:" ++ sha256 raw) ≡ true
        → IsAtomic digest target fs
            (installed (rooted base) target (rename fs' base (parts target)))
    installs fs' off there good =
        let renamed : (rename fs' base (parts target)
            ≡ (move_all (remove fs' (parts target)) base (parts target), none)) =
          unfold rename in rw (rename, still-absent fs' off) refl in
        subst (λ r. IsAtomic digest target fs (installed (rooted base) target r)) (sym renamed)
          (refl, arrives fs' there, moves fs' off, inr (raw, fetched, good))

    checks :
        (r : FileSystem × Result ExtractError Str)
        → Off base fs r.0
        → ((d : Str) → r.1 ≡ ok d → (d ≡ lit "sha256:" ++ sha256 raw) × Present base r.0)
        → IsAtomic digest target fs (digest_checked digest (rooted base) target r)
    checks (fs', err e) off same = rw (parts-rooted base fresh.names) (cleaned fs' off)
    checks (fs', ok d) off same = elim (Bool-cases (digest_matches digest d)) [
      | inl e ↦
          rw (e, parts-rooted base fresh.names)
            (installs fs' off (same d refl).1 (rw (sym (same d refl).0) e))
      | inr e ↦ rw (e, parts-rooted base fresh.names) (cleaned fs' off)
    ]

    unpacks :
        (made : FileSystem)
        → Off base fs made
        → Stands made [] above
        → Present base made
        → (a : Archive)
        → IsAtomic digest target fs (
            digest_checked digest
              (rooted base)
              target
              (unpacked sha256 unpack raw (rooted base) made a))
    unpacks made off stands there no_gzip = checks (made, err bad_gzip) off (λ d h. ground arith)
    unpacks made off stands there (entries es at_end drained) =
        let done = write_entries (rooted base) made es at_end in
        checks (with_digest sha256 unpack raw drained done)
          (subst (λ f. Off base fs f) (sym (with_digest-files raw drained done))
            (Off-trans base fs made done.0 off
              (write_entries-Off above t fresh.names made es at_end stands)))
          (λ d h. (
            with_digest-ok raw drained done d h,
            with_digest-Present raw drained base done d
                (write_entries-Present base (rooted base) made es at_end there) h,
          ))

    makes :
        IsAtomic digest target fs
          (in_temp sha256 unpack fetch mkdir_temp digest target raw fs (ok (rooted base)))
    makes = rw (parts-rooted base fresh.names) (
        let made = put fs base directory in
        let off = put-Off base fs base directory (under_refl base) in
        unfold extract_tar_gz in
        unpacks made off
          (Stands-Off base fs made [] above (omega (arith, length-append above (t ∷ []))) off
            fresh.stands)
          (put_here-Present base fs directory) (unpack raw))

  -- What os.MkdirTemp gives is fresh, and is no directory above the target.
  abbrev pub IsTemp : FileSystem → Str → Str → Type 0
  IsTemp fs cache target =
      (tmp : Str)
      → mkdir_temp fs cache ≡ ok tmp
      → (above : List Str) × (t : Str) × (tmp ≡ rooted (above ++ t ∷ []))
        × IsFresh fs above t
        × (is_under (above ++ t ∷ []) (parts target) ≡ false)

  -- Whatever the archive holds, where os.MkdirTemp gives a fresh name that is not above the target: a pull that fails
  -- leaves what stands at every path as it was; one that succeeds gives the target, at which something
  -- stands then, changes nothing outside of it, and either found it on disk or fetched bytes whose digest is the one asked for.
  pub pull-IsAtomic :
      (cache digest target : Str) (fs : FileSystem)
      → IsTemp fs cache target
      → IsAtomic digest target fs (pull sha256 unpack fetch mkdir_temp cache digest target fs)
  unfolding pull
  pull-IsAtomic cache digest target fs temp = elim (Bool-cases (exists_at fs target)) [
    | inl e ↦ rw e (refl, e, λ q away. refl, inl e)
    | inr e ↦ elim (Result-cases (fetch digest)) [
      | inr (bad, e') ↦ rw (e, e') (λ q. refl)
      | inl (raw, e') ↦ elim (Result-cases (mkdir_temp fs cache)) [
        | inr (bad, f) ↦ rw (e, e', f) (λ q. refl)
        | inl (tmp, f) ↦
            let (above, t, same, fresh, apart) = temp tmp f in
            rw (e, e', f, same) (makes digest target raw fs above t e' e fresh apart)
      ]
    ]
  ]
