-- ===== src/Layers/Confined.antt =====
-- Whatever is in an archive, internal/gateway/layers.go writes below the directory it unpacks to.
use mathlib.Core.List.{append_assoc}
use cfunc.Base.{
  ◌≡◌, refl, ap, ◌∙◌, Bool, true, false, List, [], ◌∷◌, ◌++◌, Option, none, some, Str, arith,
  Bool-cases, inl, inr, All, IsName, Result, ok, err, length, ◌+◌, ◌<◌, length-append, ◌%◌,
}
use cfunc.Layers.{
  path_eq, FileSystem, FileError, Done, parts, parts_above, is_under, mkdir_all, remove_if_there,
  write_file,
}
use cfunc.Layers.Extract.{
  type_dir, type_reg, type_reg_a, type_symlink, type_other, safe_join, Entry, write_entry,
  write_entries, write_regular, write_at, TypeFlag, ExtractError, or_fail, then_do, copied,
  NameError,
}
use cfunc.Layers.Joined.{rooted, safe_join-inside}
use cfunc.Layers.Dirs.{parts-rooted, parts-dir}
use cfunc.Layers.Frames.{
  Off, Off-trans, Stands, under_prefix, IsBelow, under_refl, under-length, make_below-Off,
  make_below-Stands, remove_if_there-Off, write_file-Off,
}

module _ (base : List Str) (fs : FileSystem) where
  or_fail-Off :
      (r : Done FileError) (next : FileSystem → Done ExtractError)
      → Off base fs r.0
      → ((fs' : FileSystem) → Off base fs fs' → Off base fs (next fs').0)
      → Off base fs (or_fail r next).0
  or_fail-Off (fs', none) next h k = k fs' h
  or_fail-Off (fs', some e) next h k = h

  copied-Off : (b : Bool) (fs' : FileSystem) → Off base fs fs' → Off base fs (copied b fs').0
  copied-Off true fs' h = h
  copied-Off false fs' h = h

-- Directories above the base still stand where nothing outside of it has changed.
pub Stands-Off :
    (base : List Str) (fs fs' : FileSystem) (at ps : List Str)
    → length at + length ps < length base
    → Off base fs fs'
    → Stands fs at ps
    → Stands fs' at ps
Stands-Off base fs fs' at [] short off s = tt
Stands-Off base fs fs' at (p ∷ ps) short off s =
    let away : (is_under base (at ++ p ∷ []) ≡ false) =
      elim (Bool-cases (is_under base (at ++ p ∷ []))) [
        | inl e ↦
            absurd (omega (arith, under-length base (at ++ p ∷ []) e, length-append at (p ∷ [])))
        | inr e ↦ e
      ] in
    (
      off (at ++ p ∷ []) away ∙ s.0,
      Stands-Off base fs fs' (at ++ p ∷ []) ps (omega (arith, length-append at (p ∷ []))) off s.1,
    )

parts_above-append :
    (ps : List Str) (q : Str) (qs : List Str)
    → parts_above (ps ++ q ∷ qs) ≡ ps ++ parts_above (q ∷ qs)
parts_above-append [] q qs = refl
parts_above-append (p ∷ []) q qs = refl
parts_above-append (p ∷ r ∷ ps) q qs = ap (◌∷◌ p) (parts_above-append (r ∷ ps) q qs)

above-IsBelow :
    (ps : List Str) (t : Str) (ks : List Str) → IsBelow (ps ++ t ∷ []) ps (parts_above (t ∷ ks))
above-IsBelow ps t [] = tt
above-IsBelow ps t (k ∷ ks) = under_refl (ps ++ t ∷ [])

base-inside :
    (above : List Str) (t : Str)
    → All IsName (above ++ t ∷ [])
    → (name target : Str) → safe_join (rooted (above ++ t ∷ [])) name ≡ ok target
    → (ks : List Str) × (target ≡ rooted ((above ++ t ∷ []) ++ ks))
      × All IsName ((above ++ t ∷ []) ++ ks)
base-inside [] t names = λ name target. safe_join-inside t [] name target names
base-inside (p ∷ ps) t names = λ name target. safe_join-inside p (ps ++ t ∷ []) name target names

module _ (above : List Str) (t : Str) (names : All IsName (above ++ t ∷ [])) where
  abbrev base : List Str
  base = above ++ t ∷ []

  -- A path that safeJoin accepts has its components below the base.
  abbrev IsInside : Str → Type 0
  IsInside target = (ks : List Str) × (target ≡ rooted (base ++ ks)) × All IsName (base ++ ks)

  safe_join-IsInside :
      (name target : Str) → safe_join (rooted base) name ≡ ok target → IsInside target
  safe_join-IsInside name target h = base-inside above t names name target h

  module _ (fs : FileSystem) (stands : Stands fs [] above) where
    mkdir-Off : (ks : List Str) → Off base fs (mkdir_all fs (base ++ ks)).0
    mkdir-Off ks =
        let made = make_below-Off base fs above (t ∷ ks) (under_refl base) in
        rw (append_assoc above (t ∷ []) ks, make_below-Stands fs [] above (t ∷ ks) stands) made

    mkdir_above-Off : (ks : List Str) → Off base fs (mkdir_all fs (parts_above (base ++ ks))).0
    mkdir_above-Off ks =
        let made = make_below-Off base fs above (parts_above (t ∷ ks)) (above-IsBelow above t ks) in
        rw
          (
            append_assoc above (t ∷ []) ks,
            parts_above-append above t ks,
            make_below-Stands fs [] above (parts_above (t ∷ ks)) stands,
          )
          made

    write_regular-Off :
        (e : Entry) (target : Str) → IsInside target → Off base fs (write_regular fs target e).0
    write_regular-Off e target (ks, same, good) =
        let here = parts-rooted (base ++ ks) good in
        let under = under_prefix base ks in
        rw (same, parts-dir (base ++ ks) good, here)
          (or_fail-Off base fs (mkdir_all fs (parts_above (base ++ ks))) _ (mkdir_above-Off ks)
            λ a off_a.
              or_fail-Off base fs (remove_if_there a (base ++ ks)) _
                (Off-trans base fs a _ off_a (remove_if_there-Off base a (base ++ ks) under))
                λ b off_b.
                  or_fail-Off base fs (write_file b (base ++ ks) (e.mode % 512) e.content) _
                    (Off-trans base fs b _ off_b
                      (write_file-Off base b (base ++ ks) (e.mode % 512) e.content under))
                    λ c off_c. copied-Off base fs e.is_whole c off_c)

    write_dir-Off :
        (target : Str)
        → IsInside target
        → Off base fs (or_fail (mkdir_all fs (parts target)) (copied true)).0
    write_dir-Off target (ks, same, good) =
        rw (same, parts-rooted (base ++ ks) good)
          (or_fail-Off base fs (mkdir_all fs (base ++ ks)) (copied true) (mkdir-Off ks)
            λ a off_a. off_a)

    write_at-Off :
        (e : Entry) (r : Result NameError Str) (flag : TypeFlag)
        → ((target : Str) → r ≡ ok target → IsInside target)
        → Off base fs (write_at fs e r flag).0
    write_at-Off e (err bad) flag h = λ q away. refl
    write_at-Off e (ok target) type_dir h = write_dir-Off target (h target refl)
    write_at-Off e (ok target) type_reg h = write_regular-Off e target (h target refl)
    write_at-Off e (ok target) type_reg_a h = write_regular-Off e target (h target refl)
    write_at-Off e (ok target) type_symlink h = λ q away. refl
    write_at-Off e (ok target) type_other h = λ q away. refl

    pub write_entry-Off : (e : Entry) → Off base fs (write_entry (rooted base) fs e).0
    unfolding write_entry
    write_entry-Off e =
        write_at-Off e (safe_join (rooted base) e.name) e.typeflag (safe_join-IsInside e.name)

  keep-Stands : (fs fs' : FileSystem) → Off base fs fs' → Stands fs [] above → Stands fs' [] above
  keep-Stands fs fs' off stands =
      Stands-Off base fs fs' [] above (omega (arith, length-append above (t ∷ []))) off stands

  then_do-Off :
      (fs : FileSystem) (r : Done ExtractError) (next : FileSystem → Done ExtractError)
      → Off base fs r.0
      → ((fs' : FileSystem) → Off base fs fs' → Off base fs' (next fs').0)
      → Off base fs (then_do r next).0
  then_do-Off fs (fs', none) next h k = Off-trans base fs fs' (next fs').0 h (k fs' h)
  then_do-Off fs (fs', some e) next h k = h

  pub write_entries-Off :
      (fs : FileSystem) (es : List Entry) (at_end : Option ExtractError)
      → Stands fs [] above
      → Off base fs (write_entries (rooted base) fs es at_end).0
  unfolding write_entries
  write_entries-Off fs [] at_end stands = λ q away. refl
  write_entries-Off fs (e ∷ es) at_end stands =
      then_do-Off fs (write_entry (rooted base) fs e) _ (write_entry-Off fs stands e)
        λ fs' off. write_entries-Off fs' es at_end (keep-Stands fs fs' off stands)
