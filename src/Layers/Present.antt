-- ===== src/Layers/Present.antt =====
-- What stands at the directory that internal/gateway/layers.go unpacks to, after it has unpacked and
-- after the rename.
use mathlib.Core.List.{append-nil}
use cfunc.Base.{
  if◌then◌else◌, dir, ◌≡◌, refl, ap, ◌∙◌, ◌⊎◌, Bool, true, false, List, [], ◌∷◌, ◌++◌, Option, none,
  some, Str, arith, get, put, remove, get-put, get-remove, ◌==◌, Bool-cases, Option-cases, inl, inr,
  Result, ok, err, length, drop, ◌%◌, ℕ,
}
use cfunc.Layers.{
  path_eq, Node, directory, file, FileSystem, FileError, Done, parts, parts_above, mkdir_all,
  make_below, remove_if_there, write_file, has_entries, is_dir, move_all, moved, path_beq_iff,
}
use cfunc.Layers.Extract.{
  type_dir, type_reg, type_reg_a, type_symlink, type_other, safe_join, Entry, write_entry,
  write_entries, write_regular, write_at, TypeFlag, ExtractError, or_fail, then_do, copied,
  NameError,
}
use cfunc.Layers.Frames.{under_refl}

abbrev pub Present : List Str → FileSystem → Type 0
Present p fs = (n : Node) × (get fs p ≡ some n)

-- Something stands at a path, if there was no error.
abbrev pub PresentIf {ℓ} : {E : Type ℓ} → List Str → FileSystem × Option E → Type 0
PresentIf p (fs, none) = Present p fs
PresentIf p (fs, some e) = Unit

path_beq_refl : (p : List Str) → p == p ≡ true
path_beq_refl p = (path_beq_iff p p).1 refl

module _ (p : List Str) where
  put-Present : (fs : FileSystem) (q : List Str) (n : Node) → Present p fs → Present p (put fs q n)
  put-Present fs q n (m, h) = elim (Bool-cases (q == p)) [
    | inl e ↦ (n, get-put fs q p n ∙ rw e refl)
    | inr e ↦ (m, get-put fs q p n ∙ rw e h)
  ]

  pub put_here-Present : (fs : FileSystem) (n : Node) → Present p (put fs p n)
  put_here-Present fs n = (n, get-put fs p p n ∙ rw (path_beq_refl p) refl)

  pub remove-Present :
      (fs : FileSystem) (q : List Str) → q == p ≡ false → Present p fs → Present p (remove fs q)
  remove-Present fs q e (m, h) = (m, get-remove fs q p ∙ rw e h)

  make_below-Present :
      (fs : FileSystem) (at ps : List Str) → Present p fs → Present p (make_below fs at ps).0
  unfolding make_below
  make_below-Present fs at [] h = h
  make_below-Present fs at (q ∷ qs) h = elim (Option-cases (get fs (at ++ q ∷ []))) [
    | inl e ↦
        rw (make_below, e)
          (make_below-Present (put fs (at ++ q ∷ []) directory) (at ++ q ∷ []) qs
            (put-Present fs (at ++ q ∷ []) directory h))
    | inr (directory, e) ↦ rw (make_below, e) (make_below-Present fs (at ++ q ∷ []) qs h)
    | inr (file mode bytes, e) ↦ rw (make_below, e) h
  ]

  remove_if_there-Present :
      (fs : FileSystem) (q : List Str)
      → q == p ≡ false
      → Present p fs
      → Present p (remove_if_there fs q).0
  unfolding remove_if_there
  remove_if_there-Present fs q apart h = elim (Option-cases (get fs q)) [
    | inl e ↦ rw (remove_if_there, e) h
    | inr (directory, e) ↦ elim (Bool-cases (has_entries fs q)) [
      | inl e' ↦ rw (remove_if_there, e, e') h
      | inr e' ↦ rw (remove_if_there, e, e') (remove-Present fs q apart h)
    ]
    | inr (file mode bytes, e) ↦ rw (remove_if_there, e) (remove-Present fs q apart h)
  ]

  -- A file that was written stands there, and what stood elsewhere still does.
  write_file-Present :
      (fs : FileSystem) (q : List Str) (mode : ℕ) (bytes : Str)
      → (q ≡ p) ⊎ Present p fs
      → PresentIf p (write_file fs q mode bytes)
  unfolding write_file
  write_file-Present fs q mode bytes h = elim (Option-cases (get fs q)) [
    | inl e ↦ elim (Bool-cases (is_dir fs (parts_above q))) [
      | inl e' ↦ rw (write_file, e, e') (written (file mode bytes) h)
      | inr e' ↦ rw (write_file, e, e') tt
    ]
    | inr (directory, e) ↦ rw (write_file, e) tt
    | inr (file old was, e) ↦ rw (write_file, e) (written (file old bytes) h)
  ]
    where
      written : (n : Node) → (q ≡ p) ⊎ Present p fs → Present p (put fs q n)
      written n (inl same) = rw same (put_here-Present fs n)
      written n (inr there) = put-Present fs q n there

  or_fail-Present :
      (Q : FileSystem → Type 0) (r : Done FileError) (next : FileSystem → Done ExtractError)
      → Q r.0
      → ((fs : FileSystem) → Q fs → PresentIf p (next fs))
      → PresentIf p (or_fail r next)
  or_fail-Present Q (fs, none) next h k = k fs h
  or_fail-Present Q (fs, some e) next h k = tt

  written-Present :
      (r : Done FileError) (whole : Bool)
      → PresentIf p r
      → PresentIf p (or_fail r (λ fs. copied whole fs))
  written-Present (fs, some e) whole h = tt
  written-Present (fs, none) true h = h
  written-Present (fs, none) false h = tt

  removed-Present :
      (fs : FileSystem) (q : List Str) → Present p fs → (q ≡ p) ⊎ Present p (remove_if_there fs q).0
  removed-Present fs q h = elim (Bool-cases (q == p)) [
    | inl e ↦ inl ((path_beq_iff q p).0 e)
    | inr e ↦ inr (remove_if_there-Present fs q e h)
  ]

  write_regular-Present :
      (fs : FileSystem) (target : Str) (e : Entry)
      → Present p fs
      → PresentIf p (write_regular fs target e)
  write_regular-Present fs target e h =
      or_fail-Present (Present p) (mkdir_all fs (parts (dir target))) _
        (make_below-Present fs [] (parts (dir target)) h)
        λ a there.
          or_fail-Present (λ b. (parts target ≡ p) ⊎ Present p b) (remove_if_there a (parts target))
            _ (removed-Present a (parts target) there)
            λ b here.
              written-Present (write_file b (parts target) (e.mode % 512) e.content) e.is_whole
                (write_file-Present b (parts target) (e.mode % 512) e.content here)

  write_at-Present :
      (fs : FileSystem) (e : Entry) (r : Result NameError Str) (flag : TypeFlag)
      → Present p fs
      → PresentIf p (write_at fs e r flag)
  write_at-Present fs e (err bad) flag h = tt
  write_at-Present fs e (ok target) type_dir h =
      or_fail-Present (Present p) (mkdir_all fs (parts target)) (copied true)
        (make_below-Present fs [] (parts target) h) (λ a there. there)
  write_at-Present fs e (ok target) type_reg h = write_regular-Present fs target e h
  write_at-Present fs e (ok target) type_reg_a h = write_regular-Present fs target e h
  write_at-Present fs e (ok target) type_symlink h = tt
  write_at-Present fs e (ok target) type_other h = h

  then_do-Present :
      (r : Done ExtractError) (next : FileSystem → Done ExtractError)
      → PresentIf p r
      → ((fs : FileSystem) → Present p fs → PresentIf p (next fs))
      → PresentIf p (then_do r next)
  then_do-Present (fs, none) next h k = k fs h
  then_do-Present (fs, some e) next h k = tt

  at_end-Present :
      (fs : FileSystem) (at_end : Option ExtractError) → Present p fs → PresentIf p (fs, at_end)
  at_end-Present fs none h = h
  at_end-Present fs (some e) h = tt

  -- Whatever an archive holds, where it is unpacked without an error something still stands where
  -- something stood.
  pub write_entries-Present :
      (dst : Str) (fs : FileSystem) (es : List Entry) (at_end : Option ExtractError)
      → Present p fs
      → PresentIf p (write_entries dst fs es at_end)
  unfolding write_entries write_entry
  write_entries-Present dst fs [] at_end h = at_end-Present fs at_end h
  write_entries-Present dst fs (e ∷ es) at_end h =
      then_do-Present (write_entry dst fs e) _
        (write_at-Present fs e (safe_join dst e.name) e.typeflag h)
        λ fs' there. write_entries-Present dst fs' es at_end there

drop-all : (xs : List Str) → drop (length xs) xs ≡ []
drop-all [] = refl
drop-all (x ∷ xs) = drop-all xs

moved_self : (old new : List Str) → moved old new old ≡ new
moved_self old new = rw (under_refl old) (ap (λ t. new ++ t) (drop-all old) ∙ append-nil new)

some_either :
    (b : Bool) (n k : Node) (o : Option Node)
    → o ≡ some k
    → (m : Node) × ((if b then some n else o) ≡ some m)
some_either true n k o h = (n, refl)
some_either false n k o h = (k, h)

-- Where something stands at the old name, it stands at the new one after the move.
pub move_all-Present :
    (fs : FileSystem) (old new : List Str) → Present old fs → Present new (move_all fs old new)
unfolding move_all get
move_all-Present [] old new (m, h) = ground arith
move_all-Present ((q, n) ∷ fs) old new (m, h) = elim (Bool-cases (q == old)) [
  | inl e ↦
      let same = (path_beq_iff q old).0 e in
      (n, rw (same, moved_self old new, path_beq_refl new) refl)
  | inr e ↦
      let (k, there) = move_all-Present fs old new (m, rw e at h) in
      some_either (moved old new q == new) n k _ there
]
