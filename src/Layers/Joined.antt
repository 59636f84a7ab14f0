-- ===== src/Layers/Joined.antt =====
-- What safeJoin of internal/gateway/layers.go accepts, and the path that it gives.
use mathlib.Core.List.{append_assoc, append-nil}
use cfunc.Base.{
  ◌≡◌, refl, ap, sym, ◌∙◌, ◌||◌, Bool, true, false, List, [], ◌∷◌, ◌++◌, Str, All, keep, contains,
  ◌==◌, if◌then◌else◌, Result, ok, err, arith, inl, inr, slash, dot, dotdot, is_abs, is_entry,
  clean, join, joined, walk, shown, split, has_prefix, IsName, Stays, walk-Stays, split-append,
  split-joined, keep-names, split-Lacks, split-All, Bool-cases, has_prefix-append, Lacks, inl,
  str_eq, ◌⊎◌, not, ◌&&◌, str_beq_iff, All-append,
}
use cfunc.Layers.Extract.{safe_join, empty_name, absolute_path, contains_dotdot}

-- The printed form of a path from the root.
abbrev pub rooted : List Str → Str
rooted ps = slash ∷ joined ps

pub keep-append :
    {A : Type 0} (p : A → Bool) (xs ys : List A) → keep p (xs ++ ys) ≡ keep p xs ++ keep p ys
keep-append p [] ys = refl
keep-append p (x ∷ xs) ys = elim (Bool-cases (p x)) [
  | inl e ↦ rw (e, keep-append p xs ys) refl
  | inr e ↦ rw (e, keep-append p xs ys) refl
]

pub All-Stays : (ps : List Str) → All IsName ps → Stays ps
All-Stays [] h = tt
All-Stays (p ∷ ps) h = (h.0.1, All-Stays ps h.1)

pub append-Stays : (ps qs : List Str) → Stays ps → Stays qs → Stays (ps ++ qs)
append-Stays [] qs h k = k
append-Stays (p ∷ ps) qs h k = (h.0, append-Stays ps qs h.1 k)

-- A search that finds no ".." is a path that stays below.
contains-Stays : (ps : List Str) → contains ps dotdot ≡ false → Stays ps
contains-Stays [] h = tt
contains-Stays (p ∷ ps) h = elim (Bool-cases (p == dotdot)) [
  | inl e ↦ let k = rw e at h in ground arith
  | inr e ↦ let k = rw e at h in (e, contains-Stays ps k)
]

pub keep-IsName : (ps : List Str) → Stays ps → All (Lacks slash) ps → All IsName (keep is_entry ps)
keep-IsName [] h k = tt
keep-IsName (p ∷ ps) h k = elim (Bool-cases (is_entry p)) [
  | inl e ↦ rw e ((e, h.0, k.0), keep-IsName ps h.1 k.1)
  | inr e ↦ rw e (keep-IsName ps h.1 k.1)
]

joined-append :
    (p : Str) (ps : List Str) (q : Str) (qs : List Str)
    → joined ((p ∷ ps) ++ q ∷ qs) ≡ joined (p ∷ ps) ++ slash ∷ joined (q ∷ qs)
unfolding joined
joined-append p [] q qs = refl
joined-append p (r ∷ ps) q qs =
    rw (joined-append r ps q qs)
      (sym (append_assoc p (slash ∷ joined (r ∷ ps)) (slash ∷ joined (q ∷ qs))))

module _ (d : Str) (ds : List Str) (names : All IsName (d ∷ ds)) where
  split-rooted : (t : Str) → split slash (joined (d ∷ ds) ++ slash ∷ t) ≡ (d ∷ ds) ++ split slash t
  split-rooted t =
      split-append (joined (d ∷ ds)) t ∙ ap (λ ps. ps ++ split slash t) (split-joined d ds names)

  -- What stands behind a directory's path is cleaned below it.
  clean-below :
      (t : Str)
      → Stays (split slash t)
      → clean (rooted (d ∷ ds) ++ slash ∷ t) ≡ rooted ((d ∷ ds) ++ keep is_entry (split slash t))
  unfolding clean split cfunc.Base.str_beq
  clean-below t h =
      ap (λ ps. slash ∷ joined ps)
        (ap (walk true []) (ap (◌∷◌ []) (split-rooted t))
          ∙ walk-Stays true [] ([] ∷ ((d ∷ ds) ++ split slash t))
              (refl, append-Stays (d ∷ ds) (split slash t) (All-Stays (d ∷ ds) names) h)
          ∙ keep-append is_entry (d ∷ ds) (split slash t)
          ∙ ap (λ ps. ps ++ keep is_entry (split slash t)) (keep-names (d ∷ ds) names))

  clean-rooted : clean (rooted (d ∷ ds)) ≡ rooted (d ∷ ds)
  unfolding clean split cfunc.Base.str_beq
  clean-rooted =
      ap (λ ps. slash ∷ joined ps)
        (ap (walk true []) (ap (◌∷◌ []) (split-joined d ds names))
          ∙ walk-Stays true [] ([] ∷ d ∷ ds) (refl, All-Stays (d ∷ ds) names)
          ∙ keep-names (d ∷ ds) names)

  join-below :
      (t : Str)
      → Stays (split slash t)
      → join (rooted (d ∷ ds)) t ≡ rooted ((d ∷ ds) ++ keep is_entry (split slash t))
  unfolding join
  join-below t h = clean-below t h

shown-split : (ks : List Str) → All IsName ks → keep is_entry (split slash (shown false ks)) ≡ ks
unfolding cfunc.Base.str_beq
shown-split [] h = unfold split in refl
shown-split (k ∷ ks) h = ap (keep is_entry) (split-joined k ks h) ∙ keep-names (k ∷ ks) h

shown-Stays : (ks : List Str) → All IsName ks → Stays (split slash (shown false ks))
unfolding cfunc.Base.str_beq
shown-Stays [] h = unfold split in (refl, tt)
shown-Stays (k ∷ ks) h = rw (split-joined k ks h) (All-Stays (k ∷ ks) h)

clean-relative :
    (name : Str)
    → name == [] ≡ false
    → is_abs name ≡ false
    → Stays (split slash name)
    → clean name ≡ shown false (keep is_entry (split slash name))
unfolding clean cfunc.Base.str_beq
clean-relative [] full relative stays = let bad : (true ≡ false) = full in ground arith
clean-relative (c ∷ name) full relative stays =
    rw (relative, walk-Stays false [] (split slash (c ∷ name)) stays) refl

is_prefix :
    (d : Str) (ds ks : List Str)
    → (has_prefix (rooted ((d ∷ ds) ++ ks)) (rooted (d ∷ ds) ++ slash ∷ []) ≡ true)
      ⊎ (rooted ((d ∷ ds) ++ ks) ≡ rooted (d ∷ ds))
is_prefix d ds [] = inr (ap rooted (append-nil (d ∷ ds)))
is_prefix d ds (k ∷ ks) = inl (
    rw
      (joined-append d ds k ks, sym (append_assoc (rooted (d ∷ ds)) (slash ∷ []) (joined (k ∷ ks))))
      (has_prefix-append (rooted (d ∷ ds) ++ slash ∷ []) (joined (k ∷ ks))))

not_both : (b : Bool) → not b && not true ≡ false
not_both true = refl
not_both false = refl

abs_twice : (name : Str) → is_abs name || has_prefix name (slash ∷ []) ≡ is_abs name
unfolding has_prefix
abs_twice [] = refl
abs_twice (c ∷ name) = ground arith

never_escapes :
    (d : Str) (ds ks : List Str)
    → not (has_prefix (rooted ((d ∷ ds) ++ ks)) (rooted (d ∷ ds) ++ slash ∷ []))
        && not (rooted ((d ∷ ds) ++ ks) == rooted (d ∷ ds))
      ≡ false
never_escapes d ds ks = elim (is_prefix d ds ks) [
  | inl e ↦ rw e refl
  | inr e ↦
      let same = str_beq_iff (rooted ((d ∷ ds) ++ ks)) (rooted (d ∷ ds)) in
      rw (same.1 e)
        (not_both (has_prefix (rooted ((d ∷ ds) ++ ks)) (rooted (d ∷ ds) ++ slash ∷ [])))
]

join-relative :
    (d : Str) (ds : List Str) (name : Str)
    → All IsName (d ∷ ds)
    → name == [] ≡ false
    → is_abs name ≡ false
    → Stays (split slash name)
    → join (rooted (d ∷ ds)) (clean name) ≡ rooted ((d ∷ ds) ++ keep is_entry (split slash name))
join-relative d ds name names full relative stays =
    let ks = keep is_entry (split slash name) in
    let good = keep-IsName (split slash name) stays (split-All name) in
    ap (join (rooted (d ∷ ds))) (clean-relative name full relative stays)
    ∙ join-below d ds names (shown false ks) (shown-Stays ks good)
    ∙ ap (λ qs. rooted ((d ∷ ds) ++ qs)) (shown-split ks good)

-- Below a directory whose path is cleaned and not the root, safeJoin refuses exactly the empty name,
-- an absolute one and one with a component "..", and gives the directory's components followed by
-- those of the name; its last test never fails.
pub safe_join_exact :
    (d : Str) (ds : List Str) (name : Str)
    → All IsName (d ∷ ds)
    → safe_join (rooted (d ∷ ds)) name ≡ (
        if name == []
        then err empty_name
        else if is_abs name
        then err absolute_path
        else if contains (split slash name) dotdot
        then err contains_dotdot
        else ok (rooted ((d ∷ ds) ++ keep is_entry (split slash name))))
unfolding safe_join
safe_join_exact d ds name names = elim (Bool-cases (name == [])) [
  | inl e ↦ rw e refl
  | inr e ↦ elim (Bool-cases (is_abs name)) [
    | inl e' ↦ rw (e, abs_twice name, e') refl
    | inr e' ↦ elim (Bool-cases (contains (split slash name) dotdot)) [
      | inl f ↦ rw (e, abs_twice name, e', f) refl
      | inr f ↦
          let target = join-relative d ds name names e e' (contains-Stays (split slash name) f) in
          rw
            (
              e,
              abs_twice name,
              e',
              f,
              target,
              clean-rooted d ds names,
              never_escapes d ds (keep is_entry (split slash name)),
            )
            refl
    ]
  ]
]

-- A path that is accepted has the directory's components and then names.
pub safe_join-inside :
    (d : Str) (ds : List Str) (name target : Str)
    → All IsName (d ∷ ds)
    → safe_join (rooted (d ∷ ds)) name ≡ ok target
    → (ks : List Str) × (target ≡ rooted ((d ∷ ds) ++ ks)) × All IsName ((d ∷ ds) ++ ks)
safe_join-inside d ds name target names h =
    let k = sym (safe_join_exact d ds name names) ∙ h in
    elim (Bool-cases (name == [])) [
      | inl e ↦ let bad = rw e at k in ground arith
      | inr e ↦ elim (Bool-cases (is_abs name)) [
        | inl e' ↦ let bad = rw (e, e') at k in ground arith
        | inr e' ↦ elim (Bool-cases (contains (split slash name) dotdot)) [
          | inl f ↦ let bad = rw (e, e', f) at k in ground arith
          | inr f ↦
              let same : (rooted ((d ∷ ds) ++ keep is_entry (split slash name)) ≡ target) =
                let good = rw (e, e', f) at k in ground arith in
              (
                keep is_entry (split slash name),
                sym same,
                All-append IsName (d ∷ ds) (keep is_entry (split slash name)) names (
                    keep-IsName (split slash name) (contains-Stays (split slash name) f)
                      (split-All name)),
              )
        ]
      ]
    ]
