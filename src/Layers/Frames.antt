-- ===== src/Layers/Frames.antt =====
-- Which paths the file operations leave alone.
use mathlib.Core.List.{append-nil, append_assoc}
use cfunc.Base.{
  ◌≡◌, refl, ap, sym, ◌∙◌, ◌≤◌, true, false, List, [], ◌∷◌, ◌++◌, none, some, Str, length, get, put,
  remove, get-put, get-remove, ◌==◌, if◌then◌else◌, arith, Bool-cases, Option-cases, inl, inr,
  str_beq_iff, ℕ, drop,
}
use cfunc.Layers.{
  path_eq, Node, directory, file, FileSystem, is_under, make_below, remove_if_there, write_file,
  remove_all, has_entries, is_dir, parts_above, move_all, path_beq_iff, path_beq,
}

-- Outside of a directory, the same stands at each path.
abbrev pub Off : List Str → FileSystem → FileSystem → Type 0
Off base fs fs' = (q : List Str) → is_under base q ≡ false → get fs' q ≡ get fs q

-- Do directories stand at each of the components below a path?
abbrev pub Stands : FileSystem → List Str → List Str → Type 0
Stands fs at [] = Unit
Stands fs at (p ∷ ps) = (get fs (at ++ p ∷ []) ≡ some directory) × Stands fs (at ++ p ∷ []) ps

pub Off-trans : (base : List Str) (a b c : FileSystem) → Off base a b → Off base b c → Off base a c
Off-trans base a b c h k q away = k q away ∙ h q away

pub under-append : (ps qs rs : List Str) → is_under ps qs ≡ true → is_under ps (qs ++ rs) ≡ true
unfolding is_under
under-append [] qs rs h = refl
under-append (p ∷ ps) [] rs h = ground arith
under-append (p ∷ ps) (q ∷ qs) rs h = ground (arith, under-append ps qs rs)

pub under_refl : (ps : List Str) → is_under ps ps ≡ true
unfolding is_under
under_refl [] = refl
under_refl (p ∷ ps) = ground (arith, under_refl ps, str_beq_iff p p)

pub under-length : (ps qs : List Str) → is_under ps qs ≡ true → length ps ≤ length qs
unfolding is_under
under-length [] qs h = omega arith
under-length (p ∷ ps) [] h = ground arith
under-length (p ∷ ps) (q ∷ qs) h = ground (arith, under-length ps qs)

pub put-Off :
    (base : List Str) (fs : FileSystem) (p : List Str) (n : Node)
    → is_under base p ≡ true
    → Off base fs (put fs p n)
put-Off base fs p n h q away = elim (Bool-cases (p == q)) [
  | inl e ↦ let same = (path_beq_iff p q).0 e in let bad = rw same at h in ground arith
  | inr e ↦ get-put fs p q n ∙ rw e refl
]

pub remove-Off :
    (base : List Str) (fs : FileSystem) (p : List Str)
    → is_under base p ≡ true
    → Off base fs (remove fs p)
remove-Off base fs p h q away = elim (Bool-cases (p == q)) [
  | inl e ↦ let same = (path_beq_iff p q).0 e in let bad = rw same at h in ground arith
  | inr e ↦ get-remove fs p q ∙ rw e refl
]

-- The first directory to make is below the base.
abbrev pub IsBelow : List Str → List Str → List Str → Type 0
IsBelow base at [] = Unit
IsBelow base at (p ∷ ps) = is_under base (at ++ p ∷ []) ≡ true

next-IsBelow : (base at ps : List Str) → is_under base at ≡ true → IsBelow base at ps
next-IsBelow base at [] h = tt
next-IsBelow base at (p ∷ ps) h = under-append base at (p ∷ []) h

pub make_below-Off :
    (base : List Str) (fs : FileSystem) (at ps : List Str)
    → IsBelow base at ps
    → Off base fs (make_below fs at ps).0
unfolding make_below
make_below-Off base fs at [] h = λ q away. refl
make_below-Off base fs at (p ∷ ps) h = elim (Option-cases (get fs (at ++ p ∷ []))) [
  | inl e ↦
      let made = put fs (at ++ p ∷ []) directory in
      rw (make_below, e)
        (Off-trans base fs made (make_below made (at ++ p ∷ []) ps).0
          (put-Off base fs (at ++ p ∷ []) directory h)
          (make_below-Off base made (at ++ p ∷ []) ps (next-IsBelow base (at ++ p ∷ []) ps h)))
  | inr (directory, e) ↦
      rw (make_below, e)
        (make_below-Off base fs (at ++ p ∷ []) ps (next-IsBelow base (at ++ p ∷ []) ps h))
  | inr (file mode bytes, e) ↦ rw (make_below, e) (λ q away. refl)
]

pub make_below-Stands :
    (fs : FileSystem) (at ps qs : List Str)
    → Stands fs at ps
    → make_below fs at (ps ++ qs) ≡ make_below fs (at ++ ps) qs
unfolding make_below
make_below-Stands fs at [] qs s = ap (λ here. make_below fs here qs) (sym (append-nil at))
make_below-Stands fs at (p ∷ ps) qs s =
    rw (make_below, s.0, make_below-Stands fs (at ++ p ∷ []) ps qs s.1)
      (ap (λ here. make_below fs here qs) (append_assoc at (p ∷ []) ps))

pub remove_if_there-Off :
    (base : List Str) (fs : FileSystem) (p : List Str)
    → is_under base p ≡ true
    → Off base fs (remove_if_there fs p).0
unfolding remove_if_there
remove_if_there-Off base fs p h = elim (Option-cases (get fs p)) [
  | inl e ↦ rw (remove_if_there, e) (λ q away. refl)
  | inr (directory, e) ↦ elim (Bool-cases (has_entries fs p)) [
    | inl e' ↦ rw (remove_if_there, e, e') (λ q away. refl)
    | inr e' ↦ rw (remove_if_there, e, e') (remove-Off base fs p h)
  ]
  | inr (file mode bytes, e) ↦ rw (remove_if_there, e) (remove-Off base fs p h)
]

pub write_file-Off :
    (base : List Str) (fs : FileSystem) (p : List Str) (mode : ℕ) (bytes : Str)
    → is_under base p ≡ true
    → Off base fs (write_file fs p mode bytes).0
unfolding write_file
write_file-Off base fs p mode bytes h = elim (Option-cases (get fs p)) [
  | inl e ↦ elim (Bool-cases (is_dir fs (parts_above p))) [
    | inl e' ↦ rw (write_file, e, e') (put-Off base fs p (file mode bytes) h)
    | inr e' ↦ rw (write_file, e, e') (λ q away. refl)
  ]
  | inr (directory, e) ↦ rw (write_file, e) (λ q away. refl)
  | inr (file old was, e) ↦ rw (write_file, e) (put-Off base fs p (file old bytes) h)
]

pub get-remove_all :
    (fs : FileSystem) (base q : List Str)
    → get (remove_all fs base) q ≡ (if is_under base q then none else get fs q)
unfolding remove_all get
get-remove_all [] base q = ground arith
get-remove_all ((k, n) ∷ fs) base q = ground (arith, get-remove_all fs base q, path_beq_iff k q)

-- A path below a directory is none that is not.
apart :
    (base p q : List Str)
    → is_under base p ≡ true
    → is_under base q ≡ false
    → (path_beq p q ≡ false) × (path_beq q p ≡ false)
apart base p q h k = (
  elim (Bool-cases (path_beq p q)) [
    | inl e ↦ let bad = rw ((path_beq_iff p q).0 e) at h in ground arith
    | inr e ↦ e
  ],
  elim (Bool-cases (path_beq q p)) [
    | inl e ↦ let bad = rw ((path_beq_iff q p).0 e) at k in ground arith
    | inr e ↦ e
  ],
)

pub under_prefix : (ps qs : List Str) → is_under ps (ps ++ qs) ≡ true
under_prefix ps qs = under-append ps ps qs (under_refl ps)

pub get-move_all :
    (fs : FileSystem) (old new q : List Str)
    → is_under new q ≡ false
    → get (move_all fs old new) q ≡ (if is_under old q then none else get fs q)
unfolding move_all get
get-move_all [] old new q away = ground arith
get-move_all ((k, n) ∷ fs) old new q away = elim (Bool-cases (is_under old k)) [
  | inl e ↦
      let under = under_prefix new (drop (length old) k) in
      let not_here = (apart new (new ++ drop (length old) k) q under away).0 in
      elim (Bool-cases (is_under old q)) [
        | inl f ↦ rw (e, not_here, get-move_all fs old new q away, f) refl
        | inr f ↦ rw (e, not_here, get-move_all fs old new q away, f, (apart old k q e f).0) refl
      ]
  | inr e ↦ elim (Bool-cases (is_under old q)) [
    | inl f ↦ rw (e, get-move_all fs old new q away, f, (apart old q k f e).1) refl
    | inr f ↦ rw (e, get-move_all fs old new q away, f) refl
  ]
]
