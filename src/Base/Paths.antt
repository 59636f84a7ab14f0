-- ===== src/Base/Paths.antt =====
-- The functions of package path/filepath that the sources call, as they are on Unix.
use Prim.Native.Nat.{ℕ}
use mathlib.Core.Path.{◌≡◌, refl, ◌∙◌, sym}
use mathlib.Core.Bool.{Bool, true, false, not, ◌||◌}
use mathlib.Core.List.{List, [], ◌∷◌, ◌++◌, append-nil}
use mathlib.Core.Logic.{◌≢◌, inl, inr}
use mathlib.Core.List.{append-nil, append_assoc}
use cfunc.Base.Logic.{◌==◌, if◌then◌else◌, nat_beq, Bool-cases}
use cfunc.Base.Lists.{All, keep}
use cfunc.Base.Strings.{Str, grow, split, str_eq, Lacks}

-- The bytes of "/" and of the two components that mean a directory itself and the one above it.
abbrev pub slash : ℕ
slash = 47

abbrev pub dot : Str
dot = 46 ∷ []

abbrev pub dotdot : Str
dotdot = 46 ∷ 46 ∷ []

-- filepath.IsAbs
abbrev pub is_abs : Str → Bool
is_abs [] = false
is_abs (c ∷ s) = nat_beq c slash

-- Does the component name an entry of a directory?
abbrev pub is_entry : Str → Bool
is_entry p = not (p == [] || p == dot)

-- ".." takes the last component away; at the front of a relative path it stays.
abbrev pub climb : Bool → List Str → List Str
climb rooted [] = if rooted then [] else dotdot ∷ []
climb rooted (p ∷ []) = if p == dotdot then p ∷ dotdot ∷ [] else []
climb rooted (p ∷ q ∷ ps) = p ∷ climb rooted (q ∷ ps)

abbrev pub enter : Bool → List Str → Str → List Str
enter rooted at p =
    if not (is_entry p) then at else if p == dotdot then climb rooted at else at ++ p ∷ []

unfoldable pub walk : Bool → List Str → List Str → List Str
walk rooted at [] = at
walk rooted at (p ∷ ps) = walk rooted (enter rooted at p) ps

-- Components with a slash between them.
unfoldable pub joined : List Str → Str
joined [] = []
joined (p ∷ []) = p
joined (p ∷ q ∷ ps) = p ++ slash ∷ joined (q ∷ ps)

abbrev pub shown : Bool → List Str → Str
shown true ps = slash ∷ joined ps
shown false [] = dot
shown false (p ∷ ps) = joined (p ∷ ps)

-- filepath.Clean
unfoldable pub clean : Str → Str
clean [] = dot
clean (c ∷ s) = shown (is_abs (c ∷ s)) (walk (is_abs (c ∷ s)) [] (split slash (c ∷ s)))

-- filepath.Join of two elements
unfoldable pub join : Str → Str → Str
join [] [] = []
join [] (c ∷ s) = clean (c ∷ s)
join (c ∷ s) t = clean ((c ∷ s) ++ slash ∷ t)

-- A path up to its last slash, with it.
abbrev pub up_to_slash : Str → Str
up_to_slash [] = []
up_to_slash (c ∷ s) =
    let rest = up_to_slash s in if nat_beq c slash || not (rest == []) then c ∷ rest else []

-- filepath.Dir
unfoldable pub dir : Str → Str
dir s = clean (up_to_slash s)

-- A component of a cleaned path that starts at the root.
abbrev pub IsName : Str → Type 0
IsName p = (is_entry p ≡ true) × (p == dotdot ≡ false) × Lacks slash p

-- Is no component ".."?
abbrev pub Stays : List Str → Type 0
Stays ps = All (λ p. p == dotdot ≡ false) ps

grow-full : (c : ℕ) (ps : List Str) → grow c ps ≢ []
grow-full c [] h = cc
grow-full c (p ∷ ps) h = cc

grow-append : (c : ℕ) (ps qs : List Str) → ps ≢ [] → grow c (ps ++ qs) ≡ grow c ps ++ qs
grow-append c [] qs h = absurd (h refl)
grow-append c (p ∷ ps) qs h = refl

grow-All :
    (c : ℕ) (ps : List Str)
    → nat_beq c slash ≡ false
    → All (Lacks slash) ps
    → All (Lacks slash) (grow c ps)
grow-All c [] h a = ((h, tt), tt)
grow-All c (p ∷ ps) h a = ((h, a.0), a.1)

split-full : (s : Str) → split slash s ≢ []
unfolding split
split-full [] h = cc
split-full (c ∷ s) h = elim (Bool-cases (nat_beq c slash)) [
  | inl e ↦ let k = rw e at h in cc
  | inr e ↦ let k = rw e at h in grow-full c (split slash s) k
]

pub split-append : (s t : Str) → split slash (s ++ slash ∷ t) ≡ split slash s ++ split slash t
unfolding split
split-append [] t = refl
split-append (c ∷ s) t = elim (Bool-cases (nat_beq c slash)) [
  | inl e ↦ rw (e, split-append s t) refl
  | inr e ↦ rw (e, split-append s t) (grow-append c (split slash s) (split slash t) (split-full s))
]

pub split-Lacks : (s : Str) → Lacks slash s → split slash s ≡ s ∷ []
unfolding split
split-Lacks [] h = refl
split-Lacks (c ∷ s) h = rw (h.0, split-Lacks s h.1) refl

pub split-All : (s : Str) → All (Lacks slash) (split slash s)
unfolding split
split-All [] = (tt, tt)
split-All (c ∷ s) = elim (Bool-cases (nat_beq c slash)) [
  | inl e ↦ rw e (tt, split-All s)
  | inr e ↦ rw e (grow-All c (split slash s) e (split-All s))
]

pub walk-Stays :
    (rooted : Bool) (at ps : List Str) → Stays ps → walk rooted at ps ≡ at ++ keep is_entry ps
unfolding walk
walk-Stays rooted at [] h = sym (append-nil at)
walk-Stays rooted at (p ∷ ps) h = elim (Bool-cases (is_entry p)) [
  | inl e ↦
      rw (e, h.0, walk-Stays rooted (at ++ p ∷ []) ps h.1)
        (append_assoc at (p ∷ []) (keep is_entry ps))
  | inr e ↦ rw (e, walk-Stays rooted at ps h.1) refl
]

-- The components of the printed form of names are the names.
pub split-joined :
    (p : Str) (ps : List Str) → All IsName (p ∷ ps) → split slash (joined (p ∷ ps)) ≡ p ∷ ps
unfolding joined
split-joined p [] h = split-Lacks p h.0.2
split-joined p (q ∷ ps) h =
    split-append p (joined (q ∷ ps)) ∙ rw (split-Lacks p h.0.2, split-joined q ps h.1) refl

pub keep-names : (ps : List Str) → All IsName ps → keep is_entry ps ≡ ps
keep-names [] h = refl
keep-names (p ∷ ps) h = rw (h.0.0, keep-names ps h.1) refl
