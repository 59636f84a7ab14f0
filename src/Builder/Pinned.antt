-- ===== src/Builder/Pinned.antt =====
-- The requirements that internal/builder/spec.go lets through: each is pinned by a hash.
use cfunc.Base.{
  ◌≡◌, refl, sym, ap, ◌∙◌, ◌⊎◌, inl, inr, ◌↔◌, ℕ, suc, ◌≤◌, Bool, true, false, ◌&&◌, ◌||◌, List, [],
  ◌∷◌, ◌++◌, Option, none, some, Str, lit, All, all, length, take, drop, leb, has_prefix,
  has_prefix_split, length-take, take-append, split, trim_space, ◌==◌, arith, Bool-cases, subst,
  str_beq_iff, length-append, str_eq, le→leb, str_beq, take-drop, or_true,
}
use cfunc.Builder.{
  hash_mark, is_hex, hash_here, has_hash, LineError, SpecError, refers_to_file, check_line, or_next,
  check_lines, require_fully_hashed, stitch_continuations,
}

-- The line has "--hash=sha256:" with 64 hexadecimal digits behind it.
abbrev pub IsHashed : Str → Type 0
IsHashed line =
    (before : Str) × (hex : Str) × (after : Str) × (line ≡ before ++ (hash_mark ++ (hex ++ after)))
    × (length hex ≡ 64)
    × All (λ c. is_hex c ≡ true) hex

-- The line is blank, a comment, or a requirement with a hash that does not start with "-".
abbrev pub IsPinned : Str → Type 0
IsPinned line =
    (line ≡ [])
    ⊎ ((has_prefix line (lit "#") ≡ true) ⊎ ((has_prefix line (lit "-") ≡ false) × IsHashed line))

all-All : (p : ℕ → Bool) (s : Str) → all p s ≡ true → All (λ c. p c ≡ true) s
all-All p [] h = tt
all-All p (c ∷ s) h = (ground arith, all-All p s (ground arith))

All-all : (p : ℕ → Bool) (s : Str) → All (λ c. p c ≡ true) s → all p s ≡ true
All-all p [] h = refl
All-all p (c ∷ s) h = rw (h.0, All-all p s h.1) refl

hash_here_sound : (s : Str) → hash_here s ≡ true → IsHashed s
unfolding hash_here
hash_here_sound s h =
    let starts : (has_prefix s hash_mark ≡ true) = ground arith in
    let digits : (all is_hex (take 64 (drop 14 s)) ≡ true) = ground arith in
    let long : (64 ≤ length (drop 14 s)) = ground arith in
    (
      [],
      take 64 (drop 14 s),
      drop 64 (drop 14 s),
      has_prefix_split s hash_mark starts
          ∙ ap (λ t. hash_mark ++ t) (sym (take-drop 64 (drop 14 s))),
      omega (arith, length-take 64 (drop 14 s), long),
      all-All is_hex (take 64 (drop 14 s)) digits,
    )

has_hash_sound : (s : Str) → has_hash s ≡ true → IsHashed s
unfolding has_hash
has_hash_sound [] h = ground arith
has_hash_sound (c ∷ s) h = elim (Bool-cases (hash_here (c ∷ s))) [
  | inl e ↦ hash_here_sound (c ∷ s) e
  | inr e ↦
      let (before, hex, after, same, long, digits) = has_hash_sound s (rw e at h) in
      (c ∷ before, hex, after, ap (◌∷◌ c) same, long, digits)
]

hash_behind_mark :
    (t : Str) → hash_here (hash_mark ++ t) ≡ (all is_hex (take 64 t) && leb 64 (length t))
unfolding hash_here has_prefix
hash_behind_mark t = refl

hash_here-append :
    (hex after : Str)
    → length hex ≡ 64
    → All (λ c. is_hex c ≡ true) hex
    → hash_here (hash_mark ++ (hex ++ after)) ≡ true
unfolding hash_here
hash_here-append hex after long digits =
    let taken : (take 64 (hex ++ after) ≡ hex) =
      ap (λ n. take n (hex ++ after)) (sym long) ∙ take-append hex after in
    let enough : (leb 64 (length (hex ++ after)) ≡ true) =
      le→leb 64 (length (hex ++ after)) (omega (arith, length-append hex after, long)) in
    hash_behind_mark (hex ++ after) ∙ rw (taken, All-all is_hex hex digits, enough) refl

has_hash-append : (before s : Str) → has_hash s ≡ true → has_hash (before ++ s) ≡ true
unfolding has_hash
has_hash-append [] s h = h
has_hash-append (c ∷ before) s h = elim (Bool-cases (hash_here (c ∷ (before ++ s)))) [
  | inl e ↦ rw e refl
  | inr e ↦ rw (e, has_hash-append before s h) refl
]

here-has_hash : (s : Str) → hash_here s ≡ true → has_hash s ≡ true
unfolding has_hash hash_here
here-has_hash [] h = h
here-has_hash (c ∷ s) h = rw h refl

has_hash_iff : (s : Str) → (has_hash s ≡ true) ↔ IsHashed s
has_hash_iff s = (
  has_hash_sound s,
  λ (before, hex, after, same, long, digits). rw same (
      has_hash-append before (hash_mark ++ (hex ++ after))
        (here-has_hash (hash_mark ++ (hex ++ after)) (hash_here-append hex after long digits))),
)

-- What refers to a file starts with "-".
refers_to_file-dash : (line : Str) → refers_to_file line ≡ true → has_prefix line (lit "-") ≡ true
unfolding has_prefix
refers_to_file-dash [] h = ground arith
refers_to_file-dash (c ∷ s) h = ground arith

accepted-IsPinned : (line : Str) → check_line line ≡ none → IsPinned line
accepted-IsPinned line h = elim (Bool-cases (line == [])) [
  | inl e ↦ inl ((str_beq_iff line []).0 e)
  | inr e ↦ elim (Bool-cases (has_prefix line (lit "#"))) [
    | inl f ↦ inr (inl f)
    | inr f ↦ elim (Bool-cases (refers_to_file line)) [
      | inl g ↦ let bad = rw (e, f, g) at h in ground arith
      | inr g ↦ elim (Bool-cases (has_prefix line (lit "-"))) [
        | inl g' ↦ let bad = rw (e, f, g, g') at h in ground arith
        | inr g' ↦ elim (Bool-cases (has_hash line)) [
          | inl k ↦ inr (inr (g', has_hash_sound line k))
          | inr k ↦ let bad = rw (e, f, g, g', k) at h in ground arith
        ]
      ]
    ]
  ]
]

blank_line : check_line [] ≡ none
unfolding str_beq
blank_line = refl

pinned-accepted : (line : Str) → IsPinned line → check_line line ≡ none
pinned-accepted line (inl blank) = subst (λ l. check_line l ≡ none) (sym blank) blank_line
pinned-accepted line (inr (inl comment)) = rw (comment, or_true (line == [])) refl
pinned-accepted line (inr (inr (dash, hashed))) =
    let files : (refers_to_file line ≡ false) = elim (Bool-cases (refers_to_file line)) [
      | inl e ↦
          let dashed = refers_to_file-dash line e in let bad = rw dash at dashed in ground arith
      | inr e ↦ e
    ] in
    let found : (has_hash line ≡ true) = (has_hash_iff line).1 hashed in
    elim (Bool-cases (line == [] || has_prefix line (lit "#"))) [
      | inl e ↦ rw e refl
      | inr e ↦ rw (e, files, dash, found) refl
    ]

check_line_iff : (line : Str) → (check_line line ≡ none) ↔ IsPinned line
check_line_iff line = (accepted-IsPinned line, pinned-accepted line)

both :
    (n : ℕ) (o : Option LineError) (rest : Option SpecError)
    → or_next n o rest ≡ none
    → (o ≡ none) × (rest ≡ none)
both n none rest h = (refl, h)
both n (some e) rest h = ground arith

check_lines_iff :
    (n : ℕ) (lines : List Str)
    → (check_lines n lines ≡ none) ↔ All (λ raw. IsPinned (trim_space raw)) lines
unfolding check_lines
check_lines_iff n [] = (λ h. tt, λ h. refl)
check_lines_iff n (raw ∷ lines) =
    let here = check_line_iff (trim_space raw) in
    let later = check_lines_iff (suc n) lines in
    (
      λ h.
          let (a, b) = both n (check_line (trim_space raw)) (check_lines (suc n) lines) h in
          (here.0 a, later.0 b),
      λ h. rw (here.1 h.0, later.1 h.1) refl,
    )

-- requireFullyHashed accepts exactly the requirements of which each line, once continuations are
-- joined and surrounding white space is dropped, is blank, a comment, or a requirement that has a
-- hash and does not start with "-".
pub require_fully_hashed_iff :
    (content : Str)
    → (require_fully_hashed content ≡ none)
      ↔ All (λ raw. IsPinned (trim_space raw)) (split 10 (stitch_continuations content))
unfolding require_fully_hashed
require_fully_hashed_iff content = check_lines_iff 0 (split 10 (stitch_continuations content))
