-- ===== src/Layers/Dirs.antt =====
-- filepath.Dir of a path that is cleaned, component by component.
use mathlib.Core.List.{append-nil}
use cfunc.Base.{
  ◌||◌, not, nat_beq, str_beq, walk, walk-Stays, split-append, split-Lacks, split-joined,
  keep-names, ◌≡◌, refl, ap, ◌∙◌, Bool, true, false, List, [], ◌∷◌, ◌++◌, Str, slash, All, IsName,
  Lacks, up_to_slash, joined, dir, clean, split, keep, is_entry,
}
use cfunc.Layers.{path_eq, parts, parts_above}
use cfunc.Layers.Joined.{rooted, keep-append, append-Stays, All-Stays}

-- The components with a slash behind each.
trailing : List Str → Str
trailing [] = []
trailing (p ∷ ps) = p ++ slash ∷ trailing ps

cons-full : (s t : Str) → str_beq (s ++ slash ∷ t) [] ≡ false
unfolding str_beq
cons-full [] t = refl
cons-full (c ∷ s) t = refl

or_true : (b : Bool) → b || not false ≡ true
or_true true = refl
or_true false = refl

up_to_slash-append : (s t : Str) → up_to_slash (s ++ slash ∷ t) ≡ s ++ slash ∷ up_to_slash t
up_to_slash-append [] t = refl
up_to_slash-append (c ∷ s) t =
    rw (up_to_slash-append s t, cons-full s (up_to_slash t), or_true (nat_beq c slash)) refl

up_to_slash-Lacks : (s : Str) → Lacks slash s → up_to_slash s ≡ []
unfolding str_beq
up_to_slash-Lacks [] h = refl
up_to_slash-Lacks (c ∷ s) h = rw (h.0, up_to_slash-Lacks s h.1) refl

up_to_slash-joined :
    (p : Str) (ps : List Str)
    → All IsName (p ∷ ps)
    → up_to_slash (joined (p ∷ ps)) ≡ trailing (parts_above (p ∷ ps))
unfolding joined trailing
up_to_slash-joined p [] h = up_to_slash-Lacks p h.0.2
up_to_slash-joined p (q ∷ ps) h =
    up_to_slash-append p (joined (q ∷ ps)) ∙ ap (λ s. p ++ slash ∷ s) (up_to_slash-joined q ps h.1)

split-trailing : (ps : List Str) → All IsName ps → split slash (trailing ps) ≡ ps ++ [] ∷ []
unfolding split trailing
split-trailing [] h = refl
split-trailing (p ∷ ps) h =
    split-append p (trailing ps) ∙ rw (split-Lacks p h.0.2, split-trailing ps h.1) refl

All-parts_above : (ps : List Str) → All IsName ps → All IsName (parts_above ps)
All-parts_above [] h = tt
All-parts_above (p ∷ []) h = tt
All-parts_above (p ∷ q ∷ ps) h = (h.0, All-parts_above (q ∷ ps) h.1)

pub parts-rooted : (ps : List Str) → All IsName ps → parts (rooted ps) ≡ ps
unfolding parts split str_beq joined
parts-rooted [] h = refl
parts-rooted (p ∷ ps) h = ap (keep is_entry) (split-joined p ps h) ∙ keep-names (p ∷ ps) h

clean-trailing : (ps : List Str) → All IsName ps → clean (slash ∷ trailing ps) ≡ rooted ps
unfolding clean split str_beq
clean-trailing ps h =
    ap (λ qs. slash ∷ joined qs)
      (ap (walk true []) (ap (◌∷◌ []) (split-trailing ps h))
        ∙ walk-Stays true [] ([] ∷ (ps ++ [] ∷ []))
            (refl, append-Stays ps ([] ∷ []) (All-Stays ps h) (refl, tt))
        ∙ keep-append is_entry ps ([] ∷ [])
        ∙ append-nil (keep is_entry ps)
        ∙ keep-names ps h)

parts-dir_cons :
    (p : Str) (ps : List Str)
    → All IsName (p ∷ ps)
    → parts (dir (rooted (p ∷ ps))) ≡ parts_above (p ∷ ps)
unfolding dir
parts-dir_cons p ps h =
    ap (λ s. parts (clean (slash ∷ s))) (up_to_slash-joined p ps h)
    ∙ ap parts (clean-trailing (parts_above (p ∷ ps)) (All-parts_above (p ∷ ps) h))
    ∙ parts-rooted (parts_above (p ∷ ps)) (All-parts_above (p ∷ ps) h)

pub parts-dir : (ps : List Str) → All IsName ps → parts (dir (rooted ps)) ≡ parts_above ps
unfolding dir clean split str_beq joined walk parts
parts-dir [] h = refl
parts-dir (p ∷ ps) h = parts-dir_cons p ps h
