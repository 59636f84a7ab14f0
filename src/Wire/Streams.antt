-- ===== src/Wire/Streams.antt =====
-- Frames on a stream: what is written is read, and when the stream counts as ended.
use mathlib.Core.List.{append_assoc}
use cfunc.Base.{
  ap, sym, ◌∙◌, ◌≡◌, ◌≢◌, refl, ◌↔◌, ◌⊎◌, inl, inr, ℕ, ◌+◌, ◌%◌, ◌^◌, ◌≤◌, ◌<◌, Bool, true, false,
  [], ◌∷◌, ◌++◌, Str, length, take, drop, ltb, nat_beq, Result, ok, err, arith, Bool-cases,
  Result-cases, length-append, take-append, drop-append,
}
use cfunc.Wire.{
  Frame, max_frame_size, ReadError, is_eof, put_uint32, uint32, read_full, write_frame, read_frame,
  decoded,
}

uint32-put : (n : ℕ) → n < 2 ^ 32 → uint32 (put_uint32 n) ≡ n
unfolding uint32 put_uint32
uint32-put n h = omega arith

read_full-append : (xs ys : Str) → read_full (length xs) (xs ++ ys) ≡ ok (xs, ys)
unfolding read_full
read_full-append xs ys =
    let long : (ltb (length (xs ++ ys)) (length xs) ≡ false) =
      ground (arith, length-append xs ys) in
    rw (long, take-append xs ys, drop-append xs ys)

uint32-take : (s : Str) → uint32 (take 4 s) ≡ uint32 s
unfolding uint32
uint32-take [] = refl
uint32-take (a ∷ []) = refl
uint32-take (a ∷ b ∷ []) = refl
uint32-take (a ∷ b ∷ c ∷ []) = refl
uint32-take (a ∷ b ∷ c ∷ d ∷ s) = refl

length-drop4 : (s : Str) → 4 ≤ length s → length (drop 4 s) + 4 ≡ length s
length-drop4 [] h = omega arith
length-drop4 (a ∷ []) h = omega arith
length-drop4 (a ∷ b ∷ []) h = omega arith
length-drop4 (a ∷ b ∷ c ∷ []) h = omega arith
length-drop4 (a ∷ b ∷ c ∷ d ∷ s) h = omega arith

-- A result that ends a stream without an error.
abbrev pub is_end : {A : Type 0} → Result ReadError A → Bool
is_end (err e) = is_eof e
is_end (ok a) = false

-- Is there a header that announces a payload, and nothing after it?
abbrev pub IsBareHeader : Str → Type 0
IsBareHeader s = (length s ≡ 4) × (0 < uint32 s) × (uint32 s ≤ max_frame_size)

length-pos : (s : Str) → s ≢ [] → 0 < length s
length-pos [] h = absurd (h refl)
length-pos (c ∷ s) h = omega arith

length-zero : (s : Str) → length s ≡ 0 → s ≡ []
length-zero [] h = refl
length-zero (c ∷ s) h = absurd (omega arith)

module _ (marshal : Frame → Result Str Str) (unmarshal : Str → Result Str Frame) where
  read_frame-framed :
      (payload rest : Str)
      → 0 < length payload
      → length payload ≤ max_frame_size
      → read_frame marshal unmarshal (put_uint32 (length payload) ++ (payload ++ rest))
        ≡ decoded marshal unmarshal rest (unmarshal payload)
  unfolding read_frame
  read_frame-framed payload rest some_left small =
      let announced = uint32-put (length payload) (omega arith) in
      let nonzero : (nat_beq (length payload) 0 ≡ false) = ground arith in
      let fits : (ltb max_frame_size (length payload) ≡ false) = ground arith in
      let header : (read_full 4 (put_uint32 (length payload) ++ (payload ++ rest))
          ≡ ok (put_uint32 (length payload), payload ++ rest)) =
        unfold put_uint32 in read_full-append (put_uint32 (length payload)) (payload ++ rest) in
      rw (header, announced, nonzero, fits, read_full-append payload rest) refl

  -- A frame whose JSON is not empty and that is written is read from the front of a stream as what its JSON decodes to, and
  -- nothing of what follows it is consumed.
  pub read_frame-write :
      (f : Frame) (payload bytes rest : Str)
      → marshal f ≡ ok payload
      → payload ≢ []
      → write_frame marshal unmarshal f ≡ ok bytes
      → read_frame marshal unmarshal (bytes ++ rest)
        ≡ decoded marshal unmarshal rest (unmarshal payload)
  unfolding write_frame
  read_frame-write f payload bytes rest is_json full h =
      elim (Bool-cases (ltb max_frame_size (length payload))) [
        | inl e ↦ let bad = rw (is_json, e) at h in ground arith
        | inr e ↦
            let small : (length payload ≤ max_frame_size) = ground arith in
            let same : (put_uint32 (length payload) ++ payload ≡ bytes) =
              let made = rw (is_json, e) at h in
              let low : (length payload % 2 ^ 32 ≡ length payload) = omega (arith, small) in
              ground arith in
            ap (λ b. read_frame marshal unmarshal (b ++ rest)) (sym same)
            ∙ ap (read_frame marshal unmarshal)
                (append_assoc (put_uint32 (length payload)) payload rest)
            ∙ read_frame-framed payload rest (length-pos payload full) small
      ]

  module _ (s : Str) (long : ltb (length s) 4 ≡ false)
      (nonzero : nat_beq (uint32 (take 4 s)) 0 ≡ false)
      (fits : ltb max_frame_size (uint32 (take 4 s)) ≡ false) where
    ends-payload : is_end (read_frame marshal unmarshal s) ≡ true → IsBareHeader s
    unfolding read_frame read_full is_eof
    ends-payload h = elim (Bool-cases (ltb (length (drop 4 s)) (uint32 (take 4 s)))) [
      | inl e ↦
          let k = rw (long, nonzero, fits, e) at h in
          let none_left : (length (drop 4 s) ≡ 0) = ground arith in
          let announced = uint32-take s in
          (omega (arith, length-drop4 s (ground arith)), ground arith, ground arith)
      | inr e ↦ elim (Result-cases (unmarshal (take (uint32 (take 4 s)) (drop 4 s)))) [
        | inl (f, e') ↦ let k = rw (long, nonzero, fits, e, e') at h in ground arith
        | inr (er, e') ↦ let k = rw (long, nonzero, fits, e, e') at h in ground arith
      ]
    ]

  ends : (s : Str) → is_end (read_frame marshal unmarshal s) ≡ true → (s ≡ []) ⊎ IsBareHeader s
  unfolding read_frame read_full is_eof
  ends s h = elim (Bool-cases (ltb (length s) 4)) [
    | inl e ↦ let k = rw e at h in inl (length-zero s (ground arith))
    | inr e ↦ elim (Bool-cases (nat_beq (uint32 (take 4 s)) 0)) [
      | inl e' ↦ let k = rw (e, e') at h in ground arith
      | inr e' ↦ elim (Bool-cases (ltb max_frame_size (uint32 (take 4 s)))) [
        | inl e'' ↦ let k = rw (e, e', e'') at h in ground arith
        | inr e'' ↦ inr (ends-payload s e e' e'' h)
      ]
    ]
  ]

  bare-ends : (s : Str) → IsBareHeader s → is_end (read_frame marshal unmarshal s) ≡ true
  unfolding read_frame read_full is_eof
  bare-ends s h =
      let long : (ltb (length s) 4 ≡ false) = ground arith in
      let none_left : (length (drop 4 s) ≡ 0) = omega (arith, length-drop4 s (omega arith)) in
      let nonzero : (nat_beq (uint32 s) 0 ≡ false) = ground arith in
      let fits : (ltb max_frame_size (uint32 s) ≡ false) = ground arith in
      let short : (ltb (length (drop 4 s)) (uint32 s) ≡ true) = ground arith in
      rw (long, uint32-take s, nonzero, fits, short, none_left) refl

  -- The stream counts as ended exactly if nothing is left of it, or only a header that announces a
  -- payload is.
  pub read_frame-end :
      (s : Str) → (is_end (read_frame marshal unmarshal s) ≡ true) ↔ ((s ≡ []) ⊎ IsBareHeader s)
  unfolding read_frame read_full is_eof
  read_frame-end s =
      (ends s, λ h. elim h [ inl empty ↦ rw empty refl | inr bare ↦ bare-ends s bare ])
