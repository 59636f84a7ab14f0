-- ===== src/Sdk/Serving.antt =====
-- Serve of sdks/go/cfunc.go ends on every stream, and answers what the gateway has written.
use cfunc.Base.{
  ◌≡◌, ◌≢◌, refl, ap, ◌∙◌, ℕ, suc, zero, ◌≤◌, ◌<◌, false, List, [], ◌∷◌, ◌++◌, Option, none, some,
  Str, lit, length, drop, ltb, nat_beq, ◌==◌, Result, ok, err, arith, Bool-cases, inl, inr, ℤ, All,
  str_eq, map, length-drop,
}
use cfunc.Wire.{
  is_eof, max_frame_size, Frame, ReadError, write_frame, read_frame, read_full, with_header,
  with_payload, decoded, uint32,
}
use cfunc.Wire.Streams.{read_frame-write}
use cfunc.Sdk.Replies.{Answer, reply-Answer}
use cfunc.Sdk.{on_read, Event, Response, Called, reply, serve, sent, on_frame, is_eof}

length-drop_pos :
    {A : Type 0} (n : ℕ) (xs : List A) → 0 < n → n ≤ length xs → length (drop n xs) < length xs
length-drop_pos n xs h k = omega (arith, length-drop n xs k, h)

-- What is left behind a successful read is shorter.
abbrev Shortens : {A : Type 0} → ℕ → Result ReadError (A × Str) → Type 0
Shortens n (ok (a, rest)) = length rest < n
Shortens n (err e) = Unit

read_full-Shortens : (n : ℕ) (s : Str) → 0 < n → Shortens (length s) (read_full n s)
unfolding read_full
read_full-Shortens n s h = elim (Bool-cases (ltb (length s) n)) [
  | inl e ↦ rw e tt
  | inr e ↦ rw e (length-drop_pos n s h (ground arith))
]

Shortens-trans :
    {A : Type 0} (m n : ℕ) (r : Result ReadError (A × Str)) → m ≤ n → Shortens m r → Shortens n r
Shortens-trans m n (ok (a, rest)) h k = omega (arith, h, k)
Shortens-trans m n (err e) h k = tt

module _ (marshal : Frame → Result Str Str) (unmarshal : Str → Result Str Frame) where
  decoded-Shortens :
      (n : ℕ) (rest : Str) (r : Result Str Frame)
      → length rest < n
      → Shortens n (decoded marshal unmarshal rest r)
  decoded-Shortens n rest (ok f) h = h
  decoded-Shortens n rest (err e) h = tt

  payload-Shortens :
      (n : ℕ) (r : Result ReadError (Str × Str))
      → Shortens n r
      → Shortens n (with_payload marshal unmarshal r)
  payload-Shortens n (ok (buf, rest)) h = decoded-Shortens n rest (unmarshal buf) h
  payload-Shortens n (err e) h = tt

  header-Shortens :
      (n : ℕ) (r : Result ReadError (Str × Str))
      → Shortens n r
      → Shortens n (with_header marshal unmarshal r)
  header-Shortens n (err e) h = tt
  header-Shortens n (ok (hdr, rest)) h = elim (Bool-cases (nat_beq (uint32 hdr) 0)) [
    | inl e ↦ rw e tt
    | inr e ↦ elim (Bool-cases (ltb max_frame_size (uint32 hdr))) [
      | inl e' ↦ rw (e, e') tt
      | inr e' ↦
          rw (e, e')
            (payload-Shortens n (read_full (uint32 hdr) rest) (
              Shortens-trans (length rest) n (read_full (uint32 hdr) rest) (omega (arith, h))
                (read_full-Shortens (uint32 hdr) rest (ground arith))))
    ]
  ]

  -- A frame that is read takes bytes of the stream.
  read_frame-Shortens : (s : Str) → Shortens (length s) (read_frame marshal unmarshal s)
  unfolding read_frame
  read_frame-Shortens s =
      header-Shortens (length s) (read_full 4 s) (read_full-Shortens 4 s (omega arith))

module _ (marshal : Frame → Result Str Str) (unmarshal : Str → Result Str Frame)
    (decode_event : Str → Result Str Event) (decode_deadline : Str → ℤ)
    (encode_response : Response → Result Str Str) (handler : Option ℤ → Event → Called) where
  abbrev serve_with : ℕ → Str → Option (Str × Option ReadError)
  serve_with = serve marshal unmarshal decode_event decode_deadline encode_response handler

  abbrev reply_with : Frame → Frame
  reply_with = reply marshal unmarshal decode_event decode_deadline encode_response handler

  abbrev sent_with : Frame → Str
  sent_with f =
      sent marshal unmarshal decode_event decode_deadline encode_response handler
        (write_frame marshal unmarshal f)

  abbrev pub Ends : Option (Str × Option ReadError) → Type 0
  Ends r = (end : Str × Option ReadError) × (r ≡ some end)

  on_frame-Ends :
      (f : Frame) (r : Option (Str × Option ReadError))
      → Ends r
      → Ends (on_frame marshal unmarshal decode_event decode_deadline encode_response handler f r)
  on_frame-Ends f r (end, e) = elim (Bool-cases (f.type == lit "shutdown")) [
    | inl h ↦ rw h (_, refl)
    | inr h ↦ rw (h, e) (_, refl)
  ]

  abbrev on_read_with :
      Result ReadError (Frame × Str)
      → (Str → Option (Str × Option ReadError))
      → Option (Str × Option ReadError)
  on_read_with = on_read marshal unmarshal decode_event decode_deadline encode_response handler

  read-Ends :
      (n k : ℕ) (r : Result ReadError (Frame × Str))
      → Shortens k r
      → ((rest : Str) → length rest < k → Ends (serve_with n rest))
      → Ends (on_read_with r (serve_with n))
  read-Ends n k (ok (f, rest)) shorter rec = on_frame-Ends f (serve_with n rest) (rec rest shorter)
  read-Ends n k (err e) shorter rec = (_, refl)

  -- Where the handler returns or panics, the loop ends on every stream: it handles no more frames than
  -- the stream has bytes, so that many rounds and one more give what it sends and its error.
  pub serve-Ends : (n : ℕ) (s : Str) → length s < n → Ends (serve_with n s)
  unfolding serve
  serve-Ends zero s h = absurd (omega arith)
  serve-Ends (suc n) s h =
      read-Ends n (length s) (read_frame marshal unmarshal s)
        (read_frame-Shortens marshal unmarshal s)
        (λ rest shorter. serve-Ends n rest (omega (arith, h, shorter)))

  -- A frame that the gateway can write and the function can read back, other than a shutdown, and
  -- whose answer the function can write.
  abbrev pub IsCarried : Frame → Type 0
  IsCarried f =
      (payload : Str) × (bytes : Str) × (answer : Str) × (marshal f ≡ ok payload)
      × (payload ≢ [])
      × (unmarshal payload ≡ ok f)
      × (write_frame marshal unmarshal f ≡ ok bytes)
      × ((f.type == lit "shutdown") ≡ false)
      × (write_frame marshal unmarshal (reply_with f) ≡ ok answer)

  -- What is on the socket after the frames are sent.
  abbrev pub bytes_of : List Frame → Str
  bytes_of [] = []
  bytes_of (f ∷ fs) = sent_with f ++ bytes_of fs

  answers :
      (n : ℕ) (f : Frame) (rest out : Str)
      → (f.type == lit "shutdown") ≡ false
      → serve_with n rest ≡ some (out, none)
      → on_read_with (ok (f, rest)) (serve_with n) ≡ some (sent_with (reply_with f) ++ out, none)
  answers n f rest out other h = rw (other, h) refl

  one_frame :
      (n : ℕ) (f : Frame) (rest out : Str)
      → IsCarried f
      → serve_with n rest ≡ some (out, none)
      → serve_with (suc n) (sent_with f ++ rest) ≡ some (sent_with (reply_with f) ++ out, none)
  unfolding serve
  one_frame n f rest out (payload, bytes, _, is_json, full, is_frame, is_written, other, _) h =
      let is_read =
        read_frame-write marshal unmarshal f payload bytes rest is_json full is_written in
      ap
        (λ w.
          on_read_with
            (read_frame marshal unmarshal (
              sent marshal unmarshal decode_event decode_deadline encode_response handler w
              ++ rest))
            (serve_with n))
        is_written
      ∙ ap (λ r. on_read_with r (serve_with n))
          (is_read ∙ ap (decoded marshal unmarshal rest) is_frame)
      ∙ answers n f rest out other h

  serve-replies :
      (n : ℕ) (fs : List Frame)
      → length fs < n
      → All IsCarried fs
      → serve_with n (bytes_of fs) ≡ some (bytes_of (map reply_with fs), none)
  unfolding serve read_frame read_full is_eof
  serve-replies zero fs h a = absurd (omega arith)
  serve-replies (suc n) [] h a = refl
  serve-replies (suc n) (f ∷ fs) h a =
      one_frame n f (bytes_of fs) (bytes_of (map reply_with fs)) a.0
        (serve-replies n fs (omega (arith, h)) a.1)

  carried-Answer :
      (fs : List Frame)
      → All IsCarried fs
      → All
          (λ f.
            Answer marshal unmarshal decode_event decode_deadline encode_response handler f
              (reply_with f))
          fs
  carried-Answer [] a = tt
  carried-Answer (f ∷ fs) ((_, _, _, _, _, _, _, other, _), a) = (
    reply-Answer marshal unmarshal decode_event decode_deadline encode_response handler f other,
    carried-Answer fs a,
  )

  -- Frames that the gateway writes and the function can read, none a shutdown, whose answers can be
  -- written, and then the end of the stream: one round more than there are frames sends one frame for
  -- each, in order, and ends without an error. An invoke is answered under its id with the encoded
  -- result, or with an error that says what failed: the event, the handler, which may also panic, or
  -- the encoding. An init is confirmed, and any other type is an error.
  pub serve-write :
      (n : ℕ) (fs : List Frame)
      → length fs < n
      → All IsCarried fs
      → (serve_with n (bytes_of fs) ≡ some (bytes_of (map reply_with fs), none))
        × All
            (λ f.
              Answer marshal unmarshal decode_event decode_deadline encode_response handler f
                (reply_with f))
            fs
  serve-write n fs h a = (serve-replies n fs h a, carried-Answer fs a)
