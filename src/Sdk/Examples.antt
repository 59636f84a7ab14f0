-- ===== src/Sdk/Examples.antt =====
-- The loop on a concrete stream: an unknown frame, and then the end.
use cfunc.Base.{
  ◌≡◌, refl, ℕ, List, [], ◌∷◌, ◌++◌, Option, none, some, Str, lit, Result, ok, err, ℤ, pos, arith,
  str_beq, All,
}
use cfunc.Wire.{Frame, ReadError, put_uint32, write_frame}
use cfunc.Sdk.{Event, Response, Called, failed, serve, reply, answer_frame}
use cfunc.Sdk.Replies.{Answer}
use cfunc.Sdk.Serving.{Ends, IsCarried, bytes_of, serve-Ends, serve-write}

-- A stand-in for JSON that writes the type alone.
abbrev marshal : Frame → Result Str Str
marshal f = ok f.type

abbrev unmarshal : Str → Result Str Frame
unmarshal s = ok (answer_frame s (lit "7"))

abbrev decode_event : Str → Result Str Event
decode_event s = err (lit "no event")

abbrev decode_deadline : Str → ℤ
decode_deadline s = pos 0

abbrev encode_response : Response → Result Str Str
encode_response r = ok (lit "{}")

abbrev handler : Option ℤ → Event → Called
handler timeout e = failed (lit "no")

abbrev serving : ℕ → Str → Option (Str × Option ReadError)
serving = serve marshal unmarshal decode_event decode_deadline encode_response handler

abbrev replying : Frame → Frame
replying = reply marshal unmarshal decode_event decode_deadline encode_response handler

abbrev init : Frame
init = answer_frame (lit "init") (lit "7")

abbrev sending : List Frame → Str
sending = bytes_of marshal unmarshal decode_event decode_deadline encode_response handler

abbrev invoke : Frame
invoke = answer_frame (lit "invoke") (lit "7")

init-IsCarried :
    IsCarried marshal unmarshal decode_event decode_deadline encode_response handler init
unfolding write_frame put_uint32 str_beq reply
init-IsCarried = (
  lit "init",
  put_uint32 4 ++ lit "init",
  put_uint32 7 ++ lit "init_ok",
  refl,
  (λ h. cc),
  refl,
  refl,
  refl,
  refl,
)

invoke-IsCarried :
    IsCarried marshal unmarshal decode_event decode_deadline encode_response handler invoke
unfolding write_frame put_uint32 str_beq reply cfunc.Sdk.handle_invoke cfunc.Sdk.safe_call
invoke-IsCarried = (
  lit "invoke",
  put_uint32 6 ++ lit "invoke",
  put_uint32 5 ++ lit "error",
  refl,
  (λ h. cc),
  refl,
  refl,
  refl,
  refl,
)

serve-Ends_example :
    Ends marshal unmarshal decode_event decode_deadline encode_response handler
      (serving 4 (lit "abc"))
serve-Ends_example =
    serve-Ends marshal unmarshal decode_event decode_deadline encode_response handler 4 (lit "abc")
      (omega arith)

serve-write_example :
    (serving 3 (sending (init ∷ invoke ∷ []))
      ≡ some (sending (replying init ∷ replying invoke ∷ []), none))
    × All
        (λ f.
          Answer marshal unmarshal decode_event decode_deadline encode_response handler f
            (replying f))
        (init ∷ invoke ∷ [])
serve-write_example =
    serve-write marshal unmarshal decode_event decode_deadline encode_response handler 3
      (init ∷ invoke ∷ []) (omega arith) (init-IsCarried, (invoke-IsCarried, tt))

answered_init : replying init ≡ answer_frame (lit "init_ok") (lit "7")
unfolding reply str_beq
answered_init = refl
