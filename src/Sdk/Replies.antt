-- ===== src/Sdk/Replies.antt =====
-- The frame with which handleFrame and handleInvoke of sdks/go/cfunc.go answer a frame.
use cfunc.Base.{
  ◌≡◌, ◌≢◌, refl, Option, none, some, Str, lit, [], ◌++◌, ◌∷◌, ◌==◌, if◌then◌else◌, Result, ok, err,
  ℤ, Bool-cases, inl, inr, str_eq, str_beq_iff, false, arith,
}
use cfunc.Wire.{Frame}
use cfunc.Sdk.{
  Event, Response, Called, answered, failed, panicked, reply, zero_event, context_for, with_event,
  completed, encoded, safe_call, handle_invoke,
}

-- A frame of a type and an id, with a result, and one with an error.
abbrev pub result_of : Str → Str → Str → Frame
result_of type id result = record {
  type = type;
  id = id;
  event = [];
  ctx = [];
  config = [];
  result = result;
  error = none;
}

abbrev pub error_of : Str → Str → Str → Frame
error_of id type message = record {
  type = lit "error";
  id = id;
  event = [];
  ctx = [];
  config = [];
  result = [];
  error = some (record { type = type; message = message; stack = [] });
}

module _ (marshal : Frame → Result Str Str) (unmarshal : Str → Result Str Frame)
    (decode_event : Str → Result Str Event) (decode_deadline : Str → ℤ)
    (encode_response : Response → Result Str Str) (handler : Option ℤ → Event → Called) where
  abbrev pub IsInvoke : Frame → Result Str Event → Type 0
  IsInvoke f r =
      (f.type ≡ lit "invoke")
      × ((if f.event == [] then ok zero_event else decode_event f.event) ≡ r)

  -- How the handler ends on an event, under the deadline of the frame's context.
  abbrev pub Calls : Frame → Event → Called → Type 0
  Calls f e called =
      handler
        (context_for marshal unmarshal decode_event decode_deadline encode_response handler f.ctx) e
      ≡ called

  -- What a frame is answered with.
  pub data Answer (f : Frame) : Frame → Type 0 where
    result_sent :
        (e : Event) (resp : Response) (body : Str)
        → IsInvoke f (ok e)
        → Calls f e (answered resp)
        → encode_response resp ≡ ok body
        → Answer f (result_of (lit "result") f.id body)
    result_unencoded :
        (e : Event) (resp : Response) (message : Str)
        → IsInvoke f (ok e)
        → Calls f e (answered resp)
        → encode_response resp ≡ err message
        → Answer f (error_of f.id (lit "MarshalError") message)
    handler_failed :
        (e : Event) (message : Str)
        → IsInvoke f (ok e)
        → Calls f e (failed message)
        → Answer f (error_of f.id (lit "HandlerError") message)
    handler_panicked :
        (e : Event) (value stack : Str)
        → IsInvoke f (ok e)
        → Calls f e (panicked value stack)
        → Answer f (error_of f.id (lit "HandlerError") (lit "panic: " ++ value ++ 10 ∷ stack))
    bad_event :
        (message : Str)
        → IsInvoke f (err message)
        → Answer f (error_of f.id (lit "BadEvent") message)
    init_confirmed : f.type ≡ lit "init" → Answer f (result_of (lit "init_ok") f.id [])
    type_unknown :
        f.type ≢ lit "invoke"
        → f.type ≢ lit "init"
        → Answer f (error_of f.id (lit "ProtocolError") (lit "unknown frame type: " ++ f.type))

  encoded-Answer :
      (f : Frame) (e : Event) (resp : Response) (r : Result Str Str)
      → IsInvoke f (ok e)
      → Calls f e (answered resp)
      → encode_response resp ≡ r
      → Answer f
          (encoded marshal unmarshal decode_event decode_deadline encode_response handler f.id r)
  encoded-Answer f e resp (ok body) is_invoke calls encodes =
      result_sent e resp body is_invoke calls encodes
  encoded-Answer f e resp (err message) is_invoke calls encodes =
      result_unencoded e resp message is_invoke calls encodes

  completed-Answer :
      (f : Frame) (e : Event) (called : Called)
      → IsInvoke f (ok e)
      → Calls f e called
      → Answer f (
          completed marshal unmarshal decode_event decode_deadline encode_response handler f.id
            (safe_call called))
  unfolding safe_call
  completed-Answer f e (answered resp) is_invoke calls =
      encoded-Answer f e resp (encode_response resp) is_invoke calls refl
  completed-Answer f e (failed message) is_invoke calls = handler_failed e message is_invoke calls
  completed-Answer f e (panicked value stack) is_invoke calls =
      handler_panicked e value stack is_invoke calls

  with_event-Answer :
      (f : Frame) (r : Result Str Event)
      → IsInvoke f r
      → Answer f
          (with_event marshal unmarshal decode_event decode_deadline encode_response handler f r)
  with_event-Answer f (err message) is_invoke = bad_event message is_invoke
  with_event-Answer f (ok e) is_invoke = completed-Answer f e _ is_invoke refl

  pub reply-Answer :
      (f : Frame)
      → f.type == lit "shutdown" ≡ false
      → Answer f (reply marshal unmarshal decode_event decode_deadline encode_response handler f)
  unfolding reply handle_invoke
  reply-Answer f other = elim (Bool-cases (f.type == lit "invoke")) [
    | inl e ↦ rw e (with_event-Answer f _ ((str_beq_iff f.type (lit "invoke")).0 e, refl))
    | inr e ↦ elim (Bool-cases (f.type == lit "init")) [
      | inl h ↦ rw (e, other, h) (init_confirmed ((str_beq_iff f.type (lit "init")).0 h))
      | inr h ↦
          rw (e, other, h)
            (type_unknown (λ same. ground (arith, (str_beq_iff f.type (lit "invoke")).1 same))
              (λ same. ground (arith, (str_beq_iff f.type (lit "init")).1 same)))
    ]
  ]
