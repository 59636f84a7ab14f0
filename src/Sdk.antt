-- ===== src/Sdk.antt =====
-- sdks/go/cfunc.go: the loop of a function's process, which answers the frames of the gateway. The
-- handler and the JSON codec are parameters; the socket is the bytes that are still to be read.
pub mod Replies
pub mod Serving
mod Examples
use cfunc.Base.{
  ℕ, suc, zero, ◌*◌, Bool, true, false, List, [], ◌∷◌, ◌++◌, Option, none, some, Str, lit, Map,
  ◌==◌, if◌then◌else◌, Result, ok, err, ℤ, pos, negsuc, wrap64, ltb, str_eq,
}
use cfunc.Wire.{Frame, ErrorPayload, ReadError, WriteError, write_frame, read_frame, is_eof}

pub record Event : Type 0 where
  pub method : Str
  pub path : Str
  pub headers : Map Str Str
  pub body : Str

pub record Response : Type 0 where
  pub status : ℤ
  pub headers : Map Str Str
  pub body : Str

-- How a call of the handler ends; a panic has its value and the stack.
pub data Called : Type 0 where
  answered : Response → Called
  failed : Str → Called
  panicked : Str → Str → Called

unfoldable pub safe_call : Called → Result Str Response
safe_call (answered r) = ok r
safe_call (failed e) = err e
safe_call (panicked value stack) = err (lit "panic: " ++ value ++ 10 ∷ stack)

-- The time until the deadline of a call's context, in nanoseconds, or none.
abbrev pub timeout_of : ℤ → Option ℤ
timeout_of (pos n) = if ltb 0 n then some (wrap64 (pos (n * 1000000))) else none
timeout_of (negsuc n) = none

abbrev pub zero_event : Event
zero_event = record { method = []; path = []; headers = []; body = [] }

abbrev pub answer_frame : Str → Str → Frame
answer_frame type id = record {
  type = type;
  id = id;
  event = [];
  ctx = [];
  config = [];
  result = [];
  error = none;
}

-- What writeErr sends.
abbrev pub error_frame : Str → Str → Str → Frame
error_frame id type message = record (answer_frame (lit "error") id) {
  error = some (record { type = type; message = message; stack = [] });
}

module _ (marshal : Frame → Result Str Str) (unmarshal : Str → Result Str Frame)
    (decode_event : Str → Result Str Event) (decode_deadline : Str → ℤ)
    (encode_response : Response → Result Str Str) (handler : Option ℤ → Event → Called) where
  unfoldable pub context_for : Str → Option ℤ
  context_for raw = if raw == [] then none else timeout_of (decode_deadline raw)

  abbrev pub encoded : Str → Result Str Str → Frame
  encoded id (err e) = error_frame id (lit "MarshalError") e
  encoded id (ok body) = record (answer_frame (lit "result") id) { result = body }

  abbrev pub completed : Str → Result Str Response → Frame
  completed id (err e) = error_frame id (lit "HandlerError") e
  completed id (ok resp) = encoded id (encode_response resp)

  abbrev pub with_event : Frame → Result Str Event → Frame
  with_event f (err e) = error_frame f.id (lit "BadEvent") e
  with_event f (ok event) = completed f.id (safe_call (handler (context_for f.ctx) event))

  -- handleInvoke: the frame that it sends.
  unfoldable pub handle_invoke : Frame → Frame
  unfolding context_for safe_call
  handle_invoke f = with_event f (if f.event == [] then ok zero_event else decode_event f.event)

  unfoldable pub reply : Frame → Frame
  unfolding handle_invoke
  reply f =
      if f.type == lit "invoke"
      then handle_invoke f
      else if f.type == lit "shutdown"
      then answer_frame (lit "shutdown_ok") f.id
      else if f.type == lit "init"
      then answer_frame (lit "init_ok") f.id
      else error_frame f.id (lit "ProtocolError") (lit "unknown frame type: " ++ f.type)

  -- The bytes of a frame; where it cannot be written nothing is sent.
  abbrev pub sent : Result WriteError Str → Str
  sent (ok bytes) = bytes
  sent (err e) = []

  abbrev pub preceded : Str → Option (Str × Option ReadError) → Option (Str × Option ReadError)
  preceded bytes none = none
  preceded bytes (some (rest, e)) = some (bytes ++ rest, e)

  abbrev pub on_frame : Frame → Option (Str × Option ReadError) → Option (Str × Option ReadError)
  on_frame f rest =
      let bytes = sent (write_frame marshal unmarshal (reply f)) in
      if f.type == lit "shutdown" then some (bytes, none) else preceded bytes rest

  abbrev pub on_read :
      Result ReadError (Frame × Str)
      → (Str → Option (Str × Option ReadError))
      → Option (Str × Option ReadError)
  on_read (err e) next = some ([], if is_eof e then none else some e)
  on_read (ok (f, rest)) next = on_frame f (next rest)

  -- Serve on at most `n` frames: what it sends and its error; none where `n` is too small.
  unfoldable pub serve : ℕ → Str → Option (Str × Option ReadError)
  unfolding reply
  serve zero s = none
  serve (suc n) s = on_read (read_frame marshal unmarshal s) (serve n)
