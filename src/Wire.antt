-- ===== src/Wire.antt =====
-- internal/wire/wire.go: frames with a length prefix over a stream of bytes. The JSON codec is a
-- parameter. A stream is what is left to read of it until the peer closes.
pub mod Streams
mod Examples
use cfunc.Base.{
  ℕ, ◌+◌, ◌*◌, ◌/◌, ◌%◌, ◌^◌, Bool, true, false, List, [], ◌∷◌, ◌++◌, Option, none, some, Str, lit,
  length, take, drop, ltb, nat_beq, if◌then◌else◌, Result, ok, err,
}

pub record ErrorPayload : Type 0 where
  pub type : Str
  pub message : Str
  pub stack : Str

pub record Frame : Type 0 where
  pub type : Str
  pub id : Str
  pub event : Str
  pub ctx : Str
  pub config : Str
  pub result : Str
  pub error : Option ErrorPayload

abbrev pub max_frame_size : ℕ
max_frame_size = 16 * 1024 * 1024

pub data WriteError : Type 0 where
  marshal_failed : Str → WriteError
  frame_too_large : ℕ → WriteError

-- `eof` is io.EOF and `unexpected_eof` io.ErrUnexpectedEOF; `read_payload` wraps one of them.
pub data ReadError : Type 0 where
  eof unexpected_eof zero_length : ReadError
  too_large : ℕ → ReadError
  read_payload : ReadError → ReadError
  unmarshal_failed : Str → ReadError

-- errors.Is(err, io.EOF), which looks through the wrapping.
unfoldable pub is_eof : ReadError → Bool
is_eof eof = true
is_eof (read_payload e) = is_eof e
is_eof _ = false

-- binary.BigEndian.PutUint32 and Uint32
unfoldable pub put_uint32 : ℕ → Str
put_uint32 n = n / 2 ^ 24 % 256 ∷ n / 2 ^ 16 % 256 ∷ n / 2 ^ 8 % 256 ∷ n % 256 ∷ []

unfoldable pub uint32 : Str → ℕ
uint32 (a ∷ b ∷ c ∷ d ∷ _) = a * 2 ^ 24 + b * 2 ^ 16 + c * 2 ^ 8 + d
uint32 _ = 0

-- io.ReadFull of `n` bytes: io.EOF where none was read, and io.ErrUnexpectedEOF where some were.
unfoldable pub read_full : ℕ → Str → Result ReadError (Str × Str)
read_full n s =
    if ltb (length s) n
    then err (if nat_beq (length s) 0 then eof else unexpected_eof)
    else ok (take n s, drop n s)

module _ (marshal : Frame → Result Str Str) (unmarshal : Str → Result Str Frame) where
  abbrev pub framed : Result Str Str → Result WriteError Str
  framed (err e) = err (marshal_failed e)
  framed (ok payload) =
      if ltb max_frame_size (length payload)
      then err (frame_too_large (length payload))
      else ok (put_uint32 (length payload % 2 ^ 32) ++ payload)

  -- WriteFrame: what is written to a stream that takes every write.
  unfoldable pub write_frame : Frame → Result WriteError Str
  write_frame f = framed (marshal f)

  abbrev pub decoded : Str → Result Str Frame → Result ReadError (Frame × Str)
  decoded rest (err e) = err (unmarshal_failed e)
  decoded rest (ok f) = ok (f, rest)

  abbrev pub with_payload : Result ReadError (Str × Str) → Result ReadError (Frame × Str)
  with_payload (err e) = err (read_payload e)
  with_payload (ok (buf, rest)) = decoded rest (unmarshal buf)

  abbrev pub with_header : Result ReadError (Str × Str) → Result ReadError (Frame × Str)
  with_header (err e) = err e
  with_header (ok (hdr, rest)) =
      let n = uint32 hdr in
      let body = with_payload (read_full n rest) in
      if nat_beq n 0
      then err zero_length
      else if ltb max_frame_size n
      then err (too_large n)
      else body

  -- ReadFrame: the frame and the rest of the stream.
  unfoldable pub read_frame : Str → Result ReadError (Frame × Str)
  read_frame s = with_header (read_full 4 s)
