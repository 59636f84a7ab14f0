-- ===== src/Wire/Examples.antt =====
-- A frame on a stream.
use cfunc.Base.{◌≡◌, ◌≢◌, ◌↔◌, ◌⊎◌, ◌++◌, refl, Str, lit, [], none, Result, ok, true}
use cfunc.Wire.{Frame, write_frame, read_frame, decoded, put_uint32}
use cfunc.Wire.Streams.{is_end, IsBareHeader, read_frame-write, read_frame-end}

abbrev shutdown : Frame
shutdown = record {
  type = lit "shutdown";
  id = lit "sd";
  event = [];
  ctx = [];
  config = [];
  result = [];
  error = none;
}

-- A stand-in for JSON that writes the type alone.
abbrev marshal : Frame → Result Str Str
marshal f = ok f.type

abbrev unmarshal : Str → Result Str Frame
unmarshal s = ok (record shutdown { type = s })

written : write_frame marshal unmarshal shutdown ≡ ok (put_uint32 8 ++ lit "shutdown")
unfolding write_frame
written = refl

not_empty : lit "shutdown" ≢ []
not_empty h = cc

read_frame-write_example :
    read_frame marshal unmarshal ((put_uint32 8 ++ lit "shutdown") ++ lit "next")
    ≡ decoded marshal unmarshal (lit "next") (unmarshal (lit "shutdown"))
read_frame-write_example =
    read_frame-write marshal unmarshal shutdown (lit "shutdown") (put_uint32 8 ++ lit "shutdown")
      (lit "next") refl not_empty written

read_frame-end_example :
    (is_end (read_frame marshal unmarshal (put_uint32 8)) ≡ true)
    ↔ ((put_uint32 8 ≡ []) ⊎ IsBareHeader (put_uint32 8))
read_frame-end_example = read_frame-end marshal unmarshal (put_uint32 8)
