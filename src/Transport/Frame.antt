-- ===== src/Transport/Frame.antt =====
-- include/psx/transport/frame.hpp, include/psx/transport/frame_codec.hpp and
-- src/transport/frame_codec.cpp: frames, their envelope, and the streaming decoder.
-- The codec takes the type for an opaque byte, so a frame's type is a number here.
mod Loop
mod Decode
pub mod Chunks
pub mod RoundTrip
mod Tests
use pipe_shell_x.Base.{
  ℕ, zero, suc, ◌+◌, ◌*◌, ◌%◌, ◌^◌, [], ◌∷◌, ◌++◌, List, Bool, true, false, Bytes, length, take,
  drop, get_or, ltb, ◌==◌, if◌then◌else◌,
}
use pipe_shell_x.Base.Errors.{Result, ok, err, error_of, other}
use pipe_shell_x.Transport.Wire.{write_u32_be, read_u32_be}

pub record Frame : Type 0 where
  pub type : ℕ
  pub flags : ℕ
  pub stream_id : ℕ
  pub payload : Bytes

-- `FrameType`; its underlying byte can hold other values too.
pub data FrameType : Type 0 where
  open_frame data_frame window_update exit_frame ping pong go_away unknown : FrameType

unfoldable pub to_byte : FrameType → ℕ
to_byte open_frame = 1
to_byte data_frame = 2
to_byte window_update = 3
to_byte exit_frame = 4
to_byte ping = 5
to_byte pong = 6
to_byte go_away = 7
to_byte unknown = 0

-- What a `switch` over the type byte selects.
unfoldable pub frame_type : ℕ → FrameType
frame_type n =
    if n == 1
    then open_frame
    else if n == 2
    then data_frame
    else if n == 3
    then window_update
    else if n == 4
    then exit_frame
    else if n == 5
    then ping
    else if n == 6
    then pong
    else if n == 7
    then go_away
    else unknown

abbrev pub frame_header_size : ℕ
frame_header_size = 10

abbrev pub default_max_frame_payload : ℕ
default_max_frame_payload = 16 * 1024 * 1024

-- `encodeFrameInto`: `out` with the frame's bytes behind it. The payload's size is cast to 32 bits.
pub encode_frame_into : Bytes → Frame → Bytes
encode_frame_into out f =
    out
    ++ (f.type ∷ f.flags ∷ []
        ++ (write_u32_be f.stream_id ++ (write_u32_be (length f.payload % 2 ^ 32) ++ f.payload)))

-- `encodeFrame`
pub encode_frame : Frame → Bytes
encode_frame f = encode_frame_into [] f

-- One round of the decoder's loop at the bytes not yet decoded.
pub data Round : Type 0 where
  -- The header or the payload is not all there.
  incomplete : Round
  -- The payload is longer than the maximum.
  oversized : Round
  -- A frame, and the bytes behind it.
  complete : Frame → Bytes → Round

-- The fields behind a whole header.
pub payload_size : Bytes → ℕ
payload_size bytes = read_u32_be (drop 6 bytes)

pub frame_at : Bytes → Frame
unfolding payload_size
frame_at bytes = record {
  type = get_or bytes 0 0;
  flags = get_or bytes 1 0;
  stream_id = read_u32_be (drop 2 bytes);
  payload = take (payload_size bytes) (drop frame_header_size bytes);
}

pub next_frame : ℕ → Bytes → Round
next_frame max_payload bytes =
    if ltb (length bytes) frame_header_size
    then incomplete
    else if ltb max_payload (payload_size bytes)
    then oversized
    else if ltb (length bytes) (frame_header_size + payload_size bytes)
    then incomplete
    else complete (frame_at bytes) (drop (frame_header_size + payload_size bytes) bytes)

-- What the loop of `push` comes to: whether it met a violation, the frames it gave to the sink in
-- order, and the bytes left.
pub record Decoded : Type 0 where
  pub violation : Bool
  pub frames : List Frame
  pub rest : Bytes

pub frame_then : Frame → Decoded → Decoded
frame_then f d = record d { frames = f ∷ d.frames }

-- The loop. A frame has ten bytes at least, so a round for each byte is more than enough fuel.
pub decode_loop : ℕ → ℕ → Bytes → Decoded
decode_loop zero max_payload bytes = record { violation = false; frames = []; rest = bytes }
decode_loop (suc fuel) max_payload bytes = elim (next_frame max_payload bytes) [
  | incomplete ↦ record { violation = false; frames = []; rest = bytes }
  | oversized ↦ record { violation = true; frames = []; rest = bytes }
  | complete f behind ↦ frame_then f (decode_loop fuel max_payload behind)
]

pub decode : ℕ → Bytes → Decoded
decode max_payload bytes = decode_loop (suc (length bytes)) max_payload bytes

pub record FrameDecoder : Type 0 where
  pub buffer : Bytes
  pub max_payload : ℕ
  pub failed : Bool

unfoldable pub create : ℕ → FrameDecoder
create max_payload = record { buffer = []; max_payload = max_payload; failed = false }

-- `push`: the result, the frames given to the sink, and the decoder left. On a violation the buffer
-- is kept as it is.
pub push : Bytes → FrameDecoder → Result (Unit {0}) × List Frame × FrameDecoder
push bytes d =
    if d.failed
    then (err (error_of other "frame decoder poisoned by an earlier protocol error"), [], d)
    else (let whole = d.buffer ++ bytes in
        let out = decode d.max_payload whole in
        if out.violation
        then (
          err (error_of other "frame payload length exceeds the maximum"),
          out.frames,
          record d { buffer = whole; failed = true },
        )
        else (ok tt, out.frames, record d { buffer = out.rest }))

-- The calls of `push` for chunks that arrive one after the other: the frames given to the sink.
pub feed : List Bytes → FrameDecoder → List Frame × FrameDecoder
feed [] d = ([], d)
feed (chunk ∷ chunks) d =
    let (r, frames, d') = push chunk d in let (more, e) = feed chunks d' in (frames ++ more, e)
