-- ===== src/Protocol/Wire.antt =====
-- internal/protocol/wire.go: the frame, `WriteFrame`, `ReadFrame` and the control frames.
-- A byte slice is a list of numbers below 256; a nil slice is the empty list. An `io.Reader` is the
-- bytes that it still holds, an `io.Writer` the bytes that it took and the room that it has left.
pub mod Layout
pub mod Reading
pub mod Accepted
pub mod RoundTrip
use maboo.Base.{
  ℕ, ◌+◌, ◌-◌, ◌*◌, ◌/◌, ◌%◌, ◌^◌, ◌<◌, Bool, not, ◌||◌, Option, none, some, List, [], ◌∷◌, ◌++◌,
  ltb, leb, ◌==◌, if◌then◌else◌, length, set, take, drop, replicate, get_or, All,
}
use maboo.Base.Results.{Result, ok, err}
use Prim.Native.Nat.{bit_or}

abbrev pub magic0 : ℕ
magic0 = 0x4d

abbrev pub magic1 : ℕ
magic1 = 0x42

abbrev pub version : ℕ
version = 0x01

abbrev pub frame_header_size : ℕ
frame_header_size = 14

abbrev pub type_request : ℕ
type_request = 0x01

abbrev pub type_response : ℕ
type_response = 0x02

abbrev pub type_stream_data : ℕ
type_stream_data = 0x03

abbrev pub type_stream_close : ℕ
type_stream_close = 0x04

abbrev pub type_worker_ready : ℕ
type_worker_ready = 0x05

abbrev pub type_worker_stop : ℕ
type_worker_stop = 0x06

abbrev pub type_ping : ℕ
type_ping = 0x07

abbrev pub type_error : ℕ
type_error = 0x08

pub record Frame : Type 0 where
  pub type : ℕ
  pub flags : ℕ
  pub stream_id : ℕ
  pub headers : List ℕ
  pub payload : List ℕ

-- The fields are a `uint8`, a `uint8`, a `uint16` and byte slices.
abbrev pub IsByte : ℕ → Type 0
IsByte b = b < 256

pub record IsTyped (f : Frame) : Type 0 where
  pub type_byte : f.type < 256
  pub flags_byte : f.flags < 256
  pub stream_word : f.stream_id < 65536

-- The lengths fit the fields of the frame header.
pub record Fits (f : Frame) : Type 0 where
  pub headers_fit : length f.headers < 2 ^ 24
  pub payload_fits : length f.payload < 2 ^ 32

pub record Writer : Type 0 where
  pub written : List ℕ
  pub room : ℕ

-- One `Write` call; it fails when it cannot take all of the bytes.
unfoldable pub write : Writer → List ℕ → Writer × Bool
write w buf = (
  record { written = w.written ++ take w.room buf; room = w.room - length buf },
  leb (length buf) w.room,
)

pub data WriteError : Type 0 where
  writing_frame : WriteError

-- `byte(x)`
abbrev pub byte : ℕ → ℕ
byte x = x % 256

-- The indexed writes of `WriteFrame` into the first 14 bytes.
unfoldable pub put_header : List ℕ → Frame → List ℕ
put_header buf f =
    let b = set (set (set (set (set buf 0 magic0) 1 magic1) 2 version) 3 f.type) 4 f.flags in
    let b = set (set b 5 (byte (f.stream_id / 2 ^ 8))) 6 (byte f.stream_id) in
    let hdr_size = length f.headers in
    let b =
      set (set (set b 7 (byte (hdr_size / 2 ^ 16))) 8 (byte (hdr_size / 2 ^ 8))) 9
        (byte hdr_size) in
    let pay_size = length f.payload % 2 ^ 32 in
    let b = set (set b 10 (byte (pay_size / 2 ^ 24))) 11 (byte (pay_size / 2 ^ 16)) in
    set (set b 12 (byte (pay_size / 2 ^ 8))) 13 (byte pay_size)

-- `buf` is the backing array of the pooled buffer: its length is the capacity. The result holds the
-- array that goes back to the pool.
unfoldable pub write_frame :
    List ℕ → Writer → Frame → List ℕ × Writer × Result WriteError (Unit {0})
unfolding put_header write
write_frame buf w f =
    let total_size = frame_header_size + length f.headers + length f.payload in
    let array = if ltb (length buf) total_size then replicate total_size 0 else buf in
    let out = put_header (take frame_header_size array) f ++ (f.headers ++ f.payload) in
    let (w', done) = write w out in
    (out ++ drop total_size array, w', if done then ok tt else err writing_frame)

-- `io.ReadFull`: all the bytes that were asked for, or an error.
unfoldable pub read_full : ℕ → List ℕ → Option (List ℕ) × List ℕ
read_full n r = if leb n (length r) then (some (take n r), drop n r) else (none, [])

pub data ReadError : Type 0 where
  reading_header : ReadError
  invalid_magic : ℕ → ℕ → ReadError
  unsupported_version : ℕ → ReadError
  reading_data : ℕ → ReadError

-- `int(a)<<8 | int(b)`, and so on for three bytes and four.
abbrev pub be16 : ℕ → ℕ → ℕ
be16 a b = bit_or (a * 2 ^ 8) b

abbrev pub be24 : ℕ → ℕ → ℕ → ℕ
be24 a b c = bit_or (bit_or (a * 2 ^ 16) (b * 2 ^ 8)) c

abbrev pub be32 : ℕ → ℕ → ℕ → ℕ → ℕ
be32 a b c d = bit_or (bit_or (bit_or (a * 2 ^ 24) (b * 2 ^ 16)) (c * 2 ^ 8)) d

unfoldable pub attach : Frame → ℕ → ℕ → Option (List ℕ) → Result ReadError Frame
attach f hdr_size pay_size none = err (reading_data (hdr_size + pay_size))
attach f hdr_size pay_size (some bytes) = ok (record f {
  headers = if ltb 0 hdr_size then take hdr_size bytes else f.headers;
  payload = if ltb 0 pay_size then drop hdr_size bytes else f.payload;
})

unfoldable pub read_data : Frame → ℕ → ℕ → List ℕ → Result ReadError Frame × List ℕ
unfolding attach read_full
read_data f hdr_size pay_size r =
    let (bytes, r') = read_full (hdr_size + pay_size) r in
    if ltb 0 (hdr_size + pay_size) then (attach f hdr_size pay_size bytes, r') else (ok f, r)

unfoldable pub after_header : Option (List ℕ) → List ℕ → Result ReadError Frame × List ℕ
unfolding read_data
after_header none r = (err reading_header, r)
after_header (some h) r =
    let at = λ (i : ℕ). get_or h i 0 in
    if not (at 0 == magic0) || not (at 1 == magic1)
    then (err (invalid_magic (at 0) (at 1)), r)
    else if not (at 2 == version)
    then (err (unsupported_version (at 2)), r)
    else read_data
        (record {
          type = at 3;
          flags = at 4;
          stream_id = be16 (at 5) (at 6);
          headers = [];
          payload = [];
        })
        (be24 (at 7) (at 8) (at 9)) (be32 (at 10) (at 11) (at 12) (at 13)) r

unfoldable pub read_frame : List ℕ → Result ReadError Frame × List ℕ
unfolding after_header read_full
read_frame r = let (header, r') = read_full frame_header_size r in after_header header r'

abbrev control : ℕ → List ℕ → Frame
control type payload = record {
  type = type;
  flags = 0;
  stream_id = 0;
  headers = [];
  payload = payload;
}

unfoldable pub new_ping_frame : Frame
new_ping_frame = control type_ping (b'p' ∷ b'i' ∷ b'n' ∷ b'g' ∷ [])

unfoldable pub new_pong_frame : Frame
new_pong_frame = control type_ping (b'p' ∷ b'o' ∷ b'n' ∷ b'g' ∷ [])

unfoldable pub new_worker_ready_frame : Frame
new_worker_ready_frame = control type_worker_ready []

unfoldable pub new_worker_stop_frame : Frame
new_worker_stop_frame = control type_worker_stop []

-- `msg` is the message's bytes.
unfoldable pub new_error_frame : List ℕ → Frame
new_error_frame msg = control type_error msg
