-- ===== src/Protocol/Messages/RoundTrip.antt =====
-- Messages of internal/protocol, encoded, sent and decoded.
use maboo.Base.{ℕ, ◌<◌, ◌≡◌, ◌⊎◌, String, List, ◌++◌, drop, length, arith}
use maboo.Base.Results.{Result, ok, err}
use maboo.Protocol.Wire.{
  Frame, Writer, IsTyped, Fits, ReadError, write_frame, read_frame, type_stream_close,
}
use maboo.Protocol.Wire.RoundTrip.{HasRoom, read_frame-write_frame}
use maboo.Protocol.Messages.{
  Codec, RequestHeader, ResponseHeader, StreamHeader, unexpected_frame, encode_request,
  decode_request, encode_response, decode_response, encode_stream_data, decode_stream_data,
  encode_stream_close,
}

-- A frame from `EncodeRequest` is decoded to the request and the body.
decode_request-encode_request :
    (c : Codec RequestHeader) (req : RequestHeader) (body : List ℕ) (f : Frame)
    → encode_request c req body ≡ ok f
    → (decode_request c f ≡ ok (req, body)) × IsTyped f
unfolding encode_request decode_request
decode_request-encode_request c req body f h = ground (arith, c.unmarshal-marshal req f.headers)

decode_response-encode_response :
    (c : Codec ResponseHeader) (resp : ResponseHeader) (body : List ℕ) (f : Frame)
    → encode_response c resp body ≡ ok f
    → (decode_response c f ≡ ok (resp, body)) × IsTyped f
unfolding encode_response decode_response
decode_response-encode_response c resp body f h = ground (arith, c.unmarshal-marshal resp f.headers)

decode_stream_data-encode_stream_data :
    (c : Codec StreamHeader) (id : ℕ) (header : StreamHeader) (bytes : List ℕ) (f : Frame)
    → id < 65536
    → encode_stream_data c id header bytes ≡ ok f
    → (decode_stream_data c f ≡ ok (header, bytes)) × IsTyped f × (f.stream_id ≡ id)
unfolding encode_stream_data decode_stream_data
decode_stream_data-encode_stream_data c id header bytes f k h =
    ground (arith, c.unmarshal-marshal header f.headers)

-- What a reader finds after a frame was written, with `rest` behind it.
abbrev pub received : List ℕ → Writer → Frame → List ℕ → Result ReadError Frame × List ℕ
received buf w f rest = read_frame (drop (length w.written) (write_frame buf w f).1.written ++ rest)

-- A request that `EncodeRequest` accepts, in a frame whose lengths fit and that the writer takes, goes
-- over the wire: the other side reads the frame and decodes the same header and body.
pub decode_request-received :
    (c : Codec RequestHeader) (buf : List ℕ) (w : Writer) (req : RequestHeader) (body rest : List ℕ)
    (f : Frame)
    → encode_request c req body ≡ ok f
    → Fits f
    → HasRoom w f
    → (received buf w f rest ≡ (ok f, rest)) × (decode_request c f ≡ ok (req, body))
decode_request-received c buf w req body rest f h fits room =
    let (decoded, typed) = decode_request-encode_request c req body f h in
    ((read_frame-write_frame buf w f rest typed fits room).1, decoded)

-- A response that `EncodeResponse` accepts, in a frame whose lengths fit and that the writer takes,
-- goes over the wire: the other side reads the frame and decodes the same header and body.
pub decode_response-received :
    (c : Codec ResponseHeader) (buf : List ℕ) (w : Writer) (resp : ResponseHeader)
    (body rest : List ℕ) (f : Frame)
    → encode_response c resp body ≡ ok f
    → Fits f
    → HasRoom w f
    → (received buf w f rest ≡ (ok f, rest)) × (decode_response c f ≡ ok (resp, body))
decode_response-received c buf w resp body rest f h fits room =
    let (decoded, typed) = decode_response-encode_response c resp body f h in
    ((read_frame-write_frame buf w f rest typed fits room).1, decoded)

-- Stream data with a 16-bit stream id that `EncodeStreamData` accepts, in a frame whose lengths fit and
-- that the writer takes, goes over the wire: the other side reads the frame and decodes the same
-- header and bytes, and the stream id is kept.
decode_stream_data-received :
    (c : Codec StreamHeader) (buf : List ℕ) (w : Writer) (id : ℕ) (header : StreamHeader)
    (bytes rest : List ℕ) (f : Frame)
    → id < 65536
    → encode_stream_data c id header bytes ≡ ok f
    → Fits f
    → HasRoom w f
    → (received buf w f rest ≡ (ok f, rest))
      × (decode_stream_data c f ≡ ok (header, bytes))
      × (f.stream_id ≡ id)
decode_stream_data-received c buf w id header bytes rest f k h fits room =
    let (decoded, typed, same) = decode_stream_data-encode_stream_data c id header bytes f k h in
    ((read_frame-write_frame buf w f rest typed fits room).1, decoded, same)

-- No frame is taken for two kinds of message: of the three decoders two at least refuse it, with
-- the frame's own type in the error.
decoders_disjoint :
    (q : Codec RequestHeader) (r : Codec ResponseHeader) (s : Codec StreamHeader) (f : Frame)
    → ((decode_request q f ≡ err (unexpected_frame f.type))
        × (decode_response r f ≡ err (unexpected_frame f.type)))
      ⊎ ((decode_request q f ≡ err (unexpected_frame f.type))
          × (decode_stream_data s f ≡ err (unexpected_frame f.type)))
      ⊎ ((decode_response r f ≡ err (unexpected_frame f.type))
          × (decode_stream_data s f ≡ err (unexpected_frame f.type)))
unfolding decode_request decode_response decode_stream_data
decoders_disjoint q r s f = ground arith

-- A frame from `EncodeStreamClose` is refused by all three decoders, by `DecodeStreamData` too.
stream_close_refused :
    (q : Codec RequestHeader) (r : Codec ResponseHeader) (s : Codec StreamHeader) (id : ℕ)
    (conn : String) (f : Frame)
    → encode_stream_close s id conn ≡ ok f
    → (decode_request q f ≡ err (unexpected_frame type_stream_close))
      × (decode_response r f ≡ err (unexpected_frame type_stream_close))
      × (decode_stream_data s f ≡ err (unexpected_frame type_stream_close))
unfolding decode_request decode_response decode_stream_data encode_stream_close
stream_close_refused q r s id conn f h = ground arith
