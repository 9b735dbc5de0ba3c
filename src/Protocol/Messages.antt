-- ===== src/Protocol/Messages.antt =====
-- internal/protocol/request.go, response.go, stream.go and msgpack.go: messages as frames.
-- The msgpack library is a parameter: a `Codec` for each type of header.
pub mod RoundTrip
mod Tests
use maboo.Base.{ℕ, ◌≡◌, String, Bool, not, Option, none, some, List, [], ◌==◌, if◌then◌else◌}
use maboo.Base.Dict.{Dict}
use maboo.Base.Results.{Result, ok, err, ◌>>=◌}
use maboo.Protocol.Wire.{Frame, type_request, type_response, type_stream_data, type_stream_close}

-- `msgpack.Marshal` and `msgpack.Unmarshal` at one type, with `none` for an error. What was
-- marshalled is unmarshalled to the same value.
pub record Codec (A : Type 0) : Type 0 where
  pub marshal : A → Option (List ℕ)
  pub unmarshal : List ℕ → Option A
  pub unmarshal-marshal : (a : A) (b : List ℕ) → marshal a ≡ some b → unmarshal b ≡ some a

pub record RequestHeader : Type 0 where
  pub method : String
  pub uri : String
  pub query_string : String
  pub headers : Dict String
  pub remote_addr : String
  pub server_name : String
  pub server_port : String
  pub protocol : String

pub record ResponseHeader : Type 0 where
  pub status : ℕ
  pub headers : Dict String

pub record StreamHeader : Type 0 where
  pub connection_id : String
  pub event : String
  pub room : String

pub data MessageError : Type 0 where
  encoding_headers : MessageError
  decoding_headers : MessageError
  unexpected_frame : ℕ → MessageError

abbrev pub or_fail : {A : Type 0} → Option A → MessageError → Result MessageError A
or_fail none e = err e
or_fail (some a) e = ok a

unfoldable pub marshal_msgpack : {A : Type 0} → Codec A → A → Result MessageError (List ℕ)
marshal_msgpack c a = or_fail (c.marshal a) encoding_headers

unfoldable pub unmarshal_msgpack : {A : Type 0} → Codec A → List ℕ → Result MessageError A
unmarshal_msgpack c b = or_fail (c.unmarshal b) decoding_headers

unfoldable pub encode_request :
    Codec RequestHeader → RequestHeader → List ℕ → Result MessageError Frame
unfolding marshal_msgpack
encode_request c req body = do
  headers ← marshal_msgpack c req
  ok (record { type = type_request; flags = 0; stream_id = 0; headers = headers; payload = body })

unfoldable pub decode_request :
    Codec RequestHeader → Frame → Result MessageError (RequestHeader × List ℕ)
unfolding unmarshal_msgpack
decode_request c f =
    if not (f.type == type_request)
    then err (unexpected_frame f.type)
    else do req ← unmarshal_msgpack c f.headers; ok (req, f.payload)

unfoldable pub encode_response :
    Codec ResponseHeader → ResponseHeader → List ℕ → Result MessageError Frame
unfolding marshal_msgpack
encode_response c resp body = do
  headers ← marshal_msgpack c resp
  ok (record { type = type_response; flags = 0; stream_id = 0; headers = headers; payload = body })

unfoldable pub decode_response :
    Codec ResponseHeader → Frame → Result MessageError (ResponseHeader × List ℕ)
unfolding unmarshal_msgpack
decode_response c f =
    if not (f.type == type_response)
    then err (unexpected_frame f.type)
    else do resp ← unmarshal_msgpack c f.headers; ok (resp, f.payload)

-- `streamID` is a `uint16`.
unfoldable pub encode_stream_data :
    Codec StreamHeader → ℕ → StreamHeader → List ℕ → Result MessageError Frame
unfolding marshal_msgpack
encode_stream_data c stream_id header bytes = do
  headers ← marshal_msgpack c header
  ok (record {
    type = type_stream_data;
    flags = 0;
    stream_id = stream_id;
    headers = headers;
    payload = bytes;
  })

unfoldable pub decode_stream_data :
    Codec StreamHeader → Frame → Result MessageError (StreamHeader × List ℕ)
unfolding unmarshal_msgpack
decode_stream_data c f =
    if not (f.type == type_stream_data)
    then err (unexpected_frame f.type)
    else do header ← unmarshal_msgpack c f.headers; ok (header, f.payload)

unfoldable pub encode_stream_close : Codec StreamHeader → ℕ → String → Result MessageError Frame
unfolding marshal_msgpack
encode_stream_close c stream_id conn_id = do
  headers ← marshal_msgpack c (record { connection_id = conn_id; event = "close"; room = "" })
  ok (record {
    type = type_stream_close;
    flags = 0;
    stream_id = stream_id;
    headers = headers;
    payload = [];
  })
