-- ===== src/Protocol/Messages/Tests.antt =====
-- Examples for the messages of internal/protocol.
use maboo.Base.{
  ℕ, ◌^◌, ◌<◌, ◌≡◌, ◌⊎◌, refl, Bool, true, false, ◌&&◌, some, none, List, [], ◌∷◌, length,
  if◌then◌else◌, str_eq, str_eq_iff, ◌==◌, arith,
}
use maboo.Base.Results.{ok, err}
use maboo.Protocol.Wire.{Frame, Fits, Writer}
use maboo.Protocol.Messages.{
  Codec, RequestHeader, ResponseHeader, StreamHeader, unexpected_frame, encode_request,
  decode_request, encode_response, decode_response, encode_stream_data, decode_stream_data,
  encode_stream_close,
}
use maboo.Protocol.Messages.RoundTrip.{received, decode_request-received, decode_response-received}

abbrev pipe : Writer
pipe = record { written = 5 ∷ []; room = 1000 }

abbrev message : ℕ → ℕ → List ℕ → Frame
message type id payload = record {
  type = type;
  flags = 0;
  stream_id = id;
  headers = 71 ∷ [];
  payload = payload;
}

message-Fits :
    (type id : ℕ) (payload : List ℕ) → length payload < 2 ^ 32 → Fits (message type id payload)
message-Fits type id payload h = record { headers_fit = omega arith; payload_fits = h }

abbrev get_request : RequestHeader
get_request = record {
  method = "GET";
  uri = "/";
  query_string = "";
  headers = [];
  remote_addr = "10.0.0.1";
  server_name = "localhost";
  server_port = "8080";
  protocol = "HTTP/1.1";
}

is_nil : {A : Type 0} → List A → Bool
is_nil [] = true
is_nil (x ∷ xs) = false

is_nil-nil : {A : Type 0} (xs : List A) → is_nil xs ≡ true → xs ≡ []
unfolding is_nil
is_nil-nil [] h = refl
is_nil-nil (x ∷ xs) h = absurd (cc)

-- A codec that marshals one value only.
one_value : {A : Type 0} (test : A → Bool) (a : A) → ((b : A) → test b ≡ true → b ≡ a) → Codec A
one_value test a only = record {
  marshal = λ b. if test b then some (71 ∷ []) else none;
  unmarshal = λ bytes. some a;
  unmarshal-marshal = λ b bytes h. ground (arith, only b);
}

request_test : RequestHeader → Bool
request_test r =
    str_eq r.method "GET"
    && str_eq r.uri "/"
    && str_eq r.query_string ""
    && is_nil r.headers
    && str_eq r.remote_addr "10.0.0.1"
    && str_eq r.server_name "localhost"
    && str_eq r.server_port "8080"
    && str_eq r.protocol "HTTP/1.1"

request_only : (r : RequestHeader) → request_test r ≡ true → r ≡ get_request
unfolding request_test
request_only r h =
    let method_is : r.method ≡ "GET" = ground (arith, str_eq_iff r.method "GET") in
    let uri_is : r.uri ≡ "/" = ground (arith, str_eq_iff r.uri "/") in
    let query_string_is : r.query_string ≡ "" = ground (arith, str_eq_iff r.query_string "") in
    let headers_is : r.headers ≡ [] = is_nil-nil r.headers (ground arith) in
    let remote_addr_is : r.remote_addr ≡ "10.0.0.1" =
      ground (arith, str_eq_iff r.remote_addr "10.0.0.1") in
    let server_name_is : r.server_name ≡ "localhost" =
      ground (arith, str_eq_iff r.server_name "localhost") in
    let server_port_is : r.server_port ≡ "8080" = ground (arith, str_eq_iff r.server_port "8080") in
    let protocol_is : r.protocol ≡ "HTTP/1.1" = ground (arith, str_eq_iff r.protocol "HTTP/1.1") in
    λ i. record {
      method = method_is i;
      uri = uri_is i;
      query_string = query_string_is i;
      headers = headers_is i;
      remote_addr = remote_addr_is i;
      server_name = server_name_is i;
      server_port = server_port_is i;
      protocol = protocol_is i;
    }

request_codec : Codec RequestHeader
request_codec = one_value request_test get_request request_only

abbrev ok_response : ResponseHeader
ok_response = record { status = 200; headers = [] }

response_test : ResponseHeader → Bool
response_test r = (r.status == 200) && is_nil r.headers

response_only : (r : ResponseHeader) → response_test r ≡ true → r ≡ ok_response
unfolding response_test
response_only r h =
    let status_is : r.status ≡ 200 = ground arith in
    let headers_is : r.headers ≡ [] = is_nil-nil r.headers (ground arith) in
    λ i. record { status = status_is i; headers = headers_is i }

response_codec : Codec ResponseHeader
response_codec = one_value response_test ok_response response_only

abbrev leaving : StreamHeader
leaving = record { connection_id = "c1"; event = "close"; room = "" }

stream_test : StreamHeader → Bool
stream_test r = str_eq r.connection_id "c1" && str_eq r.event "close" && str_eq r.room ""

stream_only : (r : StreamHeader) → stream_test r ≡ true → r ≡ leaving
unfolding stream_test
stream_only r h =
    let connection_id_is : r.connection_id ≡ "c1" =
      ground (arith, str_eq_iff r.connection_id "c1") in
    let event_is : r.event ≡ "close" = ground (arith, str_eq_iff r.event "close") in
    let room_is : r.room ≡ "" = ground (arith, str_eq_iff r.room "") in
    λ i. record { connection_id = connection_id_is i; event = event_is i; room = room_is i }

stream_codec : Codec StreamHeader
stream_codec = one_value stream_test leaving stream_only

request_encoded : encode_request request_codec get_request (9 ∷ []) ≡ ok (message 1 0 (9 ∷ []))
unfolding encode_request request_codec one_value request_test is_nil
request_encoded = refl

decode_request-received_example :
    (received [] pipe (message 1 0 (9 ∷ [])) (4 ∷ []) ≡ (ok (message 1 0 (9 ∷ [])), 4 ∷ []))
    × (decode_request request_codec (message 1 0 (9 ∷ [])) ≡ ok (get_request, 9 ∷ []))
decode_request-received_example =
    decode_request-received request_codec [] pipe get_request (9 ∷ []) (4 ∷ [])
      (message 1 0 (9 ∷ [])) request_encoded (message-Fits 1 0 (9 ∷ []) (omega arith)) (omega arith)

response_encoded : encode_response response_codec ok_response (8 ∷ []) ≡ ok (message 2 0 (8 ∷ []))
unfolding encode_response response_codec one_value response_test is_nil
response_encoded = refl

decode_response-received_example :
    (received [] pipe (message 2 0 (8 ∷ [])) (4 ∷ []) ≡ (ok (message 2 0 (8 ∷ [])), 4 ∷ []))
    × (decode_response response_codec (message 2 0 (8 ∷ [])) ≡ ok (ok_response, 8 ∷ []))
decode_response-received_example =
    decode_response-received response_codec [] pipe ok_response (8 ∷ []) (4 ∷ [])
      (message 2 0 (8 ∷ [])) response_encoded (message-Fits 2 0 (8 ∷ []) (omega arith))
      (omega arith)

stream_encoded : encode_stream_data stream_codec 300 leaving (8 ∷ []) ≡ ok (message 3 300 (8 ∷ []))
unfolding encode_stream_data stream_codec one_value stream_test
stream_encoded = refl

abbrev Refused : ℕ → Frame → Type 0
Refused type f =
    ((decode_request request_codec f ≡ err (unexpected_frame type))
      × (decode_response response_codec f ≡ err (unexpected_frame type)))
    ⊎ ((decode_request request_codec f ≡ err (unexpected_frame type))
        × (decode_stream_data stream_codec f ≡ err (unexpected_frame type)))
    ⊎ ((decode_response response_codec f ≡ err (unexpected_frame type))
        × (decode_stream_data stream_codec f ≡ err (unexpected_frame type)))

close_encoded : encode_stream_close stream_codec 5 "c1" ≡ ok (message 4 5 [])
unfolding encode_stream_close stream_codec one_value stream_test
close_encoded = refl
