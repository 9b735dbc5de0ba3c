-- ===== src/WebSocket/Manager.antt =====
-- internal/websocket/manager.go: clients, rooms and message routing.
-- A `*Client` is a number that the heap resolves, so a room and the table of clients share clients.
-- The methods run under the manager's lock: each is one function. The new connection id, which the
-- source draws at random, and the PHP forwarder are arguments; what a method forwards or sends is
-- listed in its result, and the errors of sends are only logged.
pub mod Rooms
pub mod Delivery
pub mod Behaviour
pub mod Invariant
use maboo.Base.{
  ℕ, ◌+◌, String, Bool, true, false, not, Option, none, some, List, [], ◌∷◌, str_eq, ◌==◌,
  if◌then◌else◌, length,
}
use maboo.Base.Dict.{Dict, lookup, insert, delete, keys}
use maboo.Base.Results.{Result, ok, err}
use maboo.Protocol.Wire.{Frame, type_stream_data}
use maboo.Protocol.Messages.{
  Codec, StreamHeader, MessageError, encode_stream_data, decode_stream_data,
}

pub record Client : Type 0 where
  pub id : String
  pub conn : ℕ
  pub remote_addr : String
  pub rooms : Dict Bool

pub record Manager : Type 0 where
  pub heap : ℕ → Client
  pub next_ref : ℕ
  pub clients : Dict ℕ
  pub rooms : Dict (Dict ℕ)
  pub has_forwarder : Bool

-- `forward none` is a call with a nil frame.
pub data Effect : Type 0 where
  forward : Option Frame → Effect
  send : ℕ → List ℕ → Effect

abbrev pub no_client : Client
no_client = record { id = ""; conn = 0; remote_addr = ""; rooms = [] }

unfoldable pub new_manager : Manager
new_manager = record {
  heap = λ _. no_client;
  next_ref = 0;
  clients = [];
  rooms = [];
  has_forwarder = false;
}

unfoldable pub set_php_forwarder : Manager → Manager
set_php_forwarder m = record m { has_forwarder = true }

unfoldable pub update : (ℕ → Client) → ℕ → Client → ℕ → Client
update heap i c j = if i == j then c else heap j

-- `frame, _ := EncodeStreamData(...)`: on an error the frame is nil.
abbrev pub frame_or_nil : Result MessageError Frame → Option Frame
frame_or_nil (ok f) = some f
frame_or_nil (err e) = none

-- The notice of an event that the PHP side gets, where a forwarder is set.
unfoldable pub notify : Codec StreamHeader → String → String → Manager → List Effect
notify c id event m =
    if m.has_forwarder
    then forward (
        frame_or_nil
          (encode_stream_data c 0 (record { connection_id = id; event = event; room = "" }) []))
      ∷ []
    else []

unfoldable pub add_connection :
    Codec StreamHeader → String → ℕ → String → Manager → Manager × ℕ × List Effect
unfolding update notify
add_connection c id conn addr m =
    let ref = m.next_ref in
    let client : Client = record { id = id; conn = conn; remote_addr = addr; rooms = [] } in
    (
      record m {
        heap = update m.heap ref client;
        next_ref = ref + 1;
        clients = insert id ref m.clients;
      },
      ref,
      notify c id "connect" m,
    )

-- `delete(members, id)`, and the room with its last member.
unfoldable pub store_members : String → Dict ℕ → Dict (Dict ℕ) → Dict (Dict ℕ)
store_members room [] rooms = delete room rooms
store_members room (e ∷ members) rooms = insert room (e ∷ members) rooms

unfoldable pub drop_member : String → String → Dict (Dict ℕ) → Dict (Dict ℕ)
unfolding store_members
drop_member id room rooms = elim (lookup room rooms) [
  | none ↦ rooms
  | some members ↦ store_members room (delete id members) rooms
]

-- `for room := range client.Rooms`
unfoldable pub drop_all : String → List String → Dict (Dict ℕ) → Dict (Dict ℕ)
drop_all id [] rooms = rooms
drop_all id (room ∷ rest) rooms = drop_all id rest (drop_member id room rooms)

unfoldable pub remove_connection : Codec StreamHeader → String → Manager → Manager × List Effect
unfolding notify
remove_connection c id m = elim (lookup id m.clients) [
  | none ↦ (m, [])
  | some ref ↦ (
    record m {
      rooms = drop_all id (keys (m.heap ref).rooms) m.rooms;
      clients = delete id m.clients;
    },
    notify c id "close" m,
  )
]

abbrev pub or_empty : Option (Dict ℕ) → Dict ℕ
or_empty none = []
or_empty (some members) = members

unfoldable pub join_room : String → String → Manager → Manager
unfolding update
join_room id room m = elim (lookup id m.clients) [
  | none ↦ m
  | some ref ↦
      let client = m.heap ref in
      record m {
        rooms = insert room (insert id ref (or_empty (lookup room m.rooms))) m.rooms;
        heap = update m.heap ref (record client { rooms = insert room true client.rooms });
      }
]

unfoldable pub leave_room : String → String → Manager → Manager
unfolding update
leave_room id room m = elim (lookup id m.clients) [
  | none ↦ m
  | some ref ↦
      let client = m.heap ref in
      record m {
        rooms = drop_member id room m.rooms;
        heap = update m.heap ref (record client { rooms = delete room client.rooms });
      }
]

-- The loops of `BroadcastToRoom` and `Broadcast`: the clients but the excluded one, then the sends.
unfoldable pub send_each : (ℕ → Client) → List ℕ → String → Dict ℕ → List Effect
send_each heap bytes exclude [] = []
send_each heap bytes exclude ((k, ref) ∷ members) =
    let rest = send_each heap bytes exclude members in
    if not (str_eq (heap ref).id exclude) then send ref bytes ∷ rest else rest

unfoldable pub broadcast_to_room : String → List ℕ → String → Manager → List Effect
unfolding send_each
broadcast_to_room room bytes exclude m = elim (lookup room m.rooms) [
  | none ↦ []
  | some members ↦ send_each m.heap bytes exclude members
]

unfoldable pub send_to_client : String → List ℕ → Manager → List Effect
send_to_client id bytes m = elim (lookup id m.clients) [
  | none ↦ []
  | some ref ↦ send ref bytes ∷ []
]

unfoldable pub broadcast : List ℕ → String → Manager → List Effect
unfolding send_each
broadcast bytes exclude m = send_each m.heap bytes exclude m.clients

-- The routing of a stream frame that the PHP side answered with.
unfoldable pub route : StreamHeader → List ℕ → Manager → List Effect
unfolding broadcast_to_room send_to_client
route h bytes m =
    if not (str_eq h.room "")
    then broadcast_to_room h.room bytes "" m
    else if not (str_eq h.connection_id "")
    then send_to_client h.connection_id bytes m
    else []

abbrev pub routed : Result MessageError (StreamHeader × List ℕ) → Manager → List Effect
routed (ok (h, bytes)) m = route h bytes m
routed (err e) m = []

-- What `phpForward` returned: an error, a nil frame, or a frame.
pub data Reply : Type 0 where
  forward_error nil_frame : Reply
  frame : Frame → Reply

unfoldable pub answer : Codec StreamHeader → Reply → Manager → List Effect
unfolding route
answer c forward_error m = []
answer c nil_frame m = []
answer c (frame f) m = if f.type == type_stream_data then routed (decode_stream_data c f) m else []

unfoldable pub handle_message :
    Codec StreamHeader → (Frame → Reply) → ℕ → List ℕ → Manager → List Effect
unfolding answer
handle_message c php ref message m =
    if m.has_forwarder
    then elim (encode_stream_data c 0
        (record { connection_id = (m.heap ref).id; event = "message"; room = "" }) message) [
          | err e ↦ []
          | ok f ↦ forward (some f) ∷ answer c (php f) m
        ]
    else []

pub record ManagerStats : Type 0 where
  pub total_connections : ℕ
  pub total_rooms : ℕ

unfoldable pub stats : Manager → ManagerStats
stats m = record { total_connections = length m.clients; total_rooms = length m.rooms }
