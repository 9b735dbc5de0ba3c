-- ===== src/WebSocket/Manager/Delivery.antt =====
-- Who gets a message of internal/websocket/manager.go, and how often.
use maboo.Base.{
  ℕ, ◌≡◌, refl, inl, inr, String, not, ◌&&◌, none, some, List, [], ◌∷◌, str_eq, str_eq_iff, ◌==◌,
  if◌then◌else◌, arith, Bool-cases, Option-cases, true, ◌==◌,
}
use maboo.Base.Dict.{Dict, lookup, lookup-none, Uniq}
use maboo.WebSocket.Manager.{
  Manager, Client, Effect, forward, send, send_each, broadcast_to_room, broadcast, send_to_client,
  route, answer, handle_message, Reply, frame,
}
use maboo.Base.Results.{ok}
use maboo.Protocol.Wire.{Frame, type_stream_data}
use maboo.Protocol.Messages.{Codec, StreamHeader, encode_stream_data, decode_stream_data}
use maboo.WebSocket.Manager.Rooms.{find_member}
use maboo.WebSocket.Manager.Invariant.{Inv}
use maboo.WebSocket.Manager.Behaviour.{view}

-- The messages that a client is sent, in their order.
unfoldable pub gets : ℕ → List Effect → List (List ℕ)
gets ref [] = []
gets ref (forward f ∷ es) = gets ref es
gets ref (send k bytes ∷ es) = if k == ref then bytes ∷ gets ref es else gets ref es

-- A table that stores each client under its own id.
abbrev Names : (ℕ → Client) → Dict ℕ → Type 0
Names heap ms = (k : String) (r : ℕ) → lookup k ms ≡ some r → (heap r).id ≡ k

Names-tail :
    (heap : ℕ → Client) (k : String) (r : ℕ) (ms : Dict ℕ)
    → lookup k ms ≡ none
    → Names heap ((k, r) ∷ ms)
    → Names heap ms
unfolding lookup
Names-tail heap k r ms new h j s e = h j s (ground (arith, str_eq_iff k j))

gets-absent :
    (heap : ℕ → Client) (bytes : List ℕ) (exclude x : String) (ref : ℕ) (ms : Dict ℕ)
    → Uniq ms
    → Names heap ms
    → (heap ref).id ≡ x
    → lookup x ms ≡ none
    → gets ref (send_each heap bytes exclude ms) ≡ []
unfolding gets send_each lookup
gets-absent heap bytes exclude x ref [] u h e a = refl
gets-absent heap bytes exclude x ref ((k, r) ∷ ms) u h e a =
    let tail =
      gets-absent heap bytes exclude x ref ms u.1 (Names-tail heap k r ms u.0 h) e (ground arith) in
    ground (arith, tail, h k r, str_eq_iff k x, str_eq_iff k k)

gets-send_each :
    (heap : ℕ → Client) (bytes : List ℕ) (exclude x : String) (ref : ℕ) (ms : Dict ℕ)
    → Uniq ms
    → Names heap ms
    → lookup x ms ≡ some ref
    → gets ref (send_each heap bytes exclude ms) ≡ (if str_eq x exclude then [] else bytes ∷ [])
unfolding gets send_each lookup
gets-send_each heap bytes exclude x ref [] u h e = cc
gets-send_each heap bytes exclude x ref ((k, r) ∷ ms) u h e =
    let rest = Names-tail heap k r ms u.0 h in
    let name : (heap r).id ≡ k = h k r (ground (arith, str_eq_iff k k)) in
    elim (Bool-cases (str_eq k x)) [
      | inl same ↦
          let key = (str_eq_iff k x).0 same in
          let ref_is : r ≡ ref = ground (arith, same, e) in
          let none_left =
            gets-absent heap bytes exclude x ref ms u.1 rest (ground arith) (ground arith) in
          ground arith
      | inr other ↦
          let found : lookup x ms ≡ some ref = ground (arith, other, e) in
          let tail = gets-send_each heap bytes exclude x ref ms u.1 rest found in
          let its_name = rest x ref found in
          let apart : (r ≡ ref) → ⊥ = λ p. ground (arith, str_eq_iff k x) in ground arith
    ]

in_room :
    (room x : String) (ms : Dict ℕ) (m : Manager)
    → lookup room m.rooms ≡ some ms
    → find_member m.rooms room x ≡ lookup x ms
unfolding find_member
in_room room x ms m e = rw e refl

Names-members :
    (room : String) (ms : Dict ℕ) (m : Manager)
    → Inv m
    → lookup room m.rooms ≡ some ms
    → Names m.heap ms
Names-members room ms m v e k r f =
    let known = (v.member_client room k r (ground (arith, in_room room k ms m e))).0 in
    v.client_id k r known

-- In a consistent manager, a broadcast to a room sends a connected client the bytes, once, when it is in
-- the room and is not the excluded one, and nothing otherwise.
broadcast_to_room_delivers :
    (room exclude x : String) (bytes : List ℕ) (ref : ℕ) (m : Manager)
    → Inv m
    → lookup x m.clients ≡ some ref
    → gets ref (broadcast_to_room room bytes exclude m)
      ≡ (if (view m).inside room x && not (str_eq x exclude) then bytes ∷ [] else [])
unfolding broadcast_to_room gets find_member view
broadcast_to_room_delivers room exclude x bytes ref m v e =
    elim (Option-cases (lookup room m.rooms)) [
      | inl h ↦ ground (arith, h, lookup-none {V = ℕ} x)
      | inr (ms, h) ↦
          let names = Names-members room ms m v h in
          let uniq = v.tidy.uniq_members room ms h in
          elim (Option-cases (lookup x ms)) [
            | inl out ↦
                let never =
                  gets-absent m.heap bytes exclude x ref ms uniq names (v.client_id x ref e) out in
                ground (arith, h, out, never)
            | inr (r, f) ↦
                let known = (v.member_client room x r (ground (arith, in_room room x ms m h))).0 in
                let once = gets-send_each m.heap bytes exclude x ref ms uniq names (ground arith) in
                ground (arith, h, f, once)
          ]
    ]

-- In a consistent manager, a broadcast to all sends each connected client the bytes once, but the
-- excluded one nothing.
broadcast_delivers :
    (exclude x : String) (bytes : List ℕ) (ref : ℕ) (m : Manager)
    → Inv m
    → lookup x m.clients ≡ some ref
    → gets ref (broadcast bytes exclude m) ≡ (if str_eq x exclude then [] else bytes ∷ [])
unfolding broadcast
broadcast_delivers exclude x bytes ref m v e =
    gets-send_each m.heap bytes exclude x ref m.clients v.uniq_clients v.client_id e

-- A message to one client is sent to that client only.
send_to_client_delivers :
    (id x : String) (bytes : List ℕ) (ref : ℕ) (m : Manager)
    → Inv m
    → lookup x m.clients ≡ some ref
    → gets ref (send_to_client id bytes m) ≡ (if str_eq id x then bytes ∷ [] else [])
unfolding send_to_client gets
send_to_client_delivers id x bytes ref m v e = elim (Option-cases (lookup id m.clients)) [
  | inl h ↦ ground (arith, h, str_eq_iff id x)
  | inr (k, h) ↦
      let its_id = v.client_id id k h in
      let own_id = v.client_id x ref e in
      elim (Bool-cases (str_eq id x)) [
        | inl same ↦
            let key = (str_eq_iff id x).0 same in
            let ref_is : k ≡ ref = ground arith in ground (arith, h, same, ref_is)
        | inr other ↦
            let apart : (k ≡ ref) → ⊥ = λ p. ground (arith, str_eq_iff id x) in
            ground (arith, h, other, apart)
      ]
]

route_delivers :
    (h : StreamHeader) (x : String) (bytes : List ℕ) (ref : ℕ) (m : Manager)
    → Inv m
    → lookup x m.clients ≡ some ref
    → gets ref (route h bytes m) ≡ (
        if (if str_eq h.room "" then str_eq h.connection_id x else (view m).inside h.room x)
          && not (str_eq x "")
        then bytes ∷ []
        else [])
unfolding route gets
route_delivers h x bytes ref m v e =
    let one = send_to_client_delivers h.connection_id x bytes ref m v e in
    let all = broadcast_to_room_delivers h.room "" x bytes ref m v e in
    ground (
      arith,
      one,
      all,
      str_eq_iff h.connection_id "",
      str_eq_iff h.connection_id x,
      str_eq_iff x "",
    )

decoded_type :
    (c : Codec StreamHeader) (g : Frame) (h : StreamHeader) (bytes : List ℕ)
    → decode_stream_data c g ≡ ok (h, bytes)
    → (g.type == type_stream_data) ≡ true
unfolding decode_stream_data
decoded_type c g h bytes e = ground arith

-- A message of a client, forwarded to PHP and answered with stream data: in a consistent manager a
-- connected client is sent exactly the data of the answer, once, when the answer names the client's
-- room, or no room and the client itself, and nothing otherwise. (A client whose id is empty gets
-- nothing.)
pub handle_message_delivers :
    (c : Codec StreamHeader) (php : Frame → Reply) (sender : ℕ) (message bytes : List ℕ)
    (f g : Frame) (h : StreamHeader) (x : String) (ref : ℕ) (m : Manager)
    → Inv m
    → m.has_forwarder ≡ true
    → encode_stream_data c 0
        (record { connection_id = (m.heap sender).id; event = "message"; room = "" })
        message
      ≡ ok f
    → php f ≡ frame g
    → decode_stream_data c g ≡ ok (h, bytes)
    → lookup x m.clients ≡ some ref
    → gets ref (handle_message c php sender message m) ≡ (
        if (if str_eq h.room "" then str_eq h.connection_id x else (view m).inside h.room x)
          && not (str_eq x "")
        then bytes ∷ []
        else [])
unfolding handle_message answer gets view
handle_message_delivers c php sender message bytes f g h x ref m v on sent reply decoded e =
    let typed = decoded_type c g h bytes decoded in
    rw (on, sent, reply, typed, decoded) (route_delivers h x bytes ref m v e)
