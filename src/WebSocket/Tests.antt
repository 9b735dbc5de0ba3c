-- ===== src/WebSocket/Tests.antt =====
-- Examples for internal/websocket.
use maboo.Base.{
  ◌≡◌, refl, ◌&&◌, some, none, [], ◌∷◌, if◌then◌else◌, str_eq, true, Bool, str_eq_iff, arith,
}
use maboo.Base.Dict.{lookup, insert}
use maboo.Base.Results.{ok}
use maboo.Protocol.Wire.{Frame}
use maboo.Protocol.Messages.{Codec, StreamHeader, encode_stream_data, decode_stream_data}
use maboo.WebSocket.Handler.{read_pump, read_pump_cleans_up}
use maboo.WebSocket.Manager.{
  nil_frame, Manager, new_manager, add_connection, join_room, update, set_php_forwarder,
  handle_message, frame,
}
use maboo.WebSocket.Manager.Invariant.{Inv, new_manager-Inv}
use maboo.WebSocket.Manager.Behaviour.{view, view_step, step, connect, join, view-step}
use maboo.WebSocket.Manager.Delivery.{handle_message_delivers, gets}

-- A codec that marshals nothing.
silent : Codec StreamHeader
silent = record { marshal = λ h. none; unmarshal = λ b. none; unmarshal-marshal = λ h b e. cc }

-- One client, who has joined a room.
abbrev joined : Manager
joined = step silent (join "c1" "lobby") (step silent (connect "c1" 7 "10.0.0.1") new_manager)

connected-Inv : Inv (step silent (connect "c1" 7 "10.0.0.1") new_manager)
unfolding new_manager lookup
connected-Inv = (view-step silent (connect "c1" 7 "10.0.0.1") new_manager new_manager-Inv refl).0

joined-Inv : Inv joined
joined-Inv =
    (view-step silent (join "c1" "lobby") (step silent (connect "c1" 7 "10.0.0.1") new_manager)
      connected-Inv tt).0

joined_client : lookup "c1" joined.clients ≡ some 0
unfolding step new_manager add_connection join_room lookup insert
joined_client = refl

view-step_example :
    Inv joined
    × (view joined
        ≡ view_step
            (join "c1" "lobby")
            (view (step silent (connect "c1" 7 "10.0.0.1") new_manager)))
view-step_example =
    view-step silent (join "c1" "lobby") (step silent (connect "c1" 7 "10.0.0.1") new_manager)
      connected-Inv tt

c2_is_new : lookup "c2" joined.clients ≡ none
unfolding step new_manager add_connection join_room lookup insert
c2_is_new = refl

-- A second connection that says something and ends.
read_pump_cleans_up_example :
    Inv
      (read_pump silent
        (λ f. nil_frame)
        joined.next_ref
        ((104 ∷ []) ∷ [])
        (add_connection silent "c2" 8 "10.0.0.2" joined).0).0
    × (view
          (read_pump silent
            (λ f. nil_frame)
            joined.next_ref
            ((104 ∷ []) ∷ [])
            (add_connection silent "c2" 8 "10.0.0.2" joined).0).0
        ≡ view joined)
read_pump_cleans_up_example =
    read_pump_cleans_up silent (λ f. nil_frame) "c2" 8 "10.0.0.2" ((104 ∷ []) ∷ []) joined
      joined-Inv c2_is_new

abbrev echo_header : StreamHeader
echo_header = record { connection_id = "c1"; event = "message"; room = "" }

is_echo : StreamHeader → Bool
is_echo h = str_eq h.connection_id "c1" && str_eq h.event "message" && str_eq h.room ""

is_echo_only : (h : StreamHeader) → is_echo h ≡ true → h ≡ echo_header
unfolding is_echo
is_echo_only h e =
    let connection_id_is : h.connection_id ≡ "c1" =
      ground (arith, str_eq_iff h.connection_id "c1") in
    let event_is : h.event ≡ "message" = ground (arith, str_eq_iff h.event "message") in
    let room_is : h.room ≡ "" = ground (arith, str_eq_iff h.room "") in
    λ i. record { connection_id = connection_id_is i; event = event_is i; room = room_is i }

-- A codec that marshals the header of the client's own messages only.
echo : Codec StreamHeader
echo = record {
  marshal = λ h. if is_echo h then some (71 ∷ []) else none;
  unmarshal = λ b. some echo_header;
  unmarshal-marshal = λ h b e. ground (arith, is_echo_only h);
}

-- PHP sends each frame back.
abbrev echo_frame : Frame
echo_frame = record { type = 3; flags = 0; stream_id = 0; headers = 71 ∷ []; payload = 5 ∷ [] }

forwarded : Manager
forwarded = set_php_forwarder joined

forwarded-Inv : Inv forwarded
unfolding forwarded set_php_forwarder
forwarded-Inv = record {
  client_id = joined-Inv.client_id;
  client_ref = joined-Inv.client_ref;
  member_client = joined-Inv.member_client;
  client_member = joined-Inv.client_member;
  uniq_clients = joined-Inv.uniq_clients;
  tidy = joined-Inv.tidy;
}

echo_sent :
    encode_stream_data echo 0
      (record { connection_id = (forwarded.heap 0).id; event = "message"; room = "" })
      (5 ∷ [])
    ≡ ok echo_frame
unfolding encode_stream_data echo is_echo forwarded set_php_forwarder step new_manager
    add_connection join_room update lookup insert
echo_sent = refl

echo_decoded : decode_stream_data echo echo_frame ≡ ok (echo_header, 5 ∷ [])
unfolding decode_stream_data echo
echo_decoded = refl

handle_message_delivers_example :
    gets 0 (handle_message echo (λ f. frame f) 0 (5 ∷ []) forwarded) ≡ (5 ∷ []) ∷ []
unfolding forwarded set_php_forwarder
handle_message_delivers_example =
    handle_message_delivers echo (λ f. frame f) 0 (5 ∷ []) (5 ∷ []) echo_frame echo_frame
      echo_header "c1" 0 forwarded forwarded-Inv refl echo_sent refl echo_decoded joined_client
