-- ===== src/WebSocket/Handler.antt =====
-- internal/websocket/handler.go over the manager: one connection from its upgrade to its end.
-- gorilla/websocket's part is an argument: the connection, if the upgrade went well, and the messages
-- that ReadMessage yields before its error. No other connection does anything meanwhile.
use maboo.Base.{ℕ, ◌≡◌, ap, ◌∙◌, String, List, [], ◌∷◌, ◌++◌, Option, none, some, str_eq_iff, arith}
use maboo.Base.Dict.{lookup}
use maboo.Protocol.Wire.{Frame}
use maboo.Protocol.Messages.{Codec, StreamHeader}
use maboo.WebSocket.Manager.{
  Manager, Effect, Reply, add_connection, remove_connection, handle_message, update,
}
use maboo.WebSocket.Manager.Invariant.{Inv}
use maboo.WebSocket.Manager.Behaviour.{
  view, step, view_step, connect, disconnect, view-step, View-eq, nobody_inside,
}

-- `ServeHTTP`, with the client that its goroutine reads from.
unfoldable pub serve_http :
    Codec StreamHeader → String → Option ℕ → String → Manager → Manager × Option ℕ × List Effect
unfolding add_connection
serve_http c id none addr m = (m, none, [])
serve_http c id (some conn) addr m =
    let (m', ref, effects) = add_connection c id conn addr m in (m', some ref, effects)

-- The loop of `readPump`: no message changes the manager.
unfoldable pub read_messages :
    Codec StreamHeader → (Frame → Reply) → ℕ → List (List ℕ) → Manager → List Effect
unfolding handle_message
read_messages c php ref [] m = []
read_messages c php ref (message ∷ messages) m =
    handle_message c php ref message m ++ read_messages c php ref messages m

unfoldable pub read_pump :
    Codec StreamHeader → (Frame → Reply) → ℕ → List (List ℕ) → Manager → Manager × List Effect
unfolding read_messages remove_connection
read_pump c php ref messages m =
    let (m', effects) = remove_connection c (m.heap ref).id m in
    (m', read_messages c php ref messages m ++ effects)

-- The state that a connection leaves behind.
session_state :
    (c : Codec StreamHeader) (php : Frame → Reply) (id : String) (conn : ℕ) (addr : String)
    (messages : List (List ℕ)) (m : Manager)
    → (read_pump c php m.next_ref messages (add_connection c id conn addr m).0).0
      ≡ step c (disconnect id) (step c (connect id conn addr) m)
unfolding read_pump step add_connection update
session_state c php id conn addr messages m = ground arith

-- A connection that gets an id of its own and then ends, whatever messages it sends, leaves the
-- tables consistent, and everyone else connected and in the rooms where they were.
pub read_pump_cleans_up :
    (c : Codec StreamHeader) (php : Frame → Reply) (id : String) (conn : ℕ) (addr : String)
    (messages : List (List ℕ)) (m : Manager)
    → Inv m
    → lookup id m.clients ≡ none
    → Inv (read_pump c php m.next_ref messages (add_connection c id conn addr m).0).0
      × (view (read_pump c php m.next_ref messages (add_connection c id conn addr m).0).0 ≡ view m)
unfolding view view_step
read_pump_cleans_up c php id conn addr messages m v new =
    let (v1, up) = view-step c (connect id conn addr) m v new in
    let (v2, down) = view-step c (disconnect id) (step c (connect id conn addr) m) v1 tt in
    rw (session_state c php id conn addr messages m) (
      v2,
      down
          ∙ ap (view_step (disconnect id)) up
          ∙ View-eq _ _ (λ x. ground (arith, str_eq_iff id x, new))
              (λ r x. ground (arith, str_eq_iff id x, nobody_inside m r id v new)),
    )
