-- ===== src/WebSocket/Manager/Behaviour.antt =====
-- internal/websocket/manager.go against what it promises: a set of connections, a set of memberships,
-- and messages that reach each member once.
use maboo.Base.{
  ℕ, ◌≡◌, refl, ap, inl, inr, String, Bool, true, false, not, ◌&&◌, ◌||◌, Option, none, some,
  str_eq, str_eq_iff, arith, Option-cases,
}
use maboo.Base.Dict.{Dict, lookup, keys, lookup-insert, lookup-delete}
use maboo.Protocol.Messages.{Codec, StreamHeader}
use maboo.WebSocket.Manager.{
  Manager, add_connection, remove_connection, join_room, leave_room, drop_all,
}
use maboo.WebSocket.Manager.Rooms.{
  find_member, find_member-drop_member, find_member-join, find_member-drop_all, contains_key-keys,
}
use maboo.WebSocket.Manager.Invariant.{
  Inv, add_connection-Inv, remove_connection-Inv, join_room-Inv, leave_room-Inv,
}
use mathlib.Core.Path.{fun_ext}

-- What a user of the manager sees: who is connected, and who is in which room.
pub record View : Type 0 where
  pub connected : String → Bool
  pub inside : String → String → Bool

abbrev pub is_some : {A : Type 0} → Option A → Bool
is_some none = false
is_some (some a) = true

unfoldable pub view : Manager → View
view m = record {
  connected = λ x. is_some (lookup x m.clients);
  inside = λ r x. is_some (find_member m.rooms r x);
}

pub data Call : Type 0 where
  connect : String → ℕ → String → Call
  disconnect : String → Call
  join leave : String → String → Call

-- Connection ids are drawn at random: a new one is not in use.
abbrev pub IsNew : Call → Manager → Type 0
IsNew (connect id conn addr) m = lookup id m.clients ≡ none
IsNew (disconnect id) m = Unit {0}
IsNew (join id room) m = Unit {0}
IsNew (leave id room) m = Unit {0}

unfoldable pub step : Codec StreamHeader → Call → Manager → Manager
step c (connect id conn addr) m = (add_connection c id conn addr m).0
step c (disconnect id) m = (remove_connection c id m).0
step c (join id room) m = join_room id room m
step c (leave id room) m = leave_room id room m

-- The same calls on the view.
unfoldable pub view_step : Call → View → View
view_step (connect id conn addr) v = record v { connected = λ x. str_eq id x || v.connected x }
view_step (disconnect id) v = record {
  connected = λ x. not (str_eq id x) && v.connected x;
  inside = λ r x. not (str_eq id x) && v.inside r x;
}
view_step (join id room) v = record v {
  inside = λ r x. (v.connected id && (str_eq room r && str_eq id x)) || v.inside r x;
}
view_step (leave id room) v = record v {
  inside = λ r x. not (str_eq room r && str_eq id x) && v.inside r x;
}

step-Inv : (c : Codec StreamHeader) (k : Call) (m : Manager) → IsNew k m → Inv m → Inv (step c k m)
unfolding step
step-Inv c (connect id conn addr) m new v = add_connection-Inv c id conn addr m new v
step-Inv c (disconnect id) m new v = remove_connection-Inv c id m v
step-Inv c (join id room) m new v = join_room-Inv id room m v
step-Inv c (leave id room) m new v = leave_room-Inv id room m v

pub View-eq :
    (v w : View)
    → ((x : String) → v.connected x ≡ w.connected x)
    → ((r x : String) → v.inside r x ≡ w.inside r x)
    → v ≡ w
View-eq v w h k =
    λ i. record { connected = fun_ext h i; inside = fun_ext (λ r. fun_ext (λ x. k r x)) i }

-- A client that is not connected is in no room.
pub nobody_inside :
    (m : Manager) (r x : String)
    → Inv m
    → lookup x m.clients ≡ none
    → find_member m.rooms r x ≡ none
nobody_inside m r x v e = elim (Option-cases (find_member m.rooms r x)) [
  | inl h ↦ h
  | inr (ref, h) ↦ let known = (v.member_client r x ref h).0 in ground arith
]

-- The rooms of the client's own set are all the rooms that hold it.
drop_all-inside :
    (id : String) (ref : ℕ) (m : Manager) (r x : String)
    → Inv m
    → lookup id m.clients ≡ some ref
    → is_some (find_member (drop_all id (keys (m.heap ref).rooms) m.rooms) r x)
      ≡ (not (str_eq id x) && is_some (find_member m.rooms r x))
drop_all-inside id ref m r x v e =
    let set : Dict Bool = (m.heap ref).rooms in
    let drops = find_member-drop_all id (keys set) r x m.rooms in
    elim (Option-cases (find_member m.rooms r x)) [
      | inl h ↦ ground (arith, drops, h)
      | inr (k, h) ↦ ground (
        arith,
        drops,
        h,
        e,
        str_eq_iff id x,
        v.member_client r x k h,
        contains_key-keys r set true,
      )
    ]

disconnect-inside :
    (c : Codec StreamHeader) (id : String) (m : Manager) (r x : String)
    → Inv m
    → is_some (find_member (remove_connection c id m).0.rooms r x)
      ≡ (not (str_eq id x) && is_some (find_member m.rooms r x))
unfolding remove_connection
disconnect-inside c id m r x v = elim (Option-cases (lookup id m.clients)) [
  | inl e ↦ rw (e, remove_connection) (ground (arith, str_eq_iff id x, nobody_inside m r x v))
  | inr (ref, e) ↦ rw (e, remove_connection) (drop_all-inside id ref m r x v e)
]

disconnect-connected :
    (c : Codec StreamHeader) (id x : String) (m : Manager)
    → is_some (lookup x (remove_connection c id m).0.clients)
      ≡ (not (str_eq id x) && is_some (lookup x m.clients))
unfolding remove_connection
disconnect-connected c id x m = ground (arith, str_eq_iff id x, lookup-delete id x m.clients)

join-inside :
    (id room : String) (m : Manager) (r x : String)
    → is_some (find_member (join_room id room m).rooms r x) ≡ (
        (is_some (lookup id m.clients) && (str_eq room r && str_eq id x))
        || is_some (find_member m.rooms r x))
unfolding join_room
join-inside id room m r x = elim (Option-cases (lookup id m.clients)) [
  | inl e ↦ rw (e, join_room) refl
  | inr (ref, e) ↦ rw (e, join_room) (ground (arith, find_member-join id room r x ref m.rooms))
]

leave-inside :
    (id room : String) (m : Manager) (r x : String)
    → Inv m
    → is_some (find_member (leave_room id room m).rooms r x)
      ≡ (not (str_eq room r && str_eq id x) && is_some (find_member m.rooms r x))
unfolding leave_room
leave-inside id room m r x v = elim (Option-cases (lookup id m.clients)) [
  | inl e ↦
      rw (e, leave_room) (ground (arith, str_eq_iff room r, str_eq_iff id x, nobody_inside m r x v))
  | inr (ref, e) ↦ rw (e, leave_room) (ground (arith, find_member-drop_member id room r x m.rooms))
]

join_room-clients : (id room : String) (m : Manager) → (join_room id room m).clients ≡ m.clients
unfolding join_room
join_room-clients id room m = ground arith

leave_room-clients : (id room : String) (m : Manager) → (leave_room id room m).clients ≡ m.clients
unfolding leave_room
leave_room-clients id room m = ground arith

-- From tables that agree, with a new id for a new connection, each call leaves tables that agree and
-- does to connections and memberships exactly what it says: a connection joins no room, a
-- disconnection leaves every room, and a join by an id that is not connected does nothing.
pub view-step :
    (c : Codec StreamHeader) (k : Call) (m : Manager)
    → Inv m
    → IsNew k m
    → Inv (step c k m) × (view (step c k m) ≡ view_step k (view m))
unfolding view step view_step add_connection
view-step c (connect id conn addr) m v new = (
  step-Inv c (connect id conn addr) m new v,
  View-eq _ _ (λ x. ground (arith, lookup-insert id x m.next_ref m.clients)) (λ r x. refl),
)
view-step c (disconnect id) m v new = (
  step-Inv c (disconnect id) m new v,
  View-eq _ _ (λ x. disconnect-connected c id x m) (λ r x. disconnect-inside c id m r x v),
)
view-step c (join id room) m v new = (
  step-Inv c (join id room) m new v,
  View-eq _ _ (λ x. ap (λ d. is_some (lookup x d)) (join_room-clients id room m))
      (λ r x. join-inside id room m r x),
)
view-step c (leave id room) m v new = (
  step-Inv c (leave id room) m new v,
  View-eq _ _ (λ x. ap (λ d. is_some (lookup x d)) (leave_room-clients id room m))
      (λ r x. leave-inside id room m r x v),
)
