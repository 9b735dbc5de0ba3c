-- ===== src/WebSocket/Manager/Invariant.antt =====
-- The tables of internal/websocket/manager.go agree, and every method keeps them so.
use maboo.Base.{
  ℕ, ◌<◌, ◌≡◌, inl, inr, String, Bool, true, none, some, List, str_eq_iff, arith, Option-cases,
}
use maboo.Base.Dict.{
  Dict, lookup, keys, lookup-insert, lookup-delete, lookup-none, Uniq, insert-Uniq, delete-Uniq,
}
use maboo.Protocol.Messages.{Codec, StreamHeader}
use maboo.WebSocket.Manager.{
  Manager, new_manager, add_connection, remove_connection, join_room, leave_room, update,
}
use maboo.WebSocket.Manager.Rooms.{
  find_member, find_member-drop_member, find_member-join, find_member-drop_all, contains_key-keys,
  IsTidy, join-IsTidy, drop_member-IsTidy, drop_all-IsTidy,
}

-- The table of clients, the room table and the clients' own room sets agree: a client is stored under
-- its id, a room holds a client exactly when the client is connected and has that room in its set,
-- and no room is empty.
pub record Inv (m : Manager) : Type 0 where
  pub client_id : (x : String) (ref : ℕ) → lookup x m.clients ≡ some ref → (m.heap ref).id ≡ x
  pub client_ref : (x : String) (ref : ℕ) → lookup x m.clients ≡ some ref → ref < m.next_ref
  pub member_client :
      (r x : String) (ref : ℕ)
      → find_member m.rooms r x ≡ some ref
      → (lookup x m.clients ≡ some ref) × (lookup r (m.heap ref).rooms ≡ some true)
  pub client_member :
      (r x : String) (ref : ℕ) (b : Bool)
      → lookup x m.clients ≡ some ref
      → lookup r (m.heap ref).rooms ≡ some b
      → find_member m.rooms r x ≡ some ref
  pub uniq_clients : Uniq m.clients
  pub tidy : IsTidy m.rooms

pub new_manager-Inv : Inv new_manager
unfolding new_manager find_member lookup
new_manager-Inv = record {
  client_id = λ x ref e. cc;
  client_ref = λ x ref e. absurd (cc);
  member_client = λ r x ref e. absurd (cc);
  client_member = λ r x ref b e. cc;
  uniq_clients = tt;
  tidy = record { nonempty = λ r e. cc; uniq_rooms = tt; uniq_members = λ r ms e. absurd (cc) };
}

-- A connection whose id is not in use.
pub add_connection-Inv :
    (c : Codec StreamHeader) (id : String) (conn : ℕ) (addr : String) (m : Manager)
    → lookup id m.clients ≡ none
    → Inv m
    → Inv (add_connection c id conn addr m).0
unfolding add_connection update
add_connection-Inv c id conn addr m new v = record {
  client_id = λ x ref e. ground (
    arith,
    lookup-insert id x m.next_ref m.clients,
    str_eq_iff id x,
    v.client_id x ref,
    v.client_ref x ref,
  );
  client_ref =
      λ x ref e. ground (arith, lookup-insert id x m.next_ref m.clients, v.client_ref x ref);
  member_client = λ r x ref e. ground (
    arith,
    v.member_client r x ref e,
    lookup-insert id x m.next_ref m.clients,
    str_eq_iff id x,
    v.client_ref x ref,
  );
  client_member = λ r x ref b e f. ground (
    arith,
    lookup-insert id x m.next_ref m.clients,
    str_eq_iff id x,
    v.client_ref x ref,
    v.client_member r x ref b,
    lookup-none {V = Bool} r,
  );
  uniq_clients = insert-Uniq id m.next_ref m.clients v.uniq_clients;
  tidy = v.tidy;
}

module _ (id room : String) (m : Manager) (ref : ℕ) (known : lookup id m.clients ≡ some ref)
    (v : Inv m) where
  join_room-known : Inv (join_room id room m)
  unfolding join_room update
  join_room-known =
      let set : Dict Bool = (m.heap ref).rooms in
      rw (known, join_room)
        (record {
          client_id = λ x k e. ground (arith, v.client_id x k e, v.client_id id ref known);
          client_ref = v.client_ref;
          member_client = λ r x k e. ground (
            arith,
            known,
            find_member-join id room r x ref m.rooms,
            str_eq_iff room r,
            str_eq_iff id x,
            v.member_client r x k,
            lookup-insert room r true set,
          );
          client_member = λ r x k b e f. ground (
            arith,
            known,
            find_member-join id room r x ref m.rooms,
            str_eq_iff room r,
            str_eq_iff id x,
            v.client_member r x k b e,
            v.client_id x k e,
            v.client_id id ref known,
            lookup-insert room r true set,
          );
          uniq_clients = v.uniq_clients;
          tidy = join-IsTidy id room ref m.rooms v.tidy;
        })

  leave_room-known : Inv (leave_room id room m)
  unfolding leave_room update
  leave_room-known =
      let set : Dict Bool = (m.heap ref).rooms in
      rw (known, leave_room)
        (record {
          client_id = λ x k e. ground (arith, v.client_id x k e, v.client_id id ref known);
          client_ref = v.client_ref;
          member_client = λ r x k e. ground (
            arith,
            known,
            find_member-drop_member id room r x m.rooms,
            str_eq_iff room r,
            str_eq_iff id x,
            v.member_client r x k,
            v.client_id x k,
            v.client_id id ref,
            lookup-delete room r set,
          );
          client_member = λ r x k b e f. ground (
            arith,
            known,
            find_member-drop_member id room r x m.rooms,
            str_eq_iff room r,
            str_eq_iff id x,
            v.client_member r x k b e,
            v.client_id x k e,
            v.client_id id ref known,
            lookup-delete room r set,
          );
          uniq_clients = v.uniq_clients;
          tidy = drop_member-IsTidy id room m.rooms v.tidy;
        })

module _ (id : String) (m : Manager) (ref : ℕ) (known : lookup id m.clients ≡ some ref)
    (v : Inv m) where
  remove_connection-known : (c : Codec StreamHeader) → Inv (remove_connection c id m).0
  unfolding remove_connection
  remove_connection-known c =
      let ks : List String = keys (m.heap ref).rooms in
      rw (known, remove_connection)
        (record {
          client_id = λ x k e. ground (arith, lookup-delete id x m.clients, v.client_id x k);
          client_ref = λ x k e. ground (arith, lookup-delete id x m.clients, v.client_ref x k);
          member_client = λ r x k e. ground (
            arith,
            known,
            find_member-drop_all id ks r x m.rooms,
            lookup-delete id x m.clients,
            str_eq_iff id x,
            v.member_client r x k,
            contains_key-keys r (m.heap ref).rooms true,
          );
          client_member = λ r x k b e f. ground (
            arith,
            known,
            find_member-drop_all id ks r x m.rooms,
            lookup-delete id x m.clients,
            str_eq_iff id x,
            v.client_member r x k b,
          );
          uniq_clients = delete-Uniq id m.clients v.uniq_clients;
          tidy = drop_all-IsTidy id ks m.rooms v.tidy;
        })

pub join_room-Inv : (id room : String) (m : Manager) → Inv m → Inv (join_room id room m)
unfolding join_room
join_room-Inv id room m v = elim (Option-cases (lookup id m.clients)) [
  | inl e ↦ rw (e, join_room) v
  | inr (ref, e) ↦ join_room-known id room m ref e v
]

pub leave_room-Inv : (id room : String) (m : Manager) → Inv m → Inv (leave_room id room m)
unfolding leave_room
leave_room-Inv id room m v = elim (Option-cases (lookup id m.clients)) [
  | inl e ↦ rw (e, leave_room) v
  | inr (ref, e) ↦ leave_room-known id room m ref e v
]

pub remove_connection-Inv :
    (c : Codec StreamHeader) (id : String) (m : Manager) → Inv m → Inv (remove_connection c id m).0
unfolding remove_connection
remove_connection-Inv c id m v = elim (Option-cases (lookup id m.clients)) [
  | inl e ↦ rw (e, remove_connection) v
  | inr (ref, e) ↦ remove_connection-known id m ref e v c
]
