-- ===== src/WebSocket/Manager/Rooms.antt =====
-- The room table of internal/websocket/manager.go, as a relation between rooms and connection ids.
use maboo.Base.{
  ℕ, ◌≡◌, ◌≢◌, refl, inl, inr, String, Bool, true, false, ◌&&◌, ◌||◌, Option, none, some, List, [],
  ◌∷◌, str_eq, str_eq_iff, if◌then◌else◌, arith, Bool-cases, Option-cases, subst,
}
use maboo.Base.Dict.{
  Dict, lookup, insert, delete, keys, lookup-insert, lookup-delete, lookup-none, Uniq, insert-Uniq,
  delete-Uniq,
}
use maboo.WebSocket.Manager.{or_empty, store_members, drop_member, drop_all}

abbrev pub members_of : Dict (Dict ℕ) → String → Dict ℕ
members_of rooms r = or_empty (lookup r rooms)

-- The client that a room holds under an id.
unfoldable pub find_member : Dict (Dict ℕ) → String → String → Option ℕ
find_member rooms r x = lookup x (members_of rooms r)

members_of-store :
    (room r : String) (ms : Dict ℕ) (rooms : Dict (Dict ℕ))
    → members_of (store_members room ms rooms) r
      ≡ (if str_eq room r then ms else members_of rooms r)
unfolding store_members
members_of-store room r [] rooms = ground (arith, lookup-delete room r rooms)
members_of-store room r (e ∷ ms) rooms = ground (arith, lookup-insert room r (e ∷ ms) rooms)

pub find_member-drop_member :
    (id room r x : String) (rooms : Dict (Dict ℕ))
    → find_member (drop_member id room rooms) r x
      ≡ (if str_eq room r && str_eq id x then none else find_member rooms r x)
unfolding find_member drop_member
find_member-drop_member id room r x rooms = elim (Option-cases (lookup room rooms)) [
  | inl e ↦ ground (arith, e, str_eq_iff room r, lookup-none {V = ℕ} x)
  | inr (ms, e) ↦ ground (
    arith,
    e,
    str_eq_iff room r,
    members_of-store room r (delete id ms) rooms,
    lookup-delete id x ms,
  )
]

pub find_member-join :
    (id room r x : String) (ref : ℕ) (rooms : Dict (Dict ℕ))
    → find_member (insert room (insert id ref (members_of rooms room)) rooms) r x
      ≡ (if str_eq room r && str_eq id x then some ref else find_member rooms r x)
unfolding find_member
find_member-join id room r x ref rooms = ground (
  arith,
  str_eq_iff room r,
  lookup-insert room r (insert id ref (members_of rooms room)) rooms,
  lookup-insert id x ref (members_of rooms room),
)

pub contains_key : String → List String → Bool
contains_key r [] = false
contains_key r (k ∷ ks) = str_eq k r || contains_key r ks

pub find_member-drop_all :
    (id : String) (ks : List String) (r x : String) (rooms : Dict (Dict ℕ))
    → find_member (drop_all id ks rooms) r x
      ≡ (if contains_key r ks && str_eq id x then none else find_member rooms r x)
unfolding drop_all contains_key
find_member-drop_all id [] r x rooms = refl
find_member-drop_all id (k ∷ ks) r x rooms = ground (
  arith,
  find_member-drop_all id ks r x (drop_member id k rooms),
  find_member-drop_member id k r x rooms,
)

-- A key is in the list of keys exactly when it can be looked up.
pub contains_key-keys :
    {V : Type 0} (r : String) (d : Dict V) (v : V)
    → lookup r d ≡ some v
    → contains_key r (keys d) ≡ true
unfolding lookup keys contains_key
contains_key-keys r [] v h = cc
contains_key-keys r ((k, w) ∷ d) v h = ground (arith, contains_key-keys r d v)

pub keys-contains_key :
    {V : Type 0} (r : String) (d : Dict V)
    → contains_key r (keys d) ≡ true
    → (v : V) × (lookup r d ≡ some v)
unfolding lookup keys contains_key
keys-contains_key r [] h = absurd (cc)
keys-contains_key r ((k, w) ∷ d) h = elim (Bool-cases (str_eq k r)) [
  | inl e ↦ (w, rw e refl)
  | inr e ↦ rw e (keys-contains_key r d (ground arith))
]

-- No room is kept without members, and no table holds a key twice.
pub record IsTidy (rooms : Dict (Dict ℕ)) : Type 0 where
  pub nonempty : (r : String) → lookup r rooms ≢ some []
  pub uniq_rooms : Uniq rooms
  pub uniq_members : (r : String) (ms : Dict ℕ) → lookup r rooms ≡ some ms → Uniq ms

insert-ne-nil : (id : String) (ref : ℕ) (ms : Dict ℕ) → insert id ref ms ≢ []
unfolding insert
insert-ne-nil id ref [] e = cc
insert-ne-nil id ref ((k, v) ∷ ms) e = ground arith

members_of-Uniq : (rooms : Dict (Dict ℕ)) (r : String) → IsTidy rooms → Uniq (members_of rooms r)
members_of-Uniq rooms r t = elim (Option-cases (lookup r rooms)) [
  | inl e ↦ rw e tt
  | inr (ms, e) ↦ rw e (t.uniq_members r ms e)
]

pub join-IsTidy :
    (id room : String) (ref : ℕ) (rooms : Dict (Dict ℕ))
    → IsTidy rooms
    → IsTidy (insert room (insert id ref (members_of rooms room)) rooms)
join-IsTidy id room ref rooms t =
    let ms : Dict ℕ = insert id ref (members_of rooms room) in
    record {
      nonempty = λ r e. ground (
        arith,
        lookup-insert room r ms rooms,
        t.nonempty r,
        insert-ne-nil id ref (members_of rooms room),
      );
      uniq_rooms = insert-Uniq room ms rooms t.uniq_rooms;
      uniq_members = λ r ns e. elim (Bool-cases (str_eq room r)) [
        | inl h ↦
            subst Uniq (ground (arith, h, lookup-insert room r ms rooms))
              (insert-Uniq id ref (members_of rooms room) (members_of-Uniq rooms room t))
        | inr h ↦ t.uniq_members r ns (ground (arith, h, lookup-insert room r ms rooms))
      ];
    }

store-IsTidy :
    (room : String) (ms : Dict ℕ) (rooms : Dict (Dict ℕ))
    → Uniq ms
    → IsTidy rooms
    → IsTidy (store_members room ms rooms)
unfolding store_members
store-IsTidy room [] rooms u t = record {
  nonempty = λ r e. ground (arith, lookup-delete room r rooms, t.nonempty r);
  uniq_rooms = delete-Uniq room rooms t.uniq_rooms;
  uniq_members = λ r ns e. t.uniq_members r ns (ground (arith, lookup-delete room r rooms));
}
store-IsTidy room (m ∷ ms) rooms u t = record {
  nonempty = λ r e. ground (arith, lookup-insert room r (m ∷ ms) rooms, t.nonempty r);
  uniq_rooms = insert-Uniq room (m ∷ ms) rooms t.uniq_rooms;
  uniq_members = λ r ns e. elim (Bool-cases (str_eq room r)) [
    | inl h ↦ subst Uniq {x = m ∷ ms} (ground (arith, h, lookup-insert room r (m ∷ ms) rooms)) u
    | inr h ↦ t.uniq_members r ns (ground (arith, h, lookup-insert room r (m ∷ ms) rooms))
  ];
}

pub drop_member-IsTidy :
    (id room : String) (rooms : Dict (Dict ℕ)) → IsTidy rooms → IsTidy (drop_member id room rooms)
unfolding drop_member
drop_member-IsTidy id room rooms t = elim (Option-cases (lookup room rooms)) [
  | inl e ↦ rw (e, drop_member) t
  | inr (ms, e) ↦
      rw (e, drop_member)
        (store-IsTidy room (delete id ms) rooms (delete-Uniq id ms (t.uniq_members room ms e)) t)
]

pub drop_all-IsTidy :
    (id : String) (ks : List String) (rooms : Dict (Dict ℕ))
    → IsTidy rooms
    → IsTidy (drop_all id ks rooms)
unfolding drop_all
drop_all-IsTidy id [] rooms t = t
drop_all-IsTidy id (k ∷ ks) rooms t =
    drop_all-IsTidy id ks (drop_member id k rooms) (drop_member-IsTidy id k rooms t)
