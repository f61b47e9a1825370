-- ===== src/Rooms.antt =====
-- backend/src/rooms/rooms.service.ts: rooms and their members. The password hash of
-- backend/src/security/password.util.ts is a library's: `hash_password` and `verify_password`.
pub mod Chat
pub mod Members
pub mod Housing
pub mod Reach
use corcy.Prelude.{
  ℕ, ◌+◌, ◌*◌, Bool, true, false, not, ◌&&◌, ◌||◌, Option, none, some, List, [], ◌∷◌, map, ◌==◌,
  ltb, is_some, Text, codes, is_empty, trim, if◌then◌else◌,
}
use corcy.Store.{
  Cuid, Time, Room, RoomMember, RoomMessage, World, Fault, not_found, forbidden, wrong_password,
  owner_cannot_leave, Exec, pure, throw, read, write, throw_if, some_or, continue, ◌>>=◌, ◌>>◌,
}
use corcy.Store.Table.{find_first, find_many, count, exists, delete_many}
use corcy.Store.Order.{sort_desc, sort_asc}
use corcy.Plans.Guard.{check_room_limit, check_room_members_limit}

abbrev pub has_room_id : Cuid → Room → Bool
has_room_id room_id r = r.id == room_id

abbrev pub is_member : Cuid → Cuid → RoomMember → Bool
is_member room_id user_id m = m.room_id == room_id && m.user_id == user_id

-- A room that a deletion takes has the id.
abbrev pub is_doomed : (Room → Bool) → World → Cuid → Bool
is_doomed p w room_id = exists (λ r. has_room_id room_id r && p r) w.rooms

-- `replyTo` is set to null where the message it names goes with its room.
abbrev pub forget_doomed : (Room → Bool) → World → RoomMessage → RoomMessage
forget_doomed p w m = elim m.reply_to_id [
  | none ↦ m
  | some i ↦
      if exists (λ (x : RoomMessage). x.id == i && is_doomed p w x.room_id) w.room_messages
      then record m { reply_to_id = none }
      else m
]

-- `room.delete`, `room.deleteMany`, with what the schema deletes along.
unfoldable pub delete_rooms : (Room → Bool) → World → World
delete_rooms p w = record w {
  rooms = delete_many p w.rooms;
  members = delete_many (λ (m : RoomMember). is_doomed p w m.room_id) w.members;
  room_messages =
      map (forget_doomed p w)
        (delete_many (λ (m : RoomMessage). is_doomed p w m.room_id) w.room_messages);
}

unfoldable pub cleanup_expired : Time → Exec (Unit {0})
cleanup_expired now = write (delete_rooms (λ r. ltb r.expires_at now))

pub record RoomView : Type 0 where
  pub id : Cuid
  pub name : Text
  pub owner_id : Cuid
  pub joined_at : Time
  pub expires_at : Time
  pub is_owner : Bool

abbrev room_view : Cuid → RoomMember → Room → RoomView
room_view user_id m r = record {
  id = r.id;
  name = r.name;
  owner_id = r.owner_id;
  joined_at = m.joined_at;
  expires_at = r.expires_at;
  is_owner = r.owner_id == user_id;
}

-- The memberships with the rooms that the query joins; by the foreign key none is without one.
pub room_views : Cuid → List Room → List RoomMember → List RoomView
room_views user_id rooms [] = []
room_views user_id rooms (m ∷ ms) =
    let rest = room_views user_id rooms ms in
    elim (find_first (has_room_id m.room_id) rooms) [
      | none ↦ rest
      | some r ↦ room_view user_id m r ∷ rest
    ]

unfoldable pub list_rooms : Cuid → Exec (List RoomView)
unfolding room_views
list_rooms user_id = read (λ w. room_views user_id w.rooms (
    sort_desc (λ (m : RoomMember). m.joined_at)
      (find_many (λ (m : RoomMember). m.user_id == user_id) w.members)))

-- `name.trim() || 'Комната'`
abbrev pub room_name : Text → Text
room_name name = if is_empty (trim name) then codes "Комната" else trim name

-- 10 * 24 * 60 * 60 * 1000
abbrev pub room_lifetime_ms : ℕ
room_lifetime_ms = 864000000

abbrev pub new_room : (Text → Text) → Cuid → Time → Cuid → Text → Text → Room
new_room hash_password new_id now user_id name password = record {
  id = new_id;
  name = room_name name;
  password_hash = hash_password password;
  owner_id = user_id;
  expires_at = now + room_lifetime_ms;
}

unfoldable pub create_room : (Text → Text) → Cuid → Cuid → Time → Cuid → Text → Text → Exec Room
create_room hash_password new_id member_id now user_id name password = do
  check_room_limit now user_id
  let room = new_room hash_password new_id now user_id name password
  write (λ w. record w {
    rooms = room ∷ w.rooms;
    members =
        record { id = member_id; room_id = new_id; user_id = user_id; joined_at = now } ∷ w.members;
  })
  pure room

-- `roomMember.upsert` with an empty `update`.
abbrev pub upsert_member : Cuid → Time → Cuid → Cuid → World → World
upsert_member member_id now room_id user_id w =
    if exists (is_member room_id user_id) w.members then w else record w {
      members =
          record { id = member_id; room_id = room_id; user_id = user_id; joined_at = now }
          ∷ w.members;
    }

unfoldable pub join_room : (Text → Text → Bool) → Cuid → Time → Cuid → Cuid → Text → Exec Room
join_room verify_password member_id now user_id room_id password = do
  found ← read (λ w. find_first (has_room_id room_id) w.rooms)
  r ← some_or found not_found
  check_room_members_limit now room_id r.owner_id
  throw_if (not (verify_password password r.password_hash)) wrong_password
  write (upsert_member member_id now room_id user_id)
  pure r

unfoldable pub delete_room : Cuid → Cuid → Exec (Unit {0})
delete_room user_id room_id = do
  found ← read (λ w. find_first (has_room_id room_id) w.rooms)
  r ← some_or found not_found
  throw_if (not (r.owner_id == user_id)) forbidden
  write (delete_rooms (has_room_id room_id))

-- The message of the system that a user has left.
abbrev pub user_left : Cuid → Time → Cuid → Cuid → RoomMessage
user_left new_id now room_id user_id = record {
  id = new_id;
  room_id = room_id;
  sender_id = user_id;
  text = [];
  system_event_type = some (codes "user_left");
  attachment_url = none;
  attachment_name = none;
  attachment_type = none;
  created_at = now;
  edited_at = none;
  reply_to_id = none;
}

unfoldable pub leave_room : Cuid → Time → Cuid → Cuid → Exec (Unit {0})
leave_room new_id now user_id room_id = do
  found ← read (λ w. find_first (has_room_id room_id) w.rooms)
  r ← some_or found not_found
  throw_if (r.owner_id == user_id) owner_cannot_leave
  write (λ w. record w { room_messages = user_left new_id now room_id user_id ∷ w.room_messages })
  deleted ← read (λ w. count (is_member room_id user_id) w.members)
  write (λ w. record w { members = delete_many (is_member room_id user_id) w.members })
  throw_if (deleted == 0) not_found

unfoldable pub ensure_member : Cuid → Cuid → Exec (Unit {0})
ensure_member user_id room_id = do
  m ← read (λ w. find_first (is_member room_id user_id) w.members)
  throw_if (not (is_some m)) forbidden

-- The members' ids and the times they joined.
unfoldable pub list_members : Cuid → Cuid → Exec (List RoomMember)
unfolding ensure_member
list_members user_id room_id = do
  ensure_member user_id room_id
  read (λ w.
      sort_asc (λ (m : RoomMember). m.joined_at)
        (find_many (λ (m : RoomMember). m.room_id == room_id) w.members))
