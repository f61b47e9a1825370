-- ===== src/Gateway/Calls.antt =====
-- backend/src/chat/chat.gateway.ts: the messages of sockets, which are the chat rooms that a socket
-- joins and the signals of calls. A client's user is the id that `handleConnection` stored; session
-- descriptions and candidates are texts; the start of an id is the parameter `id_start`.
pub mod Offline
use mathlib.Core.Option
use corcy.Prelude.{
  ℕ, Bool, true, false, not, ◌&&◌, ◌||◌, Option, none, some, List, [], ◌∷◌, ◌++◌, map, ◌==◌,
  is_some, or_else, Text, codes, if◌then◌else◌,
}
use corcy.Store.{Cuid, present_id, Room, RoomMember, Push, World}
use corcy.Store.Table.{find_first, find_many, exists, delete_many}
use corcy.Plans.Guard.{has_id}
use corcy.Messages.{display_name}
use corcy.Rooms.{is_member, has_room_id}
use corcy.Gateway.{Sockets, is_online}

-- The payloads, each with the user who sends it.
pub data CallEvent : Type 0 where
  call_incoming : Cuid → Text → Text → CallEvent
  call_answered call_ice_candidate : Cuid → Text → CallEvent
  call_rejected call_ended call_busy : Cuid → CallEvent
  -- the user, the room, the user's name, the room's name
  gcall_peer_joined : Cuid → Cuid → Text → Text → CallEvent
  gcall_offer gcall_answer gcall_ice_candidate : Cuid → Cuid → Text → CallEvent
  gcall_peer_left : Cuid → Cuid → CallEvent

pub data Signal : Type 0 where
  to_user : Cuid → CallEvent → Signal
  to_room : Cuid → CallEvent → Signal
  -- `client.emit('roomError', …)`
  room_error : ℕ → Cuid → Signal

-- The socket.io rooms of chat rooms: a socket and a room that it joined.
abbrev pub Joined : Type 0
Joined = List (ℕ × Cuid)

abbrev pub is_entry : ℕ → Cuid → ℕ × Cuid → Bool
is_entry socket room_id e = e.0 == socket && e.1 == room_id

unfoldable pub handle_join_room :
    ℕ → Option Cuid → Option Cuid → World → Joined → Joined × List Signal
handle_join_room socket user room w joined = elim (present_id user) [
  | none ↦ (joined, [])
  | some user_id ↦ elim (present_id room) [
    | none ↦ (joined, [])
    | some room_id ↦
        if not (exists (is_member room_id user_id) w.members)
        then (joined, room_error socket room_id ∷ [])
        else if exists (is_entry socket room_id) joined
        then (joined, [])
        else ((socket, room_id) ∷ joined, [])
  ]
]

unfoldable pub handle_leave_room : ℕ → Cuid → Joined → Joined
handle_leave_room socket room_id joined = delete_many (is_entry socket room_id) joined

-- `if (!fromUserId) return`
abbrev pub from_user : Option Cuid → (Cuid → List Signal) → List Signal
from_user user send = elim (present_id user) [ none ↦ [] | some u ↦ send u ]

unfoldable pub handle_call_offer : (Cuid → Text) → Option Cuid → Cuid → Text → World → List Signal
handle_call_offer id_start user to_id offer w = from_user user (λ u.
    to_user to_id
      (call_incoming u (display_name (find_first (has_id u) w.users) (id_start u)) offer)
    ∷ [])

unfoldable pub handle_call_answer : Option Cuid → Cuid → Text → List Signal
handle_call_answer user to_id answer =
    from_user user (λ u. to_user to_id (call_answered u answer) ∷ [])

unfoldable pub handle_ice_candidate : Option Cuid → Cuid → Text → List Signal
handle_ice_candidate user to_id candidate =
    from_user user (λ u. to_user to_id (call_ice_candidate u candidate) ∷ [])

unfoldable pub handle_call_reject : Option Cuid → Cuid → List Signal
handle_call_reject user to_id = from_user user (λ u. to_user to_id (call_rejected u) ∷ [])

unfoldable pub handle_call_end : Option Cuid → Cuid → List Signal
handle_call_end user to_id = from_user user (λ u. to_user to_id (call_ended u) ∷ [])

unfoldable pub handle_call_busy : Option Cuid → Cuid → List Signal
handle_call_busy user to_id = from_user user (λ u. to_user to_id (call_busy u) ∷ [])

abbrev of_room : Cuid → RoomMember → Bool
of_room room_id m = m.room_id == room_id

abbrev name_of_room : Option Room → Text
name_of_room none = codes "Комната"
name_of_room (some r) = r.name

-- `memberId !== userId && !this.isOnline(memberId)`
abbrev pub is_called : Cuid → Sockets → RoomMember → Bool
is_called user_id sockets m = not (m.user_id == user_id) && not (is_online m.user_id sockets)

-- The code units of '📞 ' before the name.
abbrev call_push : Text → RoomMember → Push
call_push name m = record {
  user_id = m.user_id;
  title = 0xD83D ∷ 0xDCDE ∷ 32 ∷ (name ++ codes " начал звонок");
  body = codes "Нажмите чтобы присоединиться к групповому звонку";
}

abbrev called_members : Cuid → Cuid → World → List RoomMember
called_members user_id room_id w =
    find_many (is_called user_id w.user_sockets) (find_many (of_room room_id) w.members)

unfoldable pub handle_group_call_join : Option Cuid → Option Cuid → World → List Signal × List Push
handle_group_call_join user room w = elim (present_id user) [
  | none ↦ ([], [])
  | some user_id ↦ elim (present_id room) [
    | none ↦ ([], [])
    | some room_id ↦
        if not (exists (is_member room_id user_id) w.members)
        then ([], [])
        else let name = display_name (find_first (has_id user_id) w.users) (codes "Участник") in
          (
            to_room room_id (
                  gcall_peer_joined user_id room_id name
                    (name_of_room (find_first (has_room_id room_id) w.rooms)))
                ∷ [],
            map (call_push name) (called_members user_id room_id w),
          )
  ]
]

-- The relays of a group call, from the user to another, of a text that is not empty.
abbrev relay :
    (Cuid → Cuid → Text → CallEvent)
    → Option Cuid
    → Option Cuid
    → Option Cuid
    → Option Text
    → List Signal
relay event user room to_id payload = from_user user (λ u. elim (present_id to_id) [
  | none ↦ []
  | some t ↦ elim payload [
    | none ↦ []
    | some p ↦ elim (present_id room) [ none ↦ [] | some r ↦ to_user t (event u r p) ∷ [] ]
  ]
])

unfoldable pub handle_group_call_offer :
    Option Cuid → Option Cuid → Option Cuid → Option Text → List Signal
handle_group_call_offer user room to_id offer = relay gcall_offer user room to_id offer

unfoldable pub handle_group_call_answer :
    Option Cuid → Option Cuid → Option Cuid → Option Text → List Signal
handle_group_call_answer user room to_id answer = relay gcall_answer user room to_id answer

unfoldable pub handle_group_call_ice :
    Option Cuid → Option Cuid → Option Cuid → Option Text → List Signal
handle_group_call_ice user room to_id candidate =
    relay gcall_ice_candidate user room to_id candidate

unfoldable pub handle_group_call_leave : Option Cuid → Option Cuid → List Signal
handle_group_call_leave user room =
    from_user user
      (λ u. elim (present_id room) [ none ↦ [] | some r ↦ to_room r (gcall_peer_left u r) ∷ [] ])
