-- ===== src/Gateway/Calls/Offline.antt =====
-- Whom the start of a group call calls.
use corcy.Prelude.{
  ◌≡◌, inl, inr, Bool, not, ◌&&◌, ◌==◌, some, List, [], ◌∷◌, map, Text, codes, ◌<◌, arith,
  Bool-cases, if◌then◌else◌,
}
use corcy.Store.{Cuid, RoomMember, Push, World}
use corcy.Store.Table.{count, find_first, exists, find_many}
use corcy.Messages.{display_name}
use corcy.Plans.Guard.{has_id}
use corcy.Rooms.{is_member}
use corcy.Gateway.{Sockets, is_online}
use corcy.Gateway.Calls.{is_called, call_push, of_room, handle_group_call_join}

abbrev pub pushed : Cuid → Push → Bool
pushed m p = p.user_id == m

count-called :
    (name : Text) (user_id room_id m : Cuid) (sockets : Sockets) (ms : List RoomMember)
    → count (pushed m) (
        map
          (call_push name)
          (find_many (is_called user_id sockets) (find_many (of_room room_id) ms)))
      ≡ (if not (m == user_id) && not (is_online m sockets)
          then count (is_member room_id m) ms
          else 0)
unfolding count find_many
count-called name user_id room_id m sockets [] = ground arith
count-called name user_id room_id m sockets (x ∷ xs) = elim (Bool-cases (x.user_id == m)) [
  | inl same ↦
      let e : x.user_id ≡ m = ground arith in
      rw e (ground (arith, count-called name user_id room_id m sockets xs))
  | inr other ↦ ground (arith, other, count-called name user_id room_id m sockets xs)
]

-- A member of the room who joins the call pushes once to each row of a member who is someone else
-- and has no socket connected, and to nobody else; who is no member pushes to nobody.
pub handle_group_call_join-pushed :
    (user_id room_id m : Cuid) (w : World)
    → 0 < user_id
    → 0 < room_id
    → count (pushed m) (handle_group_call_join (some user_id) (some room_id) w).1 ≡ (
        if exists (is_member room_id user_id) w.members
          && (not (m == user_id) && not (is_online m w.user_sockets))
        then count (is_member room_id m) w.members
        else 0)
handle_group_call_join-pushed user_id room_id m w u r =
    let name = display_name (find_first (has_id user_id) w.users) (codes "Участник") in
    elim (Bool-cases (exists (is_member room_id user_id) w.members)) [
      | inl member ↦
          unfold handle_group_call_join in
          ground (arith, u, r, member, count-called name user_id room_id m w.user_sockets w.members)
      | inr stranger ↦ unfold handle_group_call_join count in ground (arith, u, r, stranger)
    ]
