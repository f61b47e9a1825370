-- ===== src/Rooms/Members.antt =====
-- Who is in a room: joining, leaving, and what a user who is not in it gets.
use corcy.Prelude.{
  ◌≡◌, ◌≢◌, inl, inr, ap, ◌∙◌, Bool, true, some, ◌∷◌, is_some, Text, arith, Option-cases,
  Bool-cases,
}
use corcy.Store.{Cuid, Time, Room, World, ok, err, not_found, forbidden}
use corcy.Store.Table.{find_first, count, exists, delete_many}
use corcy.Store.Table.Laws.{find_first-eq-exists, count-delete_self, find_first-none}
use corcy.Plans.Guard.{check_room_members_limit}
use corcy.Rooms.{
  has_room_id, is_member, upsert_member, join_room, leave_room, ensure_member, user_left,
}

module _ (verify_password : Text → Text → Bool) (member_id : Cuid) (now : Time)
    (user_id room_id : Cuid) (password : Text) (w : World) where
  upsert-is_member :
      (v : World)
      → is_some (
          find_first
            (is_member room_id user_id)
            (upsert_member member_id now room_id user_id v).members)
        ≡ true
  upsert-is_member v = elim (Bool-cases (exists (is_member room_id user_id) v.members)) [
    | inl there ↦ rw there (find_first-eq-exists (is_member room_id user_id) v.members ∙ there)
    | inr new ↦ rw new (unfold find_first in ground arith)
  ]

  -- A user who joined a room gave a password that passes for it, the room's limit of members did not
  -- refuse, and the user is let in afterwards.
  pub join_room-enters :
      (r : Room)
      → (join_room verify_password member_id now user_id room_id password w).0 ≡ ok r
      → (find_first (has_room_id room_id) w.rooms ≡ some r)
        × (verify_password password r.password_hash ≡ true)
        × ((check_room_members_limit now room_id r.owner_id w).0 ≡ ok tt)
        × ((ensure_member user_id room_id
              (join_room verify_password member_id now user_id room_id password w).1).0
            ≡ ok tt)
  unfolding join_room ensure_member
  join_room-enters r e = elim (Option-cases (find_first (has_room_id room_id) w.rooms)) [
    | inl missing ↦ absurd (ground (arith, missing, e))
    | inr (s, found) ↦
        let same : s ≡ r = ground (arith, found, e) in
        let inside = upsert-is_member (check_room_members_limit now room_id s.owner_id w).1 in
        (
          found ∙ ap some same,
          ground (arith, found, same, e),
          ground (arith, found, same, e),
          ground (arith, found, e, inside),
        )
  ]

module _ (new_id : Cuid) (now : Time) (user_id room_id : Cuid) (w : World) where
  -- A user who left a room is not let in afterwards.
  pub leave_room-leaves :
      (leave_room new_id now user_id room_id w).0 ≡ ok tt
      → (ensure_member user_id room_id (leave_room new_id now user_id room_id w).1).0
        ≡ err forbidden
  unfolding leave_room ensure_member
  leave_room-leaves e =
      let gone =
        find_first-none (is_member room_id user_id)
          (delete_many (is_member room_id user_id) w.members)
          (count-delete_self (is_member room_id user_id) (is_member room_id user_id) w.members
            (λ x k. k)) in
      ground (arith, e, gone)

  -- Leaving a room of another owner without being in it is refused, and yet the room has a message of
  -- the system that the user left.
  pub leave_room-stranger :
      (r : Room)
      → find_first (has_room_id room_id) w.rooms ≡ some r
      → r.owner_id ≢ user_id
      → count (is_member room_id user_id) w.members ≡ 0
      → ((leave_room new_id now user_id room_id w).0 ≡ err not_found)
        × ((leave_room new_id now user_id room_id w).1.room_messages
            ≡ user_left new_id now room_id user_id ∷ w.room_messages)
  unfolding leave_room
  leave_room-stranger r found other outside =
      (ground (arith, found, other, outside), ground (arith, found, other, outside))
