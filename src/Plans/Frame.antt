-- ===== src/Plans/Frame.antt =====
-- The plan guard writes only the users: a plan that has run out is taken back.
use corcy.Prelude.{◌≡◌, arith}
use corcy.Store.{Cuid, Time, World}
use corcy.Plans.Guard.{
  check_invite_limit, check_room_limit, check_room_members_limit, check_contacts_limit,
}

-- The world with the users of another one.
abbrev pub with_users : World → World → World
with_users w v = record w { users = v.users }

module _ (now : Time) (user_id : Cuid) (w : World) where
  pub check_contacts_limit-frame :
      (check_contacts_limit now user_id w).1 ≡ with_users w (check_contacts_limit now user_id w).1
  unfolding check_contacts_limit
  check_contacts_limit-frame = ground arith

  pub check_invite_limit-frame :
      (check_invite_limit now user_id w).1 ≡ with_users w (check_invite_limit now user_id w).1
  unfolding check_invite_limit
  check_invite_limit-frame = ground arith

  pub check_room_limit-frame :
      (check_room_limit now user_id w).1 ≡ with_users w (check_room_limit now user_id w).1
  unfolding check_room_limit
  check_room_limit-frame = ground arith

  pub check_room_members_limit-frame :
      (room_id : Cuid)
      → (check_room_members_limit now room_id user_id w).1
        ≡ with_users w (check_room_members_limit now room_id user_id w).1
  unfolding check_room_members_limit
  check_room_members_limit-frame room_id = ground arith
