-- ===== src/Examples/Groups.antt =====
-- A room of one user that another one joins and leaves, and a second factor with a backup code.
use corcy.Prelude.{
  ◌≡◌, refl, Bool, true, false, some, [], ◌∷◌, Text, codes, text_eq, is_space, arith,
}
use corcy.Store.{User, Room, RoomMember, World, empty_world, ok, err, not_found}
use corcy.Store.Table.{find_first, count, exists}
use corcy.Plans.Guard.{get_user_plan, check_room_members_limit}
use corcy.Rooms.{has_room_id, create_room, join_room, leave_room, ensure_member, user_left}
use corcy.Rooms.Members.{join_room-enters, leave_room-stranger}
use corcy.Rooms.Housing.{Housed}
use corcy.Rooms.Reach.{creates, joins, elsewhere, here, next, RoomReach-Housed, empty_world-Housed}
use corcy.TwoFactor.{verify_and_consume_backup_code, verify_totp, disable_totp, index_of, without}
use corcy.TwoFactor.Codes.{backup_code_once, disable_totp-refuses}
use corcy.Examples.{alice, strangers, env}

abbrev keep : Text → Text
keep t = t

abbrev club : Room
club = record {
  id = 3;
  name = codes "club";
  password_hash = codes "pw";
  owner_id = 1;
  expires_at = 900000000;
}

abbrev owner_row : RoomMember
owner_row = record { id = 4; room_id = 3; user_id = 1; joined_at = 10 }

abbrev guest_row : RoomMember
guest_row = record { id = 6; room_id = 3; user_id = 2; joined_at = 20 }

abbrev opened : World
opened = record strangers { rooms = club ∷ []; members = owner_row ∷ [] }

abbrev shared : World
shared = record strangers { rooms = club ∷ []; members = guest_row ∷ owner_row ∷ [] }

RoomReach-Housed_example :
    Housed
      (join_room text_eq 6 20 2 3
        (codes "pw")
        (create_room keep 3 4 10 1 (codes "club") (codes "pw") strangers).1).1
RoomReach-Housed_example =
    RoomReach-Housed {env = env} {w = empty_world}
      (next
        (next {u = (create_room keep 3 4 10 1 (codes "club") (codes "pw") strangers).1}
          (next {u = strangers} here (elsewhere refl refl refl))
          (creates keep 3 4 10 1 (codes "club") (codes "pw") (unfold count in refl) refl))
        (joins text_eq 6 20 2 3 (codes "pw") refl))
      empty_world-Housed

join_room-enters_example :
    (find_first (has_room_id 3) opened.rooms ≡ some club)
    × (text_eq (codes "pw") club.password_hash ≡ true)
    × ((check_room_members_limit 20 3 1 opened).0 ≡ ok tt)
    × ((ensure_member 2 3 (join_room text_eq 6 20 2 3 (codes "pw") opened).1).0 ≡ ok tt)
join_room-enters_example = join_room-enters text_eq 6 20 2 3 (codes "pw") opened club (
    unfold join_room check_room_members_limit get_user_plan find_first count exists text_eq in refl)

leave_room-stranger_example :
    ((leave_room 8 30 2 3 opened).0 ≡ err not_found)
    × ((leave_room 8 30 2 3 opened).1.room_messages ≡ user_left 8 30 3 2 ∷ [])
leave_room-stranger_example =
    leave_room-stranger 8 30 2 3 opened club (unfold find_first in refl) (omega arith)
      (unfold count in refl)

abbrev guarded : User
guarded = record alice {
  totp_secret = some (codes "S");
  totp_enabled = true;
  backup_codes = codes "AB" ∷ codes "CD" ∷ [];
}

abbrev guarded_world : World
guarded_world = record empty_world { users = guarded ∷ [] }

abbrev pending_world : World
pending_world = record empty_world {
  users = record alice { pending_totp_secret = some (codes "S") } ∷ [];
}

-- Every six digits pass.
abbrev any_token : Text → Text → Bool
any_token secret token = true

backup_code_once_example :
    verify_and_consume_backup_code keep keep 1
      (codes "A-B")
      (verify_and_consume_backup_code keep keep 1 (codes "A-B") guarded_world).1
    ≡ (ok false, (verify_and_consume_backup_code keep keep 1 (codes "A-B") guarded_world).1)
backup_code_once_example =
    backup_code_once keep keep 1 (codes "A-B") guarded_world guarded (unfold find_first in refl)
      (unfold count without text_eq is_space in omega arith)
      (unfold verify_and_consume_backup_code find_first without text_eq index_of is_space in refl)

disable_totp-refuses_example :
    ((verify_totp any_token 1
        (codes "654321")
        (disable_totp any_token 1 (codes "123456") guarded_world).1).0
      ≡ ok false)
    × ((verify_and_consume_backup_code keep keep 1
          (codes "A-B")
          (disable_totp any_token 1 (codes "123456") guarded_world).1).0
        ≡ ok false)
disable_totp-refuses_example =
    disable_totp-refuses any_token 1 (codes "123456") guarded_world keep keep (codes "654321")
      (codes "A-B") (unfold disable_totp verify_totp find_first in refl)
