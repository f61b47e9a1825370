-- ===== src/Rooms/Reach.antt =====
-- Runs of the operations on rooms.
use corcy.Prelude.{◌≡◌, Text, arith, Option, Bool, ltb}
use corcy.Store.{Cuid, Time, World, empty_world}
use corcy.Store.Table.{count}
use corcy.Rooms.{has_room_id, create_room, join_room, delete_room, leave_room, cleanup_expired}
use corcy.Rooms.Chat.{send_message, edit_message}
use corcy.Env.{Env}
use corcy.Messages.{Attachment}
use corcy.Rooms.Housing.{Housed, join_room-Housed, delete_rooms-Housed}
use corcy.Rooms.Housing.Steps.{
  create_room-Housed, leave_room-Housed, delete_room-Housed, send_message-Housed,
  edit_message-Housed,
}

pub data RoomStep (env : Env) (w : World) (v : World) : Type 0 where
  creates :
      (hash_password : Text → Text) (new_id member_id : Cuid) (now : Time) (user_id : Cuid)
      (name password : Text)
      → count (has_room_id new_id) w.rooms ≡ 0
      → v ≡ (create_room hash_password new_id member_id now user_id name password w).1
      → RoomStep env w v
  joins :
      (verify_password : Text → Text → Bool) (member_id : Cuid) (now : Time)
      (user_id room_id : Cuid) (password : Text)
      → v ≡ (join_room verify_password member_id now user_id room_id password w).1
      → RoomStep env w v
  leaves :
      (new_id : Cuid) (now : Time) (user_id room_id : Cuid)
      → v ≡ (leave_room new_id now user_id room_id w).1
      → RoomStep env w v
  deletes : (user_id room_id : Cuid) → v ≡ (delete_room user_id room_id w).1 → RoomStep env w v
  cleans : (now : Time) → v ≡ (cleanup_expired now w).1 → RoomStep env w v
  speaks :
      (new_id : Cuid) (now : Time) (user_id room_id : Cuid) (text : Text)
      (attachment : Option Attachment) (reply : Option Cuid)
      → v ≡ (send_message env new_id now user_id room_id text attachment reply w).1
      → RoomStep env w v
  corrects :
      (now : Time) (user_id room_id message_id : Cuid) (text : Text)
      → v ≡ (edit_message env now user_id room_id message_id text w).1
      → RoomStep env w v
  elsewhere :
      v.rooms ≡ w.rooms
      → v.members ≡ w.members
      → v.room_messages ≡ w.room_messages
      → RoomStep env w v

pub data RoomReach (env : Env) (w : World) : World → Type 0 where
  here : RoomReach env w w
  next : {v u : World} → RoomReach env w v → RoomStep env v u → RoomReach env w u

module _ {env : Env} where
  RoomStep-Housed : {w v : World} → RoomStep env w v → Housed w → Housed v
  RoomStep-Housed {w} (creates p n m t u x y fresh e) h =
      rw e (create_room-Housed p n m t u x y w fresh h)
  RoomStep-Housed {w} (joins p m t u r x e) h = rw e (join_room-Housed p m t u r x w h)
  RoomStep-Housed {w} (leaves n t u r e) h = rw e (leave_room-Housed n t u r w h)
  RoomStep-Housed {w} (deletes u r e) h = rw e (delete_room-Housed u r w h)
  RoomStep-Housed {w} (cleans t e) h =
      rw e (unfold cleanup_expired in delete_rooms-Housed (λ r. ltb r.expires_at t) w h)
  RoomStep-Housed {w} (speaks n t u r x a p e) h = rw e (send_message-Housed env t u r w h n x a p)
  RoomStep-Housed {w} (corrects t u r m x e) h = rw e (edit_message-Housed env t u r w h m x)
  RoomStep-Housed (elsewhere rs ms xs) h = rw (rs, ms, xs) h

  -- Whatever room operations ran, successful or not, no user is in a room twice, members and messages
  -- are of rooms that are there, and every owner is in the own room, if so at the start and new rooms
  -- get new ids.
  pub RoomReach-Housed : {w v : World} → RoomReach env w v → Housed w → Housed v
  RoomReach-Housed here h = h
  RoomReach-Housed (next r s) h = RoomStep-Housed s (RoomReach-Housed r h)

pub empty_world-Housed : Housed empty_world
unfolding count
empty_world-Housed = record {
  ids = λ i. omega arith;
  once = λ i u. omega arith;
  housed = tt;
  placed = tt;
  owned = tt;
}
