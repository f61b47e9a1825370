-- ===== src/Rooms/Housing/Steps.antt =====
-- Each operation on rooms keeps rooms, members and messages together.
use corcy.Prelude.{
  ◌≡◌, ◌≢◌, ◌⊎◌, inl, inr, refl, ap, ◌∷◌, true, some, Text, arith, All-map, All-and, Option,
  Option-cases, trim,
}
use corcy.Store.{Cuid, Time, Room, RoomMember, World, Result-cases}
use corcy.Store.Table.{find_first, count, update, delete_many}
use corcy.Store.Table.Laws.{
  count-first, find_first-holds, unique_row, count-delete_many-le, All-delete_many, All-update,
  All-find_first,
}
use corcy.Plans.Guard.{check_room_limit}
use corcy.Plans.Frame.{check_room_limit-frame}
use corcy.Rooms.{
  has_room_id, is_member, new_room, create_room, delete_room, delete_rooms, ensure_member,
  leave_room, user_left,
}
use corcy.Rooms.Chat.{
  has_room_message_id, edit_room_text, new_room_row, room_send_checks, send_message, edit_message,
}
use corcy.Env.{Env}
use corcy.Messages.{Attachment}
use corcy.Rooms.Housing.{
  Housed, IsThere, OwnerInside, framed-Housed, owner_stays, opened-IsHoused, delete_rooms-Housed,
}

pub create_room-Housed :
    (hash_password : Text → Text) (new_id member_id : Cuid) (now : Time) (user_id : Cuid)
    (name password : Text) (w : World)
    → count (has_room_id new_id) w.rooms ≡ 0
    → Housed w
    → Housed (create_room hash_password new_id member_id now user_id name password w).1
create_room-Housed hash_password new_id member_id now user_id name password w fresh h = elim cases [
  | inl same ↦ rw same kept
  | inr made ↦ rw made (opened-IsHoused v room member kept new_there refl refl)
]
  where
    v : World
    v = (check_room_limit now user_id w).1

    room : Room
    room = new_room hash_password new_id now user_id name password

    member : RoomMember
    member = record { id = member_id; room_id = new_id; user_id = user_id; joined_at = now }

    kept : Housed v
    kept = framed-Housed w v (check_room_limit-frame now user_id w) h

    new_there : count (has_room_id new_id) v.rooms ≡ 0
    new_there = rw (ap (λ (x : World). x.rooms) (check_room_limit-frame now user_id w)) fresh

    cases :
        ((create_room hash_password new_id member_id now user_id name password w).1 ≡ v)
        ⊎ ((create_room hash_password new_id member_id now user_id name password w).1
            ≡ record v { rooms = room ∷ v.rooms; members = member ∷ v.members })
    cases = unfold create_room in ground arith

pub leave_room-Housed :
    (new_id : Cuid) (now : Time) (user_id room_id : Cuid) (w : World)
    → Housed w
    → Housed (leave_room new_id now user_id room_id w).1
leave_room-Housed new_id now user_id room_id w h =
    elim (Option-cases (find_first (has_room_id room_id) w.rooms)) [
      | inl missing ↦
          let same : (leave_room new_id now user_id room_id w).1 ≡ w =
            unfold leave_room in ground (arith, missing) in
          rw same h
      | inr (r, found) ↦ elim (cases r found) [
        | inl same ↦ rw same h
        | inr (other, left) ↦ rw left (emptied r found other)
      ]
    ]
  where
    left_world : World
    left_world = record w {
      room_messages = user_left new_id now room_id user_id ∷ w.room_messages;
      members = delete_many (is_member room_id user_id) w.members;
    }

    cases :
        (r : Room)
        → find_first (has_room_id room_id) w.rooms ≡ some r
        → ((leave_room new_id now user_id room_id w).1 ≡ w)
          ⊎ ((r.owner_id ≢ user_id) × ((leave_room new_id now user_id room_id w).1 ≡ left_world))
    cases r found = unfold leave_room in ground (arith, found)

    emptied :
        (r : Room)
        → find_first (has_room_id room_id) w.rooms ≡ some r
        → r.owner_id ≢ user_id
        → Housed left_world
    emptied r found other = record {
      ids = h.ids;
      once = λ i u. omega (
        arith,
        h.once i u,
        count-delete_many-le (is_member i u) (is_member room_id user_id) w.members,
      );
      housed =
          All-map _
            (All-delete_many (λ m. IsThere w.rooms m.room_id) (is_member room_id user_id) w.members
              h.housed)
            (λ m k. k.0);
      placed = (
        count-first (has_room_id room_id) (has_room_id room_id) w.rooms r found
            (find_first-holds (has_room_id room_id) w.rooms r found),
        h.placed,
      );
      owned =
          All-map w.rooms
            (All-and (OwnerInside w.members) (λ x. has_room_id room_id x ≡ true → x ≡ r) w.rooms
              h.owned (unique_row (has_room_id room_id) w.rooms r (h.ids room_id) found))
            (λ x k.
              let same : room_id ≡ x.id → x.owner_id ≢ user_id =
                λ e. let at : x ≡ r = k.1 (ground arith) in rw at other in
              rw (owner_stays room_id user_id x.id x.owner_id w.members same) k.0);
    }

pub delete_room-Housed :
    (user_id room_id : Cuid) (w : World) → Housed w → Housed (delete_room user_id room_id w).1
delete_room-Housed user_id room_id w h = elim cases [
  | inl same ↦ rw same h
  | inr gone ↦ rw gone (delete_rooms-Housed (has_room_id room_id) w h)
]
  where
    cases :
        ((delete_room user_id room_id w).1 ≡ w)
        ⊎ ((delete_room user_id room_id w).1 ≡ delete_rooms (has_room_id room_id) w)
    cases = unfold delete_room in ground arith

module _ (env : Env) (now : Time) (user_id room_id : Cuid) (w : World) (h : Housed w) where
  pub send_message-Housed :
      (new_id : Cuid) (text : Text) (attachment : Option Attachment) (reply : Option Cuid)
      → Housed (send_message env new_id now user_id room_id text attachment reply w).1
  send_message-Housed new_id text attachment reply =
      elim (Option-cases (find_first (is_member room_id user_id) w.members)) [
        | inl outside ↦
            let same : (send_message env new_id now user_id room_id text attachment reply w).1 ≡ w =
              unfold send_message room_send_checks ensure_member in ground (arith, outside) in
            rw same h
        | inr (m, inside) ↦
            let there : IsThere w.rooms m.room_id =
              All-find_first (λ x. IsThere w.rooms x.room_id) (is_member room_id user_id) w.members
                h.housed inside in
            let at : m.room_id ≡ room_id =
              ground (arith, find_first-holds (is_member room_id user_id) w.members m inside) in
            elim (cases m inside) [
              | inl same ↦ rw same h
              | inr (rooms, (members, (reply_id, messages))) ↦
                  rw (rooms, members, messages)
                    (record {
                      ids = h.ids;
                      once = h.once;
                      housed = h.housed;
                      owned = h.owned;
                      placed = (rw (← at) there, h.placed);
                    })
            ]
      ]
    where
      frame : (room_send_checks env user_id room_id text attachment reply w).1 ≡ w
      frame = unfold room_send_checks ensure_member in ground arith

      cases :
          (m : RoomMember)
          → find_first (is_member room_id user_id) w.members ≡ some m
          → let v = (send_message env new_id now user_id room_id text attachment reply w).1 in
            (v ≡ w)
            ⊎ ((v.rooms ≡ w.rooms)
                × ((v.members ≡ w.members)
                    × ((r : Option Cuid) × (v.room_messages
                          ≡ new_room_row env new_id now user_id room_id text attachment r
                            ∷ w.room_messages))))
      cases m inside =
          elim (Result-cases (room_send_checks env user_id room_id text attachment reply w).0) [
            | inl (f, refused) ↦ inl (unfold send_message in ground (arith, refused, frame))
            | inr (r, passed) ↦ inr (
              unfold send_message in ground (arith, passed, frame),
              (
                unfold send_message in ground (arith, passed, frame),
                (r, unfold send_message in ground (arith, passed, frame)),
              ),
            )
          ]

  pub edit_message-Housed :
      (message_id : Cuid) (text : Text)
      → Housed (edit_message env now user_id room_id message_id text w).1
  edit_message-Housed message_id text = elim cases [
    | inl same ↦ rw same h
    | inr (rooms, (members, messages)) ↦
        rw (rooms, members, messages)
          (record {
            ids = h.ids;
            once = h.once;
            housed = h.housed;
            owned = h.owned;
            placed =
                All-update (has_room_message_id message_id) (edit_room_text env now (trim text))
                  w.room_messages h.placed (λ x k _. k) (λ x k _. k);
          })
  ]
    where
      cases :
          ((edit_message env now user_id room_id message_id text w).1 ≡ w)
          ⊎ (((edit_message env now user_id room_id message_id text w).1.rooms ≡ w.rooms)
              × (((edit_message env now user_id room_id message_id text w).1.members ≡ w.members)
                  × ((edit_message env now user_id room_id message_id text w).1.room_messages
                      ≡ update
                          (has_room_message_id message_id)
                          (edit_room_text env now (trim text))
                          w.room_messages)))
      cases = unfold edit_message ensure_member in ground arith
