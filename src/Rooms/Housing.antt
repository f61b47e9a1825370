-- ===== src/Rooms/Housing.antt =====
-- How rooms, their members and messages fit together.
pub mod Steps
use mathlib.Core.List.{map}
use corcy.Prelude.{
  ℕ, ◌≡◌, ◌≢◌, ◌≤◌, ◌<◌, ◌⊎◌, inl, inr, refl, ap, Bool, false, ◌&&◌, List, [], ◌∷◌, Text, arith,
  All, All-map, All-and, All-map_list, Option-cases, Bool-cases,
}
use corcy.Store.{Cuid, Time, Room, RoomMember, RoomMessage, World}
use corcy.Store.Table.{find_first, count, exists, delete_many}
use corcy.Store.Table.Laws.{
  exists-eq-count, count_split, count-delete_many-le, All-delete_many, count-first,
  find_first-holds,
}
use corcy.Plans.Guard.{check_room_members_limit}
use corcy.Plans.Frame.{with_users, check_room_members_limit-frame}
use corcy.Rooms.{
  has_room_id, is_member, is_doomed, forget_doomed, delete_rooms, upsert_member, join_room,
}

abbrev pub IsThere : List Room → Cuid → Type 0
IsThere rooms i = 0 < count (has_room_id i) rooms

abbrev pub OwnerInside : List RoomMember → Room → Type 0
OwnerInside members r = 0 < count (is_member r.id r.owner_id) members

pub record IsHoused (rooms : List Room) (members : List RoomMember) (messages : List RoomMessage)
    : Type 0 where
  pub ids : (i : Cuid) → count (has_room_id i) rooms ≤ 1
  pub once : (i u : Cuid) → count (is_member i u) members ≤ 1
  pub housed : All (λ m. IsThere rooms m.room_id) members
  pub placed : All (λ m. IsThere rooms m.room_id) messages
  pub owned : All (OwnerInside members) rooms

abbrev pub Housed : World → Type 0
Housed w = IsHoused w.rooms w.members w.room_messages

-- A room that no deletion takes stays.
still-IsThere :
    (p : Room → Bool) (w : World) (i : Cuid)
    → IsThere w.rooms i
    → is_doomed p w i ≡ false
    → IsThere (delete_many p w.rooms) i
still-IsThere p w i there kept = ground (
  arith,
  there,
  kept,
  exists-eq-count (λ r. has_room_id i r && p r) w.rooms,
  count_split (has_room_id i) p w.rooms,
)

doomed-messages :
    (p : Room → Bool) (w : World) (rooms : List Room) (ms : List RoomMessage)
    → All (λ m. IsThere rooms m.room_id) ms
    → All (λ m. IsThere rooms m.room_id) (map (forget_doomed p w) ms)
doomed-messages p w rooms ms h =
    All-map_list (λ m. IsThere rooms m.room_id) (forget_doomed p w) ms
      (All-map ms h (λ m k. same m k))
  where
    same : (m : RoomMessage) → IsThere rooms m.room_id → IsThere rooms (forget_doomed p w m).room_id
    same m k = elim (Option-cases m.reply_to_id) [
      | inl missing ↦ ground (arith, missing, k)
      | inr (i, there) ↦ ground (arith, there, k)
    ]

members_apart :
    (p : Room → Bool) (w : World) (i u : Cuid) (ms : List RoomMember)
    → is_doomed p w i ≡ false
    → count (is_member i u) (delete_many (λ (m : RoomMember). is_doomed p w m.room_id) ms)
      ≡ count (is_member i u) ms
unfolding count delete_many
members_apart p w i u [] kept = refl
members_apart p w i u (m ∷ ms) kept =
    ground (arith, kept, λ (e : m.room_id ≡ i). ap (is_doomed p w) e, members_apart p w i u ms kept)

self-IsThere : (rs : List Room) → All (λ r. IsThere rs r.id) rs
unfolding count
self-IsThere [] = tt
self-IsThere (r ∷ rs) = (ground arith, All-map rs (self-IsThere rs) (λ x k. ground arith))

-- Where ids occur once, a room that is not deleted shares its id with none that is.
kept_apart :
    (p : Room → Bool) (rs : List Room)
    → ((i : Cuid) → count (has_room_id i) rs ≤ 1)
    → All (λ r. p r ≡ false → count (λ x. has_room_id r.id x && p x) rs ≡ 0) rs
unfolding count
kept_apart p [] h = tt
kept_apart p (r ∷ rs) h = (
  λ k. ground (arith, k, h r.id, count_split (has_room_id r.id) p rs),
  All-map rs
      (All-and (λ x. IsThere rs x.id)
        (λ x. p x ≡ false → count (λ y. has_room_id x.id y && p y) rs ≡ 0) rs (self-IsThere rs)
        (kept_apart p rs (λ i. ground (arith, h i))))
      (λ x k e. let tail = k.1 e in ground (arith, k.0, tail, h x.id)),
)

pub delete_rooms-Housed : (p : Room → Bool) (w : World) → Housed w → Housed (delete_rooms p w)
unfolding delete_rooms
delete_rooms-Housed p w h = record {
  ids = λ i. omega (arith, h.ids i, count-delete_many-le (has_room_id i) p w.rooms);
  once = λ i u. omega (
    arith,
    h.once i u,
    count-delete_many-le (is_member i u) (λ (m : RoomMember). is_doomed p w m.room_id) w.members,
  );
  housed =
      All-map _
        (All-delete_many (λ m. IsThere w.rooms m.room_id)
          (λ (m : RoomMember). is_doomed p w m.room_id) w.members h.housed)
        (λ m k. still-IsThere p w m.room_id k.0 k.1);
  placed = doomed-messages p w (delete_many p w.rooms) _ (
      All-map _
        (All-delete_many (λ m. IsThere w.rooms m.room_id)
          (λ (m : RoomMessage). is_doomed p w m.room_id) w.room_messages h.placed)
        (λ m k. still-IsThere p w m.room_id k.0 k.1));
  owned =
      All-map _
        (All-delete_many
          (λ r.
            OwnerInside w.members r
            × (p r ≡ false → count (λ x. has_room_id r.id x && p x) w.rooms ≡ 0))
          p w.rooms
          (All-and (OwnerInside w.members)
            (λ r. p r ≡ false → count (λ x. has_room_id r.id x && p x) w.rooms ≡ 0) w.rooms h.owned
            (kept_apart p w.rooms h.ids)))
        (λ r k.
          let apart = k.0.1 k.1 in
          let kept : is_doomed p w r.id ≡ false =
            ground (arith, apart, exists-eq-count (λ x. has_room_id r.id x && p x) w.rooms) in
          rw (members_apart p w r.id r.owner_id w.members kept) k.0.0);
}

-- Joining makes no membership twice.
pub upsert_member-Housed :
    (member_id : Cuid) (now : Time) (room_id user_id : Cuid) (w : World)
    → IsThere w.rooms room_id
    → Housed w
    → Housed (upsert_member member_id now room_id user_id w)
unfolding count
upsert_member-Housed member_id now room_id user_id w there h =
    elim (Bool-cases (exists (is_member room_id user_id) w.members)) [
      | inl inside ↦ rw inside h
      | inr new ↦
          let none_yet : count (is_member room_id user_id) w.members ≡ 0 =
            ground (arith, new, exists-eq-count (is_member room_id user_id) w.members) in
          rw new (record {
            ids = h.ids;
            once = λ i u. ground (
              arith,
              h.once i u,
              none_yet,
              λ (e : room_id ≡ i) (k : user_id ≡ u). rw (e, k) at none_yet,
            );
            housed = (there, h.housed);
            placed = h.placed;
            owned = All-map w.rooms h.owned (λ r k. ground arith);
          })
    ]

pub framed-Housed : (w v : World) → v ≡ with_users w v → Housed w → Housed v
framed-Housed w v e h =
    let rooms = ap (λ (x : World). x.rooms) e in
    let members = ap (λ (x : World). x.members) e in
    let messages = ap (λ (x : World). x.room_messages) e in rw (rooms, members, messages) h

no_member :
    (rooms : List Room) (i u : Cuid) (ms : List RoomMember)
    → All (λ m. IsThere rooms m.room_id) ms
    → count (has_room_id i) rooms ≡ 0
    → count (is_member i u) ms ≡ 0
unfolding count
no_member rooms i u [] h e = refl
no_member rooms i u (m ∷ ms) (k, h) e =
    ground (arith, e, k, λ (same : m.room_id ≡ i). rw same at k, no_member rooms i u ms h e)

-- The memberships of a user other than the owner.
pub owner_stays :
    (i u j o : Cuid) (ms : List RoomMember)
    → (i ≡ j → o ≢ u)
    → count (is_member j o) (delete_many (is_member i u) ms) ≡ count (is_member j o) ms
unfolding count delete_many
owner_stays i u j o [] other = refl
owner_stays i u j o (m ∷ ms) other = ground (arith, other, owner_stays i u j o ms other)

pub join_room-Housed :
    (verify_password : Text → Text → Bool) (member_id : Cuid) (now : Time) (user_id room_id : Cuid)
    (password : Text) (w : World)
    → Housed w
    → Housed (join_room verify_password member_id now user_id room_id password w).1
join_room-Housed verify_password member_id now user_id room_id password w h =
    elim (Option-cases (find_first (has_room_id room_id) w.rooms)) [
      | inl missing ↦
          let same : (join_room verify_password member_id now user_id room_id password w).1 ≡ w =
            unfold join_room in ground (arith, missing) in
          rw same h
      | inr (r, found) ↦
          let v = (check_room_members_limit now room_id r.owner_id w).1 in
          let frame = check_room_members_limit-frame now r.owner_id w room_id in
          let kept : Housed v = framed-Housed w v frame h in
          let there : IsThere v.rooms room_id = rw (ap (λ (x : World). x.rooms) frame) (
            count-first (has_room_id room_id) (has_room_id room_id) w.rooms r found
              (find_first-holds (has_room_id room_id) w.rooms r found)) in
          let cases : ((join_room verify_password member_id now user_id room_id password w).1 ≡ v)
              ⊎ ((join_room verify_password member_id now user_id room_id password w).1
                  ≡ upsert_member member_id now room_id user_id v) =
            unfold join_room in ground (arith, found) in
          elim cases [
            | inl same ↦ rw same kept
            | inr joined ↦
                rw joined (upsert_member-Housed member_id now room_id user_id v there kept)
          ]
    ]

-- A new room with its owner in it.
pub opened-IsHoused :
    (v : World) (r : Room) (m : RoomMember)
    → Housed v
    → count (has_room_id r.id) v.rooms ≡ 0
    → m.room_id ≡ r.id
    → m.user_id ≡ r.owner_id
    → IsHoused (r ∷ v.rooms) (m ∷ v.members) v.room_messages
unfolding count
opened-IsHoused v r m k fresh at by = record {
  ids = λ i. ground (arith, k.ids i, fresh, λ (e : r.id ≡ i). rw e at fresh);
  once = λ i u. ground (
    arith,
    k.once i u,
    no_member v.rooms r.id u v.members k.housed fresh,
    at,
    λ (e : r.id ≡ i). ap (λ (x : ℕ). count (is_member x u) v.members) e,
  );
  housed = (ground (arith, at), All-map v.members k.housed (λ x h. ground arith));
  placed = All-map v.room_messages k.placed (λ x h. ground arith);
  owned = (ground (arith, at, by), All-map v.rooms k.owned (λ x h. ground arith));
}
