-- ===== src/Plans/Guard.antt =====
-- backend/src/common/plan-guard.service.ts, and the plan operations of
-- backend/src/users/users.service.ts. `now` is the clock reading of the call.
use corcy.Prelude.{
  ℕ, ◌-◌, ℤ, reaches, Bool, true, false, not, ◌&&◌, ◌||◌, Option, none, some, ◌==◌, leb,
  if◌then◌else◌,
}
use corcy.Store.{
  Cuid, Time, Plan, free, User, Invite, Room, RoomMember, Connection, World, Fault, invite_limit,
  room_limit, room_members_limit, contacts_limit, invalid_request, record_missing, Exec, pure, read,
  write, throw_if, some_or, ◌>>=◌, ◌>>◌,
}
use corcy.Store.Table.{find_first, count, update, exists}
use corcy.Plans.{PlanLimits, get_limits, is_unlimited}

abbrev pub is_free : Plan → Bool
is_free free = true
is_free _ = false

abbrev pub has_id : Cuid → User → Bool
has_id user_id u = u.id == user_id

-- `plan !== 'FREE' && planExpiresAt && planExpiresAt <= now`
abbrev pub is_expired : Time → Plan → Option Time → Bool
is_expired now plan none = false
is_expired now plan (some t) = not (is_free plan) && leb t now

abbrev pub downgrade : User → User
downgrade u = record u { plan = free; plan_expires_at = none }

pub record PlanState : Type 0 where
  pub plan : Plan
  pub plan_expires_at : Option Time

abbrev pub no_plan : PlanState
no_plan = record { plan = free; plan_expires_at = none }

user_plan : Time → Cuid → Option User → Exec PlanState
user_plan now user_id none = pure no_plan
user_plan now user_id (some u) =
    if is_expired now u.plan u.plan_expires_at
    then (do
      write (λ w. record w { users = update (has_id user_id) downgrade w.users })
      pure no_plan)
    else pure (record { plan = u.plan; plan_expires_at = u.plan_expires_at })

unfoldable pub get_user_plan : Time → Cuid → Exec PlanState
unfolding user_plan
get_user_plan now user_id = do
  user ← read (λ w. find_first (has_id user_id) w.users)
  user_plan now user_id user

-- 30 * 24 * 60 * 60 * 1000
abbrev pub month_ms : ℕ
month_ms = 2592000000

abbrev pub month_invites : Time → Cuid → World → ℕ
month_invites now user_id w =
    count (λ (i : Invite). i.from_user_id == user_id && leb (now - month_ms) i.created_at) w.invites

abbrev pub rooms_owned : Cuid → World → ℕ
rooms_owned user_id w = count (λ (r : Room). r.owner_id == user_id) w.rooms

abbrev pub member_count : Cuid → World → ℕ
member_count room_id w = count (λ (m : RoomMember). m.room_id == room_id) w.members

abbrev pub is_party : Cuid → Connection → Bool
is_party user_id c = c.user_id_a == user_id || c.user_id_b == user_id

abbrev pub contact_count : Cuid → World → ℕ
contact_count user_id w = count (is_party user_id) w.connections

-- `if (isUnlimited(limit)) return; if (count >= limit) throw`
abbrev check_limit : ℤ → (World → ℕ) → Fault → Exec (Unit {0})
check_limit limit used fault =
    if is_unlimited limit then pure tt else do n ← read used; throw_if (reaches n limit) fault

unfoldable pub check_invite_limit : Time → Cuid → Exec (Unit {0})
unfolding get_user_plan
check_invite_limit now user_id = do
  s ← get_user_plan now user_id
  let limit = (get_limits s.plan).max_invites_per_month
  check_limit limit (month_invites now user_id) (invite_limit s.plan limit)

unfoldable pub check_room_limit : Time → Cuid → Exec (Unit {0})
unfolding get_user_plan
check_room_limit now user_id = do
  s ← get_user_plan now user_id
  let limit = (get_limits s.plan).max_rooms
  check_limit limit (rooms_owned user_id) (room_limit s.plan limit)

unfoldable pub check_room_members_limit : Time → Cuid → Cuid → Exec (Unit {0})
unfolding get_user_plan
check_room_members_limit now room_id owner_id = do
  s ← get_user_plan now owner_id
  let limit = (get_limits s.plan).max_room_members
  n ← read (member_count room_id)
  throw_if (reaches n limit) (room_members_limit s.plan limit)

unfoldable pub check_contacts_limit : Time → Cuid → Exec (Unit {0})
unfolding get_user_plan
check_contacts_limit now user_id = do
  s ← get_user_plan now user_id
  let limit = (get_limits s.plan).max_contacts
  check_limit limit (contact_count user_id) (contacts_limit s.plan limit)

pub record PlanUsage : Type 0 where
  pub state : PlanState
  pub limits : PlanLimits
  pub invites_this_month : ℕ
  pub rooms : ℕ
  pub contacts : ℕ

unfoldable pub get_user_limits : Time → Cuid → Exec PlanUsage
unfolding get_user_plan
get_user_limits now user_id = do
  s ← get_user_plan now user_id
  invites_used ← read (month_invites now user_id)
  rooms_owned_now ← read (rooms_owned user_id)
  contacts_now ← read (contact_count user_id)
  pure (record {
    state = s;
    limits = get_limits s.plan;
    invites_this_month = invites_used;
    rooms = rooms_owned_now;
    contacts = contacts_now;
  })

-- UsersService.getPlan
pub record PlanReport : Type 0 where
  pub plan : Plan
  pub plan_expires_at : Option Time
  pub is_active : Bool

abbrev is_later : Time → Option Time → Bool
is_later now none = true
is_later now (some t) = not (leb t now)

plan_report : Time → Cuid → User → Exec PlanReport
plan_report now user_id u =
    if is_expired now u.plan u.plan_expires_at
    then (do
      write (λ w. record w { users = update (has_id user_id) downgrade w.users })
      pure (record { plan = free; plan_expires_at = none; is_active = true }))
    else pure (record {
      plan = u.plan;
      plan_expires_at = u.plan_expires_at;
      is_active = is_free u.plan || is_later now u.plan_expires_at;
    })

unfoldable pub get_plan : Time → Cuid → Exec PlanReport
unfolding plan_report
get_plan now user_id = do
  found ← read (λ w. find_first (has_id user_id) w.users)
  u ← some_or found invalid_request
  plan_report now user_id u

-- UsersService.setPlan; Prisma's `update` throws where there is no row.
unfoldable pub set_plan : Cuid → Plan → Option Time → Exec (Unit {0})
set_plan user_id plan expires_at = do
  known ← read (λ w. exists (has_id user_id) w.users)
  throw_if (not known) record_missing
  write (λ w. record w {
    users =
        update (has_id user_id) (λ u. record u { plan = plan; plan_expires_at = expires_at })
          w.users;
  })
