-- ===== src/Admin.antt =====
-- backend/src/modules/admin.controller.ts behind backend/src/auth/admin.guard.ts: numbers of the
-- service, pages of users, and a plan that an administrator sets. A limit is the number that its
-- text parses to, none where it parses to none; the text match of the database is a parameter. The
-- audit log's page is not modelled.
pub mod Grants
use mathlib.Core.Option
use corcy.Prelude.{
  ℕ, suc, min, ◌+◌, Bool, true, false, not, ◌&&◌, ◌||◌, Option, none, some, List, [], ◌∷◌, ◌==◌,
  ltb, length, take, is_some, or_else, Text, text_eq, codes, is_empty, trim, if◌then◌else◌,
}
use corcy.Store.{
  Cuid, present_id, Time, Plan, free, pro, team, User, Room, World, forbidden, admin_plan_changed,
  Exec, pure, throw, read, write, throw_if, some_or, continue, log_audit, ◌>>=◌, ◌>>◌,
}
use corcy.Store.Table.{find_first, find_many, count, update}
use corcy.Store.Order.{rows_after, pop, last?}
use corcy.Plans.Guard.{has_id}
use corcy.Connections.Invites.{is_admin_user}

-- `AdminGuard.canActivate`
unfoldable pub can_activate : Option Cuid → Exec (Unit {0})
can_activate user = do
  user_id ← some_or (present_id user) forbidden
  u ← read (λ w. find_first (has_id user_id) w.users)
  throw_if (not (is_admin_user u)) forbidden

abbrev pub is_plan : Plan → User → Bool
is_plan free u = elim u.plan [ free ↦ true | _ ↦ false ]
is_plan pro u = elim u.plan [ pro ↦ true | _ ↦ false ]
is_plan team u = elim u.plan [ team ↦ true | _ ↦ false ]

pub record AdminStats : Type 0 where
  pub users : ℕ
  pub verified : ℕ
  pub active_rooms : ℕ
  pub messages : ℕ
  pub connections : ℕ
  -- the counts of the plans that some user has
  pub plans : List (Plan × ℕ)

abbrev plan_counts : List Plan → World → List (Plan × ℕ)
plan_counts [] w = []
plan_counts (p ∷ ps) w =
    let n = count (is_plan p) w.users in
    let rest = plan_counts ps w in if n == 0 then rest else (p, n) ∷ rest

unfoldable pub get_admin_stats : Time → Exec AdminStats
get_admin_stats now = read (λ w. record {
  users = length w.users;
  verified = count (λ (u : User). u.is_verified) w.users;
  active_rooms = count (λ (r : Room). ltb now r.expires_at) w.rooms;
  messages = length w.messages;
  connections = length w.connections;
  plans = plan_counts (free ∷ pro ∷ team ∷ []) w;
})

-- `['FREE', 'PRO', 'TEAM'].includes(plan)`
abbrev pub plan_named : Option Text → Option Plan
plan_named none = none
plan_named (some t) =
    if text_eq t (codes "FREE")
    then some free
    else if text_eq t (codes "PRO")
    then some pro
    else if text_eq t (codes "TEAM")
    then some team
    else none

-- `Math.min(parseInt(limit) || 20, 100)`
abbrev pub page_size : Option ℕ → ℕ
page_size none = 20
page_size (some n) = min (if n == 0 then 20 else n) 100

pub record UserPage : Type 0 where
  pub users : List User
  pub has_more : Bool
  pub next_cursor : Option Cuid

abbrev user_id_of : User → Cuid
user_id_of u = u.id

-- The rows behind the cursor, one more than the page has.
abbrev pub page_of_users : ℕ → List User → UserPage
page_of_users size rows =
    if ltb size (length rows)
    then record {
      users = pop rows;
      has_more = true;
      next_cursor = Option.map user_id_of (last? (pop rows));
    }
    else record { users = rows; has_more = false; next_cursor = none }

module _ (contains : Text → Text → Bool) where
  abbrev name_contains : Text → Option Text → Bool
  name_contains q none = false
  name_contains q (some name) = contains q name

  abbrev matches_text : Option Text → User → Bool
  matches_text none u = true
  matches_text (some q) u =
      if is_empty (trim q) then true else contains (trim q) u.email || name_contains (trim q) u.name

  abbrev matches_plan : Option Plan → User → Bool
  matches_plan none u = true
  matches_plan (some p) u = is_plan p u

  abbrev pub is_searched : Option Text → Option Text → User → Bool
  is_searched q plan u = matches_text q u && matches_plan (plan_named plan) u

  abbrev from_cursor : Option Cuid → List User → List User
  from_cursor none rows = rows
  from_cursor (some c) rows = rows_after user_id_of c rows

  -- Users are in order, the newest first.
  unfoldable pub get_users : Option Text → Option Text → Option Cuid → Option ℕ → Exec UserPage
  get_users q plan cursor limit = read (λ w. page_of_users (page_size limit) (
      take (page_size limit + 1)
        (from_cursor (present_id cursor) (find_many (is_searched q plan) w.users))))

pub data PlanReply : Type 0 where
  invalid_plan no_user changed : PlanReply

unfoldable pub update_user_plan : Cuid → Cuid → Option Text → Option Time → Exec PlanReply
update_user_plan admin_id id plan expires_at = elim (plan_named plan) [
  | none ↦ pure invalid_plan
  | some p ↦ do
    user ← read (λ w. find_first (has_id id) w.users)
    if not (is_some user) then pure no_user else do
      write (λ w. record w {
        users =
            update (has_id id) (λ u. record u { plan = p; plan_expires_at = expires_at }) w.users;
      })
      log_audit (some admin_id) admin_plan_changed
      pure changed
]
