-- ===== src/Users/Limits.antt =====
-- The two tables of limits.
use corcy.Prelude.{◌≡◌, refl, text_eq}
use corcy.Store.{Plan, free, pro, team}
use corcy.Plans.{get_limits}
use corcy.Payments.{plan_text}
use corcy.Users.{get_plan_limits}

-- The limits that a user is shown are those that the plan guard enforces.
pub get_plan_limits-eq-get_limits :
    (plan : Plan)
    → get_plan_limits (plan_text plan) ≡ record {
      max_invites = (get_limits plan).max_invites_per_month;
      max_rooms = (get_limits plan).max_rooms;
      max_room_members = (get_limits plan).max_room_members;
      unlimited_history = (get_limits plan).unlimited_history;
      e2e_rooms = (get_limits plan).e2e_rooms;
    }
unfolding text_eq
get_plan_limits-eq-get_limits free = refl
get_plan_limits-eq-get_limits pro = refl
get_plan_limits-eq-get_limits team = refl
