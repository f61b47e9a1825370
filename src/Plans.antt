-- ===== src/Plans.antt =====
-- backend/src/common/plan-limits.ts: the limits of the plans. The database holds one of the three
-- plans, so the fall-back of `getLimits` for other names is not reached.
pub mod Guard
pub mod Expiry
pub mod Frame
use corcy.Prelude.{ℕ, zero, ℤ, pos, negsuc, Bool, true, false}
use corcy.Store.{Plan, free, pro, team}

pub record PlanLimits : Type 0 where
  pub max_invites_per_month : ℤ
  pub max_rooms : ℤ
  pub max_room_members : ℤ
  pub max_contacts : ℤ
  pub unlimited_history : Bool
  pub e2e_rooms : Bool

-- -1
abbrev unlimited : ℤ
unlimited = negsuc 0

abbrev pub get_limits : Plan → PlanLimits
get_limits free = record {
  max_invites_per_month = pos 3;
  max_rooms = pos 2;
  max_room_members = pos 10;
  max_contacts = pos 10;
  unlimited_history = false;
  e2e_rooms = false;
}
get_limits pro = record {
  max_invites_per_month = unlimited;
  max_rooms = pos 10;
  max_room_members = pos 50;
  max_contacts = unlimited;
  unlimited_history = true;
  e2e_rooms = true;
}
get_limits team = record {
  max_invites_per_month = unlimited;
  max_rooms = unlimited;
  max_room_members = pos 200;
  max_contacts = unlimited;
  unlimited_history = true;
  e2e_rooms = true;
}

abbrev pub is_unlimited : ℤ → Bool
is_unlimited (negsuc zero) = true
is_unlimited _ = false
