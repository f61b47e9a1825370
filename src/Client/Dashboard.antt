-- ===== src/Client/Dashboard.antt =====
-- frontend/app/dashboard/utils.ts: what the dashboard computes of times and ids. A date is a number
-- of milliseconds, a text of the relative time is a value of `RelativeTime`.
pub mod Ranges
use corcy.Prelude.{
  ℕ, zero, ◌+◌, ◌-◌, ◌≡◌, Bool, true, false, not, Option, none, some, List, [], ◌∷◌, ◌==◌, ltb, leb,
  Text, if◌then◌else◌,
}
use corcy.Store.{Cuid, Time}
use Prim.Native.Nat.{◌/◌, ◌%◌}
use mathlib.Core.List.{reverse}

-- The sum of the character codes of an id.
unfoldable pub code_sum : Text → ℕ
code_sum [] = 0
code_sum (c ∷ id) = c + code_sum id

-- The index into the six colours.
unfoldable pub get_avatar_gradient : Text → ℕ
unfolding code_sum
get_avatar_gradient user_id = code_sum user_id % 6

pub data RelativeTime : Type 0 where
  recently : RelativeTime
  minutes_ago hours_ago days_ago : ℕ → RelativeTime

-- `Math.max(1, minutes)`
abbrev pub at_least_one : ℕ → ℕ
at_least_one n = if ltb n 1 then 1 else n

-- The text for this many minutes.
abbrev pub of_minutes : ℕ → RelativeTime
of_minutes minutes =
    if ltb minutes 60
    then minutes_ago (at_least_one minutes)
    else if ltb (minutes / 60) 24
    then hours_ago (minutes / 60)
    else days_ago (minutes / 60 / 24)

unfoldable pub format_relative_time : Option Time → Time → RelativeTime
format_relative_time none now = recently
format_relative_time (some date) now = of_minutes ((now - date) / 60000)

pub record ShownMessage : Type 0 where
  pub sender_id : Cuid
  pub created_at : Time

unfoldable pub find_incoming : Cuid → List ShownMessage → Option Time
find_incoming user_id [] = none
find_incoming user_id (x ∷ xs) =
    let rest = find_incoming user_id xs in
    if not (x.sender_id == user_id) then some x.created_at else rest

unfoldable pub get_latest_incoming_timestamp : List ShownMessage → Option Cuid → Option Time
unfolding find_incoming
get_latest_incoming_timestamp items none = none
get_latest_incoming_timestamp items (some user_id) = find_incoming user_id (reverse items)

abbrev pub is_timestamp_newer : Option Time → Option Time → Bool
is_timestamp_newer none prev = false
is_timestamp_newer (some t) none = true
is_timestamp_newer (some t) (some u) = ltb u t
