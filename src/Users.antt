-- ===== src/Users.antt =====
-- backend/src/users/users.service.ts, less the plan operations, which stand with the plan guard, and
-- backend/src/auth/push.service.ts. The password hash and the push service are parameters.
pub mod Password
pub mod Pushes
pub mod Limits
use mathlib.Core.Option
use corcy.Prelude.{
  ℕ, zero, ℤ, pos, negsuc, Bool, true, false, not, ◌&&◌, Option, none, some, List, [], ◌∷◌, ◌==◌,
  ltb, length, take, Text, text_eq, codes, trim, starts_with, or_else, if◌then◌else◌,
}
use corcy.Store.{
  Cuid, Time, Plan, User, PushSubscription, AuditEntry, World, invalid_request, record_missing,
  avatar_data_uri, avatar_too_long, name_too_long, password_changed, Exec, pure, throw, read, write,
  throw_if, some_or, continue, log_audit, ◌>>=◌, ◌>>◌,
}
use corcy.Store.Table.{find_first, find_many, exists, update, delete_many}
use corcy.Plans.{get_limits}
use corcy.Plans.Guard.{has_id}

unfoldable pub get_me : Cuid → Exec User
get_me user_id = do
  found ← read (λ w. find_first (has_id user_id) w.users)
  some_or found invalid_request

-- A field of `UpdateMeDto`: left out, null, or a text.
pub data Field : Type 0 where
  left_out null : Field
  text : Text → Field

abbrev pub check_avatar : Field → Exec (Unit {0})
check_avatar left_out = pure tt
check_avatar null = pure tt
check_avatar (text url) = do
  throw_if (starts_with (codes "data:") url) avatar_data_uri
  throw_if (ltb 2048 (length url)) avatar_too_long

abbrev pub check_name : Field → Exec (Unit {0})
check_name left_out = pure tt
check_name null = pure tt
check_name (text name) = throw_if (ltb 50 (length name)) name_too_long

abbrev pub set_name : Field → Option Text → Option Text
set_name left_out old = old
set_name null old = old
set_name (text name) old = some (trim name)

abbrev pub set_avatar : Field → Option Text → Option Text
set_avatar left_out old = old
set_avatar null old = none
set_avatar (text url) old = some url

-- `prisma.user.update` by id, which throws where there is no row.
abbrev pub update_user : Cuid → (User → User) → Exec (Unit {0})
update_user user_id f = do
  known ← read (λ w. exists (has_id user_id) w.users)
  throw_if (not known) record_missing
  write (λ w. record w { users = update (has_id user_id) f w.users })

unfoldable pub update_me : Cuid → Field → Field → Exec (Unit {0})
update_me user_id name avatar_url = do
  check_avatar avatar_url
  check_name name
  update_user user_id (λ u. record u {
    name = set_name name u.name;
    avatar_url = set_avatar avatar_url u.avatar_url;
  })

module _ (hash_password : Text → Text) (verify_password : Text → Text → Bool) where
  unfoldable pub change_password : Cuid → Text → Text → Exec (Unit {0})
  change_password user_id current_password new_password = do
    found ← read (λ w. find_first (has_id user_id) w.users)
    u ← some_or found invalid_request
    throw_if (not (verify_password current_password u.password_hash)) invalid_request
    update_user user_id (λ u. record u { password_hash = hash_password new_password })
    log_audit (some user_id) password_changed

abbrev logged_for : Cuid → AuditEntry → Bool
logged_for user_id e = elim e.user_id [ none ↦ false | some u ↦ u == user_id ]

-- The entries are in order, the latest first.
unfoldable pub get_security_log : Cuid → Exec (List AuditEntry)
get_security_log user_id = read (λ w. take 50 (find_many (logged_for user_id) w.audit))

unfoldable pub update_e2e_public_key : Time → Cuid → Text → Exec (Unit {0})
update_e2e_public_key now user_id public_key =
    update_user user_id
      (λ u. record u { e2e_public_key = some public_key; e2e_key_uploaded_at = some now })

abbrev key_of : Option User → Option Text
key_of none = none
key_of (some u) = u.e2e_public_key

unfoldable pub get_e2e_public_key : Cuid → Exec (Option Text)
get_e2e_public_key user_id = read (λ w. key_of (find_first (has_id user_id) w.users))

-- `getPlanLimits`, a table of its own; a name that is no plan is answered as FREE.
pub record ShownLimits : Type 0 where
  pub max_invites : ℤ
  pub max_rooms : ℤ
  pub max_room_members : ℤ
  pub unlimited_history : Bool
  pub e2e_rooms : Bool

abbrev free_limits : ShownLimits
free_limits = record {
  max_invites = pos 3;
  max_rooms = pos 2;
  max_room_members = pos 10;
  unlimited_history = false;
  e2e_rooms = false;
}

abbrev pub get_plan_limits : Text → ShownLimits
get_plan_limits plan =
    if text_eq plan (codes "PRO")
    then record {
      max_invites = negsuc 0;
      max_rooms = pos 10;
      max_room_members = pos 50;
      unlimited_history = true;
      e2e_rooms = true;
    }
    else if text_eq plan (codes "TEAM")
    then record {
      max_invites = negsuc 0;
      max_rooms = negsuc 0;
      max_room_members = pos 200;
      unlimited_history = true;
      e2e_rooms = true;
    }
    else free_limits

-- `PushService`
abbrev pub has_endpoint : Text → PushSubscription → Bool
has_endpoint endpoint s = text_eq s.endpoint endpoint

abbrev pub pushed_to : Cuid → PushSubscription → Bool
pushed_to user_id s = s.user_id == user_id

-- The upsert writes all columns in both cases.
unfoldable pub save_subscription : PushSubscription → Exec (Unit {0})
save_subscription s = write (λ w. record w {
  push_subscriptions =
      if exists (has_endpoint s.endpoint) w.push_subscriptions
      then update (has_endpoint s.endpoint) (λ _. s) w.push_subscriptions
      else s ∷ w.push_subscriptions;
})

unfoldable pub remove_subscription : Text → Cuid → Exec (Unit {0})
remove_subscription endpoint user_id = write (λ w. record w {
  push_subscriptions =
      delete_many (λ s. has_endpoint endpoint s && pushed_to user_id s) w.push_subscriptions;
})

-- What became of a notification: `gone` is a rejection with status code 410.
pub data Delivery : Type 0 where
  delivered failed gone : Delivery

abbrev is_gone : Delivery → Bool
is_gone gone = true
is_gone _ = false

-- The deletion after the results, by endpoint, in order.
unfoldable pub drop_gone : (PushSubscription → Delivery) → List PushSubscription → World → World
drop_gone deliver [] w = w
drop_gone deliver (s ∷ ss) w = drop_gone deliver ss (
    if is_gone (deliver s)
    then record w {
      push_subscriptions = delete_many (has_endpoint s.endpoint) w.push_subscriptions;
    }
    else w)

-- Returns the subscriptions that a notification was sent to.
unfoldable pub send_push :
    Bool → (PushSubscription → Delivery) → Cuid → Exec (List PushSubscription)
unfolding drop_gone
send_push enabled deliver user_id = if not enabled then pure [] else do
  subscriptions ← read (λ w. find_many (pushed_to user_id) w.push_subscriptions)
  write (drop_gone deliver subscriptions)
  pure subscriptions
