-- ===== src/Examples/Accounts.antt =====
-- Accounts: a registration with the bootstrap token, its code, logins, and a change of the password.
use corcy.Prelude.{
  ◌≡◌, ◌↔◌, refl, true, false, none, some, [], ◌∷◌, Text, text_eq, codes, arith, trim, trim_start,
  is_space, if◌then◌else◌,
}
use corcy.Store.{User, World, ok, verification_mail}
use corcy.Store.Table.{count, find_first, find_many, exists, update, delete_many}
use corcy.Store.Order.{sort_asc, sort_desc, insert_desc}
use corcy.Connections.Invites.{has_email}
use corcy.RateLimit.{check_rate_limit, clear_rate_limit}
use corcy.Tokens.{issue_pair, drop_oldest}
use corcy.TwoFactor.{without}
use corcy.Auth.{
  AuthEnv, RegisterDraw, signed_in, failed, bad_code, bad_credentials, normal_email, register,
  check_register_invite, create_account, settle_invite, new_code,
}
use corcy.Auth.SignIn.{verify_email, try_code, accept_code, issue_full_tokens, login}
use corcy.Auth.Login.{UniqueUsers, session_of, login-signed_in_iff}
use corcy.Auth.Journey.{joined_user, register-verify_email-login}
use corcy.Auth.Codes.{verify_email_once}
use corcy.Users.{change_password}
use corcy.Users.Password.{change_password-login}
use corcy.Examples.{alice, bob, strangers, user}

abbrev accounts : AuthEnv
accounts = record {
  hash = λ t. t;
  hash_password = λ p. p;
  verify_password = λ p h. text_eq p h;
  to_lower = λ t. t;
  admin_secret = [];
  bootstrap_token = codes "boot";
  refresh_days = 7;
  sign_temp = λ u. [];
}

abbrev eve : Text
eve = codes "e@x"

abbrev six : Text
six = codes "123456"

abbrev draw : RegisterDraw
draw = record { user_id = 3; connection_id = 4; verification_id = 5; code = six }

abbrev registered : World
registered = (register accounts 0 draw eve (codes "pw") (codes "boot") none strangers).1

register-verify_email-login_example :
    (registered.mails ≡ verification_mail (normal_email accounts eve) six ∷ [])
    × ((verify_email accounts 1000 (codes "r1") eve six false registered).0
        ≡ ok (
            signed_in (
              session_of
                (joined_user accounts 0 draw eve (codes "pw") (codes "boot") none strangers)
                (codes "r1")
                false)))
    × ((login accounts 9000
          (codes "r2")
          eve
          (codes "pw")
          false
          (verify_email accounts 1000 (codes "r1") eve six false registered).1).0
        ≡ ok (
            signed_in (
              session_of
                (joined_user accounts 0 draw eve (codes "pw") (codes "boot") none strangers)
                (codes "r2")
                false)))
register-verify_email-login_example =
    register-verify_email-login accounts 0 draw eve (codes "pw") (codes "boot") none strangers
      (unfold register check_register_invite create_account settle_invite find_first text_eq trim
          trim_start is_space in
        refl)
      (unfold count in refl) (unfold count in refl) (unfold without in refl)
      (unfold without in refl) (unfold text_eq in refl) 1000 9000 (codes "r1") (codes "r2") false
      (omega arith)

abbrev newcomer : User
newcomer = record (user 3 eve) { is_verified = false }

abbrev waiting : World
waiting = record strangers {
  users = newcomer ∷ strangers.users;
  verifications = new_code accounts 5 3 0 six ∷ [];
}

verify_email_once_example :
    (verify_email accounts 2000
      (codes "r2")
      eve
      six
      true
      (verify_email accounts 1000 (codes "r1") eve six false waiting).1).0
    ≡ ok (failed bad_code)
verify_email_once_example =
    verify_email_once accounts 1000 (codes "r1") eve six false waiting
      (record { user_id = 3; is_admin = false; refresh_token = codes "r1"; in_body = false }) 2000
      (codes "r2") true (λ u. unfold count without text_eq in ground arith)
      (unfold verify_email try_code accept_code issue_full_tokens issue_pair drop_oldest
          check_rate_limit clear_rate_limit find_first find_many update delete_many sort_asc
          sort_desc insert_desc text_eq without trim trim_start is_space in
        refl)

login-signed_in_iff_example :
    ((login accounts 10 (codes "r1") (codes "bob@example.com") [] true strangers).0
      ≡ ok (signed_in (session_of bob (codes "r1") true)))
    ↔ ((u : User) × (find_first
            (has_email (normal_email accounts (codes "bob@example.com")))
            strangers.users
          ≡ some u)
        × (text_eq [] u.password_hash ≡ true)
        × (u.is_verified ≡ true)
        × (u.totp_enabled ≡ false)
        × (session_of bob (codes "r1") true ≡ session_of u (codes "r1") true))
login-signed_in_iff_example =
    login-signed_in_iff accounts 10 (codes "r1") (codes "bob@example.com") [] true strangers
      (session_of bob (codes "r1") true) unique
  where
    unique : UniqueUsers strangers
    unique i = unfold count in ground arith

change_password-login_example :
    (login accounts 20
      (codes "r1")
      (codes "alice@example.com")
      (codes "old")
      false
      (change_password (λ p. p) (λ p h. text_eq p h) 1 [] (codes "new") strangers).1).0
    ≡ (if text_eq (codes "old") (codes "new")
        then ok (signed_in (session_of alice (codes "r1") false))
        else ok (failed bad_credentials))
change_password-login_example =
    change_password-login accounts 1 [] (codes "new") strangers alice (codes "alice@example.com")
      (unfold find_first in refl) (unfold find_first trim trim_start is_space text_eq in refl)
      (unfold change_password find_first exists text_eq in refl) 20 (codes "r1") (codes "old") false
      refl refl
