-- ===== src/Auth.antt =====
-- backend/src/auth/auth.service.ts: registration by invite; the rest stands in SignIn.
-- SHA-256, the password hash, `toLowerCase`, the settings of the environment and the signed token of
-- the second factor are fields of `AuthEnv`; what a request draws is an argument. The signed access
-- token is not modelled, and a mail is the call of `sendMail`.
pub mod Endpoints
pub mod SignIn
pub mod Login
pub mod Journey
pub mod Codes
pub mod Contacts
use mathlib.Core.Option
use corcy.Prelude.{
  ℕ, zero, ◌+◌, ◌*◌, Bool, true, false, not, ◌&&◌, ◌||◌, Option, none, some, List, [], ◌∷◌, ◌++◌,
  ◌==◌, ltb, leb, length, is_some, Text, text_eq, codes, is_empty, trim, if◌then◌else◌,
}
use corcy.Store.{
  Cuid, Time, User, free, Invite, EmailVerification, World, record_missing, AuditAction,
  register_invalid_invite, register_via_invite, register_admin, register_bootstrap, email_verified,
  login_failed, login_two_factor_required, user_login, verification_mail, welcome_mail, Exec, pure,
  throw, read, write, some_or, continue, log_audit, send_mail, ◌>>=◌, ◌>>◌,
}
use corcy.Store.Table.{find_first, find_many, update, delete_many}
use corcy.Store.Order.{sort_desc}
use corcy.Plans.Guard.{has_id}
use corcy.Connections.{upsert_connection}
use corcy.Connections.Invites.{has_invite_id, has_token, max_uses, has_email}
use corcy.Messages.{local_part, or_text}
use corcy.RateLimit.{check_rate_limit, increment_rate_limit, clear_rate_limit}
use corcy.Tokens.{issue_pair}
use corcy.TwoFactor.{digits_of}

pub record AuthEnv : Type 0 where
  pub hash : Text → Text
  pub hash_password : Text → Text
  pub verify_password : Text → Text → Bool
  pub to_lower : Text → Text
  -- ADMIN_SETUP_SECRET, BOOTSTRAP_INVITE_TOKEN, empty if not set
  pub admin_secret : Text
  pub bootstrap_token : Text
  pub refresh_days : ℕ
  -- `TempToken.sign`
  pub sign_temp : Cuid → Text

pub data AuthError : Type 0 where
  invite_unknown invite_expired invite_used_up email_taken : AuthError
  bad_code too_many_attempts code_expired bad_credentials not_verified : AuthError

pub data RegisterReply : Type 0 where
  refused : AuthError → RegisterReply
  need_verification : Cuid → Text → RegisterReply

-- The refresh token goes into the body for a mobile client, else into a cookie.
pub record Session : Type 0 where
  pub user_id : Cuid
  pub is_admin : Bool
  pub refresh_token : Text
  pub in_body : Bool

pub data AuthReply : Type 0 where
  failed : AuthError → AuthReply
  need_two_factor : Text → AuthReply
  signed_in : Session → AuthReply

-- What a registration draws.
pub record RegisterDraw : Type 0 where
  pub user_id : Cuid
  pub connection_id : Cuid
  pub verification_id : Cuid
  pub code : Text

-- VERIFICATION_CODE_EXPIRY_MINUTES * 60 * 1000, and WINDOW_MS of both limits
abbrev pub ten_minutes_ms : ℕ
ten_minutes_ms = 600000

-- `secret && secret.length > 0 && token === secret`
abbrev pub is_secret : Text → Text → Bool
is_secret secret token = not (is_empty secret) && text_eq token secret

pub data InviteCheck : Type 0 where
  rejected : AuthError → InviteCheck
  usable : Option Invite → InviteCheck

-- `opts?.name?.trim() || null`
abbrev pub trimmed : Option Text → Option Text
trimmed none = none
trimmed (some t) = if is_empty (trim t) then none else some (trim t)

-- What `register` writes into the row of the invite `i` that it had read.
abbrev pub register_use : Time → Cuid → Invite → Invite → Invite
register_use now user_id i row = record row {
  used_count = row.used_count + 1;
  used_at = some now;
  used_by_id = some user_id;
  is_active = ltb (i.used_count + 1) (max_uses i);
}

module _ (env : AuthEnv) where
  -- `email.toLowerCase().trim()`
  abbrev pub normal_email : Text → Text
  normal_email email = trim (env.to_lower email)

  unfoldable pub check_register_invite : Time → Text → Exec InviteCheck
  check_register_invite now token =
      if is_secret env.admin_secret token || is_secret env.bootstrap_token token
      then pure (usable none)
      else do
        found ← read (λ w. find_first (has_token env.hash token) w.invites)
        elim found [
          | none ↦ do log_audit none register_invalid_invite; pure (rejected invite_unknown)
          | some i ↦
              if ltb i.expires_at now
              then pure (rejected invite_expired)
              else if leb (max_uses i) i.used_count
              then pure (rejected invite_used_up)
              else pure (usable (some i))
        ]

  abbrev pub new_user : Cuid → Text → Option Text → Text → Bool → User
  new_user id email name password admin = record {
    id = id;
    email = email;
    password_hash = env.hash_password password;
    name = trimmed name;
    is_verified = false;
    is_admin = admin;
    plan = free;
    plan_expires_at = none;
    totp_secret = none;
    pending_totp_secret = none;
    totp_enabled = false;
    totp_enabled_at = none;
    backup_codes = [];
    avatar_url = none;
    stripe_customer_id = none;
    e2e_public_key = none;
    e2e_key_uploaded_at = none;
  }

  -- The invite's use and the connection with its sender, or the audit entry of a secret.
  unfoldable pub settle_invite : Time → RegisterDraw → Bool → Option Invite → Exec (Unit {0})
  settle_invite now d admin none =
      log_audit (some d.user_id) (if admin then register_admin else register_bootstrap)
  settle_invite now d admin (some i) = do
    write (λ w. record w {
      invites = update (has_invite_id i.id) (register_use now d.user_id i) w.invites;
    })
    write (upsert_connection d.connection_id now i.from_user_id d.user_id)
    log_audit (some d.user_id) register_via_invite

  abbrev pub new_code : Cuid → Cuid → Time → Text → EmailVerification
  new_code id user_id now code = record {
    id = id;
    user_id = user_id;
    code = env.hash code;
    expires_at = now + ten_minutes_ms;
    created_at = now;
  }

  -- `register` behind the check of the invite.
  unfoldable pub create_account :
      Time → RegisterDraw → Text → Text → Text → Option Text → Option Invite → Exec RegisterReply
  create_account now d email password token name inv = do
    existing ← read (λ w. find_first (has_email (normal_email email)) w.users)
    if is_some existing then pure (refused email_taken) else do
      let admin = is_secret env.admin_secret token
      write (λ w. record w {
        users = new_user d.user_id (normal_email email) name password admin ∷ w.users;
      })
      settle_invite now d admin inv
      write (λ w. record w {
        verifications = new_code d.verification_id d.user_id now d.code ∷ w.verifications;
      })
      send_mail (verification_mail (normal_email email) d.code)
      pure (need_verification d.user_id (normal_email email))

  unfoldable pub register :
      Time → RegisterDraw → Text → Text → Text → Option Text → Exec RegisterReply
  unfolding check_register_invite create_account
  register now d email password token name = do
    checked ← check_register_invite now token
    elim checked [
      | rejected e ↦ pure (refused e)
      | usable inv ↦ create_account now d email password token name inv
    ]
