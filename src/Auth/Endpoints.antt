-- ===== src/Auth/Endpoints.antt =====
-- backend/src/auth/auth.controller.ts: the routes that do more than call the service of the parent.
-- The signed token of the second factor and the check of a one-time password are fields of
-- `RouteEnv`; of a cookie, its text is modelled.
use corcy.Prelude.{Bool, false, not, Option, none, some, List, Text, ltb, leb, if◌then◌else◌}
use corcy.Store.{
  Cuid, Time, User, World, unauthorized, record_missing, two_factor_challenge_failed,
  login_two_factor_success, two_factor_backup_failed, login_two_factor_backup_success,
  two_factor_setup_initiated, user_logout, Result, ok, err, Exec, pure, throw, read, some_or,
  log_audit, ◌>>=◌, ◌>>◌,
}
use corcy.Store.Table.{find_first}
use corcy.Plans.Guard.{has_id}
use corcy.Connections.Invites.{has_token, max_uses}
use corcy.Tokens.{has_hash, rotate, revoke_all_for_user}
use corcy.TwoFactor.{
  Setup, unknown_user, already_enabled, ready, can_setup, generate_secret, disable_totp, present,
  verify_totp, verify_and_consume_backup_code,
}
use corcy.Auth.{AuthEnv, Session, is_secret}
use corcy.Auth.SignIn.{issue_full_tokens}

pub record RouteEnv : Type 0 where
  pub auth : AuthEnv
  pub to_upper : Text → Text
  -- `TempToken.verify`
  pub temp_user : Time → Text → Option Cuid
  -- a secret and a one-time password
  pub passes : Text → Text → Bool

pub data InvitePage : Type 0 where
  token_required bootstrap invalid_invite used_up : InvitePage
  -- the name, the address and the picture of the sender
  invited_by : Option Text → Text → Option Text → InvitePage

pub data RefreshReply : Type 0 where
  no_token user_gone bad_token : RefreshReply
  -- the user, the new token, and if it goes into the body
  refreshed : User → Text → Bool → RefreshReply

-- `try { … } catch`: none where it threw.
abbrev attempt : {A : Type 0} → Exec A → Exec (Option A)
attempt {A} m w = (ok (value (m w).0), (m w).1)
  where
    value : Result A → Option A
    value (ok a) = some a
    value (err _) = none

-- The cookie if it is there, else the body's token.
abbrev pub presented : Option Text → Option Text → Option Text
presented cookie body = elim (present cookie) [ some t ↦ some t | none ↦ present body ]

pub data SetupReply : Type 0 where
  setup_refused : Setup → SetupReply
  backup_codes : List Text → SetupReply

unfoldable pub logout : Cuid → Exec (Unit {0})
logout user_id = do revoke_all_for_user user_id; log_audit (some user_id) user_logout

module _ (env : RouteEnv) where
  unfoldable pub check_invite : Time → Option Text → Exec InvitePage
  check_invite now query = elim (present query) [
    | none ↦ pure token_required
    | some token ↦ if is_secret env.auth.bootstrap_token token then pure bootstrap else do
      found ← read (λ w. find_first (has_token env.auth.hash token) w.invites)
      elim found [
        | none ↦ pure invalid_invite
        | some i ↦
            if ltb i.expires_at now
            then pure invalid_invite
            else if leb (max_uses i) i.used_count
            then pure used_up
            else do
              from ← read (λ w. find_first (has_id i.from_user_id) w.users)
              u ← some_or from record_missing
              pure (invited_by u.name u.email u.avatar_url)
      ]
  ]

  unfoldable pub two_factor_challenge : Time → Text → Text → Text → Bool → Exec Session
  two_factor_challenge now raw_refresh temp_token totp_code is_mobile = do
    user_id ← some_or (env.temp_user now temp_token) unauthorized
    valid ← verify_totp env.passes user_id totp_code
    if not valid
        then (do log_audit (some user_id) two_factor_challenge_failed; throw unauthorized)
        else do
          log_audit (some user_id) login_two_factor_success
          issue_full_tokens env.auth now raw_refresh user_id is_mobile

  unfoldable pub two_factor_backup : Time → Text → Option Text → Option Text → Bool → Exec Session
  two_factor_backup now raw_refresh temp_token backup_code is_mobile = do
    temp ← some_or (present temp_token) unauthorized
    code ← some_or (present backup_code) unauthorized
    user_id ← some_or (env.temp_user now temp) unauthorized
    valid ← verify_and_consume_backup_code env.auth.hash env.to_upper user_id code
    if not valid
        then (do log_audit (some user_id) two_factor_backup_failed; throw unauthorized)
        else do
          log_audit (some user_id) login_two_factor_backup_success
          issue_full_tokens env.auth now raw_refresh user_id is_mobile

  -- The user of the token that is presented, before it is rotated.
  abbrev pub token_user : Text → World → Option User
  token_user raw w = elim (find_first (has_hash (env.auth.hash raw)) w.refresh_tokens) [
    | none ↦ none
    | some stored ↦ find_first (has_id stored.user_id) w.users
  ]

  unfoldable pub refresh : Time → Text → Option Text → Option Text → Bool → Exec RefreshReply
  refresh now new_refresh cookie body is_mobile = elim (presented cookie body) [
    | none ↦ pure no_token
    | some raw ↦ do
      user ← read (token_user raw)
      out ← attempt (rotate env.auth.hash env.auth.refresh_days now raw new_refresh)
      elim out [
        | none ↦ pure bad_token
        | some token ↦ elim user [
          | none ↦ pure user_gone
          | some u ↦ pure (refreshed u token is_mobile)
        ]
      ]
  ]

  unfoldable pub two_fa_setup : Option Text → List Text → Cuid → Exec SetupReply
  two_fa_setup base32 raws user_id = do
    gate ← can_setup user_id
    elim gate [
      | unknown_user ↦ pure (setup_refused unknown_user)
      | already_enabled ↦ pure (setup_refused already_enabled)
      | ready email ↦ do
        codes ← generate_secret env.auth.hash base32 raws user_id
        log_audit (some user_id) two_factor_setup_initiated
        pure (backup_codes codes)
    ]

  -- The answer `ok` of the route.
  unfoldable pub two_fa_disable : Cuid → Option Text → Exec Bool
  two_fa_disable user_id token = elim (present token) [
    | none ↦ pure false
    | some code ↦ disable_totp env.passes user_id code
  ]
