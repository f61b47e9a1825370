-- ===== src/Auth/SignIn.antt =====
-- backend/src/auth/auth.service.ts: verification of the address by a mailed code, and login.
use corcy.Prelude.{
  Bool, true, false, not, ◌&&◌, Option, none, some, List, [], ◌∷◌, ◌++◌, ◌==◌, ltb, length, Text,
  text_eq, codes, if◌then◌else◌,
}
use corcy.Store.{
  Cuid, Time, User, EmailVerification, World, record_missing, email_verified, login_failed,
  login_two_factor_required, user_login, verification_mail, welcome_mail, Exec, pure, read, write,
  some_or, log_audit, send_mail, ◌>>=◌, ◌>>◌,
}
use corcy.Store.Table.{find_first, find_many, update, delete_many}
use corcy.Store.Order.{sort_desc}
use corcy.Plans.Guard.{has_id}
use corcy.Connections.Invites.{has_email}
use corcy.Messages.{local_part, or_text}
use corcy.RateLimit.{check_rate_limit, increment_rate_limit, clear_rate_limit}
use corcy.Tokens.{issue_pair}
use corcy.TwoFactor.{digits_of}
use corcy.Auth.{
  AuthEnv, AuthError, bad_code, too_many_attempts, code_expired, bad_credentials, not_verified,
  Session, AuthReply, failed, need_two_factor, signed_in, ten_minutes_ms, normal_email, new_code,
}

abbrev pub first_of : List EmailVerification → Option EmailVerification
first_of [] = none
first_of (v ∷ _) = some v

abbrev pub is_code : Cuid → Text → EmailVerification → Bool
is_code user_id h v = v.user_id == user_id && text_eq v.code h

abbrev pub codes_of : Cuid → EmailVerification → Bool
codes_of user_id v = v.user_id == user_id

abbrev pub has_verification_id : Cuid → EmailVerification → Bool
has_verification_id id v = v.id == id

-- `findFirst` with `orderBy: { createdAt: 'desc' }`
abbrev pub newest_code : Cuid → Text → World → Option EmailVerification
newest_code user_id h w = first_of (
    sort_desc (λ (v : EmailVerification). v.created_at)
      (find_many (is_code user_id h) w.verifications))

abbrev pub verify_key : Text → Text
verify_key email = codes "verify:" ++ email

abbrev pub resend_key : Text → Text
resend_key email = codes "resend:" ++ email

abbrev pub mark_verified : User → User
mark_verified u = record u { is_verified = true }

module _ (env : AuthEnv) where
  unfoldable pub issue_full_tokens : Time → Text → Cuid → Bool → Exec Session
  issue_full_tokens now raw_refresh user_id is_mobile = do
    found ← read (λ w. find_first (has_id user_id) w.users)
    u ← some_or found record_missing
    refresh ← issue_pair env.hash env.refresh_days now raw_refresh u.id
    pure (record {
      user_id = u.id;
      is_admin = u.is_admin;
      refresh_token = refresh;
      in_body = is_mobile;
    })

  -- A wrong code counts as an attempt.
  unfoldable pub fail_attempt : Time → Text → AuthError → Exec AuthReply
  fail_attempt now email e = do
    increment_rate_limit ten_minutes_ms now (verify_key email)
    pure (failed e)

  -- `verifyEmail` behind a right code.
  unfoldable pub accept_code : Time → Text → Text → User → EmailVerification → Bool → Exec AuthReply
  unfolding issue_full_tokens
  accept_code now raw_refresh email u v is_mobile = do
    write (λ w. record w { users = update (has_id u.id) mark_verified w.users })
    write (λ w. record w { verifications = delete_many (has_verification_id v.id) w.verifications })
    clear_rate_limit (verify_key email)
    send_mail (welcome_mail u.email (or_text u.name (local_part u.email)))
    out ← issue_full_tokens now raw_refresh u.id is_mobile
    log_audit (some u.id) email_verified
    pure (signed_in out)

  -- `verifyEmail` behind the limit of attempts.
  unfoldable pub try_code : Time → Text → Text → Text → Bool → Exec AuthReply
  unfolding fail_attempt accept_code
  try_code now raw_refresh email code is_mobile = do
    user ← read (λ w. find_first (has_email email) w.users)
    elim user [
      | none ↦ fail_attempt now email bad_code
      | some u ↦ do
        found ← read (newest_code u.id (env.hash (digits_of code)))
        elim found [
          | none ↦ fail_attempt now email bad_code
          | some v ↦
              if ltb v.expires_at now
              then fail_attempt now email code_expired
              else accept_code now raw_refresh email u v is_mobile
        ]
    ]

  unfoldable pub verify_email : Time → Text → Text → Text → Bool → Exec AuthReply
  unfolding try_code
  verify_email now raw_refresh email code is_mobile =
      if not (length (digits_of code) == 6) then pure (failed bad_code) else do
        rl ← check_rate_limit 5 ten_minutes_ms now (verify_key (normal_email env email))
        if not rl.allowed
            then pure (failed too_many_attempts)
            else try_code now raw_refresh (normal_email env email) code is_mobile

  -- `resendVerification` for the user of the address; the answer is the same in every case.
  unfoldable pub send_new_code : Time → Cuid → Text → Text → Option User → Exec (Unit {0})
  send_new_code now verification_id code email none = pure tt
  send_new_code now verification_id code email (some u) = if u.is_verified then pure tt else do
    write (λ w. record w {
      verifications =
          new_code env verification_id u.id now code ∷ delete_many (codes_of u.id) w.verifications;
    })
    send_mail (verification_mail email code)

  unfoldable pub resend_verification : Time → Cuid → Text → Text → Exec (Unit {0})
  unfolding send_new_code
  resend_verification now verification_id code email = do
    rl ← check_rate_limit 3 ten_minutes_ms now (resend_key (normal_email env email))
    if not rl.allowed then pure tt else do
      increment_rate_limit ten_minutes_ms now (resend_key (normal_email env email))
      user ← read (λ w. find_first (has_email (normal_email env email)) w.users)
      send_new_code now verification_id code (normal_email env email) user

  -- `!user || !(await verifyPassword(…))`
  abbrev pub knows_password : Text → Option User → Bool
  knows_password password none = false
  knows_password password (some u) = env.verify_password password u.password_hash

  unfoldable pub login : Time → Text → Text → Text → Bool → Exec AuthReply
  unfolding issue_full_tokens
  login now raw_refresh email password is_mobile = do
    user ← read (λ w. find_first (has_email (normal_email env email)) w.users)
    if not (knows_password password user)
        then (do log_audit none login_failed; pure (failed bad_credentials))
        else do
          u ← some_or user record_missing
          if not u.is_verified
              then pure (failed not_verified)
              else if u.totp_enabled
              then (do
                log_audit (some u.id) login_two_factor_required
                pure (need_two_factor (env.sign_temp u.id)))
              else do
                out ← issue_full_tokens now raw_refresh u.id is_mobile
                log_audit (some u.id) user_login
                pure (signed_in out)
