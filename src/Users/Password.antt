-- ===== src/Users/Password.antt =====
-- The login after a change of the password.
use mathlib.Core.Path.{subst}
use corcy.Prelude.{
  ◌≡◌, sym, refl, inl, inr, Bool, true, false, some, Text, arith, Bool-cases, if◌then◌else◌,
}
use corcy.Store.{Cuid, Time, User, World, ok}
use corcy.Store.Table.{find_first, update}
use corcy.Store.Table.Laws.{
  find_first-update, find_first-update_self, find_first-holds, find_first-eq-exists,
}
use corcy.Plans.Guard.{has_id}
use corcy.Connections.Invites.{has_email}
use corcy.Auth.{AuthEnv, signed_in, failed, bad_credentials, normal_email}
use corcy.Auth.SignIn.{login}
use corcy.Auth.Login.{login-ok, session_of}
use corcy.Users.{change_password}

module _ (env : AuthEnv) (user_id : Cuid) (current_password new_password : Text) (w : World) where
  abbrev changed : World
  changed =
      (change_password env.hash_password env.verify_password user_id current_password new_password
        w).1

  abbrev rehashed : User → User
  rehashed u = record u { password_hash = env.hash_password new_password }

  users-changed :
      (u : User)
      → find_first (has_id user_id) w.users ≡ some u
      → (change_password env.hash_password env.verify_password user_id current_password new_password
          w).0
        ≡ ok tt
      → changed.users ≡ update (has_id user_id) rehashed w.users
  users-changed u found done =
      let known = find_first-eq-exists (has_id user_id) w.users in
      unfold change_password in ground (arith, found, done, known)

  module _ (u : User) (email : Text) (found : find_first (has_id user_id) w.users ≡ some u)
      (by_email : find_first (has_email (normal_email env email)) w.users ≡ some u)
      (done : (change_password env.hash_password env.verify_password user_id current_password
          new_password w).0
        ≡ ok tt) where
    id_of : u.id ≡ user_id
    id_of = ground (arith, find_first-holds (has_id user_id) w.users u found)

    now_by_id : find_first (has_id user_id) changed.users ≡ some (rehashed u)
    now_by_id = ground (
      arith,
      found,
      users-changed u found done,
      find_first-update_self (has_id user_id) rehashed w.users (λ x. refl),
    )

    now_by_email : find_first (has_email (normal_email env email)) changed.users ≡ some (rehashed u)
    now_by_email = ground (
      arith,
      by_email,
      users-changed u found done,
      id_of,
      find_first-update (has_email (normal_email env email)) (has_id user_id) rehashed w.users
          (λ x. refl),
    )

    -- After a change of the password, a login of a verified user with no second factor succeeds
    -- with a password that passes the new hash, and fails with one that does not.
    pub change_password-login :
        (now : Time) (raw password : Text) (mobile : Bool)
        → u.is_verified ≡ true
        → u.totp_enabled ≡ false
        → (login env now raw email password mobile changed).0 ≡ (
            if env.verify_password password (env.hash_password new_password)
            then ok (signed_in (session_of u raw mobile))
            else ok (failed bad_credentials))
    change_password-login now raw password mobile verified plain =
        elim (Bool-cases (env.verify_password password (env.hash_password new_password))) [
          | inl passes ↦ rw passes (
              login-ok env now raw email password mobile changed (rehashed u) now_by_email
                (subst (λ (i : Cuid). find_first (has_id i) changed.users ≡ some (rehashed u))
                  (sym id_of) now_by_id)
                passes verified plain)
          | inr fails ↦ unfold login in ground (arith, fails, now_by_email)
        ]
