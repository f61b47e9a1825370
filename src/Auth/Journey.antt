-- ===== src/Auth/Journey.antt =====
-- From a registration to the first login.
use mathlib.Core.Path.{subst}
use corcy.Prelude.{
  ◌+◌, ◌≡◌, ◌≤◌, sym, ap, ◌∙◌, inl, inr, refl, Bool, true, Option, some, none, ◌∷◌, Text,
  text_eq_refl, length, arith, Option-cases, ==_refl,
}
use corcy.Store.{
  Time, User, EmailVerification, verification_mail, Invite, World, Result, welcome_mail,
  Result-cases, ok,
}
use corcy.Store.Table.{find_first, find_many, count, update, delete_many}
use corcy.Store.Table.Laws.{
  find_first-none, find_many-none, count_mono, find_first-update, find_first-update_self,
}
use corcy.Store.Order.{sort_desc, insert_desc}
use corcy.Plans.Guard.{has_id}
use corcy.Connections.Invites.{has_email, has_token}
use corcy.Messages.{or_text, local_part}
use corcy.RateLimit.{has_key, check_rate_limit, clear_rate_limit}
use corcy.TwoFactor.{digits_of}
use corcy.Auth.{
  AuthEnv, AuthReply, signed_in, normal_email, RegisterDraw, RegisterReply, need_verification,
  register, create_account, settle_invite, check_register_invite, usable, rejected, new_user,
  new_code, is_secret, ten_minutes_ms,
}
use corcy.Auth.SignIn.{
  login, codes_of, is_code, newest_code, verify_key, mark_verified, has_verification_id,
  accept_code, try_code, verify_email,
}
use corcy.Auth.Login.{issue_full_tokens-ok, issue_full_tokens-users, login-ok, session_of}

-- A right code signs the user in, and leaves the user's row verified.
module _ (env : AuthEnv) (now : Time) (raw email : Text) (u : User) (c : EmailVerification)
    (mobile : Bool) (w : World) where
  abbrev accepted : Result AuthReply × World
  accepted = accept_code env now raw email u c mobile w

  abbrev marked : World
  marked = record w {
    users = update (has_id u.id) mark_verified w.users;
    verifications = delete_many (has_verification_id c.id) w.verifications;
    rate_limits = delete_many (has_key (verify_key email)) w.rate_limits;
    mails = welcome_mail u.email (or_text u.name (local_part u.email)) ∷ w.mails;
  }

  found_by_id :
      find_first (has_id u.id) w.users ≡ some u
      → find_first (has_id u.id) marked.users ≡ some (mark_verified u)
  found_by_id by_id =
      ground (arith, by_id, find_first-update_self (has_id u.id) mark_verified w.users (λ x. refl))

  found_by_email :
      find_first (has_email email) w.users ≡ some u
      → find_first (has_email email) marked.users ≡ some (mark_verified u)
  found_by_email by_email = ground (
    arith,
    by_email,
    ==_refl u.id,
    find_first-update (has_email email) (has_id u.id) mark_verified w.users (λ x. refl),
  )

  accepted-ok :
      find_first (has_id u.id) w.users ≡ some u
      → (accepted.0 ≡ ok (signed_in (session_of (mark_verified u) raw mobile)))
        × (accepted.1.users ≡ marked.users)
  accepted-ok by_id =
      let out =
        issue_full_tokens-ok env now raw (mark_verified u) mobile marked (found_by_id by_id) in
      let rows = issue_full_tokens-users env now raw u.id mobile marked in
      (
        unfold accept_code clear_rate_limit in ground (arith, out, rows),
        unfold accept_code clear_rate_limit in ground (arith, out, rows),
      )

module _ (env : AuthEnv) (now : Time) (d : RegisterDraw) (email password token : Text)
    (name : Option Text) (w : World) where
  abbrev pub joined_user : User
  joined_user =
      new_user env d.user_id (normal_email env email) name password
        (is_secret env.admin_secret token)

  abbrev after : World
  after = (register env now d email password token name w).1

  abbrev Tables : World → Type 0
  Tables v =
      (v.users ≡ joined_user ∷ w.users)
      × (v.verifications ≡ new_code env d.verification_id d.user_id now d.code ∷ w.verifications)
      × (v.rate_limits ≡ w.rate_limits)
      × (v.mails ≡ verification_mail (normal_email env email) d.code ∷ w.mails)

  settled :
      (admin : Bool) (inv : Option Invite) (v : World)
      → (((settle_invite env now d admin inv v).0 ≡ ok tt)
          × ((settle_invite env now d admin inv v).1.users ≡ v.users)
          × ((settle_invite env now d admin inv v).1.verifications ≡ v.verifications)
          × ((settle_invite env now d admin inv v).1.rate_limits ≡ v.rate_limits)
          × ((settle_invite env now d admin inv v).1.mails ≡ v.mails))
  unfolding settle_invite
  settled admin none v = (refl, refl, refl, refl, refl)
  settled admin (some i) v = (ground arith, ground arith, ground arith, ground arith, ground arith)

  created :
      (inv : Option Invite) (v : World)
      → v.users ≡ w.users
      → v.verifications ≡ w.verifications
      → v.rate_limits ≡ w.rate_limits
      → v.mails ≡ w.mails
      → (create_account env now d email password token name inv v).0
        ≡ ok (need_verification d.user_id (normal_email env email))
      → Tables (create_account env now d email password token name inv v).1
  created inv v a b c m e =
      let put = record v { users = joined_user ∷ v.users } in
      let (done, us, vs, rs, ms) = settled (is_secret env.admin_secret token) inv put in
      (
        unfold create_account in ground (arith, a, e, done, us),
        unfold create_account in ground (arith, b, e, done, vs),
        unfold create_account in ground (arith, c, e, done, rs),
        unfold create_account in ground (arith, m, e, done, ms),
      )

  untouched :
      ((check_register_invite env now token w).1.users ≡ w.users)
      × ((check_register_invite env now token w).1.verifications ≡ w.verifications)
      × ((check_register_invite env now token w).1.rate_limits ≡ w.rate_limits)
      × ((check_register_invite env now token w).1.mails ≡ w.mails)
  unfolding check_register_invite
  untouched = elim (Option-cases (find_first (has_token env.hash token) w.invites)) [
    | inl missing ↦ (
      ground (arith, missing),
      ground (arith, missing),
      ground (arith, missing),
      ground (arith, missing),
    )
    | inr (i, found) ↦
        (ground (arith, found), ground (arith, found), ground (arith, found), ground (arith, found))
  ]

  registered-Tables :
      (register env now d email password token name w).0
        ≡ ok (need_verification d.user_id (normal_email env email))
      → Tables after
  registered-Tables e = elim (Result-cases (check_register_invite env now token w).0) [
    | inl (f, thrown) ↦ absurd (unfold register in ground (arith, thrown, e))
    | inr (rejected r, said) ↦ absurd (unfold register in ground (arith, said, e))
    | inr (usable inv, said) ↦
        let v = (check_register_invite env now token w).1 in
        let same : register env now d email password token name w
            ≡ create_account env now d email password token name inv v =
          unfold register in ground (arith, said) in
        let (a, b, c, m) = untouched in
        subst (λ (r : Result RegisterReply × World). Tables r.1) (sym same)
          (created inv v a b c m (ap (λ (r : Result RegisterReply × World). r.0) (sym same) ∙ e))
  ]

  module _ (later : Time) (raw : Text) (mobile : Bool) (v : World) (ts : Tables v) where
    newest :
        count (codes_of d.user_id) w.verifications ≡ 0
        → newest_code d.user_id (env.hash d.code) v
          ≡ some (new_code env d.verification_id d.user_id now d.code)
    newest none_yet =
        let p = is_code d.user_id (env.hash d.code) in
        let none_more = find_many-none p w.verifications (
          omega (
            arith,
            none_yet,
            count_mono p (codes_of d.user_id) w.verifications (λ c k. ground (arith, k)),
          )) in
        unfold find_many sort_desc insert_desc in
        ground (arith, ts.1, none_more, ==_refl d.user_id, text_eq_refl (env.hash d.code))

    verified-ok :
        count (codes_of d.user_id) w.verifications ≡ 0
        → count (has_key (verify_key (normal_email env email))) w.rate_limits ≡ 0
        → digits_of d.code ≡ d.code
        → length d.code ≡ 6
        → later ≤ now + ten_minutes_ms
        → verify_email env later raw email d.code mobile v
          ≡ accept_code env later raw
              (normal_email env email)
              joined_user
              (new_code env d.verification_id d.user_id now d.code)
              mobile
              v
    verified-ok none_yet no_tries digits six soon =
        let fresh =
          find_first-none (has_key (verify_key (normal_email env email))) w.rate_limits no_tries in
        let known : find_first (has_email (normal_email env email)) v.users ≡ some joined_user =
          unfold find_first in ground (arith, ts.0, text_eq_refl (normal_email env email)) in
        unfold verify_email check_rate_limit try_code in
        ground (arith, digits, six, soon, known, newest none_yet, fresh, ts.2)

  -- Who registers with an address is sent one mail, with a code, to that address in its normal form;
  -- entering this code within ten minutes signs the user in, and the password does so after that at
  -- any time, where no code is stored for the new id, no attempt
  -- is counted for the address, the code is six digits and the password passes its own hash.
  pub register-verify_email-login :
      (registered : (register env now d email password token name w).0
        ≡ ok (need_verification d.user_id (normal_email env email)))
      (none_yet : count (codes_of d.user_id) w.verifications ≡ 0)
      (no_tries : count (has_key (verify_key (normal_email env email))) w.rate_limits ≡ 0)
      (digits : digits_of d.code ≡ d.code) (six : length d.code ≡ 6)
      (passes : env.verify_password password (env.hash_password password) ≡ true)
      (later then_on : Time) (raw next_raw : Text) (mobile : Bool)
      → later ≤ now + ten_minutes_ms
      → (after.mails ≡ verification_mail (normal_email env email) d.code ∷ w.mails)
        × ((verify_email env later raw email d.code mobile after).0
            ≡ ok (signed_in (session_of joined_user raw mobile)))
        × ((login env then_on next_raw email password mobile
              (verify_email env later raw email d.code mobile after).1).0
            ≡ ok (signed_in (session_of joined_user next_raw mobile)))
  register-verify_email-login registered none_yet no_tries digits six passes later then_on raw
        next_raw mobile soon =
      let ts = registered-Tables registered in
      let c = new_code env d.verification_id d.user_id now d.code in
      let e = normal_email env email in
      let by_id : find_first (has_id d.user_id) after.users ≡ some joined_user =
        unfold find_first in ground (arith, ts.0, ==_refl d.user_id) in
      let by_email : find_first (has_email e) after.users ≡ some joined_user =
        unfold find_first in ground (arith, ts.0, text_eq_refl e) in
      let same = verified-ok later raw mobile after ts none_yet no_tries digits six soon in
      let (out, rows) = accepted-ok env later raw e joined_user c mobile after by_id in
      (
        ts.3,
        ap (λ (r : Result AuthReply × World). r.0) same ∙ out,
        subst
            (λ (r : Result AuthReply × World).
              (login env then_on next_raw email password mobile r.1).0
              ≡ ok (signed_in (session_of joined_user next_raw mobile)))
            (sym same)
            (login-ok env then_on next_raw email password mobile
              (accepted env later raw e joined_user c mobile after).1 (mark_verified joined_user)
              (ap (find_first (has_email e)) rows
                ∙ found_by_email env later raw e joined_user c mobile after by_email)
              (ap (find_first (has_id d.user_id)) rows
                ∙ found_by_id env later raw e joined_user c mobile after by_id)
              passes refl refl),
      )
