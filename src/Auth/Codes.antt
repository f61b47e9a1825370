-- ===== src/Auth/Codes.antt =====
-- A mailed code is used once.
use corcy.Prelude.{
  ◌≡◌, ◌≤◌, ◌<◌, ap, ◌∙◌, inl, inr, refl, Bool, true, ◌&&◌, some, none, List, [], ◌∷◌, Text, All,
  arith, Option-cases, length, ==_refl,
}
use corcy.Store.{Cuid, Time, User, EmailVerification, World, welcome_mail, Result, ok, Result-cases}
use corcy.Store.Table.{find_first, find_many, count, update, delete_many}
use corcy.Store.Table.Laws.{
  find_many-none, find_first-update, find_first-none, count-delete_self, count_split,
  All-find_many_counted,
}
use corcy.Store.Order.{sort_desc}
use corcy.Store.Order.Laws.{All-sort_desc}
use corcy.Plans.Guard.{has_id}
use corcy.Connections.Invites.{has_email}
use corcy.Messages.{or_text, local_part}
use corcy.RateLimit.{has_key, check_rate_limit, increment_rate_limit, clear_rate_limit}
use corcy.TwoFactor.{digits_of}
use corcy.Auth.{AuthEnv, Session, AuthReply, signed_in, failed, bad_code, normal_email}
use corcy.Auth.SignIn.{
  issue_full_tokens, is_code, newest_code, verify_key, first_of, has_verification_id, mark_verified,
  accept_code, fail_attempt, try_code, verify_email,
}
use corcy.Auth.Login.{issue_full_tokens-frame}

first_of-All :
    (P : EmailVerification → Type 0) (xs : List EmailVerification) (v : EmailVerification)
    → All P xs
    → first_of xs ≡ some v
    → P v
first_of-All P [] v h e = absurd (cc e)
first_of-All P (x ∷ xs) v (p, h) e = let same : x ≡ v = ground arith in rw same at p

-- The newest code is in the table.
newest_code-held :
    (u : Cuid) (h : Text) (w : World) (v : EmailVerification)
    → newest_code u h w ≡ some v
    → 0 < count (λ x. is_code u h x && has_verification_id v.id x) w.verifications
newest_code-held u h w v e =
    let p = is_code u h in
    let held =
      first_of-All
        (λ x.
          (p x ≡ true)
          × ((q : EmailVerification → Bool)
              → q x ≡ true
              → 0 < count (λ y. p y && q y) w.verifications))
        (sort_desc (λ (x : EmailVerification). x.created_at) (find_many p w.verifications)) v
        (All-sort_desc _ (λ (x : EmailVerification). x.created_at) (find_many p w.verifications)
          (All-find_many_counted p w.verifications))
        e in
    held.1 (has_verification_id v.id) (==_refl v.id)

newest_code_gone :
    (u : Cuid) (h : Text) (w : World) (v : EmailVerification)
    → newest_code u h w ≡ some v
    → count (is_code u h) w.verifications ≤ 1
    → (x : World) → x.verifications ≡ delete_many (has_verification_id v.id) w.verifications
    → newest_code u h x ≡ none
newest_code_gone u h w v e once x rows =
    let gone =
      find_many-none (is_code u h) (delete_many (has_verification_id v.id) w.verifications) (
        omega (
          arith,
          once,
          newest_code-held u h w v e,
          count_split (is_code u h) (has_verification_id v.id) w.verifications,
        )) in
    unfold sort_desc in ground (arith, rows, gone)

tried :
    (env : AuthEnv) (now : Time) (raw email code : Text) (mobile : Bool) (w : World)
    → length (digits_of code) ≡ 6
    → find_first (has_key (verify_key (normal_email env email))) w.rate_limits ≡ none
    → verify_email env now raw email code mobile w
      ≡ try_code env now raw (normal_email env email) code mobile w
unfolding verify_email check_rate_limit
tried env now raw email code mobile w six clear = rw (six, clear) refl

refused :
    (env : AuthEnv) (now : Time) (raw email code : Text) (mobile : Bool) (w : World) (u : User)
    → find_first (has_email email) w.users ≡ some u
    → newest_code u.id (env.hash (digits_of code)) w ≡ none
    → (try_code env now raw email code mobile w).0 ≡ ok (failed bad_code)
unfolding try_code fail_attempt increment_rate_limit
refused env now raw email code mobile w u found gone = ground (arith, found, gone)

module _ (env : AuthEnv) (now : Time) (raw email code : Text) (mobile : Bool) (w : World) where
  abbrev verified : World
  verified = (verify_email env now raw email code mobile w).1

  abbrev key : Text
  key = verify_key (normal_email env email)

  abbrev Accepted : World → User → EmailVerification → Type 0
  Accepted x u v =
      (x.users ≡ update (has_id u.id) mark_verified w.users)
      × (x.verifications ≡ delete_many (has_verification_id v.id) w.verifications)
      × (x.rate_limits ≡ delete_many (has_key key) w.rate_limits)

  accept_code-tables :
      (u : User) (v : EmailVerification)
      → Accepted (accept_code env now raw (normal_email env email) u v mobile w).1 u v
  accept_code-tables u v =
      let marked = record w {
        users = update (has_id u.id) mark_verified w.users;
        verifications = delete_many (has_verification_id v.id) w.verifications;
        rate_limits = delete_many (has_key key) w.rate_limits;
        mails = welcome_mail u.email (or_text u.name (local_part u.email)) ∷ w.mails;
      } in
      let rows = issue_full_tokens-frame env now raw u.id mobile marked in
      elim (Result-cases (issue_full_tokens env now raw u.id mobile marked).0) [
        | inl (f, thrown) ↦
            unfold accept_code clear_rate_limit in
            (
              ground (arith, rows, thrown),
              ground (arith, rows, thrown),
              ground (arith, rows, thrown),
            )
        | inr (out, done) ↦
            unfold accept_code clear_rate_limit in
            (ground (arith, rows, done), ground (arith, rows, done), ground (arith, rows, done))
      ]

  -- Who is signed in by a code had it stored.
  verify_email-accepts :
      (s : Session)
      → (verify_email env now raw email code mobile w).0 ≡ ok (signed_in s)
      → (u : User) × (v : EmailVerification) × (find_first
            (has_email (normal_email env email))
            w.users
          ≡ some u)
        × (newest_code u.id (env.hash (digits_of code)) w ≡ some v)
        × (length (digits_of code) ≡ 6)
        × (verified ≡ (accept_code env now raw (normal_email env email) u v mobile w).1)
  verify_email-accepts s e =
      elim (Option-cases (find_first (has_email (normal_email env email)) w.users)) [
        | inl missing ↦ absurd (
            unfold verify_email check_rate_limit try_code fail_attempt in
            ground (arith, missing, e))
        | inr (u, found) ↦ elim (Option-cases (newest_code u.id (env.hash (digits_of code)) w)) [
          | inl none_left ↦ absurd (
              unfold verify_email check_rate_limit try_code fail_attempt in
              ground (arith, found, none_left, e))
          | inr (v, stored) ↦ (
            u,
            v,
            found,
            stored,
            unfold verify_email in ground (arith, e),
            unfold verify_email check_rate_limit try_code fail_attempt in
                ground (arith, found, stored, e),
          )
        ]
      ]

  -- A code that signed somebody in is refused from then on as a wrong code, where nothing else
  -- happens in between and no user had it twice.
  pub verify_email_once :
      (s : Session) (later : Time) (next_raw : Text) (next_mobile : Bool)
      → ((u : Cuid) → count (is_code u (env.hash (digits_of code))) w.verifications ≤ 1)
      → (verify_email env now raw email code mobile w).0 ≡ ok (signed_in s)
      → (verify_email env later next_raw email code next_mobile verified).0 ≡ ok (failed bad_code)
  verify_email_once s later next_raw next_mobile once e =
      let (u, v, found, stored, six, world) = verify_email-accepts s e in
      let (us, vs, rs) = accept_code-tables u v in
      let gone =
        newest_code_gone u.id (env.hash (digits_of code)) w v stored (once u.id) verified
          (ap (λ (x : World). x.verifications) world ∙ vs) in
      let users : find_first (has_email (normal_email env email)) verified.users
          ≡ some (mark_verified u) =
        ap (λ (x : World). find_first (has_email (normal_email env email)) x.users) world
        ∙ (ap (find_first (has_email (normal_email env email))) us
            ∙ ground (
              arith,
              found,
              ==_refl u.id,
              find_first-update (has_email (normal_email env email)) (has_id u.id) mark_verified
                  w.users (λ x. refl),
            )) in
      let clear : find_first (has_key key) verified.rate_limits ≡ none =
        ap (λ (x : World). find_first (has_key key) x.rate_limits) world
        ∙ (ap (find_first (has_key key)) rs
            ∙ find_first-none (has_key key) (delete_many (has_key key) w.rate_limits)
                (count-delete_self (has_key key) (has_key key) w.rate_limits (λ x k. k))) in
      ap (λ (r : Result AuthReply × World). r.0)
        (tried env later next_raw email code next_mobile verified six clear)
      ∙ refused env later next_raw (normal_email env email) code next_mobile verified
          (mark_verified u) users gone
