-- ===== src/Auth/Login.antt =====
-- When a login hands out tokens.
use corcy.Prelude.{
  ℕ, ltb, leb, length, ap, Bool-cases, List, [], ◌∷◌, ◌&&◌, ◌≡◌, ◌≤◌, ◌↔◌, inl, inr, refl, Bool,
  true, false, some, Text, arith, Option-cases, ==_refl,
}
use corcy.Store.{Cuid, Time, User, RefreshToken, World, ok}
use corcy.Store.Table.{find_first, count, delete_many}
use corcy.Store.Table.Laws.{find_first_by_unique}
use corcy.Plans.Guard.{has_id}
use corcy.Connections.Invites.{has_email}
use corcy.Tokens.{issue_pair, max_devices, drop_oldest, active_tokens, owned_by}
use corcy.Auth.{AuthEnv, Session, signed_in, normal_email}
use corcy.Auth.SignIn.{issue_full_tokens, login}

-- Ids of users occur once.
abbrev pub UniqueUsers : World → Type 0
UniqueUsers w = (i : Cuid) → count (has_id i) w.users ≤ 1

issue_pair-ok :
    (hash : Text → Text) (days : ℕ) (now : Time) (raw : Text) (u : Cuid) (w : World)
    → (issue_pair hash days now raw u w).0 ≡ ok raw
unfolding issue_pair
issue_pair-ok hash days now raw u w = refl

abbrev pub session_of : User → Text → Bool → Session
session_of u raw mobile = record {
  user_id = u.id;
  is_admin = u.is_admin;
  refresh_token = raw;
  in_body = mobile;
}

pub issue_full_tokens-ok :
    (env : AuthEnv) (now : Time) (raw : Text) (u : User) (mobile : Bool) (w : World)
    → find_first (has_id u.id) w.users ≡ some u
    → (issue_full_tokens env now raw u.id mobile w).0 ≡ ok (session_of u raw mobile)
unfolding issue_full_tokens
issue_full_tokens-ok env now raw u mobile w found =
    ground (arith, found, issue_pair-ok env.hash env.refresh_days now raw u.id w)

drop_oldest-frame :
    (ts : List RefreshToken) (w : World)
    → drop_oldest ts w ≡ record w { refresh_tokens = (drop_oldest ts w).refresh_tokens }
unfolding drop_oldest
drop_oldest-frame [] w = refl
drop_oldest-frame (t ∷ ts) w = elim (Bool-cases (leb max_devices (length (t ∷ ts)))) [
  | inl full ↦ ground (arith, full)
  | inr room ↦ ground (arith, room)
]

issue_pair-frame :
    (hash : Text → Text) (days : ℕ) (now : Time) (raw : Text) (u : Cuid) (w : World)
    → (issue_pair hash days now raw u w).1
      ≡ record w { refresh_tokens = (issue_pair hash days now raw u w).1.refresh_tokens }
unfolding issue_pair
issue_pair-frame hash days now raw u w =
    let v = record w {
      refresh_tokens = delete_many (λ t. owned_by u t && ltb t.expires_at now) w.refresh_tokens;
    } in
    ground (arith, drop_oldest-frame (active_tokens u v) v)

-- Handing out tokens writes refresh tokens and nothing else.
pub issue_full_tokens-frame :
    (env : AuthEnv) (now : Time) (raw : Text) (u : Cuid) (mobile : Bool) (w : World)
    → (issue_full_tokens env now raw u mobile w).1
      ≡ record w { refresh_tokens = (issue_full_tokens env now raw u mobile w).1.refresh_tokens }
unfolding issue_full_tokens
issue_full_tokens-frame env now raw u mobile w =
    elim (Option-cases (find_first (has_id u) w.users)) [
      | inl missing ↦ ground (arith, missing)
      | inr (row, found) ↦ ground (
        arith,
        found,
        issue_pair-ok env.hash env.refresh_days now raw row.id w,
        issue_pair-frame env.hash env.refresh_days now raw row.id w,
      )
    ]

pub issue_full_tokens-users :
    (env : AuthEnv) (now : Time) (raw : Text) (u : Cuid) (mobile : Bool) (w : World)
    → (issue_full_tokens env now raw u mobile w).1.users ≡ w.users
issue_full_tokens-users env now raw u mobile w =
    ap (λ (v : World). v.users) (issue_full_tokens-frame env now raw u mobile w)

module _ (env : AuthEnv) (now : Time) (raw email password : Text) (mobile : Bool) (w : World) where
  pub login-ok :
      (u : User)
      → find_first (has_email (normal_email env email)) w.users ≡ some u
      → find_first (has_id u.id) w.users ≡ some u
      → env.verify_password password u.password_hash ≡ true
      → u.is_verified ≡ true
      → u.totp_enabled ≡ false
      → (login env now raw email password mobile w).0 ≡ ok (signed_in (session_of u raw mobile))
  unfolding login
  login-ok u found by_id passes verified plain =
      ground
        (arith, found, passes, verified, plain, issue_full_tokens-ok env now raw u mobile w by_id)

  -- Where ids of users occur once, a login signs in exactly a user of the address whose password
  -- passes, whose address is verified and who has no second factor, and as this user.
  pub login-signed_in_iff :
      (s : Session)
      → UniqueUsers w
      → ((login env now raw email password mobile w).0 ≡ ok (signed_in s)) ↔ (
          (u : User) × (find_first (has_email (normal_email env email)) w.users ≡ some u)
          × (env.verify_password password u.password_hash ≡ true)
          × (u.is_verified ≡ true)
          × (u.totp_enabled ≡ false)
          × (s ≡ session_of u raw mobile))
  login-signed_in_iff s unique = (
    λ e. elim (Option-cases (find_first (has_email (normal_email env email)) w.users)) [
      | inl missing ↦ absurd (unfold login in ground (arith, missing, e))
      | inr (u, found) ↦
          let out = issue_full_tokens-ok env now raw u mobile w (by_id u found) in
          (
            u,
            found,
            unfold login in ground (arith, found, e, out),
            unfold login in ground (arith, found, e, out),
            unfold login in ground (arith, found, e, out),
            unfold login in ground (arith, found, e, out),
          )
    ],
    λ (u, found, passes, verified, plain, same).
        rw same (login-ok u found (by_id u found) passes verified plain),
  )
    where
      by_id :
          (u : User)
          → find_first (has_email (normal_email env email)) w.users ≡ some u
          → find_first (has_id u.id) w.users ≡ some u
      by_id u found =
          find_first_by_unique (has_email (normal_email env email)) (has_id u.id) w.users u found
            (==_refl u.id) (unique u.id)
