-- ===== src/TwoFactor.antt =====
-- backend/src/security/two-factor.service.ts. The check of a one-time password, SHA-256 and
-- `toUpperCase` are parameters, the drawn secret and codes arguments; the QR code is not modelled.
pub mod Codes
use corcy.Prelude.{
  ℕ, zero, suc, ◌+◌, Bool, true, false, not, ◌&&◌, ◌||◌, Option, none, some, List, [], ◌∷◌, ◌++◌,
  map, ◌==◌, leb, take, is_some, is_space, Text, text_eq, if◌then◌else◌,
}
use corcy.Store.{
  Cuid, Time, User, World, two_factor_enabled, two_factor_disabled, backup_code_used,
  record_missing, throw_if, Exec, pure, read, write, continue, log_audit, ◌>>=◌, ◌>>◌,
}
use corcy.Store.Table.{find_first, update, exists}
use corcy.Plans.Guard.{has_id}

pub data Setup : Type 0 where
  unknown_user already_enabled : Setup
  ready : Text → Setup

abbrev setup_of : Option User → Setup
setup_of none = unknown_user
setup_of (some u) = if u.totp_enabled then already_enabled else ready u.email

unfoldable pub can_setup : Cuid → Exec Setup
can_setup user_id = read (λ w. setup_of (find_first (has_id user_id) w.users))

abbrev pub set_user : Cuid → (User → User) → World → World
set_user user_id f w = record w { users = update (has_id user_id) f w.users }

drop : ℕ → Text → Text
drop zero s = s
drop (suc n) [] = []
drop (suc n) (_ ∷ s) = drop n s

-- Four groups of five with dashes between.
unfoldable pub format_code : Text → Text
unfolding drop
format_code raw =
    take 5 raw
    ++ (b'-' ∷ take 5 (drop 5 raw)
        ++ (b'-' ∷ take 5 (drop 10 raw) ++ (b'-' ∷ take 5 (drop 15 raw))))

-- `s.replace(/…/g, '')`
unfoldable pub without : (ℕ → Bool) → Text → Text
without p [] = []
without p (c ∷ s) = let rest = without p s in if p c then rest else c ∷ rest

abbrev is_dash : ℕ → Bool
is_dash c = c == b'-'

abbrev is_separator : ℕ → Bool
is_separator c = c == b'-' || is_space c

abbrev is_not_digit : ℕ → Bool
is_not_digit c = not (leb b'0' c && leb c b'9')

-- `String(token).replace(/\D/g, '').slice(0, 6)`
abbrev pub digits_of : Text → Text
digits_of token = take 6 (without is_not_digit token)

-- `indexOf`, `splice(index, 1)`
unfoldable pub index_of : Text → List Text → Option ℕ
index_of h [] = none
index_of h (c ∷ cs) = elim (index_of h cs) [
  | none ↦ if text_eq c h then some 0 else none
  | some i ↦ if text_eq c h then some 0 else some (suc i)
]

unfoldable pub remove_at : ℕ → List Text → List Text
remove_at n [] = []
remove_at zero (c ∷ cs) = cs
remove_at (suc n) (c ∷ cs) = c ∷ remove_at n cs

module _ (hash : Text → Text) where
  -- Returns the codes that the user is shown. Prisma's `update` throws where there is no row.
  unfoldable pub generate_secret : Option Text → List Text → Cuid → Exec (List Text)
  generate_secret base32 raws user_id = do
    known ← read (λ w. exists (has_id user_id) w.users)
    throw_if (not known) record_missing
    write (set_user user_id (λ u. record u { pending_totp_secret = base32 }))
    let codes = map format_code raws
    write (
        set_user user_id
          (λ u. record u { backup_codes = map (λ c. hash (without is_dash c)) codes }))
    pure codes

  module _ (to_upper : Text → Text) where
    abbrev pub code_hash : Text → Text
    code_hash raw_code = hash (to_upper (without is_separator raw_code))

    unfoldable pub verify_and_consume_backup_code : Cuid → Text → Exec Bool
    verify_and_consume_backup_code user_id raw_code = do
      user ← read (λ w. find_first (has_id user_id) w.users)
      elim user [
        | none ↦ pure false
        | some u ↦ elim (index_of (code_hash raw_code) u.backup_codes) [
          | none ↦ pure false
          | some i ↦ do
            write
                (set_user user_id (λ row. record row { backup_codes = remove_at i u.backup_codes }))
            log_audit (some user_id) backup_code_used
            pure true
        ]
      ]

-- An empty secret counts as none.
abbrev pub present : Option Text → Option Text
present none = none
present (some []) = none
present (some (c ∷ s)) = some (c ∷ s)

abbrev pub pending_of : Option User → Option Text
pending_of none = none
pending_of (some u) = present u.pending_totp_secret

module _ (verify : Text → Text → Bool) where
  unfoldable pub activate_totp : Time → Cuid → Text → Exec Bool
  activate_totp now user_id token = do
    user ← read (λ w. find_first (has_id user_id) w.users)
    elim (pending_of user) [
      | none ↦ pure false
      | some secret ↦ if not (verify secret (digits_of token)) then pure false else do
        write (
            set_user user_id (λ u. record u {
              totp_secret = some secret;
              pending_totp_secret = none;
              totp_enabled = true;
              totp_enabled_at = some now;
            }))
        log_audit (some user_id) two_factor_enabled
        pure true
    ]

  abbrev verified : Text → Option User → Bool
  verified token none = false
  verified token (some u) = elim (present u.totp_secret) [
    | none ↦ false
    | some secret ↦ u.totp_enabled && verify secret (digits_of token)
  ]

  unfoldable pub verify_totp : Cuid → Text → Exec Bool
  verify_totp user_id token = read (λ w. verified token (find_first (has_id user_id) w.users))

  unfoldable pub disable_totp : Cuid → Text → Exec Bool
  unfolding verify_totp
  disable_totp user_id token = do
    passed ← verify_totp user_id token
    if not passed then pure false else do
      write (
          set_user user_id (λ u. record u {
            totp_secret = none;
            pending_totp_secret = none;
            totp_enabled = false;
            backup_codes = [];
          }))
      log_audit (some user_id) two_factor_disabled
      pure true
