-- ===== src/Tokens.antt =====
-- backend/src/security/token-refresh.service.ts: refresh tokens, their rotation and the limit of
-- devices. SHA-256 is the parameter `hash`; the random token is an argument. The signed access token
-- is not modelled: it is the library's, from the user's id, address and admin flag.
pub mod Devices
pub mod Reach
pub mod Rotation
use corcy.Prelude.{
  ℕ, ◌+◌, ◌*◌, Bool, true, false, not, ◌&&◌, ◌||◌, Option, none, some, List, [], ◌∷◌, ◌==◌, ltb,
  leb, length, is_some, Text, text_eq, if◌then◌else◌,
}
use corcy.Store.{
  Cuid, Time, User, RefreshToken, World, unauthorized, refresh_token_reuse_or_invalid, Exec, pure,
  throw, read, write, throw_if, some_or, continue, log_audit, ◌>>=◌, ◌>>◌,
}
use corcy.Store.Table.{find_first, find_many, delete_many}
use corcy.Store.Order.{sort_asc}
use corcy.Plans.Guard.{has_id}

abbrev pub has_hash : Text → RefreshToken → Bool
has_hash h t = text_eq t.token_hash h

abbrev pub owned_by : Cuid → RefreshToken → Bool
owned_by user_id t = t.user_id == user_id

abbrev pub max_devices : ℕ
max_devices = 10

-- 24 * 60 * 60 * 1000
abbrev pub day_ms : ℕ
day_ms = 86400000

-- Deletes the oldest token of a full list.
unfoldable pub drop_oldest : List RefreshToken → World → World
drop_oldest [] w = w
drop_oldest (oldest ∷ rest) w =
    if leb max_devices (length (oldest ∷ rest))
    then record w { refresh_tokens = delete_many (has_hash oldest.token_hash) w.refresh_tokens }
    else w

abbrev pub active_tokens : Cuid → World → List RefreshToken
active_tokens user_id w =
    sort_asc (λ (t : RefreshToken). t.expires_at) (find_many (owned_by user_id) w.refresh_tokens)

-- The refusal of a token that is not stored, or has run out.
unfoldable pub refuse : Option RefreshToken → Exec Text
refuse none = throw unauthorized
refuse (some stored) = do
  write (λ w. record w { refresh_tokens = delete_many (owned_by stored.user_id) w.refresh_tokens })
  log_audit (some stored.user_id) refresh_token_reuse_or_invalid
  throw unauthorized

abbrev pub is_usable : Time → Option RefreshToken → Bool
is_usable now none = false
is_usable now (some stored) = not (ltb stored.expires_at now)

module _ (hash : Text → Text) (refresh_days : ℕ) where
  -- `issuePair`; returns the refresh token.
  unfoldable pub issue_pair : Time → Text → Cuid → Exec Text
  unfolding drop_oldest
  issue_pair now raw_refresh user_id = do
    write (λ w. record w {
      refresh_tokens =
          delete_many (λ t. owned_by user_id t && ltb t.expires_at now) w.refresh_tokens;
    })
    active ← read (active_tokens user_id)
    write (drop_oldest active)
    write (λ w. record w {
      refresh_tokens =
          record {
            user_id = user_id;
            token_hash = hash raw_refresh;
            expires_at = now + refresh_days * day_ms;
          }
          ∷ w.refresh_tokens;
    })
    pure raw_refresh

  -- `rotate`: `new_refresh` is the token that `issuePair` draws.
  unfoldable pub rotate : Time → Text → Text → Exec Text
  rotate now raw_refresh new_refresh = do
    found ← read (λ w. find_first (has_hash (hash raw_refresh)) w.refresh_tokens)
    if not (is_usable now found) then refuse found else do
      stored ← some_or found unauthorized
      user ← read (λ w. find_first (has_id stored.user_id) w.users)
      u ← some_or user unauthorized
      write (λ w. record w {
        refresh_tokens = delete_many (has_hash (hash raw_refresh)) w.refresh_tokens;
      })
      issue_pair now new_refresh u.id

unfoldable pub revoke_all_for_user : Cuid → Exec (Unit {0})
revoke_all_for_user user_id =
    write (λ w. record w { refresh_tokens = delete_many (owned_by user_id) w.refresh_tokens })
