-- ===== src/Tokens/Reach.antt =====
-- The refresh tokens in every run of backend/src/security/token-refresh.service.ts.
use corcy.Prelude.{ℕ, ◌≡◌, [], Text, arith}
use corcy.Store.{Cuid, Time, World}
use corcy.Store.Table.{count}
use corcy.Store.Table.Laws.{count-delete_many-le}
use corcy.Tokens.{owned_by, issue_pair, rotate, revoke_all_for_user}
use corcy.Tokens.Devices.{FewDevices, issue_pair-FewDevices, rotate-FewDevices}

-- A login issues a token, a refresh rotates one, a logout revokes those of a user; what other
-- services do leaves the table as it is.
pub data TokenStep (hash : Text → Text) (refresh_days : ℕ) (w v : World) : Type 0 where
  issues :
      (now : Time) (raw : Text) (user_id : Cuid)
      → v ≡ (issue_pair hash refresh_days now raw user_id w).1
      → TokenStep hash refresh_days w v
  rotates :
      (now : Time) (raw new : Text)
      → v ≡ (rotate hash refresh_days now raw new w).1
      → TokenStep hash refresh_days w v
  revokes :
      (user_id : Cuid) → v ≡ (revoke_all_for_user user_id w).1 → TokenStep hash refresh_days w v
  elsewhere : v.refresh_tokens ≡ w.refresh_tokens → TokenStep hash refresh_days w v

pub data TokenReach (hash : Text → Text) (refresh_days : ℕ) (w : World) : World → Type 0 where
  start : w.refresh_tokens ≡ [] → TokenReach hash refresh_days w w
  next :
      {v u : World}
      → TokenReach hash refresh_days w v
      → TokenStep hash refresh_days v u
      → TokenReach hash refresh_days w u

revoke-FewDevices : (u : Cuid) (w : World) → FewDevices w → FewDevices (revoke_all_for_user u w).1
unfolding revoke_all_for_user
revoke-FewDevices u w h v =
    omega (arith, h v, count-delete_many-le (owned_by v) (owned_by u) w.refresh_tokens)

module _ {hash : Text → Text} {refresh_days : ℕ} where
  step-FewDevices : {w v : World} → TokenStep hash refresh_days w v → FewDevices w → FewDevices v
  step-FewDevices {w} (issues now raw u e) h =
      rw e (issue_pair-FewDevices hash refresh_days now raw u w h)
  step-FewDevices {w} (rotates now raw new e) h =
      rw e (rotate-FewDevices hash refresh_days now raw new w h)
  step-FewDevices {w} (revokes u e) h = rw e (revoke-FewDevices u w h)
  step-FewDevices (elsewhere e) h = λ u. rw e (h u)

  -- From an empty table of refresh tokens, whatever tokens are issued, rotated and revoked, each user
  -- has at most ten.
  pub TokenReach-FewDevices : {w v : World} → TokenReach hash refresh_days w v → FewDevices v
  TokenReach-FewDevices (start e) = λ u. rw e (unfold count in omega arith)
  TokenReach-FewDevices (next r step) = step-FewDevices step (TokenReach-FewDevices r)
