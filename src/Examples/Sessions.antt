-- ===== src/Examples/Sessions.antt =====
-- Refresh tokens, counted attempts, and sockets.
use corcy.Prelude.{
  ℕ, ◌≤◌, ◌≡◌, ◌≢◌, ◌↔◌, refl, true, List, [], ◌∷◌, Text, codes, text_eq, text_eq_refl, arith,
}
use corcy.Store.{RefreshToken, World, empty_world, err, unauthorized}
use corcy.Store.Table.{count, find_first, find_many, delete_many}
use corcy.Store.Order.{sort_asc}
use corcy.Tokens.{issue_pair, rotate, drop_oldest, owned_by}
use corcy.Tokens.Devices.{FewDevices}
use corcy.Tokens.Reach.{start, next, issues, rotates, TokenReach-FewDevices}
use corcy.Tokens.Rotation.{rotate_once, rotate_expired}
use corcy.RateLimit.Window.{passed, passed_new-le}
use corcy.Gateway.{GatewayEvent, connects, disconnects, run, is_online}
use corcy.Gateway.Presence.{is_live, is_online-run_iff}
use corcy.Examples.{strangers}

abbrev hash : Text → Text
hash t = t

abbrev token : RefreshToken
token = record { user_id = 1; token_hash = codes "old"; expires_at = 100 }

abbrev signed_in : World
signed_in = record strangers { refresh_tokens = token ∷ [] }

abbrev elsewhere : RefreshToken
elsewhere = record { user_id = 2; token_hash = codes "other"; expires_at = 500 }

abbrev both_signed_in : World
both_signed_in = record strangers { refresh_tokens = token ∷ elsewhere ∷ [] }

rotate_once_example :
    rotate hash 7 60
      (codes "old")
      (codes "newest")
      (rotate hash 7 50 (codes "old") (codes "new") signed_in).1
    ≡ (err unauthorized, (rotate hash 7 50 (codes "old") (codes "new") signed_in).1)
rotate_once_example =
    rotate_once hash 7 50 (codes "old") (codes "new") signed_in (codes "new") (codes "newest") 60
      differ
      (unfold rotate issue_pair find_first find_many sort_asc drop_oldest delete_many text_eq in
        refl)
  where
    apart : text_eq (codes "old") (codes "new") ≡ true → ⊥
    apart same = unfold text_eq in cc same

    differ : hash (codes "old") ≢ hash (codes "new")
    differ e =
        let same : text_eq (codes "old") (codes "new") ≡ true =
          rw (← e) (text_eq_refl (codes "old")) in
        apart same

rotate_expired_example :
    ((rotate hash 7 200 (codes "old") (codes "new") both_signed_in).0 ≡ err unauthorized)
    × (count
          (owned_by 1)
          (rotate hash 7 200 (codes "old") (codes "new") both_signed_in).1.refresh_tokens
        ≡ 0)
    × (count
          (owned_by 2)
          (rotate hash 7 200 (codes "old") (codes "new") both_signed_in).1.refresh_tokens
        ≡ count (owned_by 2) both_signed_in.refresh_tokens)
rotate_expired_example =
    rotate_expired hash 7 200 (codes "old") (codes "new") both_signed_in token 2
      (unfold find_first text_eq in refl) (omega arith) (omega arith)

-- A login, a rotation of its token, and a second login.
abbrev logged_in : World
logged_in = (issue_pair hash 7 10 (codes "old") 1 strangers).1

abbrev refreshed : World
refreshed = (rotate hash 7 50 (codes "old") (codes "new") logged_in).1

TokenReach-FewDevices_example : FewDevices (issue_pair hash 7 60 (codes "newer") 1 refreshed).1
TokenReach-FewDevices_example = TokenReach-FewDevices (
    next
      (next (next {v = strangers} (start refl) (issues 10 (codes "old") 1 refl))
        (rotates 50 (codes "old") (codes "new") refl))
      (issues 60 (codes "newer") 1 refl))

passed_new-le_example : passed 2 1000 (codes "verify:1") (5 ∷ 10 ∷ 900 ∷ 901 ∷ []) empty_world ≤ 2
passed_new-le_example =
    passed_new-le 2 1000 (codes "verify:1") 5 (10 ∷ 900 ∷ 901 ∷ []) empty_world (omega arith)
      (unfold find_first in refl) (omega arith, (omega arith, (omega arith, tt)))

-- Two tabs, one of them closed.
abbrev tabs : List GatewayEvent
tabs = disconnects 1 20 ∷ connects 1 21 ∷ connects 1 20 ∷ []

is_online-run_iff_example : (is_online 1 (run tabs) ≡ true) ↔ ((s : ℕ) × (is_live 1 s tabs ≡ true))
is_online-run_iff_example = is_online-run_iff 1 tabs
