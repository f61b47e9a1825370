-- ===== src/Tokens/Rotation.antt =====
-- What becomes of refresh tokens in a rotation.
use corcy.Prelude.{
  ℕ, ◌≤◌, ◌<◌, ◌≡◌, ◌≢◌, refl, Bool, ◌&&◌, none, some, List, [], ◌∷◌, ltb, Text, text_eq_iff, arith,
  Option-cases, inl, inr,
}
use corcy.Store.{Cuid, Time, RefreshToken, World, ok, err, unauthorized}
use corcy.Store.Table.{count, find_first, delete_many}
use corcy.Store.Table.Laws.{count-delete_many-le, count-delete_self, find_first-none}
use corcy.Plans.Guard.{has_id}
use corcy.Tokens.{has_hash, owned_by, active_tokens, drop_oldest, issue_pair, refuse, rotate}
use corcy.Tokens.Devices.{cleaned, issue_tokens}

drop_oldest_none :
    (p : RefreshToken → Bool) (ts : List RefreshToken) (w : World)
    → count p (drop_oldest ts w).refresh_tokens ≤ count p w.refresh_tokens
unfolding drop_oldest
drop_oldest_none p [] w = omega arith
drop_oldest_none p (t ∷ ts) w =
    ground (arith, count-delete_many-le p (has_hash t.token_hash) w.refresh_tokens)

count-delete_other :
    (u v : Cuid) (ts : List RefreshToken)
    → u ≢ v
    → count (owned_by u) (delete_many (owned_by v) ts) ≡ count (owned_by u) ts
unfolding count delete_many
count-delete_other u v [] d = refl
count-delete_other u v (t ∷ ts) d = ground (arith, count-delete_other u v ts d)

module _ (hash : Text → Text) (refresh_days : ℕ) (now : Time) (raw new : Text) (w : World) where
  abbrev spent : World
  spent = record w { refresh_tokens = delete_many (has_hash (hash raw)) w.refresh_tokens }

  rotate_success :
      (r : Text)
      → (rotate hash refresh_days now raw new w).0 ≡ ok r
      → (u : Cuid) × (rotate hash refresh_days now raw new w
          ≡ issue_pair hash refresh_days now new u spent)
  rotate_success r e = elim (Option-cases (find_first (has_hash (hash raw)) w.refresh_tokens)) [
    | inl missing ↦ absurd (unfold rotate refuse in ground (arith, missing, e))
    | inr (t, there) ↦ elim (Option-cases (find_first (has_id t.user_id) w.users)) [
      | inl nobody ↦ absurd (unfold rotate refuse in ground (arith, there, nobody, e))
      | inr (u, known) ↦ (u.id, unfold rotate refuse in ground (arith, there, known, e))
    ]
  ]

  gone :
      (u : Cuid)
      → hash raw ≢ hash new
      → find_first
          (has_hash (hash raw))
          (issue_pair hash refresh_days now new u spent).1.refresh_tokens
        ≡ none
  gone u other =
      let c = cleaned hash refresh_days now u spent in
      rw issue_tokens (
        find_first-none (has_hash (hash raw)) _ (
          unfold count in
          ground (
            arith,
            text_eq_iff (hash new) (hash raw),
            drop_oldest_none (has_hash (hash raw)) (active_tokens u c) c,
            count-delete_many-le (has_hash (hash raw)) (λ t. owned_by u t && ltb t.expires_at now)
                spent.refresh_tokens,
            count-delete_self (has_hash (hash raw)) (has_hash (hash raw)) w.refresh_tokens
                (λ x k. k),
          )))

  -- After a rotation that succeeds, with a new token of another hash, the old token is refused at
  -- any time, and its use changes nothing: the other tokens of the user stay valid.
  pub rotate_once :
      (r later_token : Text) (later : Time)
      → hash raw ≢ hash new
      → (rotate hash refresh_days now raw new w).0 ≡ ok r
      → rotate hash refresh_days later raw later_token (rotate hash refresh_days now raw new w).1
        ≡ (err unauthorized, (rotate hash refresh_days now raw new w).1)
  rotate_once r later_token later other e =
      let (u, done) = rotate_success r e in
      rw done (refused (issue_pair hash refresh_days now new u spent).1 (gone u other))
    where
      refused :
          (v : World)
          → find_first (has_hash (hash raw)) v.refresh_tokens ≡ none
          → rotate hash refresh_days later raw later_token v ≡ (err unauthorized, v)
      refused v missing = unfold rotate refuse in ground (arith, missing)

  -- A stored token past its time is refused, no token of its owner is left, and another user keeps
  -- as many tokens as before.
  pub rotate_expired :
      (t : RefreshToken) (u : Cuid)
      → find_first (has_hash (hash raw)) w.refresh_tokens ≡ some t
      → t.expires_at < now
      → u ≢ t.user_id
      → ((rotate hash refresh_days now raw new w).0 ≡ err unauthorized)
        × (count (owned_by t.user_id) (rotate hash refresh_days now raw new w).1.refresh_tokens ≡ 0)
        × (count (owned_by u) (rotate hash refresh_days now raw new w).1.refresh_tokens
            ≡ count (owned_by u) w.refresh_tokens)
  unfolding rotate refuse
  rotate_expired t u there late other = (
    ground (arith, there),
    ground (
      arith,
      there,
      count-delete_self (owned_by t.user_id) (owned_by t.user_id) w.refresh_tokens (λ x k. k),
    ),
    ground (arith, there, count-delete_other u t.user_id w.refresh_tokens other),
  )
