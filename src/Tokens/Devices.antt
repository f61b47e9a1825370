-- ===== src/Tokens/Devices.antt =====
-- The number of refresh tokens of a user.
use corcy.Prelude.{
  ℕ, ◌+◌, ◌≤◌, ◌<◌, ◌≡◌, ◌⊎◌, refl, ◌*◌, ◌∙◌, Bool, true, ◌&&◌, Option, none, some, List, [], ◌∷◌,
  ltb, length, Text, text_eq_refl, arith, All, Bool-cases, inl, inr, Option-cases,
}
use corcy.Store.{Cuid, Time, RefreshToken, World}
use corcy.Store.Table.{count, find_first, find_many, delete_many}
use corcy.Store.Table.Laws.{
  length-find_many, count-delete_many-le, count_split, All-find_many_counted,
}
use corcy.Store.Order.Laws.{length-sort_asc, All-sort_asc}
use corcy.Plans.Guard.{has_id}
use corcy.Tokens.{
  has_hash, owned_by, max_devices, day_ms, active_tokens, drop_oldest, issue_pair, refuse, rotate,
  is_usable,
}

-- Each user has at most ten tokens.
abbrev pub FewDevices : World → Type 0
FewDevices w = (u : Cuid) → count (owned_by u) w.refresh_tokens ≤ max_devices

length-active :
    (u : Cuid) (w : World) → length (active_tokens u w) ≡ count (owned_by u) w.refresh_tokens
length-active u w =
    length-sort_asc (λ (t : RefreshToken). t.expires_at) (find_many (owned_by u) w.refresh_tokens)
    ∙ length-find_many (owned_by u) w.refresh_tokens

-- The rows that `activeTokens` lists are in the table.
abbrev Listed : Cuid → World → RefreshToken → Type 0
Listed u w t =
    (owned_by u t ≡ true)
    × ((q : RefreshToken → Bool)
        → q t ≡ true
        → 0 < count (λ y. owned_by u y && q y) w.refresh_tokens)

active-Listed : (u : Cuid) (w : World) → All (Listed u w) (active_tokens u w)
active-Listed u w =
    All-sort_asc (Listed u w) (λ (t : RefreshToken). t.expires_at)
      (find_many (owned_by u) w.refresh_tokens)
      (All-find_many_counted (owned_by u) w.refresh_tokens)

-- Room for one more token of the user, and no more tokens of anybody.
drop_oldest_room :
    (u : Cuid) (w : World) (ts : List RefreshToken)
    → length ts ≡ count (owned_by u) w.refresh_tokens
    → All (Listed u w) ts
    → count (owned_by u) w.refresh_tokens ≤ max_devices
    → (count (owned_by u) (drop_oldest ts w).refresh_tokens < max_devices)
      × ((v : Cuid)
          → count (owned_by v) (drop_oldest ts w).refresh_tokens
            ≤ count (owned_by v) w.refresh_tokens)
unfolding drop_oldest
drop_oldest_room u w [] len h few = (omega (arith, len), λ v. omega arith)
drop_oldest_room u w (t ∷ ts) len (h, hs) few =
    let found = h.1 (has_hash t.token_hash) (text_eq_refl t.token_hash) in
    (
      ground (arith, len, found, count_split (owned_by u) (has_hash t.token_hash) w.refresh_tokens),
      λ v.
          ground
            (arith, count-delete_many-le (owned_by v) (has_hash t.token_hash) w.refresh_tokens),
    )

module _ (hash : Text → Text) (refresh_days : ℕ) (now : Time) where
  abbrev pub cleaned : Cuid → World → World
  cleaned u w = record w {
    refresh_tokens = delete_many (λ t. owned_by u t && ltb t.expires_at now) w.refresh_tokens;
  }

  pub issue_tokens :
      (raw : Text) (u : Cuid) (w : World)
      → (issue_pair hash refresh_days now raw u w).1.refresh_tokens
        ≡ record { user_id = u; token_hash = hash raw; expires_at = now + refresh_days * day_ms }
          ∷ (drop_oldest (active_tokens u (cleaned u w)) (cleaned u w)).refresh_tokens
  unfolding issue_pair
  issue_tokens raw u w = refl

  -- A new pair of tokens leaves each user at most ten refresh tokens, where each had at most ten.
  pub issue_pair-FewDevices :
      (raw : Text) (u : Cuid) (w : World)
      → FewDevices w
      → FewDevices (issue_pair hash refresh_days now raw u w).1
  issue_pair-FewDevices raw u w h v =
      let c = cleaned u w in
      let fewer : (x : Cuid) → count (owned_by x) c.refresh_tokens ≤ max_devices = λ x. omega (
        arith,
        h x,
        count-delete_many-le (owned_by x) (λ t. owned_by u t && ltb t.expires_at now)
            w.refresh_tokens,
      ) in
      let (room, rest) =
        drop_oldest_room u c (active_tokens u c) (length-active u c) (active-Listed u c)
          (fewer u) in
      rw issue_tokens
        (unfold count in ground (arith, rest v, fewer v, room, λ (e : u ≡ v). rw e at room))

  refuse-FewDevices :
      (found : Option RefreshToken) (w : World) → FewDevices w → FewDevices (refuse found w).1
  unfolding refuse
  refuse-FewDevices none w h = h
  refuse-FewDevices (some t) w h = λ v.
      omega (arith, h v, count-delete_many-le (owned_by v) (owned_by t.user_id) w.refresh_tokens)

  rotate_world :
      (raw new : Text) (w : World)
      → let found = find_first (has_hash (hash raw)) w.refresh_tokens in
        ((rotate hash refresh_days now raw new w).1 ≡ w)
        ⊎ ((rotate hash refresh_days now raw new w).1 ≡ (refuse found w).1)
        ⊎ ((u : Cuid) × ((rotate hash refresh_days now raw new w).1
              ≡ (issue_pair hash refresh_days now new u (record w {
                refresh_tokens = delete_many (has_hash (hash raw)) w.refresh_tokens;
              })).1))
  rotate_world raw new w =
      let found = find_first (has_hash (hash raw)) w.refresh_tokens in
      elim (Option-cases found) [
        | inl missing ↦ inr (inl (unfold rotate in ground (arith, missing)))
        | inr (t, there) ↦ elim (Option-cases (find_first (has_id t.user_id) w.users)) [
          | inl nobody ↦ elim (Bool-cases (is_usable now (some t))) [
            | inl fresh ↦ inl (unfold rotate in ground (arith, there, nobody, fresh))
            | inr old ↦ inr (inl (unfold rotate in ground (arith, there, nobody, old)))
          ]
          | inr (u, known) ↦ elim (Bool-cases (is_usable now (some t))) [
            | inl fresh ↦ inr (inr (u.id, unfold rotate in ground (arith, there, known, fresh)))
            | inr old ↦ inr (inl (unfold rotate in ground (arith, there, known, old)))
          ]
        ]
      ]

  -- A rotation, whatever it answers, leaves each user at most ten refresh tokens, where each had at
  -- most ten.
  pub rotate-FewDevices :
      (raw new : Text) (w : World)
      → FewDevices w
      → FewDevices (rotate hash refresh_days now raw new w).1
  rotate-FewDevices raw new w h = elim (rotate_world raw new w) [
    | inl same ↦ rw same h
    | inr (inl refused) ↦
        rw refused (refuse-FewDevices (find_first (has_hash (hash raw)) w.refresh_tokens) w h)
    | inr (inr (u, done)) ↦ rw done (
        issue_pair-FewDevices new u
          (record w { refresh_tokens = delete_many (has_hash (hash raw)) w.refresh_tokens })
          (λ v.
            omega (
              arith,
              h v,
              count-delete_many-le (owned_by v) (has_hash (hash raw)) w.refresh_tokens,
            )))
  ]
