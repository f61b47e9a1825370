-- ===== src/Auth/Contacts.antt =====
-- What a registration does to contacts and invites.
use corcy.Prelude.{
  ◌≡◌, ◌≢◌, ◌<◌, ◌⊎◌, ap, ◌∙◌, inl, inr, refl, Bool, false, ◌==◌, Option, some, none, ◌∷◌, Text,
  arith, Option-cases, ==_refl,
}
use corcy.Store.{Cuid, Time, Invite, World, Result-cases, ok}
use corcy.Store.Table.{find_first, count, update}
use corcy.Store.Table.Laws.{count_zero, All-find_first, find_first_by_unique}
use corcy.Connections.{upsert_connection}
use corcy.Connections.Contacts.{has_connection_id}
use corcy.Connections.Consistency.{connect-Consistent}
use corcy.Connections.Invites.{has_invite_id, has_token, max_uses}
use corcy.Connections.Invites.Usage.{replace-IsMetered}
use corcy.Connections.Invites.Meter.{IsSound, same-IsSound}
use corcy.Auth.{
  AuthEnv, RegisterDraw, register_use, new_user, normal_email, is_secret, settle_invite,
  check_register_invite, usable, rejected, create_account, register, normal_email,
}

abbrev pub sent_by : Cuid → Invite → Bool
sent_by u i = i.from_user_id == u

module _ (env : AuthEnv) (now : Time) (d : RegisterDraw) (email password token : Text)
    (name : Option Text) where
  settled-IsSound :
      (i : Invite) (w : World)
      → find_first (has_invite_id i.id) w.invites ≡ some i
      → i.used_count < max_uses i
      → i.from_user_id ≢ d.user_id
      → count (has_connection_id d.connection_id) w.connections ≡ 0
      → IsSound w
      → (admin : Bool) → IsSound (settle_invite env now d admin (some i) w).1
  unfolding settle_invite
  settled-IsSound i w found room other fresh h admin =
      let v = record w {
        invites = update (has_invite_id i.id) (register_use now d.user_id i) w.invites;
      } in
      let kept : (upsert_connection d.connection_id now i.from_user_id d.user_id v).invites
          ≡ v.invites =
        ground arith in
      record {
        contacts =
            connect-Consistent d.connection_id now i.from_user_id d.user_id v h.contacts other
              fresh;
        invites = rw kept (
            replace-IsMetered (register_use now d.user_id i) i w.invites (λ k x. refl) found
              (ground (arith, room)) h.invites);
      }

  -- The world in which the account is there and the invite is not yet used.
  abbrev with_user : World → World
  with_user w = record w {
    users =
        new_user env d.user_id (normal_email env email) name password
          (is_secret env.admin_secret token)
        ∷ w.users;
  }

  create_account-cases :
      (inv : Option Invite) (w : World)
      → ((create_account env now d email password token name inv w).1 ≡ w)
        ⊎ (let v =
              (settle_invite env now d (is_secret env.admin_secret token) inv (with_user w)).1 in
            let u = (create_account env now d email password token name inv w).1 in
            (u.connections ≡ v.connections) × (u.requests ≡ v.requests) × (u.invites ≡ v.invites))
  unfolding create_account settle_invite
  create_account-cases none w = ground arith
  create_account-cases (some i) w = ground arith

  create_account-IsSound :
      (inv : Option Invite) (w : World)
      → ((i : Invite)
          → inv ≡ some i
          → (find_first (has_invite_id i.id) w.invites ≡ some i)
            × (i.used_count < max_uses i)
            × (i.from_user_id ≢ d.user_id))
      → count (has_connection_id d.connection_id) w.connections ≡ 0
      → IsSound w
      → IsSound (create_account env now d email password token name inv w).1
  create_account-IsSound none w good fresh h = elim (create_account-cases none w) [
    | inl same ↦ rw same h
    | inr (c, r, i) ↦ unfold settle_invite in same-IsSound {w = w} c r i h
  ]
  create_account-IsSound (some i) w good fresh h = elim (create_account-cases (some i) w) [
    | inl same ↦ rw same h
    | inr (c, r, e) ↦
        let (found, room, other) = good i refl in
        same-IsSound c r e (
          settled-IsSound i (with_user w) found room other fresh
            (record { contacts = h.contacts; invites = h.invites })
            (is_secret env.admin_secret token))
  ]

  -- The invite that the check lets through.
  checked-good :
      (w : World) (i : Invite)
      → (check_register_invite env now token w).0 ≡ ok (usable (some i))
      → (find_first (has_token env.hash token) w.invites ≡ some i) × (i.used_count < max_uses i)
  unfolding check_register_invite
  checked-good w i e = elim (Option-cases (find_first (has_token env.hash token) w.invites)) [
    | inl missing ↦ absurd (ground (arith, missing, e))
    | inr (j, found) ↦ (ground (arith, found, e), ground (arith, found, e))
  ]

  checked-tables :
      (w : World)
      → let v = (check_register_invite env now token w).1 in
        (v.connections ≡ w.connections) × (v.requests ≡ w.requests) × (v.invites ≡ w.invites)
  unfolding check_register_invite
  checked-tables w = elim (Option-cases (find_first (has_token env.hash token) w.invites)) [
    | inl missing ↦ (ground (arith, missing), ground (arith, missing), ground (arith, missing))
    | inr (i, found) ↦ (ground (arith, found), ground (arith, found), ground (arith, found))
  ]

  good :
      (w v : World)
      → IsSound v
      → (i : Invite)
      → (find_first (has_token env.hash token) w.invites ≡ some i) × (i.used_count < max_uses i)
      → v.invites ≡ w.invites
      → count (sent_by d.user_id) w.invites ≡ 0
      → (j : Invite) → some i ≡ some j
      → (find_first (has_invite_id j.id) v.invites ≡ some j)
        × (j.used_count < max_uses j)
        × (j.from_user_id ≢ d.user_id)
  good w v h i (found, room) same none_sent j k =
      let e : i ≡ j = ground (arith, k) in
      let by_id =
        find_first_by_unique (has_token env.hash token) (has_invite_id i.id) v.invites i
          (ap (find_first (has_token env.hash token)) same ∙ found) (==_refl i.id)
          (h.invites.ids i.id) in
      let other : (sent_by d.user_id i) ≡ false =
        All-find_first _ (has_token env.hash token) w.invites
          (count_zero (sent_by d.user_id) w.invites none_sent) found in
      rw (← e) (by_id, room, ground (arith, other))

  pub register-IsSound :
      (w : World)
      → count (sent_by d.user_id) w.invites ≡ 0
      → count (has_connection_id d.connection_id) w.connections ≡ 0
      → IsSound w
      → IsSound (register env now d email password token name w).1
  register-IsSound w none_sent fresh h =
      let v = (check_register_invite env now token w).1 in
      let (c, r, is) = checked-tables w in
      let hv : IsSound v = same-IsSound c r is h in
      elim (Result-cases (check_register_invite env now token w).0) [
        | inl (f, thrown) ↦ unfold register in rw thrown hv
        | inr (rejected f, said) ↦ unfold register in rw said hv
        | inr (usable none, said) ↦
            unfold register in
            rw said (create_account-IsSound none v (λ i k. absurd (cc k)) (rw c fresh) hv)
        | inr (usable (some i), said) ↦
            unfold register in
            rw said (
              create_account-IsSound (some i) v (good w v hv i (checked-good w i said) is none_sent)
                (rw c fresh) hv)
      ]
