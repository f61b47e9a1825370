-- ===== src/Connections/Invites/Meter.antt =====
-- The operations on invites and the two invariants.
use corcy.Prelude.{
  ℕ, ◌<◌, ◌≡◌, ◌≢◌, ◌⊎◌, inl, inr, refl, false, Option, some, none, ◌∷◌, All-map, arith, Text,
  Option-cases, Bool-cases, or_else, ◌==◌,
}
use corcy.Store.{Cuid, Time, Invite, World}
use corcy.Store.Table.{count, find_first, update}
use corcy.Store.Table.Laws.{
  count-update, count-delete_many-le, All-update, All-delete_many, find_first_by_unique,
}
use corcy.Plans.Guard.{has_id}
use corcy.Plans.Frame.{check_invite_limit-frame}
use corcy.Connections.Contacts.{has_connection_id}
use corcy.Connections.Consistency.{Consistent, connect-Consistent}
use corcy.Connections.Invites.{
  CreateInvite, Draw, new_invite, checked_record, has_invite_id, max_uses, use_invite,
  is_admin_user, has_token, accept_invite, create_invite_link, invite, clear_invites_history,
  revoke_invite,
}
use corcy.Connections.Invites.Usage.{
  Metered, IsMetered, accept_invite_found, accept_invite_missing, used_world, tables-used_world,
  use-IsMetered,
}

-- What the contact operations keep.
pub record IsSound (w : World) : Type 0 where
  pub contacts : Consistent w
  pub invites : IsMetered w.invites

module _ (hash : Text → Text) (connection_id : Cuid) (now : Time) (raw_token : Text)
    (user_id : Cuid) (w : World) (h : IsSound w) where
  used-IsSound :
      (i : Invite)
      → find_first (has_token hash raw_token) w.invites ≡ some i
      → i.used_count < max_uses i
      → i.from_user_id ≢ user_id
      → count (has_connection_id connection_id) w.connections ≡ 0
      → IsSound (used_world hash connection_id now raw_token user_id w i)
  used-IsSound i found room other fresh = record {
    contacts = elim (Bool-cases (is_admin_user (find_first (has_id i.from_user_id) w.users))) [
      | inl admin ↦ rw admin h.contacts
      | inr plain ↦
          let v = record w {
            invites = update (has_invite_id i.id) (use_invite now user_id i) w.invites;
          } in
          rw plain
            (connect-Consistent connection_id now i.from_user_id user_id v h.contacts other fresh)
    ];
    invites = rw ((tables-used_world hash connection_id now raw_token user_id w i).0) (
        use-IsMetered hash connection_id now raw_token user_id w i
          (find_first_by_unique (has_token hash raw_token) (has_invite_id i.id) w.invites i found
            (ground arith) (h.invites.ids i.id))
          room h.invites);
  }

  pub accept_invite-IsSound :
      count (has_connection_id connection_id) w.connections ≡ 0
      → IsSound (accept_invite hash connection_id now raw_token user_id w).1
  accept_invite-IsSound fresh =
      elim (Option-cases (find_first (has_token hash raw_token) w.invites)) [
        | inl missing ↦
            rw (accept_invite_missing hash connection_id now raw_token user_id w missing)
              (record { contacts = h.contacts; invites = h.invites })
        | inr (i, found) ↦
            elim (accept_invite_found hash connection_id now raw_token user_id w i found) [
              | inl same ↦ rw same h
              | inr (room, other, done) ↦ rw done (used-IsSound i found room other fresh)
            ]
      ]

-- Worlds with the same contacts and invites.
pub same-IsSound :
    {w v : World}
    → v.connections ≡ w.connections
    → v.requests ≡ w.requests
    → v.invites ≡ w.invites
    → IsSound w
    → IsSound v
same-IsSound c r i h = record { contacts = rw (c, r) h.contacts; invites = rw i h.invites }

pub revoke_invite-IsSound :
    (user_id invite_id : Cuid) (w : World)
    → IsSound w
    → IsSound (revoke_invite user_id invite_id w).1
revoke_invite-IsSound user_id invite_id w h = elim cases [
  | inl same ↦ same-IsSound same.0 same.1 same.2 h
  | inr done ↦ record {
    contacts = rw (done.0, done.1) h.contacts;
    invites = rw done.2 (record {
      ids = λ k. omega (
        arith,
        h.invites.ids k,
        count-update (has_invite_id k) (has_invite_id invite_id) off w.invites (λ x. refl),
      );
      metered =
          All-update {Q = Metered} (has_invite_id invite_id) off w.invites h.invites.metered
            (λ x k _. (k.0, λ e. absurd (cc e))) (λ x k _. k);
    });
  }
]
  where
    off : Invite → Invite
    off i = record i { is_active = false }

    cases :
        (((revoke_invite user_id invite_id w).1.connections ≡ w.connections)
          × ((revoke_invite user_id invite_id w).1.requests ≡ w.requests)
          × ((revoke_invite user_id invite_id w).1.invites ≡ w.invites))
        ⊎ (((revoke_invite user_id invite_id w).1.connections ≡ w.connections)
            × ((revoke_invite user_id invite_id w).1.requests ≡ w.requests)
            × ((revoke_invite user_id invite_id w).1.invites
                ≡ update (has_invite_id invite_id) off w.invites))
    cases = unfold revoke_invite in ground arith

pub clear_invites_history-IsSound :
    (user_id : Cuid) (w : World) → IsSound w → IsSound (clear_invites_history user_id w).1
unfolding clear_invites_history
clear_invites_history-IsSound user_id w h = record {
  contacts = h.contacts;
  invites = record {
    ids = λ k. omega (
      arith,
      h.invites.ids k,
      count-delete_many-le (has_invite_id k) (λ i. i.from_user_id == user_id) w.invites,
    );
    metered =
        All-map _
          (All-delete_many Metered (λ i. i.from_user_id == user_id) w.invites h.invites.metered)
          (λ x k. k.0);
  };
}

-- The schema of a request admits no invite without a use.
abbrev pub HasUse : CreateInvite → Type 0
HasUse opts = 0 < or_else opts.max_uses 1

module _ (hash : Text → Text) (env_hours : ℕ) (d : Draw) (now : Time) (user_id : Cuid)
    (opts : CreateInvite) (to_email : Option Text) (w : World) where
  checked_record-IsSound :
      IsSound w
      → HasUse opts
      → count (has_invite_id d.invite_id) w.invites ≡ 0
      → IsSound (checked_record hash env_hours d now user_id opts to_email w).1
  checked_record-IsSound h allowed fresh = elim tables [
    | inl (c, r, i) ↦ same-IsSound c r i h
    | inr (c, r, i) ↦ record {
      contacts = rw (c, r) h.contacts;
      invites = rw i (record {
        ids = λ k.
            unfold count in ground (arith, h.invites.ids k, λ (e : d.invite_id ≡ k). rw e at fresh);
        metered = ((omega arith, λ _. allowed), h.invites.metered);
      });
    }
  ]
    where
      after : World
      after = (checked_record hash env_hours d now user_id opts to_email w).1

      tables :
          ((after.connections ≡ w.connections)
            × (after.requests ≡ w.requests)
            × (after.invites ≡ w.invites))
          ⊎ ((after.connections ≡ w.connections)
              × (after.requests ≡ w.requests)
              × (after.invites ≡ new_invite hash env_hours d now user_id opts to_email ∷ w.invites))
      tables = unfold checked_record in ground (arith, check_invite_limit-frame now user_id w)

module _ (hash : Text → Text) (base_url : Text) (env_hours : ℕ) (d : Draw) (now : Time)
    (user_id : Cuid) (opts : CreateInvite) (w : World) (h : IsSound w) (allowed : HasUse opts)
    (fresh : count (has_invite_id d.invite_id) w.invites ≡ 0) where
  create_invite_link-cases :
      ((create_invite_link hash base_url env_hours d now user_id opts w).1 ≡ w)
      ⊎ ((create_invite_link hash base_url env_hours d now user_id opts w).1
          ≡ (checked_record hash env_hours d now user_id opts none w).1)
  unfolding create_invite_link
  create_invite_link-cases = ground arith

  pub create_invite_link-IsSound :
      IsSound (create_invite_link hash base_url env_hours d now user_id opts w).1
  create_invite_link-IsSound = elim create_invite_link-cases [
    | inl same ↦ rw same h
    | inr done ↦
        rw done (checked_record-IsSound hash env_hours d now user_id opts none w h allowed fresh)
  ]

  invite-cases :
      (to_norm : Text)
      → ((invite hash base_url env_hours d now user_id to_norm opts w).1 ≡ w)
        ⊎ ((invite hash base_url env_hours d now user_id to_norm opts w).1
            ≡ (checked_record hash env_hours d now user_id opts (some to_norm) w).1)
  unfolding invite
  invite-cases to_norm = ground arith

  pub invite-IsSound :
      (to_norm : Text) → IsSound (invite hash base_url env_hours d now user_id to_norm opts w).1
  invite-IsSound to_norm = elim (invite-cases to_norm) [
    | inl same ↦ rw same h
    | inr done ↦
        rw done (
          checked_record-IsSound hash env_hours d now user_id opts (some to_norm) w h allowed fresh)
  ]
