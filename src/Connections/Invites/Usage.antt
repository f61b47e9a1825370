-- ===== src/Connections/Invites/Usage.antt =====
-- How often an invite can be used, and when it can be.
use corcy.Prelude.{
  ◌≤◌, ◌<◌, ◌≡◌, ◌≢◌, ◌⊎◌, ◌↔◌, inl, inr, refl, true, some, none, List, ◌∷◌, All, All-and, arith,
  Text, Option-cases, is_some, if◌then◌else◌,
}
use corcy.Store.{Cuid, Time, Invite, World, ok, invite_used, invite_invalid_token}
use corcy.Store.Table.{count, find_first, update}
use corcy.Store.Table.Laws.{count-update, All-update, unique_row}
use corcy.Plans.Guard.{has_id}
use corcy.Connections.{upsert_connection}
use corcy.Connections.Invites.{
  has_invite_id, max_uses, use_invite, is_admin_user, has_token, get_invite_info, accept_invite,
}

-- Never used more often than allowed, and active only while a use is left.
abbrev pub Metered : Invite → Type 0
Metered i = (i.used_count ≤ max_uses i) × (i.is_active ≡ true → i.used_count < max_uses i)

pub record IsMetered (is : List Invite) : Type 0 where
  pub ids : (k : Cuid) → count (has_invite_id k) is ≤ 1
  pub metered : All Metered is

-- A write to the row of one invite, which allows the uses that the row then counts.
pub replace-IsMetered :
    (f : Invite → Invite) (i : Invite) (is : List Invite)
    → ((k : Cuid) (x : Invite) → has_invite_id k (f x) ≡ has_invite_id k x)
    → find_first (has_invite_id i.id) is ≡ some i
    → Metered (f i)
    → IsMetered is
    → IsMetered (update (has_invite_id i.id) f is)
replace-IsMetered f i is keeps found allowed h = record {
  ids = λ k.
      omega (arith, h.ids k, count-update (has_invite_id k) (has_invite_id i.id) f is (keeps k));
  metered =
      All-update {Q = Metered} (has_invite_id i.id) f is
        (All-and Metered (λ x. has_invite_id i.id x ≡ true → x ≡ i) is h.metered
          (unique_row (has_invite_id i.id) is i (h.ids i.id) found))
        (λ x k same. let e : x ≡ i = k.1 same in rw e allowed) (λ x k _. k.0);
}

module _ (hash : Text → Text) (connection_id : Cuid) (now : Time) (raw_token : Text)
    (user_id : Cuid) (w : World) where
  -- Using an invite of `from` succeeds exactly when its page can be shown, the user exists and is
  -- not the one who invited.
  pub accept_invite-eq-ok_iff :
      (from : Cuid)
      → ((accept_invite hash connection_id now raw_token user_id w).0 ≡ ok from) ↔ (
          (i : Invite) × ((get_invite_info hash now raw_token w).0 ≡ ok i)
          × (i.from_user_id ≡ from)
          × (from ≢ user_id)
          × (is_some (find_first (has_id user_id) w.users) ≡ true))
  unfolding accept_invite get_invite_info
  accept_invite-eq-ok_iff from = (
    λ e. elim (Option-cases (find_first (has_token hash raw_token) w.invites)) [
      | inl missing ↦ absurd (ground (arith, missing, e))
      | inr (i, found) ↦ (i, ground arith, ground arith, ground arith, ground arith)
    ],
    λ (i, shown, by, other, known). ground (arith, shown, by, other, known),
  )

  abbrev pub used_world : Invite → World
  used_world i =
      let v = record w {
        invites = update (has_invite_id i.id) (use_invite now user_id i) w.invites;
      } in
      let joined =
        if is_admin_user (find_first (has_id i.from_user_id) w.users)
        then v
        else upsert_connection connection_id now i.from_user_id user_id v in
      record joined {
        audit = record { user_id = some user_id; action = invite_used } ∷ joined.audit;
      }

  pub accept_invite_found :
      (i : Invite)
      → find_first (has_token hash raw_token) w.invites ≡ some i
      → (((accept_invite hash connection_id now raw_token user_id w).1 ≡ w)
          ⊎ ((i.used_count < max_uses i)
              × (i.from_user_id ≢ user_id)
              × ((accept_invite hash connection_id now raw_token user_id w).1 ≡ used_world i)))
  unfolding accept_invite
  accept_invite_found i found = ground arith

  pub accept_invite_missing :
      find_first (has_token hash raw_token) w.invites ≡ none
      → (accept_invite hash connection_id now raw_token user_id w).1 ≡ record w {
        audit = record { user_id = some user_id; action = invite_invalid_token } ∷ w.audit;
      }
  unfolding accept_invite
  accept_invite_missing missing = ground arith

  pub tables-used_world :
      (i : Invite)
      → ((used_world i).invites ≡ update (has_invite_id i.id) (use_invite now user_id i) w.invites)
        × ((used_world i).requests ≡ w.requests)
  tables-used_world i = ground arith

  pub use-IsMetered :
      (i : Invite)
      → find_first (has_invite_id i.id) w.invites ≡ some i
      → i.used_count < max_uses i
      → IsMetered w.invites
      → IsMetered (update (has_invite_id i.id) (use_invite now user_id i) w.invites)
  use-IsMetered i found room h =
      replace-IsMetered (use_invite now user_id i) i w.invites (λ k x. refl) found
        (ground (arith, room)) h
