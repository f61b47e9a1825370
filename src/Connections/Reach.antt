-- ===== src/Connections/Reach.antt =====
-- Runs of the contact operations, of registrations and of invites from the waitlist, in any order
-- and by any users, with what other services may do between them.
use corcy.Prelude.{ℕ, ◌≡◌, Option, Text, arith}
use corcy.Store.{Cuid, Time, World, empty_world}
use corcy.Store.Table.{count}
use corcy.Connections.Contacts.{has_connection_id, remove_connection}
use corcy.Connections.Requests.{has_request_id, request_by_user_id, accept_request, reject_request}
use corcy.Connections.Consistency.Steps.{
  request_by_user_id-Consistent, accept_request-Consistent, reject_request-Consistent,
  remove_connection-Consistent, invites-request_by_user_id, invites-accept_request,
  invites-reject_request, invites-remove_connection,
}
use corcy.Connections.Invites.{
  CreateInvite, Draw, has_invite_id, accept_invite, create_invite_link, invite,
  clear_invites_history, revoke_invite,
}
use corcy.Connections.Invites.Meter.{
  IsSound, HasUse, same-IsSound, accept_invite-IsSound, create_invite_link-IsSound, invite-IsSound,
  revoke_invite-IsSound, clear_invites_history-IsSound,
}
use corcy.Auth.{AuthEnv, RegisterDraw, register}
use corcy.Auth.Contacts.{sent_by, register-IsSound}
use corcy.Waitlist.{WaitlistInvite, send_invite}
use corcy.Waitlist.Invited.{send_invite-IsSound}

-- Ids that the database draws are new.
abbrev NewConnection : Cuid → World → Type 0
NewConnection new_id w = count (has_connection_id new_id) w.connections ≡ 0

abbrev NewRequest : Cuid → World → Type 0
NewRequest new_id w = count (has_request_id new_id) w.requests ≡ 0

abbrev NewInvite : Cuid → World → Type 0
NewInvite new_id w = count (has_invite_id new_id) w.invites ≡ 0

pub data ContactStep (hash : Text → Text) (w : World) (v : World) : Type 0 where
  asks :
      (new_id : Cuid) (now : Time) (from to : Cuid)
      → NewRequest new_id w
      → v ≡ (request_by_user_id new_id now from to w).1
      → ContactStep hash w v
  accepts :
      (new_id : Cuid) (now : Time) (user_id request_id : Cuid)
      → NewConnection new_id w
      → v ≡ (accept_request new_id now user_id request_id w).1
      → ContactStep hash w v
  rejects :
      (user_id request_id : Cuid)
      → v ≡ (reject_request user_id request_id w).1
      → ContactStep hash w v
  removes :
      (user_id connection_id : Cuid)
      → v ≡ (remove_connection user_id connection_id w).1
      → ContactStep hash w v
  links :
      (base_url : Text) (env_hours : ℕ) (d : Draw) (now : Time) (user_id : Cuid)
      (opts : CreateInvite)
      → HasUse opts
      → NewInvite d.invite_id w
      → v ≡ (create_invite_link hash base_url env_hours d now user_id opts w).1
      → ContactStep hash w v
  invites :
      (base_url : Text) (env_hours : ℕ) (d : Draw) (now : Time) (user_id : Cuid) (email : Text)
      (opts : CreateInvite)
      → HasUse opts
      → NewInvite d.invite_id w
      → v ≡ (invite hash base_url env_hours d now user_id email opts w).1
      → ContactStep hash w v
  uses :
      (new_id : Cuid) (now : Time) (raw_token : Text) (user_id : Cuid)
      → NewConnection new_id w
      → v ≡ (accept_invite hash new_id now raw_token user_id w).1
      → ContactStep hash w v
  revokes :
      (user_id invite_id : Cuid) → v ≡ (revoke_invite user_id invite_id w).1 → ContactStep hash w v
  clears : (user_id : Cuid) → v ≡ (clear_invites_history user_id w).1 → ContactStep hash w v
  registers :
      (env : AuthEnv) (now : Time) (d : RegisterDraw) (email password token : Text)
      (name : Option Text)
      → count (sent_by d.user_id) w.invites ≡ 0
      → NewConnection d.connection_id w
      → v ≡ (register env now d email password token name w).1
      → ContactStep hash w v
  invites_waiting :
      (app_url : Text) (d : WaitlistInvite) (now : Time) (waitlist_id admin_id : Cuid)
      → NewInvite d.invite_id w
      → v ≡ (send_invite hash app_url d now waitlist_id admin_id w).1
      → ContactStep hash w v
  elsewhere :
      v.connections ≡ w.connections
      → v.requests ≡ w.requests
      → v.invites ≡ w.invites
      → ContactStep hash w v

pub data ContactReach (hash : Text → Text) (w : World) : World → Type 0 where
  here : ContactReach hash w w
  next : {v u : World} → ContactReach hash w v → ContactStep hash v u → ContactReach hash w u

module _ {hash : Text → Text} where
  ContactStep-IsSound : {w v : World} → ContactStep hash w v → IsSound w → IsSound v
  ContactStep-IsSound {w} (asks n t a b fresh e) h = rw e (record {
    contacts = request_by_user_id-Consistent n t a b w fresh h.contacts;
    invites = rw (invites-request_by_user_id n t a b w) h.invites;
  })
  ContactStep-IsSound {w} (accepts n t u r fresh e) h = rw e (record {
    contacts = accept_request-Consistent n t u r w fresh h.contacts;
    invites = rw (invites-accept_request n t u r w) h.invites;
  })
  ContactStep-IsSound {w} (rejects u r e) h = rw e (record {
    contacts = reject_request-Consistent u r w h.contacts;
    invites = rw (invites-reject_request u r w) h.invites;
  })
  ContactStep-IsSound {w} (removes u c e) h = rw e (record {
    contacts = remove_connection-Consistent u c w h.contacts;
    invites = rw (invites-remove_connection u c w) h.invites;
  })
  ContactStep-IsSound {w} (links b n d t u o ok fresh e) h =
      rw e (create_invite_link-IsSound hash b n d t u o w h ok fresh)
  ContactStep-IsSound {w} (invites b n d t u m o ok fresh e) h =
      rw e (invite-IsSound hash b n d t u o w h ok fresh m)
  ContactStep-IsSound {w} (uses n t r u fresh e) h =
      rw e (accept_invite-IsSound hash n t r u w h fresh)
  ContactStep-IsSound {w} (revokes u i e) h = rw e (revoke_invite-IsSound u i w h)
  ContactStep-IsSound {w} (clears u e) h = rw e (clear_invites_history-IsSound u w h)
  ContactStep-IsSound {w} (registers env n d m p t a none_sent fresh e) h =
      rw e (register-IsSound env n d m p t a w none_sent fresh h)
  ContactStep-IsSound {w} (invites_waiting a d n i u fresh e) h =
      rw e (send_invite-IsSound hash a d n i u w h fresh)
  ContactStep-IsSound (elsewhere c r i) h = same-IsSound c r i h

  -- Whatever contact operations ran, successful or not, connections and requests are consistent and
  -- no invite is used more often than allowed, if so at the start, new rows get new ids and new
  -- invites allow a use.
  pub ContactReach-IsSound : {w v : World} → ContactReach hash w v → IsSound w → IsSound v
  ContactReach-IsSound here h = h
  ContactReach-IsSound (next r s) h = ContactStep-IsSound s (ContactReach-IsSound r h)

pub empty_world-IsSound : IsSound empty_world
unfolding count
empty_world-IsSound = record {
  contacts = record {
    ids = λ i. omega arith;
    pairs = λ a b. omega arith;
    in_order = tt;
    request_ids = λ i. omega arith;
    requests = λ a b. omega arith;
    differ = tt;
    joined = tt;
  };
  invites = record { ids = λ i. omega arith; metered = tt };
}
