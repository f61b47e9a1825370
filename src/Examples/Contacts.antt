-- ===== src/Examples/Contacts.antt =====
-- Contacts: two users who have never met, a request between them, a contact, and an invite for two uses.
use corcy.Prelude.{
  ◌≡◌, ◌≢◌, ◌↔◌, refl, true, false, none, some, [], ◌∷◌, Text, codes, arith, is_some,
}
use corcy.Store.{User, team, Invite, ConnectionRequest, pending, accepted, World, ok}
use corcy.Store.Table.{count, find_first, exists}
use corcy.Plans.Guard.{has_id, is_party, get_user_plan, get_plan, check_contacts_limit}
use corcy.Plans.Expiry.{active_report, get_plan-eq-get_user_plan}
use corcy.Connections.{are_connected}
use corcy.Connections.Requests.{
  request_by_user_id, send_request, accept_request, connect_request, is_request,
}
use corcy.Connections.Contacts.{remove_connection}
use corcy.Connections.Consistency.{Consistent}
use corcy.Connections.Invites.{accept_invite, get_invite_info}
use corcy.Connections.Invites.Usage.{accept_invite-eq-ok_iff}
use corcy.Connections.Invites.Meter.{IsSound}
use corcy.Connections.Outcomes.{status_of, accept_request-connects, remove_connection-disconnects}
use corcy.Connections.Reach.{
  asks, accepts, elsewhere, here, next, ContactReach-IsSound, empty_world-IsSound,
}
use corcy.Examples.{alice, bob, strangers, contact, contacts}

abbrev hash : Text → Text
hash t = t

abbrev asked : World
asked = (request_by_user_id 9 10 1 2 strangers).1

abbrev request : ConnectionRequest
request = record { id = 9; from_user_id = 1; to_user_id = 2; status = pending; created_at = 10 }

abbrev waiting : World
waiting = record strangers { requests = request ∷ [] }

asked-eq : asked ≡ waiting
unfolding request_by_user_id send_request check_contacts_limit get_user_plan find_first count exists
asked-eq = refl

ContactReach-IsSound_example : IsSound (accept_request 5 20 2 9 asked).1
ContactReach-IsSound_example =
    ContactReach-IsSound {hash = hash}
      (next
        (next {u = asked} (next {u = strangers} here (elsewhere refl refl refl))
          (asks 9 10 1 2 (unfold count in refl) refl))
        (accepts 5 20 2 9 (rw asked-eq (unfold count in refl)) refl))
      empty_world-IsSound

accept_request-connects_example :
    (status_of 9 waiting ≡ some pending)
    × (status_of 9 (accept_request 5 20 2 9 waiting).1 ≡ some accepted)
    × (are_connected 1 2 (accept_request 5 20 2 9 waiting).1 ≡ true)
    × (are_connected 2 1 (accept_request 5 20 2 9 waiting).1 ≡ true)
accept_request-connects_example = accept_request-connects 5 20 2 9 waiting 5 1 accepts_it
  where
    accepts_it : (accept_request 5 20 2 9 waiting).0 ≡ ok (5, 1)
    accepts_it =
        unfold accept_request connect_request check_contacts_limit get_user_plan find_first count
          exists in
        refl

contacts-Consistent : Consistent contacts
unfolding count
contacts-Consistent = record {
  ids = λ i. ground arith;
  pairs = λ a b. ground arith;
  in_order = (omega arith, tt);
  request_ids = λ i. omega arith;
  requests = λ a b. omega arith;
  differ = tt;
  joined = tt;
}

remove_connection-disconnects_example :
    (is_party 2 contact ≡ true)
    × (are_connected 1 2 (remove_connection 2 5 contacts).1 ≡ false)
    × (find_first (is_request 1 2) (remove_connection 2 5 contacts).1.requests ≡ none)
    × (find_first (is_request 2 1) (remove_connection 2 5 contacts).1.requests ≡ none)
remove_connection-disconnects_example =
    remove_connection-disconnects 2 5 contacts contacts-Consistent contact
      (unfold find_first in refl) (unfold remove_connection find_first in refl)

abbrev team_invite : Invite
team_invite = record {
  id = 3;
  token = [];
  token_hash = some (codes "token");
  from_user_id = 1;
  to_email = none;
  expires_at = 1000;
  used_at = some 5;
  used_by_id = some 4;
  created_at = 0;
  used_count = 1;
  max_uses = some 2;
  is_active = true;
}

abbrev invited : World
invited = record strangers { invites = team_invite ∷ [] }

-- The second use of an invite for two.
accept_invite-eq-ok_iff_example : ((accept_invite hash 5 20 (codes "token") 2 invited).0 ≡ ok 1) ↔ (
    (i : Invite) × ((get_invite_info hash 20 (codes "token") invited).0 ≡ ok i)
    × (i.from_user_id ≡ 1)
    × (alice.id ≢ 2)
    × (is_some (find_first (has_id 2) invited.users) ≡ true))
accept_invite-eq-ok_iff_example = accept_invite-eq-ok_iff hash 5 20 (codes "token") 2 invited 1

abbrev lapsed : User
lapsed = record alice { plan = team; plan_expires_at = some 15 }

abbrev after_plan : World
after_plan = record strangers { users = lapsed ∷ bob ∷ [] }

get_plan-eq-get_user_plan_example :
    get_plan 20 1 after_plan
    ≡ (active_report (get_user_plan 20 1 after_plan).0, (get_user_plan 20 1 after_plan).1)
get_plan-eq-get_user_plan_example =
    get_plan-eq-get_user_plan 20 1 after_plan {u = lapsed} (unfold find_first in refl)
