-- ===== src/Examples/Business.antt =====
-- The waiting list, payments, pushes and group calls.
use corcy.Prelude.{
  ◌-◌, ◌≡◌, ◌≤◌, ◌<◌, refl, true, false, not, ◌&&◌, ◌==◌, none, some, [], ◌∷◌, Text, text_eq, codes,
  arith, if◌then◌else◌,
}
use corcy.Store.{
  Cuid, Time, User, pro, waiting, WaitlistEntry, PushSubscription, RoomMember, World, ok,
}
use corcy.Store.Table.{count, exists}
use corcy.Plans.Guard.{get_user_plan, no_plan}
use corcy.Rooms.{is_member}
use corcy.Waitlist.{WaitlistInvite, JoinData, join, from_ip, one_day_ms}
use corcy.Waitlist.Joining.{IsListed, join-IsListed}
use corcy.Payments.{
  StripeSubscription, CheckoutSession, checkout_completed, known, StripeEnv, date_of,
  handle_webhook,
}
use corcy.Payments.Replay.{handle_webhook_again}
use corcy.Payments.Bought.{handle_webhook-get_user_plan}
use corcy.Users.{Delivery, gone, delivered}
use corcy.Gateway.{is_online}
use corcy.Gateway.Calls.{handle_group_call_join}
use corcy.Gateway.Calls.Offline.{pushed, handle_group_call_join-pushed}
use corcy.Examples.{strangers, user}

abbrev admin : User
admin = record (user 9 (codes "admin@x")) { is_admin = true }

abbrev applied : WaitlistEntry
applied = record {
  id = 20;
  email = codes "new@x";
  name = none;
  reason = none;
  status = waiting;
  invite_id = none;
  ip_address = none;
  created_at = 0;
}

abbrev list : World
list = record strangers { users = admin ∷ strangers.users; waitlist = applied ∷ [] }

abbrev invite : WaitlistInvite
invite = record { invite_id = 30; raw_token = codes "tok" }

abbrev hash : Text → Text
hash t = t

abbrev request : JoinData
request = record {
  email = codes "other@x";
  name = none;
  reason = none;
  ip_address = some (codes "1.2.3.4");
}

join-IsListed_example :
    IsListed (join hash 500 21 request list).1.waitlist
    × ((ip : Text)
        → count (from_ip ip (500 - one_day_ms)) (join hash 500 21 request list).1.waitlist ≤ 3)
join-IsListed_example =
    join-IsListed hash 500 21 request list (λ m. unfold count in ground arith)
      (λ ip. unfold count in ground arith)

abbrev bought : StripeSubscription
bought = record {
  id = codes "sub";
  user_id = some 1;
  plan = some (known pro);
  status = codes "active";
  price_id = some (codes "price");
  current_period_start = 0;
  current_period_end = 5;
  cancel_at_period_end = false;
}

abbrev checkout : CheckoutSession
checkout = record { user_id = some 1; plan = some (known pro); subscription = codes "sub" }

abbrev stripe : StripeEnv
stripe = record {
  enabled = true;
  price_pro = codes "price";
  price_team = [];
  frontend_url = codes "https://x";
  webhook_secret = some (codes "s");
  create_customer = λ email name id. some email;
  create_session = λ call. some (some call.success_url);
  create_portal = λ customer url. some url;
  retrieve = λ id. some bought;
  construct_event = λ payload signature secret. some (checkout_completed checkout);
}

handle_webhook_again_example :
    handle_webhook stripe [] [] (handle_webhook stripe [] [] strangers).1
    ≡ handle_webhook stripe [] [] strangers
handle_webhook_again_example = handle_webhook_again stripe [] [] strangers

handle_webhook-get_user_plan_example :
    ((handle_webhook stripe [] [] strangers).0 ≡ ok tt)
    × ((now : Time)
        → now < date_of 5
        → (get_user_plan now 1 (handle_webhook stripe [] [] strangers).1).0
          ≡ ok (record { plan = pro; plan_expires_at = some (date_of 5) }))
    × ((now : Time)
        → date_of 5 ≤ now
        → (get_user_plan now 1 (handle_webhook stripe [] [] strangers).1).0 ≡ ok no_plan)
handle_webhook-get_user_plan_example =
    handle_webhook-get_user_plan stripe checkout bought 1 pro [] [] (codes "s") strangers refl refl
      refl refl refl refl refl (unfold exists in refl)

abbrev phone : PushSubscription
phone = record { user_id = 1; endpoint = codes "phone"; p256dh = []; auth = []; user_agent = none }

abbrev laptop : PushSubscription
laptop = record {
  user_id = 1;
  endpoint = codes "laptop";
  p256dh = [];
  auth = [];
  user_agent = none;
}

abbrev subscribed : World
subscribed = record strangers { push_subscriptions = phone ∷ laptop ∷ [] }

abbrev answers : PushSubscription → Delivery
answers s = if text_eq s.endpoint (codes "phone") then gone else delivered

abbrev in_room : Cuid → RoomMember
in_room u = record { id = u; room_id = 40; user_id = u; joined_at = 0 }

abbrev calling : World
calling = record strangers {
  members = in_room 1 ∷ in_room 2 ∷ in_room 3 ∷ [];
  user_sockets = (2, 7 ∷ []) ∷ [];
}

handle_group_call_join-pushed_example :
    count (pushed 3) (handle_group_call_join (some 1) (some 40) calling).1 ≡ (
      if exists (is_member 40 1) calling.members
        && (not (3 == 1) && not (is_online 3 calling.user_sockets))
      then count (is_member 40 3) calling.members
      else 0)
handle_group_call_join-pushed_example =
    handle_group_call_join-pushed 1 40 3 calling (omega arith) (omega arith)
