-- ===== src/Examples/Web.antt =====
-- The web client: a redirect, notifications, counters, a call, requests and the start.
use corcy.Prelude.{
  ℕ, ◌+◌, ◌≡◌, ◌≤◌, ◌<◌, refl, true, false, Option, none, some, List, [], ◌∷◌, codes, is_some, ◌==◌,
  if◌then◌else◌, or_else, is_space, trim, trim_start, starts_with,
}
use corcy.Store.Table.{count}
use corcy.Client.Redirect.{includes, sanitize_redirect}
use corcy.Client.Redirect.Inside.{sanitize_redirect-inside}
use corcy.Client.Notifications.{
  NotificationAction, adds, enables_category, perform_all, NotificationType.invite,
  NotificationType.room,
}
use corcy.Client.Notifications.Quiet.{IsQuiet, perform_all-IsQuiet}
use corcy.Client.Activity.{includes_id, count_at}
use corcy.Client.Activity.Counted.{
  ActivityEvent, peer_counts, peer_clears, room_counts, react_all, unread_since, is_listed,
  peer_seen, react_all-counts,
}
use corcy.Client.Calls.{CallState, idle, create_peer_connection, add_ice_candidate, begin_flush}
use corcy.Client.Calls.Kept.{
  InCall, begins, goes, connects, receives, flushes, handed, is, InCall-kept,
}
use corcy.Client.Api.{Response, Sent, ClientState, api}
use corcy.Client.Api.Bounded.{requests, api-sent}
use corcy.Client.Session.{ClientStores, try_restore_session}
use corcy.Client.Session.Restored.{try_restore_session-ends}
use corcy.Client.Notifications.{initial}
use corcy.Client.Activity.{no_activity}
use corcy.Prelude.{Text, arith}
use corcy.Mobile.{MobileState, MobileSent, MobileResponse, restore_mobile_session, mobile_api}
use corcy.Mobile.Synced.{IsSynced, MobileRun, here, next, restores, asks, MobileRun-IsSynced}

sanitize_redirect-inside_example :
    (starts_with (codes "/") (codes "/chats") ≡ true)
    × (starts_with (codes "//") (codes "/chats") ≡ false)
    × (includes (codes "://") (codes "/chats") ≡ false)
    × (sanitize_redirect (some (codes "/chats")) ≡ some (codes "/chats"))
sanitize_redirect-inside_example =
    sanitize_redirect-inside (some (codes " /chats")) (codes "/chats")
      (unfold sanitize_redirect includes starts_with trim trim_start is_space in refl)

abbrev actions : List NotificationAction
actions = adds 2 20 room [] [] ∷ enables_category invite false ∷ adds 1 10 invite [] [] ∷ []

perform_all-IsQuiet_example : IsQuiet (perform_all actions)
perform_all-IsQuiet_example = perform_all-IsQuiet actions

abbrev events : List ActivityEvent
events = peer_seen 5 ∷ peer_counts 5 ∷ room_counts 9 ∷ peer_clears 5 ∷ peer_counts 5 ∷ []

react_all-counts_example :
    (or_else (count_at 5 (react_all events).direct.counts) 0 ≡ unread_since 5 events)
    × (includes_id 5 (react_all events).direct.ids ≡ is_listed 5 events)
react_all-counts_example = react_all-counts 5 events

-- A candidate comes before the connection, one more before the flush, and one after it.
abbrev called : CallState
called =
    add_ice_candidate 9
      (begin_flush (add_ice_candidate 8 (create_peer_connection (add_ice_candidate 7 idle))))

abbrev calling : InCall (9 ∷ 8 ∷ 7 ∷ []) called
calling =
    goes
      (goes
        (goes (goes (goes begins (receives 7)) (connects (unfold add_ice_candidate in refl)))
          (receives 8))
        (flushes (unfold add_ice_candidate create_peer_connection in refl)))
      (receives 9)

InCall-kept_example :
    count (is 7) (9 ∷ 8 ∷ 7 ∷ [])
    ≡ count (is 7) (handed called.pc) + count (is 7) called.flushing + count (is 7) called.buffer
InCall-kept_example = InCall-kept calling 7

abbrev refused : Response
refused = record { status = 401; is_json = false; json = none }

abbrev renewed : Response
renewed = record {
  status = 200;
  is_json = true;
  json = some (record { ok = true; access_token = some (codes "t"); user = some 1 });
}

-- The second request is the renewal.
abbrev net : List Sent → Sent → Option Response
net (_ ∷ []) request = some renewed
net _ request = some refused

abbrev client : ClientState
client = record { access_token = none; sent = [] }

api-sent_example :
    (requests client < requests (api net (codes "/me") none client).1)
    × (requests (api net (codes "/me") none client).1 ≤ requests client + 6)
api-sent_example = api-sent net (codes "/me") none client

abbrev stores : ClientStores
stores = record {
  access_token = none;
  user = none;
  hydrated = false;
  photos = [];
  notifications = initial;
  activity = no_activity;
  logouts = 0;
}

-- The first request fails.
abbrev answers : ℕ → Option Response
answers n = if n == 0 then none else some renewed

try_restore_session-ends_example :
    ((try_restore_session answers stores).0.1.hydrated ≡ true)
    × (is_some (try_restore_session answers stores).0.1.access_token
        ≡ (try_restore_session answers stores).0.0)
    × ((try_restore_session answers stores).1 ≤ 2)
try_restore_session-ends_example = try_restore_session-ends answers stores

-- A device with a stored token and a server that renews it.
abbrev kept_token : MobileState
kept_token = record {
  user = none;
  access_token = none;
  refresh_token = none;
  hydrated = false;
  stored_refresh = some (codes "old");
  stored_user = none;
  sent = [];
}

abbrev renewing : List MobileSent → Text → Option MobileResponse
renewing log path = some (record {
  status = 200;
  json = some (record {
    ok = true;
    access_token = some (codes "access");
    refresh_token = some (codes "new");
    user = some 4;
  });
})

abbrev restarted : MobileState
restarted = (restore_mobile_session renewing kept_token).1

abbrev mobile_run : MobileRun kept_token (mobile_api renewing (codes "/users/me") false restarted).1
mobile_run =
    next (next here (restores renewing refl refl)) (asks renewing (codes "/users/me") false refl)

abbrev kept_token-IsSynced : IsSynced kept_token
kept_token-IsSynced t e = absurd (ground (arith, e))

MobileRun-IsSynced_example : IsSynced (mobile_api renewing (codes "/users/me") false restarted).1
MobileRun-IsSynced_example = MobileRun-IsSynced mobile_run kept_token-IsSynced
