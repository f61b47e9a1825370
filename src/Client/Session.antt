-- ===== src/Client/Session.antt =====
-- frontend/store/auth.ts: the session of the web client in a browser, with the stores that a logout
-- clears. The answer to the n-th request of a call is a parameter, none where `fetch` throws; waits
-- are not modelled, and the profile photos of the local storage are a list.
pub mod Restored
use corcy.Prelude.{
  ℕ, zero, suc, ◌+◌, Bool, true, false, not, ◌&&◌, ◌==◌, Option, none, some, List, [], ◌∷◌, Text,
  is_empty, if◌then◌else◌,
}
use corcy.Store.{Cuid}
use corcy.Store.Table.{delete_many}
use corcy.TwoFactor.{present}
use corcy.Client.Api.{Body, Response, is_ok, data_of}
use corcy.Client.Notifications.{NotificationsState, clear_all}
use corcy.Client.Activity.{ChatActivity, clear_all_activity}

pub record SessionUser : Type 0 where
  pub id : Cuid
  pub avatar_url : Option Text

pub record ClientStores : Type 0 where
  pub access_token : Option Text
  pub user : Option Cuid
  pub hydrated : Bool
  pub photos : List (Cuid × Text)
  pub notifications : NotificationsState
  pub activity : ChatActivity
  -- how often the server was asked to log out
  pub logouts : ℕ

abbrev pub is_photo : Cuid → Cuid × Text → Bool
is_photo id e = e.0 == id

abbrev pub photo_of : SessionUser → List (Cuid × Text) → List (Cuid × Text)
photo_of u photos = elim (present u.avatar_url) [
  | none ↦ delete_many (is_photo u.id) photos
  | some url ↦ (u.id, url) ∷ delete_many (is_photo u.id) photos
]

unfoldable pub set_auth : SessionUser → Text → ClientStores → ClientStores
set_auth u access_token s = record s {
  access_token = some access_token;
  user = some u.id;
  photos = photo_of u s.photos;
}

unfoldable pub set_hydrated : ClientStores → ClientStores
set_hydrated s = record s { hydrated = true }

unfoldable pub set_access_token : Option Text → ClientStores → ClientStores
set_access_token access_token s = record s { access_token = access_token }

abbrev asked : Option Text → ℕ → ℕ
asked none n = n
asked (some t) n = n + 1

unfoldable pub logout_client : ClientStores → ClientStores
logout_client s = record s {
  logouts = asked (present s.access_token) s.logouts;
  access_token = none;
  user = none;
  notifications = clear_all s.notifications;
  activity = clear_all_activity s.activity;
}

-- `data?.ok && data.accessToken`
abbrev pub granted : Option Body → Option (Text × Option Cuid)
granted none = none
granted (some body) = elim (present body.access_token) [
  | none ↦ none
  | some t ↦ if body.ok then some (t, body.user) else none
]

-- The same where `res.ok`.
abbrev pub restored : Response → Option (Text × Option Cuid)
restored res = if is_ok res then granted (data_of res) else none

abbrev pub signed_out : ClientStores → ClientStores
signed_out s = record s { access_token = none; user = none; hydrated = true }

abbrev pub signed_in_again : Text × Option Cuid → ClientStores → ClientStores
signed_in_again g s = record s { access_token = some g.0; user = g.1; hydrated = true }

module _ (net : ℕ → Option Response) where
  -- The loop of `tryRestoreSession` with this many rounds left, from the n-th request on; with the
  -- number of requests sent.
  unfoldable pub restore_rounds : ℕ → ℕ → ClientStores → (Bool × ClientStores) × ℕ
  restore_rounds zero n s = ((false, signed_out s), n)
  restore_rounds (suc left) n s = elim (net n) [
    | none ↦ restore_rounds left (suc n) s
    | some res ↦ elim (restored res) [
      | some g ↦ ((true, signed_in_again g s), suc n)
      | none ↦ elim (res.status == 401) [
        | true ↦ ((false, signed_out s), suc n)
        | false ↦ restore_rounds left (suc n) s
      ]
    ]
  ]

  unfoldable pub try_restore_session : ClientStores → (Bool × ClientStores) × ℕ
  unfolding restore_rounds
  try_restore_session s = restore_rounds 2 0 s

-- One round of `scheduleRefresh`: if the timer goes on, and the stores. The status of the answer is
-- not looked at, and a body that is no JSON counts as a failure of the network.
unfoldable pub scheduled_refresh : Option Response → ClientStores → Bool × ClientStores
scheduled_refresh answer s = elim (present s.access_token) [
  | none ↦ (false, s)
  | some _ ↦ elim answer [
    | none ↦ (true, s)
    | some res ↦ elim res.json [
      | none ↦ (true, s)
      | some body ↦ elim (granted (some body)) [
        | some g ↦ (true, set_access_token (some g.0) s)
        | none ↦ (false, logout_client s)
      ]
    ]
  ]
]
