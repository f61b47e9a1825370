-- ===== src/Mobile.antt =====
-- The mobile client, mobile/store/auth.ts and mobile/lib/api.ts: its session, the refresh token in
-- the secure storage, and requests. The network is a parameter: the answer to a request after those
-- sent before it, none where `fetch` throws. One call at a time; of a request, its path and its
-- token are kept, and writes to the storage succeed. The keys of encryption, which a logout clears, are
-- not modelled.
pub mod Synced
use corcy.Prelude.{
  ℕ, ◌+◌, Bool, true, false, not, ◌&&◌, ◌||◌, ◌==◌, Option, none, some, List, [], ◌∷◌, leb, ltb,
  or_else, Text, codes, starts_with, if◌then◌else◌,
}
use corcy.Store.{Cuid}
use corcy.TwoFactor.{present}

pub record MobileBody : Type 0 where
  pub ok : Bool
  pub access_token : Option Text
  pub refresh_token : Option Text
  pub user : Option Cuid

-- `json` is none where the body cannot be parsed.
pub record MobileResponse : Type 0 where
  pub status : ℕ
  pub json : Option MobileBody

pub record MobileSent : Type 0 where
  pub path : Text
  pub token : Option Text

pub record MobileState : Type 0 where
  pub user : Option Cuid
  pub access_token : Option Text
  pub refresh_token : Option Text
  pub hydrated : Bool
  -- the secure storage
  pub stored_refresh : Option Text
  pub stored_user : Option Cuid
  pub sent : List MobileSent

pub data MobileResult : Type 0 where
  threw : MobileResult
  returned : MobileBody → MobileResult

abbrev is_success : MobileResponse → Bool
is_success res = leb 200 res.status && ltb res.status 300

abbrev log_request : Text → Option Text → MobileState → MobileState
log_request path token s = record s { sent = record { path = path; token = token } ∷ s.sent }

unfoldable pub set_mobile_auth : Option Cuid → Text → Text → MobileState → MobileState
set_mobile_auth user access_token refresh_token s = record s {
  stored_refresh = some refresh_token;
  stored_user = user;
  user = user;
  access_token = some access_token;
  refresh_token = some refresh_token;
}

abbrev ask_logout : Option Text → MobileState → MobileState
ask_logout none s = s
ask_logout (some t) s = log_request (codes "/auth/logout") (some t) s

abbrev forgotten : MobileState → MobileState
forgotten s = record s {
  stored_refresh = none;
  stored_user = none;
  user = none;
  access_token = none;
  refresh_token = none;
}

-- The answer to the request is not waited for with an effect.
unfoldable pub mobile_logout : MobileState → MobileState
mobile_logout s = forgotten (ask_logout (present s.access_token) s)

-- `!res.ok || !data?.ok || !data.accessToken`, and the body and the access token otherwise.
abbrev pub mobile_grant : MobileResponse → Option (MobileBody × Text)
mobile_grant res = if not (is_success res) then none else elim res.json [
  | none ↦ none
  | some body ↦ elim (present body.access_token) [
    | none ↦ none
    | some t ↦ if body.ok then some (body, t) else none
  ]
]

module _ (net : List MobileSent → Text → Option MobileResponse) where
  abbrev ask : Text → Option Text → MobileState → Option MobileResponse × MobileState
  ask path token s = (net s.sent path, log_request path token s)

  abbrev restore_refused : MobileState → Bool × MobileState
  restore_refused s = (false, record s { stored_refresh = none; hydrated = true })

  abbrev restore_with : Text → Option MobileResponse → MobileState → Bool × MobileState
  restore_with stored none s = (false, record s { hydrated = true })
  restore_with stored (some res) s = elim (mobile_grant res) [
    | none ↦ restore_refused s
    | some g ↦ elim g.0.user [
      | none ↦ restore_refused s
      | some u ↦ (
        true,
        record s {
          stored_refresh = some (or_else g.0.refresh_token stored);
          user = some u;
          access_token = some g.1;
          refresh_token = some (or_else g.0.refresh_token stored);
          hydrated = true;
        },
      )
    ]
  ]

  unfoldable pub restore_mobile_session : MobileState → Bool × MobileState
  restore_mobile_session s = elim (present s.stored_refresh) [
    | none ↦ (false, record s { hydrated = true })
    | some stored ↦
        restore_with stored (net s.sent (codes "/auth/refresh"))
          (log_request (codes "/auth/refresh") none s)
  ]

  -- `data.user ?? user`, `data.refreshToken ?? refreshToken ?? ''`
  abbrev renew_with : Option MobileResponse → MobileState → Bool × MobileState
  renew_with none s = (false, s)
  renew_with (some res) s = elim (mobile_grant res) [
    | none ↦ (false, mobile_logout s)
    | some g ↦ (
      true,
      set_mobile_auth (elim g.0.user [ some u ↦ some u | none ↦ s.user ]) g.1
          (or_else g.0.refresh_token (or_else s.refresh_token [])) s,
    )
  ]

  unfoldable pub renew_mobile_token : MobileState → Bool × MobileState
  unfolding set_mobile_auth mobile_logout
  renew_mobile_token s = elim (present s.refresh_token) [
    | none ↦ (false, s)
    | some t ↦
        renew_with (net s.sent (codes "/auth/refresh")) (log_request (codes "/auth/refresh") none s)
  ]

  abbrev mobile_conclude : MobileResponse → MobileResult
  mobile_conclude res =
      if not (is_success res)
      then threw
      else elim res.json [ none ↦ threw | some body ↦ returned body ]

  abbrev concluded : Option MobileResponse × MobileState → MobileResult × MobileState
  concluded (none, s) = (threw, s)
  concluded (some res, s) = (mobile_conclude res, s)

  abbrev is_retried : Text → Bool → MobileResponse → Bool
  is_retried path skip_auth res =
      res.status == 401
      && not skip_auth
      && not (starts_with (codes "/auth/login") path)
      && not (starts_with (codes "/auth/refresh") path)
      && not (starts_with (codes "/auth/verify-email") path)

  -- A renewal that succeeds leaves a token, so the header of the first request never stays.
  abbrev again : Text → MobileResponse → Bool × MobileState → MobileResult × MobileState
  again path res renewal =
      if renewal.0
      then concluded (ask path (present renewal.1.access_token) renewal.1)
      else (mobile_conclude res, renewal.1)

  abbrev after_answer :
      Text → Bool → Option MobileResponse × MobileState → MobileResult × MobileState
  after_answer path skip_auth (none, s) = (threw, s)
  after_answer path skip_auth (some res, s) =
      if is_retried path skip_auth res
      then again path res (renew_mobile_token s)
      else (mobile_conclude res, s)

  unfoldable pub mobile_api : Text → Bool → MobileState → MobileResult × MobileState
  unfolding renew_mobile_token
  mobile_api path skip_auth s =
      after_answer path skip_auth (ask path (if skip_auth then none else present s.access_token) s)
