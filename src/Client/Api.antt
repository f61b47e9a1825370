-- ===== src/Client/Api.antt =====
-- frontend/lib/api.ts: requests of the web client, their repetition after a failure, and the renewal
-- of the access token. The network is a parameter: the answer to a request, after those sent before
-- it, or none where `fetch` throws. One call of `api` is modelled, without another beside it; of a
-- request, its path and its token are kept, and what an error says is not.
pub mod Bounded
use corcy.Prelude.{
  ℕ, zero, suc, Bool, true, false, not, ◌||◌, ◌&&◌, ◌==◌, Option, none, some, List, [], ◌∷◌, leb,
  ltb, or_else, Text, codes, is_empty, starts_with, if◌then◌else◌,
}
use corcy.Store.{Cuid}

-- The fields of a parsed body that the client looks at.
pub record Body : Type 0 where
  pub ok : Bool
  pub access_token : Option Text
  pub user : Option Cuid

-- `json` is none where the body cannot be parsed.
pub record Response : Type 0 where
  pub status : ℕ
  pub is_json : Bool
  pub json : Option Body

pub record Sent : Type 0 where
  pub path : Text
  pub token : Text

pub record ClientState : Type 0 where
  pub access_token : Option Text
  -- the latest request first
  pub sent : List Sent

pub data ApiResult : Type 0 where
  threw : ApiResult
  returned : Body → ApiResult

-- `res.ok`
abbrev pub is_ok : Response → Bool
is_ok res = leb 200 res.status && ltb res.status 300

abbrev pub log_sent : Sent → ClientState → ClientState
log_sent request s = record s { sent = request ∷ s.sent }

-- The paths whose refusal is not answered by a renewal.
abbrev pub is_auth_path : Text → Bool
is_auth_path path =
    starts_with (codes "/auth/login") path
    || starts_with (codes "/auth/register") path
    || starts_with (codes "/auth/refresh") path
    || starts_with (codes "/auth/verify-email") path
    || starts_with (codes "/auth/2fa/challenge") path

-- `const data = isJson ? await res.json().catch(() => null) : null`
abbrev pub data_of : Response → Option Body
data_of res = if res.is_json then res.json else none

-- The token of a renewal that succeeded.
abbrev pub renewed_token : Response → Option Text
renewed_token res = if not (is_ok res) then none else elim (data_of res) [
  | none ↦ none
  | some body ↦ elim body.access_token [
    | none ↦ none
    | some t ↦ if body.ok && not (is_empty t) then some t else none
  ]
]

-- The parsed answer, or an error.
abbrev pub conclude : Response → ApiResult
conclude res =
    if not (is_ok res)
    then threw
    else if not res.is_json
    then threw
    else elim res.json [ none ↦ threw | some body ↦ returned body ]

-- `opts?.retries ?? 1`
abbrev pub retries : ℕ
retries = 1

module _ (net : List Sent → Sent → Option Response) where
  -- `fetchWithRetry` with this many attempts left after the next one; none is the last error.
  unfoldable pub fetch_with_retry : ℕ → Sent → ClientState → Option Response × ClientState
  fetch_with_retry zero request s = (net s.sent request, log_sent request s)
  fetch_with_retry (suc left) request s = elim (net s.sent request) [
    | some res ↦ (some res, log_sent request s)
    | none ↦ fetch_with_retry left request (log_sent request s)
  ]

  abbrev after_refresh : Option Response × ClientState → Bool × ClientState
  after_refresh out = elim out.0 [
    | none ↦ (false, out.1)
    | some res ↦ elim (renewed_token res) [
      | none ↦ (false, out.1)
      | some t ↦ (true, record out.1 { access_token = some t })
    ]
  ]

  -- In a browser; no renewal is under way.
  unfoldable pub try_refresh_access_token : ClientState → Bool × ClientState
  unfolding fetch_with_retry
  try_refresh_access_token s =
      after_refresh
        (fetch_with_retry retries (record { path = codes "/auth/refresh"; token = [] }) s)

  -- `buildHeaders`: a token that is given is used again after a renewal.
  abbrev pub request_for : Text → Option Text → ClientState → Sent
  request_for path token s = record {
    path = path;
    token = elim token [ some t ↦ t | none ↦ or_else s.access_token [] ];
  }

  abbrev concluded : Option Response × ClientState → ApiResult × ClientState
  concluded out = elim out.0 [ none ↦ (threw, out.1) | some res ↦ (conclude res, out.1) ]

  -- The second request, where the renewal succeeded.
  abbrev after_renewal :
      Text → Option Text → Response → Bool × ClientState → ApiResult × ClientState
  after_renewal path token res renewal =
      if renewal.0
      then concluded (fetch_with_retry retries (request_for path token renewal.1) renewal.1)
      else (conclude res, renewal.1)

  abbrev after_first : Text → Option Text → Option Response × ClientState → ApiResult × ClientState
  after_first path token out = elim out.0 [
    | none ↦ (threw, out.1)
    | some res ↦
        if res.status == 401 && not (is_auth_path path)
        then after_renewal path token res (try_refresh_access_token out.1)
        else (conclude res, out.1)
  ]

  unfoldable pub api : Text → Option Text → ClientState → ApiResult × ClientState
  unfolding try_refresh_access_token
  api path token s = after_first path token (fetch_with_retry retries (request_for path token s) s)
