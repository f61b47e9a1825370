-- ===== src/Client/Api/Bounded.antt =====
-- How many requests a call sends.
use corcy.Prelude.{
  ℕ, zero, suc, ◌+◌, ◌≡◌, ◌≤◌, ◌<◌, refl, inl, inr, Bool, true, false, Option, none, some, List, [],
  length, Text, codes, arith, Option-cases,
}
use corcy.Client.Api.{
  Sent, Response, ClientState, retries, fetch_with_retry, try_refresh_access_token, renewed_token,
  request_for, after_refresh, after_renewal, after_first, concluded, api, log_sent,
}

abbrev pub requests : ClientState → ℕ
requests s = length s.sent

module _ (net : List Sent → Sent → Option Response) where
  fetch_with_retry-sent :
      (left : ℕ) (request : Sent) (s : ClientState)
      → (requests s < requests (fetch_with_retry net left request s).1)
        × (requests (fetch_with_retry net left request s).1 ≤ requests s + (left + 1))
  unfolding fetch_with_retry
  fetch_with_retry-sent zero request s = (omega arith, omega arith)
  fetch_with_retry-sent (suc left) request s =
      let later = fetch_with_retry-sent left request (log_sent request s) in
      elim (Option-cases (net s.sent request)) [
        | inl failed ↦ ground (arith, failed, later)
        | inr (res, came) ↦ ground (arith, came)
      ]

  concluded-sent : (out : Option Response × ClientState) → (concluded net out).1 ≡ out.1
  concluded-sent (none, s) = refl
  concluded-sent (some res, s) = refl

  refreshed-sent :
      (out : Option Response × ClientState) → requests (after_refresh net out).1 ≡ requests out.1
  refreshed-sent (none, s) = refl
  refreshed-sent (some res, s) = elim (Option-cases (renewed_token res)) [
    | inl refused ↦ ground (arith, refused)
    | inr (t, renewed) ↦ ground (arith, renewed)
  ]

  renewal-sent :
      (path : Text) (token : Option Text) (res : Response) (renewal : Bool × ClientState)
      → (requests renewal.1 ≤ requests (after_renewal net path token res renewal).1)
        × (requests (after_renewal net path token res renewal).1 ≤ requests renewal.1 + 2)
  renewal-sent path token res (false, s) = (omega arith, omega arith)
  renewal-sent path token res (true, s) =
      let out = fetch_with_retry net retries (request_for net path token s) s in
      let (more, few) = fetch_with_retry-sent retries (request_for net path token s) s in
      let same = concluded-sent out in (ground (arith, more, same), ground (arith, few, same))

  refresh-sent :
      (s : ClientState)
      → (requests s ≤ requests (try_refresh_access_token net s).1)
        × (requests (try_refresh_access_token net s).1 ≤ requests s + 2)
  refresh-sent s =
      let request : Sent = record { path = codes "/auth/refresh"; token = [] } in
      let out = fetch_with_retry net retries request s in
      let (more, few) = fetch_with_retry-sent retries request s in
      let same = refreshed-sent out in
      unfold try_refresh_access_token in (ground (arith, more, same), ground (arith, few, same))

  first-sent :
      (path : Text) (token : Option Text) (out : Option Response × ClientState)
      → (requests out.1 ≤ requests (after_first net path token out).1)
        × (requests (after_first net path token out).1 ≤ requests out.1 + 4)
  first-sent path token (none, s) = (omega arith, omega arith)
  first-sent path token (some res, s) =
      let (more, few) = refresh-sent s in
      let (still, last) = renewal-sent path token res (try_refresh_access_token net s) in
      (ground (arith, more, few, still, last), ground (arith, more, few, still, last))

  -- A call sends at least one request and at most six, whatever the network answers.
  pub api-sent :
      (path : Text) (token : Option Text) (s : ClientState)
      → (requests s < requests (api net path token s).1)
        × (requests (api net path token s).1 ≤ requests s + 6)
  api-sent path token s =
      let out = fetch_with_retry net retries (request_for net path token s) s in
      let (more, few) = fetch_with_retry-sent retries (request_for net path token s) s in
      let (still, last) = first-sent path token out in
      unfold api in (omega (arith, more, still), omega (arith, few, last))
