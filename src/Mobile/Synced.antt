-- ===== src/Mobile/Synced.antt =====
-- The refresh token in memory and in the storage.
use mathlib.Core.Path.{subst}
use corcy.Prelude.{
  ◌≡◌, sym, refl, inl, inr, Bool, true, false, Option, none, some, List, Text, codes, arith,
  Option-cases, Bool-cases, if◌then◌else◌,
}
use corcy.Store.{Cuid}
use corcy.TwoFactor.{present}
use corcy.Mobile.{
  MobileResponse, MobileSent, MobileState, set_mobile_auth, mobile_logout, mobile_grant,
  restore_mobile_session, renew_mobile_token, renew_with, restore_with, mobile_api, after_answer,
  again, ask, concluded, is_retried, log_request,
}

-- A refresh token in memory is the stored one.
abbrev pub IsSynced : MobileState → Type 0
IsSynced s = (t : Text) → s.refresh_token ≡ some t → s.stored_refresh ≡ some t

-- What the app does with its session; it is restored where nobody is signed in.
pub data MobileStep (s : MobileState) (v : MobileState) : Type 0 where
  signs_in :
      (u : Cuid) (access refresh : Text)
      → v ≡ set_mobile_auth (some u) access refresh s
      → MobileStep s v
  signs_out : v ≡ mobile_logout s → MobileStep s v
  restores :
      (net : List MobileSent → Text → Option MobileResponse)
      → s.refresh_token ≡ none
      → v ≡ (restore_mobile_session net s).1
      → MobileStep s v
  asks :
      (net : List MobileSent → Text → Option MobileResponse) (path : Text) (skip_auth : Bool)
      → v ≡ (mobile_api net path skip_auth s).1
      → MobileStep s v

pub data MobileRun (s : MobileState) : MobileState → Type 0 where
  here : MobileRun s s
  next : {v u : MobileState} → MobileRun s v → MobileStep v u → MobileRun s u

logout-IsSynced : (s : MobileState) → IsSynced (mobile_logout s)
unfolding mobile_logout
logout-IsSynced s t e = ground (arith, e)

module _ (net : List MobileSent → Text → Option MobileResponse) where
  restored-IsSynced :
      (stored : Text) (answer : Option MobileResponse) (s : MobileState)
      → s.refresh_token ≡ none
      → IsSynced (restore_with net stored answer s).1
  restored-IsSynced stored none s nobody t e = absurd (ground (arith, nobody, e))
  restored-IsSynced stored (some res) s nobody t e = ground (arith, nobody, e)

  restore-IsSynced :
      (s : MobileState) → s.refresh_token ≡ none → IsSynced (restore_mobile_session net s).1
  restore-IsSynced s nobody = elim (Option-cases (present s.stored_refresh)) [
    | inl missing ↦
        let same : (restore_mobile_session net s).1.refresh_token ≡ s.refresh_token =
          unfold restore_mobile_session in ground (arith, missing) in
        λ t e. absurd (ground (arith, nobody, e, same))
    | inr (stored, there) ↦
        let same : restore_mobile_session net s
            ≡ restore_with net stored (net s.sent (codes "/auth/refresh"))
                (log_request (codes "/auth/refresh") none s) =
          unfold restore_mobile_session in ground (arith, there) in
        subst (λ (r : Bool × MobileState). IsSynced r.1) (sym same)
          (restored-IsSynced stored (net s.sent (codes "/auth/refresh"))
            (log_request (codes "/auth/refresh") none s) nobody)
  ]

  renewed-IsSynced :
      (answer : Option MobileResponse) (s : MobileState)
      → IsSynced s
      → IsSynced (renew_with net answer s).1
  renewed-IsSynced none s h = h
  renewed-IsSynced (some res) s h = elim (Option-cases (mobile_grant res)) [
    | inl refused ↦ rw (refused, renew_with) (logout-IsSynced s)
    | inr (g, granted) ↦ λ t e. unfold set_mobile_auth in ground (arith, granted, e)
  ]

  renew-IsSynced : (s : MobileState) → IsSynced s → IsSynced (renew_mobile_token net s).1
  renew-IsSynced s h = elim (Option-cases (present s.refresh_token)) [
    | inl missing ↦
        let same : renew_mobile_token net s ≡ (false, s) =
          unfold renew_mobile_token in ground (arith, missing) in
        subst (λ (r : Bool × MobileState). IsSynced r.1) (sym same) h
    | inr (t, there) ↦
        let same : renew_mobile_token net s
            ≡ renew_with net (net s.sent (codes "/auth/refresh"))
                (log_request (codes "/auth/refresh") none s) =
          unfold renew_mobile_token in ground (arith, there) in
        subst (λ (r : Bool × MobileState). IsSynced r.1) (sym same)
          (renewed-IsSynced (net s.sent (codes "/auth/refresh"))
            (log_request (codes "/auth/refresh") none s) h)
  ]

  concluded-same : (out : Option MobileResponse × MobileState) → (concluded net out).1 ≡ out.1
  concluded-same (none, s) = refl
  concluded-same (some res, s) = refl

  again-IsSynced :
      (path : Text) (res : MobileResponse) (renewal : Bool × MobileState)
      → IsSynced renewal.1
      → IsSynced (again net path res renewal).1
  again-IsSynced path res (false, s) h = h
  again-IsSynced path res (true, s) h =
      subst IsSynced (sym (concluded-same (ask net path (present s.access_token) s))) h

  answered-IsSynced :
      (path : Text) (skip_auth : Bool) (answer : Option MobileResponse) (s : MobileState)
      → IsSynced s
      → IsSynced (after_answer net path skip_auth (answer, s)).1
  answered-IsSynced path skip_auth none s h = h
  answered-IsSynced path skip_auth (some res) s h =
      elim (Bool-cases (is_retried net path skip_auth res)) [
        | inl retried ↦
            rw (retried, after_answer)
              (again-IsSynced path res (renew_mobile_token net s) (renew-IsSynced s h))
        | inr done ↦ rw (done, after_answer) h
      ]

  api-IsSynced :
      (path : Text) (skip_auth : Bool) (s : MobileState)
      → IsSynced s
      → IsSynced (mobile_api net path skip_auth s).1
  unfolding mobile_api
  api-IsSynced path skip_auth s h =
      let token = if skip_auth then none else present s.access_token in
      answered-IsSynced path skip_auth (net s.sent path) (log_request path token s) h

step-IsSynced : {s v : MobileState} → MobileStep s v → IsSynced s → IsSynced v
step-IsSynced (signs_in u access refresh e) h = rw e (unfold set_mobile_auth in λ t k. k)
step-IsSynced {s} (signs_out e) h = rw e (logout-IsSynced s)
step-IsSynced {s} (restores net nobody e) h = rw e (restore-IsSynced net s nobody)
step-IsSynced {s} (asks net path skip_auth e) h = rw e (api-IsSynced net path skip_auth s h)

-- Whatever the app does and the network answers, a refresh token in memory is the one in the secure
-- storage, if it was so at the start.
pub MobileRun-IsSynced : {s v : MobileState} → MobileRun s v → IsSynced s → IsSynced v
MobileRun-IsSynced here h = h
MobileRun-IsSynced (next r step) h = step-IsSynced step (MobileRun-IsSynced r h)
