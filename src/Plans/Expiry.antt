-- ===== src/Plans/Expiry.antt =====
-- A plan that has run out: backend/src/common/plan-guard.service.ts against
-- backend/src/users/users.service.ts.
use mathlib.Core.Option
use corcy.Prelude.{true, false, some, ◌≡◌, refl, arith, Option-cases, inl, inr}
use corcy.Store.{Cuid, Time, User, World, Result, ok, err}
use corcy.Store.Table.{find_first, update}
use corcy.Store.Table.Laws.{find_first-update_self}
use corcy.Plans.Guard.{
  PlanState, PlanReport, has_id, downgrade, get_user_plan, get_plan, is_expired,
}

-- What `getPlan` makes of the state that the plan guard reads.
abbrev pub active_report : Result PlanState → Result PlanReport
active_report (ok s) =
    ok (record { plan = s.plan; plan_expires_at = s.plan_expires_at; is_active = true })
active_report (err f) = err f

module _ (now : Time) (user_id : Cuid) (w : World) where
  -- The plan that the guard reads, where it reads one, has not run out.
  pub get_user_plan-current :
      {s : PlanState}
      → (get_user_plan now user_id w).0 ≡ ok s
      → is_expired now s.plan s.plan_expires_at ≡ false
  unfolding get_user_plan
  get_user_plan-current {s} e = ground arith

  -- For a known user `getPlan` reports the plan that the guard reads, always as active, and writes
  -- the same rows.
  pub get_plan-eq-get_user_plan :
      {u : User}
      → find_first (has_id user_id) w.users ≡ some u
      → get_plan now user_id w
        ≡ (active_report (get_user_plan now user_id w).0, (get_user_plan now user_id w).1)
  unfolding get_user_plan get_plan
  get_plan-eq-get_user_plan {u} e = ground arith

  downgraded :
      find_first (has_id user_id) (update (has_id user_id) downgrade w.users)
      ≡ Option.map downgrade (find_first (has_id user_id) w.users)
  downgraded = find_first-update_self (has_id user_id) downgrade w.users (λ u. refl)

  -- A second reading at the same time gives the same plan and writes nothing more.
  pub get_user_plan_again :
      get_user_plan now user_id (get_user_plan now user_id w).1 ≡ get_user_plan now user_id w
  unfolding get_user_plan
  get_user_plan_again = elim (Option-cases (find_first (has_id user_id) w.users)) [
    | inl missing ↦ ground (arith, downgraded)
    | inr (u, found) ↦ ground (arith, downgraded)
  ]
