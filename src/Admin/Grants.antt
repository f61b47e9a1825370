-- ===== src/Admin/Grants.antt =====
-- The plan that an administrator sets, as the plan guard reads it.
use corcy.Prelude.{◌≡◌, refl, inl, inr, Option, some, Text, arith, Option-cases, if◌then◌else◌}
use corcy.Store.{Cuid, Time, User, Plan, World, ok}
use corcy.Store.Table.{find_first}
use corcy.Store.Table.Laws.{find_first-update_self}
use corcy.Plans.Guard.{has_id, get_user_plan, is_expired, no_plan}
use corcy.Admin.{plan_named, changed, update_user_plan}

module _ (admin_id user_id : Cuid) (plan : Option Text) (expires_at : Option Time) (w : World) where
  abbrev granted : World
  granted = (update_user_plan admin_id user_id plan expires_at w).1

  -- A plan that an administrator set is the one that the guard reads, until it runs out.
  pub update_user_plan-get_user_plan :
      (p : Plan)
      → plan_named plan ≡ some p
      → (update_user_plan admin_id user_id plan expires_at w).0 ≡ ok changed
      → (now : Time)
      → (get_user_plan now user_id granted).0
        ≡ ok (
            if is_expired now p expires_at
            then no_plan
            else record { plan = p; plan_expires_at = expires_at })
  update_user_plan-get_user_plan p named done now =
      let set = λ (u : User). record u { plan = p; plan_expires_at = expires_at } in
      let rows = find_first-update_self (has_id user_id) set w.users (λ x. refl) in
      elim (Option-cases (find_first (has_id user_id) w.users)) [
        | inl missing ↦ absurd (unfold update_user_plan in ground (arith, named, missing, done))
        | inr (u, found) ↦
            let row : find_first (has_id user_id) granted.users ≡ some (set u) =
              unfold update_user_plan in ground (arith, named, found, rows) in
            unfold get_user_plan in ground (arith, row)
      ]
