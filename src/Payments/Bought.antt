-- ===== src/Payments/Bought.antt =====
-- The plan that a checkout buys.
use corcy.Prelude.{◌≡◌, refl, inl, inr, true, false, some, Text, arith, Option-cases, ◌<◌, ◌≤◌}
use corcy.Store.{Cuid, present_id, Time, User, Plan, World, ok}
use corcy.Store.Table.{exists, find_first, update}
use corcy.Store.Table.Laws.{find_first-update_self, find_first-eq-exists}
use corcy.Plans.Guard.{has_id, set_plan, no_plan, get_user_plan, is_free}
use corcy.TwoFactor.{present}
use corcy.Payments.{
  known, StripeSubscription, CheckoutSession, checkout_completed, StripeEnv, date_of,
  set_named_plan, handle_checkout_completed, dispatch, handle_webhook,
}

abbrev with_plan : Plan → Time → User → User
with_plan plan until u = record u { plan = plan; plan_expires_at = some until }

-- The plan guard reads a paid plan until its end.
read_plan :
    (user_id : Cuid) (plan : Plan) (until now : Time) (u : User) (w : World)
    → is_free plan ≡ false
    → find_first (has_id user_id) w.users ≡ some (with_plan plan until u)
    → (now < until
        → (get_user_plan now user_id w).0
          ≡ ok (record { plan = plan; plan_expires_at = some until }))
      × (until ≤ now → (get_user_plan now user_id w).0 ≡ ok no_plan)
unfolding get_user_plan
read_plan user_id plan until now u w paying found =
    (λ before. ground (arith, paying, found, before), λ over. ground (arith, paying, found, over))

module _ (env : StripeEnv) (c : CheckoutSession) (s : StripeSubscription) (user_id : Cuid)
    (plan : Plan) (payload signature secret : Text) (w : World) where
  abbrev paid : World
  paid = (handle_webhook env payload signature w).1

  abbrev end : Time
  end = date_of s.current_period_end

  paid-users :
      env.enabled ≡ true
      → present env.webhook_secret ≡ some secret
      → env.construct_event payload signature secret ≡ some (checkout_completed c)
      → present_id c.user_id ≡ some user_id
      → c.plan ≡ some (known plan)
      → env.retrieve c.subscription ≡ some s
      → exists (has_id user_id) w.users ≡ true
      → ((handle_webhook env payload signature w).0 ≡ ok tt)
        × (paid.users ≡ update (has_id user_id) (with_plan plan end) w.users)
  paid-users on set signed named given got there =
      unfold handle_webhook dispatch handle_checkout_completed set_named_plan set_plan in
      ground (arith, on, set, signed, named, given, got, there)

  -- A completed checkout of a known user gives the plan until the end of the paid period, as the
  -- plan guard reads it, and the free one from then on.
  pub handle_webhook-get_user_plan :
      env.enabled ≡ true
      → present env.webhook_secret ≡ some secret
      → env.construct_event payload signature secret ≡ some (checkout_completed c)
      → present_id c.user_id ≡ some user_id
      → c.plan ≡ some (known plan)
      → env.retrieve c.subscription ≡ some s
      → is_free plan ≡ false
      → exists (has_id user_id) w.users ≡ true
      → ((handle_webhook env payload signature w).0 ≡ ok tt)
        × ((now : Time)
            → now < date_of s.current_period_end
            → (get_user_plan now user_id paid).0
              ≡ ok (record { plan = plan; plan_expires_at = some (date_of s.current_period_end) }))
        × ((now : Time)
            → date_of s.current_period_end ≤ now
            → (get_user_plan now user_id paid).0 ≡ ok no_plan)
  handle_webhook-get_user_plan on set signed named given got paying there =
      let (done, rows) = paid-users on set signed named given got there in
      let known_user = find_first-eq-exists (has_id user_id) w.users in
      elim (Option-cases (find_first (has_id user_id) w.users)) [
        | inl missing ↦ absurd (ground (arith, missing, known_user, there))
        | inr (u, found) ↦
            let row =
              find_first-update_self (has_id user_id) (with_plan plan end) w.users (λ x. refl) in
            let read : find_first (has_id user_id) paid.users ≡ some (with_plan plan end u) =
              rw (rows, row, found) refl in
            (
              done,
              λ now. (read_plan user_id plan end now u paid paying read).0,
              λ now. (read_plan user_id plan end now u paid paying read).1,
            )
      ]
