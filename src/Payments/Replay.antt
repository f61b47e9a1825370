-- ===== src/Payments/Replay.antt =====
-- An event of the payment service that is delivered again.
use corcy.Prelude.{
  ◌≡◌, refl, inl, inr, Option, none, some, List, Text, arith, Option-cases, Bool-cases, ==_refl,
}
use corcy.Store.{Cuid, present_id, Time, User, Plan, free, Subscription, World, Exec}
use corcy.Store.Table.{exists, update}
use corcy.Store.Table.Laws.{update_twice, exists-update, update_missing}
use corcy.Plans.Guard.{has_id, set_plan}
use corcy.TwoFactor.{present}
use corcy.Payments.{
  PlanName, known, unknown, StripeSubscription, CheckoutSession, StripeEvent, checkout_completed,
  subscription_updated, subscription_deleted, payment_failed, unhandled, StripeEnv, of_user,
  has_stripe_id, date_of, upsert_subscription, renewed, followed, canceled, set_named_plan,
  handle_subscription_updated, handle_subscription_deleted, handle_checkout_completed, dispatch,
  handle_webhook,
}

-- Running a handler again gives the same result and leaves the same world.
abbrev Replays : {A : Type 0} → Exec A → World → Type 0
Replays m w = m (m w).1 ≡ m w

abbrev planned : Plan → Option Time → User → User
planned plan until u = record u { plan = plan; plan_expires_at = until }

upsert_twice :
    (u : Cuid) (id : Text) (s : StripeSubscription) (rows : List Subscription)
    → upsert_subscription u id s (upsert_subscription u id s rows) ≡ upsert_subscription u id s rows
upsert_twice u id s rows = elim (Bool-cases (exists (of_user u) rows)) [
  | inl there ↦ ground (
    arith,
    there,
    exists-update (of_user u) (of_user u) (renewed id s) rows (λ x. refl),
    update_twice (of_user u) (renewed id s) rows (λ x. refl) (λ x. refl),
  )
  | inr missing ↦
      unfold exists update in
      ground (arith, missing, ==_refl u, update_missing (of_user u) (renewed id s) rows missing)
]

module _ (u : Cuid) (plan : Plan) (until : Option Time) (w : World) where
  users_twice :
      update (has_id u) (planned plan until) (update (has_id u) (planned plan until) w.users)
      ≡ update (has_id u) (planned plan until) w.users
  users_twice = update_twice (has_id u) (planned plan until) w.users (λ x. refl) (λ x. refl)

  exists_again :
      exists (has_id u) (update (has_id u) (planned plan until) w.users) ≡ exists (has_id u) w.users
  exists_again = exists-update (has_id u) (has_id u) (planned plan until) w.users (λ x. refl)

updated-Replays : (s : StripeSubscription) (w : World) → Replays (handle_subscription_updated s) w
updated-Replays s w =
    let subs =
      update_twice (has_stripe_id s.id) (followed s) w.subscriptions (λ x. refl) (λ x. refl) in
    elim (Option-cases (present_id s.user_id)) [
      | inl nobody ↦ unfold handle_subscription_updated in ground (arith, nobody)
      | inr (u, named) ↦ elim (Option-cases s.plan) [
        | inl no_plan ↦ unfold handle_subscription_updated in ground (arith, named, no_plan, subs)
        | inr (unknown, given) ↦
            unfold handle_subscription_updated in ground (arith, named, given, subs)
        | inr (known plan, given) ↦
            unfold handle_subscription_updated set_named_plan set_plan in
            ground (
              arith,
              named,
              given,
              subs,
              users_twice u plan (some (date_of s.current_period_end)) w,
              exists_again u plan (some (date_of s.current_period_end)) w,
            )
      ]
    ]

deleted-Replays : (s : StripeSubscription) (w : World) → Replays (handle_subscription_deleted s) w
deleted-Replays s w =
    let subs = update_twice (has_stripe_id s.id) canceled w.subscriptions (λ x. refl) (λ x. refl) in
    elim (Option-cases (present_id s.user_id)) [
      | inl nobody ↦ unfold handle_subscription_deleted in ground (arith, nobody)
      | inr (u, named) ↦
          unfold handle_subscription_deleted set_plan in
          ground (arith, named, subs, users_twice u free none w, exists_again u free none w)
    ]

module _ (env : StripeEnv) (c : CheckoutSession) (w : World) where
  bought-Replays :
      (u : Cuid) (plan : PlanName) (s : StripeSubscription)
      → present_id c.user_id ≡ some u
      → c.plan ≡ some plan
      → env.retrieve c.subscription ≡ some s
      → Replays (handle_checkout_completed env c) w
  unfolding handle_checkout_completed set_named_plan set_plan
  bought-Replays u unknown s named given got = ground (arith, named, given, got)
  bought-Replays u (known plan) s named given got = ground (
    arith,
    named,
    given,
    got,
    upsert_twice u c.subscription s w.subscriptions,
    users_twice u plan (some (date_of s.current_period_end)) w,
    exists_again u plan (some (date_of s.current_period_end)) w,
  )

  completed-Replays : Replays (handle_checkout_completed env c) w
  completed-Replays = elim (Option-cases (present_id c.user_id)) [
    | inl nobody ↦ unfold handle_checkout_completed in ground (arith, nobody)
    | inr (u, named) ↦ elim (Option-cases c.plan) [
      | inl no_plan ↦ unfold handle_checkout_completed in ground (arith, named, no_plan)
      | inr (plan, given) ↦ elim (Option-cases (env.retrieve c.subscription)) [
        | inl failed ↦ unfold handle_checkout_completed in ground (arith, named, given, failed)
        | inr (s, got) ↦ bought-Replays u plan s named given got
      ]
    ]
  ]

dispatch-Replays : (env : StripeEnv) (e : StripeEvent) (w : World) → Replays (dispatch env e) w
unfolding dispatch
dispatch-Replays env (checkout_completed c) w = completed-Replays env c w
dispatch-Replays env (subscription_updated s) w = updated-Replays s w
dispatch-Replays env (subscription_deleted s) w = deleted-Replays s w
dispatch-Replays env (payment_failed c) w = refl
dispatch-Replays env unhandled w = refl

-- A webhook that is delivered again, where the payment service answers as before, has the same
-- result and changes nothing.
pub handle_webhook_again :
    (env : StripeEnv) (payload signature : Text) (w : World)
    → handle_webhook env payload signature (handle_webhook env payload signature w).1
      ≡ handle_webhook env payload signature w
handle_webhook_again env payload signature w = elim (Bool-cases env.enabled) [
  | inr off ↦ unfold handle_webhook in ground (arith, off)
  | inl on ↦ elim (Option-cases (present env.webhook_secret)) [
    | inl no_secret ↦ unfold handle_webhook in ground (arith, on, no_secret)
    | inr (secret, set) ↦ elim (Option-cases (env.construct_event payload signature secret)) [
      | inl forged ↦ unfold handle_webhook in ground (arith, on, set, forged)
      | inr (e, signed) ↦ unfold handle_webhook in rw (on, set, signed) (dispatch-Replays env e w)
    ]
  ]
]
