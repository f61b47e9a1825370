-- ===== src/Payments.antt =====
-- backend/src/payments/stripe.service.ts: the customer, the checkout, and the events of the payment
-- service that change plans. What the service's client returns is a field of `StripeEnv`, `none`
-- where its call throws; a plan name that the database does not have makes its client throw.
pub mod Replay
pub mod Bought
use mathlib.Core.Option
use corcy.Prelude.{
  ℕ, ◌*◌, Bool, true, false, not, Option, none, some, List, [], ◌∷◌, ◌++◌, ◌==◌, is_some, or_else,
  Text, text_eq, codes, is_empty, if◌then◌else◌,
}
use corcy.Store.{
  Cuid, present_id, Time, User, Plan, free, pro, team, Subscription, World, invalid_request,
  record_missing, stripe_disabled, no_customer, no_session_url, bad_signature, Exec, pure, throw,
  read, write, throw_if, some_or, continue, ◌>>=◌, ◌>>◌,
}
use corcy.Store.Table.{find_first, exists, update}
use corcy.Plans.Guard.{has_id, set_plan}
use corcy.TwoFactor.{present}

-- `metadata.plan`
pub data PlanName : Type 0 where
  known : Plan → PlanName
  unknown : PlanName

-- `Stripe.Subscription`; times are in seconds.
pub record StripeSubscription : Type 0 where
  pub id : Text
  pub user_id : Option Cuid
  pub plan : Option PlanName
  pub status : Text
  pub price_id : Option Text
  pub current_period_start : ℕ
  pub current_period_end : ℕ
  pub cancel_at_period_end : Bool

-- `Stripe.Checkout.Session`
pub record CheckoutSession : Type 0 where
  pub user_id : Option Cuid
  pub plan : Option PlanName
  pub subscription : Text

pub data StripeEvent : Type 0 where
  checkout_completed : CheckoutSession → StripeEvent
  subscription_updated subscription_deleted : StripeSubscription → StripeEvent
  payment_failed : Text → StripeEvent
  unhandled : StripeEvent

-- What `checkout.sessions.create` is called with.
pub record CheckoutCall : Type 0 where
  pub customer : Text
  pub price_id : Text
  pub user_id : Cuid
  pub plan : Plan
  pub success_url : Text
  pub cancel_url : Text

pub record StripeEnv : Type 0 where
  -- STRIPE_SECRET_KEY is set
  pub enabled : Bool
  pub price_pro : Text
  pub price_team : Text
  pub frontend_url : Text
  pub webhook_secret : Option Text
  pub create_customer : Text → Option Text → Cuid → Option Text
  pub create_session : CheckoutCall → Option (Option Text)
  pub create_portal : Text → Text → Option Text
  pub retrieve : Text → Option StripeSubscription
  -- payload, signature, secret
  pub construct_event : Text → Text → Text → Option StripeEvent

abbrev pub of_user : Cuid → Subscription → Bool
of_user user_id s = s.user_id == user_id

abbrev pub has_stripe_id : Text → Subscription → Bool
has_stripe_id id s = text_eq s.stripe_sub_id id

abbrev pub plan_text : Plan → Text
plan_text free = codes "FREE"
plan_text pro = codes "PRO"
plan_text team = codes "TEAM"

abbrev customer_of : Option User → Option Text
customer_of none = none
customer_of (some u) = present u.stripe_customer_id

abbrev name_of : Option User → Option Text
name_of none = none
name_of (some u) = u.name

-- `active`
abbrev pub is_active_status : Text → Bool
is_active_status status = text_eq status (codes "active")

-- `new Date(seconds * 1000)`
abbrev pub date_of : ℕ → Time
date_of seconds = seconds * 1000

-- The row that a checkout creates, and what it writes into a row that is there.
abbrev pub created_subscription : Cuid → Text → StripeSubscription → Subscription
created_subscription user_id subscription_id s = record {
  user_id = user_id;
  stripe_sub_id = subscription_id;
  stripe_price_id = or_else s.price_id [];
  status = s.status;
  current_period_start = date_of s.current_period_start;
  current_period_end = date_of s.current_period_end;
  cancel_at_period_end = s.cancel_at_period_end;
}

abbrev pub renewed : Text → StripeSubscription → Subscription → Subscription
renewed subscription_id s row = record row {
  stripe_sub_id = subscription_id;
  status = s.status;
  current_period_end = date_of s.current_period_end;
  cancel_at_period_end = s.cancel_at_period_end;
}

abbrev pub upsert_subscription :
    Cuid → Text → StripeSubscription → List Subscription → List Subscription
upsert_subscription user_id subscription_id s rows =
    if exists (of_user user_id) rows
    then update (of_user user_id) (renewed subscription_id s) rows
    else created_subscription user_id subscription_id s ∷ rows

-- What `handleSubscriptionUpdated` and `handleSubscriptionDeleted` write.
abbrev pub followed : StripeSubscription → Subscription → Subscription
followed s row = record row {
  status = s.status;
  current_period_end = date_of s.current_period_end;
  cancel_at_period_end = s.cancel_at_period_end;
}

abbrev pub canceled : Subscription → Subscription
canceled row = record row { status = codes "canceled" }

-- `users.setPlan` with a name out of the metadata.
unfoldable pub set_named_plan : Cuid → PlanName → Time → Exec (Unit {0})
unfolding set_plan
set_named_plan user_id (known plan) period_end = set_plan user_id plan (some period_end)
set_named_plan user_id unknown period_end = throw record_missing

unfoldable pub handle_subscription_updated : StripeSubscription → Exec (Unit {0})
unfolding set_named_plan
handle_subscription_updated s = elim (present_id s.user_id) [
  | none ↦ pure tt
  | some user_id ↦ do
    elim s.plan [
      | none ↦ pure tt
      | some plan ↦
          if is_active_status s.status
          then set_named_plan user_id plan (date_of s.current_period_end)
          else pure tt
    ]
    write
        (λ w. record w { subscriptions = update (has_stripe_id s.id) (followed s) w.subscriptions })
]

unfoldable pub handle_subscription_deleted : StripeSubscription → Exec (Unit {0})
unfolding set_plan
handle_subscription_deleted s = elim (present_id s.user_id) [
  | none ↦ pure tt
  | some user_id ↦ do
    set_plan user_id free none
    write (λ w. record w { subscriptions = update (has_stripe_id s.id) canceled w.subscriptions })
]

module _ (env : StripeEnv) where
  -- `getStripe`
  abbrev get_stripe : Exec (Unit {0})
  get_stripe = throw_if (not env.enabled) stripe_disabled

  -- Prisma's `update` throws where there is no row.
  unfoldable pub get_or_create_customer : Cuid → Text → Exec Text
  get_or_create_customer user_id email = do
    get_stripe
    user ← read (λ w. find_first (has_id user_id) w.users)
    elim (customer_of user) [
      | some id ↦ pure id
      | none ↦ do
        id ← some_or (env.create_customer email (name_of user) user_id) record_missing
        throw_if (not (is_some user)) record_missing
        write (λ w. record w {
          users = update (has_id user_id) (λ u. record u { stripe_customer_id = some id }) w.users;
        })
        pure id
    ]

  unfoldable pub create_checkout_session : Cuid → Text → Text → Plan → Exec Text
  unfolding get_or_create_customer
  create_checkout_session user_id email price_id plan = do
    get_stripe
    customer ← get_or_create_customer user_id email
    session ←
        some_or
          (env.create_session (record {
            customer = customer;
            price_id = price_id;
            user_id = user_id;
            plan = plan;
            success_url =
                env.frontend_url ++ (codes "/settings?payment=success&plan=" ++ plan_text plan);
            cancel_url = env.frontend_url ++ codes "/settings?payment=canceled";
          }))
          record_missing
    some_or (present session) no_session_url

  unfoldable pub create_billing_portal_session : Cuid → Exec Text
  create_billing_portal_session user_id = do
    get_stripe
    user ← read (λ w. find_first (has_id user_id) w.users)
    customer ← some_or (customer_of user) no_customer
    some_or (env.create_portal customer (env.frontend_url ++ codes "/settings")) record_missing

  unfoldable pub handle_checkout_completed : CheckoutSession → Exec (Unit {0})
  unfolding set_named_plan
  handle_checkout_completed session = do
    get_stripe
    elim (present_id session.user_id) [
      | none ↦ pure tt
      | some user_id ↦ elim session.plan [
        | none ↦ pure tt
        | some plan ↦ do
          s ← some_or (env.retrieve session.subscription) record_missing
          set_named_plan user_id plan (date_of s.current_period_end)
          write (λ w. record w {
            subscriptions = upsert_subscription user_id session.subscription s w.subscriptions;
          })
      ]
    ]

  -- A failed payment is only logged.
  unfoldable pub dispatch : StripeEvent → Exec (Unit {0})
  unfolding handle_checkout_completed handle_subscription_updated handle_subscription_deleted
  dispatch (checkout_completed session) = handle_checkout_completed session
  dispatch (subscription_updated s) = handle_subscription_updated s
  dispatch (subscription_deleted s) = handle_subscription_deleted s
  dispatch (payment_failed customer) = pure tt
  dispatch unhandled = pure tt

  unfoldable pub handle_webhook : Text → Text → Exec (Unit {0})
  unfolding dispatch
  handle_webhook payload signature = do
    get_stripe
    elim (present env.webhook_secret) [
      | none ↦ pure tt
      | some secret ↦ elim (env.construct_event payload signature secret) [
        | none ↦ throw bad_signature
        | some event ↦ dispatch event
      ]
    ]

  -- payments.controller.ts, `createCheckout` of the user of the request.
  unfoldable pub create_checkout : Cuid → Text → Plan → Exec Text
  unfolding create_checkout_session
  create_checkout user_id email free = do
    throw_if (not env.enabled) invalid_request
    throw invalid_request
  create_checkout user_id email pro = do
    throw_if (not env.enabled) invalid_request
    throw_if (is_empty env.price_pro) invalid_request
    create_checkout_session user_id email env.price_pro pro
  create_checkout user_id email team = do
    throw_if (not env.enabled) invalid_request
    throw_if (is_empty env.price_team) invalid_request
    create_checkout_session user_id email env.price_team team
