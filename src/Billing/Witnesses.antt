-- ===== src/Billing/Witnesses.antt =====
-- The theorems on billing at an organization with the silver plan.
use attendence_system.Prelude.{
  Bool, [], ◌∷◌, ℕ, ◌≤◌, ◌≡◌, ◌⊎◌, refl, true, false, none, some, String,
}
use attendence_system.Prelude.Result.{ok}
use attendence_system.Billing.Catalog.{silver, monthly, SaasPlan, PlanLimits, plan_by_id}
use attendence_system.Billing.Entitlements.{
  SubscriptionDoc, active, number, null, Resource, limits_from, entitlement_from_data,
  assert_active, limit_for, is_full, Allows, assert_creation_within_limit,
  assert_creation_within_limit-Allows,
}
use attendence_system.Billing.Webhook.{
  Subscription, Tenant, WebhookEvent, Projection, BillingStore, event_at_of, projection,
  apply_event, resolve_tenant, resolve_for,
}
use attendence_system.Billing.Handler.{
  Surroundings, WebhookRequest, Admitted, processed, handle, IsAdmitted, admit, handle-IsAdmitted,
}
use attendence_system.Billing.Webhook.Laws.{apply_event-again, apply_event-event_at}

abbrev current : SubscriptionDoc
current = record {
  access_status = some active;
  ends_at = some 2000;
  limits = some (record {
    employees = number 100;
    devices = number 3;
    branches = null;
    admin_users = number 10;
    history_years = number 2;
  });
}

creation_run : assert_creation_within_limit 1000 (some current) Resource.employees 99 ≡ ok tt
unfolding assert_creation_within_limit assert_active entitlement_from_data limits_from
creation_run = refl

assert_creation_within_limit-Allows_example :
    (doc : SubscriptionDoc) × (l : PlanLimits) × (some current ≡ some doc)
    × Allows 1000 doc l
    × (is_full (limit_for l Resource.employees) 99 ≡ false)
assert_creation_within_limit-Allows_example =
    assert_creation_within_limit-Allows 1000 (some current) Resource.employees 99 creation_run

abbrev subscription : Subscription
subscription = record {
  subscription_id = "sub_1";
  product_id = "prod_1";
  customer_id = "cus_1";
  status = "active";
  currency = "LKR";
  recurring_pre_tax_amount = 990_000;
  trial_period_days = 14;
  cancel_at_next_billing_date = false;
  created_at = some 500;
  expires_at = some 9000;
  previous_billing_date = some 500;
  next_billing_date = some 3000;
  paused_at = none;
  cancelled_at = none;
  metadata_organization = some "acme";
  metadata_plan = some "silver";
  metadata_cycle = some "monthly";
}

abbrev tenant : Tenant
tenant = record { organization_id = "acme"; plan = silver; cycle = monthly }

abbrev renewed : WebhookEvent
renewed = record {
  type' = "subscription.renewed";
  timestamp = some 700;
  subscription = subscription;
}

abbrev silver_plan : SaasPlan
silver_plan = record {
  id = silver;
  name = "Silver";
  tagline = "";
  monthly_price_lkr = 9_900;
  annual_price_lkr = 99_000;
  featured = true;
  support = "";
  limits = record {
    employees = 100;
    devices = 3;
    branches = some 3;
    admin_users = 10;
    history_years = 2;
  };
}

abbrev projected : Projection
projected = projection tenant none silver_plan renewed 800

-- The organization's subscription was last changed by an event of 600.
abbrev books : BillingStore
books = record {
  webhook_events = λ id. none;
  saas_subscriptions = λ o. some (record projected { provider_event_at = some 600 });
  tenant_subscriptions = λ o. none;
  provider_subscriptions = λ id. record {
    organization_id = none;
    plan_id = none;
    billing_cycle = none;
    provider_product_id = none;
  };
  billing_accounts = λ o. none;
}

abbrev digest : String → String
digest s = s

apply_event-again_example :
    apply_event digest "evt_1" tenant renewed 900 projected
      (apply_event digest "evt_1" tenant renewed 800 projected books).1
    ≡ (false, (apply_event digest "evt_1" tenant renewed 800 projected books).1)
apply_event-again_example =
    apply_event-again digest "evt_1" tenant renewed 800 projected books 900 projected

apply_event-event_at_example :
    (m : ℕ) × (event_at_of (
        (apply_event digest "evt_1" tenant renewed 800 projected books).1.saas_subscriptions "acme")
      ≡ some m)
    × (600 ≤ m)
apply_event-event_at_example =
    apply_event-event_at digest "evt_1" tenant none silver_plan renewed 800 books "acme" 600 refl

abbrev surroundings : Surroundings
surroundings = record {
  unwrap = λ body id signature timestamp. some renewed;
  product_lookup = λ id. record { plan_id = some "silver"; billing_cycle = some "monthly" };
  organizations = λ o. some (some "Acme");
  digest = digest;
}

abbrev request : WebhookRequest
request = record {
  is_post = true;
  webhook_id = some "evt_1";
  webhook_signature = some "v1,signature";
  webhook_timestamp = some "700";
  raw_body = 123 ∷ 125 ∷ [];
}

handled_run : (handle surroundings request 800 books).0 ≡ processed true
unfolding handle admit plan_by_id resolve_tenant resolve_for apply_event projection
handled_run = refl

handle-IsAdmitted_example :
    ((handle surroundings request 800 books).1 ≡ books)
    ⊎ ((a : Admitted) × (applied : Bool) × IsAdmitted surroundings request books a
        × ((handle surroundings request 800 books).0 ≡ processed applied))
handle-IsAdmitted_example = handle-IsAdmitted surroundings request 800 books
