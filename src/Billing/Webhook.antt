-- ===== src/Billing/Webhook.antt =====
-- The payments provider's webhook: cloud/functions/src/billing/webhook.ts.
pub mod Laws
use attendence_system.Prelude.{
  ℕ, ◌≡◌, Bool, true, false, not, ◌&&◌, ◌||◌, List, [], ◌∷◌, Option, none, some, String, ltb, ◌==◌,
  is_some, get_or, if◌then◌else◌,
}
use attendence_system.Prelude.Result.{Result, ok, err}
use attendence_system.Prelude.Maybe.{◌>>=◌}
use attendence_system.Prelude.Text.{str_eq, is_empty, is_lower, is_digit, codes, head_then}
use attendence_system.Billing.Catalog.{
  PlanId, bronze, silver, gold, platinum, BillingCycle, monthly, annual, PlanLimits, SaasPlan,
  plan_by_id, price_for_cycle,
}
use attendence_system.Billing.Entitlements.{AccessStatus, active, restricted}

abbrev pub string_value : Option String → Option String
string_value none = none
string_value (some s) = if is_empty s then none else some s

-- `isPlanId` and `isBillingCycle`, with the value that they recognise
abbrev pub plan_id : Option String → Option PlanId
plan_id none = none
plan_id (some s) =
    if str_eq s "bronze"
    then some bronze
    else if str_eq s "silver"
    then some silver
    else if str_eq s "gold"
    then some gold
    else if str_eq s "platinum"
    then some platinum
    else none

abbrev pub billing_cycle : Option String → Option BillingCycle
billing_cycle none = none
billing_cycle (some s) =
    if str_eq s "monthly" then some monthly else if str_eq s "annual" then some annual else none

-- What the code uses of the provider's `Subscription`. Dates are what `Date.parse` makes of them,
-- none where it fails.
pub record Subscription : Type 0 where
  pub subscription_id : String
  pub product_id : String
  pub customer_id : String
  pub status : String
  pub currency : String
  pub recurring_pre_tax_amount : ℕ
  pub trial_period_days : ℕ
  pub cancel_at_next_billing_date : Bool
  pub created_at : Option ℕ
  pub expires_at : Option ℕ
  pub previous_billing_date : Option ℕ
  pub next_billing_date : Option ℕ
  pub paused_at : Option ℕ
  pub cancelled_at : Option ℕ
  pub metadata_organization : Option String
  pub metadata_plan : Option String
  pub metadata_cycle : Option String

pub record ProviderDoc : Type 0 where
  pub organization_id : Option String
  pub plan_id : Option String
  pub billing_cycle : Option String
  pub provider_product_id : Option String

-- A document of `billingProductLookup`
pub record ProductDoc : Type 0 where
  pub plan_id : Option String
  pub billing_cycle : Option String

pub record Tenant : Type 0 where
  pub organization_id : String
  pub plan : PlanId
  pub cycle : BillingCycle

abbrev pub plan_and_cycle : Option String → Option String → Option (PlanId × BillingCycle)
plan_and_cycle p c = plan_id p >>= λ plan. billing_cycle c >>= λ cycle. some (plan, cycle)

abbrev pub tenant_of : String → PlanId × BillingCycle → Tenant
tenant_of organization pc = record { organization_id = organization; plan = pc.0; cycle = pc.1 }

abbrev pub is_other_product : Option String → String → Bool
is_other_product none product = false
is_other_product (some p) product = not (str_eq p product)

unfoldable pub resolve_for : String → Subscription → ProviderDoc → ProductDoc → Option Tenant
resolve_for organization s provider product =
    elim (plan_and_cycle product.plan_id product.billing_cycle) [
      | some pc ↦ some (tenant_of organization pc)
      | none ↦ elim (plan_and_cycle s.metadata_plan s.metadata_cycle) [
        | some pc ↦
            if is_other_product (string_value provider.provider_product_id) s.product_id
            then none
            else some (tenant_of organization pc)
        | none ↦ elim (plan_and_cycle provider.plan_id provider.billing_cycle) [
          | some pc ↦ some (tenant_of organization pc)
          | none ↦ none
        ]
      ]
    ]

unfoldable pub resolve_tenant : Subscription → ProviderDoc → ProductDoc → Option Tenant
resolve_tenant s provider product = elim (string_value s.metadata_organization) [
  | some organization ↦ resolve_for organization s provider product
  | none ↦ elim (string_value provider.organization_id) [
    | some organization ↦ resolve_for organization s provider product
    | none ↦ none
  ]
]

unfoldable pub access_for_status : String → AccessStatus
access_for_status status = if str_eq status "active" then active else restricted

-- `projection`
pub record Projection : Type 0 where
  pub organization_id : String
  pub organization_name : Option String
  pub plan : SaasPlan
  pub billing_cycle : BillingCycle
  pub billing_status : String
  pub access_status : AccessStatus
  pub source : String
  pub currency : String
  pub price_lkr : ℕ
  pub provider_price_minor : ℕ
  pub limits : PlanLimits
  pub starts_at : Option ℕ
  pub ends_at : Option ℕ
  pub current_period_start : Option ℕ
  pub current_period_end : Option ℕ
  pub paused_at : Option ℕ
  pub cancelled_at : Option ℕ
  pub cancel_at_period_end : Bool
  pub provider_customer_id : String
  pub provider_subscription_id : String
  pub provider_product_id : String
  pub trial_period_days : ℕ
  pub provider_event_type : String
  pub provider_event_at : Option ℕ
  pub updated_at : ℕ

pub record WebhookEvent : Type 0 where
  pub type' : String
  pub timestamp : Option ℕ
  pub subscription : Subscription

unfoldable pub projection : Tenant → Option String → SaasPlan → WebhookEvent → ℕ → Projection
projection t name plan e now =
    let s = e.subscription in
    record {
      organization_id = t.organization_id;
      organization_name = some (get_or (string_value name) t.organization_id);
      plan = plan;
      billing_cycle = t.cycle;
      billing_status = s.status;
      access_status = access_for_status s.status;
      source = "dodo";
      currency = s.currency;
      price_lkr = price_for_cycle plan t.cycle;
      provider_price_minor = s.recurring_pre_tax_amount;
      limits = plan.limits;
      starts_at = s.created_at;
      ends_at = s.expires_at;
      current_period_start = s.previous_billing_date;
      current_period_end = s.next_billing_date;
      paused_at = s.paused_at;
      cancelled_at = s.cancelled_at;
      cancel_at_period_end = s.cancel_at_next_billing_date;
      provider_customer_id = s.customer_id;
      provider_subscription_id = s.subscription_id;
      provider_product_id = s.product_id;
      trial_period_days = s.trial_period_days;
      provider_event_type = e.type';
      provider_event_at = some (get_or e.timestamp now);
      updated_at = now;
    }

pub record EventRecord : Type 0 where
  pub webhook_id : String
  pub event_type : String
  pub subscription_id : String
  pub organization_id : String
  pub received_at : ℕ
  pub event_at : ℕ
  pub applied : Bool

pub record AccountDoc : Type 0 where
  pub organization_id : String
  pub provider_customer_id : String
  pub trial_consumed_at : Option ℕ
  pub updated_at : ℕ

-- The collections that the transaction reads and writes. A projection without a name stands for the
-- copy of an organization before its first event.
pub record BillingStore : Type 0 where
  pub webhook_events : String → Option EventRecord
  pub saas_subscriptions : String → Option Projection
  pub tenant_subscriptions : String → Option Projection
  pub provider_subscriptions : String → ProviderDoc
  pub billing_accounts : String → Option AccountDoc

abbrev pub set_doc {ℓ} : {A : Type ℓ} → (String → A) → String → A → String → A
set_doc f name value other = if str_eq other name then value else f other

abbrev pub event_at_of : Option Projection → Option ℕ
event_at_of none = none
event_at_of (some p) = p.provider_event_at

abbrev pub is_stale : Option ℕ → ℕ → Bool
is_stale none at = false
is_stale (some previous) at = ltb at previous

abbrev pub plan_name : PlanId → String
plan_name bronze = "bronze"
plan_name silver = "silver"
plan_name gold = "gold"
plan_name platinum = "platinum"

abbrev pub cycle_name : BillingCycle → String
cycle_name monthly = "monthly"
cycle_name annual = "annual"

-- `organizationName` is left out of the tenant's copy: a merge keeps what it had.
abbrev pub tenant_projection : Option Projection → Projection → Projection
tenant_projection none p = record p { organization_name = none }
tenant_projection (some old) p = record p { organization_name = old.organization_name }

abbrev pub consumed_trial : Option AccountDoc → Subscription → ℕ → Option ℕ
consumed_trial old s now =
    if ltb 0 s.trial_period_days && str_eq s.status "active"
    then some now
    else elim old [ none ↦ none | some a ↦ a.trial_consumed_at ]

-- `safeDocumentId`, a SHA-256 digest
module _ (digest : String → String) where
  abbrev pub event_record : String → Tenant → WebhookEvent → ℕ → ℕ → Bool → EventRecord
  event_record id t e now at applied = record {
    webhook_id = id;
    event_type = e.type';
    subscription_id = e.subscription.subscription_id;
    organization_id = t.organization_id;
    received_at = now;
    event_at = at;
    applied = applied;
  }

  abbrev pub recorded : String → EventRecord → BillingStore → BillingStore
  recorded id doc b = record b { webhook_events = set_doc b.webhook_events (digest id) (some doc) }

  abbrev pub project : Tenant → WebhookEvent → ℕ → Projection → BillingStore → BillingStore
  project t e now p b =
      let s = e.subscription in
      let o = t.organization_id in
      record b {
        saas_subscriptions = set_doc b.saas_subscriptions o (some p);
        tenant_subscriptions =
            set_doc b.tenant_subscriptions o
              (some (tenant_projection (b.tenant_subscriptions o) p));
        provider_subscriptions =
            set_doc b.provider_subscriptions (digest s.subscription_id) (record {
              organization_id = some o;
              plan_id = some (plan_name t.plan);
              billing_cycle = some (cycle_name t.cycle);
              provider_product_id = some s.product_id;
            });
        billing_accounts = set_doc b.billing_accounts o (
            some (record {
              organization_id = o;
              provider_customer_id = s.customer_id;
              trial_consumed_at = consumed_trial (b.billing_accounts o) s now;
              updated_at = now;
            }));
      }

  -- The transaction: whether the event was applied, and the store.
  abbrev pub apply_new :
      Bool → String → Tenant → WebhookEvent → ℕ → Projection → BillingStore → Bool × BillingStore
  apply_new stale id t e now p b =
      let at = get_or e.timestamp now in
      let kept = recorded id (event_record id t e now at (not stale)) b in
      if stale then (false, kept) else (true, project t e now p kept)

  unfoldable pub apply_event :
      String → Tenant → WebhookEvent → ℕ → Projection → BillingStore → Bool × BillingStore
  apply_event id t e now p b =
      let stale =
        is_stale (event_at_of (b.saas_subscriptions t.organization_id)) (get_or e.timestamp now) in
      if is_some (b.webhook_events (digest id)) then (false, b) else apply_new stale id t e now p b
