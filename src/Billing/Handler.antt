-- ===== src/Billing/Handler.antt =====
-- The handler `dodoPaymentsWebhook` of cloud/functions/src/billing/webhook.ts.
use mathlib.Core.Path.{subst}
use attendence_system.Prelude.{
  ℕ, ◌≡◌, refl, ap, Bool, true, false, not, ◌&&◌, ◌||◌, List, [], ◌∷◌, Option, some, String, ◌==◌,
  ◌⊎◌, inl, inr,
}
use attendence_system.Prelude.Result.{
  Result, ok, err, ◌>>=◌, ◌>>◌, throw_if, or_throw, Result-cases, >>=-elim, throw_if-elim,
  or_throw-eq_ok, ok-injective,
}
use attendence_system.Prelude.Text.{codes, is_lower, is_digit, head_then}
use attendence_system.Billing.Catalog.{SaasPlan, plan_by_id}
use attendence_system.Billing.Webhook.{
  Tenant, WebhookEvent, ProductDoc, BillingStore, resolve_tenant, projection, apply_event,
}

-- Error answers, with their status and text
pub record Refusal : Type 0 where
  pub status : ℕ
  pub error : String

-- An event of another kind is answered with 200 and not handled.
pub data Answer : Type 0 where
  refused : Refusal → Answer
  unhandled : Answer
  processed : Bool → Answer

pub record WebhookRequest : Type 0 where
  pub is_post : Bool
  pub webhook_id : Option String
  pub webhook_signature : Option String
  pub webhook_timestamp : Option String
  pub raw_body : List ℕ

-- What the handler reads besides the billing store, and the provider's `webhooks.unwrap`, none
-- where it throws. An organization that exists has a name or not.
pub record Surroundings : Type 0 where
  pub unwrap : List ℕ → String → String → String → Option WebhookEvent
  pub product_lookup : String → ProductDoc
  pub organizations : String → Option (Option String)
  pub digest : String → String

abbrev starts_with : List ℕ → List ℕ → Bool
starts_with [] s = true
starts_with (c ∷ p) [] = false
starts_with (c ∷ p) (d ∷ s) = c == d && starts_with p s

-- /^[a-z0-9][a-z0-9-]{1,62}$/
abbrev pub is_organization_id : String → Bool
is_organization_id s =
    head_then (λ c. is_lower c || is_digit c) (λ c. is_lower c || is_digit c || c == b'-') 1 62
      (codes s)

abbrev refusal : ℕ → String → Answer
refusal status error = refused (record { status = status; error = error })

pub record Admitted : Type 0 where
  pub id : String
  pub event : WebhookEvent
  pub tenant : Tenant
  pub name : Option String
  pub plan : SaasPlan

abbrev pub lookup_plan : Tenant → Result Answer SaasPlan
lookup_plan t = elim (plan_by_id t.plan) [ ok p ↦ ok p | err e ↦ err (refusal 500 "internal") ]

module _ (env : Surroundings) where
  abbrev pub tenant_for : WebhookEvent → BillingStore → Option Tenant
  tenant_for e b =
      resolve_tenant e.subscription
        (b.provider_subscriptions (env.digest e.subscription.subscription_id))
        (env.product_lookup (env.digest e.subscription.product_id))

  -- Everything up to the projection; nothing is written.
  unfoldable pub admit : WebhookRequest → BillingStore → Result Answer Admitted
  admit r b = do
    throw_if (not r.is_post) (refusal 405 "method_not_allowed")
    id ← or_throw r.webhook_id (refusal 400 "missing_webhook_headers")
    signature ← or_throw r.webhook_signature (refusal 400 "missing_webhook_headers")
    timestamp ← or_throw r.webhook_timestamp (refusal 400 "missing_webhook_headers")
    e ← or_throw (env.unwrap r.raw_body id signature timestamp) (refusal 400 "invalid_signature")
    throw_if (not (starts_with (codes "subscription.") (codes e.type'))) unhandled
    t ← or_throw (tenant_for e b) (refusal 422 "tenant_unresolved")
    throw_if (not (is_organization_id t.organization_id)) (refusal 422 "tenant_unresolved")
    name ← or_throw (env.organizations t.organization_id) (refusal 422 "organization_missing")
    plan ← lookup_plan t
    ok (record { id = id; event = e; tenant = t; name = name; plan = plan })

  abbrev pub process : ℕ → BillingStore → Result Answer Admitted → Answer × BillingStore
  process now b (err a) = (a, b)
  process now b (ok a) =
      let p = projection a.tenant a.name a.plan a.event now in
      let (applied, c) = apply_event env.digest a.id a.tenant a.event now p b in
      (processed applied, c)

  unfoldable pub handle : WebhookRequest → ℕ → BillingStore → Answer × BillingStore
  handle r now b = process now b (admit r b)

  -- An admitted request is a signed post, of an event for an organization that exists and that
  -- the subscription resolves to.
  abbrev pub IsAdmitted : WebhookRequest → BillingStore → Admitted → Type 0
  IsAdmitted r b a =
      (r.is_post ≡ true)
      × ((signature : String) × (timestamp : String) × (env.unwrap r.raw_body a.id signature
              timestamp
            ≡ some a.event))
      × (tenant_for a.event b ≡ some a.tenant)
      × (is_organization_id a.tenant.organization_id ≡ true)
      × (env.organizations a.tenant.organization_id ≡ some a.name)

  not-false : (b : Bool) → not b ≡ false → b ≡ true
  not-false true h = refl
  not-false false h = cc

  admit-IsAdmitted :
      (r : WebhookRequest) (b : BillingStore) (a : Admitted) → admit r b ≡ ok a → IsAdmitted r b a
  unfolding admit
  admit-IsAdmitted r b a h = throw_if-elim (not r.is_post) _ _ h λ post h1.
      >>=-elim (or_throw r.webhook_id _) _ h1 λ id e1 h2.
        >>=-elim (or_throw r.webhook_signature _) _ h2 λ signature e2 h3.
          >>=-elim (or_throw r.webhook_timestamp _) _ h3 λ timestamp e3 h4.
            >>=-elim (or_throw (env.unwrap r.raw_body id signature timestamp) _) _ h4 λ e e4 h5.
              throw_if-elim (not (starts_with (codes "subscription.") (codes e.type'))) _ _ h5
                λ kind h6. >>=-elim (or_throw (tenant_for e b) _) _ h6 λ t e5 h7.
                  throw_if-elim (not (is_organization_id t.organization_id)) _ _ h7 λ valid h8.
                    >>=-elim (or_throw (env.organizations t.organization_id) _) _ h8 λ name e6 h9.
                      >>=-elim (lookup_plan t) _ h9 λ plan e7 h10.
                        subst (IsAdmitted r b) (ok-injective h10) (
                          not-false _ post,
                          (signature, timestamp, or_throw-eq_ok _ _ e4),
                          or_throw-eq_ok _ _ e5,
                          not-false _ valid,
                          or_throw-eq_ok _ _ e6,
                        )

  -- Whatever the request, either the store stays as it was, or the request is admitted and is answered
  -- as processed.
  pub handle-IsAdmitted :
      (r : WebhookRequest) (now : ℕ) (b : BillingStore)
      → ((handle r now b).1 ≡ b)
        ⊎ ((a : Admitted) × (applied : Bool) × IsAdmitted r b a
            × ((handle r now b).0 ≡ processed applied))
  unfolding handle
  handle-IsAdmitted r now b = elim (Result-cases (admit r b)) [
    | inl (a, e) ↦ inr (a, _, admit-IsAdmitted r b a e, ap (λ m. (process now b m).0) e)
    | inr (f, e) ↦ inl (ap (λ m. (process now b m).1) e)
  ]
