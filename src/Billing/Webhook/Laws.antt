-- ===== src/Billing/Webhook/Laws.antt =====
-- What a webhook event leaves.
use mathlib.Core.Path.{subst}
use attendence_system.Prelude.{
  ℕ, ◌≤◌, ◌≡◌, refl, ap, arith, Bool, true, false, Option, none, some, String, is_some, get_or,
  Bool-cases, inl, inr,
}
use attendence_system.Prelude.Text.{str_eq, str_eq_refl, str_eq_sound}
use attendence_system.Billing.Catalog.{SaasPlan}
use attendence_system.Billing.Webhook.{
  Tenant, WebhookEvent, Projection, BillingStore, set_doc, event_at_of, is_stale, apply_new,
  apply_event, projection,
}

set_doc-same {ℓ} : {A : Type ℓ} (f : String → A) (n : String) (v : A) → set_doc f n v n ≡ v
set_doc-same f n v = rw (str_eq_refl n) refl

module _ (digest : String → String) (id : String) (t : Tenant) (e : WebhookEvent) (now : ℕ)
    (p : Projection) (b : BillingStore) where
  apply_new-recorded :
      (stale : Bool)
      → is_some ((apply_new digest stale id t e now p b).1.webhook_events (digest id)) ≡ true
  apply_new-recorded true = rw (str_eq_refl (digest id)) refl
  apply_new-recorded false = rw (str_eq_refl (digest id)) refl

  -- An event that arrives again, at whatever time, is not applied and changes nothing.
  pub apply_event-again :
      (later : ℕ) (q : Projection)
      → apply_event digest id t e later q (apply_event digest id t e now p b).1
        ≡ (false, (apply_event digest id t e now p b).1)
  unfolding apply_event
  apply_event-again later q = elim (Bool-cases (is_some (b.webhook_events (digest id)))) [
    | inl a ↦ rw (a) (rw (a) refl)
    | inr a ↦ rw (a) (rw (apply_new-recorded _) refl)
  ]

later_at : (o : Option ℕ) (n at : ℕ) → o ≡ some n → is_stale o at ≡ false → n ≤ at
later_at none n at h k = cc
later_at (some m) n at h k = let e = ap (λ x. get_or x n) h in ground arith

-- The date of the latest event that an organization's subscription holds never goes back, whichever
-- organization an event is for.
pub apply_event-event_at :
    (digest : String → String) (id : String) (t : Tenant) (name : Option String) (plan : SaasPlan)
    (e : WebhookEvent) (now : ℕ) (b : BillingStore) (o : String) (n : ℕ)
    → event_at_of (b.saas_subscriptions o) ≡ some n
    → (m : ℕ) × (event_at_of
          ((apply_event digest id t e now (projection t name plan e now) b).1.saas_subscriptions o)
        ≡ some m)
      × (n ≤ m)
unfolding apply_event projection
apply_event-event_at digest id t name plan e now b o n h =
    elim (Bool-cases (is_some (b.webhook_events (digest id)))) [
      | inl a ↦ (n, rw (a) h, omega arith)
      | inr a ↦
          elim (Bool-cases (
            is_stale (event_at_of (b.saas_subscriptions t.organization_id))
              (get_or e.timestamp now))) [
                | inl c ↦ (n, rw (a, c) h, omega arith)
                | inr c ↦ elim (Bool-cases (str_eq o t.organization_id)) [
                  | inr d ↦ (n, rw (a, c, d) h, omega arith)
                  | inl d ↦
                      let g =
                        subst (λ o. event_at_of (b.saas_subscriptions o) ≡ some n)
                          (str_eq_sound _ _ d) h in
                      (get_or e.timestamp now, rw (a, c, d) refl, later_at _ n _ g c)
                ]
              ]
    ]
