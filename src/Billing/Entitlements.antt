-- ===== src/Billing/Entitlements.antt =====
-- What a subscription allows: cloud/functions/src/billing/entitlements.ts.
use attendence_system.Prelude.{
  ℕ, ◌≡◌, refl, sym, ap, ◌∙◌, get_or, Bool, true, false, Option, none, some, leb, if◌then◌else◌,
  if-elim, inl, inr, Option-cases,
}
use attendence_system.Prelude.Result.{Result, ok, err, ◌>>=◌, throw_if, >>=-elim, ok-injective}
use attendence_system.Billing.Catalog.{PlanLimits}

pub data AccessStatus : Type 0 where
  active restricted : AccessStatus

pub record SubscriptionEntitlement : Type 0 where
  pub access_status : AccessStatus
  pub limits : PlanLimits

-- A field of the document's `limits`: a natural number, null, or anything else.
pub data LimitValue : Type 0 where
  number : ℕ → LimitValue
  null invalid : LimitValue

pub record LimitsDoc : Type 0 where
  pub employees : LimitValue
  pub devices : LimitValue
  pub branches : LimitValue
  pub admin_users : LimitValue
  pub history_years : LimitValue

-- `access_status` is none where the field is neither "active" nor "restricted", `ends_at` where it is
-- no timestamp.
pub record SubscriptionDoc : Type 0 where
  pub access_status : Option AccessStatus
  pub ends_at : Option ℕ
  pub limits : Option LimitsDoc

-- The value if `validLimit` holds and, unless it may be null, it is not null.
abbrev pub limit_of : LimitValue → Option ℕ
limit_of (number n) = some n
limit_of null = none
limit_of invalid = none

abbrev pub nullable_limit_of : LimitValue → Option (Option ℕ)
nullable_limit_of (number n) = some (some n)
nullable_limit_of null = some none
nullable_limit_of invalid = none

abbrev pub has_ended : ℕ → Option ℕ → Bool
has_ended now none = false
has_ended now (some t) = leb t now

abbrev nothing_allowed : PlanLimits
nothing_allowed = record {
  employees = 0;
  devices = 0;
  branches = some 0;
  admin_users = 0;
  history_years = 0;
}

unfoldable pub limits_from : LimitsDoc → Option PlanLimits
limits_from d = elim (limit_of d.employees) [
  | none ↦ none
  | some employees ↦ elim (limit_of d.devices) [
    | none ↦ none
    | some devices ↦ elim (nullable_limit_of d.branches) [
      | none ↦ none
      | some branches ↦ elim (limit_of d.admin_users) [
        | none ↦ none
        | some admin_users ↦ elim (limit_of d.history_years) [
          | none ↦ none
          | some history_years ↦ some (record {
            employees = employees;
            devices = devices;
            branches = branches;
            admin_users = admin_users;
            history_years = history_years;
          })
        ]
      ]
    ]
  ]
]

abbrev pub with_limits : AccessStatus → Option PlanLimits → Option SubscriptionEntitlement
with_limits access none = none
with_limits access (some l) = some (record { access_status = access; limits = l })

abbrev pub from_limits : AccessStatus → Option LimitsDoc → Option SubscriptionEntitlement
from_limits access none = none
from_limits access (some d) = with_limits access (limits_from d)

abbrev pub entitlement_of :
    ℕ → SubscriptionDoc → Option AccessStatus → Option SubscriptionEntitlement
entitlement_of now doc none = none
entitlement_of now doc (some access) =
    if has_ended now doc.ends_at
    then some (record { access_status = restricted; limits = nothing_allowed })
    else from_limits access doc.limits

unfoldable pub entitlement_from_data : ℕ → Option SubscriptionDoc → Option SubscriptionEntitlement
entitlement_from_data now none = none
entitlement_from_data now (some doc) = entitlement_of now doc doc.access_status

-- The codes of `HttpsError`
pub data HttpsError : Type 0 where
  failed_precondition resource_exhausted : HttpsError

abbrev pub grant :
    AccessStatus → SubscriptionEntitlement → Result HttpsError SubscriptionEntitlement
grant active e = ok e
grant restricted e = err failed_precondition

unfoldable pub assert_active :
    Option SubscriptionEntitlement → Result HttpsError SubscriptionEntitlement
assert_active none = err failed_precondition
assert_active (some e) = grant e.access_status e

pub data Resource : Type 0 where
  employees devices branches : Resource

abbrev pub limit_for : PlanLimits → Resource → Option ℕ
limit_for l employees = some l.employees
limit_for l devices = some l.devices
limit_for l branches = l.branches

abbrev pub is_full : Option ℕ → ℕ → Bool
is_full none size = false
is_full (some limit) size = leb limit size

-- `size` is the number of documents that the query finds.
unfoldable pub assert_creation_within_limit :
    ℕ → Option SubscriptionDoc → Resource → ℕ → Result HttpsError (Unit {0})
assert_creation_within_limit now doc resource size =
    assert_active (entitlement_from_data now doc) >>= λ e.
    throw_if (is_full (limit_for e.limits resource) size) resource_exhausted

grant-ok :
    (s : AccessStatus) (a e : SubscriptionEntitlement) → grant s a ≡ ok e → (a ≡ e) × (s ≡ active)
grant-ok active a e h = (ok-injective h, refl)
grant-ok restricted a e h = cc

pub assert_active-ok :
    (o : Option SubscriptionEntitlement) (e : SubscriptionEntitlement)
    → assert_active o ≡ ok e
    → (o ≡ some e) × (e.access_status ≡ active)
unfolding assert_active
assert_active-ok none e h = cc
assert_active-ok (some a) e h =
    let (same, granted) = grant-ok a.access_status a e h in
    (ap some same, ap (λ (x : SubscriptionEntitlement). x.access_status) (sym same) ∙ granted)

from_limits-some :
    (access : AccessStatus) (o : Option LimitsDoc) (e : SubscriptionEntitlement)
    → from_limits access o ≡ some e
    → (d : LimitsDoc) × (o ≡ some d) × (limits_from d ≡ some e.limits) × (e.access_status ≡ access)
from_limits-some access none e h = cc
from_limits-some access (some d) e h = elim (Option-cases (limits_from d)) [
  | inl f ↦ absurd (none-some (ap (with_limits access) (sym f) ∙ h))
  | inr (l, f) ↦
      let same = get_some (ap (with_limits access) (sym f) ∙ h) in
      (
        d,
        refl,
        f ∙ ap (λ (x : SubscriptionEntitlement). some x.limits) same,
        ap (λ (x : SubscriptionEntitlement). x.access_status) (sym same),
      )
]
  where
    none-some : ◌≡◌ {A = Option SubscriptionEntitlement} none (some e) → ⊥
    none-some q = cc

    get_some :
        {a b : SubscriptionEntitlement}
        → ◌≡◌ {A = Option SubscriptionEntitlement} (some a) (some b)
        → a ≡ b
    get_some {a} q = ap (λ o. get_or o a) q

-- What a granted access shows of its document.
abbrev pub Allows : ℕ → SubscriptionDoc → PlanLimits → Type 0
Allows now doc l =
    (doc.access_status ≡ some active)
    × (has_ended now doc.ends_at ≡ false)
    × ((d : LimitsDoc) × (doc.limits ≡ some d) × (limits_from d ≡ some l))

entitlement_of-Allows :
    (now : ℕ) (doc : SubscriptionDoc) (o : Option AccessStatus) (e : SubscriptionEntitlement)
    → doc.access_status ≡ o
    → entitlement_of now doc o ≡ some e
    → e.access_status ≡ active
    → Allows now doc e.limits
entitlement_of-Allows now doc none e s h a = cc
entitlement_of-Allows now doc (some access) e s h a =
    if-elim (has_ended now doc.ends_at)
      (some (record { access_status = restricted; limits = nothing_allowed }))
      (from_limits access doc.limits) h
      (λ b f.
        let r : restricted ≡ active =
          ap (λ (o : Option SubscriptionEntitlement). (get_or o e).access_status) f ∙ a in
        cc)
      (λ b f.
        let (d, p, q, t) = from_limits-some access doc.limits e f in
        (s ∙ ap some (sym t ∙ a), b, (d, p, q)))

pub entitlement_from_data-Allows :
    (now : ℕ) (data' : Option SubscriptionDoc) (e : SubscriptionEntitlement)
    → entitlement_from_data now data' ≡ some e
    → e.access_status ≡ active
    → (doc : SubscriptionDoc) × (data' ≡ some doc) × Allows now doc e.limits
unfolding entitlement_from_data
entitlement_from_data-Allows now none e h a = cc
entitlement_from_data-Allows now (some doc) e h a =
    (doc, refl, entitlement_of-Allows now doc doc.access_status e refl h a)

throw_if-ok : (b : Bool) (x : HttpsError) → throw_if b x ≡ ok tt → b ≡ false
throw_if-ok true x h = cc
throw_if-ok false x h = refl

-- A creation that is let through has a subscription document that grants access, has not ended, and
-- has well-formed limits, under whose limit for the resource there is room for one more.
pub assert_creation_within_limit-Allows :
    (now : ℕ) (data' : Option SubscriptionDoc) (resource : Resource) (size : ℕ)
    → assert_creation_within_limit now data' resource size ≡ ok tt
    → (doc : SubscriptionDoc) × (l : PlanLimits) × (data' ≡ some doc)
      × Allows now doc l
      × (is_full (limit_for l resource) size ≡ false)
unfolding assert_creation_within_limit
assert_creation_within_limit-Allows now data' resource size h =
    >>=-elim (assert_active (entitlement_from_data now data')) _ h λ e f g.
      let (p, a) = assert_active-ok (entitlement_from_data now data') e f in
      let (doc, q, allowed) = entitlement_from_data-Allows now data' e p a in
      (doc, e.limits, q, allowed, throw_if-ok (is_full (limit_for e.limits resource) size) _ g)
