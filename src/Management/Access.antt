-- ===== src/Management/Access.antt =====
-- Who may call: `requireAuthentication` and `requireOrganizationRole` of cloud/functions/src/authz.ts,
-- with `requireActiveSubscription` and the reads of `assertCreationWithinLimit` of
-- cloud/functions/src/billing/entitlements.ts.
pub mod Laws
use attendence_system.Prelude.{
  ℕ, ◌/◌, ◌≡◌, refl, ap, Bool, true, false, not, ◌&&◌, ◌||◌, List, [], ◌∷◌, Option, none, some,
  String, is_some, if◌then◌else◌,
}
use attendence_system.Prelude.Result.{
  Result, ok, err, ◌>>=◌, ◌>>◌, throw_if, or_throw, ok-injective,
}
use attendence_system.Prelude.Text.{str_eq, includes}
use attendence_system.Attendance.Types.{whole}
use attendence_system.Billing.Entitlements.{
  AccessStatus, active, restricted, SubscriptionDoc, LimitsDoc, LimitValue, number, null, invalid,
  SubscriptionEntitlement, HttpsError, Resource, has_ended, entitlement_from_data, assert_active,
  assert_creation_within_limit,
}
use attendence_system.Documents.{
  Value, text, object, Fields, get, as_text, as_timestamp, Document, Condition, Place, field_of,
  data_of, Database,
}
use attendence_system.Documents
use attendence_system.Recalculation.Fields.{RecalculationError}

-- The codes of `HttpsError`, with the message where one code has several; and what is thrown below.
pub data CallError : Type 0 where
  unauthenticated permission_denied : CallError
  invalid_argument not_found already_exists failed_precondition : String → CallError
  subscription : HttpsError → CallError
  type_error : CallError
  internal_error : String → CallError
  document_exists : Place → CallError
  recalculation_failed : RecalculationError → CallError

pub record AuthContext : Type 0 where
  pub uid : String
  -- `auth.token.platformAdmin === true`
  pub platform_admin : Bool

pub data Granted : Type 0 where
  as_platform_admin : Granted
  as_member : String → Granted

unfoldable pub require_authentication : Option AuthContext → Result CallError AuthContext
require_authentication auth = or_throw auth unauthenticated

abbrev pub access_of : Value → Option AccessStatus
access_of (text s) =
    if str_eq s "active"
    then some active
    else if str_eq s "restricted"
    then some restricted
    else none
access_of _ = none

-- `validLimit`
abbrev limit_value : Value → LimitValue
limit_value (Documents.number (whole n)) = number n
limit_value Documents.null = null
limit_value _ = invalid

abbrev limits_of : Fields → LimitsDoc
limits_of d = record {
  employees = limit_value (get d "employees");
  devices = limit_value (get d "devices");
  branches = limit_value (get d "branches");
  admin_users = limit_value (get d "adminUsers");
  history_years = limit_value (get d "historyYears");
}

-- `data.limits`: reading a field of null throws, and of another value gives undefined.
abbrev limits_doc : Value → Result CallError (Option LimitsDoc)
limits_doc Documents.missing = ok none
limits_doc Documents.null = err type_error
limits_doc (object d) = ok (some (limits_of d))
limits_doc _ = ok (some (limits_of Fields.no_fields))

abbrev pub millis : Option ℕ → Option ℕ
millis none = none
millis (some t) = some (t / 1_000_000)

-- The document as `entitlementFromData` reads it: the limits only where the status is valid and the
-- subscription has not ended.
abbrev pub subscription_doc : ℕ → Option Fields → Result CallError (Option SubscriptionDoc)
subscription_doc now none = ok none
subscription_doc now (some d) =
    let access = access_of (get d "accessStatus") in
    let ends_at = millis (as_timestamp (get d "endsAt")) in
    let unread = not (is_some access) || has_ended now ends_at in
    (if unread then ok none else limits_doc (get d "limits")) >>= λ limits.
    ok (some (record { access_status = access; ends_at = ends_at; limits = limits }))

abbrev pub calling {ℓ} : {A : Type ℓ} → Result HttpsError A → Result CallError A
calling (ok a) = ok a
calling (err e) = err (subscription e)

module _ {S : Type 0} (db : Database S) (now : ℕ) where
  abbrev pub in_collection : String → String → String → Place
  in_collection organization collection name = record {
    organization = organization;
    collection = collection;
    name = name;
  }

  abbrev pub exists : S → Place → Bool
  exists s p = elim (db.document s p) [ none ↦ false | some d ↦ true ]

  unfoldable pub require_active_subscription : S → String → Result CallError SubscriptionEntitlement
  require_active_subscription s organization =
      subscription_doc (now / 1_000_000)
        (data_of (db.document s (in_collection organization "subscription" "current")))
      >>= λ doc. calling (assert_active (entitlement_from_data (now / 1_000_000) doc))

  unfoldable pub check_creation_limit : S → String → Resource → ℕ → Result CallError (Unit {0})
  check_creation_limit s organization resource size =
      subscription_doc (now / 1_000_000)
        (data_of (db.document s (in_collection organization "subscription" "current")))
      >>= λ doc. calling (assert_creation_within_limit (now / 1_000_000) doc resource size)

  abbrev pub role_of : S → AuthContext → String → Option String
  role_of s auth organization =
      as_text (field_of (db.document s (in_collection organization "members" auth.uid)) "role")

  abbrev pub granted : S → String → List String → Option String → Result CallError Granted
  granted s organization allowed none = err permission_denied
  granted s organization allowed (some role) =
      throw_if (not (includes allowed role)) permission_denied
      >> (require_active_subscription s organization >>= λ e. ok (as_member role))

  unfoldable pub require_organization_role :
      S → AuthContext → String → List String → Result CallError Granted
  unfolding require_active_subscription
  require_organization_role s auth organization allowed =
      if auth.platform_admin
      then ok as_platform_admin
      else granted s organization allowed (role_of s auth organization)

  -- `transaction.create(…)`, which fails where there is a document
  abbrev pub create : Place → Fields → S → S → Result CallError S
  create p d s w = throw_if (exists s p) (document_exists p) >> ok (db.write p d w)

  -- The guard of the functions that only owners and HR administrators may call.
  abbrev pub require_manager : S → AuthContext → String → Result CallError Granted
  require_manager s auth organization =
      require_organization_role s auth organization ("organizationOwner" ∷ "hrAdmin" ∷ [])

-- A transaction writes as a whole or not at all: what throws leaves the store.
abbrev pub committing {ℓ} : {S A : Type ℓ} → S → Result CallError (A × S) → Result CallError A × S
committing s (ok (a, s')) = (ok a, s')
committing s (err e) = (err e, s)

pub committing-ok {ℓ} :
    {S A : Type ℓ} (s : S) (r : Result CallError (A × S)) (a : A)
    → (committing s r).0 ≡ ok a
    → record { 0 as after : S; 1 : r ≡ ok (a, after); 2 : (committing s r).1 ≡ after }
committing-ok s (ok (b, s')) a h = (s', ap (λ x. ok (x, s')) (ok-injective h), refl)
committing-ok s (err e) a h = cc
