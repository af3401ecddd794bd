-- ===== src/Management/Access/Laws.antt =====
-- Who may call.
use attendence_system.Prelude.{
  ◌/◌, ◌<◌, ◌≡◌, refl, sym, ap, ◌∙◌, ◌⊎◌, inl, inr, true, false, not, List, Option, none, some,
  String, ℕ, if-elim, not-eq_false, Bool-cases, arith, leb, get_or,
}
use attendence_system.Prelude.Result.{Result, ok, err, ◌>>=◌, >>=-elim, throw_if-elim, ok-injective}
use attendence_system.Prelude.Text.{includes, str_eq, str_eq_sound}
use attendence_system.Billing.Entitlements.{
  active, SubscriptionDoc, SubscriptionEntitlement, HttpsError, has_ended, entitlement_from_data,
  assert_active, assert_active-ok, entitlement_from_data-Allows,
}
use attendence_system.Documents.{
  Value, missing, null, text, number, boolean, timestamp, array, object, Fields, get, as_text,
  as_timestamp, field_of, Place, same_place, Document, data_of, Database,
}
use attendence_system.Management.Access.{
  AuthContext, Granted, permission_denied, granted, role_of, create, exists, document_exists,
  require_active_subscription, require_organization_role, access_of, millis, subscription_doc,
  calling, in_collection,
}

as_text-some : (v : Value) (t : String) → as_text v ≡ some t → v ≡ text t
as_text-some (text s) t h = cc
as_text-some missing t h = cc
as_text-some null t h = cc
as_text-some (number n) t h = cc
as_text-some (boolean b) t h = cc
as_text-some (timestamp n) t h = cc
as_text-some (array vs) t h = cc
as_text-some (object f) t h = cc

access_of-active : (v : Value) → access_of v ≡ some active → v ≡ text "active"
access_of-active (text s) h = elim (Bool-cases (str_eq s "active")) [
  | inl e ↦ ap (λ x. text x) (str_eq_sound s "active" e)
  | inr e ↦ absurd (ground arith)
]
access_of-active missing h = cc
access_of-active null h = cc
access_of-active (number n) h = cc
access_of-active (boolean b) h = cc
access_of-active (timestamp n) h = cc
access_of-active (array vs) h = cc
access_of-active (object f) h = cc

-- The status and the end that are read are those of the document.
subscription_doc-some :
    (ms : ℕ) (d : Fields) (o : Option SubscriptionDoc)
    → subscription_doc ms (some d) ≡ ok o
    → (doc : SubscriptionDoc) × (o ≡ some doc)
      × (doc.access_status ≡ access_of (get d "accessStatus"))
      × (doc.ends_at ≡ millis (as_timestamp (get d "endsAt")))
subscription_doc-some ms d o h = >>=-elim _ _ h λ limits _ e. (
  record {
    access_status = access_of (get d "accessStatus");
    ends_at = millis (as_timestamp (get d "endsAt"));
    limits = limits;
  },
  sym (ok-injective e),
  refl,
  refl,
)

some-injective :
    {a b : SubscriptionDoc} → ◌≡◌ {A = Option SubscriptionDoc} (some a) (some b) → a ≡ b
some-injective {a} h = ap (λ o. get_or o a) h

calling-ok :
    (r : Result HttpsError SubscriptionEntitlement) (e : SubscriptionEntitlement)
    → calling r ≡ ok e
    → r ≡ ok e
calling-ok (ok a) e h = ap ok (ok-injective h)
calling-ok (err x) e h = cc

not_over :
    (now : ℕ) (v : Value) (t : ℕ)
    → has_ended (now / 1_000_000) (millis (as_timestamp v)) ≡ false
    → v ≡ timestamp t
    → now / 1_000_000 < t / 1_000_000
not_over now v t h e =
    let running : leb (t / 1_000_000) (now / 1_000_000) ≡ false =
      ap (λ x. has_ended (now / 1_000_000) (millis (as_timestamp x))) (sym e) ∙ h in
    ground arith

module _ {S : Type 0} (db : Database S) (now : ℕ) where
  -- The organization's subscription document says that access is active, and has not run out.
  pub record IsSubscribed (s : S) (organization : String) : Type 0 where
    pub fields : Fields
    pub is_stored :
        data_of (
          db.document s
            (record { organization = organization; collection = "subscription"; name = "current" }))
        ≡ some fields
    pub is_active : get fields "accessStatus" ≡ text "active"
    pub is_running : (t : ℕ) → get fields "endsAt" ≡ timestamp t → now / 1_000_000 < t / 1_000_000

  -- A member document with an allowed role, in an organization with a running subscription.
  pub record IsMember (s : S) (auth : AuthContext) (organization : String) (allowed : List String)
      : Type 0 where
    pub role : String
    pub has_role :
        field_of
          (db.document s
            (record { organization = organization; collection = "members"; name = auth.uid }))
          "role"
        ≡ text role
    pub is_allowed : includes allowed role ≡ true
    pub subscribed : IsSubscribed s organization

  data-IsSubscribed :
      (s : S) (organization : String) (data' : Option Fields) (e : SubscriptionEntitlement)
      → data_of (db.document s (in_collection db now organization "subscription" "current")) ≡ data'
      → (subscription_doc (now / 1_000_000) data' >>= λ doc.
          calling (assert_active (entitlement_from_data (now / 1_000_000) doc)))
        ≡ ok e
      → IsSubscribed s organization
  unfolding assert_active entitlement_from_data
  data-IsSubscribed s organization none e stored h = cc
  data-IsSubscribed s organization (some d) e stored h =
      let ms = now / 1_000_000 in
      >>=-elim (subscription_doc ms (some d)) _ h λ o read h1.
        let (granted_e, active_e) =
          assert_active-ok (entitlement_from_data ms o) e (calling-ok _ e h1) in
        let (doc, is_doc, (status, running, _)) =
          entitlement_from_data-Allows ms o e granted_e active_e in
        let (doc', is_doc', access, ends) = subscription_doc-some ms d o read in
        let same : doc' ≡ doc = some-injective (sym is_doc' ∙ is_doc) in
        record {
          fields = d;
          is_stored = stored;
          is_active = access_of-active _ (sym access ∙ ap (λ x. x.access_status) same ∙ status);
          is_running = λ t at.
              not_over now _ t (ap (has_ended ms) (sym ends ∙ ap (λ x. x.ends_at) same) ∙ running)
                at;
        }

  require_active_subscription-IsSubscribed :
      (s : S) (organization : String) (e : SubscriptionEntitlement)
      → require_active_subscription db now s organization ≡ ok e
      → IsSubscribed s organization
  unfolding require_active_subscription
  require_active_subscription-IsSubscribed s organization e h =
      data-IsSubscribed s organization _ e refl h

  granted-IsMember :
      (s : S) (auth : AuthContext) (organization : String) (allowed : List String)
      (role : Option String) (g : Granted)
      → role_of db now s auth organization ≡ role
      → granted db now s organization allowed role ≡ ok g
      → IsMember s auth organization allowed
  granted-IsMember s auth organization allowed none g e h = cc
  granted-IsMember s auth organization allowed (some role) g e h =
      throw_if-elim (not (includes allowed role)) permission_denied _ h λ refused h1.
        >>=-elim (require_active_subscription db now s organization) _ h1 λ entitlement active' _.
          record {
            role = role;
            has_role = as_text-some _ role e;
            is_allowed = not-eq_false (includes allowed role) refused;
            subscribed =
                require_active_subscription-IsSubscribed s organization entitlement active';
          }

  -- Who passes the role check is a platform administrator, or has a member document in the organization
  -- with one of the allowed roles, and the organization's current subscription document says that
  -- access is active and has no end that has come, to the millisecond.
  pub require_organization_role-IsMember :
      (s : S) (auth : AuthContext) (organization : String) (allowed : List String) (g : Granted)
      → require_organization_role db now s auth organization allowed ≡ ok g
      → (auth.platform_admin ≡ true) ⊎ IsMember s auth organization allowed
  unfolding require_organization_role
  require_organization_role-IsMember s auth organization allowed g h =
      if-elim auth.platform_admin _ _ h (λ e _. inl e)
        λ _ e. inr (granted-IsMember s auth organization allowed _ g refl e)

  pub create-other :
      (p q : Place) (d : Fields) (s w w' : S)
      → create db now p d s w ≡ ok w'
      → same_place p q ≡ false
      → db.document w' q ≡ db.document w q
  create-other p q d s w w' h other =
      throw_if-elim (exists db now s p) (document_exists p) (ok (db.write p d w)) h
        λ _ e. ap (λ x. db.document x q) (sym (ok-injective e)) ∙ db.write_other w p q d other

  -- The document that was created.
  pub create-data :
      (p : Place) (d : Fields) (s w w' : S)
      → create db now p d s w ≡ ok w'
      → data_of (db.document w' p) ≡ some d
  create-data p d s w w' h =
      throw_if-elim (exists db now s p) (document_exists p) (ok (db.write p d w)) h
        λ _ e. ap (λ x. data_of (db.document x p)) (sym (ok-injective e)) ∙ db.document_write w p d

  pub exists-data :
      (s : S) (p : Place) (o : Option Document) (f : Fields)
      → db.document s p ≡ o
      → data_of o ≡ some f
      → exists db now s p ≡ true
  exists-data s p none f e h = cc
  exists-data s p (some d) f e h = rw (exists, e) refl
