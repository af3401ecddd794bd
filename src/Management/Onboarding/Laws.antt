-- ===== src/Management/Onboarding/Laws.antt =====
-- An organization is made once, and a user makes one.
use attendence_system.Prelude.{
  ◌≡◌, ◌⊎◌, refl, sym, ap, ◌∙◌, ℕ, true, false, inl, inr, Option, none, some, String, is_some,
}
use attendence_system.Prelude.Result.{ok, >>=-elim, throw_if-elim, throw_if-ok, ok-injective}
use attendence_system.Prelude.Text.{is_empty}
use attendence_system.Documents.{Fields, Value, text, Document, data_of, Place, field_of, Database}
use attendence_system.Recalculation.Fields.{nonempty_text}
use attendence_system.Management.Access.{
  failed_precondition, document_exists, exists, create, committing-ok,
}
use attendence_system.Management.Onboarding.{
  BootstrapOrganization, BootstrapResult, Claims, Roots, organization_fields, user_fields,
  user_place, check_bootstrap, write_organization, bootstrap_organization,
}

is_some-data : (o : Option Document) (f : Fields) → data_of o ≡ some f → is_some o ≡ true
is_some-data none f h = cc
is_some-data (some d) f h = refl

is_some-nonempty_text :
    (v : Value) (t : String) → v ≡ text t → is_empty t ≡ false → is_some (nonempty_text v) ≡ true
is_some-nonempty_text v t h e = rw (h, e) refl

module _ {S : Type 0} (db : Database S) (roots : Roots db) (trim : String → String) where
  create-organization :
      (now : ℕ) (p : Place) (d : Fields) (s w w' : S) (o : String)
      → create db now p d s w ≡ ok w'
      → db.organization w' o ≡ db.organization w o
  create-organization now p d s w w' o h =
      throw_if-elim (exists db now s p) (document_exists p) (ok (db.write p d w)) h λ _ e.
        ap (λ x. db.organization x o) (sym (ok-injective e)) ∙ roots.organization_write w o p d

  write_organization-made :
      (now : ℕ) (i : BootstrapOrganization) (c : Claims) (s : S) (r : BootstrapResult × S)
      → write_organization db roots now trim i c s ≡ ok r
      → (is_some (db.organization r.1 i.organization_id) ≡ true)
        × (field_of (db.document r.1 (user_place db roots now trim c.uid)) "defaultOrganizationId"
            ≡ text i.organization_id)
  unfolding write_organization
  write_organization-made now i c s r h =
      let o = i.organization_id in
      let user = user_place db roots now trim c.uid in
      let made = roots.create_organization o (organization_fields i now c.uid) s in
      let fields = user_fields trim i now c (db.document s user) in
      >>=-elim (check_bootstrap db roots now trim i c.uid s) _ h λ _ _ h1.
        >>=-elim (create db now _ _ s made) _ h1 λ w0 c0 h2.
          >>=-elim (create db now _ _ s w0) _ h2 λ w1 c1 h3.
            >>=-elim (create db now _ _ s w1) _ h3 λ w2 c2 h4.
              >>=-elim (create db now _ _ s w2) _ h4 λ w3 c3 last. (
                is_some-data _ (organization_fields i now c.uid) (
                    ap (λ x. data_of (db.organization x.1 o)) (sym (ok-injective last))
                    ∙ ap data_of (
                        roots.organization_merge w3 o user fields
                        ∙ create-organization now _ _ s w2 w3 o c3
                        ∙ create-organization now _ _ s w1 w2 o c2
                        ∙ create-organization now _ _ s w0 w1 o c1
                        ∙ create-organization now _ _ s made w0 o c0)
                    ∙ roots.organization_created s o (organization_fields i now c.uid)),
                ap (λ x. field_of (db.document x.1 user) "defaultOrganizationId")
                      (sym (ok-injective last))
                    ∙ db.merge_scalar w3 user fields "defaultOrganizationId" _ refl refl,
              )

  -- The tests that a transaction went through.
  check_bootstrap-free :
      (now : ℕ) (i : BootstrapOrganization) (uid : String) (s : S) (u : Unit {0})
      → check_bootstrap db roots now trim i uid s ≡ ok u
      → (is_some (
            nonempty_text
              (field_of (db.document s (user_place db roots now trim uid)) "defaultOrganizationId"))
          ≡ false)
        × (is_some (db.organization s i.organization_id) ≡ false)
  unfolding check_bootstrap
  check_bootstrap-free now i uid s u h =
      throw_if-elim _ (failed_precondition "This user already belongs to an organization") _ h
        λ free h1. (free, throw_if-ok _ _ h1)

  -- After an organization was made, neither can anyone make one with its identifier nor can the same
  -- user make another, where the identifier is not empty.
  pub bootstrap_organization-once :
      (now later : ℕ) (i j : BootstrapOrganization) (c c' : Claims) (s : S)
      (answer other : BootstrapResult)
      → (bootstrap_organization db roots now trim i c s).0 ≡ ok answer
      → is_empty i.organization_id ≡ false
      → (j.organization_id ≡ i.organization_id) ⊎ (c'.uid ≡ c.uid)
      → ¬ (
          (bootstrap_organization db roots later trim j c'
            (bootstrap_organization db roots now trim i c s).1).0
          ≡ ok other)
  unfolding bootstrap_organization write_organization
  bootstrap_organization-once now later i j c c' s answer other h named same again =
      let w = (bootstrap_organization db roots now trim i c s).1 in
      let (after, run, kept) = committing-ok s _ answer h in
      let (after', run', _) = committing-ok w _ other again in
      let (there, belongs) = write_organization-made now i c s (answer, after) run in
      >>=-elim (check_bootstrap db roots later trim j c'.uid w) _ run' λ u checked _.
        let (free, fresh) = check_bootstrap-free later j c'.uid w u checked in
        elim same [
          | inl o ↦
              let clash =
                sym (
                  ap (λ x. is_some (db.organization x j.organization_id)) kept
                  ∙ ap (λ y. is_some (db.organization after y)) o
                  ∙ there)
                ∙ fresh in
              cc
          | inr uid ↦
              let here =
                ap
                  (λ x.
                    field_of (db.document x (user_place db roots later trim c'.uid))
                      "defaultOrganizationId")
                  kept
                ∙ ap
                    (λ y.
                      field_of (db.document after (user_place db roots later trim y))
                        "defaultOrganizationId")
                    uid
                ∙ belongs in
              let clash = sym (is_some-nonempty_text _ i.organization_id here named) ∙ free in cc
        ]
