-- ===== src/Management/Inferences/Laws.antt =====
-- A guess is reviewed once.
use attendence_system.Prelude.{
  ℕ, ◌≡◌, refl, sym, ap, ◌∙◌, true, not, not-eq_false, Option, none, some, String,
}
use attendence_system.Prelude.Result.{ok, err, or_throw, >>=-elim, throw_if-elim, ok-injective}
use attendence_system.Documents.{
  text, get, as_text, field_of, is_text, Document, other_collection, Database,
}
use attendence_system.Management.Access.{failed_precondition, not_found, in_collection, create}
use attendence_system.Management.Access.Laws.{create-other}
use attendence_system.Management.Inferences.{
  Decision, confirm, reject, Resolution, state_of, inference_at, resolution_audit, shift_unusable,
  resolution_fields, resolve_document, resolve_found, resolve,
}

module _ {S : Type 0} (db : Database S) (now : ℕ) where
  resolve_document-state :
      (i : Resolution) (uid audit : String) (s : S) (doc : Document) (r : (String × String) × S)
      → resolve_document db now i uid audit s doc ≡ ok r
      → (is_text (get doc.fields "state") "review_required" ≡ true)
        × (field_of (db.document r.1 (inference_at db now i)) "state" ≡ text (state_of i.decision))
  unfolding resolve_document resolution_fields
  resolve_document-state i uid audit s doc r h =
      let incomplete = failed_precondition "Shift suggestion data is incomplete" in
      let place = inference_at db now i in
      let audits = in_collection db now i.organization_id "shiftInferenceAudits" audit in
      let w0 = db.merge place (resolution_fields db now i uid) s in
      throw_if-elim (not (is_text (get doc.fields "state") "review_required"))
        (failed_precondition "This shift suggestion is no longer waiting for review") _ h
        λ waiting h1.
          >>=-elim (or_throw (as_text (get doc.fields "employeeId")) incomplete) _ h1
            λ employee _ h2.
              >>=-elim (or_throw (as_text (get doc.fields "date")) incomplete) _ h2 λ date _ h3.
                throw_if-elim (shift_unusable db now i s i.decision i.shift_id)
                  (not_found "The selected shift is not active") _ h3
                  λ _ h4.
                    let record' =
                      resolution_audit db now i uid employee date
                        (get doc.fields "suggestedShiftId") in
                    >>=-elim (create db now audits record' s w0) _ h4 λ w written last. (
                      not-eq_false _ waiting,
                      ap (λ x. field_of (db.document x.1 place) "state") (sym (ok-injective last))
                          ∙ ap (λ o. field_of o "state")
                              (create-other db now audits place record' s w0 w written
                                (other_collection audits place refl))
                          ∙ db.merge_scalar s place (resolution_fields db now i uid) "state" _ refl
                              refl,
                    )

  resolve_found-settled :
      (i : Resolution) (uid audit : String) (s : S) (o : Option Document) (d : Decision)
      → field_of o "state" ≡ text (state_of d)
      → resolve_found db now i uid audit s o
        ≡ err (failed_precondition "This shift suggestion is no longer waiting for review")
  unfolding resolve_document
  resolve_found-settled i uid audit s none d h = refl
  resolve_found-settled i uid audit s (some doc) confirm h = rw (h) refl
  resolve_found-settled i uid audit s (some doc) reject h = rw (h) refl

  resolve_found-state :
      (i : Resolution) (uid audit : String) (s : S) (o : Option Document)
      (r : (String × String) × S)
      → resolve_found db now i uid audit s o ≡ ok r
      → field_of (db.document r.1 (inference_at db now i)) "state" ≡ text (state_of i.decision)
  resolve_found-state i uid audit s none r h = cc
  resolve_found-state i uid audit s (some doc) r h =
      (resolve_document-state i uid audit s doc r h).1

  -- A guess that was resolved, by a confirmation or a rejection, has the state of that decision, and
  -- no later resolution of it, by anyone, gets through.
  pub resolve-once :
      (i j : Resolution) (uid uid' audit audit' : String) (s : S) (r : (String × String) × S)
      → resolve db now i uid audit s ≡ ok r
      → inference_at db now j ≡ inference_at db now i
      → (field_of (db.document r.1 (inference_at db now i)) "state" ≡ text (state_of i.decision))
        × (resolve db now j uid' audit' r.1
            ≡ err (failed_precondition "This shift suggestion is no longer waiting for review"))
  unfolding resolve
  resolve-once i j uid uid' audit audit' s r h same =
      let settled = resolve_found-state i uid audit s (db.document s (inference_at db now i)) r h in
      (
        settled,
        resolve_found-settled j uid' audit' r.1 (db.document r.1 (inference_at db now j)) i.decision
            (ap (λ p. field_of (db.document r.1 p) "state") same ∙ settled),
      )
