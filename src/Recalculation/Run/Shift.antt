-- ===== src/Recalculation/Run/Shift.antt =====
-- Which shift a recalculation uses.
use attendence_system.Prelude.{ℕ, ◌≡◌, sym, ap, Bool, not, arith, some, String}
use attendence_system.Prelude.Result.{ok, or_throw, throw_if-elim, >>=-elim, ok-injective}
use attendence_system.Prelude.Text.{append}
use attendence_system.Attendance.Types.{ShiftDefinition}
use attendence_system.Documents.{Document, Fields, text, get}
use attendence_system.Attendance.Clock.{Clock}
use attendence_system.Documents.{Database}
use attendence_system.Recalculation.Fields.{
  parse_shift, parse_policies, parse_terms, parse_minutes, parse_overtime, required_string,
  no_such_organization, no_such_employee, unknown_timezone,
}
use attendence_system.Recalculation.Context.{
  RecalculationContext, Choice, load_context, inference_place, in_range, employee_place,
  organization_path, choose_shift, active_assignment,
}

pub required_string-text :
    (d : Fields) (f path s : String) → required_string d f path ≡ ok s → get d f ≡ text s
unfolding required_string
required_string-text d f path s h = ground arith

pub parse_shift-id :
    (path : String) (doc : Document) (s : ShiftDefinition)
    → parse_shift path (some doc) ≡ ok s
    → s.id ≡ doc.id
unfolding parse_shift
parse_shift-id path doc s h = >>=-elim (parse_policies path doc.fields) _ h λ p _ h1.
    >>=-elim (parse_terms path doc.fields p.days) _ h1 λ t _ h2.
      >>=-elim (parse_minutes path doc.fields p.early_leave) _ h2 λ m _ h3.
        >>=-elim (parse_overtime (append path ".overtime") p.rounding p.overtime) _ h3
          λ o _ h4. sym (ap (λ x. x.id) (ok-injective h4))

module _ (k : Clock) (known_zone : String → Bool) {S : Type 0} (db : Database S) (now : ℕ) where
  -- The context, the choice of its shift and where it comes from.
  pub context-choice :
      (s : S) (organization employee date : String) (c : RecalculationContext)
      → load_context k known_zone db s organization employee date ≡ ok c
      → record {
        0 as choice : Choice;
        1 :
            choose_shift db s organization
              (active_assignment db s organization employee date)
              (db.document s (inference_place db organization employee date))
            ≡ ok choice;
        2 : c.shift ≡ choice.shift;
        3 : c.inference_locked ≡ choice.inference_locked;
        4 : c.organization ≡ organization;
      }
  unfolding load_context
  context-choice s organization employee date c h =
      >>=-elim (in_range (k.plain_date_from date)) _ h λ _ _ h1.
        >>=-elim (or_throw (db.organization s organization) (no_such_organization organization)) _
          h1
          λ found _ h2.
            >>=-elim
              (or_throw (db.document s (employee_place k known_zone db organization employee))
                (no_such_employee employee organization))
              _ h2
              λ person _ h3.
                >>=-elim
                  (required_string found.fields "timezone"
                    (organization_path k known_zone db organization))
                  _ h3
                  λ timezone _ h4.
                    throw_if-elim (not (known_zone timezone)) unknown_timezone _ h4 λ _ h5.
                      >>=-elim
                        (choose_shift db s organization
                          (active_assignment db s organization employee date)
                          (db.document s (inference_place db organization employee date)))
                        _ h5
                        λ choice e h6.
                          let built = sym (ok-injective h6) in
                          (
                            choice,
                            e,
                            ap (λ x. x.shift) built,
                            ap (λ x. x.inference_locked) built,
                            ap (λ x. x.organization) built,
                          )
