-- ===== src/Recalculation/Run/Source.antt =====
-- What decides the shift that a day is calculated with: an assignment, or a clear guess.
use mathlib.Core.Path.{subst}
use mathlib.Core.List.{Memᴰ}
use attendence_system.Prelude.{
  ℕ, ◌<◌, ◌≡◌, refl, sym, ap, ◌∙◌, ◌||◌, Bool, true, Option, none, some, String, length, if-elim,
  is_some,
}
use attendence_system.Prelude.Result.{Result, ok, err, >>=-elim, ok-injective}
use attendence_system.Attendance.Types.{ShiftDefinition, CalculationInput, CalculationResult}
use attendence_system.Attendance.Clock.{Clock}
use attendence_system.Attendance.Window.{EngineError}
use attendence_system.Attendance.Engine.{calculate_attendance, day_of, field_of}
use attendence_system.Attendance.Engine.Day.{run}
use attendence_system.Documents.{text, Fields, get, Document, Place, by_descending, Database}
use attendence_system.Recalculation.Fields.{RecalculationError, parse_shift, required_string}
use attendence_system.Recalculation.Context.{
  RecalculationContext, Choice, load_context, inference_place, choose_shift, assignments_of,
  is_active_on, shift_at, shift_path,
}
use attendence_system.Recalculation.Load.{load_punches, load_holiday, load_leave, load_adjustments}
use attendence_system.Recalculation.Written.{calculating, firestore_projection}
use attendence_system.Recalculation.Run.{
  Inferred, is_settled, day_place, input_of, infer_shift, calculate_day, write_day, after_guess,
  recalculate_attendance,
}
use attendence_system.Recalculation.Run.Covering.{
  assignment_place, Covers, find-Memᴰ, active_assignment-Covers, active_assignment-some,
}
use attendence_system.Recalculation.Run.Shift.{required_string-text, parse_shift-id, context-choice}

pub calculating-eq_ok {ℓ} :
    {A : Type ℓ} (r : Result EngineError A) (a : A) → calculating r ≡ ok a → r ≡ ok a
calculating-eq_ok (ok b) a h = cc
calculating-eq_ok (err e) a h = cc

calculate_attendance-shift_id :
    (k : Clock) (input : CalculationInput) (r : CalculationResult)
    → calculate_attendance k input ≡ ok r
    → r.shift_id ≡ field_of input.shift (λ s. s.id)
unfolding day_of
calculate_attendance-shift_id k input r h = ap (λ y. y.shift_id) (sym (run k input r h).built)

module _ (k : Clock) (known_zone : String → Bool) {S : Type 0} (db : Database S) (now : ℕ) where
  -- The result names the context's shift.
  calculate_day-shift :
      (i : Inferred S) (employee date : String) (x : CalculationResult) (doc : Fields)
      → calculate_day k known_zone db now i employee date ≡ ok (x, doc)
      → x.shift_id ≡ field_of i.context.shift (λ s. s.id)
  unfolding calculate_day
  calculate_day-shift i employee date x doc h =
      >>=-elim (load_punches k db i.store i.context employee date) _ h λ punches _ h1.
        >>=-elim (load_adjustments k db i.store i.context employee date) _ h1 λ adjustments _ h2.
          let input =
            input_of i.context employee date punches (load_holiday k db i.store i.context date)
              (load_leave k db i.store i.context employee date) adjustments in
          >>=-elim (calculating (calculate_attendance k input)) _ h2 λ result e h3.
            >>=-elim (firestore_projection k now result i.context.shift_source i.inference) _ h3
              λ written _ h4.
                ap (λ y. y.0.shift_id) (sym (ok-injective h4))
                ∙ calculate_attendance-shift_id k input result (calculating-eq_ok _ result e)

  write_day-ok :
      (i : Inferred S) (organization employee date : String) (x : CalculationResult)
      (r : Result RecalculationError (CalculationResult × Fields))
      → r ≡ calculate_day k known_zone db now i employee date
      → (write_day k known_zone db now (day_place organization employee date) i.store r).0 ≡ ok x
      → x.shift_id ≡ field_of i.context.shift (λ s. s.id)
  write_day-ok i organization employee date x (ok (y, doc)) e h =
      calculate_day-shift i employee date x doc (sym e ∙ ap (λ z. ok (z, doc)) (ok-injective h))
  write_day-ok i organization employee date x (err f) e h = cc

  after_guess-ok :
      (organization employee date : String) (s : S) (r : Result RecalculationError (Inferred S))
      (x : CalculationResult)
      → (after_guess k known_zone db now organization employee date s r).0 ≡ ok x
      → record {
        0 as inferred : Inferred S;
        1 : r ≡ ok inferred;
        2 : x.shift_id ≡ field_of inferred.context.shift (λ s. s.id);
      }
  after_guess-ok organization employee date s (err e) x h = cc
  after_guess-ok organization employee date s (ok i) x h =
      (i, refl, write_day-ok i organization employee date x _ refl h)

  -- The two halves of a recalculation that returns.
  pub guessed :
      (organization employee date : String) (s : S) (x : CalculationResult)
      → (recalculate_attendance k known_zone db now organization employee date s).0 ≡ ok x
      → record {
        0 as context : RecalculationContext;
        1 : load_context k known_zone db s organization employee date ≡ ok context;
        2 as inferred : Inferred S;
        3 : infer_shift k known_zone db now s context employee date ≡ ok inferred;
        4 : x.shift_id ≡ field_of inferred.context.shift (λ s. s.id);
      }
  unfolding recalculate_attendance
  guessed organization employee date s x h =
      let (i, e, shift) = after_guess-ok organization employee date s _ x h in
      >>=-elim (load_context k known_zone db s organization employee date) _ e
        λ c found inferred. (c, found, i, inferred, shift)

  parse_shift-of :
      (s : S) (p : Place) (path : String) (o : Option Document) (shift : ShiftDefinition)
      → db.document s p ≡ o
      → parse_shift path o ≡ ok shift
      → shift.id ≡ p.name
  unfolding parse_shift
  parse_shift-of s p path none shift e h = cc
  parse_shift-of s p path (some doc) shift e h =
      parse_shift-id path doc shift h ∙ db.document_id s p doc e

  shift_at-id :
      (s : S) (organization id : String) (shift : ShiftDefinition)
      → shift_at db s organization id ≡ ok shift
      → shift.id ≡ id
  shift_at-id s organization id shift h =
      parse_shift-of s (record { organization = organization; collection = "shifts"; name = id })
        (shift_path db organization id) _ shift refl h

  choose-assigned :
      (s : S) (organization : String) (a : Document) (guess : Option Document) (c : Choice)
      → choose_shift db s organization (some a) guess ≡ ok c
      → record {
        0 as shift : ShiftDefinition;
        1 : c.shift ≡ some shift;
        2 : get a.fields "shiftId" ≡ text shift.id;
      }
  unfolding choose_shift
  choose-assigned s organization a guess c h =
      >>=-elim (required_string a.fields "shiftId" a.path) _ h λ id named h1.
        >>=-elim (shift_at db s organization id) _ h1 λ shift found h2. (
          shift,
          sym (ap (λ y. y.shift) (ok-injective h2)),
          required_string-text a.fields "shiftId" a.path id named
              ∙ ap (λ y. text y) (sym (shift_at-id s organization id shift found)),
        )

  infer_shift-settled :
      (s : S) (c : RecalculationContext) (employee date : String) (i : Inferred S)
      → is_settled k known_zone db now c ≡ true
      → infer_shift k known_zone db now s c employee date ≡ ok i
      → i.context ≡ c
  unfolding infer_shift
  infer_shift-settled s c employee date i settled h =
      if-elim (is_settled k known_zone db now c) _ _ h
        (λ _ e. sym (ap (λ y. y.context) (ok-injective e))) λ other _. cc

  -- Where an assignment of the employee covers the date, and fewer than twenty of the employee's begin
  -- on or before it, a recalculation that returns has calculated the day with the shift that is named
  -- by an assignment of the employee that covers the date.
  pub recalculate_attendance-assigned :
      (organization employee date name : String) (s : S) (d : Document) (x : CalculationResult)
      → db.document s (assignment_place organization name) ≡ some d
      → Covers employee date d
      → length (
          db.query s organization "shiftAssignments"
            (assignments_of employee date)
            (by_descending "effectiveFrom")
            20)
        < 20
      → (recalculate_attendance k known_zone db now organization employee date s).0 ≡ ok x
      → record {
        0 as assignment : Document;
        1 : Memᴰ assignment (
            db.query s organization "shiftAssignments"
              (assignments_of employee date)
              (by_descending "effectiveFrom")
              20);
        2 : Covers employee date assignment;
        3 as id : String;
        4 : get assignment.fields "shiftId" ≡ text id;
        5 : x.shift_id ≡ some id;
      }
  recalculate_attendance-assigned organization employee date name s d x there covers few h =
      let (a, active) =
        active_assignment-some db organization employee date name s d there covers few in
      let (c, found, i, inferred, used) = guessed organization employee date s x h in
      let (choice, e, shift_e, locked_e, o) =
        context-choice k known_zone db now s organization employee date c found in
      let (shift, chosen, named) = choose-assigned s organization a _ choice (
        subst
          (λ y.
            choose_shift db s organization y
              (db.document s (inference_place db organization employee date))
            ≡ ok choice)
          active e) in
      let same =
        infer_shift-settled s c employee date i
          (ap (λ y. is_some y || c.inference_locked) (shift_e ∙ chosen)) inferred in
      (
        a,
        find-Memᴰ (is_active_on date) _ a active,
        active_assignment-Covers db organization employee date s a active,
        shift.id,
        named,
        used
            ∙ ap (λ y. field_of y.shift (λ z. z.id)) same
            ∙ ap (λ y. field_of y (λ z. z.id)) (shift_e ∙ chosen),
      )
