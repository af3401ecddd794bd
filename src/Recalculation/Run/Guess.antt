-- ===== src/Recalculation/Run/Guess.antt =====
-- The shift of a day without an assignment: a guess, if it is a clear one.
use mathlib.Core.Path.{subst}
use attendence_system.Prelude.{
  Option-cases, inl, inr, ℕ, ◌+◌, ◌≤◌, ◌≡◌, refl, sym, ap, ◌∙◌, ◌||◌, Bool, true, false, List, [],
  ◌∷◌, Option, none, some, String, All, find, find-holds, if-elim, is_some, if◌then◌else◌,
}
use attendence_system.Prelude.Result.{ok, >>=-elim, ok-injective}
use attendence_system.Prelude.Text.{str_eq, str_eq_sound}
use attendence_system.Attendance.Types.{ShiftDefinition, AttendancePunch, CalculationResult}
use attendence_system.Attendance.Clock.{Clock}
use attendence_system.Attendance.Engine.{field_of}
use attendence_system.Attendance.Inference.{
  ShiftInferenceResult, Confidence, high, medium, low, no_confidence,
  default_shift_inference_policy, infer_daily_shift,
}
use attendence_system.Documents.{boolean_is, by_name, by_descending, Database}
use attendence_system.Recalculation.Load.Laws.{
  HasDistinctIds, IsEventIn, load_punches_between-IsEventIn,
}
use attendence_system.Recalculation.Context.{
  Range, load_context, RecalculationContext, Choice, inference_place, choose_shift,
  active_assignment, assignments_of,
}
use attendence_system.Recalculation.Load.{load_punches_between}
use attendence_system.Recalculation.Written.{
  calculating, with_shift, guess_state, apply_suggestion, apply_guess,
}
use attendence_system.Recalculation.Run.{
  Inferred, guess_range, parse_all, infer_unlocked, is_settled, infer_shift, recalculate_attendance,
}
use attendence_system.Recalculation.Run.Shift.{context-choice}
use attendence_system.Attendance.Inference.Laws.{IsClear, infer_daily_shift-high}
use attendence_system.Recalculation.Run.Covering.{Covers, active_assignment-none}
use attendence_system.Recalculation.Run.Source.{calculating-eq_ok, guessed}

found-id :
    (c : RecalculationContext) (shifts : List ShiftDefinition) (id : String) (s : ShiftDefinition)
    → (with_shift c (find (λ s. str_eq s.id id) shifts)).shift ≡ some s
    → id ≡ s.id
found-id c shifts id s h = elim (Option-cases (find (λ s. str_eq s.id id) shifts)) [
  | inl e ↦ absurd (cc (ap (λ o. (with_shift c o).shift) e))
  | inr (t, e) ↦
      let same = sym (ap (λ o. (with_shift c o).shift) e) ∙ h in
      sym (str_eq_sound s.id id (find-holds (λ s. str_eq s.id id) shifts s (e ∙ same)))
]

if-high :
    (confidence : Confidence) (x y : RecalculationContext) (s : ShiftDefinition)
    → y.shift ≡ none
    → (if str_eq (guess_state confidence) "auto_applied" then x else y).shift ≡ some s
    → (confidence ≡ high) × (x.shift ≡ some s)
unfolding guess_state
if-high high x y s e h = (refl, h)
if-high medium x y s e h = cc
if-high low x y s e h = cc
if-high no_confidence x y s e h = cc

apply_suggestion-some :
    (c : RecalculationContext) (shifts : List ShiftDefinition) (confidence : Confidence)
    (suggested : Option String) (s : ShiftDefinition)
    → c.shift ≡ none
    → (apply_suggestion c shifts confidence suggested).shift ≡ some s
    → (confidence ≡ high) × (suggested ≡ some s.id)
apply_suggestion-some c shifts trust none s e h = cc
apply_suggestion-some c shifts trust (some id) s e h =
    let (sure, found) = if-high trust (with_shift c (find (λ s. str_eq s.id id) shifts)) c s e h in
    (sure, ap (λ y. some y) (found-id c shifts id s found))

apply_guess-some :
    (c : RecalculationContext) (shifts : List ShiftDefinition) (r : ShiftInferenceResult)
    (s : ShiftDefinition)
    → c.shift ≡ none
    → (apply_guess c shifts r).shift ≡ some s
    → (r.confidence ≡ high) × (r.suggested_shift_id ≡ some s.id)
unfolding apply_guess
apply_guess-some c shifts r s e h =
    apply_suggestion-some c shifts r.confidence r.suggested_shift_id s e h

some-injective : {a b : String} → ◌≡◌ {A = Option String} (some a) (some b) → a ≡ b
some-injective h = cc

module _ (k : Clock) (known_zone : String → Bool) {S : Type 0} (db : Database S) (now : ℕ) where
  infer_unlocked-guess :
      (s : S) (c : RecalculationContext) (employee date : String) (i : Inferred S)
      → infer_unlocked k known_zone db now s c employee date ≡ ok i
      → record {
        0 as range : Range;
        1 : guess_range k known_zone db now date c.timezone ≡ ok range;
        2 as punches : List AttendancePunch;
        3 : load_punches_between k db s c employee date range ≡ ok punches;
        4 as shifts : List ShiftDefinition;
        5 :
            parse_all
              (db.query s c.organization "shifts" (boolean_is "active" true ∷ []) by_name 200)
            ≡ ok shifts;
        6 as guess : ShiftInferenceResult;
        7 :
            infer_daily_shift k date c.timezone shifts punches default_shift_inference_policy
            ≡ ok guess;
        8 : i.context ≡ apply_guess c shifts guess;
      }
  unfolding infer_unlocked
  infer_unlocked-guess s c employee date i h =
      >>=-elim (guess_range k known_zone db now date c.timezone) _ h λ r e1 h1.
        >>=-elim (load_punches_between k db s c employee date r) _ h1 λ punches e2 h2.
          >>=-elim
            (parse_all
              (db.query s c.organization "shifts" (boolean_is "active" true ∷ []) by_name 200))
            _ h2
            λ shifts e3 h3.
              >>=-elim
                (calculating (
                  infer_daily_shift k date c.timezone shifts punches
                    default_shift_inference_policy))
                _ h3
                λ guess e h4. (
                  r,
                  e1,
                  punches,
                  e2,
                  shifts,
                  e3,
                  guess,
                  calculating-eq_ok _ guess e,
                  sym (ap (λ y. y.context) (ok-injective h4)),
                )

  infer_shift-guess :
      (s : S) (c : RecalculationContext) (employee date : String) (i : Inferred S)
      → is_settled k known_zone db now c ≡ false
      → infer_shift k known_zone db now s c employee date ≡ ok i
      → infer_unlocked k known_zone db now s c employee date ≡ ok i
  unfolding infer_shift
  infer_shift-guess s c employee date i open' h =
      if-elim (is_settled k known_zone db now c) _ _ h (λ e _. cc) λ _ e. e

  choose-nothing :
      (s : S) (organization : String) (c : Choice)
      → choose_shift db s organization none none ≡ ok c
      → (c.shift ≡ none) × (c.inference_locked ≡ false)
  unfolding choose_shift
  choose-nothing s organization c h =
      let e = sym (ok-injective h) in (ap (λ y. y.shift) e, ap (λ y. y.inference_locked) e)

  field_of-some :
      (o : Option ShiftDefinition) (id : String)
      → field_of o (λ s. s.id) ≡ some id
      → (s : ShiftDefinition) × (o ≡ some s) × (s.id ≡ id)
  field_of-some none id h = cc
  field_of-some (some s) id h = (s, refl, cc)

  -- What a guessed shift rests on: the punches of the day that the store has of the employee and the
  -- shifts that are active in the organization, of which the one is clear by the default policy.
  pub record IsGuessed (organization employee date : String) (s : S) (id : String) : Type 0 where
    pub context : RecalculationContext
    pub is_context : load_context k known_zone db s organization employee date ≡ ok context
    pub range : Range
    pub is_range : guess_range k known_zone db now date context.timezone ≡ ok range
    pub punches : List AttendancePunch
    pub are_punches : load_punches_between k db s context employee date range ≡ ok punches
    pub are_events : HasDistinctIds punches × All (IsEventIn k range) punches
    pub shifts : List ShiftDefinition
    pub are_shifts :
        parse_all (db.query s organization "shifts" (boolean_is "active" true ∷ []) by_name 200)
        ≡ ok shifts
    pub day : ℕ
    pub is_day : k.plain_date_from date ≡ some day
    pub guess : ShiftInferenceResult
    pub is_clear :
        IsClear k default_shift_inference_policy day context.timezone shifts punches guess
    pub is_best : is_clear.best.shift_id ≡ id
    pub is_near : is_clear.best.distance_minutes ≤ 60
    pub are_apart :
        All (λ c. is_clear.best.distance_minutes + 45 ≤ c.distance_minutes) is_clear.others

  -- Where no assignment that the search for the day looks at covers the date, and no guess was made
  -- before, a day that is calculated
  -- with a shift has it from a clear guess: of the organization's active shifts that the store gives
  -- and the employee's punches that it gives for the day, with six hours before and after, it is the
  -- shift whose start is at most 60 minutes from a punch that is not one for leaving, where every
  -- other candidate's start is at least 45 minutes further from its punch. The distances are those
  -- between the instants, in whole minutes.
  pub recalculate_attendance-IsGuessed :
      (organization employee date : String) (s : S) (x : CalculationResult) (id : String)
      → All
          (λ a. ¬ (Covers employee date a))
          (db.query s organization "shiftAssignments"
            (assignments_of employee date)
            (by_descending "effectiveFrom")
            20)
      → db.document s (inference_place db organization employee date) ≡ none
      → (recalculate_attendance k known_zone db now organization employee date s).0 ≡ ok x
      → x.shift_id ≡ some id
      → IsGuessed organization employee date s id
  recalculate_attendance-IsGuessed organization employee date s x id uncovered unguessed h named =
      let unassigned = active_assignment-none db organization employee date s uncovered in
      let (c, found, i, inferred, used) =
        guessed k known_zone db now organization employee date s x h in
      let (choice, e, shift_e, locked_e, o) =
        context-choice k known_zone db now s organization employee date c found in
      let (no_shift, unlocked) = choose-nothing s organization choice (
        subst (λ y. choose_shift db s organization y none ≡ ok choice) unassigned
          (subst
            (λ y.
              choose_shift db s organization (active_assignment db s organization employee date) y
              ≡ ok choice)
            unguessed e)) in
      let open' =
        ap (λ y. is_some y || c.inference_locked) (shift_e ∙ no_shift) ∙ locked_e ∙ unlocked in
      let (range, is_range, punches, loaded, shifts, parsed, guess, by_policy, applied) =
        infer_unlocked-guess s c employee date i
          (infer_shift-guess s c employee date i open' inferred) in
      let (shift, uses, is_id) = field_of-some i.context.shift id (sym used ∙ named) in
      let (sure, suggested) =
        apply_guess-some c shifts guess shift (shift_e ∙ no_shift)
          (ap (λ y. y.shift) (sym applied) ∙ uses) in
      let (day, is_day', clear) =
        infer_daily_shift-high k date c.timezone shifts punches default_shift_inference_policy guess
          by_policy sure in
      record {
        context = c;
        is_context = found;
        range = range;
        is_range = is_range;
        punches = punches;
        are_punches = loaded;
        are_events = load_punches_between-IsEventIn k db s c employee date range punches loaded;
        shifts = shifts;
        are_shifts =
            ap (λ y. parse_all (db.query s y "shifts" (boolean_is "active" true ∷ []) by_name 200))
              (sym o)
            ∙ parsed;
        day = day;
        is_day = is_day';
        guess = guess;
        is_clear = clear;
        is_best = some-injective (sym clear.is_suggested ∙ suggested) ∙ is_id;
        is_near = clear.is_near;
        are_apart = clear.are_apart;
      }
