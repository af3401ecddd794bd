-- ===== src/Recalculation/Run.antt =====
-- `inferShift` and `recalculateAttendance` of cloud/functions/src/attendance/recalculation.ts. The
-- loads that the source runs at the same time are run in order: they only read.
pub mod Laws
pub mod Shift
pub mod Covering
pub mod Source
pub mod Guess
use attendence_system.Prelude.{
  ℕ, ◌*◌, ◌≡◌, Bool, true, false, not, ◌&&◌, ◌||◌, List, [], ◌∷◌, Option, none, some, String,
  is_some, if◌then◌else◌,
}
use attendence_system.Prelude.Result.{Result, ok, err, ◌>>=◌, ◌>>◌}
use attendence_system.Attendance.Types.{
  ShiftDefinition, AttendancePunch, ManualAdjustment, Holiday, Leave, CalculationInput,
  CalculationResult,
}
use attendence_system.Attendance.Clock.{Clock}
use attendence_system.Attendance.Engine.{calculate_attendance}
use attendence_system.Attendance.Inference.{
  ShiftInferenceResult, default_shift_inference_policy, infer_daily_shift,
}
use attendence_system.Documents.{Fields, Document, boolean_is, by_name, Place, Database}
use attendence_system.Recalculation.Fields.{RecalculationError, parse_shift}
use attendence_system.Recalculation.Events.{to_date}
use attendence_system.Recalculation.Context.{
  RecalculationContext, Range, in_range, day_name, load_context, inference_place,
}
use attendence_system.Recalculation.Load.{
  load_punches_between, load_punches, load_holiday, load_leave, load_adjustments,
}
use attendence_system.Recalculation.Written.{
  calculating, inference_fields, apply_guess, firestore_projection,
}

-- What `inferShift` leaves behind: the context, its answer, and the store.
pub record Inferred (S : Type 0) : Type 0 where
  pub context : RecalculationContext
  pub inference : Option ShiftInferenceResult
  pub store : S

abbrev pub parse_all : List Document → Result RecalculationError (List ShiftDefinition)
parse_all [] = ok []
parse_all (doc ∷ docs) =
    let rest = parse_all docs in parse_shift doc.path (some doc) >>= λ s. rest >>= λ ss. ok (s ∷ ss)

abbrev pub day_place : String → String → String → Place
day_place organization employee date = record {
  organization = organization;
  collection = "attendanceDays";
  name = day_name employee date;
}

abbrev pub input_of :
    RecalculationContext
    → String
    → String
    → List AttendancePunch
    → Option Holiday
    → Option Leave
    → List ManualAdjustment
    → CalculationInput
input_of c employee date punches holiday leave adjustments = record {
  organization_id = c.organization;
  employee_id = employee;
  date = date;
  timezone = c.timezone;
  shift = c.shift;
  punches = punches;
  holiday = holiday;
  leave = leave;
  approved_adjustments = adjustments;
}

module _ (k : Clock) (known_zone : String → Bool) {S : Type 0} (db : Database S) (now : ℕ) where
  -- Six hours before the day to six hours after it.
  unfoldable pub guess_range : String → String → Result RecalculationError Range
  guess_range date timezone = do
    day ← in_range (k.plain_date_from date)
    midnight ← in_range (k.plain_time_from "00:00")
    first ← in_range (k.to_zoned day timezone midnight)
    start ← in_range (k.subtract_minutes first (6 * 60))
    tomorrow ← in_range (k.next_day day)
    last ← in_range (k.to_zoned tomorrow timezone midnight)
    end ← in_range (k.add_minutes last (6 * 60))
    ok (record { start = to_date start; end = to_date end })

  unfoldable pub infer_unlocked :
      S → RecalculationContext → String → String → Result RecalculationError (Inferred S)
  unfolding guess_range
  infer_unlocked s c employee date = do
    r ← guess_range date c.timezone
    punches ← load_punches_between k db s c employee date r
    shifts ←
        parse_all (db.query s c.organization "shifts" (boolean_is "active" true ∷ []) by_name 200)
    guess ←
        calculating
          (infer_daily_shift k date c.timezone shifts punches default_shift_inference_policy)
    ok (record {
      context = apply_guess c shifts guess;
      inference = some guess;
      store =
          db.merge (inference_place db c.organization employee date)
            (inference_fields now c employee date guess) s;
    })

  abbrev pub is_settled : RecalculationContext → Bool
  is_settled c = is_some c.shift || c.inference_locked

  unfoldable pub infer_shift :
      S → RecalculationContext → String → String → Result RecalculationError (Inferred S)
  infer_shift s c employee date =
      if is_settled c
      then ok (record { context = c; inference = none; store = s })
      else infer_unlocked s c employee date

  -- From the loads on: the answer, and the document of the day.
  unfoldable pub calculate_day :
      Inferred S → String → String → Result RecalculationError (CalculationResult × Fields)
  calculate_day i employee date = do
    punches ← load_punches k db i.store i.context employee date
    adjustments ← load_adjustments k db i.store i.context employee date
    result ← calculating (
        calculate_attendance k (
          input_of i.context employee date punches (load_holiday k db i.store i.context date)
            (load_leave k db i.store i.context employee date) adjustments))
    doc ← firestore_projection k now result i.context.shift_source i.inference
    ok (result, doc)

  abbrev pub write_day :
      Place
      → S
      → Result RecalculationError (CalculationResult × Fields)
      → Result RecalculationError CalculationResult × S
  write_day place s (ok (result, doc)) = (ok result, db.write place doc s)
  write_day place s (err e) = (err e, s)

  abbrev pub after_guess :
      String
      → String
      → String
      → S
      → Result RecalculationError (Inferred S)
      → Result RecalculationError CalculationResult × S
  after_guess organization employee date s (err e) = (err e, s)
  after_guess organization employee date s (ok i) =
      write_day (day_place organization employee date) i.store (calculate_day i employee date)

  -- The answer, or what was thrown, and the store that is left.
  unfoldable pub recalculate_attendance :
      String → String → String → S → Result RecalculationError CalculationResult × S
  recalculate_attendance organization employee date s = after_guess organization employee date s (
      load_context k known_zone db s organization employee date >>= λ c.
      infer_shift s c employee date)

module _ (k : Clock) where
  abbrev in_order : Option ℕ → Option ℕ → Option (List String)
  in_order (some a) (some b) = some (k.date_to_string a ∷ k.date_to_string b ∷ [])
  in_order _ _ = none

  abbrev two_days : Option ℕ → Option (List String)
  two_days none = none
  two_days (some d) = in_order (k.previous_day d) (some d)

  -- `none` is a RangeError.
  unfoldable pub candidate_attendance_dates : ℕ → String → Option (List String)
  candidate_attendance_dates event_time timezone =
      two_days (k.local_date (to_date event_time) timezone)
