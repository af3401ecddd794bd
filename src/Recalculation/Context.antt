-- ===== src/Recalculation/Context.antt =====
-- `dateRange` and `loadContext` of cloud/functions/src/attendance/recalculation.ts: what of a day is
-- known before its punches are.
use attendence_system.Prelude.{
  ℕ, ◌+◌, Bool, true, false, not, List, [], ◌∷◌, Option, none, some, String, leb, find, get_or,
  if◌then◌else◌,
}
use attendence_system.Prelude.Result.{Result, ok, ◌>>=◌, ◌>>◌, throw_if, or_throw}
use attendence_system.Prelude.Text.{str_le, append}
use attendence_system.Attendance.Types.{Number, whole, negative, fractional, ShiftDefinition}
use attendence_system.Attendance.Clock.{Clock}
use attendence_system.Attendance.Window.{
  range_error, default_early_window_minutes, default_late_window_minutes,
}
use attendence_system.Documents.{
  Value, missing, null, text, Fields, get, is_text, Document, Condition, text_is, text_at_most,
  by_descending, Place, Database,
}
use attendence_system.Recalculation.Fields.{
  RecalculationError, no_such_organization, no_such_employee, unknown_timezone, calculation,
  required_string, optional_string, parse_shift,
}
use attendence_system.Recalculation.Events.{to_date}

pub data ShiftSource : Type 0 where
  assigned automatic confirmed : ShiftSource

pub record RecalculationContext : Type 0 where
  pub organization : String
  pub employee : Fields
  pub timezone : String
  pub branch_id : Option String
  pub shift : Option ShiftDefinition
  pub shift_source : Option ShiftSource
  pub inference_locked : Bool

-- `{ start: Date; end: Date }`
pub record Range : Type 0 where
  pub start : ℕ
  pub end : ℕ

abbrev out_of_range : RecalculationError
out_of_range = calculation range_error

abbrev pub in_range {ℓ} : {A : Type ℓ} → Option A → Result RecalculationError A
in_range o = or_throw o out_of_range

-- What `loadContext` finds out about the shift.
pub record Choice : Type 0 where
  pub shift : Option ShiftDefinition
  pub shift_source : Option ShiftSource
  pub inference_locked : Bool

abbrev no_choice : Bool → Choice
no_choice locked = record { shift = none; shift_source = none; inference_locked = locked }

-- The collection `shiftAssignments`: without an end, or with one on or after the date.
abbrev pub still_runs : Value → String → Bool
still_runs missing date = true
still_runs null date = true
still_runs (text s) date = str_le date s
still_runs _ date = false

abbrev pub is_active_on : String → Document → Bool
is_active_on date doc = still_runs (get doc.fields "effectiveTo") date

abbrev pub day_name : String → String → String
day_name employee date = append employee (append "_" date)

abbrev pub assignments_of : String → String → List Condition
assignments_of employee date =
    text_is "employeeId" employee ∷ text_at_most "effectiveFrom" date ∷ []

module _ (k : Clock) where
  -- subtract({ minutes }) and add({ minutes }), where the number may be negative
  abbrev pub minutes_before : ℕ → Number → Option ℕ
  minutes_before t (whole n) = k.subtract_minutes t n
  minutes_before t (negative n) = k.add_minutes t (n + 1)
  minutes_before t fractional = none

  abbrev pub minutes_after : ℕ → Number → Option ℕ
  minutes_after t (whole n) = k.add_minutes t n
  minutes_after t (negative n) = k.subtract_minutes t (n + 1)
  minutes_after t fractional = none

  unfoldable pub date_range :
      String → String → Option ShiftDefinition → Result RecalculationError Range
  date_range date timezone none = do
    day ← in_range (k.plain_date_from date)
    midnight ← in_range (k.plain_time_from "00:00")
    start ← in_range (k.to_zoned day timezone midnight)
    tomorrow ← in_range (k.next_day day)
    end ← in_range (k.to_zoned tomorrow timezone midnight)
    ok (record { start = to_date start; end = to_date end })
  date_range date timezone (some shift) = do
    day ← in_range (k.plain_date_from date)
    start_time ← in_range (k.plain_time_from shift.start_time)
    end_time ← in_range (k.plain_time_from shift.end_time)
    scheduled_start ← in_range (k.to_zoned day timezone start_time)
    end_date ← in_range (if leb end_time start_time then k.next_day day else some day)
    scheduled_end ← in_range (k.to_zoned end_date timezone end_time)
    start ← in_range (
        minutes_before scheduled_start
          (get_or shift.early_arrival_window_minutes (whole default_early_window_minutes)))
    end ← in_range (
        minutes_after scheduled_end
          (get_or shift.late_departure_window_minutes (whole default_late_window_minutes)))
    ok (record { start = to_date start; end = to_date end })

module _ {S : Type 0} (db : Database S) where
  abbrev pub shift_path : String → String → String
  shift_path organization id = append "organizations/" (append organization (append "/shifts/" id))

  abbrev pub shift_at : S → String → String → Result RecalculationError ShiftDefinition
  shift_at s organization id =
      parse_shift (shift_path organization id)
        (db.document s (record { organization = organization; collection = "shifts"; name = id }))

  unfoldable pub choose_shift :
      S → String → Option Document → Option Document → Result RecalculationError Choice
  choose_shift s organization (some active) inference =
      required_string active.fields "shiftId" active.path >>= λ id.
      shift_at s organization id >>= λ shift.
      ok (record { shift = some shift; shift_source = some assigned; inference_locked = false })
  choose_shift s organization none none = ok (no_choice false)
  choose_shift s organization none (some inference) =
      let state = get inference.fields "state" in
      if is_text state "confirmed"
      then (required_string inference.fields "selectedShiftId" inference.path >>= λ id.
          shift_at s organization id >>= λ shift.
          ok
            (record { shift = some shift; shift_source = some confirmed; inference_locked = true }))
      else ok (no_choice (is_text state "rejected"))

  abbrev pub active_assignment : S → String → String → String → Option Document
  active_assignment s organization employee date = find (is_active_on date) (
      db.query s organization "shiftAssignments" (assignments_of employee date)
        (by_descending "effectiveFrom") 20)

  abbrev pub inference_place : String → String → String → Place
  inference_place organization employee date = record {
    organization = organization;
    collection = "shiftInferences";
    name = day_name employee date;
  }

module _ (k : Clock) (known_zone : String → Bool) {S : Type 0} (db : Database S) where
  abbrev pub employee_place : String → String → Place
  employee_place organization employee = record {
    organization = organization;
    collection = "employees";
    name = employee;
  }

  abbrev pub organization_path : String → String
  organization_path organization = append "organizations/" organization

  unfoldable pub load_context :
      S → String → String → String → Result RecalculationError RecalculationContext
  unfolding required_string optional_string choose_shift
  load_context s organization employee date = do
    in_range (k.plain_date_from date)
    found ← or_throw (db.organization s organization) (no_such_organization organization)
    person ←
        or_throw (db.document s (employee_place organization employee))
          (no_such_employee employee organization)
    timezone ← required_string found.fields "timezone" (organization_path organization)
    throw_if (not (known_zone timezone)) unknown_timezone
    choice ←
        choose_shift db s organization (active_assignment db s organization employee date)
          (db.document s (inference_place db organization employee date))
    ok (record {
      organization = organization;
      employee = person.fields;
      timezone = timezone;
      branch_id = optional_string person.fields "branchId";
      shift = choice.shift;
      shift_source = choice.shift_source;
      inference_locked = choice.inference_locked;
    })
