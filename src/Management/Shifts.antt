-- ===== src/Management/Shifts.antt =====
-- Shifts: `saveShift` of cloud/functions/src/shifts/management.ts. `none` as input is one that the schema refuses; the new
-- names are random in the source.
pub mod Laws
use attendence_system.Prelude.{
  ℕ, ◌≡◌, Bool, true, false, not, ◌&&◌, ◌||◌, List, [], ◌∷◌, Option, none, some, String, any,
  get_or, leb, ◌==◌, if◌then◌else◌,
}
use attendence_system.Prelude.Result.{Result, ok, err, ◌>>=◌, ◌>>◌, throw_if, or_throw}
use attendence_system.Prelude.Sort.{sort}
use attendence_system.Prelude.Text.{str_le}
use attendence_system.Attendance.Types.{
  Number, whole, LateCalculationMode, from_shift_start, after_grace, PunchMode, first_last,
  explicit_status, OvertimeRoundingMode, no_rounding, floor, nearest, ceil,
}
use attendence_system.Documents.{
  Value, null, text, number, boolean, timestamp, array, object, Values, no_values, value, Fields,
  no_fields, entry, get, as_text, is_boolean, Document, text_is, by_name, Place, field_of, data_of,
  Database,
}
use attendence_system.Recalculation.Fields.{nonempty_text}
use attendence_system.Management.Access.{
  CallError, invalid_argument, not_found, already_exists, failed_precondition, document_exists,
  AuthContext, require_authentication, require_manager, in_collection, create, committing,
}

-- What `saveShiftSchema` gives.
pub record SaveShift : Type 0 where
  pub organization_id : String
  pub shift_id : String
  pub name : String
  pub start_time : String
  pub end_time : String
  pub working_days : List ℕ
  pub grace_period_minutes : ℕ
  pub late_calculation_mode : LateCalculationMode
  pub break_minutes : ℕ
  pub punch_mode : PunchMode
  pub early_leave_grace_minutes : ℕ
  pub overtime_enabled : Bool
  pub overtime_start_delay_minutes : ℕ
  pub overtime_minimum_minutes : ℕ
  pub overtime_rounding_minutes : ℕ
  pub overtime_rounding_mode : OvertimeRoundingMode
  pub active : Bool
  pub recalculate_from : String
  pub reason : String

abbrev n : ℕ → Value
n k = number (whole k)

abbrev pub late_mode_text : LateCalculationMode → String
late_mode_text from_shift_start = "from_shift_start"
late_mode_text after_grace = "after_grace"

abbrev pub punch_mode_text : PunchMode → String
punch_mode_text first_last = "first_last"
punch_mode_text explicit_status = "explicit_status"

abbrev pub rounding_mode_text : OvertimeRoundingMode → String
rounding_mode_text no_rounding = "none"
rounding_mode_text floor = "floor"
rounding_mode_text nearest = "nearest"
rounding_mode_text ceil = "ceil"

-- `new Set(days)`
abbrev pub distinct : List ℕ → List ℕ → List ℕ
distinct seen [] = []
distinct seen (d ∷ ds) =
    let seen_before = any (λ e. e == d) seen in
    let rest = distinct (if seen_before then seen else d ∷ seen) ds in
    if seen_before then rest else d ∷ rest

-- `[...new Set(days)].sort()`: the days are digits, so the order of texts is that of numbers.
abbrev pub set_of_days : List ℕ → List ℕ
set_of_days days = sort leb (distinct [] days)

abbrev pub days_value : List ℕ → Values
days_value [] = no_values
days_value (d ∷ ds) = value (n d) (days_value ds)

-- `shiftData`, and the fields that a new document has besides
unfoldable pub shift_data : SaveShift → ℕ → String → Fields → Fields
shift_data i now uid rest = entry "name" (text i.name) (
    entry "startTime" (text i.start_time) (
      entry "endTime" (text i.end_time) (
        entry "workingDays" (array (days_value (set_of_days i.working_days))) (
          entry "gracePeriodMinutes" (n i.grace_period_minutes) (
            entry "lateCalculationMode" (text (late_mode_text i.late_calculation_mode)) (
              entry "breakMinutes" (n i.break_minutes) (
                entry "punchMode" (text (punch_mode_text i.punch_mode)) (
                  entry "earlyLeave"
                    (object (entry "graceMinutes" (n i.early_leave_grace_minutes) no_fields))
                    (entry "overtime" (object overtime_fields) (
                      entry "active" (boolean i.active) (
                        entry "updatedAt" (timestamp now)
                          (entry "updatedBy" (text uid) rest))))))))))))
  where
    overtime_fields : Fields
    overtime_fields = entry "enabled" (boolean i.overtime_enabled) (
        entry "startDelayMinutes" (n i.overtime_start_delay_minutes) (
          entry "minimumMinutes" (n i.overtime_minimum_minutes) (
            entry "roundingMinutes" (n i.overtime_rounding_minutes) (
              entry "roundingMode" (text (rounding_mode_text i.overtime_rounding_mode))
                no_fields))))

abbrev previous_of : Option Document → Value
previous_of none = null
previous_of (some d) = object d.fields

abbrev pub creation_fields : Option Document → ℕ → String → Fields
creation_fields none now uid =
    entry "createdAt" (timestamp now) (entry "createdBy" (text uid) no_fields)
creation_fields (some d) now uid = no_fields

module _ {S : Type 0} (db : Database S) (now : ℕ) where
  -- `organizationToday`; `today` is the date of a timezone
  abbrev pub organization_today : S → (String → String) → String → Result CallError String
  organization_today s today organization =
      or_throw (as_text (field_of (db.organization s organization) "timezone"))
        (failed_precondition "Organization timezone is not configured")
      >>= λ timezone. ok (today timezone)

  abbrev pub shift_audit : SaveShift → String → Option Document → Fields
  shift_audit i uid previous = entry "shiftId" (text i.shift_id) (
      entry "previous" (previous_of previous) (
        entry "next" (object (shift_data i now uid no_fields)) (
          entry "reason" (text i.reason)
            (entry "actorId" (text uid) (entry "createdAt" (timestamp now) no_fields)))))

  abbrev pub shift_job : SaveShift → String → String → Fields
  shift_job i uid today = entry "type" (text "shift_policy") (
      entry "shiftId" (text i.shift_id) (
        entry "fromDate" (text i.recalculate_from) (
          entry "toDate" (text today) (
            entry "state" (text "pending") (
              entry "cursorAssignmentId" null
                (entry "createdAt" (timestamp now) (entry "createdBy" (text uid) no_fields)))))))

  abbrev pub shift_place : String → String → Place
  shift_place organization id = in_collection db now organization "shifts" id

  -- The transaction of `saveShift`.
  unfoldable pub write_shift :
      SaveShift → String → String → String → String → S → Result CallError (String × S)
  unfolding shift_data
  write_shift i uid audit job today s =
      let place = shift_place i.organization_id i.shift_id in
      let previous = db.document s place in
      let w0 = db.merge place (shift_data i now uid (creation_fields previous now uid)) s in
      create db now (in_collection db now i.organization_id "shiftChangeAudits" audit)
        (shift_audit i uid previous) s w0
      >>= λ w1.
          create db now (in_collection db now i.organization_id "recalculationJobs" job)
            (shift_job i uid today) s w1
          >>= λ w2. ok (job, w2)

  unfoldable pub save_shift :
      Option AuthContext
      → Option SaveShift
      → String
      → String
      → (String → String)
      → S
      → Result CallError String × S
  unfolding write_shift
  save_shift caller input audit job today s = committing s (
      require_authentication caller >>= λ auth.
      or_throw input (invalid_argument "Shift fields are invalid") >>= λ i.
      require_manager db now s auth i.organization_id >>= λ granted.
      organization_today s today i.organization_id >>= λ date.
      write_shift i auth.uid audit job date s)
