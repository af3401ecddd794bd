-- ===== src/Recalculation/Examples.antt =====
-- An organization with an employee, a shift, and the events of a day.
use attendence_system.Prelude.{
  ℕ, ◌*◌, ◌/◌, ◌≡◌, refl, true, false, List, [], ◌∷◌, Option, none, some, String, if◌then◌else◌,
}
use attendence_system.Prelude.Result.{ok}
use attendence_system.Prelude.Text.{decimal_text, str_eq, codes}
use attendence_system.Attendance.Types.{whole, CalculationResult, present, AttendancePunch, unknown}
use attendence_system.Attendance.Clock.{Clock, minute}
use attendence_system.Attendance.Examples.{test_clock, decimal}
use attendence_system.Documents.{
  Value, null, text, number, boolean, timestamp, array, object, no_values, value, Fields, no_fields,
  entry, Document, Place,
}
use attendence_system.Recalculation.Context.{RecalculationContext, Range}
use attendence_system.Recalculation.Memory.{Memory, Stored, memory}
use attendence_system.Recalculation.Run.{recalculate_attendance}
use attendence_system.Attendance.Adjustments.{adjustment_le, apply_adjustments}
use attendence_system.Attendance.Engine.{
  calculate_attendance, day_of, derive_base_status, early_leave_minutes, late_minutes, measure,
  measure_overtime, raise, status_after, worked_minutes,
}
use attendence_system.Attendance.Exceptions.{add_exception, sorted_exceptions}
use attendence_system.Attendance.Inference.{
  all_candidates, candidate_le, candidates_of_shift, conclude, confidence_of, infer_daily_shift,
  minutes_between, read_punch, start_punches,
}
use attendence_system.Attendance.Minutes.{minutes_ceil, minutes_floor, overtime_minutes}
use attendence_system.Attendance.Selection.{
  drop_duplicates, pick, punch_le, select_punches, select_sorted, split_window,
}
use attendence_system.Attendance.Window.{non_negative_integer, shift_window, valid_shift}
use attendence_system.Prelude.Sort.{insert, sort}
use attendence_system.Prelude.Text.{str_le}
use attendence_system.Recalculation.Context.{choose_shift, date_range, load_context}
use attendence_system.Recalculation.Events.{direction, event_punch}
use attendence_system.Recalculation.Fields.{
  boolean_field, integer, optional_string, parse_minutes, parse_overtime, parse_policies,
  parse_shift, parse_terms, required_string,
}
use attendence_system.Recalculation.Load.{
  add_events, add_snapshots, holiday_applies, identity_results, load_adjustments, load_holiday,
  load_leave, load_punches, load_punches_between, set_by_id, snapshots_between,
}
use attendence_system.Recalculation.Run.{calculate_day, guess_range, infer_shift, infer_unlocked}
use attendence_system.Recalculation.Written.{apply_guess, firestore_projection, guess_state}

-- The clock of Attendance/Examples with texts that it reads back, and midnight.
unfoldable pub text_clock : Clock
unfolding test_clock decimal_text
text_clock = record test_clock {
  plain_time_from = λ t. some (if str_eq t "00:00" then 0 else decimal 0 (codes t) * minute);
  date_to_string = λ d. decimal_text d;
  instant_to_string = λ t. decimal_text (t / minute);
}

abbrev n : ℕ → Value
n k = number (whole k)

abbrev pub at : String → String → Place
at collection name = record { organization = "acme"; collection = collection; name = name }

abbrev pub shift_fields : Fields
shift_fields = entry "name" (text "Normal") (
    entry "startTime" (text "510") (
      entry "endTime" (text "1050") (
        entry "workingDays" (array (value (n 1) (value (n 2) no_values))) (
          entry "gracePeriodMinutes" (n 10) (
            entry "lateCalculationMode" (text "from_shift_start") (
              entry "breakMinutes" (n 60) (
                entry "punchMode" (text "first_last") (
                  entry "earlyLeave" (object (entry "graceMinutes" (n 0) no_fields)) (
                    entry "overtime"
                      (object (
                        entry "enabled" (boolean true) (
                          entry "startDelayMinutes" (n 0) (
                            entry "minimumMinutes" (n 30) (
                              entry "roundingMinutes" (n 15)
                                (entry "roundingMode" (text "floor") no_fields))))))
                      (entry "active" (boolean true) no_fields))))))))))

abbrev event_at : ℕ → Fields
event_at t = entry "employeeId" (text "e1") (entry "eventTime" (timestamp (t * minute)) no_fields)

abbrev pub assignment : Fields
assignment = entry "employeeId" (text "e1") (
    entry "shiftId" (text "NORMAL")
      (entry "effectiveFrom" (text "5") (entry "effectiveTo" null no_fields)))

abbrev stored : String → String → Fields → Stored
stored collection name fields = record { place = at collection name; fields = fields }

abbrev common : List Stored
common =
    stored "employees" "e1" (entry "name" (text "Ann") no_fields)
    ∷ stored "shifts" "NORMAL" shift_fields
    ∷ stored "attendanceEvents" "in" (event_at 10600)
    ∷ stored "attendanceEvents" "out" (event_at 11185)
    ∷ []

abbrev organizations : String → Option Document
organizations o =
    some (record { id = o; path = o; fields = entry "timezone" (text "Asia/Colombo") no_fields })

abbrev pub guessing : Memory
guessing = record { organizations = organizations; documents = common }

abbrev pub assigning : Memory
assigning = record {
  organizations = organizations;
  documents = stored "shiftAssignments" "a1" assignment ∷ common;
}

abbrev pub result : CalculationResult
result = record {
  organization_id = "acme";
  employee_id = "e1";
  date = "7";
  timezone = "Asia/Colombo";
  shift_id = some "NORMAL";
  shift_name = some "Normal";
  scheduled_in = some "510";
  scheduled_out = some "1050";
  scheduled_in_at = some "10590";
  scheduled_out_at = some "11130";
  first_in = some "time";
  last_out = some "time";
  first_in_at = some "10600";
  last_out_at = some "11185";
  late_minutes = 0;
  early_leave_minutes = 0;
  worked_minutes = 525;
  overtime_minutes = 45;
  status = present;
  holiday_id = none;
  leave_id = none;
  has_manual_adjustment = false;
  adjustment_ids = [];
  source_event_ids = "in" ∷ "out" ∷ [];
  exceptions = [];
  calculation_version = "attendance-v2";
}

-- Recalculating the day, run: with the assignment, and with a guess from the first punch.
pub assigning_runs :
    (recalculate_attendance text_clock (λ zone. true) memory 0 "acme" "e1" "7" assigning).0
    ≡ ok result
unfolding recalculate_attendance memory text_clock test_clock decimal_text load_context choose_shift
    required_string optional_string parse_shift parse_policies parse_terms parse_minutes
    parse_overtime integer boolean_field infer_shift infer_unlocked guess_range apply_guess
    guess_state infer_daily_shift start_punches read_punch all_candidates candidates_of_shift
    candidate_le conclude confidence_of minutes_between calculate_day load_punches date_range
    load_punches_between snapshots_between identity_results add_snapshots add_events set_by_id
    event_punch direction load_holiday holiday_applies load_leave load_adjustments
    firestore_projection calculate_attendance shift_window valid_shift non_negative_integer
    select_punches split_window select_sorted punch_le drop_duplicates pick str_le sort insert
    apply_adjustments adjustment_le measure measure_overtime late_minutes early_leave_minutes
    worked_minutes overtime_minutes minutes_floor minutes_ceil derive_base_status status_after raise
    add_exception sorted_exceptions day_of
assigning_runs = refl

pub guessing_runs :
    (recalculate_attendance text_clock (λ zone. true) memory 0 "acme" "e1" "7" guessing).0
    ≡ ok result
unfolding recalculate_attendance memory text_clock test_clock decimal_text load_context choose_shift
    required_string optional_string parse_shift parse_policies parse_terms parse_minutes
    parse_overtime integer boolean_field infer_shift infer_unlocked guess_range apply_guess
    guess_state infer_daily_shift start_punches read_punch all_candidates candidates_of_shift
    candidate_le conclude confidence_of minutes_between calculate_day load_punches date_range
    load_punches_between snapshots_between identity_results add_snapshots add_events set_by_id
    event_punch direction load_holiday holiday_applies load_leave load_adjustments
    firestore_projection calculate_attendance shift_window valid_shift non_negative_integer
    select_punches split_window select_sorted punch_le drop_duplicates pick str_le sort insert
    apply_adjustments adjustment_le measure measure_overtime late_minutes early_leave_minutes
    worked_minutes overtime_minutes minutes_floor minutes_ceil derive_base_status status_after raise
    add_exception sorted_exceptions day_of
guessing_runs = refl

abbrev pub context : RecalculationContext
context = record {
  organization = "acme";
  employee = no_fields;
  timezone = "Asia/Colombo";
  branch_id = none;
  shift = none;
  shift_source = none;
  inference_locked = false;
}

abbrev pub day_range : Range
day_range = record { start = 10600 * minute; end = 11185 * minute }

abbrev pub read : List AttendancePunch
read = record { id = "in"; occurred_at = "10600"; direction = unknown } ∷ []

-- The event at the end of the range does not count.
pub read_runs : load_punches_between text_clock memory guessing context "e1" "7" day_range ≡ ok read
unfolding load_punches_between snapshots_between identity_results add_snapshots add_events set_by_id
    event_punch direction memory text_clock test_clock decimal_text
read_runs = refl
