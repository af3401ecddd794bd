-- ===== src/Attendance/Engine.antt =====
-- `calculateAttendance` of cloud/functions/src/attendance/engine.ts, with `deriveBaseStatus` and
-- `localTime`.
pub mod Day
pub mod Status
pub mod Measures
pub mod Raised
use attendence_system.Prelude.{
  ℕ, ◌+◌, ◌-◌, ◌≤◌, ◌<◌, ◌≡◌, Bool, true, false, not, ◌&&◌, ◌||◌, List, [], ◌∷◌, map, Option, none,
  some, String, ltb, leb, ◌==◌, any, length, is_some, if◌then◌else◌, get_or,
}
use attendence_system.Prelude.Result.{Result, ok, err, ◌>>=◌, or_throw}
use attendence_system.Prelude.Sort.{sort}
use attendence_system.Attendance.Types.{
  Number, whole, ShiftDefinition, PunchMode, first_last, LateCalculationMode, from_shift_start,
  after_grace, AttendanceStatus, present, absent, leave, holiday, rest_day, no_shift,
  ManualAdjustment, CalculationInput, CalculationResult, AttendanceException,
  duplicate_punches_ignored, early_arrival, early_leave, invalid_punch_order, late_arrival,
  missing_check_in, missing_check_out, outside_shift_window_ignored, worked_on_holiday,
  worked_on_leave, worked_on_rest_day, worked_without_shift,
}
use attendence_system.Attendance.Clock.{Clock}
use attendence_system.Attendance.Window.{
  EngineError, range_error, ShiftWindow, natural, shift_window, local_day_window,
}
use attendence_system.Attendance.Selection.{PunchSelection, select_punches}
use attendence_system.Attendance.Minutes.{minutes_floor, minutes_ceil, overtime_minutes}
use attendence_system.Attendance.Adjustments.{
  Adjusted, is_set_status, adjustment_le, apply_adjustments,
}
use attendence_system.Attendance.Exceptions.{add_exception, sorted_exceptions}

unfoldable pub derive_base_status : Bool → Bool → Bool → Bool → Bool → AttendanceStatus
derive_base_status has_punch is_working_day has_shift holiday? leave? =
    if has_punch
    then present
    else if leave?
    then leave
    else if holiday?
    then holiday
    else if not has_shift
    then no_shift
    else if is_working_day
    then absent
    else rest_day

abbrev pub is_day : ℕ → Number → Bool
is_day d (whole n) = n == d
is_day d _ = false

-- `shift !== null && shift.workingDays.includes(date.dayOfWeek)`
abbrev pub works_on : Option ShiftDefinition → ℕ → Bool
works_on none day = false
works_on (some s) day = any (is_day day) s.working_days

-- Comparisons that hold only where the times are there.
abbrev pub if_both : Option ℕ → Option ℕ → (ℕ → ℕ → Bool) → Bool
if_both (some a) (some b) p = p a b
if_both _ _ p = false

abbrev pub if_there : Option ℕ → (ℕ → Bool) → Bool
if_there none p = false
if_there (some a) p = p a

-- `let lateMinutes = 0; ...`
pub record Measured : Type 0 where
  pub late : ℕ
  pub early_leave : ℕ
  pub worked : ℕ
  pub overtime : ℕ

unfoldable pub worked_minutes : Option ℕ → Option ℕ → ℕ → ℕ
worked_minutes (some i) (some o) break_minutes =
    if leb i o then minutes_floor i o - break_minutes else 0
worked_minutes _ _ break_minutes = 0

abbrev pub late_from : LateCalculationMode → ℕ → ℕ → ℕ → ℕ
late_from from_shift_start scheduled threshold i = minutes_ceil scheduled i
late_from after_grace scheduled threshold i = minutes_ceil threshold i

unfoldable pub late_minutes : LateCalculationMode → ℕ → ℕ → Option ℕ → ℕ
late_minutes mode scheduled threshold none = 0
late_minutes mode scheduled threshold (some i) =
    if ltb threshold i then late_from mode scheduled threshold i else 0

unfoldable pub early_leave_minutes : ℕ → Option ℕ → ℕ
early_leave_minutes threshold none = 0
early_leave_minutes threshold (some o) = if ltb o threshold then minutes_ceil o threshold else 0

abbrev pub break_of : Option ShiftDefinition → ℕ
break_of none = 0
break_of (some s) = natural s.break_minutes

-- The calls of `addException`, and the sorted set.
unfoldable pub raise :
    CalculationInput
    → ShiftWindow
    → PunchSelection
    → Bool
    → Option ℕ
    → Option ℕ
    → Measured
    → List AttendanceException
raise input w selected is_working_day i o m =
    let has_punch = is_some i || is_some o in
    let has_shift = is_some input.shift in
    let s1 = add_exception [] (ltb 0 selected.duplicate_count) duplicate_punches_ignored in
    let s2 =
      add_exception s1 (ltb 0 selected.ignored_outside_window) outside_shift_window_ignored in
    let s3 = add_exception s2 (not (is_some i) && is_some o) missing_check_in in
    let s4 = add_exception s3 (is_some i && not (is_some o)) missing_check_out in
    let s5 = add_exception s4 (if_both i o (λ a b. ltb b a)) invalid_punch_order in
    let s6 = add_exception s5 (has_shift && if_there i (λ a. ltb a w.start)) early_arrival in
    let s7 = add_exception s6 (ltb 0 m.late) late_arrival in
    let s8 = add_exception s7 (ltb 0 m.early_leave) early_leave in
    let s9 = add_exception s8 (has_punch && is_some input.holiday) worked_on_holiday in
    let s10 = add_exception s9 (has_punch && is_some input.leave) worked_on_leave in
    let s11 = add_exception s10 (has_punch && has_shift && not is_working_day) worked_on_rest_day in
    let s12 = add_exception s11 (has_punch && not has_shift) worked_without_shift in
    sorted_exceptions s12

abbrev pub field_of {ℓ κ} : {A : Type ℓ} {B : Type κ} → Option A → (A → B) → Option B
field_of none f = none
field_of (some a) f = some (f a)

-- The status that is reported.
unfoldable pub status_after :
    CalculationInput → Bool → List ManualAdjustment → Adjusted → AttendanceStatus
status_after input is_working_day adjustments adjusted =
    if any is_set_status adjustments
    then adjusted.status
    else derive_base_status (is_some adjusted.first_in || is_some adjusted.last_out) is_working_day
        (is_some input.shift) (is_some input.holiday) (is_some input.leave)

abbrev pub mode_of : Option ShiftDefinition → PunchMode
mode_of none = first_last
mode_of (some s) = s.punch_mode

module _ (k : Clock) where
  -- The block under `if (lastOut !== null)`.
  unfoldable pub measure_overtime : ShiftDefinition → ShiftWindow → Option ℕ → Result EngineError ℕ
  measure_overtime s w none = ok 0
  measure_overtime s w (some o) =
      or_throw (k.add_minutes w.end (natural s.overtime.start_delay_minutes)) range_error
      >>= λ from'. ok (overtime_minutes (minutes_floor from' o) s.overtime)

  -- From `let lateMinutes = 0` to the end of `if (shift !== null)`.
  unfoldable pub measure :
      Option ShiftDefinition → ShiftWindow → Option ℕ → Option ℕ → Result EngineError Measured
  unfolding measure_overtime
  measure none w i o =
      ok (record { late = 0; early_leave = 0; worked = worked_minutes i o 0; overtime = 0 })
  measure (some s) w i o = do
    late_threshold ← or_throw (k.add_minutes w.start (natural s.grace_period_minutes)) range_error
    early_threshold ←
        or_throw (k.subtract_minutes w.end (natural s.early_leave_grace_minutes)) range_error
    overtime ← measure_overtime s w o
    ok (record {
      late = late_minutes s.late_calculation_mode w.start late_threshold i;
      early_leave = early_leave_minutes early_threshold o;
      worked = worked_minutes i o (natural s.break_minutes);
      overtime = overtime;
    })

  abbrev pub window_of : Option ShiftDefinition → ℕ → String → Result EngineError ShiftWindow
  window_of none date timezone = local_day_window k date timezone
  window_of (some s) date timezone = shift_window k date timezone s

  abbrev pub clock_time : Option ℕ → String → Result EngineError (Option String)
  clock_time none timezone = ok none
  clock_time (some t) timezone =
      or_throw (k.local_time t timezone) range_error >>= λ text. ok (some text)

  abbrev pub text_of : Option ℕ → Option String
  text_of none = none
  text_of (some t) = some (k.instant_to_string t)

  -- The object that is returned.
  unfoldable pub day_of :
      CalculationInput
      → ℕ
      → ShiftWindow
      → PunchSelection
      → Adjusted
      → List ManualAdjustment
      → Measured
      → Option String
      → Option String
      → CalculationResult
  day_of input date w selected adjusted adjustments m first_in last_out = record {
    organization_id = input.organization_id;
    employee_id = input.employee_id;
    date = k.date_to_string date;
    timezone = input.timezone;
    shift_id = field_of input.shift (λ s. s.id);
    shift_name = field_of input.shift (λ s. s.name);
    scheduled_in = field_of input.shift (λ s. s.start_time);
    scheduled_out = field_of input.shift (λ s. s.end_time);
    scheduled_in_at = field_of input.shift (λ s. k.instant_to_string w.start);
    scheduled_out_at = field_of input.shift (λ s. k.instant_to_string w.end);
    first_in = first_in;
    last_out = last_out;
    first_in_at = text_of adjusted.first_in;
    last_out_at = text_of adjusted.last_out;
    late_minutes = m.late;
    early_leave_minutes = m.early_leave;
    worked_minutes = m.worked;
    overtime_minutes = m.overtime;
    status = status_after input (works_on input.shift (k.day_of_week date)) adjustments adjusted;
    holiday_id = field_of input.holiday (λ h. h.id);
    leave_id = field_of input.leave (λ l. l.id);
    has_manual_adjustment = ltb 0 (length adjustments);
    adjustment_ids = map (λ a. a.id) adjustments;
    source_event_ids = selected.source_event_ids;
    exceptions =
        raise input w selected (works_on input.shift (k.day_of_week date)) adjusted.first_in
          adjusted.last_out m;
    calculation_version = "attendance-v2";
  }

  unfoldable pub calculate_attendance : CalculationInput → Result EngineError CalculationResult
  calculate_attendance input = do
    date ← or_throw (k.plain_date_from input.date) range_error
    w ← window_of input.shift date input.timezone
    selected ← select_punches k input.punches (mode_of input.shift) w
    let is_working_day = works_on input.shift (k.day_of_week date)
    let base =
        derive_base_status (is_some selected.first_in || is_some selected.last_out) is_working_day
          (is_some input.shift) (is_some input.holiday) (is_some input.leave)
    let adjustments = sort (adjustment_le k) input.approved_adjustments
    adjusted ←
        apply_adjustments k
          (record { first_in = selected.first_in; last_out = selected.last_out; status = base })
          adjustments
    m ← measure input.shift w adjusted.first_in adjusted.last_out
    first_in ← clock_time adjusted.first_in input.timezone
    last_out ← clock_time adjusted.last_out input.timezone
    ok (day_of input date w selected adjusted adjustments m first_in last_out)
