-- ===== src/Attendance/Window.antt =====
-- The checks on a shift and the window in which punches count: `nonNegativeInteger`, `validShift`,
-- `shiftWindow` and `localDayWindow` of cloud/functions/src/attendance/engine.ts.
use attendence_system.Prelude.{
  ℕ, ◌*◌, Bool, true, not, ◌&&◌, some, String, leb, any, if◌then◌else◌, get_or,
}
use attendence_system.Prelude.Result.{Result, ok, err, ◌>>=◌, ◌>>◌, throw_if, or_throw}
use attendence_system.Attendance.Types.{Number, whole, negative, fractional, ShiftDefinition}
use attendence_system.Attendance.Clock.{Clock}

pub data EngineError : Type 0 where
  range_error : EngineError
  not_non_negative_integer : String → EngineError
  invalid_working_days : EngineError

abbrev pub default_early_window_minutes : ℕ
default_early_window_minutes = 6 * 60

abbrev pub default_late_window_minutes : ℕ
default_late_window_minutes = 12 * 60

pub record ShiftWindow : Type 0 where
  pub start : ℕ
  pub end : ℕ
  pub earliest_punch : ℕ
  pub latest_punch : ℕ

unfoldable pub non_negative_integer : Number → String → Result EngineError ℕ
non_negative_integer (whole n) field = ok n
non_negative_integer (negative n) field = err (not_non_negative_integer field)
non_negative_integer fractional field = err (not_non_negative_integer field)

-- `!Number.isInteger(day) || day < 1 || day > 7`
abbrev pub is_bad_weekday : Number → Bool
is_bad_weekday (whole n) = not (leb 1 n && leb n 7)
is_bad_weekday _ = true

-- A number in arithmetic, which the code reaches only after `validShift` has passed it.
abbrev pub natural : Number → ℕ
natural (whole n) = n
natural (negative n) = 0
natural fractional = 0

module _ (k : Clock) where
  unfoldable pub valid_shift : ShiftDefinition → Result EngineError (Unit {0})
  unfolding non_negative_integer
  valid_shift shift = do
    or_throw (k.plain_time_from shift.start_time) range_error
    or_throw (k.plain_time_from shift.end_time) range_error
    non_negative_integer shift.grace_period_minutes "gracePeriodMinutes"
    non_negative_integer shift.break_minutes "breakMinutes"
    non_negative_integer shift.early_leave_grace_minutes "earlyLeave.graceMinutes"
    non_negative_integer shift.overtime.start_delay_minutes "overtime.startDelayMinutes"
    non_negative_integer shift.overtime.minimum_minutes "overtime.minimumMinutes"
    non_negative_integer shift.overtime.rounding_minutes "overtime.roundingMinutes"
    throw_if (any is_bad_weekday shift.working_days) invalid_working_days

  unfoldable pub shift_window : ℕ → String → ShiftDefinition → Result EngineError ShiftWindow
  unfolding non_negative_integer
  shift_window date timezone shift = do
    valid_shift shift
    start_time ← or_throw (k.plain_time_from shift.start_time) range_error
    end_time ← or_throw (k.plain_time_from shift.end_time) range_error
    start ← or_throw (k.to_zoned date timezone start_time) range_error
    end_date ← or_throw (if leb end_time start_time then k.next_day date else some date) range_error
    end ← or_throw (k.to_zoned end_date timezone end_time) range_error
    early ←
        non_negative_integer
          (get_or shift.early_arrival_window_minutes (whole default_early_window_minutes))
          "earlyArrivalWindowMinutes"
    late ←
        non_negative_integer
          (get_or shift.late_departure_window_minutes (whole default_late_window_minutes))
          "lateDepartureWindowMinutes"
    earliest ← or_throw (k.subtract_minutes start early) range_error
    latest ← or_throw (k.add_minutes end late) range_error
    ok (record { start = start; end = end; earliest_punch = earliest; latest_punch = latest })

  unfoldable pub local_day_window : ℕ → String → Result EngineError ShiftWindow
  local_day_window date timezone = do
    midnight ← or_throw (k.plain_time_from "00:00") range_error
    start ← or_throw (k.to_zoned date timezone midnight) range_error
    tomorrow ← or_throw (k.next_day date) range_error
    end ← or_throw (k.to_zoned tomorrow timezone midnight) range_error
    ok (record { start = start; end = end; earliest_punch = start; latest_punch = end })
