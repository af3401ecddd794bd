-- ===== src/Attendance/Examples.antt =====
-- A clock whose texts are minutes in decimal, a shift, and a day on it.
use Prim.Native.Nat.{ℕ}
use attendence_system.Prelude.{
  ◌+◌, ◌-◌, ◌*◌, ◌/◌, ◌%◌, ◌≡◌, refl, true, false, List, [], ◌∷◌, Option, none, some, String, arith,
  leb, if◌then◌else◌,
}
use attendence_system.Prelude.Text.{codes, str_le, str_le_total, str_le_trans}
use attendence_system.Attendance.Types.{
  ShiftDefinition, whole, from_shift_start, first_last, nearest, unknown, AttendancePunch,
  CalculationInput, CalculationResult, present, duplicate_punches_ignored, late_arrival,
  outside_shift_window_ignored,
}
use attendence_system.Attendance.Clock.{Clock, minute}
use attendence_system.Prelude.Result.{ok}
use attendence_system.Prelude.Sort.{sort}
use attendence_system.Attendance.Window.{shift_window, valid_shift}
use attendence_system.Attendance.Selection.{
  select_punches, split_window, select_sorted, punch_le, drop_duplicates, pick,
}
use attendence_system.Attendance.Minutes.{minutes_floor, minutes_ceil, overtime_minutes}
use attendence_system.Attendance.Adjustments.{apply_adjustments, adjustment_le}
use attendence_system.Attendance.Exceptions.{add_exception, sorted_exceptions}
use attendence_system.Attendance.Engine.{
  calculate_attendance, measure, late_minutes, early_leave_minutes, worked_minutes,
  derive_base_status, status_after, raise, day_of,
}

abbrev pub decimal : ℕ → List ℕ → ℕ
decimal n [] = n
decimal n (c ∷ s) = decimal (n * 10 + (c - b'0')) s

abbrev pub subtract : ℕ → ℕ → Option ℕ
subtract t n = if leb (n * minute) t then some (t - n * minute) else none

pub subtract_lem : (t n u : ℕ) → subtract t n ≡ some u → t ≡ u + n * minute
subtract_lem t n u h = ground arith

pub add_lem : (t n u : ℕ) → some (t + n * minute) ≡ some u → u ≡ t + n * minute
add_lem t n u h = ground arith

unfoldable pub test_clock : Clock
unfolding str_le
test_clock = record {
  instant_from = λ s. some (decimal 0 (codes s) * minute);
  plain_date_from = λ s. some (decimal 0 (codes s));
  plain_time_from = λ s. some (decimal 0 (codes s) * minute);
  to_zoned = λ d zone t. some (d * 1440 * minute + t);
  next_day = λ d. some (d + 1);
  previous_day = λ d. some (d - 1);
  day_of_week = λ d. d % 7 + 1;
  add_minutes = λ t n. some (t + n * minute);
  subtract_minutes = subtract;
  date_to_string = λ d. "day";
  instant_to_string = λ t. "instant";
  local_time = λ t zone. some "time";
  local_date = λ t zone. some (t / (1440 * minute));
  locale_le = str_le;
  add_minutes_lem = add_lem;
  subtract_minutes_lem = subtract_lem;
  locale_total = str_le_total;
  locale_trans = str_le_trans;
}

-- 8:30 to 17:30 on the first five weekdays, ten minutes of grace, an hour of break.
abbrev pub day_shift : ShiftDefinition
day_shift = record {
  id = "NORMAL";
  name = "Normal Shift";
  start_time = "510";
  end_time = "1050";
  working_days = whole 1 ∷ whole 2 ∷ whole 3 ∷ whole 4 ∷ whole 5 ∷ [];
  grace_period_minutes = whole 10;
  late_calculation_mode = from_shift_start;
  break_minutes = whole 60;
  punch_mode = first_last;
  early_arrival_window_minutes = none;
  late_departure_window_minutes = none;
  early_leave_grace_minutes = whole 0;
  overtime = record {
    enabled = true;
    start_delay_minutes = whole 0;
    minimum_minutes = whole 30;
    rounding_minutes = whole 15;
    rounding_mode = nearest;
  };
}

abbrev pub punch : String → String → AttendancePunch
punch id text = record { id = id; occurred_at = text; direction = unknown }

-- Day 7, from minute 10080 on: in at 9:00, the same punch again within the minute, out at 18:25,
-- and a punch far outside the window.
abbrev pub late_day : CalculationInput
late_day = record {
  organization_id = "acme";
  employee_id = "e1";
  date = "7";
  timezone = "Asia/Colombo";
  shift = some day_shift;
  punches = punch "c" "11185" ∷ punch "b" "10621" ∷ punch "a" "10620" ∷ punch "z" "20000" ∷ [];
  holiday = none;
  leave = none;
  approved_adjustments = [];
}

abbrev pub late_result : CalculationResult
late_result = record {
  organization_id = "acme";
  employee_id = "e1";
  date = "day";
  timezone = "Asia/Colombo";
  shift_id = some "NORMAL";
  shift_name = some "Normal Shift";
  scheduled_in = some "510";
  scheduled_out = some "1050";
  scheduled_in_at = some "instant";
  scheduled_out_at = some "instant";
  first_in = some "time";
  last_out = some "time";
  first_in_at = some "instant";
  last_out_at = some "instant";
  late_minutes = 30;
  early_leave_minutes = 0;
  worked_minutes = 505;
  overtime_minutes = 60;
  status = present;
  holiday_id = none;
  leave_id = none;
  has_manual_adjustment = false;
  adjustment_ids = [];
  source_event_ids = "a" ∷ "b" ∷ "c" ∷ [];
  exceptions = duplicate_punches_ignored ∷ late_arrival ∷ outside_shift_window_ignored ∷ [];
  calculation_version = "attendance-v2";
}

-- The whole calculation, run.
pub late_day_runs : calculate_attendance test_clock late_day ≡ ok late_result
unfolding calculate_attendance test_clock shift_window valid_shift select_punches split_window
    select_sorted punch_le drop_duplicates pick str_le sort apply_adjustments adjustment_le measure
    late_minutes early_leave_minutes worked_minutes overtime_minutes minutes_floor minutes_ceil
    derive_base_status status_after raise add_exception sorted_exceptions day_of
late_day_runs = refl
