-- ===== src/Attendance/Engine/Raised.antt =====
-- Which exceptions the engine raises.
use attendence_system.Prelude.{
  ℕ, ◌≡◌, refl, Bool, true, false, not, ◌&&◌, ◌||◌, Option, ltb, is_some,
}
use attendence_system.Prelude.Sort.{IsSorted}
use attendence_system.Prelude.Text.{str_le}
use attendence_system.Attendance.Types.{
  CalculationInput, AttendanceException, duplicate_punches_ignored, early_arrival, early_leave,
  invalid_punch_order, late_arrival, missing_check_in, missing_check_out,
  outside_shift_window_ignored, worked_on_holiday, worked_on_leave, worked_on_rest_day,
  worked_without_shift,
}
use attendence_system.Attendance.Window.{ShiftWindow}
use attendence_system.Attendance.Selection.{PunchSelection}
use attendence_system.Attendance.Exceptions.{
  has, spelling, has-add_exception, has-sorted_exceptions, sorted_exceptions-IsSorted,
}
use attendence_system.Attendance.Engine.{Measured, if_both, if_there, raise}

or-false : (b : Bool) → (b || false) ≡ b
or-false true = refl
or-false false = refl

module _ (input : CalculationInput) (w : ShiftWindow) (selected : PunchSelection)
    (is_working_day : Bool) (i o : Option ℕ) (m : Measured) where
  -- When each exception applies.
  abbrev pub applies : AttendanceException → Bool
  applies duplicate_punches_ignored = ltb 0 selected.duplicate_count
  applies outside_shift_window_ignored = ltb 0 selected.ignored_outside_window
  applies missing_check_in = not (is_some i) && is_some o
  applies missing_check_out = is_some i && not (is_some o)
  applies invalid_punch_order = if_both i o (λ a b. ltb b a)
  applies early_arrival = is_some input.shift && if_there i (λ a. ltb a w.start)
  applies late_arrival = ltb 0 m.late
  applies early_leave = ltb 0 m.early_leave
  applies worked_on_holiday = (is_some i || is_some o) && is_some input.holiday
  applies worked_on_leave = (is_some i || is_some o) && is_some input.leave
  applies worked_on_rest_day = (is_some i || is_some o) && is_some input.shift && not is_working_day
  applies worked_without_shift = (is_some i || is_some o) && not (is_some input.shift)

  -- The set holds each exception exactly when its condition holds.
  pub has-raise :
      (e : AttendanceException) → has e (raise input w selected is_working_day i o m) ≡ applies e
  unfolding raise
  has-raise duplicate_punches_ignored = simp (has-sorted_exceptions, has-add_exception, or-false)
  has-raise early_arrival = simp (has-sorted_exceptions, has-add_exception, or-false)
  has-raise early_leave = simp (has-sorted_exceptions, has-add_exception, or-false)
  has-raise invalid_punch_order = simp (has-sorted_exceptions, has-add_exception, or-false)
  has-raise late_arrival = simp (has-sorted_exceptions, has-add_exception, or-false)
  has-raise missing_check_in = simp (has-sorted_exceptions, has-add_exception, or-false)
  has-raise missing_check_out = simp (has-sorted_exceptions, has-add_exception, or-false)
  has-raise outside_shift_window_ignored = simp (has-sorted_exceptions, has-add_exception, or-false)
  has-raise worked_on_holiday = simp (has-sorted_exceptions, has-add_exception, or-false)
  has-raise worked_on_leave = simp (has-sorted_exceptions, has-add_exception, or-false)
  has-raise worked_on_rest_day = simp (has-sorted_exceptions, has-add_exception, or-false)
  has-raise worked_without_shift = simp (has-sorted_exceptions, has-add_exception, or-false)

  pub raise-IsSorted :
      IsSorted
        (λ a b. str_le (spelling a) (spelling b))
        (raise input w selected is_working_day i o m)
  unfolding raise
  raise-IsSorted = sorted_exceptions-IsSorted _
