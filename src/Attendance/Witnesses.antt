-- ===== src/Attendance/Witnesses.antt =====
-- The theorems of the attendance calculation, at the day of Examples.
use mathlib.Core.List.{Perm}
use attendence_system.Prelude.{
  ℕ, ◌+◌, ◌*◌, ◌≤◌, ◌<◌, ◌≡◌, refl, ◌⊎◌, ◌||◌, Bool, true, false, List, [], ◌∷◌, none, some, String,
  arith, filter, length, is_some,
}
use attendence_system.Prelude.Result.{ok}
use attendence_system.Attendance.Types.{
  present, first_last, late_arrival, invalid_punch_order, set_first_in, clear_first_in, set_status,
  leave, ManualAdjustment,
}
use attendence_system.Attendance.Clock.{minute}
use attendence_system.Attendance.Window.{ShiftWindow}
use attendence_system.Attendance.Selection.{
  Seen, PunchSelection, drop_duplicates, select_punches, split_window, select_sorted, punch_le,
  pick,
}
use attendence_system.Attendance.Selection.Duplicates.{drop_duplicates-burst_heads, burst_heads}
use attendence_system.Attendance.Selection.Laws.{
  select_punches-accounts, select_punches-InWindow, counts_in, InWindow,
}
use attendence_system.Attendance.Overtime.{overtime_minutes-Rounds, Rounds}
use attendence_system.Attendance.Minutes.{overtime_minutes, minutes_ceil, minutes_floor}
use attendence_system.Attendance.Adjustments.{
  Adjusted, apply_adjustments, apply_adjustments-FollowsLast,
}
use attendence_system.Attendance.Exceptions.{has}
use attendence_system.Attendance.Engine.{
  Measured, measure, late_minutes, early_leave_minutes, worked_minutes,
}
use attendence_system.Attendance.Engine.Status.{calculate_attendance-status}
use attendence_system.Attendance.Engine.Day.{
  calculate_attendance-exceptions, calculate_attendance-worked, calculate_attendance-InOrder,
}
use attendence_system.Attendance.Examples.{
  test_clock, day_shift, late_day, late_result, late_day_runs, punch,
}
use attendence_system.Prelude.Sort.{sort}
use attendence_system.Prelude.Text.{str_le}

abbrev seen : String → ℕ → Seen
seen id t = record { punch = punch id "0"; at = t * minute }

abbrev burst : List Seen
burst = seen "a" 600 ∷ seen "b" 601 ∷ seen "c" 602 ∷ seen "d" 700 ∷ []

drop_duplicates-burst_heads_example :
    (drop_duplicates first_last (λ g. none) burst).0 ≡ seen "a" 600 ∷ seen "d" 700 ∷ []
unfolding burst_heads
drop_duplicates-burst_heads_example = drop_duplicates-burst_heads first_last burst (omega arith)

abbrev day_window : ShiftWindow
day_window = record {
  start = 10590 * minute;
  end = 11130 * minute;
  earliest_punch = 10230 * minute;
  latest_punch = 11850 * minute;
}

abbrev selected : PunchSelection
selected = record {
  first_in = some (10620 * minute);
  last_out = some (11185 * minute);
  source_event_ids = "a" ∷ "b" ∷ "c" ∷ [];
  duplicate_count = 1;
  ignored_outside_window = 1;
}

selects : select_punches test_clock late_day.punches first_last day_window ≡ ok selected
unfolding test_clock select_punches split_window select_sorted punch_le drop_duplicates pick str_le
    sort
selects = refl

select_punches-accounts_example :
    Perm {A = String} ("a" ∷ "b" ∷ "c" ∷ []) ("c" ∷ "b" ∷ "a" ∷ [])
    × (length (filter (counts_in test_clock day_window) late_day.punches) + 1 ≡ 4)
unfolding counts_in test_clock
select_punches-accounts_example =
    select_punches-accounts test_clock late_day.punches first_last day_window selected selects

select_punches-InWindow_example :
    InWindow day_window (10620 * minute) × InWindow day_window (11185 * minute)
select_punches-InWindow_example =
    select_punches-InWindow test_clock late_day.punches first_last day_window selected selects

overtime_minutes-Rounds_example :
    (((true ≡ false) ⊎ (55 < 30)) × (overtime_minutes 55 day_shift.overtime ≡ 0))
    ⊎ ((◌≡◌ {A = Bool} true true)
        × (30 ≤ 55)
        × (15 ≤ 1)
        × (overtime_minutes 55 day_shift.overtime ≡ 55))
    ⊎ ((◌≡◌ {A = Bool} true true)
        × (30 ≤ 55)
        × (1 < 15)
        × Rounds day_shift.overtime.rounding_mode 15 55 (overtime_minutes 55 day_shift.overtime))
overtime_minutes-Rounds_example = overtime_minutes-Rounds 55 day_shift.overtime

abbrev corrections : List ManualAdjustment
corrections =
    record { id = "1"; kind = set_first_in "10500"; approved_at = none }
    ∷ record { id = "2"; kind = set_status leave; approved_at = none }
    ∷ record { id = "3"; kind = clear_first_in; approved_at = none }
    ∷ []

abbrev uncorrected : Adjusted
uncorrected = record { first_in = some 1; last_out = some 2; status = present }

abbrev corrected : Adjusted
corrected = record { first_in = none; last_out = some 2; status = leave }

apply_adjustments-FollowsLast_example :
    (corrected.first_in ≡ none) × (corrected.last_out ≡ some 2) × (corrected.status ≡ leave)
unfolding apply_adjustments test_clock
apply_adjustments-FollowsLast_example =
    apply_adjustments-FollowsLast test_clock uncorrected corrected corrections refl

calculate_attendance-status_example :
    (is_some late_result.first_in_at || is_some late_result.last_out_at) ≡ true
unfolding test_clock sort
calculate_attendance-status_example =
    calculate_attendance-status test_clock late_day late_result late_day_runs 7 refl

calculate_attendance-exceptions_example : has late_arrival late_result.exceptions ≡ true
calculate_attendance-exceptions_example =
    (calculate_attendance-exceptions test_clock late_day late_result late_day_runs).2

calculate_attendance-worked_example :
    (is_some late_result.first_in_at ≡ true)
    × (is_some late_result.last_out_at ≡ true)
    × (has invalid_punch_order late_result.exceptions ≡ false)
calculate_attendance-worked_example =
    calculate_attendance-worked test_clock late_day late_result late_day_runs (omega arith)

calculate_attendance-InOrder_example : has invalid_punch_order late_result.exceptions ≡ false
calculate_attendance-InOrder_example =
    calculate_attendance-InOrder test_clock late_day late_result late_day_runs refl refl

abbrev measured : Measured
measured = record { late = 30; early_leave = 30; worked = 420; overtime = 0 }

measures :
    measure test_clock (some day_shift) day_window (some (10620 * minute)) (some (11100 * minute))
    ≡ ok measured
unfolding test_clock measure late_minutes early_leave_minutes worked_minutes overtime_minutes
    minutes_floor minutes_ceil
measures = refl
