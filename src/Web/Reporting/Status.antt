-- ===== src/Web/Reporting/Status.antt =====
-- `attendanceDisplayStatus` of web/src/lib/data/attendance-status.ts. `time_of` is
-- `new Date(text).getTime()`, which is `none` where that is not a finite number.
use attendence_system.Prelude.{ℕ, Bool, false, Option, none, some, String, ltb, if◌then◌else◌}
use attendence_system.Prelude.Text.{includes}
use attendence_system.Attendance.Types.{AttendanceStatus}
use attendence_system.Web.Reporting.{AttendanceDay}

pub data AttendanceDisplayStatus : Type 0 where
  settled : AttendanceStatus → AttendanceDisplayStatus
  checked_in missing_punch unscheduled_punch : AttendanceDisplayStatus

-- Whether there is still time until the scheduled end.
abbrev pub is_still_open : ℕ → Option ℕ → Bool
is_still_open now none = false
is_still_open now (some t) = ltb now t

abbrev pub scheduled_end : (String → Option ℕ) → Option String → Option ℕ
scheduled_end time_of none = none
scheduled_end time_of (some text) = time_of text

unfoldable pub attendance_display_status :
    (String → Option ℕ) → AttendanceDay → ℕ → AttendanceDisplayStatus
attendance_display_status time_of day now =
    if includes day.exceptions "worked_without_shift"
    then unscheduled_punch
    else if includes day.exceptions "missing_check_in"
    then missing_punch
    else if includes day.exceptions "missing_check_out"
    then (if is_still_open now (scheduled_end time_of day.scheduled_out_at)
        then checked_in
        else missing_punch)
    else settled day.status
