-- ===== src/Web/Reporting/Witnesses.antt =====
-- A report on three days of two employees.
use attendence_system.Prelude.{none, false, ◌≡◌, [], ◌∷◌, List, String}
use attendence_system.Prelude.Text.{str_le}
use attendence_system.Attendance.Types.{present, rest_day, AttendanceStatus}
use attendence_system.Web.Reporting.{AttendanceDay, summarize_attendance}
use attendence_system.Web.Reporting.Laws.{row_total, summarize_attendance-totals}

abbrev day_of : String → String → AttendanceStatus → AttendanceDay
day_of e name status = record {
  id = "";
  employee_id = e;
  employee_code = e;
  employee_name = name;
  department_id = none;
  department_name = "";
  branch_id = none;
  branch_name = "";
  shift_id = none;
  shift_name = "";
  date = "";
  scheduled_in = none;
  scheduled_out = none;
  scheduled_out_at = none;
  first_in = none;
  last_out = none;
  worked_minutes = 480;
  late_minutes = 5;
  early_leave_minutes = 0;
  overtime_minutes = 30;
  status = status;
  exceptions = [];
  has_manual_adjustment = false;
  shift_source = none;
  shift_inference_confidence = none;
}

abbrev reported : List AttendanceDay
reported =
    day_of "e1" "Nimal" present ∷ day_of "e2" "Amara" present ∷ day_of "e1" "Nimal" rest_day ∷ []

summarize_attendance-totals_example :
    row_total (λ r. r.total_worked_minutes) "e1" (summarize_attendance str_le reported) ≡ 960
summarize_attendance-totals_example = (summarize_attendance-totals str_le "e1" reported).0
