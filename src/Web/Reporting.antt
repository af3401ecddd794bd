-- ===== src/Web/Reporting.antt =====
-- `summarizeAttendance` of web/src/lib/data/reporting.ts, with the days of types.ts. Minutes are natural numbers,
-- a field that may be missing is null there, and `le` is the order of `localeCompare`.
pub mod Status
pub mod Laws
mod Witnesses
use attendence_system.Prelude.{
  ℕ, ◌+◌, Bool, true, false, List, [], ◌∷◌, Option, String, ltb, if◌then◌else◌,
}
use attendence_system.Prelude.Sort.{sort}
use attendence_system.Prelude.Text.{str_eq}
use attendence_system.Attendance.Types.{
  AttendanceStatus, present, absent, leave, holiday, rest_day, no_shift,
}

pub record AttendanceDay : Type 0 where
  pub id : String
  pub employee_id : String
  pub employee_code : String
  pub employee_name : String
  pub department_id : Option String
  pub department_name : String
  pub branch_id : Option String
  pub branch_name : String
  pub shift_id : Option String
  pub shift_name : String
  pub date : String
  pub scheduled_in : Option String
  pub scheduled_out : Option String
  pub scheduled_out_at : Option String
  pub first_in : Option String
  pub last_out : Option String
  pub worked_minutes : ℕ
  pub late_minutes : ℕ
  pub early_leave_minutes : ℕ
  pub overtime_minutes : ℕ
  pub status : AttendanceStatus
  pub exceptions : List String
  pub has_manual_adjustment : Bool
  pub shift_source : Option String
  pub shift_inference_confidence : Option String

pub record ReportSummaryRow : Type 0 where
  pub employee_id : String
  pub employee_code : String
  pub employee_name : String
  pub department_name : String
  pub working_days : ℕ
  pub present_days : ℕ
  pub absent_days : ℕ
  pub leave_days : ℕ
  pub late_days : ℕ
  pub total_late_minutes : ℕ
  pub early_leave_days : ℕ
  pub early_leave_minutes : ℕ
  pub overtime_minutes : ℕ
  pub total_worked_minutes : ℕ

abbrev pub new_row : AttendanceDay → ReportSummaryRow
new_row d = record {
  employee_id = d.employee_id;
  employee_code = d.employee_code;
  employee_name = d.employee_name;
  department_name = d.department_name;
  working_days = 0;
  present_days = 0;
  absent_days = 0;
  leave_days = 0;
  late_days = 0;
  total_late_minutes = 0;
  early_leave_days = 0;
  early_leave_minutes = 0;
  overtime_minutes = 0;
  total_worked_minutes = 0;
}

abbrev pub is_working : AttendanceStatus → Bool
is_working rest_day = false
is_working holiday = false
is_working no_shift = false
is_working _ = true

abbrev pub is_present : AttendanceStatus → Bool
is_present present = true
is_present _ = false

abbrev pub is_absent : AttendanceStatus → Bool
is_absent absent = true
is_absent _ = false

abbrev pub is_leave : AttendanceStatus → Bool
is_leave leave = true
is_leave _ = false

-- What `if (test) row.days++` adds.
abbrev pub one_if : Bool → ℕ
one_if b = if b then 1 else 0

-- The body of the loop.
abbrev pub add_day : AttendanceDay → ReportSummaryRow → ReportSummaryRow
add_day d row = record row {
  working_days = row.working_days + one_if (is_working d.status);
  present_days = row.present_days + one_if (is_present d.status);
  absent_days = row.absent_days + one_if (is_absent d.status);
  leave_days = row.leave_days + one_if (is_leave d.status);
  late_days = row.late_days + one_if (ltb 0 d.late_minutes);
  early_leave_days = row.early_leave_days + one_if (ltb 0 d.early_leave_minutes);
  total_late_minutes = row.total_late_minutes + d.late_minutes;
  early_leave_minutes = row.early_leave_minutes + d.early_leave_minutes;
  overtime_minutes = row.overtime_minutes + d.overtime_minutes;
  total_worked_minutes = row.total_worked_minutes + d.worked_minutes;
}

-- `rows.get` and `rows.set`: a map keeps the order in which its keys came.
unfoldable pub add_to : AttendanceDay → List ReportSummaryRow → List ReportSummaryRow
add_to d [] = add_day d (new_row d) ∷ []
add_to d (row ∷ rows) =
    let rest = add_to d rows in
    if str_eq row.employee_id d.employee_id then add_day d row ∷ rows else row ∷ rest

unfoldable pub collect : List ReportSummaryRow → List AttendanceDay → List ReportSummaryRow
unfolding add_to
collect rows [] = rows
collect rows (d ∷ ds) = collect (add_to d rows) ds

abbrev pub row_le : (String → String → Bool) → ReportSummaryRow → ReportSummaryRow → Bool
row_le le r q = le r.employee_name q.employee_name

unfoldable pub summarize_attendance :
    (String → String → Bool) → List AttendanceDay → List ReportSummaryRow
unfolding collect
summarize_attendance le days = sort (row_le le) (collect [] days)
