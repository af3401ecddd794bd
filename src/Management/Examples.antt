-- ===== src/Management/Examples.antt =====
-- An organization that is managed by an HR administrator.
use attendence_system.Prelude.{true, false, [], ◌∷◌, none, some, String}
use attendence_system.Attendance.Types.{whole, from_shift_start, first_last, floor}
use attendence_system.Documents.{text, number, object, Fields, no_fields, entry}
use attendence_system.Recalculation.Memory.{Memory, Stored}
use attendence_system.Recalculation.Examples.{at, shift_fields}
use attendence_system.Management.Access.{AuthContext}
use attendence_system.Management.Shifts.{SaveShift}
use attendence_system.Management.Assignments.{AssignShift}
use attendence_system.Management.Inferences.{Resolution, confirm, reject}

abbrev pub manager : AuthContext
manager = record { uid = "u1"; platform_admin = false }

abbrev pub stored : String → String → Fields → Stored
stored collection name fields = record { place = at collection name; fields = fields }

abbrev limit : String → Fields → Fields
limit name rest = entry name (number (whole 10)) rest

abbrev limits : Fields
limits =
    limit "employees"
      (limit "devices" (limit "branches" (limit "adminUsers" (limit "historyYears" no_fields))))

abbrev pub managed : Memory
managed = record {
  organizations = λ o. some (record {
    id = o;
    path = o;
    fields =
        entry "timezone" (text "Asia/Colombo") (entry "primaryBranchId" (text "main") no_fields);
  });
  documents =
      stored "members" "u1" (entry "role" (text "hrAdmin") no_fields)
      ∷ stored "subscription" "current"
          (entry "accessStatus" (text "active") (entry "limits" (object limits) no_fields))
      ∷ stored "employees" "e1" (entry "branchId" (text "main") no_fields)
      ∷ stored "branches" "north" (entry "status" (text "active") no_fields)
      ∷ stored "shifts" "NORMAL" shift_fields
      ∷ stored "shiftAssignments" "a1" (
          entry "employeeId" (text "e1") (
            entry "effectiveFrom" (text "2024-01-01")
              (entry "effectiveTo" (text "2024-01-31") no_fields)))
      ∷ stored "shiftInferences" "e1_7" (
          entry "state" (text "review_required")
            (entry "employeeId" (text "e1") (entry "date" (text "7") no_fields)))
      ∷ [];
}

abbrev pub night_shift : SaveShift
night_shift = record {
  organization_id = "acme";
  shift_id = "NIGHT";
  name = "Night";
  start_time = "22:00";
  end_time = "06:00";
  working_days = 5 ∷ 1 ∷ 5 ∷ [];
  grace_period_minutes = 10;
  late_calculation_mode = from_shift_start;
  break_minutes = 30;
  punch_mode = first_last;
  early_leave_grace_minutes = 5;
  overtime_enabled = true;
  overtime_start_delay_minutes = 0;
  overtime_minimum_minutes = 30;
  overtime_rounding_minutes = 15;
  overtime_rounding_mode = floor;
  active = true;
  recalculate_from = "2024-02-01";
  reason = "new shift";
}

abbrev pub february : AssignShift
february = record {
  organization_id = "acme";
  employee_id = "e1";
  shift_id = "NORMAL";
  effective_from = "2024-02-01";
  effective_to = none;
  reason = "moved";
}

abbrev pub confirmation : Resolution
confirmation = record {
  organization_id = "acme";
  inference_id = "e1_7";
  decision = confirm;
  shift_id = some "NORMAL";
  reason = "seen";
}

abbrev pub rejection : Resolution
rejection = record confirmation { decision = reject; shift_id = none }
