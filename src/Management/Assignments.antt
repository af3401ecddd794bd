-- ===== src/Management/Assignments.antt =====
-- Assignments of shifts: `assignEmployeeShift` of cloud/functions/src/shifts/management.ts. `none` as
-- input is one that the schema refuses; the new names are random in the source.
pub mod Laws
use attendence_system.Prelude.{
  ℕ, ◌≡◌, Bool, true, false, not, ◌&&◌, ◌||◌, List, [], ◌∷◌, Option, none, some, String, any,
  get_or, leb, ◌==◌, if◌then◌else◌,
}
use attendence_system.Prelude.Result.{Result, ok, err, ◌>>=◌, ◌>>◌, throw_if, or_throw}
use attendence_system.Prelude.Sort.{sort}
use attendence_system.Prelude.Text.{str_le}
use attendence_system.Attendance.Types.{
  Number, whole, LateCalculationMode, from_shift_start, after_grace, PunchMode, first_last,
  explicit_status, OvertimeRoundingMode, no_rounding, floor, nearest, ceil,
}
use attendence_system.Documents.{
  Value, null, text, number, boolean, timestamp, array, object, Values, no_values, value, Fields,
  no_fields, entry, get, as_text, is_boolean, Document, text_is, by_name, Place, field_of, data_of,
  Database,
}
use attendence_system.Recalculation.Fields.{nonempty_text}
use attendence_system.Management.Access.{
  create, CallError, invalid_argument, not_found, already_exists, failed_precondition,
  document_exists, AuthContext, require_authentication, require_manager, in_collection, exists,
  committing,
}
use attendence_system.Management.Shifts.{organization_today, shift_place}

-- What `assignmentSchema` gives.
pub record AssignShift : Type 0 where
  pub organization_id : String
  pub employee_id : String
  pub shift_id : String
  pub effective_from : String
  pub effective_to : Option String
  pub reason : String

module _ {S : Type 0} (db : Database S) (now : ℕ) where
  abbrev pub last_day : String
  last_day = "9999-12-31"

  abbrev pub overlaps_from : Option String → Value → String → Option String → Bool
  overlaps_from none to from_date to_date = false
  overlaps_from (some from') to from_date to_date =
      str_le from' (get_or to_date last_day) && str_le from_date (get_or (as_text to) last_day)

  -- The test on an assignment that is there.
  unfoldable pub overlaps : AssignShift → Document → Bool
  overlaps i d =
      overlaps_from (as_text (get d.fields "effectiveFrom")) (get d.fields "effectiveTo")
        i.effective_from i.effective_to

  abbrev text_or_null : Option String → Value
  text_or_null none = null
  text_or_null (some s) = text s

  unfoldable pub assignment_data : AssignShift → String → Fields
  assignment_data i uid = entry "employeeId" (text i.employee_id) (
      entry "shiftId" (text i.shift_id) (
        entry "effectiveFrom" (text i.effective_from) (
          entry "effectiveTo" (text_or_null i.effective_to) (
            entry "reason" (text i.reason)
              (entry "createdAt" (timestamp now) (entry "createdBy" (text uid) no_fields))))))

  abbrev assignment_audit : AssignShift → String → String → Fields
  assignment_audit i uid id = entry "assignmentId" (text id) (
      entry "action" (text "created") (
        entry "assignment" (object (assignment_data i uid)) (
          entry "actorId" (text uid)
            (entry "reason" (text i.reason) (entry "createdAt" (timestamp now) no_fields)))))

  abbrev assignment_job : AssignShift → String → String → Fields
  assignment_job i uid today =
      let end = get_or i.effective_to today in
      entry "type" (text "employee_date_range") (
        entry "employeeId" (text i.employee_id) (
          entry "startDate" (text i.effective_from) (
            entry "endDate" (text end) (
              entry "cursorDate" (text i.effective_from) (
                entry "state"
                  (text (if str_le i.effective_from end then "pending" else "completed"))
                  (entry "createdAt" (timestamp now) (entry "createdBy" (text uid) no_fields)))))))

  -- The assignments that the transaction reads.
  abbrev pub existing_of : AssignShift → S → List Document
  existing_of i s =
      db.query s i.organization_id "shiftAssignments" (text_is "employeeId" i.employee_id ∷ [])
        by_name 100

  abbrev pub is_inactive : Option Document → Bool
  is_inactive none = true
  is_inactive (some d) = is_boolean (get d.fields "active") false

  abbrev pub assignment_place : String → String → Place
  assignment_place organization id = in_collection db now organization "shiftAssignments" id

  -- The tests of the transaction.
  unfoldable pub check_assignment : AssignShift → S → Result CallError (Unit {0})
  unfolding overlaps
  check_assignment i s =
      throw_if
        (not (exists db now s (in_collection db now i.organization_id "employees" i.employee_id)))
        (not_found "Employee does not exist")
      >> (throw_if (is_inactive (db.document s (shift_place db now i.organization_id i.shift_id)))
            (not_found "Active shift does not exist")
          >> throw_if (any (overlaps i) (existing_of i s))
              (already_exists "Employee already has a shift assignment in this date range"))

  -- The transaction of `assignEmployeeShift`.
  unfoldable pub write_assignment :
      AssignShift → String → String → String → String → S → Result CallError (String × S)
  unfolding assignment_data check_assignment
  write_assignment i uid id job today s = do
    check_assignment i s
    w0 ← create db now (assignment_place i.organization_id id) (assignment_data i uid) s s
    w1 ←
        create db now (in_collection db now i.organization_id "shiftAssignmentAudits" id)
          (assignment_audit i uid id) s w0
    w2 ←
        create db now (in_collection db now i.organization_id "recalculationJobs" job)
          (assignment_job i uid today) s w1
    ok (id, w2)

  unfoldable pub assign_employee_shift :
      Option AuthContext
      → Option AssignShift
      → String
      → String
      → (String → String)
      → S
      → Result CallError String × S
  unfolding write_assignment
  assign_employee_shift caller input id job today s = committing s (
      require_authentication caller >>= λ auth.
      or_throw input (invalid_argument "Shift assignment fields are invalid") >>= λ i.
      require_manager db now s auth i.organization_id >>= λ granted.
      organization_today db now s today i.organization_id >>= λ date.
      write_assignment i auth.uid id job date s)
