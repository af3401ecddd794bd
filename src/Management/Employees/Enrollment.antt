-- ===== src/Management/Employees/Enrollment.antt =====
-- `queueFingerprintEnrollment` of cloud/functions/src/employees/management.ts. `is_code` is what
-- `employeeCodeSchema` accepts.
use attendence_system.Prelude.{
  ℕ, ◌/◌, Bool, false, not, Option, none, some, String, ltb, if◌then◌else◌,
}
use attendence_system.Prelude.Result.{Result, ok, err, ◌>>=◌, ◌>>◌, throw_if, or_throw}
use attendence_system.Prelude.Text.{is_empty}
use attendence_system.Attendance.Types.{whole}
use attendence_system.Documents.{
  Value, null, text, number, timestamp, Fields, no_fields, entry, as_text, is_text, Document, Place,
  field_of, Database,
}
use attendence_system.Ingest.Repository.{KeyHash}
use attendence_system.Management.Access.{
  CallError, invalid_argument, not_found, failed_precondition, internal_error, AuthContext,
  require_manager, in_collection, create, committing,
}
use attendence_system.Management.Branches.{is_gone}
use attendence_system.Management.Employees.{
  is_usable, later_by, identity_fields, device_collection, command_place,
}
use attendence_system.Management.Employees.Department.{employee_place}

pub record RequestEnrollment : Type 0 where
  pub organization_id : String
  pub employee_id : String
  pub device_id : String
  pub finger_print_id : ℕ

pub record QueuedEnrollment : Type 0 where
  pub command_id : String
  pub employee_id : String
  pub device_id : String
  pub organization_id : String
  pub enrollment_id : String

-- `employeeNo`, `name` and `branchId` of the employee.
pub record Enrolled : Type 0 where
  pub employee_no : String
  pub name : String
  pub branch_id : String

-- A lock that has not run out, by the milliseconds of the two times.
abbrev pub is_live : ℕ → Value → Bool
is_live now (timestamp t) = ltb (now / 1_000_000) (t / 1_000_000)
is_live now _ = false

abbrev pub command_fields : ℕ → RequestEnrollment → Enrolled → String → Fields
command_fields now i e uid = entry "organizationId" (text i.organization_id) (
    entry "branchId" (text e.branch_id) (
      entry "deviceId" (text i.device_id) (
        entry "type" (text "enroll_fingerprint") (
          entry "state" (text "queued") (
            entry "employeeId" (text i.employee_id) (
              entry "employeeNo" (text e.employee_no) (
                entry "name" (text e.name) (
                  entry "fingerPrintId" (number (whole i.finger_print_id)) (
                    entry "attempts" (number (whole 0)) (
                      entry "createdAt" (timestamp now) (
                        entry "createdBy" (text uid) (
                          entry "expiresAt" (timestamp (later_by 300_000 now))
                            (entry "updatedAt" (timestamp now) no_fields)))))))))))))

abbrev pub lock_fields : ℕ → RequestEnrollment → String → Fields
lock_fields now i command = entry "organizationId" (text i.organization_id) (
    entry "deviceId" (text i.device_id) (
      entry "commandId" (text command) (
        entry "employeeId" (text i.employee_id) (
          entry "expiresAt" (timestamp (later_by 300_000 now))
            (entry "updatedAt" (timestamp now) no_fields)))))

abbrev pub enrollment_fields : ℕ → RequestEnrollment → Enrolled → String → String → Fields
enrollment_fields now i e command uid = entry "organizationId" (text i.organization_id) (
    entry "branchId" (text e.branch_id) (
      entry "deviceId" (text i.device_id) (
        entry "employeeId" (text i.employee_id) (
          entry "employeeNo" (text e.employee_no) (
            entry "state" (text "queued") (
              entry "commandId" (text command) (
                entry "fingerPrintId" (number (whole i.finger_print_id)) (
                  entry "lastError" null (
                    entry "requestedAt" (timestamp now) (
                      entry "requestedBy" (text uid)
                        (entry "updatedAt" (timestamp now) no_fields)))))))))))

module _ {S : Type 0} (db : Database S) (now : ℕ) (registry : S → String → Option Document)
    (key : KeyHash) (is_code : String → Bool) where
  abbrev pub lock_place : RequestEnrollment → Place
  lock_place i =
      in_collection db now i.organization_id (device_collection i.device_id "commandLocks")
        "fingerprint"

  abbrev incompatible : CallError
  incompatible = failed_precondition "Employee data is not compatible with this Hikvision terminal"

  unfoldable pub enrolled : Option Document → Result CallError Enrolled
  enrolled employee = do
    throw_if (is_gone db now employee) (not_found "The selected employee is not active")
    code ← or_throw (as_text (field_of employee "employeeCode")) incompatible
    throw_if (not (is_code code)) incompatible
    name ← or_throw (as_text (field_of employee "name")) incompatible
    branch ← or_throw (as_text (field_of employee "branchId")) incompatible
    ok (record { employee_no = code; name = name; branch_id = branch })

  -- The tests of the device and of its lock.
  unfoldable pub check_terminal : RequestEnrollment → Enrolled → S → Result CallError (Unit {0})
  check_terminal i e s =
      throw_if (not (is_usable i.organization_id (registry s i.device_id)))
        (not_found "The selected HikBridge device is not active in this organization")
      >> (throw_if (not (is_text (field_of (registry s i.device_id) "branchId") e.branch_id))
            (failed_precondition "The selected terminal belongs to a different branch")
          >> throw_if (is_live now (field_of (db.document s (lock_place i)) "expiresAt")) (
              failed_precondition
                "Another fingerprint enrollment is already active on this terminal"))

  unfoldable pub write_queued :
      RequestEnrollment → Enrolled → String → String → S → Result CallError (String × S)
  write_queued i e uid command s =
      let name = key i.device_id e.employee_no in
      let w0 =
        db.merge (in_collection db now i.organization_id "deviceIdentities" name)
          (identity_fields i.organization_id (text e.branch_id) i.device_id e.employee_no
            i.employee_id now uid)
          s in
      create db now (command_place db now i.organization_id i.device_id command)
        (command_fields now i e uid) s w0
      >>= λ w1. ok (
        name,
        db.merge (in_collection db now i.organization_id "deviceEnrollments" name)
            (enrollment_fields now i e command uid)
            (db.write (lock_place i) (lock_fields now i command) w1),
      )

  -- The transaction.
  unfoldable pub write_enrollment :
      RequestEnrollment → String → String → S → Result CallError (String × S)
  unfolding enrolled check_terminal write_queued
  write_enrollment i uid command s = do
    e ← enrolled (db.document s (employee_place db now i.organization_id i.employee_id))
    check_terminal i e s
    write_queued i e uid command s

  -- The test after the transaction, which keeps what it wrote.
  abbrev pub queued_answer :
      RequestEnrollment → String → Result CallError String → Result CallError QueuedEnrollment
  queued_answer i command (err e) = err e
  queued_answer i command (ok name) =
      if is_empty name
      then err (internal_error "Enrollment transaction did not produce an identity key")
      else ok (record {
        command_id = command;
        employee_id = i.employee_id;
        device_id = i.device_id;
        organization_id = i.organization_id;
        enrollment_id = name;
      })

  unfoldable pub queue_for :
      AuthContext → RequestEnrollment → String → S → Result CallError QueuedEnrollment × S
  unfolding write_enrollment
  queue_for auth i command s =
      let done = committing s (
        require_manager db now s auth i.organization_id >>= λ granted.
        write_enrollment i auth.uid command s) in
      (queued_answer i command done.0, done.1)

  unfoldable pub queue_fingerprint_enrollment :
      AuthContext → Option RequestEnrollment → String → S → Result CallError QueuedEnrollment × S
  unfolding queue_for
  queue_fingerprint_enrollment auth none command s =
      (err (invalid_argument "Fingerprint enrollment fields are invalid"), s)
  queue_fingerprint_enrollment auth (some i) command s = queue_for auth i command s
