-- ===== src/Management/Employees.antt =====
-- `createEmployeeInFirestore` of cloud/functions/src/employees/management.ts; Department and
-- Enrollment are its other functions. `none` as input is one that the schema refuses; new
-- names are random in the source.
pub mod Department
pub mod Enrollment
pub mod Unique
pub mod Locked
mod Witnesses
use attendence_system.Prelude.{
  ℕ, ◌+◌, ◌*◌, ◌/◌, ◌≡◌, Bool, true, false, not, ◌&&◌, ◌||◌, List, [], ◌∷◌, Option, none, some,
  String, is_some, ◌==◌, if◌then◌else◌,
}
use attendence_system.Prelude.Result.{Result, ok, err, ◌>>=◌, ◌>>◌, throw_if, or_throw}
use attendence_system.Prelude.Text.{str_eq, append, codes, code_at, codes-append, differ_at}
use attendence_system.Attendance.Types.{whole}
use attendence_system.Billing.Entitlements.{Resource, employees}
use attendence_system.Documents.{
  Value, null, text, number, boolean, timestamp, Fields, no_fields, entry, get, is_text, is_boolean,
  Document, boolean_is, Place, field_of, Database,
}
use attendence_system.Recalculation.Fields.{nonempty_text}
use attendence_system.Ingest.Protocol.{to_lower_case}
use attendence_system.Ingest.Repository.{KeyHash}
use attendence_system.Management.Branches.{branch_place, is_gone}
use attendence_system.Management.Access.{
  CallError, invalid_argument, not_found, already_exists, failed_precondition, AuthContext,
  require_manager, check_creation_limit, in_collection, exists, create, committing,
}

pub record CreateEmployee : Type 0 where
  pub organization_id : String
  pub employee_code : String
  pub name : String
  pub branch_id : String
  pub department_id : Option String
  pub hire_date : Option String
  pub device_id : Option String

-- `employeeCodeKey`: the SHA-256 of the code in lower case. A code that the schema accepts is made of
-- ASCII characters, which are their own bytes.
abbrev pub employee_code_key : (List ℕ → String) → String → String
employee_code_key sha256_hex code = sha256_hex (to_lower_case code)

-- The random names: of the employee, the audit and the command.
pub record NewNames : Type 0 where
  pub employee : String
  pub audit : String
  pub command : String

pub record CreatedEmployee : Type 0 where
  pub employee_id : String
  pub command_id : Option String
  pub enrollment_id : Option String
  pub device_id : Option String
  pub organization_id : String

abbrev pub text_or_null : Option String → Value
text_or_null none = null
text_or_null (some s) = text s

-- `Timestamp.fromMillis(now.toMillis() + n)`
abbrev pub later_by : ℕ → ℕ → ℕ
later_by n now = (now / 1_000_000 + n) * 1_000_000

-- A device of the organization that is in use.
abbrev pub is_usable : String → Option Document → Bool
is_usable organization none = false
is_usable organization (some d) =
    is_text (get d.fields "organizationId") organization
    && is_text (get d.fields "state") "active"
    && is_boolean (get d.fields "enabled") true

abbrev with_text : String → Option String → Fields → Fields
with_text name none rest = rest
with_text name (some s) rest = entry name (text s) rest

-- `device.collection(c)`: the collections of a device are named by their paths.
abbrev pub device_collection : String → String → String
device_collection device c = append "devices/" (append device (append "/" c))

pub device_collection-apart :
    (device c t : String)
    → (115 == code_at (codes t) 6) ≡ false
    → str_eq (device_collection device c) t ≡ false
device_collection-apart device c t h =
    differ_at (device_collection device c) t 6
      (rw (codes-append "devices/" (append device (append "/" c))) h)

pub other-device_collection :
    (device c t : String)
    → (code_at (codes t) 6 == 115) ≡ false
    → str_eq t (device_collection device c) ≡ false
other-device_collection device c t h =
    differ_at t (device_collection device c) 6
      (rw (codes-append "devices/" (append device (append "/" c))) h)

abbrev pub identity_fields : String → Value → String → String → String → ℕ → String → Fields
identity_fields organization branch device code employee now uid =
    entry "organizationId" (text organization) (
      entry "branchId" branch (
        entry "deviceId" (text device) (
          entry "employeeNo" (text code) (
            entry "employeeId" (text employee) (
              entry "active" (boolean true)
                (entry "updatedAt" (timestamp now) (entry "updatedBy" (text uid) no_fields)))))))

module _ {S : Type 0} (db : Database S) (now : ℕ) where
  abbrev pub command_place : String → String → String → Place
  command_place organization device command =
      in_collection db now organization (device_collection device "commands") command

  abbrev pub lacks : S → String → String → Option String → Bool
  lacks s organization collection none = false
  lacks s organization collection (some id) =
      not (exists db now s (in_collection db now organization collection id))

module _ {S : Type 0} (db : Database S) (now : ℕ) (registry : S → String → Option Document)
    (key : KeyHash) (sha256_hex : List ℕ → String) where
  abbrev pub code_place : CreateEmployee → Place
  code_place i =
      in_collection db now i.organization_id "employeeCodeRegistry"
        (employee_code_key sha256_hex i.employee_code)

  abbrev check_device : CreateEmployee → S → Option String → Result CallError (Unit {0})
  check_device i s none = ok tt
  check_device i s (some device) =
      throw_if (not (is_usable i.organization_id (registry s device)))
        (not_found "The selected HikBridge device is not active in this organization")
      >> throw_if (not (is_text (field_of (registry s device) "branchId") i.branch_id))
          (failed_precondition "The selected terminal belongs to a different branch")

  -- The tests of the transaction, in order.
  unfoldable pub check_employee : CreateEmployee → S → Result CallError (Unit {0})
  check_employee i s =
      check_creation_limit db now s i.organization_id employees
        (db.size_of s i.organization_id "employees" (boolean_is "active" true ∷ []))
      >> (throw_if (exists db now s (code_place i))
            (already_exists "That employee code is already in use")
          >> (throw_if
                (is_gone db now (db.document s (branch_place db now i.organization_id i.branch_id)))
                (not_found "The selected branch is not active")
              >> (throw_if (lacks db now s i.organization_id "departments" i.department_id)
                    (not_found "The selected department does not exist")
                  >> check_device i s i.device_id)))

  abbrev employee_fields : CreateEmployee → String → Fields
  employee_fields i uid = entry "organizationId" (text i.organization_id) (
      entry "employeeCode" (text i.employee_code) (
        entry "name" (text i.name) (
          entry "branchId" (text i.branch_id) (
            entry "departmentId" (text_or_null i.department_id) (
              entry "status" (text "active") (
                entry "active" (boolean true) (
                  with_text "hireDate" i.hire_date (
                    entry "createdAt" (timestamp now) (
                      entry "createdBy" (text uid) (
                        entry "updatedAt" (timestamp now)
                          (entry "updatedBy" (text uid) no_fields)))))))))))

  abbrev code_fields : CreateEmployee → String → Fields
  code_fields i employee = entry "organizationId" (text i.organization_id) (
      entry "employeeId" (text employee)
        (entry "employeeCode" (text i.employee_code) (entry "createdAt" (timestamp now) no_fields)))

  abbrev creation_audit : CreateEmployee → String → String → Fields
  creation_audit i employee uid = entry "action" (text "employee_created") (
      entry "employeeId" (text employee) (
        entry "employeeCode" (text i.employee_code) (
          entry "branchId" (text i.branch_id) (
            entry "departmentId" (text_or_null i.department_id)
              (entry "actorId" (text uid) (entry "createdAt" (timestamp now) no_fields))))))

  abbrev user_command : CreateEmployee → String → String → String → Fields
  user_command i device employee uid = entry "organizationId" (text i.organization_id) (
      entry "branchId" (text i.branch_id) (
        entry "deviceId" (text device) (
          entry "type" (text "upsert_user") (
            entry "state" (text "queued") (
              entry "employeeId" (text employee) (
                entry "employeeNo" (text i.employee_code) (
                  entry "name" (text i.name) (
                    entry "attempts" (number (whole 0)) (
                      entry "createdAt" (timestamp now) (
                        entry "createdBy" (text uid) (
                          entry "expiresAt" (timestamp (later_by 86_400_000 now))
                            (entry "updatedAt" (timestamp now) no_fields))))))))))))

  abbrev user_enrollment : CreateEmployee → String → NewNames → Fields
  user_enrollment i device names = entry "organizationId" (text i.organization_id) (
      entry "branchId" (text i.branch_id) (
        entry "deviceId" (text device) (
          entry "employeeId" (text names.employee) (
            entry "employeeNo" (text i.employee_code) (
              entry "state" (text "user_pending") (
                entry "commandId" (text names.command) (
                  entry "lastError" null (
                    entry "createdAt" (timestamp now)
                      (entry "updatedAt" (timestamp now) no_fields)))))))))

  -- The block for a device: its identity, the command and the enrollment.
  abbrev pub write_device :
      CreateEmployee → NewNames → String → S → Option String → S → Result CallError S
  write_device i names uid s none w = ok w
  write_device i names uid s (some device) w =
      let name = key device i.employee_code in
      let w0 =
        db.merge (in_collection db now i.organization_id "deviceIdentities" name)
          (identity_fields i.organization_id (text i.branch_id) device i.employee_code
            names.employee now uid)
          w in
      create db now (command_place db now i.organization_id device names.command)
        (user_command i device names.employee uid) s w0
      >>= λ w1. ok (
          db.merge (in_collection db now i.organization_id "deviceEnrollments" name)
            (user_enrollment i device names) w1)

  abbrev enrollment_of : CreateEmployee → Option String → Option String
  enrollment_of i none = none
  enrollment_of i (some device) = some (key device i.employee_code)

  abbrev command_of : NewNames → Option String → Option String
  command_of names none = none
  command_of names (some device) = some names.command

  -- The transaction.
  unfoldable pub write_employee :
      CreateEmployee → NewNames → String → S → Result CallError (CreatedEmployee × S)
  unfolding check_employee
  write_employee i names uid s = do
    check_employee i s
    w0 ←
        create db now (in_collection db now i.organization_id "employees" names.employee)
          (employee_fields i uid) s s
    w1 ← create db now (code_place i) (code_fields i names.employee) s w0
    w2 ←
        create db now (in_collection db now i.organization_id "employeeCreationAudits" names.audit)
          (creation_audit i names.employee uid) s w1
    w3 ← write_device i names uid s i.device_id w2
    ok (
      record {
        employee_id = names.employee;
        command_id = command_of names i.device_id;
        enrollment_id = enrollment_of i i.device_id;
        device_id = i.device_id;
        organization_id = i.organization_id;
      },
      w3,
    )

  unfoldable pub create_employee :
      AuthContext → Option CreateEmployee → NewNames → S → Result CallError CreatedEmployee × S
  unfolding write_employee
  create_employee auth input names s = committing s (
      or_throw input (invalid_argument "Employee fields are invalid") >>= λ i.
      require_manager db now s auth i.organization_id >>= λ granted.
      write_employee i names auth.uid s)
