-- ===== src/Management/Employees/Department.antt =====
-- `updateEmployeeDepartmentInFirestore` of cloud/functions/src/employees/management.ts.
use attendence_system.Prelude.{ℕ, Bool, true, false, Option, none, some, String}
use attendence_system.Prelude.Result.{Result, ok, ◌>>=◌, ◌>>◌, throw_if, or_throw}
use attendence_system.Prelude.Text.{str_eq}
use attendence_system.Documents.{
  text, timestamp, Fields, no_fields, entry, Document, Place, field_of, Database,
}
use attendence_system.Recalculation.Fields.{nonempty_text}
use attendence_system.Management.Access.{
  CallError, invalid_argument, not_found, failed_precondition, AuthContext, require_manager,
  in_collection, create, committing,
}
use attendence_system.Management.Branches.{is_gone}
use attendence_system.Management.Employees.{text_or_null, lacks}

pub record UpdateDepartment : Type 0 where
  pub organization_id : String
  pub employee_id : String
  pub department_id : Option String
  pub reason : String

-- `a === b` on texts that may be null
abbrev pub same_text : Option String → Option String → Bool
same_text none none = true
same_text (some s) (some t) = str_eq s t
same_text _ _ = false

module _ {S : Type 0} (db : Database S) (now : ℕ) where
  abbrev pub employee_place : String → String → Place
  employee_place organization employee = in_collection db now organization "employees" employee

  -- `previousDepartmentId`
  abbrev pub department_of : Option Document → Option String
  department_of employee = nonempty_text (field_of employee "departmentId")

  abbrev pub department_fields : UpdateDepartment → String → Fields
  department_fields i uid =
      entry "departmentId" (text_or_null i.department_id)
        (entry "updatedAt" (timestamp now) (entry "updatedBy" (text uid) no_fields))

  abbrev department_audit : UpdateDepartment → Option String → String → Fields
  department_audit i previous uid = entry "action" (text "employee_department_changed") (
      entry "employeeId" (text i.employee_id) (
        entry "fromDepartmentId" (text_or_null previous) (
          entry "toDepartmentId" (text_or_null i.department_id) (
            entry "reason" (text i.reason)
              (entry "actorId" (text uid) (entry "createdAt" (timestamp now) no_fields))))))

  -- The transaction, whose last argument is the employee that it reads.
  unfoldable pub change_department :
      UpdateDepartment → String → String → S → Option Document → Result CallError S
  change_department i uid audit s employee =
      throw_if (is_gone db now employee) (not_found "The selected employee is not active")
      >> (throw_if (lacks db now s i.organization_id "departments" i.department_id)
            (not_found "The selected department does not exist")
          >> (throw_if (same_text (department_of employee) i.department_id)
                (failed_precondition "The employee is already assigned to that department")
              >> create db now
                  (in_collection db now i.organization_id "employeeDepartmentChangeAudits" audit)
                  (department_audit i (department_of employee) uid) s
                  (db.merge (employee_place i.organization_id i.employee_id)
                    (department_fields i uid) s)))

  unfoldable pub update_employee_department :
      AuthContext
      → Option UpdateDepartment
      → String
      → S
      → Result CallError (String × Option String) × S
  unfolding change_department
  update_employee_department auth input audit s = committing s (
      or_throw input (invalid_argument "Department assignment fields are invalid") >>= λ i.
      require_manager db now s auth i.organization_id >>= λ granted.
      change_department i auth.uid audit s
        (db.document s (employee_place i.organization_id i.employee_id))
      >>= λ w. ok ((i.employee_id, i.department_id), w))
