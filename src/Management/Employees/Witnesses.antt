-- ===== src/Management/Employees/Witnesses.antt =====
-- The theorems of the employee functions, with a terminal at the branch.
use attendence_system.Prelude.{
  ℕ, List, [], inl, inr, ◌≡◌, refl, true, arith, ◌∷◌, none, some, String, Option, Bool,
}
use attendence_system.Prelude.Result.{ok}
use attendence_system.Prelude.Text.{append, decimal_text}
use attendence_system.Billing.Entitlements.{
  entitlement_from_data, limits_from, assert_active, assert_creation_within_limit,
}
use attendence_system.Documents.{text, boolean, Document, entry, no_fields}
use attendence_system.Recalculation.Memory.{Memory, memory}
use attendence_system.Management.Access.{
  require_active_subscription, require_organization_role, check_creation_limit,
}
use attendence_system.Management.Examples.{manager, managed, stored}
use attendence_system.Management.Employees.{
  CreateEmployee, CreatedEmployee, NewNames, check_employee, write_employee, create_employee,
}
use attendence_system.Management.Employees.Unique.{create_employee_unique}
use attendence_system.Management.Employees.Enrollment.{
  RequestEnrollment, QueuedEnrollment, enrolled, check_terminal, write_queued, write_enrollment,
  queue_for, queue_fingerprint_enrollment,
}
use attendence_system.Management.Employees.Locked.{queue_fingerprint_enrollment-exclusive}

abbrev terminal : Memory → String → Option Document
terminal s device = some (record {
  id = device;
  path = device;
  fields = entry "organizationId" (text "acme") (
      entry "state" (text "active")
        (entry "enabled" (boolean true) (entry "branchId" (text "north") no_fields)));
})

abbrev key : String → String → String
key device code = append device code

-- A stand-in for the hash, which tells apart the codes of the example.
abbrev spelled : List ℕ → String
spelled [] = ""
spelled (c ∷ s) = append (decimal_text c) (append "." (spelled s))

abbrev any_code : String → Bool
any_code code = true

abbrev nimal : CreateEmployee
nimal = record {
  organization_id = "acme";
  employee_code = "a7";
  name = "Nimal";
  branch_id = "north";
  department_id = none;
  hire_date = some "2024-03-01";
  device_id = some "d1";
}

abbrev amara : CreateEmployee
amara = record nimal { name = "Amara"; employee_code = "A7"; device_id = none }

abbrev names : NewNames
names = record { employee = "n1"; audit = "a1"; command = "c1" }

abbrev created : CreatedEmployee
created = record {
  employee_id = "n1";
  command_id = some "c1";
  enrollment_id = some "d1a7";
  device_id = some "d1";
  organization_id = "acme";
}

creates :
    (create_employee memory 0 terminal key spelled manager (some nimal) names managed).0
    ≡ ok created
unfolding create_employee write_employee check_employee check_creation_limit
    require_organization_role require_active_subscription memory entitlement_from_data limits_from
    assert_active assert_creation_within_limit
creates = refl

create_employee_unique_example : ¬ (
    (create_employee memory 0 terminal key spelled manager
      (some amara)
      names
      (create_employee memory 0 terminal key spelled manager (some nimal) names managed).1).0
    ≡ ok created)
create_employee_unique_example =
    create_employee_unique memory 0 terminal key spelled manager manager nimal amara names names
      managed created created creates refl (inr (inl (refl, refl)), (inl refl, tt))

abbrev equipped : Memory
equipped = record managed {
  documents =
      stored "employees" "e2" (
        entry "employeeCode" (text "8")
          (entry "name" (text "Ruwan") (entry "branchId" (text "north") no_fields)))
      ∷ managed.documents;
}

abbrev finger : RequestEnrollment
finger = record {
  organization_id = "acme";
  employee_id = "e2";
  device_id = "d1";
  finger_print_id = 1;
}

abbrev queued : QueuedEnrollment
queued = record {
  command_id = "c1";
  employee_id = "e2";
  device_id = "d1";
  organization_id = "acme";
  enrollment_id = "d18";
}

queues :
    (queue_fingerprint_enrollment memory 0 terminal key any_code manager
      (some finger)
      "c1"
      equipped).0
    ≡ ok queued
unfolding queue_fingerprint_enrollment queue_for write_enrollment write_queued check_terminal
    enrolled require_organization_role require_active_subscription memory entitlement_from_data
    limits_from assert_active
queues = refl

queue_fingerprint_enrollment-exclusive_example : ¬ (
    (queue_fingerprint_enrollment memory 1_000_000 terminal key any_code manager
      (some finger)
      "c2"
      (queue_fingerprint_enrollment memory 0 terminal key any_code manager
        (some finger)
        "c1"
        equipped).1).0
    ≡ ok queued)
queue_fingerprint_enrollment-exclusive_example =
    queue_fingerprint_enrollment-exclusive memory terminal key any_code 0 1_000_000 manager manager
      finger finger "c1" "c2" equipped
      (queue_fingerprint_enrollment memory 0 terminal key any_code manager (some finger) "c1"
        equipped).1
      queued queued queues refl refl refl (omega arith)
