-- ===== src/Management/Witnesses.antt =====
-- The theorems of the management functions, at the organization of Examples.
use attendence_system.Prelude.{
  ◌≡◌, refl, ◌⊎◌, ◌&&◌, true, false, arith, [], ◌∷◌, none, some, String,
}
use attendence_system.Prelude.Result.{ok, err}
use attendence_system.Prelude.Text.{str_le}
use attendence_system.Billing.Entitlements.{entitlement_from_data, limits_from, assert_active}
use attendence_system.Documents.{text, field_of, is_text, Document, entry, no_fields}
use attendence_system.Recalculation.Fields.{parse_shift}
use attendence_system.Recalculation.Memory.{Memory, memory}
use attendence_system.Recalculation.Examples.{at}
use attendence_system.Management.Access.{
  as_member, failed_precondition, require_authentication, require_active_subscription,
  require_organization_role,
}
use attendence_system.Management.Access.Laws.{IsMember, require_organization_role-IsMember}
use attendence_system.Management.Shifts.{shift_data, write_shift, save_shift}
use attendence_system.Management.Shifts.Laws.{shift_of, save_shift-parse_shift}
use attendence_system.Management.Assignments.{
  overlaps, check_assignment, write_assignment, assign_employee_shift, assignment_data,
}
use attendence_system.Management.Assignments.Laws.{requested, covers, assign_employee_shift-apart}
use attendence_system.Management.Inferences.{resolve, resolve_document, resolution_fields}
use attendence_system.Management.Inferences.Laws.{resolve-once}
use attendence_system.Management.Branches.{check_deletion, write_deletion, delete_branch}
use attendence_system.Management.Branches.Laws.{delete_branch-free}
use attendence_system.Management.Examples.{
  manager, managed, night_shift, february, confirmation, rejection,
}

abbrev today : String → String
today timezone = "2024-03-01"

allowed :
    require_organization_role memory 0 managed manager "acme" ("organizationOwner" ∷ "hrAdmin" ∷ [])
    ≡ ok (as_member "hrAdmin")
unfolding require_organization_role require_active_subscription memory entitlement_from_data
    limits_from assert_active
allowed = refl

require_organization_role-IsMember_example :
    (manager.platform_admin ≡ true)
    ⊎ IsMember memory 0 managed manager "acme" ("organizationOwner" ∷ "hrAdmin" ∷ [])
require_organization_role-IsMember_example =
    require_organization_role-IsMember memory 0 managed manager "acme"
      ("organizationOwner" ∷ "hrAdmin" ∷ []) (as_member "hrAdmin") allowed

saves : (save_shift memory 0 (some manager) (some night_shift) "a" "j" today managed).0 ≡ ok "j"
unfolding save_shift write_shift shift_data require_authentication require_organization_role
    require_active_subscription memory entitlement_from_data limits_from assert_active
saves = refl

unsaved : memory.document managed (at "shifts" "NIGHT") ≡ none
unfolding memory
unsaved = refl

save_shift-parse_shift_example :
    parse_shift "NIGHT" (
      memory.document
        (save_shift memory 0 (some manager) (some night_shift) "a" "j" today managed).1
        (at "shifts" "NIGHT"))
    ≡ ok (shift_of night_shift)
save_shift-parse_shift_example =
    save_shift-parse_shift memory 0 (some manager) night_shift "a" "j" today managed "j" "NIGHT"
      saves unsaved refl refl refl

assigns :
    (assign_employee_shift memory 0 (some manager) (some february) "a2" "j" today managed).0
    ≡ ok "a2"
unfolding assign_employee_shift write_assignment check_assignment assignment_data overlaps str_le
    require_authentication require_organization_role require_active_subscription memory
    entitlement_from_data limits_from assert_active
assigns = refl

abbrev january : Document
january = record {
  id = "a1";
  path = "a1";
  fields = entry "employeeId" (text "e1") (
      entry "effectiveFrom" (text "2024-01-01")
        (entry "effectiveTo" (text "2024-01-31") no_fields));
}

assign_employee_shift-apart_example :
    (requested february "2024-02-10" && covers january "2024-02-10") ≡ false
unfolding memory
assign_employee_shift-apart_example =
    assign_employee_shift-apart memory 0 (some manager) february "a2" "j" today managed "a2" "a1"
      january "2024-02-10" assigns (omega arith) refl refl

abbrev resolved : (String × String) × Memory
resolved = elim (resolve memory 0 confirmation "u1" "x" managed) [
  | ok r ↦ r
  | err e ↦ (("", ""), managed)
]

resolves : resolve memory 0 confirmation "u1" "x" managed ≡ ok resolved
unfolding resolve resolve_document resolution_fields memory
resolves = refl

resolve-once_example :
    resolve memory 0 rejection "u2" "y" resolved.1
    ≡ err (failed_precondition "This shift suggestion is no longer waiting for review")
resolve-once_example =
    (resolve-once memory 0 confirmation rejection "u1" "u2" "x" "y" managed resolved resolves
      refl).1

deletes : (delete_branch memory 0 manager (some ("acme", "north")) "x" managed).0 ≡ ok "north"
unfolding delete_branch write_deletion check_deletion require_organization_role
    require_active_subscription memory entitlement_from_data limits_from assert_active
deletes = refl

delete_branch-free_example :
    is_text (field_of (memory.document managed (at "employees" "e1")) "branchId") "north" ≡ false
delete_branch-free_example =
    (delete_branch-free memory 0 manager "acme" "north" "x" managed "north" "e1" deletes).2
