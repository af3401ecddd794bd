-- ===== src/Management/Branches.antt =====
-- Branches and departments: `createBranchInFirestore` and `deleteBranchInFirestore` of
-- cloud/functions/src/branches/management.ts, and `createDepartmentInFirestore` of
-- cloud/functions/src/departments/management.ts. `none` as input is one that the schema refuses.
pub mod Laws
use attendence_system.Prelude.{
  ℕ, ◌≡◌, Bool, true, false, not, ◌&&◌, ◌||◌, List, [], ◌∷◌, Option, none, some, String, is_some,
  length, ◌==◌, if◌then◌else◌,
}
use attendence_system.Prelude.Result.{Result, ok, err, ◌>>=◌, ◌>>◌, throw_if, or_throw}
use attendence_system.Prelude.Text.{str_eq}
use attendence_system.Billing.Entitlements.{Resource, branches}
use attendence_system.Documents.{
  Value, text, timestamp, Fields, no_fields, entry, get, as_text, is_text, Document, text_is,
  array_contains, by_name, Place, field_of, Database,
}
use attendence_system.Recalculation.Fields.{nonempty_text}
use attendence_system.Management.Access.{
  CallError, invalid_argument, not_found, already_exists, failed_precondition, AuthContext,
  require_manager, check_creation_limit, in_collection, exists, create, committing,
}

-- What the schemas of a new branch and of a new department give.
pub record Named : Type 0 where
  pub organization_id : String
  pub id : String
  pub name : String

pub record CreateBranchResult : Type 0 where
  pub id : String
  pub name : String
  pub timezone : String

abbrev stamps : ℕ → String → Fields
stamps now uid = entry "createdAt" (timestamp now) (
    entry "createdBy" (text uid)
      (entry "updatedAt" (timestamp now) (entry "updatedBy" (text uid) no_fields)))

abbrev branch_fields : ℕ → Named → String → String → Fields
branch_fields now i timezone uid =
    entry "name" (text i.name)
      (entry "timezone" (text timezone) (entry "status" (text "active") (stamps now uid)))

abbrev named_audit : ℕ → String → String → String → Named → String → Fields
named_audit now action id_field name_field i uid = entry "action" (text action) (
    entry id_field (text i.id) (
      entry name_field (text i.name)
        (entry "actorId" (text uid) (entry "createdAt" (timestamp now) no_fields))))

module _ {S : Type 0} (db : Database S) (now : ℕ) where
  abbrev pub branch_place : String → String → Place
  branch_place organization id = in_collection db now organization "branches" id

  -- The transaction of `createBranchInFirestore`.
  unfoldable pub write_branch :
      Named → String → String → S → Result CallError (CreateBranchResult × S)
  write_branch i uid audit s = do
    check_creation_limit db now s i.organization_id branches
        (db.size_of s i.organization_id "branches" (text_is "status" "active" ∷ []))
    organization ←
        or_throw (db.organization s i.organization_id) (not_found "Organization does not exist")
    throw_if (exists db now s (branch_place i.organization_id i.id))
        (already_exists "That branch identifier is already in use")
    timezone ←
        or_throw (nonempty_text (get organization.fields "timezone"))
          (failed_precondition "Organization timezone is not configured")
    w0 ← create db now (branch_place i.organization_id i.id) (branch_fields now i timezone uid) s s
    w1 ←
        create db now (in_collection db now i.organization_id "branchCreationAudits" audit)
          (named_audit now "branch_created" "branchId" "branchName" i uid) s w0
    ok (record { id = i.id; name = i.name; timezone = timezone }, w1)

  unfoldable pub create_branch :
      AuthContext → Option Named → String → S → Result CallError CreateBranchResult × S
  unfolding write_branch
  create_branch auth input audit s = committing s (
      or_throw input (invalid_argument "Branch fields are invalid") >>= λ i.
      require_manager db now s auth i.organization_id >>= λ granted.
      write_branch i auth.uid audit s)

  -- Whether something of the organization still belongs to the branch.
  abbrev pub has_any : S → String → String → Bool → String → Bool
  has_any s organization collection in_array branch =
      not (length (members s organization collection in_array branch) == 0)
    where
      members : S → String → String → Bool → String → List Document
      members s organization collection true branch =
          db.query s organization collection (array_contains "branchIds" branch ∷ []) by_name 1
      members s organization collection false branch =
          db.query s organization collection (text_is "branchId" branch ∷ []) by_name 1

  abbrev pub is_gone : Option Document → Bool
  is_gone none = true
  is_gone (some d) = is_text (get d.fields "status") "inactive"

  abbrev pub deletion_fields : String → Fields
  deletion_fields uid = entry "status" (text "inactive") (
      entry "deletedAt" (timestamp now) (
        entry "deletedBy" (text uid)
          (entry "updatedAt" (timestamp now) (entry "updatedBy" (text uid) no_fields))))

  abbrev deletion_audit : S → String → String → String → Fields
  deletion_audit s organization branch uid = entry "action" (text "branch_deleted") (
      entry "branchId" (text branch) (
        entry "branchName" (field_of (db.document s (branch_place organization branch)) "name")
          (entry "actorId" (text uid) (entry "createdAt" (timestamp now) no_fields))))

  -- The tests of the transaction of `deleteBranchInFirestore`, in order.
  unfoldable pub check_deletion : String → String → S → Result CallError (Unit {0})
  check_deletion organization branch s =
      throw_if (not (is_some (db.organization s organization)))
        (not_found "Organization does not exist")
      >> (throw_if (is_gone (db.document s (branch_place organization branch)))
            (not_found "Active branch does not exist")
          >> (throw_if
                (is_text (field_of (db.organization s organization) "primaryBranchId") branch)
                (failed_precondition "The primary branch cannot be deleted")
              >> (throw_if (has_any s organization "employees" false branch) (
                    failed_precondition
                      "Move employees to another branch before deleting this branch")
                  >> (throw_if (has_any s organization "devices" false branch)
                        (failed_precondition "Move or remove devices before deleting this branch")
                      >> throw_if (has_any s organization "members" true branch) (
                          failed_precondition
                            "Remove this branch from member access before deleting it")))))

  unfoldable pub write_deletion :
      String → String → String → String → S → Result CallError (String × S)
  unfolding check_deletion
  write_deletion organization branch uid audit s = do
    check_deletion organization branch s
    w ←
        create db now (in_collection db now organization "branchDeletionAudits" audit)
          (deletion_audit s organization branch uid) s
          (db.merge (branch_place organization branch) (deletion_fields uid) s)
    ok (branch, w)

  -- The input: the organization and the branch.
  unfoldable pub delete_branch :
      AuthContext → Option (String × String) → String → S → Result CallError String × S
  unfolding write_deletion
  delete_branch auth input audit s = committing s (
      or_throw input (invalid_argument "Branch fields are invalid") >>= λ i.
      require_manager db now s auth i.0 >>= λ granted. write_deletion i.0 i.1 auth.uid audit s)

  abbrev department_fields : Named → String → Fields
  department_fields i uid = entry "name" (text i.name) (stamps now uid)

  -- The transaction of `createDepartmentInFirestore`.
  unfoldable pub write_department : Named → String → String → S → Result CallError (Named × S)
  write_department i uid audit s = do
    throw_if (not (is_some (db.organization s i.organization_id)))
        (not_found "Organization does not exist")
    throw_if (exists db now s (in_collection db now i.organization_id "departments" i.id))
        (already_exists "That department identifier is already in use")
    w0 ←
        create db now (in_collection db now i.organization_id "departments" i.id)
          (department_fields i uid) s s
    w1 ←
        create db now (in_collection db now i.organization_id "departmentCreationAudits" audit)
          (named_audit now "department_created" "departmentId" "departmentName" i uid) s w0
    ok (i, w1)

  unfoldable pub create_department :
      AuthContext → Option Named → String → S → Result CallError Named × S
  unfolding write_department
  create_department auth input audit s = committing s (
      or_throw input (invalid_argument "Department fields are invalid") >>= λ i.
      require_manager db now s auth i.organization_id >>= λ granted.
      write_department i auth.uid audit s)
