-- ===== src/Management/Onboarding.antt =====
-- `bootstrapOrganizationInFirestore` of cloud/functions/src/onboarding/bootstrap.ts, from the parsed
-- input on. The collection `users` is at the root, which is an organization without a name here.
pub mod Laws
mod Witnesses
use attendence_system.Prelude.{
  ℕ, ◌≡◌, Bool, true, false, not, List, [], ◌∷◌, Option, none, some, String, is_some, leb,
  if◌then◌else◌,
}
use attendence_system.Prelude.Result.{Result, ok, err, ◌>>=◌, ◌>>◌, throw_if}
use attendence_system.Prelude.Sort.{sort}
use attendence_system.Prelude.Text.{is_empty}
use attendence_system.Attendance.Types.{whole, LateCalculationMode}
use attendence_system.Documents.{
  Value, text, number, boolean, timestamp, array, object, no_values, value, Fields, no_fields,
  entry, Document, data_of, Place, field_of, Database,
}
use attendence_system.Recalculation.Fields.{nonempty_text}
use attendence_system.Management.Access.{
  CallError, already_exists, failed_precondition, in_collection, exists, create, committing,
}
use attendence_system.Management.Shifts.{late_mode_text, days_value}

-- What `bootstrapOrganizationSchema` gives; the policy for missing punches is a literal.
pub record BootstrapOrganization : Type 0 where
  pub organization_id : String
  pub organization_name : String
  pub timezone : String
  pub branch_id : String
  pub branch_name : String
  pub shift_id : String
  pub shift_name : String
  pub start_time : String
  pub end_time : String
  pub working_days : List ℕ
  pub grace_period_minutes : ℕ
  pub break_minutes : ℕ
  pub late_calculation_mode : LateCalculationMode

-- The role is a literal.
pub record BootstrapResult : Type 0 where
  pub organization_id : String
  pub branch_id : String
  pub shift_id : String

-- The claims of the caller's token that the function reads.
pub record Claims : Type 0 where
  pub uid : String
  pub name : Option String
  pub email : Option String

-- Organizations are made at the root of the store.
pub record Roots {S : Type 0} (db : Database S) : Type 0 where
  pub create_organization : String → Fields → S → S
  pub organization_created :
      (s : S) (o : String) (f : Fields)
      → data_of (db.organization (create_organization o f s) o) ≡ some f
  pub organization_write :
      (s : S) (o : String) (p : Place) (f : Fields)
      → db.organization (db.write p f s) o ≡ db.organization s o
  pub organization_merge :
      (s : S) (o : String) (p : Place) (f : Fields)
      → db.organization (db.merge p f s) o ≡ db.organization s o

abbrev email_or : Option String → String
email_or none = "Organization Owner"
email_or (some email) = email

-- `displayName`; `trim` is JavaScript's
abbrev pub display_name : (String → String) → Claims → String
display_name trim c = named c.name
  where
    named : Option String → String
    named none = email_or c.email
    named (some name) = if is_empty (trim name) then email_or c.email else trim name

abbrev pub stamps : ℕ → String → Fields
stamps now uid = entry "createdAt" (timestamp now) (
    entry "createdBy" (text uid)
      (entry "updatedAt" (timestamp now) (entry "updatedBy" (text uid) no_fields)))

abbrev pub organization_fields : BootstrapOrganization → ℕ → String → Fields
organization_fields i now uid = entry "name" (text i.organization_name) (
    entry "timezone" (text i.timezone) (
      entry "status" (text "active") (
        entry "primaryBranchId" (text i.branch_id) (
          entry "defaultShiftId" (text i.shift_id) (
            entry "attendancePolicy" (object policy)
              (entry "onboardingVersion" (text "onboarding-v1") (stamps now uid)))))))
  where
    policy : Fields
    policy =
        entry "lateMinutesMode" (text (late_mode_text i.late_calculation_mode))
          (entry "missingPunchPolicy" (text "flag_exception") no_fields)

abbrev pub member_fields : BootstrapOrganization → ℕ → String → Fields
member_fields i now uid = entry "role" (text "organizationOwner") (
    entry "active" (boolean true)
      (entry "branchIds" (array (value (text i.branch_id) no_values)) (stamps now uid)))

abbrev pub first_branch_fields : BootstrapOrganization → ℕ → String → Fields
first_branch_fields i now uid =
    entry "name" (text i.branch_name)
      (entry "timezone" (text i.timezone) (entry "status" (text "active") (stamps now uid)))

abbrev n : ℕ → Value
n k = number (whole k)

-- `[...workingDays].sort()`: the days are digits, so the order of texts is that of numbers.
abbrev pub first_shift_fields : BootstrapOrganization → ℕ → String → Fields
first_shift_fields i now uid = entry "name" (text i.shift_name) (
    entry "startTime" (text i.start_time) (
      entry "endTime" (text i.end_time) (
        entry "workingDays" (array (days_value (sort leb i.working_days))) (
          entry "gracePeriodMinutes" (n i.grace_period_minutes) (
            entry "lateCalculationMode" (text (late_mode_text i.late_calculation_mode)) (
              entry "breakMinutes" (n i.break_minutes) (
                entry "punchMode" (text "first_last") (
                  entry "earlyLeave" (object (entry "graceMinutes" (n 0) no_fields)) (
                    entry "overtime" (object overtime)
                      (entry "active" (boolean true) (stamps now uid)))))))))))
  where
    overtime : Fields
    overtime = entry "enabled" (boolean false) (
        entry "startDelayMinutes" (n 0) (
          entry "minimumMinutes" (n 0)
            (entry "roundingMinutes" (n 1) (entry "roundingMode" (text "none") no_fields))))

abbrev pub organization_audit : BootstrapOrganization → ℕ → String → Fields
organization_audit i now uid = entry "action" (text "organization_created") (
    entry "organizationId" (text i.organization_id) (
      entry "branchId" (text i.branch_id) (
        entry "shiftId" (text i.shift_id)
          (entry "actorId" (text uid) (entry "createdAt" (timestamp now) no_fields)))))

abbrev email_field : Option String → Fields → Fields
email_field none rest = rest
email_field (some email) rest = entry "email" (text email) rest

abbrev new_user_field : Option Document → ℕ → Fields → Fields
new_user_field none now rest = entry "createdAt" (timestamp now) rest
new_user_field (some d) now rest = rest

-- The fields of the user; their names differ, so their order is of no account.
abbrev pub user_fields :
    (String → String) → BootstrapOrganization → ℕ → Claims → Option Document → Fields
user_fields trim i now c user = entry "defaultOrganizationId" (text i.organization_id) (
    entry "displayName" (text (display_name trim c)) (
      email_field c.email (
        entry "onboardingCompletedAt" (timestamp now) (
          entry "onboardingVersion" (text "onboarding-v1")
            (new_user_field user now (entry "updatedAt" (timestamp now) no_fields))))))

module _ {S : Type 0} (db : Database S) (roots : Roots db) (now : ℕ) (trim : String → String) where
  abbrev pub user_place : String → Place
  user_place uid = in_collection db now "" "users" uid

  -- The tests of the transaction.
  unfoldable pub check_bootstrap : BootstrapOrganization → String → S → Result CallError (Unit {0})
  check_bootstrap i uid s =
      throw_if
        (is_some
          (nonempty_text (field_of (db.document s (user_place uid)) "defaultOrganizationId")))
        (failed_precondition "This user already belongs to an organization")
      >> throw_if (is_some (db.organization s i.organization_id))
          (already_exists "That organization identifier is already in use")

  -- The transaction.
  unfoldable pub write_organization :
      BootstrapOrganization → Claims → S → Result CallError (BootstrapResult × S)
  unfolding check_bootstrap
  write_organization i c s = do
    check_bootstrap i c.uid s
    w0 ←
        create db now (in_collection db now i.organization_id "members" c.uid)
          (member_fields i now c.uid) s
          (roots.create_organization i.organization_id (organization_fields i now c.uid) s)
    w1 ←
        create db now (in_collection db now i.organization_id "branches" i.branch_id)
          (first_branch_fields i now c.uid) s w0
    w2 ←
        create db now (in_collection db now i.organization_id "shifts" i.shift_id)
          (first_shift_fields i now c.uid) s w1
    w3 ←
        create db now (in_collection db now i.organization_id "organizationCreationAudits" c.uid)
          (organization_audit i now c.uid) s w2
    ok (
      record {
        organization_id = i.organization_id;
        branch_id = i.branch_id;
        shift_id = i.shift_id;
      },
      db.merge (user_place c.uid) (user_fields trim i now c (db.document s (user_place c.uid))) w3,
    )

  unfoldable pub bootstrap_organization :
      BootstrapOrganization → Claims → S → Result CallError BootstrapResult × S
  unfolding write_organization
  bootstrap_organization i c s = committing s (write_organization i c s)
