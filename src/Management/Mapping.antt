-- ===== src/Management/Mapping.antt =====
-- `mapDeviceIdentity` of cloud/functions/src/employees/mapping.ts. `none` as input is one that the
-- schema refuses; the name of the job is random in the source.
use attendence_system.Prelude.{ℕ, true, not, Option, none, some, String}
use attendence_system.Prelude.Result.{Result, ok, ◌>>=◌, ◌>>◌, throw_if, or_throw}
use attendence_system.Documents.{
  Value, null, text, boolean, timestamp, Fields, no_fields, entry, get, is_text, Document, Database,
}
use attendence_system.Ingest.Repository.{KeyHash}
use attendence_system.Management.Access.{
  CallError, invalid_argument, not_found, AuthContext, require_authentication, require_manager,
  in_collection, exists, create, committing,
}

pub record MapIdentity : Type 0 where
  pub organization_id : String
  pub device_id : String
  pub employee_no : String
  pub employee_id : String
  pub reason : String

abbrev previous_employee : Option Document → Value
previous_employee none = null
previous_employee (some d) = get d.fields "employeeId"

-- `registry` is the collection `bridgeDeviceRegistry`, which is no organization's; `key` is
-- `identityKey`.
module _ {S : Type 0} (db : Database S) (now : ℕ) (registry : S → String → Option Document)
    (key : KeyHash) where
  unfoldable pub mapping_fields : MapIdentity → Value → String → Fields
  mapping_fields i branch uid = entry "organizationId" (text i.organization_id) (
      entry "branchId" branch (
        entry "deviceId" (text i.device_id) (
          entry "employeeNo" (text i.employee_no) (
            entry "employeeId" (text i.employee_id) (
              entry "active" (boolean true)
                (entry "updatedAt" (timestamp now) (entry "updatedBy" (text uid) no_fields)))))))

  abbrev resolved_fields : MapIdentity → String → Fields
  resolved_fields i uid = entry "state" (text "resolved") (
      entry "resolvedEmployeeId" (text i.employee_id)
        (entry "resolvedAt" (timestamp now) (entry "resolvedBy" (text uid) no_fields)))

  abbrev mapping_audit : MapIdentity → String → Value → String → Fields
  mapping_audit i name previous uid = entry "identityKey" (text name) (
      entry "deviceId" (text i.device_id) (
        entry "employeeNo" (text i.employee_no) (
          entry "previousEmployeeId" previous (
            entry "employeeId" (text i.employee_id) (
              entry "reason" (text i.reason)
                (entry "actorId" (text uid) (entry "createdAt" (timestamp now) no_fields)))))))

  abbrev mapping_job : MapIdentity → String → String → Fields
  mapping_job i name uid = entry "type" (text "identity_mapping") (
      entry "identityKey" (text name) (
        entry "deviceId" (text i.device_id) (
          entry "employeeNo" (text i.employee_no) (
            entry "employeeId" (text i.employee_id) (
              entry "state" (text "pending") (
                entry "cursor" null
                  (entry "createdAt" (timestamp now) (entry "createdBy" (text uid) no_fields))))))))

  -- The transaction.
  unfoldable pub write_mapping :
      MapIdentity → String → String → String → S → Result CallError ((String × String) × S)
  unfolding mapping_fields
  write_mapping i uid audit job s = do
    let name = key i.device_id i.employee_no
    let mapping = in_collection db now i.organization_id "deviceIdentities" name
    throw_if
        (not (exists db now s (in_collection db now i.organization_id "employees" i.employee_id)))
        (not_found "Cloud employee does not exist")
    device ←
        or_throw (registry s i.device_id) (not_found "Device does not belong to this organization")
    throw_if (not (is_text (get device.fields "organizationId") i.organization_id))
        (not_found "Device does not belong to this organization")
    let w0 = db.merge mapping (mapping_fields i (get device.fields "branchId") uid) s
    let w1 =
        db.merge (in_collection db now i.organization_id "unmappedIdentities" name)
          (resolved_fields i uid) w0
    w2 ←
        create db now (in_collection db now i.organization_id "identityMappingAudits" audit)
          (mapping_audit i name (previous_employee (db.document s mapping)) uid) s w1
    w3 ←
        create db now (in_collection db now i.organization_id "recalculationJobs" job)
          (mapping_job i name uid) s w2
    ok ((name, i.employee_id), w3)

  unfoldable pub map_device_identity :
      Option AuthContext
      → Option MapIdentity
      → String
      → String
      → S
      → Result CallError (String × String) × S
  unfolding write_mapping
  map_device_identity caller input audit job s = committing s (
      require_authentication caller >>= λ auth.
      or_throw input (invalid_argument "Employee mapping fields are invalid") >>= λ i.
      require_manager db now s auth i.organization_id >>= λ granted.
      write_mapping i auth.uid audit job s)
