-- ===== src/Ingest/Commands.antt =====
-- The results that a device sends back: the first transaction of
-- `FirestoreIngestRepository.exchangeCommands` of cloud/functions/src/ingest/firestore-repository.ts,
-- which reads the store `s` that it starts from, and writes to `w`.
pub mod Laws
pub mod Again
use attendence_system.Prelude.{
  ℕ, ◌+◌, ◌≡◌, Bool, true, false, not, ◌&&◌, ◌||◌, List, [], ◌∷◌, ◌++◌, Option, none, some, String,
  ltb, leb, length, ◌==◌, is_some, get_or, if◌then◌else◌,
}
use attendence_system.Prelude.Text.{str_eq}
use attendence_system.Ingest.Types.{
  DeviceRegistration, EventWriteContext, CommandResult, CommandOutput, ResultState, succeeded,
  failed, DeviceCommand, DeviceCommandType, upsert_user, enroll_fingerprint,
}
use attendence_system.Ingest.Repository.{Store, CommandDoc, EnrollmentDoc, KeyHash, put, is_text}
use attendence_system.Ingest.Writes.{set_in}

abbrev pub state_name : ResultState → String
state_name succeeded = "succeeded"
state_name failed = "failed"

abbrev pub is_failed : ResultState → Bool
is_failed succeeded = false
is_failed failed = true

abbrev or_else {ℓ} : {A : Type ℓ} → Option A → Option A → Option A
or_else none b = b
or_else (some a) b = some a

abbrev output_field : Option CommandOutput → (CommandOutput → Option ℕ) → Option ℕ
output_field none f = none
output_field (some o) f = f o

abbrev pub no_enrollment : EnrollmentDoc
no_enrollment = record {
  organization_id = none;
  branch_id = none;
  device_id = none;
  employee_id = none;
  employee_no = none;
  state = none;
  command_id = none;
  last_error = none;
  last_user_sync_error = none;
  user_synced_at = none;
  enrolled_at = none;
  finger_print_id = none;
  quality = none;
  updated_at = none;
}

-- `transaction.set(enrollment, …, { merge: true })`
abbrev pub merge_enrollment : String → String → (EnrollmentDoc → EnrollmentDoc) → Store → Store
merge_enrollment organization name change w = record w {
  device_enrollments =
      set_in w.device_enrollments organization name
        (some (change (get_or (w.device_enrollments organization name) no_enrollment)));
}

abbrev pub set_command : DeviceRegistration → String → CommandDoc → Store → Store
set_command reg id doc w = record w {
  commands =
      put w.commands reg.organization_id
        (set_in (w.commands reg.organization_id) reg.device_id id (some doc));
}

abbrev release_lock : DeviceRegistration → Store → Store
release_lock reg w = record w {
  fingerprint_lock = set_in w.fingerprint_lock reg.organization_id reg.device_id none;
}

abbrev pub is_settled : CommandDoc → Bool
is_settled doc = is_text doc.state "succeeded" || is_text doc.state "failed"

abbrev pub of_device : DeviceRegistration → Option CommandDoc → Option CommandDoc
of_device reg none = none
of_device reg (some doc) = if is_text doc.device_id reg.device_id then some doc else none

module _ (key : KeyHash) (reg : DeviceRegistration) (c : EventWriteContext) where
  abbrev pub release_if_held : Bool → Store → String → Store → Store
  release_if_held asked s id w =
      if asked && is_text (s.fingerprint_lock reg.organization_id reg.device_id) id
      then release_lock reg w
      else w

  -- `preserveFingerprintState`
  unfoldable pub preserves_fingerprint : CommandDoc → String → Option EnrollmentDoc → Bool
  preserves_fingerprint doc id none = false
  preserves_fingerprint doc id (some e) =
      not (is_text e.command_id id)
      && (is_text doc.type' "enroll_fingerprint"
          || (is_text doc.type' "upsert_user"
              && (is_text e.state "queued"
                  || is_text e.state "capturing"
                  || is_text e.state "enrolled"
                  || (is_text e.state "failed" && is_some e.finger_print_id))))

  abbrev error_of : CommandResult → String → Option String
  error_of r otherwise =
      if is_failed r.state then or_else r.message (or_else r.code (some otherwise)) else none

  abbrev sync_only : CommandResult → EnrollmentDoc → EnrollmentDoc
  sync_only r e = record e {
    last_user_sync_error = error_of r "Device user sync failed";
    user_synced_at = if is_failed r.state then e.user_synced_at else some c.received_at;
  }

  abbrev settle_enrollment :
      CommandDoc → CommandResult → String → String → EnrollmentDoc → EnrollmentDoc
  settle_enrollment doc r employee number e =
      let enrolls = is_text doc.type' "enroll_fingerprint" in
      let done = not (is_failed r.state) in
      record e {
        organization_id = some reg.organization_id;
        branch_id = some reg.branch_id;
        device_id = some reg.device_id;
        employee_id = some employee;
        employee_no = some number;
        state =
            some (
              if is_failed r.state
              then "failed"
              else if enrolls
              then "enrolled"
              else "user_synced");
        command_id = some r.command_id;
        last_error = error_of r "Device command failed";
        user_synced_at =
            if is_text doc.type' "upsert_user" && done
            then some c.received_at
            else e.user_synced_at;
        enrolled_at = if enrolls && done then some c.received_at else e.enrolled_at;
        finger_print_id =
            if enrolls && done
            then or_else (output_field r.output (λ o. o.finger_print_id))
                (or_else doc.finger_print_id (some 1))
            else e.finger_print_id;
        quality = if enrolls && done then output_field r.output (λ o. o.quality) else e.quality;
        updated_at = some c.received_at;
      }

  unfoldable pub enrolled : Store → CommandDoc → CommandResult → String → String → Store → Store
  enrolled s doc r employee number w =
      let name = key reg.device_id number in
      let change = merge_enrollment reg.organization_id name in
      if preserves_fingerprint doc r.command_id (s.device_enrollments reg.organization_id name)
      then (if is_text doc.type' "upsert_user" then change (sync_only r) w else w)
      else change (settle_enrollment doc r employee number) w

  unfoldable pub write_enrollment : Store → CommandDoc → CommandResult → Store → Store
  write_enrollment s doc r w = elim doc.employee_id [
    | none ↦ w
    | some employee ↦ elim doc.employee_no [
      | none ↦ w
      | some number ↦ enrolled s doc r employee number w
    ]
  ]

  abbrev pub settled_command : CommandDoc → CommandResult → CommandDoc
  settled_command doc r = record doc {
    state = some (state_name r.state);
    result_code = r.code;
    result_message = r.message;
    result = r.output;
    completed_at = some c.received_at;
    updated_at = some c.received_at;
  }

  unfoldable pub settle : Store → CommandDoc → CommandResult → Store → Store
  settle s doc r w = write_enrollment s doc r (
      release_if_held (is_text doc.type' "enroll_fingerprint") s r.command_id
        (set_command reg r.command_id (settled_command doc r) w))

  -- The document of a command, if it is of this device.
  abbrev pub own_command : Store → String → Option CommandDoc
  own_command s id = of_device reg (s.commands reg.organization_id reg.device_id id)

  abbrev pub settle_if_open : Store → Option CommandDoc → CommandResult → Store → Store
  settle_if_open s none r w = w
  settle_if_open s (some doc) r w = if is_settled doc then w else settle s doc r w

  -- The first loop, with the ids that it acknowledges.
  unfoldable pub acknowledge : Store → List CommandResult → Store → List String × Store
  acknowledge s [] w = ([], w)
  acknowledge s (r ∷ rs) w =
      let doc = own_command s r.command_id in
      let (ids, t) = acknowledge s rs (settle_if_open s doc r w) in
      (if is_some doc then r.command_id ∷ ids else ids, t)
