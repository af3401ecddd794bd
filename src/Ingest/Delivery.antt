-- ===== src/Ingest/Delivery.antt =====
-- The commands that a device is given: the second transaction of
-- `FirestoreIngestRepository.exchangeCommands` of cloud/functions/src/ingest/firestore-repository.ts,
-- and the whole of it.
pub mod Laws
use attendence_system.Prelude.{
  ℕ, ◌+◌, ◌≡◌, Bool, true, false, not, ◌&&◌, ◌||◌, List, [], ◌∷◌, ◌++◌, Option, none, some, String,
  ltb, leb, length, ◌==◌, is_some, get_or, if◌then◌else◌,
}
use attendence_system.Prelude.Result.{Result, ok}
use attendence_system.Prelude.Maybe.{◌>>=◌}
use attendence_system.Prelude.Text.{str_eq}
use attendence_system.Ingest.Types.{
  DeviceRegistration, EventWriteContext, CommandResult, CommandExchangeResult, DeviceCommand,
  DeviceCommandType, upsert_user, enroll_fingerprint,
}
use attendence_system.Ingest.Service.{Failure, IngestRepository}
use attendence_system.Ingest.Repository.{
  Store, CommandDoc, EnrollmentDoc, KeyHash, is_text, get_device, claim_replay, record_contact,
}
use attendence_system.Ingest.Writes.{write_events}
use attendence_system.Ingest.Commands.{
  set_command, no_enrollment, release_if_held, merge_enrollment, own_command, acknowledge,
}

abbrev pub is_type : DeviceCommandType → String
is_type upsert_user = "upsert_user"
is_type enroll_fingerprint = "enroll_fingerprint"

abbrev pub command_type : Option String → Option DeviceCommandType
command_type t =
    if is_text t "upsert_user"
    then some upsert_user
    else if is_text t "enroll_fingerprint"
    then some enroll_fingerprint
    else none

-- The finger of an enrollment, from 1 to 10; other commands carry none.
abbrev pub finger_of : DeviceCommandType → Option ℕ → Option (Option ℕ)
finger_of upsert_user finger = some none
finger_of enroll_fingerprint none = none
finger_of enroll_fingerprint (some n) = if ltb n 1 || ltb 10 n then none else some (some n)

abbrev pub is_expired : CommandDoc → ℕ → Bool
is_expired doc now = elim doc.expires_at [ none ↦ true | some t ↦ leb t now ]

abbrev pub has_lease : CommandDoc → ℕ → Bool
has_lease doc now = elim doc.lease_until [ none ↦ false | some t ↦ ltb now t ]

-- What a stored command says if it is well formed; none if it is not.
unfoldable pub well_formed : String → CommandDoc → Option DeviceCommand
well_formed id doc = do
  t ← command_type doc.type'
  employee ← doc.employee_id
  number ← doc.employee_no
  name ← doc.name
  issued ← doc.created_at
  finger ← finger_of t doc.finger_print_id
  expires ← doc.expires_at
  some (record {
    id = id;
    type' = t;
    issued_at = issued;
    expires_at = expires;
    employee_id = employee;
    employee_no = number;
    name = name;
    finger_print_id = finger;
  })

-- What becomes of a candidate.
pub data Outcome : Type 0 where
  left_alone : Outcome
  discarded : CommandDoc → String → String → Outcome
  delivered : CommandDoc → DeviceCommand → Outcome

abbrev pub chosen : Outcome → List DeviceCommand → List DeviceCommand
chosen (delivered doc command) values = values ++ (command ∷ [])
chosen _ values = values

module _ (key : KeyHash) (reg : DeviceRegistration) (c : EventWriteContext) where
  abbrev failed_command : CommandDoc → String → String → CommandDoc
  failed_command doc code message = record doc {
    state = some "failed";
    result_code = some code;
    result_message = some message;
    completed_at = some c.received_at;
    updated_at = some c.received_at;
  }

  -- The enrollment of the command's employee, where it speaks of this command.
  unfoldable pub fail_enrollment : Store → String → CommandDoc → String → Store → Store
  fail_enrollment s id doc message w = elim doc.employee_no [
    | none ↦ w
    | some number ↦
        let name = key reg.device_id number in
        let current = get_or (s.device_enrollments reg.organization_id name) no_enrollment in
        if is_text current.command_id id
        then merge_enrollment reg.organization_id name
            (λ e. record e {
              state = some "failed";
              command_id = some id;
              last_error = some message;
              updated_at = some c.received_at;
            })
            w
        else w
  ]

  abbrev pub fail_command : Store → String → CommandDoc → String → String → Store → Store
  fail_command s id doc code message w =
      fail_enrollment s id doc message (
        release_if_held key reg c true s id
          (set_command reg id (failed_command doc code message) w))

  abbrev pub dispatched_command : CommandDoc → CommandDoc
  dispatched_command doc = record doc {
    state = some "dispatched";
    lease_until = some (c.received_at + 120_000);
    last_dispatched_at = some c.received_at;
    attempts = doc.attempts + 1;
    updated_at = some c.received_at;
  }

  abbrev capture : DeviceCommand → Store → Store
  capture command w = elim command.type' [
    | upsert_user ↦ w
    | enroll_fingerprint ↦
        merge_enrollment reg.organization_id (key reg.device_id command.employee_no)
          (λ e. record e {
            state = some "capturing";
            command_id = some command.id;
            updated_at = some c.received_at;
          })
          w
  ]

  -- The tests of the loop's body; `full` if a command was chosen before.
  abbrev pub outcome_of : Option CommandDoc → String → Bool → Outcome
  outcome_of none id full = left_alone
  outcome_of (some doc) id full =
      if is_expired doc c.received_at
      then discarded doc "expired" "Command expired before delivery"
      else if is_text doc.state "dispatched" && has_lease doc c.received_at
      then left_alone
      else elim (well_formed id doc) [
        | none ↦ discarded doc "invalid_command" "Stored command is malformed"
        | some command ↦ if full then left_alone else delivered doc command
      ]

  unfoldable pub outcome : Store → String → Bool → Outcome
  outcome s id full = outcome_of (own_command key reg c s id) id full

  unfoldable pub carry_out : Store → String → Outcome → Store → Store
  carry_out s id left_alone w = w
  carry_out s id (discarded doc code message) w = fail_command s id doc code message w
  carry_out s id (delivered doc command) w =
      capture command (set_command reg id (dispatched_command doc) w)

  unfoldable pub deliver_each :
      Store → List String → List DeviceCommand → Store → List DeviceCommand × Store
  deliver_each s [] values w = (values, w)
  deliver_each s (id ∷ ids) values w =
      let what = outcome s id (leb 1 (length values)) in
      deliver_each s ids (chosen what values) (carry_out s id what w)

-- The query for at most 20 commands of a device that are queued or dispatched.
abbrev pub CommandQuery : Type 0
CommandQuery = Store → String → String → List String

module _ (key : KeyHash) (query : CommandQuery) where
  unfoldable pub exchange_commands :
      DeviceRegistration
      → List CommandResult
      → EventWriteContext
      → Bool
      → Store
      → Result Failure CommandExchangeResult × Store
  exchange_commands reg results c deliver s =
      let (ids, t) = acknowledge key reg c s results s in
      let (commands, u) =
        deliver_each key reg c t (query t reg.organization_id reg.device_id) [] t in
      if deliver
      then (ok (record { commands = commands; acknowledged_command_ids = ids }), u)
      else (ok (record { commands = []; acknowledged_command_ids = ids }), t)

  -- The repository as the service uses it, at the time `today`.
  abbrev pub firestore_repository : ℕ → IngestRepository Store
  firestore_repository today = record {
    get_device = get_device today;
    claim_replay = claim_replay key;
    write_events = λ reg events c s. write_events key reg c events s;
    record_contact = record_contact;
    exchange_commands = exchange_commands;
  }
