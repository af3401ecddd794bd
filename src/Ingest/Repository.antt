-- ===== src/Ingest/Repository.antt =====
-- `FirestoreIngestRepository` of cloud/functions/src/ingest/firestore-repository.ts, but for the
-- exchange of commands. A collection is a function from the names of its documents; a
-- transaction that throws leaves the store as it was.
pub mod Laws
use attendence_system.Prelude.{
  ℕ, ◌+◌, ◌≡◌, Bool, true, false, not, ◌&&◌, ◌||◌, List, [], ◌∷◌, ◌++◌, Option, none, some, String,
  ltb, take, length, ◌==◌, is_some, get_or, if◌then◌else◌,
}
use attendence_system.Prelude.Result.{Result, ok, err, ◌>>=◌, ◌>>◌, throw_if, or_throw}
use attendence_system.Prelude.Text.{str_eq, is_empty}
use attendence_system.Ingest.Types.{
  DeviceRegistration, NormalizedEvent, BridgeStatus, EventWriteResult, EventWriteContext,
  CommandOutput, ReplayClaim, new, repeat, conflict,
}
use attendence_system.Ingest.Service.{Failure, thrown}

-- `doc.set(value)` on a collection
abbrev pub put {ℓ} : {A : Type ℓ} → (String → A) → String → A → String → A
put f name value other = if str_eq other name then value else f other

-- A field of another type than the code asks for counts as missing.
pub record RegistryDoc : Type 0 where
  pub organization_id : Option String
  pub branch_id : Option String
  pub device_document_path : Option String
  pub secret_version_names : List (Option String)
  pub previous_secret_valid_until : Option ℕ
  pub enabled : Bool
  pub state : Option String

pub record ReplayDoc : Type 0 where
  pub device_id : String
  pub organization_id : String
  pub body_hash : String
  pub received_at : ℕ
  pub expires_at : ℕ

pub record IdentityDoc : Type 0 where
  pub employee_id : Option String
  pub active : Bool

pub data MappingStatus : Type 0 where
  mapped unmapped : MappingStatus

pub record EventDoc : Type 0 where
  pub id : String
  pub organization_id : String
  pub branch_id : String
  pub device_id : String
  pub device_serial : Option String
  pub serial_no : Option ℕ
  pub employee_no : String
  pub employee_id : Option String
  pub device_employee_name : String
  pub event_time : ℕ
  pub major : ℕ
  pub minor : ℕ
  pub attendance_status : String
  pub verify_mode : String
  pub card_no : String
  pub card_reader_no : Option ℕ
  pub door_no : Option ℕ
  pub source : String
  pub source_event_id : String
  pub raw : Option String
  pub bridge_received_at : ℕ
  pub received_at : ℕ
  pub ingestion_request_id : String
  pub mapping_status_at_ingest : MappingStatus

pub record UnmappedDoc : Type 0 where
  pub organization_id : String
  pub branch_id : String
  pub device_id : String
  pub employee_no : String
  pub state : String
  pub event_count : ℕ
  pub first_seen_at : Option ℕ
  pub last_seen_at : ℕ
  pub updated_at : ℕ

-- The fields of a device document that the bridge's requests set.
pub record DeviceDoc : Type 0 where
  pub last_seen : Option ℕ
  pub last_event_at : Option ℕ
  pub bridge_version : Option String
  pub connection_status : Option String
  pub pending_local_events : Option ℕ
  pub last_successful_device_poll : Option ℕ
  pub device_model : Option String
  pub device_serial : Option String
  pub firmware_version : Option String

pub record CommandDoc : Type 0 where
  pub device_id : Option String
  pub state : Option String
  pub type' : Option String
  pub employee_id : Option String
  pub employee_no : Option String
  pub name : Option String
  pub created_at : Option ℕ
  pub expires_at : Option ℕ
  pub lease_until : Option ℕ
  pub finger_print_id : Option ℕ
  pub attempts : ℕ
  pub last_dispatched_at : Option ℕ
  pub result_code : Option String
  pub result_message : Option String
  pub result : Option CommandOutput
  pub completed_at : Option ℕ
  pub updated_at : Option ℕ

pub record EnrollmentDoc : Type 0 where
  pub organization_id : Option String
  pub branch_id : Option String
  pub device_id : Option String
  pub employee_id : Option String
  pub employee_no : Option String
  pub state : Option String
  pub command_id : Option String
  pub last_error : Option String
  pub last_user_sync_error : Option String
  pub user_synced_at : Option ℕ
  pub enrolled_at : Option ℕ
  pub finger_print_id : Option ℕ
  pub quality : Option ℕ
  pub updated_at : Option ℕ

-- Collections inside an organization take its name first.
pub record Store : Type 0 where
  pub registry : String → Option RegistryDoc
  pub replays : String → Option ReplayDoc
  pub attendance_events : String → String → Option EventDoc
  pub device_identities : String → String → Option IdentityDoc
  pub unmapped_identities : String → String → Option UnmappedDoc
  pub devices : String → DeviceDoc
  pub device_enrollments : String → String → Option EnrollmentDoc
  -- by organization, device and command
  pub commands : String → String → String → Option CommandDoc
  -- the `commandId` of the fingerprint lock of a device
  pub fingerprint_lock : String → String → Option String

abbrev pub required_string : Option String → Option String
required_string none = none
required_string (some s) = if is_empty s then none else some s

abbrev pub nonempty : List (Option String) → List String
nonempty [] = []
nonempty (v ∷ vs) = elim (required_string v) [ none ↦ nonempty vs | some s ↦ s ∷ nonempty vs ]

abbrev pub before : Option ℕ → ℕ → Bool
before none t = false
before (some u) t = ltb u t

abbrev pub is_text : Option String → String → Bool
is_text none t = false
is_text (some s) t = str_eq s t

abbrev incomplete : Failure
incomplete = thrown "Bridge registry is incomplete"

-- A document's registration at the time `today`.
unfoldable pub registration_of : ℕ → String → RegistryDoc → Result Failure DeviceRegistration
registration_of today device doc = do
  organization ← or_throw (required_string doc.organization_id) incomplete
  branch ← or_throw (required_string doc.branch_id) incomplete
  path ← or_throw (required_string doc.device_document_path) incomplete
  let versions = nonempty doc.secret_version_names
  throw_if (length versions == 0) incomplete
  ok (record {
    device_id = device;
    organization_id = organization;
    branch_id = branch;
    device_document_path = path;
    enabled = doc.enabled && is_text doc.state "active";
    secret_version_names =
        take (if before doc.previous_secret_valid_until today then 1 else 2) versions;
  })

unfoldable pub get_device : ℕ → Store → String → Result Failure (Option DeviceRegistration)
get_device today s device = elim (s.registry device) [
  | none ↦ ok none
  | some doc ↦ registration_of today device doc >>= λ r. ok (some r)
]

-- `createHash("sha256").update(`${a}\0${b}`, "utf8").digest("hex")`
abbrev pub KeyHash : Type 0
KeyHash = String → String → String

module _ (key : KeyHash) where
  abbrev pub replay_document : DeviceRegistration → String → ℕ → ReplayDoc
  replay_document reg hash now = record {
    device_id = reg.device_id;
    organization_id = reg.organization_id;
    body_hash = hash;
    received_at = now;
    expires_at = now + 600_000;
  }

  abbrev pub claim_of : Option ReplayDoc → String → String → ReplayDoc → Store → ReplayClaim × Store
  claim_of (some doc) name hash fresh s =
      (if str_eq doc.body_hash hash then repeat else conflict, s)
  claim_of none name hash fresh s = (new, record s { replays = put s.replays name (some fresh) })

  unfoldable pub claim_replay :
      DeviceRegistration → String → String → ℕ → Store → ReplayClaim × Store
  claim_replay reg nonce hash now s =
      let name = key reg.device_id nonce in
      claim_of (s.replays name) name hash (replay_document reg hash now) s

abbrev set_if_some {ℓ} : {A : Type ℓ} → Option A → Option A → Option A
set_if_some none old = old
set_if_some (some a) old = some a

abbrev status_field {ℓ} :
    {A : Type ℓ} → Option BridgeStatus → (BridgeStatus → Option A) → Option A → Option A
status_field none f old = old
status_field (some status) f old = set_if_some (f status) old

unfoldable pub record_contact :
    DeviceRegistration → Option BridgeStatus → EventWriteContext → Store → Store
record_contact reg status c s =
    let d = s.devices reg.device_document_path in
    record s {
      devices = put s.devices reg.device_document_path (record d {
        last_seen = some c.received_at;
        connection_status =
            status_field status (λ b. some (if b.device_connected then "online" else "offline"))
              d.connection_status;
        pending_local_events =
            status_field status (λ b. some b.pending_events) d.pending_local_events;
        last_successful_device_poll =
            status_field status (λ b. b.last_successful_device_poll) d.last_successful_device_poll;
        device_model = status_field status (λ b. required_string b.device_model) d.device_model;
        device_serial = status_field status (λ b. required_string b.device_serial) d.device_serial;
        firmware_version =
            status_field status (λ b. required_string b.firmware_version) d.firmware_version;
        bridge_version = set_if_some c.bridge_version d.bridge_version;
      });
    }
