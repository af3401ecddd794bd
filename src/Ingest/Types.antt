-- ===== src/Ingest/Types.antt =====
-- cloud/functions/src/ingest/types.ts and errors.ts. A date is its milliseconds; a request body is
-- its bytes.
use attendence_system.Prelude.{ℕ, Bool, List, Option, String}

abbrev pub protocol_version : String
protocol_version = "1"

abbrev pub max_body_bytes : ℕ
max_body_bytes = 1_048_576

abbrev pub max_batch_size : ℕ
max_batch_size = 100

abbrev pub max_raw_event_bytes : ℕ
max_raw_event_bytes = 65_536

abbrev pub request_skew_seconds : ℕ
request_skew_seconds = 300

pub record IngestError : Type 0 where
  pub status : ℕ
  pub code : String
  pub message : String

pub record BridgeHeaders : Type 0 where
  pub version : String
  pub device_id : String
  pub timestamp : String
  pub timestamp_seconds : ℕ
  pub nonce : String
  pub signature : String

pub record DeviceRegistration : Type 0 where
  pub device_id : String
  pub organization_id : String
  pub branch_id : String
  pub device_document_path : String
  pub enabled : Bool
  pub secret_version_names : List String

-- `event_time` and `received_at` are the dates that the texts stand for; `raw` is the JSON text.
pub record NormalizedEvent : Type 0 where
  pub id : String
  pub device_id : String
  pub device_serial : Option String
  pub serial_no : Option ℕ
  pub employee_no : Option String
  pub name : Option String
  pub event_time : ℕ
  pub major : ℕ
  pub minor : ℕ
  pub attendance_status : Option String
  pub current_verify_mode : Option String
  pub card_no : Option String
  pub card_reader_no : Option ℕ
  pub door_no : Option ℕ
  pub raw : Option String
  pub received_at : ℕ

pub data DeviceCommandType : Type 0 where
  upsert_user enroll_fingerprint : DeviceCommandType

pub record DeviceCommand : Type 0 where
  pub id : String
  pub type' : DeviceCommandType
  pub issued_at : ℕ
  pub expires_at : ℕ
  pub employee_id : String
  pub employee_no : String
  pub name : String
  pub finger_print_id : Option ℕ

pub data ResultState : Type 0 where
  succeeded failed : ResultState

pub record CommandOutput : Type 0 where
  pub employee_no : Option String
  pub finger_print_id : Option ℕ
  pub quality : Option ℕ

pub record CommandResult : Type 0 where
  pub command_id : String
  pub state : ResultState
  pub code : Option String
  pub message : Option String
  pub output : Option CommandOutput

pub record CommandExchangeResult : Type 0 where
  pub commands : List DeviceCommand
  pub acknowledged_command_ids : List String

pub record BridgeStatus : Type 0 where
  pub device_connected : Bool
  pub last_successful_device_poll : Option ℕ
  pub pending_events : ℕ
  pub device_model : Option String
  pub device_serial : Option String
  pub firmware_version : Option String

pub record RejectedEvent : Type 0 where
  pub id : String
  pub code : String
  pub message : String

pub record EventWriteResult : Type 0 where
  pub accepted : List String
  pub duplicates : List String

pub record IngestResponse : Type 0 where
  pub protocol_version : String
  pub request_id : String
  pub device_id : String
  pub organization_id : String
  pub branch_id : String
  pub accepted : List String
  pub duplicates : List String
  pub rejected : List RejectedEvent
  pub commands : List DeviceCommand
  pub acknowledged_command_ids : List String

pub record EventWriteContext : Type 0 where
  pub request_id : String
  pub received_at : ℕ
  pub bridge_version : Option String

pub data ReplayClaim : Type 0 where
  new repeat conflict : ReplayClaim

-- An entry of the `events` array as the code looks at it: its `id` where it is an object with a text
-- under that name, what `eventSchema.safeParse` makes of it, and the bytes of its raw payload.
pub record RawEvent : Type 0 where
  pub candidate_id : Option String
  pub parsed : Option NormalizedEvent
  pub raw_bytes : ℕ

pub record IngestEnvelope : Type 0 where
  pub protocol_version : String
  pub request_id : String
  pub device_id : String
  pub probe : Bool
  pub accept_commands : Bool
  pub status : Option BridgeStatus
  pub command_results : List CommandResult
  pub events : List RawEvent
