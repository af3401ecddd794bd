-- ===== src/Ingest/Examples.antt =====
-- A terminal, its store and its requests.
use Prim.Native.String
use attendence_system.Prelude.{
  ℕ, refl, true, false, List, [], ◌∷◌, none, some, String, if◌then◌else◌,
}
use attendence_system.Prelude.Result.{ok}
use attendence_system.Prelude.Text.{str_eq}
use attendence_system.Ingest.Types.{
  DeviceRegistration, NormalizedEvent, EventWriteContext, EventWriteResult, CommandResult,
  succeeded, IngestEnvelope, RawEvent,
}
use attendence_system.Ingest.Protocol.{
  HeaderSource, one, missing, to_lower_case, same_bytes, Crypto,
}
use attendence_system.Ingest.Classify.{Accepted}
use attendence_system.Ingest.Service.{Host, IngestInput, IngestRepository}
use attendence_system.Ingest.Repository.{Store, RegistryDoc, CommandDoc, KeyHash}
use attendence_system.Ingest.Delivery.{firestore_repository}

abbrev pub now : ℕ
now = 1_760_000_000_000

abbrev pub event_name : String
event_name = "0123456789abcdef0123456789abcdef0123456789abcdef0123456789abcdef"

abbrev pub other_name : String
other_name = "fedcba9876543210fedcba9876543210fedcba9876543210fedcba9876543210"

abbrev pub signature : String
signature = "00112233445566778899aabbccddeeff00112233445566778899aabbccddeeff"

abbrev pub nonce : String
nonce = "0123456789abcdef0123456789abcdef"

abbrev pub crypto : Crypto
crypto = record {
  sha256_hex = λ body. event_name;
  hmac_sha256_hex = λ secret text. signature;
  hmac_is_hex = λ secret text. refl;
}

abbrev pub key : KeyHash
key a b = String.◌++◌ a (String.◌++◌ "/" b)

abbrev pub registration : DeviceRegistration
registration = record {
  device_id = "terminal-1";
  organization_id = "acme";
  branch_id = "main";
  device_document_path = "organizations/acme/devices/terminal-1";
  enabled = true;
  secret_version_names = "secrets/1" ∷ [];
}

abbrev pub event : String → ℕ → NormalizedEvent
event id time = record {
  id = id;
  device_id = "terminal-1";
  device_serial = none;
  serial_no = some 7;
  employee_no = some "42";
  name = some "Nimal";
  event_time = time;
  major = 5;
  minor = 38;
  attendance_status = none;
  current_verify_mode = none;
  card_no = none;
  card_reader_no = none;
  door_no = none;
  raw = none;
  received_at = now;
}

abbrev pub entry : String → ℕ → RawEvent
entry id time = record { candidate_id = some id; parsed = some (event id time); raw_bytes = 100 }

-- One event in the accepted range and one from long before it.
abbrev pub entries : List RawEvent
entries = entry event_name now ∷ entry other_name 5 ∷ []

abbrev pub events : List NormalizedEvent
events = event event_name now ∷ event other_name 5 ∷ []

abbrev pub range : Accepted
range = record { earliest = 1_600_000_000_000; latest = 1_760_086_400_000 }

abbrev pub envelope : IngestEnvelope
envelope = record {
  protocol_version = "1";
  request_id = nonce;
  device_id = "terminal-1";
  probe = false;
  accept_commands = false;
  status = none;
  command_results = [];
  events = entries;
}

abbrev pub host : Host
host = record {
  crypto = crypto;
  decode = λ body. some (record { envelope = some envelope; event_count = some 2 });
  five_years_before = λ t. 1_600_000_000_000;
  get_secrets = λ reg. ok ((1 ∷ 2 ∷ []) ∷ []);
}

abbrev header : String → String → HeaderSource → HeaderSource
header name value rest other =
    if same_bytes other (to_lower_case name) then one value else rest other

abbrev pub headers : HeaderSource
headers = header "X-HikBridge-Version" "1" (
    header "X-HikBridge-Device" "terminal-1" (
      header "X-HikBridge-Timestamp" "1760000000" (
        header "X-HikBridge-Nonce" nonce
          (header "X-HikBridge-Signature" signature (λ name. missing)))))

abbrev pub input : IngestInput
input = record {
  headers = headers;
  raw_body = 123 ∷ 125 ∷ [];
  now = now;
  bridge_version = some "0.1";
}

abbrev pub context : EventWriteContext
context = record { request_id = nonce; received_at = now; bridge_version = none }

abbrev registry_document : RegistryDoc
registry_document = record {
  organization_id = some "acme";
  branch_id = some "main";
  device_document_path = some "organizations/acme/devices/terminal-1";
  secret_version_names = some "secrets/1" ∷ [];
  previous_secret_valid_until = none;
  enabled = true;
  state = some "active";
}

abbrev command_document : CommandDoc
command_document = record {
  device_id = some "terminal-1";
  state = some "queued";
  type' = some "upsert_user";
  employee_id = some "employee-1";
  employee_no = some "42";
  name = some "Nimal";
  created_at = some 1_759_999_000_000;
  expires_at = some 1_760_000_900_000;
  lease_until = none;
  finger_print_id = none;
  attempts = 0;
  last_dispatched_at = none;
  result_code = none;
  result_message = none;
  result = none;
  completed_at = none;
  updated_at = none;
}

-- The terminal is registered and two commands are queued for it.
abbrev pub store : Store
store = record {
  registry = λ id. if str_eq id "terminal-1" then some registry_document else none;
  replays = λ name. none;
  attendance_events = λ o i. none;
  device_identities = λ o i. none;
  unmapped_identities = λ o i. none;
  devices = λ path. record {
    last_seen = none;
    last_event_at = none;
    bridge_version = none;
    connection_status = none;
    pending_local_events = none;
    last_successful_device_poll = none;
    device_model = none;
    device_serial = none;
    firmware_version = none;
  };
  device_enrollments = λ o i. none;
  commands = λ o d i.
      if str_eq i "first"
      then some command_document
      else if str_eq i "second"
      then some command_document
      else none;
  fingerprint_lock = λ o d. none;
}

abbrev pub query : Store → String → String → List String
query s o d = "first" ∷ "second" ∷ []

abbrev pub results : List CommandResult
results =
    record { command_id = "first"; state = succeeded; code = none; message = none; output = none }
    ∷ []

abbrev pub repository : IngestRepository Store
repository = firestore_repository key query now

abbrev pub written : EventWriteResult
written = record { accepted = event_name ∷ []; duplicates = [] }
