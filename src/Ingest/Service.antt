-- ===== src/Ingest/Service.antt =====
-- `IngestionService.ingest` of cloud/functions/src/ingest/service.ts. The interfaces
-- `IngestRepository` and `BridgeSecretProvider` of ingest/types.ts are a record of operations on a
-- state `S`, which the service takes as a parameter.
pub mod Laws
use attendence_system.Prelude.{
  ℕ, ◌≡◌, Bool, true, false, not, ◌&&◌, ◌||◌, List, [], ◌∷◌, Option, none, some, String, ltb,
  length, ◌==◌, is_some, if◌then◌else◌,
}
use attendence_system.Prelude.Result.{Result, ok, err, ◌>>=◌, ◌>>◌, throw_if, or_throw}
use attendence_system.Prelude.Text.{str_eq}
use attendence_system.Ingest.Types.{
  IngestError, BridgeHeaders, DeviceRegistration, NormalizedEvent, IngestEnvelope, BridgeStatus,
  CommandResult, CommandExchangeResult, EventWriteResult, EventWriteContext, ReplayClaim, conflict,
  IngestResponse, protocol_version, max_body_bytes,
}
use attendence_system.Ingest.Protocol.{
  HeaderSource, Crypto, parse_bridge_headers, has_valid_signature,
}
use attendence_system.Ingest.Classify.{
  Decoded, accepted_at, Classified, parse_envelope, classify_events, invalid_request,
}

-- What the service throws: its own error, or an `Error` that something below it threw.
pub data Failure : Type 0 where
  refused : IngestError → Failure
  thrown : String → Failure

abbrev pub refusing {ℓ} : {A : Type ℓ} → Result IngestError A → Result Failure A
refusing (ok a) = ok a
refusing (err e) = err (refused e)

pub record IngestRepository (S : Type 0) : Type 0 where
  pub get_device : S → String → Result Failure (Option DeviceRegistration)
  pub claim_replay : DeviceRegistration → String → String → ℕ → S → ReplayClaim × S
  pub write_events :
      DeviceRegistration
      → List NormalizedEvent
      → EventWriteContext
      → S
      → Result Failure EventWriteResult × S
  pub record_contact : DeviceRegistration → Option BridgeStatus → EventWriteContext → S → S
  pub exchange_commands :
      DeviceRegistration
      → List CommandResult
      → EventWriteContext
      → Bool
      → S
      → Result Failure CommandExchangeResult × S

-- What the service takes from libraries and from its surroundings: cryptography, the JSON parser
-- with the schemas, the calendar, and the secrets.
pub record Host : Type 0 where
  pub crypto : Crypto
  pub decode : List ℕ → Option Decoded
  pub five_years_before : ℕ → ℕ
  pub get_secrets : DeviceRegistration → Result Failure (List (List ℕ))

pub record IngestInput : Type 0 where
  pub headers : HeaderSource
  pub raw_body : List ℕ
  pub now : ℕ
  pub bridge_version : Option String

abbrev ingest_error : ℕ → String → String → IngestError
ingest_error s c m = record { status = s; code = c; message = m }

abbrev pub replay_conflict : IngestError
replay_conflict =
    ingest_error 409 "replay_conflict" "Request nonce was reused with different content"

abbrev refuse_if : Bool → IngestError → Result Failure (Unit {0})
refuse_if bad e = throw_if bad (refused e)

-- The tests of the envelope's shape, in order.
abbrev pub no_events : IngestEnvelope → Bool
no_events e = length e.events == 0

unfoldable pub check_envelope : BridgeHeaders → IngestEnvelope → Result Failure (Unit {0})
check_envelope h e = do
  refuse_if (not (str_eq e.device_id h.device_id) || not (str_eq e.request_id h.nonce))
      (invalid_request "Signed headers and request body do not match")
  refuse_if (e.probe && not (no_events e)) (invalid_request "A probe request cannot contain events")
  refuse_if (not e.probe && is_some e.status)
      (invalid_request "Bridge status is accepted only on probe requests")
  refuse_if (not e.probe && not (length e.command_results == 0))
      (invalid_request "Command results are accepted only on probe requests")
  refuse_if (not e.probe && e.accept_commands)
      (invalid_request "Commands can be requested only on probe requests")
  refuse_if (not e.probe && no_events e) (invalid_request "An event request cannot be empty")

-- A request that passed every test that comes before the first write.
pub record Prepared : Type 0 where
  pub parsed_headers : BridgeHeaders
  pub registration : DeviceRegistration
  pub secrets : List (List ℕ)
  pub envelope : IngestEnvelope
  pub classified : Classified

abbrev pub response :
    IngestEnvelope
    → DeviceRegistration
    → EventWriteResult
    → CommandExchangeResult
    → Classified
    → IngestResponse
response e reg written exchanged c = record {
  protocol_version = protocol_version;
  request_id = e.request_id;
  device_id = e.device_id;
  organization_id = reg.organization_id;
  branch_id = reg.branch_id;
  accepted = written.accepted;
  duplicates = written.duplicates;
  rejected = c.rejected;
  commands = exchanged.commands;
  acknowledged_command_ids = exchanged.acknowledged_command_ids;
}

abbrev pub nothing_written : EventWriteResult
nothing_written = record { accepted = []; duplicates = [] }

abbrev pub nothing_exchanged : CommandExchangeResult
nothing_exchanged = record { commands = []; acknowledged_command_ids = [] }

abbrev pub nothing_classified : Classified
nothing_classified = record { valid = []; rejected = [] }

module _ {S : Type 0} (host : Host) (repository : IngestRepository S) where
  unfoldable pub prepare : IngestInput → S → Result Failure Prepared
  prepare input s = do
    refuse_if (ltb max_body_bytes (length input.raw_body))
        (ingest_error 413 "body_too_large" "Request body exceeds the size limit")
    headers ← refusing (parse_bridge_headers input.headers input.now)
    found ← repository.get_device s headers.device_id
    registration ←
        or_throw found
          (refused (ingest_error 401 "device_not_found" "Bridge authentication failed"))
    refuse_if (not registration.enabled)
        (ingest_error 403 "device_disabled" "Bridge device is disabled")
    secrets ← host.get_secrets registration
    refuse_if
        (length secrets == 0
          || not (has_valid_signature host.crypto secrets headers input.raw_body))
        (ingest_error 401 "invalid_signature" "Bridge authentication failed")
    envelope ← refusing (parse_envelope (host.decode input.raw_body))
    check_envelope headers envelope
    classified ← refusing (
        classify_events (accepted_at host.five_years_before input.now) envelope.events
          headers.device_id)
    ok (record {
      parsed_headers = headers;
      registration = registration;
      secrets = secrets;
      envelope = envelope;
      classified = classified;
    })

  abbrev pub context_of : IngestInput → Prepared → EventWriteContext
  context_of input p = record {
    request_id = p.envelope.request_id;
    received_at = input.now;
    bridge_version = input.bridge_version;
  }

  unfoldable pub answer_probe : IngestInput → Prepared → S → Result Failure IngestResponse × S
  answer_probe input p s =
      let e = p.envelope in
      let contacted = repository.record_contact p.registration e.status (context_of input p) s in
      let (exchanged, t) =
        repository.exchange_commands p.registration e.command_results (context_of input p)
          e.accept_commands contacted in
      (exchanged >>= λ x. ok (response e p.registration nothing_written x nothing_classified), t)

  unfoldable pub answer_events : IngestInput → Prepared → S → Result Failure IngestResponse × S
  answer_events input p s =
      let (written, t) =
        repository.write_events p.registration p.classified.valid (context_of input p) s in
      (written >>= λ w. ok (response p.envelope p.registration w nothing_exchanged p.classified), t)

  abbrev pub answer : IngestInput → Prepared → S → Result Failure IngestResponse × S
  answer input p s = if p.envelope.probe then answer_probe input p s else answer_events input p s

  abbrev pub after_claim :
      ReplayClaim → IngestInput → Prepared → S → Result Failure IngestResponse × S
  after_claim claim input p s = elim claim [
    | conflict ↦ (err (refused replay_conflict), s)
    | _ ↦ answer input p s
  ]

  unfoldable pub commit : IngestInput → Prepared → S → Result Failure IngestResponse × S
  commit input p s =
      let (claim, t) =
        repository.claim_replay p.registration p.parsed_headers.nonce
          (host.crypto.sha256_hex input.raw_body) input.now s in
      after_claim claim input p t

  unfoldable pub ingest : IngestInput → S → Result Failure IngestResponse × S
  ingest input s = elim (prepare input s) [ err f ↦ (err f, s) | ok p ↦ commit input p s ]
