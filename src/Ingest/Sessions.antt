-- ===== src/Ingest/Sessions.antt =====
-- `RealtimeSessionService.create` of cloud/functions/src/realtime/session.ts, on the repository of
-- the ingestion service.
pub mod Laws
mod Witnesses
use Prim.Native.Char.{code}
use attendence_system.Prelude.{
  ℕ, ◌≡◌, Bool, true, false, not, ◌&&◌, ◌||◌, List, Option, none, some, String, ltb, length, ◌==◌,
  if◌then◌else◌,
}
use attendence_system.Prelude.Result.{Result, ok, err, ◌>>=◌, ◌>>◌, throw_if, or_throw}
use attendence_system.Prelude.Text.{str_eq, append, is_empty}
use attendence_system.Ingest.Types.{
  IngestError, BridgeHeaders, DeviceRegistration, ReplayClaim, conflict, protocol_version,
}
use attendence_system.Ingest.Protocol.{
  HeaderSource, Crypto, parse_bridge_headers, has_valid_signature,
}
use attendence_system.Ingest.Classify.{invalid_request}
use attendence_system.Ingest.Service.{
  Failure, refused, thrown, refusing, IngestRepository, replay_conflict,
}

-- What `sessionEnvelopeSchema` gives; the version is a literal.
pub record SessionEnvelope : Type 0 where
  pub request_id : String
  pub device_id : String

pub record RealtimeSessionInput : Type 0 where
  pub headers : HeaderSource
  pub raw_body : List ℕ
  pub now : ℕ

pub record RealtimeSessionResponse : Type 0 where
  pub protocol_version : String
  pub request_id : String
  pub device_id : String
  pub organization_id : String
  pub database_url : String
  pub firebase_api_key : String
  pub custom_token : String
  pub control_path : String

-- What the service takes from libraries and from its surroundings: cryptography, the JSON parser
-- with the schema, the secrets, the tokens (for a user, a device and an organization), and the
-- environment with `trim`.
pub record SessionHost : Type 0 where
  pub crypto : Crypto
  pub decode : List ℕ → Option SessionEnvelope
  pub get_secrets : DeviceRegistration → Result Failure (List (List ℕ))
  pub create_custom_token : String → String → String → Result Failure String
  pub environment : String → Option String
  pub trim : String → String

abbrev session_error : ℕ → String → String → IngestError
session_error s c m = record { status = s; code = c; message = m }

-- `value.replace(/\/$/, "")`
abbrev pub without_slash : String → String
without_slash String.[] = ""
without_slash (String.◌∷◌ c String.[]) = if code c == b'/' then "" else String.◌∷◌ c ""
without_slash (String.◌∷◌ c (String.◌∷◌ d s)) = String.◌∷◌ c (without_slash (String.◌∷◌ d s))

abbrev pub configured : (String → String) → String → Option String → Result Failure String
configured trim name none = err (thrown (append name " is not configured"))
configured trim name (some value) =
    if is_empty (trim value)
    then err (thrown (append name " is not configured"))
    else ok (without_slash (trim value))

abbrev pub required_environment : SessionHost → String → Result Failure String
required_environment host name = configured host.trim name (host.environment name)

abbrev pub control_path_of : DeviceRegistration → String
control_path_of r =
    append "bridgeRealtime/v1/control/" (append r.organization_id (append "/" r.device_id))

-- A request that passed every test that comes before the first write.
pub record Authenticated : Type 0 where
  pub parsed_headers : BridgeHeaders
  pub envelope : SessionEnvelope
  pub registration : DeviceRegistration
  pub secrets : List (List ℕ)

module _ {S : Type 0} (host : SessionHost) (repository : IngestRepository S) where
  unfoldable pub authenticate : RealtimeSessionInput → S → Result Failure Authenticated
  authenticate input s = do
    throw_if (ltb 4096 (length input.raw_body)) (
        refused
          (session_error 413 "body_too_large" "Realtime session request exceeds the size limit"))
    headers ← refusing (parse_bridge_headers input.headers input.now)
    envelope ←
        or_throw (host.decode input.raw_body)
          (refused (invalid_request "Realtime session request is malformed"))
    throw_if
        (not (str_eq envelope.device_id headers.device_id)
          || not (str_eq envelope.request_id headers.nonce))
        (refused (invalid_request "Signed headers and request body do not match"))
    found ← repository.get_device s headers.device_id
    registration ←
        or_throw found
          (refused (session_error 401 "device_not_found" "Bridge authentication failed"))
    throw_if (not registration.enabled)
        (refused (session_error 403 "device_disabled" "Bridge device is disabled"))
    secrets ← host.get_secrets registration
    throw_if
        (length secrets == 0
          || not (has_valid_signature host.crypto secrets headers input.raw_body))
        (refused (session_error 401 "invalid_signature" "Bridge authentication failed"))
    ok (record {
      parsed_headers = headers;
      envelope = envelope;
      registration = registration;
      secrets = secrets;
    })

  unfoldable pub issue : Authenticated → Result Failure RealtimeSessionResponse
  issue a = do
    token ←
        host.create_custom_token (append "bridge-" a.registration.device_id)
          a.registration.device_id a.registration.organization_id
    url ← required_environment host "BRIDGE_REALTIME_DATABASE_URL"
    api_key ← required_environment host "BRIDGE_FIREBASE_WEB_API_KEY"
    ok (record {
      protocol_version = protocol_version;
      request_id = a.envelope.request_id;
      device_id = a.registration.device_id;
      organization_id = a.registration.organization_id;
      database_url = url;
      firebase_api_key = api_key;
      custom_token = token;
      control_path = control_path_of a.registration;
    })

  abbrev pub unless_conflict : ReplayClaim → Authenticated → Result Failure RealtimeSessionResponse
  unless_conflict claim a = elim claim [ conflict ↦ err (refused replay_conflict) | _ ↦ issue a ]

  abbrev pub claim_session :
      RealtimeSessionInput → Authenticated → S → Result Failure RealtimeSessionResponse × S
  claim_session input a s =
      let (claim, t) =
        repository.claim_replay a.registration a.parsed_headers.nonce
          (host.crypto.sha256_hex input.raw_body) input.now s in
      (unless_conflict claim a, t)

  abbrev pub after_tests :
      RealtimeSessionInput
      → S
      → Result Failure Authenticated
      → Result Failure RealtimeSessionResponse × S
  after_tests input s (err f) = (err f, s)
  after_tests input s (ok a) = claim_session input a s

  unfoldable pub create_session :
      RealtimeSessionInput → S → Result Failure RealtimeSessionResponse × S
  create_session input s = after_tests input s (authenticate input s)
