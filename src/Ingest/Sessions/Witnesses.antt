-- ===== src/Ingest/Sessions/Witnesses.antt =====
-- A session of the example's terminal.
use attendence_system.Prelude.{◌≡◌, refl, [], ◌∷◌, some}
use attendence_system.Prelude.Result.{ok}
use attendence_system.Prelude.Text.{append}
use attendence_system.Ingest.Protocol.{
  compute_signature, has_valid_signature, one_header, parse_bridge_headers, from_hex, nibble,
  check_secrets,
}
use attendence_system.Ingest.Repository.{registration_of, get_device, claim_replay}
use attendence_system.Ingest.Sessions.{
  SessionHost, RealtimeSessionInput, RealtimeSessionResponse, Authenticated, authenticate, issue,
  create_session,
}
use attendence_system.Ingest.Sessions.Laws.{IsAuthentic, IsGivenTo, create_session-IsAuthentic}
use attendence_system.Ingest.Examples.{now, nonce, crypto, headers, input, store, repository}

abbrev session_host : SessionHost
session_host = record {
  crypto = crypto;
  decode = λ body. some (record { request_id = nonce; device_id = "terminal-1" });
  get_secrets = λ reg. ok ((1 ∷ 2 ∷ []) ∷ []);
  create_custom_token = λ user device organization. ok (append organization (append "/" user));
  environment = λ name. some "https://acme.example/";
  trim = λ s. s;
}

abbrev session_input : RealtimeSessionInput
session_input = record { headers = headers; raw_body = input.raw_body; now = now }

abbrev session : RealtimeSessionResponse
session = record {
  protocol_version = "1";
  request_id = nonce;
  device_id = "terminal-1";
  organization_id = "acme";
  database_url = "https://acme.example";
  firebase_api_key = "https://acme.example";
  custom_token = "acme/bridge-terminal-1";
  control_path = "bridgeRealtime/v1/control/acme/terminal-1";
}

session_run : (create_session session_host repository session_input store).0 ≡ ok session
unfolding create_session authenticate issue parse_bridge_headers one_header get_device
    registration_of has_valid_signature check_secrets compute_signature from_hex nibble claim_replay
session_run = refl

create_session-IsAuthentic_example :
    (a : Authenticated) × IsAuthentic session_host repository session_input store a
    × IsGivenTo session_host repository a session
create_session-IsAuthentic_example =
    create_session-IsAuthentic session_host repository session_input store session session_run
