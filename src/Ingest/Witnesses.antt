-- ===== src/Ingest/Witnesses.antt =====
-- The theorems on ingestion at the example's terminal.
use mathlib.Core.List.{Perm}
use attendence_system.Prelude.{
  ℕ, ◌+◌, ◌≤◌, ◌≡◌, ◌⊎◌, ◌≢◌, refl, true, List, [], ◌∷◌, none, some, String, All, length,
}
use attendence_system.Prelude.Result.{ok}
use attendence_system.Ingest.Types.{
  BridgeHeaders, IngestResponse, EventWriteResult, conflict, CommandExchangeResult,
}
use attendence_system.Ingest.Protocol.{
  compute_signature, has_valid_signature, one_header, parse_bridge_headers, from_hex, nibble,
  check_secrets,
}
use attendence_system.Ingest.Classify.{
  Classified, judge, classify_from, classify_events, parse_envelope,
}
use attendence_system.Ingest.Classify.Laws.{
  verdicts, NoneSeen, IsAcceptable, classify_events-partition,
}
use attendence_system.Ingest.Service.{
  Prepared, check_envelope, prepare, answer_events, commit, ingest,
}
use attendence_system.Ingest.Service.Laws.{
  IsVetted, IsAddressed, IsOneSided, ingest-IsVetted, ingest-answer,
}
use attendence_system.Ingest.Repository.{Store, EventDoc, registration_of, get_device, claim_replay}
use attendence_system.Ingest.Repository.Laws.{claim_replay-again}
use attendence_system.Ingest.Writes.{
  mapped_employee, event_document, write_one, write_each, write_unmapped_aggregates, touch_device,
  write_events,
}
use attendence_system.Ingest.Writes.Batch.{
  write_events-reported, write_events-kept, write_events-again,
}
use attendence_system.Ingest.Commands.{acknowledge}
use attendence_system.Ingest.Commands.Again.{acknowledge-again}
use attendence_system.Ingest.Delivery.{exchange_commands}
use attendence_system.Ingest.Delivery.Laws.{IsDeliverable, exchange_commands-IsDeliverable}
use attendence_system.Ingest.Examples.{
  now, event_name, other_name, signature, nonce, key, registration, event, entries, events, range,
  host, input, context, store, query, results, repository,
}

abbrev accepted_headers : BridgeHeaders
accepted_headers = record {
  version = "1";
  device_id = "terminal-1";
  timestamp = "1760000000";
  timestamp_seconds = 1_760_000_000;
  nonce = nonce;
  signature = signature;
}

abbrev secrets : List (List ℕ)
secrets = (1 ∷ 2 ∷ []) ∷ []

abbrev classified : Classified
classified = record {
  valid = event event_name now ∷ [];
  rejected =
      record {
        id = other_name;
        code = "event_time_out_of_range";
        message = "Event time is outside the accepted range";
      }
      ∷ [];
}

classified_run : classify_events range entries "terminal-1" ≡ ok classified
unfolding classify_events classify_from judge
classified_run = refl

classify_events-partition_example :
    NoneSeen [] entries
    × Perm (verdicts classified) (event_name ∷ other_name ∷ [])
    × All (IsAcceptable range "terminal-1") classified.valid
classify_events-partition_example =
    classify_events-partition range "terminal-1" entries classified (refl, (refl, tt))
      classified_run

abbrev answered : IngestResponse
answered = record {
  protocol_version = "1";
  request_id = nonce;
  device_id = "terminal-1";
  organization_id = "acme";
  branch_id = "main";
  accepted = event_name ∷ [];
  duplicates = [];
  rejected = classified.rejected;
  commands = [];
  acknowledged_command_ids = [];
}

ingest_run : (ingest host repository input store).0 ≡ ok answered
unfolding ingest prepare parse_bridge_headers one_header get_device registration_of
    has_valid_signature check_secrets compute_signature from_hex nibble parse_envelope
    check_envelope classify_events classify_from judge commit claim_replay answer_events
    write_events write_each write_one event_document mapped_employee
ingest_run = refl

ingest-answer_example :
    (p : Prepared) × IsVetted host repository input store p
    × IsAddressed host repository p answered
    × IsOneSided host repository answered
ingest-answer_example = ingest-answer host repository input store answered ingest_run

ingest-IsVetted_example :
    ((ingest host repository input store).1 ≡ store)
    ⊎ ((p : Prepared) × IsVetted host repository input store p
        × (ingest host repository input store ≡ commit host repository input p store))
ingest-IsVetted_example = ingest-IsVetted host repository input store

abbrev claimed : Store
claimed = (claim_replay key registration nonce "hash" now store).1

claimed_first : (claim_replay key registration nonce "hash" now store).0 ≢ conflict
unfolding claim_replay
claimed_first h = cc

claim_replay-again_example :
    claim_replay key registration nonce "other" (now + 1) claimed ≡ (conflict, claimed)
claim_replay-again_example =
    claim_replay-again key registration nonce "hash" "other" now (now + 1) store claimed_first

written_run :
    (write_events key registration context events store).0
    ≡ ok (record { accepted = event_name ∷ other_name ∷ []; duplicates = [] })
unfolding write_events write_each write_one event_document mapped_employee
written_run = refl

abbrev written : EventWriteResult
written = record { accepted = event_name ∷ other_name ∷ []; duplicates = [] }

write_events-reported_example :
    Perm {A = String} (event_name ∷ other_name ∷ []) (event_name ∷ other_name ∷ [])
write_events-reported_example =
    write_events-reported key registration context events store written written_run

write_events-again_example :
    (write_events key registration context events
      (write_events key registration context events store).1).0
    ≡ ok (record { accepted = []; duplicates = event_name ∷ other_name ∷ [] })
write_events-again_example =
    write_events-again key registration context events store written context written_run

abbrev written_store : Store
written_store = (write_events key registration context events store).1

abbrev document : EventDoc
document = event_document registration (event event_name now) context none

document_run : written_store.attendance_events "acme" event_name ≡ some document
unfolding write_events write_each write_one event_document mapped_employee write_unmapped_aggregates
    touch_device
document_run = refl

write_events-kept_example :
    (write_events key registration context events written_store).1.attendance_events "acme"
      event_name
    ≡ some document
write_events-kept_example =
    write_events-kept key registration context events written_store "acme" event_name document
      document_run

acknowledge-again_example :
    acknowledge key registration context
      (acknowledge key registration context store results store).1
      results
      (acknowledge key registration context store results store).1
    ≡ acknowledge key registration context store results store
acknowledge-again_example = acknowledge-again key registration context results store context

exchange_commands-IsDeliverable_example :
    (r : CommandExchangeResult) × ((exchange_commands key query registration results context true
        store).0
      ≡ ok r)
    × (r.acknowledged_command_ids ≡ (acknowledge key registration context store results store).0)
    × (length r.commands ≤ 1)
    × All
        (IsDeliverable key registration context
          (acknowledge key registration context store results store).1)
        r.commands
    × ((true ≡ true) ⊎ (r.commands ≡ []))
exchange_commands-IsDeliverable_example =
    exchange_commands-IsDeliverable key query registration results context true store
