-- ===== src/Ingest/Classify.antt =====
-- `parseEnvelope` and `classifyEvents` of cloud/functions/src/ingest/schema.ts. The schemas
-- themselves are built from the library `zod`: what they make of a value is part of the value here
-- (`RawEvent.parsed`, `Decoded.envelope`).
pub mod Laws
use attendence_system.Prelude.{
  ℕ, ◌+◌, ◌≡◌, Bool, true, false, not, ◌&&◌, ◌||◌, List, [], ◌∷◌, Option, none, some, String, ltb,
  leb, if◌then◌else◌, get_or,
}
use attendence_system.Prelude.Result.{Result, ok, err, ◌>>=◌}
use attendence_system.Prelude.Text.{str_eq, includes, codes, is_hex, exactly}
use attendence_system.Ingest.Types.{
  IngestError, IngestEnvelope, RawEvent, NormalizedEvent, RejectedEvent, max_batch_size,
  max_raw_event_bytes,
}

abbrev pub invalid_request : String → IngestError
invalid_request m = record { status = 400; code = "invalid_request"; message = m }

abbrev pub batch_too_large : IngestError
batch_too_large = record {
  status = 413;
  code = "batch_too_large";
  message = "Event batch exceeds 100 records";
}

-- The JSON value of a body: what `envelopeSchema.safeParse` makes of it, and the length of its
-- `events` where that is an array.
pub record Decoded : Type 0 where
  pub envelope : Option IngestEnvelope
  pub event_count : Option ℕ

abbrev pub too_many : Option ℕ → Bool
too_many none = false
too_many (some n) = ltb max_batch_size n

-- The argument is the value of `JSON.parse`, none where it throws.
unfoldable pub parse_envelope : Option Decoded → Result IngestError IngestEnvelope
parse_envelope none = err (invalid_request "Request body is not valid JSON")
parse_envelope (some d) = elim d.envelope [
  | some e ↦ ok e
  | none ↦ err (
      if too_many d.event_count
      then batch_too_large
      else invalid_request "Request envelope is malformed")
]

abbrev pub is_event_id : String → Bool
is_event_id s = exactly is_hex 64 (codes s)

-- The dates between which an event may lie: five calendar years back, one day ahead.
pub record Accepted : Type 0 where
  pub earliest : ℕ
  pub latest : ℕ

-- `five_years_before` is `setUTCFullYear` on the year less 5, of the runtime's calendar.
abbrev pub accepted_at : (ℕ → ℕ) → ℕ → Accepted
accepted_at five_years_before now = record {
  earliest = five_years_before now;
  latest = now + 86_400_000;
}

abbrev pub reject : String → String → String → RejectedEvent
reject id code m = record { id = id; code = code; message = m }

-- What becomes of an event whose id is good.
pub data Verdict : Type 0 where
  accept : NormalizedEvent → Verdict
  refuse : RejectedEvent → Verdict

unfoldable pub judge : Accepted → String → String → RawEvent → Verdict
judge range device id v = elim v.parsed [
  | none ↦ refuse (reject id "invalid_event" "Event fields are malformed")
  | some e ↦
      if not (str_eq e.device_id device)
      then refuse
          (reject id "cross_device_event" "Event device does not match authenticated bridge")
      else if ltb max_raw_event_bytes v.raw_bytes
      then refuse (reject id "raw_payload_too_large" "Raw event exceeds the size limit")
      else if ltb e.event_time range.earliest || ltb range.latest e.event_time
      then refuse (reject id "event_time_out_of_range" "Event time is outside the accepted range")
      else accept e
]

pub record Classified : Type 0 where
  pub valid : List NormalizedEvent
  pub rejected : List RejectedEvent

abbrev pub add_verdict : Verdict → Classified → Classified
add_verdict (accept e) c = record c { valid = e ∷ c.valid }
add_verdict (refuse r) c = record c { rejected = r ∷ c.rejected }

-- The loop; `seen` holds the ids of the events before.
unfoldable pub classify_from :
    Accepted → String → List String → List RawEvent → Result IngestError Classified
unfolding judge
classify_from range device seen [] = ok (record { valid = []; rejected = [] })
classify_from range device seen (v ∷ vs) =
    let id = get_or v.candidate_id "" in
    let rest = classify_from range device (id ∷ seen) vs in
    if not (is_event_id id)
    then err (invalid_request "Every event must contain a valid deterministic ID")
    else if includes seen id
    then err (invalid_request "An event ID is repeated within the batch")
    else (rest >>= λ c. ok (add_verdict (judge range device id v) c))

unfoldable pub classify_events : Accepted → List RawEvent → String → Result IngestError Classified
classify_events range values device = classify_from range device [] values
