-- ===== src/Ingest/Writes.antt =====
-- `FirestoreIngestRepository.writeEvents` of cloud/functions/src/ingest/firestore-repository.ts. The
-- reads of its transaction come before its writes: they are of the store `s` that it starts from.
pub mod Laws
pub mod Batch
use attendence_system.Prelude.{
  ℕ, ◌+◌, ◌≡◌, Bool, true, false, not, ◌&&◌, ◌||◌, List, [], ◌∷◌, ◌++◌, Option, none, some, String,
  ltb, is_some, get_or, if◌then◌else◌,
}
use attendence_system.Prelude.Result.{Result, ok, err, ◌>>=◌}
use attendence_system.Prelude.Text.{str_eq, is_empty}
use attendence_system.Ingest.Types.{
  DeviceRegistration, NormalizedEvent, EventWriteResult, EventWriteContext,
}
use attendence_system.Ingest.Service.{Failure, thrown}
use attendence_system.Ingest.Repository.{
  Store, EventDoc, UnmappedDoc, MappingStatus, mapped, unmapped, KeyHash, put, required_string,
}

abbrev pub set_in {ℓ} :
    {A : Type ℓ} → (String → String → A) → String → String → A → String → String → A
set_in f organization name value = put f organization (put (f organization) name value)

-- `mappings.get(key)`, and from it the employee that the event is mapped to
unfoldable pub mapped_employee : KeyHash → Store → DeviceRegistration → String → Option String
mapped_employee key s reg employee_no =
    if is_empty employee_no
    then none
    else elim (s.device_identities reg.organization_id (key reg.device_id employee_no)) [
      | none ↦ none
      | some doc ↦ if doc.active then required_string doc.employee_id else none
    ]

unfoldable pub event_document :
    DeviceRegistration → NormalizedEvent → EventWriteContext → Option String → EventDoc
event_document reg e c employee = record {
  id = e.id;
  organization_id = reg.organization_id;
  branch_id = reg.branch_id;
  device_id = reg.device_id;
  device_serial = e.device_serial;
  serial_no = e.serial_no;
  employee_no = get_or e.employee_no "";
  employee_id = employee;
  device_employee_name = get_or e.name "";
  event_time = e.event_time;
  major = e.major;
  minor = e.minor;
  attendance_status = get_or e.attendance_status "";
  verify_mode = get_or e.current_verify_mode "";
  card_no = get_or e.card_no "";
  card_reader_no = e.card_reader_no;
  door_no = e.door_no;
  source = "hikvision";
  source_event_id = e.id;
  raw = e.raw;
  bridge_received_at = e.received_at;
  received_at = c.received_at;
  ingestion_request_id = c.request_id;
  mapping_status_at_ingest = if is_some employee then mapped else unmapped;
}

pub record UnmappedAggregate : Type 0 where
  pub count : ℕ
  pub first_event_time : ℕ
  pub last_event_time : ℕ
  pub employee_no : String

-- The map `aggregates`, in the order of insertion.
abbrev pub aggregated :
    String → String → ℕ → List (String × UnmappedAggregate) → List (String × UnmappedAggregate)
aggregated name number t [] =
    (name, record { count = 1; first_event_time = t; last_event_time = t; employee_no = number })
    ∷ []
aggregated name number t ((n, a) ∷ rest) =
    let added = aggregated name number t rest in
    if str_eq n name
    then (
      n,
      record a {
        count = a.count + 1;
        first_event_time = if ltb t a.first_event_time then t else a.first_event_time;
        last_event_time = if ltb a.last_event_time t then t else a.last_event_time;
      },
    )
      ∷ rest
    else (n, a) ∷ added

-- The variables of the loop, with the store as written so far.
pub record Progress : Type 0 where
  pub store : Store
  pub accepted : List String
  pub duplicates : List String
  pub aggregates : List (String × UnmappedAggregate)

abbrev already_exists : Failure
already_exists = thrown "Document already exists"

-- `transaction.create`
abbrev pub create_event :
    DeviceRegistration → NormalizedEvent → EventDoc → Store → Result Failure Store
create_event reg e doc w =
    if is_some (w.attendance_events reg.organization_id e.id)
    then err already_exists
    else ok (record w {
      attendance_events = set_in w.attendance_events reg.organization_id e.id (some doc);
    })

abbrev pub count_unmapped :
    KeyHash
    → DeviceRegistration
    → NormalizedEvent
    → Option String
    → List (String × UnmappedAggregate)
    → List (String × UnmappedAggregate)
count_unmapped key reg e employee aggregates =
    let number = get_or e.employee_no "" in
    if not (is_some employee) && not (is_empty number)
    then aggregated (key reg.device_id number) number e.event_time aggregates
    else aggregates

abbrev pub latest_event : List NormalizedEvent → Option ℕ → Option ℕ
latest_event [] latest = latest
latest_event (e ∷ es) none = latest_event es (some e.event_time)
latest_event (e ∷ es) (some t) =
    latest_event es (some (if ltb t e.event_time then e.event_time else t))

module _ (key : KeyHash) (reg : DeviceRegistration) (c : EventWriteContext) where
  abbrev pub write_fresh : Store → NormalizedEvent → Progress → Result Failure Progress
  write_fresh s e p =
      let employee = mapped_employee key s reg (get_or e.employee_no "") in
      create_event reg e (event_document reg e c employee) p.store >>= λ w. ok (record {
        store = w;
        accepted = p.accepted ++ (e.id ∷ []);
        duplicates = p.duplicates;
        aggregates = count_unmapped key reg e employee p.aggregates;
      })

  unfoldable pub write_one : Store → NormalizedEvent → Progress → Result Failure Progress
  write_one s e p =
      if is_some (s.attendance_events reg.organization_id e.id)
      then ok (record p { duplicates = p.duplicates ++ (e.id ∷ []) })
      else write_fresh s e p

  unfoldable pub write_each : Store → List NormalizedEvent → Progress → Result Failure Progress
  write_each s [] p = ok p
  write_each s (e ∷ es) p = write_one s e p >>= λ q. write_each s es q

  -- The aggregate's count is added to the document's; `firstSeenAt` is kept where there is one.
  abbrev pub unmapped_document : Option UnmappedDoc → UnmappedAggregate → UnmappedDoc
  unmapped_document old a = record {
    organization_id = reg.organization_id;
    branch_id = reg.branch_id;
    device_id = reg.device_id;
    employee_no = a.employee_no;
    state = "unmapped";
    event_count = elim old [ none ↦ a.count | some d ↦ d.event_count + a.count ];
    first_seen_at = elim old [
      | none ↦ some a.first_event_time
      | some d ↦ some (get_or d.first_seen_at a.first_event_time)
    ];
    last_seen_at = a.last_event_time;
    updated_at = c.received_at;
  }

  unfoldable pub write_unmapped_aggregates :
      Store → List (String × UnmappedAggregate) → Store → Store
  write_unmapped_aggregates s [] w = w
  write_unmapped_aggregates s ((name, a) ∷ rest) w = write_unmapped_aggregates s rest (record w {
    unmapped_identities =
        set_in w.unmapped_identities reg.organization_id name
          (some (unmapped_document (s.unmapped_identities reg.organization_id name) a));
  })

  unfoldable pub touch_device : List NormalizedEvent → Store → Store
  touch_device events w =
      let d = w.devices reg.device_document_path in
      let latest = latest_event events none in
      record w {
        devices = put w.devices reg.device_document_path (record d {
          last_seen = some c.received_at;
          last_event_at = if is_some latest then latest else d.last_event_at;
          bridge_version = if is_some c.bridge_version then c.bridge_version else d.bridge_version;
          connection_status = some "online";
        });
      }

  abbrev pub started : Store → Progress
  started s = record { store = s; accepted = []; duplicates = []; aggregates = [] }

  abbrev pub finish :
      List NormalizedEvent
      → Store
      → Result Failure Progress
      → Result Failure EventWriteResult × Store
  finish events s (err f) = (err f, s)
  finish events s (ok p) = (
    ok (record { accepted = p.accepted; duplicates = p.duplicates }),
    touch_device events (write_unmapped_aggregates s p.aggregates p.store),
  )

  unfoldable pub write_events :
      List NormalizedEvent → Store → Result Failure EventWriteResult × Store
  write_events [] s = (ok (record { accepted = []; duplicates = [] }), s)
  write_events (e ∷ es) s = finish (e ∷ es) s (write_each s (e ∷ es) (started s))
