-- ===== src/Lib.antt =====
-- The core of the cloud functions of the attendance system
-- (Infact-HikBridge-v0.1/cloud/functions/src): device events come in through ingestion, the attendance
-- engine makes a day of the events, jobs recalculate days when something changes,
-- people manage employees, shifts and branches, and billing decides what an organization may create.
--
-- Parts and files:
--   Prelude: tests, lists, texts, results of code that may throw, sorting.
--   Attendance: attendance/engine.ts and attendance/types.ts, which calculate one day of one employee.
--     Types the records; Clock the time library as a parameter, with the laws of it that are used;
--     Window `shiftWindow` and `validShift`; Selection `selectPunches`; Minutes and Overtime the
--     rounding; Adjustments `applyAdjustments`; Exceptions the set of exceptions; Engine
--     `calculateAttendance`. Inference is attendance/shift-inference.ts.
--   Ingest: ingest/. Types is types.ts and errors.ts; Protocol is protocol.ts; Classify is
--     `parseEnvelope` and `classifyEvents` of schema.ts; Service is `IngestionService.ingest` over the
--     interface `IngestRepository`, a record of operations on a state. firestore-repository.ts is
--     in four files: Repository (`getDevice`, `claimReplay`, `recordContact`), Writes
--     (`writeEvents`), Commands and Delivery (`exchangeCommands`), and Delivery puts them together as
--     the repository that the service uses. Sessions is `RealtimeSessionService` of
--     realtime/session.ts, on the same repository.
--   Documents: the document store as a parameter, with the laws of it that are used.
--   Recalculation: attendance/recalculation.ts and attendance/recalculation-jobs.ts. Fields reads shift
--     documents (`parseShift`) and Events punches and corrections; Context is `loadContext`, Load the
--     other loads; Written the documents that are written, Run `inferShift` and
--     `recalculateAttendance`, which calls the engine. Jobs is the date range job, Jobs/Pages the
--     two jobs that make other jobs, Jobs/Scheduler the identity job and the schedule. Memory is a
--     store in memory, for the examples.
--   Billing: billing/. Catalog is catalog.ts, Entitlements entitlements.ts; Webhook is the tenant, the
--     projection and the transaction of webhook.ts, and Handler the handler around them.
--   Management: the functions that people call. Access is authz.ts with the reads of
--     billing/entitlements.ts; Shifts and Assignments are shifts/management.ts, Inferences
--     shifts/inference-management.ts, Branches branches/management.ts and departments/management.ts,
--     Mapping employees/mapping.ts, Employees employees/management.ts,
--     Onboarding onboarding/bootstrap.ts.
--   Web: the web application (Infact-HikBridge-v0.1/web/src/lib/data): `summarizeAttendance` of
--     reporting.ts and, in Status, attendance-status.ts.
--   Examples and Witnesses hold concrete inputs.
--
-- How the code is read: what throws is a `Result`; an awaited call is a function of the state; a
-- transaction reads the state that it starts from and either writes as a whole or leaves the state as
-- it was. A Firestore collection is a function from names; a field of an unexpected type counts
-- as missing. Numbers are natural; instants count nanoseconds in Attendance, dates count
-- milliseconds elsewhere, but for timestamps, which count nanoseconds in Recalculation and
-- Management. Every loop is a recursion on its list, or on the 31 rounds that the source gives it:
-- nothing needs fuel.
--
-- Parameters: the time library with its calendar and locale order (Clock), SHA-256 and HMAC (Crypto,
-- KeyHash, `digest`, `sha256_hex`), the document store (Database, and Roots for the organizations
-- themselves), the registry of devices, the JSON parser with the zod schemas (`Host.decode`,
-- `RawEvent.parsed`, `is_code`), the secrets (`Host.get_secrets`), the tokens and the environment
-- (SessionHost), the provider's signature check (`Surroundings.unwrap`), and the query for waiting
-- commands (CommandQuery).
--
-- Not modelled: failures of the network and of Firestore itself; loads at the same
-- time, which run in order; callable functions and triggers; device provisioning, realtime signals;
-- calls of the payments provider; the bridge, written in Go; the rest of
-- the web application.
pub mod Prelude
pub mod Attendance
pub mod Documents
pub mod Recalculation
pub mod Billing
pub mod Management
pub mod Ingest
pub mod Web
