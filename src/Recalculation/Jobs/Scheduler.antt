-- ===== src/Recalculation/Jobs/Scheduler.antt =====
-- The identity mapping job and `processAttendanceRecalculationJobs` of
-- cloud/functions/src/attendance/recalculation-jobs.ts.
use attendence_system.Prelude.{
  ℕ, Bool, false, List, [], ◌∷◌, Option, none, some, String, leb, length, if◌then◌else◌,
}
use attendence_system.Prelude.Result.{Result, ok, err, ◌>>=◌, or_throw}
use attendence_system.Prelude.Sort.{sort}
use attendence_system.Prelude.Text.{str_eq, str_le}
use attendence_system.Attendance.Types.{whole, CalculationResult}
use attendence_system.Attendance.Clock.{Clock}
use attendence_system.Documents.{
  Value, text, number, timestamp, Fields, no_fields, entry, get, as_text, as_timestamp, is_text,
  Document, Condition, text_is, time_and_name_after, by_time_and_name, Place, Located, field_of,
  Database,
}
use attendence_system.Recalculation.Fields.{RecalculationError}
use attendence_system.Recalculation.Run.{candidate_attendance_dates}
use attendence_system.Recalculation.Jobs.{
  JobError, invalid_fields, no_timezone, out_of_range, increased, done, then_rest, current,
  process_employee_date_range,
}
use attendence_system.Recalculation.Jobs.Pages.{
  next_page, process_shift_policy, process_organization_date_range,
}

-- `set.add(date)` on a set that keeps the order of insertion
abbrev pub add_date : List String → String → List String
add_date [] d = d ∷ []
add_date (e ∷ es) d = let rest = add_date es d in if str_eq e d then e ∷ es else e ∷ rest

abbrev add_all : List String → List String → List String
add_all dates [] = dates
add_all dates (d ∷ ds) = add_all (add_date dates d) ds

module _ (k : Clock) {S : Type 0} (db : Database S)
    (recalculate : String → String → String → S → Result RecalculationError CalculationResult × S)
    (now : ℕ) where
  unfoldable pub recalculate_dates :
      String → String → List String → S → Result JobError (Unit {0}) × S
  recalculate_dates organization employee [] s = done s
  recalculate_dates organization employee (d ∷ ds) s =
      then_rest (recalculate organization employee d s) (recalculate_dates organization employee ds)

  abbrev dates_at : Option ℕ → String → Result JobError (List String)
  dates_at none timezone = ok []
  dates_at (some t) timezone = or_throw (candidate_attendance_dates k t timezone) out_of_range

  -- The loop that fills the set.
  unfoldable pub dates_of : String → List String → List Document → Result JobError (List String)
  dates_of timezone dates [] = ok dates
  dates_of timezone dates (doc ∷ docs) =
      dates_at (as_timestamp (get doc.fields "eventTime")) timezone >>= λ more.
      dates_of timezone (add_all dates more) docs

  abbrev events_after : Option ℕ → Option String → List Condition → List Condition
  events_after (some t) (some name) conditions = time_and_name_after "eventTime" t name ∷ conditions
  events_after _ _ conditions = conditions

  abbrev identity_progress : Option Document → ℕ → ℕ → Value → Value → Fields
  identity_progress none events dates e d = entry "state" (text "completed") (
      entry "completedAt" (timestamp now) (
        entry "processedEvents" (increased e events)
          (entry "processedDates" (increased d dates) no_fields)))
  identity_progress (some last) events dates e d = entry "state" (text "pending") (
      entry "cursorEventTime" (get last.fields "eventTime") (
        entry "cursorEventId" (text last.id) (
          entry "processedEvents" (increased e events) (
            entry "processedDates" (increased d dates)
              (entry "updatedAt" (timestamp now) no_fields)))))

  abbrev save_identity :
      Place → List Document → ℕ → Result JobError (Unit {0}) × S → Result JobError (Unit {0}) × S
  save_identity job docs dates (err e, s) = (err e, s)
  save_identity job docs dates (ok _, s) = done (
      db.merge job
        (identity_progress (next_page 200 docs) (length docs) dates
          (current db s job "processedEvents") (current db s job "processedDates"))
        s)

  abbrev recalculate_set :
      Place
      → String
      → List Document
      → Result JobError (List String)
      → S
      → Result JobError (Unit {0}) × S
  recalculate_set job employee docs (err e) s = (err e, s)
  recalculate_set job employee docs (ok dates) s =
      save_identity job docs (length dates)
        (recalculate_dates job.organization employee (sort str_le dates) s)

  abbrev in_timezone :
      Place → Fields → String → String → String → Option String → S → Result JobError (Unit {0}) × S
  in_timezone job d device number' employee none s = (err no_timezone, s)
  in_timezone job d device number' employee (some timezone) s =
      let docs =
        db.query s job.organization "attendanceEvents"
          (events_after (as_timestamp (get d "cursorEventTime")) (as_text (get d "cursorEventId"))
            (text_is "deviceId" device ∷ text_is "employeeNo" number' ∷ []))
          (by_time_and_name "eventTime") 200 in
      recalculate_set job employee docs (dates_of timezone [] docs) s

  abbrev identity_of :
      Place
      → Fields
      → Option String
      → Option String
      → Option String
      → S
      → Result JobError (Unit {0}) × S
  identity_of job d (some device) (some number') (some employee) s =
      in_timezone job d device number' employee
        (as_text (field_of (db.organization s job.organization) "timezone")) s
  identity_of job d _ _ _ s = (err invalid_fields, s)

  unfoldable pub process_identity_mapping : Place → Fields → S → Result JobError (Unit {0}) × S
  unfolding recalculate_dates dates_of
  process_identity_mapping job d s =
      identity_of job d (as_text (get d "deviceId")) (as_text (get d "employeeNo"))
        (as_text (get d "employeeId")) s

  abbrev unsupported : Fields
  unsupported =
      entry "state" (text "failed") (
        entry "errorCode" (text "unsupported_job_type")
          (entry "failedAt" (timestamp now) no_fields))

  unfoldable pub process_job : Place → Fields → S → Result JobError (Unit {0}) × S
  process_job job d s =
      let type' = get d "type" in
      if is_text type' "identity_mapping"
      then process_identity_mapping job d s
      else if is_text type' "employee_date_range"
      then process_employee_date_range k db recalculate now job d s
      else if is_text type' "shift_policy"
      then process_shift_policy db now job d s
      else if is_text type' "organization_date_range"
      then process_organization_date_range db now job d s
      else done (db.merge job unsupported s)

  -- `typeof job.get("attempts") === "number" ? … : 0`; only the program counts attempts, in whole
  -- numbers.
  abbrev pub gives_up : Value → Bool
  gives_up (number (whole n)) = leb 4 n
  gives_up _ = false

  unfoldable pub failed_attempt : Value → Fields
  failed_attempt attempts = entry "attempts" (increased attempts 1) (
      entry "lastAttemptAt" (timestamp now) (
        entry "errorCode" (text "processing_failed") (
          if gives_up attempts
          then entry "state" (text "failed") (entry "failedAt" (timestamp now) no_fields)
          else no_fields)))

  -- The `catch`.
  abbrev pub caught : Located → Result JobError (Unit {0}) × S → S
  caught job (ok _, s) = s
  caught job (err e, s) = db.merge job.place (failed_attempt (get job.document.fields "attempts")) s

  unfoldable pub process_jobs : List Located → S → S
  unfolding process_job failed_attempt
  process_jobs [] s = s
  process_jobs (job ∷ jobs) s =
      process_jobs jobs (caught job (process_job job.place job.document.fields s))

  unfoldable pub process_attendance_recalculation_jobs : S → S
  process_attendance_recalculation_jobs s =
      process_jobs (db.group_query s "recalculationJobs" (text_is "state" "pending" ∷ []) 5) s
