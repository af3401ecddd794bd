-- ===== src/Recalculation/Jobs.antt =====
-- cloud/functions/src/attendance/recalculation-jobs.ts: the four kinds of job. `recalculate` is the
-- operation that a job calls for an employee and a date; what it throws ends the job's turn, and what
-- was written before stays.
pub mod Pages
pub mod Scheduler
pub mod Laws
pub mod Examples
mod Witnesses
pub mod Failures
pub mod Turns
pub mod Completion
use attendence_system.Prelude.{
  ℕ, zero, suc, ◌+◌, ◌-◌, ◌≡◌, Bool, true, false, not, ◌&&◌, ◌||◌, List, [], ◌∷◌, Option, none,
  some, String, ltb, leb, ◌==◌, length, last?, get_or, if◌then◌else◌,
}
use attendence_system.Prelude.Result.{Result, ok, err, ◌>>=◌, or_throw}
use attendence_system.Prelude.Sort.{sort}
use attendence_system.Prelude.Text.{str_eq, str_le, append, is_empty, includes}
use attendence_system.Attendance.Types.{Number, whole, negative, fractional, CalculationResult}
use attendence_system.Attendance.Clock.{Clock}
use attendence_system.Documents.{
  Value, missing, null, text, number, timestamp, Fields, no_fields, entry, get, as_text,
  as_timestamp, Document, Condition, text_is, name_after, time_and_name_after, by_name,
  by_time_and_name, Place, Located, field_of, Database,
}
use attendence_system.Recalculation.Fields.{RecalculationError}
use attendence_system.Recalculation.Run.{candidate_attendance_dates}

-- What a job throws, but for what the store throws.
pub data JobError : Type 0 where
  invalid_fields no_timezone out_of_range : JobError
  recalculation : RecalculationError → JobError

-- `FieldValue.increment(n)` on a field
abbrev pub increased : Value → ℕ → Value
increased (number (whole m)) n = number (whole (m + n))
increased (number (negative m)) n =
    if ltb m n then number (whole (n - suc m)) else number (negative (m - n))
increased (number fractional) n = number fractional
increased _ n = number (whole n)

abbrev pub nonempty_of : Value → Option String
nonempty_of (text s) = if is_empty s then none else some s
nonempty_of _ = none

-- `a ?? b`
abbrev pub value_or : Value → Value → Value
value_or missing v = v
value_or null v = v
value_or v _ = v

abbrev pub done {ℓ} : {S : Type ℓ} → S → Result JobError (Unit {0}) × S
done s = (ok tt, s)

-- After what a recalculation left, the rest.
abbrev pub then_rest {ℓ κ} :
    {S : Type ℓ} {A : Type κ}
    → Result RecalculationError CalculationResult × S
    → (S → Result JobError A × S)
    → Result JobError A × S
then_rest (ok r, s) next = next s
then_rest (err e, s) next = (err (recalculation e), s)

abbrev pub one_more {ℓ} : {S : Type ℓ} → Result JobError (ℕ × ℕ) × S → Result JobError (ℕ × ℕ) × S
one_more (ok (c, n), s) = (ok (c, suc n), s)
one_more (err e, s) = (err e, s)

-- `cursor.add({ days: 1 })`, `processed++`, and the rest of the loop
abbrev pub next_date {ℓ} :
    {S : Type ℓ}
    → Option ℕ
    → S
    → (ℕ → S → Result JobError (ℕ × ℕ) × S)
    → Result JobError (ℕ × ℕ) × S
next_date none s rest = (err out_of_range, s)
next_date (some c) s rest = one_more (rest c s)

module _ {S : Type 0} (db : Database S) where
  abbrev pub current : S → Place → String → Value
  current s p name = field_of (db.document s p) name

  abbrev pub page : Place → String → List Condition → Option String → ℕ → S → List Document
  page job collection conditions none size s =
      db.query s job.organization collection conditions by_name size
  page job collection conditions (some name) size s =
      db.query s job.organization collection (name_after name ∷ conditions) by_name size

module _ (k : Clock) {S : Type 0} (db : Database S)
    (recalculate : String → String → String → S → Result RecalculationError CalculationResult × S)
    (now : ℕ) where
  -- The `while` loop: at most `n` more dates, from `cursor` to `end`; the cursor that it leaves, and
  -- how many dates it processed.
  unfoldable pub process_dates : String → String → ℕ → ℕ → ℕ → S → Result JobError (ℕ × ℕ) × S
  process_dates organization employee zero cursor end s = (ok (cursor, 0), s)
  process_dates organization employee (suc n) cursor end s =
      if ltb end cursor
      then (ok (cursor, 0), s)
      else then_rest (recalculate organization employee (k.date_to_string cursor) s)
          λ s'. next_date (k.next_day cursor) s' λ c. process_dates organization employee n c end

  abbrev pub progress : Bool → ℕ → ℕ → Value → Fields
  progress completed cursor processed count =
      entry "state" (text (if completed then "completed" else "pending")) (
        entry "cursorDate" (text (k.date_to_string cursor)) (
          entry "processedDates" (increased count processed) (
            entry "updatedAt" (timestamp now)
              (if completed then entry "completedAt" (timestamp now) no_fields else no_fields))))

  abbrev pub save_progress :
      Place → ℕ → Result JobError (ℕ × ℕ) × S → Result JobError (Unit {0}) × S
  save_progress job end (err e, s) = (err e, s)
  save_progress job end (ok (cursor, n), s) =
      done (db.merge job (progress (ltb end cursor) cursor n (current db s job "processedDates")) s)

  abbrev pub range_from : Place → String → Option ℕ → Option ℕ → S → Result JobError (Unit {0}) × S
  range_from job employee (some cursor) (some end) s =
      save_progress job end (process_dates job.organization employee 31 cursor end s)
  range_from job employee _ _ s = (err out_of_range, s)

  abbrev pub range_of :
      Place → Option String → Option String → Option String → S → Result JobError (Unit {0}) × S
  range_of job (some employee) (some start) (some end) s =
      range_from job employee (k.plain_date_from start) (k.plain_date_from end) s
  range_of job _ _ _ s = (err invalid_fields, s)

  unfoldable pub process_employee_date_range : Place → Fields → S → Result JobError (Unit {0}) × S
  process_employee_date_range job d s =
      range_of job (as_text (get d "employeeId"))
        (as_text (value_or (get d "cursorDate") (get d "startDate"))) (as_text (get d "endDate")) s
