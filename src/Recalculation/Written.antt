-- ===== src/Recalculation/Written.antt =====
-- What `inferShift` and `recalculateAttendance` write: the documents, with `firestoreProjection` of
-- cloud/functions/src/attendance/recalculation.ts.
use attendence_system.Prelude.{
  ℕ, List, [], ◌∷◌, Option, none, some, String, find, get_or, if◌then◌else◌,
}
use attendence_system.Prelude.Result.{Result, ok, err, ◌>>=◌}
use attendence_system.Prelude.Text.{str_eq, append, decimal_text}
use attendence_system.Attendance.Types.{
  whole, ShiftDefinition, AttendanceStatus, present, absent, leave, holiday, rest_day, no_shift,
  CalculationResult,
}
use attendence_system.Attendance.Clock.{Clock}
use attendence_system.Attendance.Window.{EngineError}
use attendence_system.Attendance.Exceptions.{spelling}
use attendence_system.Attendance.Inference.{
  ShiftInferenceCandidate, ShiftInferenceResult, Confidence, high, medium, low, no_confidence,
  Explanation, no_punch_in_window, starts_minutes_from,
}
use attendence_system.Documents.{
  Value, null, text, number, boolean, timestamp, array, object, Values, no_values, value, Fields,
  no_fields, entry,
}
use attendence_system.Recalculation.Fields.{RecalculationError, calculation, optional_string}
use attendence_system.Recalculation.Events.{to_date}
use attendence_system.Recalculation.Context.{
  ShiftSource, assigned, automatic, confirmed, RecalculationContext, in_range,
}

abbrev pub calculating {ℓ} : {A : Type ℓ} → Result EngineError A → Result RecalculationError A
calculating (ok a) = ok a
calculating (err e) = err (calculation e)

abbrev pub confidence_text : Confidence → String
confidence_text high = "high"
confidence_text medium = "medium"
confidence_text low = "low"
confidence_text no_confidence = "none"

-- The state of a new guess.
unfoldable pub guess_state : Confidence → String
guess_state high = "auto_applied"
guess_state no_confidence = "no_match"
guess_state medium = "review_required"
guess_state low = "review_required"

abbrev pub text_or_null : Option String → Value
text_or_null none = null
text_or_null (some s) = text s

abbrev number_of : ℕ → Value
number_of n = number (whole n)

abbrev margin_copy : Option ℕ → String
margin_copy none = "no competing shift was in range"
margin_copy (some m) = append "the next shift was " (append (decimal_text m) " minutes less likely")

abbrev explanation_text : Explanation → String
explanation_text no_punch_in_window = "No punch falls inside an active shift start window."
explanation_text (starts_minutes_from name distance margin) = append name (
    append " starts " (
      append (decimal_text distance)
        (append " minutes from the first eligible punch; " (append (margin_copy margin) "."))))

abbrev candidate_value : ShiftInferenceCandidate → Value
candidate_value c = object (
    entry "shiftId" (text c.shift_id) (
      entry "shiftName" (text c.shift_name) (
        entry "startTime" (text c.start_time) (
          entry "punchId" (text c.punch_id) (
            entry "punchAt" (text c.punch_at)
              (entry "distanceMinutes" (number_of c.distance_minutes) no_fields))))))

abbrev array_of {ℓ} : {A : Type ℓ} → (A → Value) → List A → Values
array_of f [] = no_values
array_of f (x ∷ xs) = value (f x) (array_of f xs)

abbrev first_punch_at : List ShiftInferenceCandidate → Value
first_punch_at [] = null
first_punch_at (c ∷ cs) = text c.punch_at

abbrev pub selected_by : String → Option String → Value
selected_by state suggested = if str_eq state "auto_applied" then text_or_null suggested else null

-- What `reference.set(…, { merge: true })` writes at the time `now`.
unfoldable pub inference_fields :
    ℕ → RecalculationContext → String → String → ShiftInferenceResult → Fields
unfolding optional_string guess_state
inference_fields now c employee date r =
    let state = guess_state r.confidence in
    entry "organizationId" (text c.organization) (
      entry "employeeId" (text employee) (
        entry "employeeCode" (text (get_or (optional_string c.employee "employeeCode") employee)) (
          entry "employeeName" (text (get_or (optional_string c.employee "name") employee)) (
            entry "branchId" (text_or_null c.branch_id) (
              entry "date" (text date) (
                entry "state" (text state) (
                  entry "confidence" (text (confidence_text r.confidence)) (
                    entry "suggestedShiftId" (text_or_null r.suggested_shift_id) (
                      entry "selectedShiftId" (selected_by state r.suggested_shift_id) (
                        entry "explanation" (text (explanation_text r.explanation)) (
                          entry "candidates" (array (array_of candidate_value r.candidates)) (
                            entry "firstPunchAt" (first_punch_at r.candidates)
                              (entry "updatedAt" (timestamp now) no_fields)))))))))))))

abbrev pub with_shift : RecalculationContext → Option ShiftDefinition → RecalculationContext
with_shift c none = record c { shift = none; shift_source = none }
with_shift c (some s) = record c { shift = some s; shift_source = some automatic }

abbrev pub apply_suggestion :
    RecalculationContext → List ShiftDefinition → Confidence → Option String → RecalculationContext
apply_suggestion c shifts trust none = c
apply_suggestion c shifts trust (some id) =
    if str_eq (guess_state trust) "auto_applied"
    then with_shift c (find (λ s. str_eq s.id id) shifts)
    else c

-- The assignment to `context` at the end of `inferShift`.
unfoldable pub apply_guess :
    RecalculationContext → List ShiftDefinition → ShiftInferenceResult → RecalculationContext
apply_guess c shifts r = apply_suggestion c shifts r.confidence r.suggested_shift_id

abbrev pub status_text : AttendanceStatus → String
status_text present = "present"
status_text absent = "absent"
status_text leave = "leave"
status_text holiday = "holiday"
status_text rest_day = "rest_day"
status_text no_shift = "no_shift"

abbrev source_text : Option ShiftSource → Value
source_text none = null
source_text (some assigned) = text "assigned"
source_text (some automatic) = text "automatic"
source_text (some confirmed) = text "confirmed"

abbrev confidence_value : Option ShiftInferenceResult → Value
confidence_value none = null
confidence_value (some r) = text (confidence_text r.confidence)

module _ (k : Clock) where
  -- `Timestamp.fromDate(new Date(text))`, where there is a text
  abbrev stamped : String → Option String → Fields → Result RecalculationError Fields
  stamped name none rest = ok rest
  stamped name (some s) rest =
      in_range (k.instant_from s) >>= λ t. ok (entry name (timestamp (to_date t)) rest)

  -- The document of `attendanceDays`.
  unfoldable pub firestore_projection :
      ℕ
      → CalculationResult
      → Option ShiftSource
      → Option ShiftInferenceResult
      → Result RecalculationError Fields
  firestore_projection now r source guess = do
    let last = entry "calculatedAt" (timestamp now) (
        entry "shiftSource" (source_text source)
          (entry "shiftInferenceConfidence" (confidence_value guess) no_fields))
    f4 ← stamped "lastOutTimestamp" r.last_out_at last
    f3 ← stamped "firstInTimestamp" r.first_in_at f4
    f2 ← stamped "scheduledOutTimestamp" r.scheduled_out_at f3
    f1 ← stamped "scheduledInTimestamp" r.scheduled_in_at f2
    ok (
        entry "organizationId" (text r.organization_id) (
          entry "employeeId" (text r.employee_id) (
            entry "date" (text r.date) (
              entry "timezone" (text r.timezone) (
                entry "shiftId" (text_or_null r.shift_id) (
                  entry "shiftName" (text_or_null r.shift_name) (
                    entry "scheduledIn" (text_or_null r.scheduled_in) (
                      entry "scheduledOut" (text_or_null r.scheduled_out) (
                        entry "scheduledInAt" (text_or_null r.scheduled_in_at) (
                          entry "scheduledOutAt" (text_or_null r.scheduled_out_at) (
                            entry "firstIn" (text_or_null r.first_in) (
                              entry "lastOut" (text_or_null r.last_out) (
                                entry "firstInAt" (text_or_null r.first_in_at) (
                                  entry "lastOutAt" (text_or_null r.last_out_at)
                                    (minutes_fields r f1)))))))))))))))
    where
      minutes_fields : CalculationResult → Fields → Fields
      minutes_fields r rest = entry "lateMinutes" (number_of r.late_minutes) (
          entry "earlyLeaveMinutes" (number_of r.early_leave_minutes) (
            entry "workedMinutes" (number_of r.worked_minutes) (
              entry "overtimeMinutes" (number_of r.overtime_minutes) (
                entry "status" (text (status_text r.status)) (
                  entry "holidayId" (text_or_null r.holiday_id) (
                    entry "leaveId" (text_or_null r.leave_id) (
                      entry "hasManualAdjustment" (boolean r.has_manual_adjustment) (
                        entry "adjustmentIds" (array (array_of text r.adjustment_ids)) (
                          entry "sourceEventIds" (array (array_of text r.source_event_ids)) (
                            entry "exceptions"
                              (array (array_of (λ e. text (spelling e)) r.exceptions))
                              (entry "calculationVersion" (text r.calculation_version)
                                rest)))))))))))
