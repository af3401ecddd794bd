-- ===== src/Recalculation/Jobs/Turns.antt =====
-- The turns of a date range job.
use attendence_system.Prelude.{
  ℕ, zero, suc, ◌≡◌, refl, sym, ap, ◌∙◌, Bool, true, false, Option, ◌⊎◌, none, some, String,
  if◌then◌else◌, Bool-cases, inl, inr,
}
use mathlib.Core.Path.{subst}
use attendence_system.Prelude.Result.{Result}
use attendence_system.Attendance.Types.{CalculationResult, whole}
use attendence_system.Attendance.Clock.{Clock}
use attendence_system.Documents.{
  Value, text, number, Fields, get, has, is_text, Document, Place, field_of, Database,
}
use attendence_system.Recalculation.Fields.{RecalculationError}
use attendence_system.Recalculation.Jobs.{invalid_fields, progress, current}
use attendence_system.Recalculation.Jobs.Scheduler.{process_job, caught, failed_attempt, gives_up}
use attendence_system.Recalculation.Jobs.Failures.{counted}

module _ (k : Clock) {S : Type 0} (db : Database S)
    (recalculate : String → String → String → S → Result RecalculationError CalculationResult × S)
    (now : ℕ) (job : Place) where
  abbrev pub turn_of : Option Document → S → S
  turn_of none s = s
  turn_of (some d) s =
      if is_text (get d.fields "state") "pending"
      then caught k db recalculate now (record { place = job; document = d })
          (process_job k db recalculate now job d.fields s)
      else s

  -- What the schedule does to the job: a turn for as long as it is pending.
  unfoldable pub turns : ℕ → S → S
  turns zero s = s
  turns (suc n) s = turns n (turn_of (db.document s job) s)

  -- A job that is not pending any more: completed, or failed with five attempts counted.
  abbrev pub IsOver : S → Type 0
  IsOver s =
      (current db s job "state" ≡ text "completed")
      ⊎ ((current db s job "state" ≡ text "failed")
          × (current db s job "attempts" ≡ number (whole 5)))

  turn_of-settled :
      (o : Option Document) (s : S) (state : String)
      → field_of o "state" ≡ text state
      → is_text (text state) "pending" ≡ false
      → turn_of o s ≡ s
  turn_of-settled none s state h e = refl
  turn_of-settled (some d) s state h e = rw (h, e) refl

  pub IsOver-turns : (n : ℕ) (s : S) → IsOver s → IsOver (turns n s)
  unfolding turns
  IsOver-turns zero s h = h
  IsOver-turns (suc n) s (inl h) =
      IsOver-turns n _
        (subst IsOver (sym (turn_of-settled (db.document s job) s "completed" h refl)) (inl h))
  IsOver-turns (suc n) s (inr h) =
      IsOver-turns n _
        (subst IsOver (sym (turn_of-settled (db.document s job) s "failed" h.0 refl)) (inr h))

  -- A date range job of an employee that waits for its next turn, from the date `c` to the date `e`,
  -- after `a` attempts.
  abbrev pub Waits : String → ℕ → ℕ → ℕ → S → Type 0
  Waits employee c e a s =
      (current db s job "state" ≡ text "pending")
      × (current db s job "type" ≡ text "employee_date_range")
      × (current db s job "employeeId" ≡ text employee)
      × (current db s job "cursorDate" ≡ text (k.date_to_string c))
      × (current db s job "endDate" ≡ text (k.date_to_string e))
      × (current db s job "attempts" ≡ counted k db recalculate now job invalid_fields a)

  -- The fields that a turn does not write.
  pub progress-has :
      (b : Bool) (c n : ℕ) (v : Value)
      → (has (progress k db recalculate now b c n v) "type" ≡ false)
        × (has (progress k db recalculate now b c n v) "employeeId" ≡ false)
        × (has (progress k db recalculate now b c n v) "endDate" ≡ false)
        × (has (progress k db recalculate now b c n v) "attempts" ≡ false)
  progress-has true c n v = (refl, refl, refl, refl)
  progress-has false c n v = (refl, refl, refl, refl)

  pub attempted-has :
      (v : Value)
      → (has (failed_attempt k db recalculate now v) "type" ≡ false)
        × (has (failed_attempt k db recalculate now v) "employeeId" ≡ false)
        × (has (failed_attempt k db recalculate now v) "cursorDate" ≡ false)
        × (has (failed_attempt k db recalculate now v) "endDate" ≡ false)
  unfolding failed_attempt
  attempted-has v = elim (Bool-cases (gives_up k db recalculate now v)) [
    | inl b ↦ rw (b) (refl, refl, refl, refl)
    | inr b ↦ rw (b) (refl, refl, refl, refl)
  ]

  pub kept :
      (f : Fields) (name : String) (v : Value) (s t : S)
      → db.document t job ≡ db.document s job
      → has f name ≡ false
      → current db s job name ≡ v
      → current db (db.merge job f t) job name ≡ v
  kept f name v s t same h w = db.merge_absent t job f name h ∙ ap (λ o. field_of o name) same ∙ w
