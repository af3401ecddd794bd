-- ===== src/Recalculation/Jobs/Failures.antt =====
-- What becomes of a job that throws.
use attendence_system.Prelude.{
  ℕ, zero, suc, ◌≤◌, ◌<◌, ◌≡◌, refl, sym, ap, ◌∙◌, true, false, arith, Option, none, some, String,
  ltb, leb, Bool-cases, inl, inr, if◌then◌else◌,
}
use attendence_system.Prelude.Result.{Result, err}
use attendence_system.Attendance.Types.{CalculationResult, whole}
use attendence_system.Attendance.Clock.{Clock}
use attendence_system.Documents.{
  Value, missing, text, number, get, has, Document, Place, field_of, Database,
}
use attendence_system.Recalculation.Fields.{RecalculationError}
use attendence_system.Recalculation.Jobs.{JobError, current}
use attendence_system.Recalculation.Jobs.Scheduler.{caught, failed_attempt}

module _ (k : Clock) {S : Type 0} (db : Database S)
    (recalculate : String → String → String → S → Result RecalculationError CalculationResult × S)
    (now : ℕ) (job : Place) (e : JobError) where
  abbrev failure_of : Option Document → S → S
  failure_of none s = s
  failure_of (some d) s =
      caught k db recalculate now (record { place = job; document = d }) (err e, s)

  -- The job's document after it threw `n` times.
  unfoldable pub failures : ℕ → S → S
  failures zero s = s
  failures (suc n) s = failure_of (db.document (failures n s) job) (failures n s)

  -- A count of attempts, which is missing at first.
  abbrev pub counted : ℕ → Value
  counted zero = missing
  counted (suc n) = number (whole (suc n))

  abbrev state_after : ℕ → String
  state_after n = if ltb n 5 then "pending" else "failed"

  pub failed_attempt-fields :
      (n : ℕ)
      → (get (failed_attempt k db recalculate now (counted n)) "attempts" ≡ number (whole (suc n)))
  unfolding failed_attempt
  failed_attempt-fields zero = refl
  failed_attempt-fields (suc n) = ap (λ x. number (whole x)) (omega arith)

  pub failed_attempt-failed :
      (n : ℕ)
      → 4 ≤ n
      → get (failed_attempt k db recalculate now (counted n)) "state" ≡ text "failed"
  unfolding failed_attempt
  failed_attempt-failed zero h = absurd (omega arith)
  failed_attempt-failed (suc n) h =
      let enough : leb 4 (suc n) ≡ true = ground arith in rw (enough) refl

  pub failed_attempt-pending :
      (n : ℕ) → n < 4 → has (failed_attempt k db recalculate now (counted n)) "state" ≡ false
  unfolding failed_attempt
  failed_attempt-pending zero h = refl
  failed_attempt-pending (suc n) h = let few : leb 4 (suc n) ≡ false = ground arith in rw (few) refl

  failure_of-eq :
      (o : Option Document) (s : S) (v : String)
      → field_of o "state" ≡ text v
      → failure_of o s
        ≡ db.merge job (failed_attempt k db recalculate now (field_of o "attempts")) s
  failure_of-eq none s v h = cc
  failure_of-eq (some d) s v h = refl

  merged_state :
      (n : ℕ) (s : S)
      → n < 5
      → current db s job "state" ≡ text (state_after n)
      → current db (db.merge job (failed_attempt k db recalculate now (counted n)) s) job "state"
        ≡ text (state_after (suc n))
  merged_state n s few p = elim (Bool-cases (leb 4 n)) [
    | inl enough ↦
        let full : ltb (suc n) 5 ≡ false = ground arith in
        db.merge_scalar s job _ "state" _ refl (failed_attempt-failed n (ground arith))
        ∙ ap (λ b. text (if b then "pending" else "failed")) (sym full)
    | inr fewer ↦
        let same : ltb n 5 ≡ ltb (suc n) 5 = ground arith in
        db.merge_absent s job _ "state" (failed_attempt-pending n (ground arith))
        ∙ p
        ∙ ap (λ b. text (if b then "pending" else "failed")) same
  ]

  one_failure :
      (n : ℕ) (s : S)
      → n < 5
      → current db s job "state" ≡ text (state_after n)
      → current db s job "attempts" ≡ counted n
      → (current db (failure_of (db.document s job) s) job "state" ≡ text (state_after (suc n)))
        × (current db (failure_of (db.document s job) s) job "attempts" ≡ counted (suc n))
  one_failure n s few p a =
      let written =
        failure_of-eq (db.document s job) s (state_after n) p
        ∙ ap (λ v. db.merge job (failed_attempt k db recalculate now v) s) a in
      let f = failed_attempt k db recalculate now (counted n) in
      (
        ap (λ x. current db x job "state") written ∙ merged_state n s few p,
        ap (λ x. current db x job "attempts") written
            ∙ db.merge_scalar s job f "attempts" _ refl (failed_attempt-fields n),
      )

  -- A job that always throws stays pending for four attempts and has failed after the fifth, with the
  -- number of attempts counted.
  pub failures-state :
      (n : ℕ) (s : S)
      → n ≤ 5
      → current db s job "state" ≡ text "pending"
      → current db s job "attempts" ≡ missing
      → (current db (failures n s) job "state" ≡ text (state_after n))
        × (current db (failures n s) job "attempts" ≡ counted n)
  unfolding failures
  failures-state zero s few p a = (p, a)
  failures-state (suc n) s few p a =
      let (state, attempts) = failures-state n s (omega arith) p a in
      one_failure n (failures n s) (omega arith) state attempts
