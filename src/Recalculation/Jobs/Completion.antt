-- ===== src/Recalculation/Jobs/Completion.antt =====
-- A date range job comes to an end.
use attendence_system.Prelude.{
  ℕ, zero, suc, ◌+◌, ◌-◌, ◌*◌, ◌≤◌, ◌<◌, ◌≡◌, refl, sym, ap, ◌∙◌, Bool, arith, Option, List, [],
  ◌∷◌, ◌⊎◌, none, some, String, ltb, leb, if◌then◌else◌, Bool-cases, inl, inr,
}
use mathlib.Core.Path.{subst}
use attendence_system.Prelude.Result.{Result, ok, err}
use attendence_system.Attendance.Types.{CalculationResult, whole}
use attendence_system.Attendance.Clock.{Clock}
use attendence_system.Documents.{
  text, number, Fields, get, Document, Place, field_of, other_collection, Database,
}
use attendence_system.Recalculation.Fields.{RecalculationError}
use attendence_system.Recalculation.Run.{recalculate_attendance, day_place}
use attendence_system.Recalculation.Context.{inference_place}
use attendence_system.Recalculation.Run.Laws.{recalculate_attendance-other}
use attendence_system.Recalculation.Jobs.{
  invalid_fields, progress, save_progress, current, process_employee_date_range,
}
use attendence_system.Recalculation.Jobs.Scheduler.{process_job, caught, failed_attempt}
use attendence_system.Recalculation.Jobs.Failures.{
  counted, failed_attempt-fields, failed_attempt-failed, failed_attempt-pending,
}
use attendence_system.Recalculation.Jobs.Laws.{
  dates_from, each_date, unless_thrown, stands_at, smaller, process_dates-each_date,
}
use attendence_system.Recalculation.Jobs.Turns.{
  turn_of, turns, IsOver, IsOver-turns, Waits, progress-has, attempted-has, kept,
}

module _ (k : Clock) {S : Type 0} (db : Database S)
    (recalculate : String → String → String → S → Result RecalculationError CalculationResult × S)
    (now : ℕ) (job : Place) where
  module _ (employee : String) (e : ℕ) (next : (d : ℕ) → d ≤ e → k.next_day d ≡ some (d + 1))
      (reads : (d : ℕ) → d ≤ e → k.plain_date_from (k.date_to_string d) ≡ some d)
      (keeps : (d : String) (s : S)
        → db.document (recalculate job.organization employee d s).1 job ≡ db.document s job) where
    abbrev dates : ℕ → S → Result RecalculationError (Unit {0}) × S
    dates c s =
        each_date k recalculate job.organization employee (dates_from c (smaller 31 (e + 1 - c))) s

    unless_thrown-keeps :
        (s : S) (ds : List ℕ) (r : Result RecalculationError CalculationResult × S)
        → db.document r.1 job ≡ db.document s job
        → ((t : S)
            → db.document (each_date k recalculate job.organization employee ds t).1 job
              ≡ db.document t job)
        → db.document (unless_thrown r (each_date k recalculate job.organization employee ds)).1 job
          ≡ db.document s job
    unless_thrown-keeps s ds (ok x, t) h ih = ih t ∙ h
    unless_thrown-keeps s ds (err x, t) h ih = h

    each_date-keeps :
        (ds : List ℕ) (s : S)
        → db.document (each_date k recalculate job.organization employee ds s).1 job
          ≡ db.document s job
    each_date-keeps [] s = refl
    each_date-keeps (d ∷ ds) s =
        unless_thrown-keeps s ds (recalculate job.organization employee (k.date_to_string d) s)
          (keeps (k.date_to_string d) s) (each_date-keeps ds)

    abbrev next_cursor : ℕ → ℕ
    next_cursor c = c + smaller 31 (e + 1 - c)

    abbrev saved : ℕ → S → Fields
    saved c t =
        progress k db recalculate now (ltb e (next_cursor c)) (next_cursor c)
          (smaller 31 (e + 1 - c)) (current db t job "processedDates")

    abbrev attempted : ℕ → Fields
    attempted a =
        failed_attempt k db recalculate now (counted k db recalculate now job invalid_fields a)

    -- The store after a turn, by what the dates came to.
    abbrev turned : ℕ → ℕ → Result RecalculationError (Unit {0}) × S → S
    turned c a (ok u, t) = db.merge job (saved c t) t
    turned c a (err x, t) = db.merge job (attempted a) t

    caught-turned :
        (c a : ℕ) (d : Document) (q : Result RecalculationError (Unit {0}) × S)
        → get d.fields "attempts" ≡ counted k db recalculate now job invalid_fields a
        → caught k db recalculate now
            (record { place = job; document = d })
            (save_progress k db recalculate now job e
              (stands_at (next_cursor c) (smaller 31 (e + 1 - c)) q))
          ≡ turned c a q
    caught-turned c a d (ok u, t) h = refl
    caught-turned c a d (err x, t) h =
        ap (λ v. db.merge job (failed_attempt k db recalculate now v) t) h

    turn_of-turned :
        (o : Option Document) (c a : ℕ) (s : S)
        → c ≤ e
        → field_of o "state" ≡ text "pending"
        → field_of o "type" ≡ text "employee_date_range"
        → field_of o "employeeId" ≡ text employee
        → field_of o "cursorDate" ≡ text (k.date_to_string c)
        → field_of o "endDate" ≡ text (k.date_to_string e)
        → field_of o "attempts" ≡ counted k db recalculate now job invalid_fields a
        → turn_of k db recalculate now job o s ≡ turned c a (dates c s)
    unfolding process_job process_employee_date_range
    turn_of-turned none c a s le w0 w1 w2 w3 w4 w5 = cc
    turn_of-turned (some d) c a s le w0 w1 w2 w3 w4 w5 =
        rw (w0, w1, w2, w3, w4, reads c le, reads e (omega arith))
          (ap
              (λ x.
                caught k db recalculate now (record { place = job; document = d })
                  (save_progress k db recalculate now job e x))
              (process_dates-each_date k db recalculate now job.organization employee 31 c e s next)
            ∙ caught-turned c a d (dates c s) w5)

    -- What a turn leaves: the job is over, or it waits 31 dates on, or with one attempt more.
    abbrev Moves : ℕ → ℕ → S → Type 0
    Moves c a t =
        IsOver k db recalculate now job t
        ⊎ ((c + 31 ≤ e) × Waits k db recalculate now job employee (c + 31) e a t)
        ⊎ ((a < 4) × Waits k db recalculate now job employee c e (suc a) t)

    turned-Moves :
        (c a : ℕ) (s : S) (q : Result RecalculationError (Unit {0}) × S)
        → c ≤ e
        → a ≤ 4
        → Waits k db recalculate now job employee c e a s
        → db.document q.1 job ≡ db.document s job
        → Moves c a (turned c a q)
    turned-Moves c a s (ok u, t) le few (w0, w1, w2, w3, w4, w5) same =
        let state = db.merge_scalar t job (saved c t) "state" _ refl refl in
        let cursor = db.merge_scalar t job (saved c t) "cursorDate" _ refl refl in
        let (h1, h2, h4, h5) =
          progress-has k db recalculate now job (ltb e (next_cursor c)) (next_cursor c)
            (smaller 31 (e + 1 - c)) (current db t job "processedDates") in
        elim (Bool-cases (ltb e (next_cursor c))) [
          | inl last ↦
              inl (inl (state ∙ ap (λ b. text (if b then "completed" else "pending")) last))
          | inr more ↦
              let there : next_cursor c ≡ c + 31 = ground arith in
              inr (
                inl (
                  ground arith,
                  (
                    state ∙ ap (λ b. text (if b then "completed" else "pending")) more,
                    kept k db recalculate now job (saved c t) "type" _ s t same h1 w1,
                    kept k db recalculate now job (saved c t) "employeeId" _ s t same h2 w2,
                    cursor ∙ ap (λ x. text (k.date_to_string x)) there,
                    kept k db recalculate now job (saved c t) "endDate" _ s t same h4 w4,
                    kept k db recalculate now job (saved c t) "attempts" _ s t same h5 w5,
                  ),
                ))
        ]
    turned-Moves c a s (err x, t) le few (w0, w1, w2, w3, w4, w5) same =
        let attempts =
          db.merge_scalar t job (attempted a) "attempts" (number (whole (suc a))) refl
            (failed_attempt-fields k db recalculate now job invalid_fields a) in
        let (h1, h2, h3, h4) =
          attempted-has k db recalculate now job
            (counted k db recalculate now job invalid_fields a) in
        elim (Bool-cases (leb 4 a)) [
          | inl last ↦ inl (
              inr (
                db.merge_scalar t job (attempted a) "state" (text "failed") refl (
                    failed_attempt-failed k db recalculate now job invalid_fields a (ground arith)),
                attempts ∙ ap (λ x. number (whole x)) (ground arith),
              ))
          | inr more ↦ inr (
              inr (
                ground arith,
                (
                  kept k db recalculate now job (attempted a) "state" _ s t same
                      (failed_attempt-pending k db recalculate now job invalid_fields a
                        (ground arith))
                      w0,
                  kept k db recalculate now job (attempted a) "type" _ s t same h1 w1,
                  kept k db recalculate now job (attempted a) "employeeId" _ s t same h2 w2,
                  kept k db recalculate now job (attempted a) "cursorDate" _ s t same h3 w3,
                  kept k db recalculate now job (attempted a) "endDate" _ s t same h4 w4,
                  attempts,
                ),
              ))
        ]

    turn-Moves :
        (c a : ℕ) (s : S)
        → c ≤ e
        → a ≤ 4
        → Waits k db recalculate now job employee c e a s
        → Moves c a (turn_of k db recalculate now job (db.document s job) s)
    turn-Moves c a s le few w =
        subst (Moves c a)
          (sym (turn_of-turned (db.document s job) c a s le w.0 w.1 w.2 w.3 w.4 w.5))
          (turned-Moves c a s (dates c s) le few w (each_date-keeps _ s))

    -- Each turn leaves one block of dates or one attempt less.
    pub turns-ends :
        (n b c a : ℕ) (s : S)
        → c ≤ e
        → a ≤ 4
        → e < c + 31 * b
        → b + 4 ≤ n + a
        → Waits k db recalculate now job employee c e a s
        → IsOver k db recalculate now job (turns k db recalculate now job n s)
    unfolding turns
    turns-ends zero b c a s le few size enough w = absurd (omega arith)
    turns-ends (suc n) zero c a s le few size enough w = absurd (omega arith)
    turns-ends (suc n) (suc b) c a s le few size enough w =
        let t = turn_of k db recalculate now job (db.document s job) s in
        elim (turn-Moves c a s le few w) [
          | inl over ↦ IsOver-turns k db recalculate now job n t over
          | inr (inl (more, w')) ↦
              turns-ends n b (c + 31) a t more few (omega arith) (omega arith) w'
          | inr (inr (less, w')) ↦
              turns-ends n (suc b) c (suc a) t le (omega arith) size (omega arith) w'
        ]

-- A date range job, run with the program's own recalculation, comes to an end: whatever the
-- recalculations return or throw, a pending job that was not attempted before is completed, or has
-- failed with five attempts counted, after a turn for each 31 dates of its range and four turns more.
-- The range is not empty, and its dates can be read back and have a next day.
pub turns-IsOver :
    (k : Clock) (known_zone : String → Bool) {S : Type 0} (db : Database S) (now : ℕ)
    (organization employee name : String) (c e blocks : ℕ) (s : S)
    → ((d : ℕ) → d ≤ e → k.next_day d ≡ some (d + 1))
    → ((d : ℕ) → d ≤ e → k.plain_date_from (k.date_to_string d) ≡ some d)
    → c ≤ e
    → e < c + 31 * blocks
    → Waits k db
        (recalculate_attendance k known_zone db now)
        now
        (record { organization = organization; collection = "recalculationJobs"; name = name })
        employee
        c
        e
        0
        s
    → IsOver k db
        (recalculate_attendance k known_zone db now)
        now
        (record { organization = organization; collection = "recalculationJobs"; name = name })
        (turns k db
          (recalculate_attendance k known_zone db now)
          now
          (record { organization = organization; collection = "recalculationJobs"; name = name })
          (blocks + 4)
          s)
turns-IsOver k known_zone db now organization employee name c e blocks s next reads le size w =
    let job : Place = record {
      organization = organization;
      collection = "recalculationJobs";
      name = name;
    } in
    turns-ends k db (recalculate_attendance k known_zone db now) now job employee e next reads
      (λ d t.
        recalculate_attendance-other k known_zone db now organization employee d t job
          (other_collection (day_place organization employee d) job refl)
          (other_collection (inference_place db organization employee d) job refl))
      (blocks + 4) blocks c 0 s le (omega arith) size (omega arith) w
