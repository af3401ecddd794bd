-- ===== src/Recalculation/Jobs/Witnesses.antt =====
-- The theorems of the jobs, at the job of Examples.
use attendence_system.Prelude.{◌≡◌, refl, arith, Bool, true, String, [], ◌∷◌}
use attendence_system.Documents.{text}
use attendence_system.Recalculation.Memory.{memory}
use attendence_system.Recalculation.Examples.{at}
use attendence_system.Recalculation.Run.{recalculate_attendance}
use attendence_system.Recalculation.Jobs.{current, process_dates, invalid_fields}
use attendence_system.Recalculation.Jobs.Laws.{stands_at, each_date, process_dates-each_date}
use attendence_system.Recalculation.Jobs.Turns.{turns, Waits, IsOver}
use attendence_system.Recalculation.Jobs.Completion.{turns-IsOver}
use attendence_system.Recalculation.Jobs.Failures.{failures, failures-state}
use attendence_system.Recalculation.Jobs.Examples.{
  tally_clock, tally_clock-reads, tally_clock-next, three_dates,
}

abbrev all_zones : String → Bool
all_zones zone = true

process_dates-each_date_example :
    process_dates tally_clock memory
      (recalculate_attendance tally_clock all_zones memory 0)
      0
      "acme"
      "e1"
      31
      1
      3
      three_dates
    ≡ stands_at 4 3 (
        each_date tally_clock
          (recalculate_attendance tally_clock all_zones memory 0)
          "acme"
          "e1"
          (1 ∷ 2 ∷ 3 ∷ [])
          three_dates)
process_dates-each_date_example =
    process_dates-each_date tally_clock memory
      (recalculate_attendance tally_clock all_zones memory 0) 0 "acme" "e1" 31 1 3 three_dates
      (λ d _. tally_clock-next d)

waits :
    Waits tally_clock memory
      (recalculate_attendance tally_clock all_zones memory 0)
      0
      (at "recalculationJobs" "j1")
      "e1"
      1
      3
      0
      three_dates
unfolding memory tally_clock
waits = (refl, refl, refl, refl, refl, refl)

turns-IsOver_example :
    IsOver tally_clock memory
      (recalculate_attendance tally_clock all_zones memory 0)
      0
      (at "recalculationJobs" "j1")
      (turns tally_clock memory
        (recalculate_attendance tally_clock all_zones memory 0)
        0
        (at "recalculationJobs" "j1")
        5
        three_dates)
turns-IsOver_example =
    turns-IsOver tally_clock all_zones memory 0 "acme" "e1" "j1" 1 3 1 three_dates
      (λ d _. tally_clock-next d) (λ d _. tally_clock-reads d) (omega arith) (omega arith) waits

failures-state_example :
    current memory
      (failures tally_clock memory
        (recalculate_attendance tally_clock all_zones memory 0)
        0
        (at "recalculationJobs" "j1")
        invalid_fields
        5
        three_dates)
      (at "recalculationJobs" "j1")
      "state"
    ≡ text "failed"
unfolding memory
failures-state_example =
    (failures-state tally_clock memory (recalculate_attendance tally_clock all_zones memory 0) 0
      (at "recalculationJobs" "j1") invalid_fields 5 three_dates (omega arith) refl refl).0
