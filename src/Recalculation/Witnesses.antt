-- ===== src/Recalculation/Witnesses.antt =====
-- The theorems of the recalculation, at the days of Examples.
use attendence_system.Prelude.{
  ◌≡◌, refl, ◌<◌, Bool, true, none, some, inl, inr, String, length, arith, All,
}
use attendence_system.Documents.{Document, by_descending}
use attendence_system.Recalculation.Memory.{memory}
use attendence_system.Recalculation.Examples.{
  text_clock, assigning, guessing, result, assigning_runs, guessing_runs, at, assignment, read,
  read_runs, context, day_range,
}
use attendence_system.Recalculation.Context.{assignments_of, inference_place}
use attendence_system.Recalculation.Load.Laws.{HasDistinctIds, load_punches_between-IsEventIn}
use attendence_system.Recalculation.Run.{recalculate_attendance}
use attendence_system.Recalculation.Run.Laws.{recalculate_attendance-other}
use attendence_system.Recalculation.Run.Covering.{Covers}
use attendence_system.Recalculation.Run.Source.{recalculate_attendance-assigned}
use attendence_system.Recalculation.Run.Guess.{IsGuessed, recalculate_attendance-IsGuessed}

abbrev all_zones : String → Bool
all_zones zone = true

abbrev assigned : Document
assigned = record { id = "a1"; path = "a1"; fields = assignment }

recalculate_attendance-other_example :
    memory.document
      (recalculate_attendance text_clock all_zones memory 0 "acme" "e1" "7" guessing).1
      (at "attendanceDays" "e1_8")
    ≡ memory.document guessing (at "attendanceDays" "e1_8")
unfolding memory
recalculate_attendance-other_example =
    recalculate_attendance-other text_clock all_zones memory 0 "acme" "e1" "7" guessing
      (at "attendanceDays" "e1_8") refl refl

assigned_stored : memory.document assigning (at "shiftAssignments" "a1") ≡ some assigned
unfolding memory
assigned_stored = refl

few_assignments :
    length (
      memory.query assigning "acme" "shiftAssignments"
        (assignments_of "e1" "7")
        (by_descending "effectiveFrom")
        20)
    < 20
unfolding memory
few_assignments = omega arith

assigned_covers : Covers "e1" "7" assigned
assigned_covers = (refl, ("5", refl, refl), inr (inl refl))

recalculate_attendance-assigned_example :
    Covers "e1" "7"
      (recalculate_attendance-assigned text_clock all_zones memory 0 "acme" "e1" "7" "a1" assigning
        assigned result assigned_stored assigned_covers few_assignments assigning_runs).0
recalculate_attendance-assigned_example =
    (recalculate_attendance-assigned text_clock all_zones memory 0 "acme" "e1" "7" "a1" assigning
      assigned result assigned_stored assigned_covers few_assignments assigning_runs).2

unassigned :
    All
      (λ a. ¬ (Covers "e1" "7" a))
      (memory.query guessing "acme" "shiftAssignments"
        (assignments_of "e1" "7")
        (by_descending "effectiveFrom")
        20)
unfolding memory
unassigned = tt

unguessed : memory.document guessing (inference_place memory "acme" "e1" "7") ≡ none
unfolding memory
unguessed = refl

recalculate_attendance-IsGuessed_example :
    IsGuessed text_clock all_zones memory 0 "acme" "e1" "7" guessing "NORMAL"
recalculate_attendance-IsGuessed_example =
    recalculate_attendance-IsGuessed text_clock all_zones memory 0 "acme" "e1" "7" guessing result
      "NORMAL" unassigned unguessed guessing_runs refl

load_punches_between-IsEventIn_example : HasDistinctIds read
load_punches_between-IsEventIn_example =
    (load_punches_between-IsEventIn text_clock memory guessing context "e1" "7" day_range read
      read_runs).0
