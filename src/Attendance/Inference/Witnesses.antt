-- ===== src/Attendance/Inference/Witnesses.antt =====
-- The theorems on the inference of a shift, at a morning and an evening shift.
use attendence_system.Prelude.{ℕ, ◌≡◌, refl, List, [], ◌∷◌, some}
use attendence_system.Prelude.Result.{ok}
use attendence_system.Prelude.Sort.{sort}
use attendence_system.Prelude.Text.{str_le}
use attendence_system.Attendance.Types.{ShiftDefinition, AttendancePunch}
use attendence_system.Attendance.Inference.{
  ShiftInferenceCandidate, ShiftInferenceResult, high, starts_minutes_from,
  default_shift_inference_policy, minutes_between, confidence_of, conclude, candidate_le,
  read_punch, start_punches, candidates_of_shift, all_candidates, infer_daily_shift,
}
use attendence_system.Attendance.Inference.Laws.{IsClear, infer_daily_shift-high}
use attendence_system.Attendance.Examples.{test_clock, day_shift, punch}

abbrev evening_shift : ShiftDefinition
evening_shift = record day_shift { id = "EVENING"; name = "Evening Shift"; start_time = "660" }

abbrev shifts : List ShiftDefinition
shifts = evening_shift ∷ day_shift ∷ []

abbrev punches : List AttendancePunch
punches = punch "b" "10900" ∷ punch "a" "10620" ∷ []

abbrev morning : ShiftInferenceCandidate
morning = record {
  shift_id = "NORMAL";
  shift_name = "Normal Shift";
  start_time = "510";
  punch_id = "a";
  punch_at = "10620";
  distance_minutes = 30;
}

abbrev evening : ShiftInferenceCandidate
evening = record {
  shift_id = "EVENING";
  shift_name = "Evening Shift";
  start_time = "660";
  punch_id = "a";
  punch_at = "10620";
  distance_minutes = 120;
}

abbrev inferred : ShiftInferenceResult
inferred = record {
  confidence = high;
  suggested_shift_id = some "NORMAL";
  explanation = starts_minutes_from "Normal Shift" 30 (some 90);
  candidates = morning ∷ evening ∷ [];
}

inferred_run :
    infer_daily_shift test_clock "7" "Asia/Colombo" shifts punches default_shift_inference_policy
    ≡ ok inferred
unfolding infer_daily_shift start_punches read_punch all_candidates candidates_of_shift candidate_le
    conclude confidence_of minutes_between sort str_le test_clock
inferred_run = refl

infer_daily_shift-high_example :
    (day : ℕ) × (test_clock.plain_date_from "7" ≡ some day)
    × IsClear test_clock default_shift_inference_policy day "Asia/Colombo" shifts punches inferred
infer_daily_shift-high_example =
    infer_daily_shift-high test_clock "7" "Asia/Colombo" shifts punches
      default_shift_inference_policy inferred inferred_run refl
