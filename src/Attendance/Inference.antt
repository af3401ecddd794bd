-- ===== src/Attendance/Inference.antt =====
-- Guessing the shift of a day from its punches: cloud/functions/src/attendance/shift-inference.ts.
-- The explanation is kept as the facts that it is put together from.
pub mod Measured
pub mod Laws
mod Witnesses
use attendence_system.Prelude.{
  ℕ, ◌+◌, ◌-◌, ◌/◌, ◌≤◌, ◌≡◌, Bool, true, false, not, ◌&&◌, ◌||◌, List, [], ◌∷◌, ◌++◌, Option, none,
  some, String, ltb, leb, ◌==◌, any, find, filter, if◌then◌else◌,
}
use attendence_system.Prelude.Result.{Result, ok, err, ◌>>=◌, or_throw, map_ok}
use attendence_system.Prelude.Sort.{sort}
use attendence_system.Attendance.Types.{
  ShiftDefinition, AttendancePunch, PunchDirection, inward, outward, unknown,
}
use attendence_system.Attendance.Clock.{Clock, epoch_milliseconds}
use attendence_system.Attendance.Window.{EngineError, range_error}
use attendence_system.Attendance.Selection.{Seen}
use attendence_system.Attendance.Engine.{is_day}

pub record ShiftInferenceCandidate : Type 0 where
  pub shift_id : String
  pub shift_name : String
  pub start_time : String
  pub punch_id : String
  pub punch_at : String
  pub distance_minutes : ℕ

pub data Confidence : Type 0 where
  high medium low no_confidence : Confidence

pub data Explanation : Type 0 where
  no_punch_in_window : Explanation
  starts_minutes_from : String → ℕ → Option ℕ → Explanation

pub record ShiftInferenceResult : Type 0 where
  pub confidence : Confidence
  pub suggested_shift_id : Option String
  pub explanation : Explanation
  pub candidates : List ShiftInferenceCandidate

pub record ShiftInferencePolicy : Type 0 where
  pub early_window_minutes : ℕ
  pub late_window_minutes : ℕ
  pub high_confidence_distance_minutes : ℕ
  pub high_confidence_margin_minutes : ℕ
  pub medium_confidence_distance_minutes : ℕ
  pub medium_confidence_margin_minutes : ℕ

abbrev pub default_shift_inference_policy : ShiftInferencePolicy
default_shift_inference_policy = record {
  early_window_minutes = 120;
  late_window_minutes = 180;
  high_confidence_distance_minutes = 60;
  high_confidence_margin_minutes = 45;
  medium_confidence_distance_minutes = 120;
  medium_confidence_margin_minutes = 30;
}

-- Math.round(Math.abs(left - right) / 60_000)
unfoldable pub minutes_between : ℕ → ℕ → ℕ
minutes_between left right =
    let l = epoch_milliseconds left in
    let r = epoch_milliseconds right in
    let gap = (if leb l r then r - l else l - r) in (gap + 30_000) / 60_000

abbrev pub is_outward : PunchDirection → Bool
is_outward outward = true
is_outward _ = false

abbrev pub seen_le : Seen → Seen → Bool
seen_le a b = leb a.at b.at

abbrev pub within : ℕ → ℕ → Seen → Bool
within from' to' p = leb from' p.at && leb p.at to'

abbrev pub margin_at_least : Option ℕ → ℕ → Bool
margin_at_least none n = true
margin_at_least (some m) n = leb n m

unfoldable pub confidence_of : ShiftInferencePolicy → ℕ → Option ℕ → Confidence
confidence_of p distance margin =
    if leb distance p.high_confidence_distance_minutes
      && margin_at_least margin p.high_confidence_margin_minutes
    then high
    else if leb distance p.medium_confidence_distance_minutes
        && margin_at_least margin p.medium_confidence_margin_minutes
    then medium
    else low

abbrev pub margin_of : ShiftInferenceCandidate → List ShiftInferenceCandidate → Option ℕ
margin_of best [] = none
margin_of best (second ∷ others) = some (second.distance_minutes - best.distance_minutes)

-- From `const best = candidates[0]` on; the candidates are sorted by distance.
unfoldable pub conclude : ShiftInferencePolicy → List ShiftInferenceCandidate → ShiftInferenceResult
conclude policy [] = record {
  confidence = no_confidence;
  suggested_shift_id = none;
  explanation = no_punch_in_window;
  candidates = [];
}
conclude policy (best ∷ others) = record {
  confidence = confidence_of policy best.distance_minutes (margin_of best others);
  suggested_shift_id = some best.shift_id;
  explanation = starts_minutes_from best.shift_name best.distance_minutes (margin_of best others);
  candidates = best ∷ others;
}

abbrev pub candidate_for : ShiftDefinition → ℕ → Option Seen → List ShiftInferenceCandidate
candidate_for shift scheduled none = []
candidate_for shift scheduled (some p) =
    record {
      shift_id = shift.id;
      shift_name = shift.name;
      start_time = shift.start_time;
      punch_id = p.punch.id;
      punch_at = p.punch.occurred_at;
      distance_minutes = minutes_between p.at scheduled;
    }
    ∷ []

module _ (k : Clock) where
  -- left.distanceMinutes - right.distanceMinutes || left.shiftId.localeCompare(right.shiftId)
  unfoldable pub candidate_le : ShiftInferenceCandidate → ShiftInferenceCandidate → Bool
  candidate_le a b =
      ltb a.distance_minutes b.distance_minutes
      || (a.distance_minutes == b.distance_minutes && k.locale_le a.shift_id b.shift_id)

  unfoldable pub read_punch : AttendancePunch → Result EngineError Seen
  read_punch p =
      or_throw (k.instant_from p.occurred_at) range_error >>= λ t. ok (record { punch = p; at = t })

  unfoldable pub start_punches : List AttendancePunch → Result EngineError (List Seen)
  unfolding read_punch
  start_punches punches =
      map_ok read_punch (filter (λ p. not (is_outward p.direction)) punches) >>= λ seen.
      ok (sort seen_le seen)

  -- The body of the `flatMap`.
  unfoldable pub candidates_of_shift :
      ShiftInferencePolicy
      → ℕ
      → String
      → List Seen
      → ShiftDefinition
      → Result EngineError (List ShiftInferenceCandidate)
  candidates_of_shift policy date timezone starts shift =
      if not (any (is_day (k.day_of_week date)) shift.working_days) then ok [] else (do
        start_time ← or_throw (k.plain_time_from shift.start_time) range_error
        scheduled ← or_throw (k.to_zoned date timezone start_time) range_error
        window_start ←
            or_throw (k.subtract_minutes scheduled policy.early_window_minutes) range_error
        window_end ← or_throw (k.add_minutes scheduled policy.late_window_minutes) range_error
        ok (candidate_for shift scheduled (find (within window_start window_end) starts)))

  unfoldable pub all_candidates :
      ShiftInferencePolicy
      → ℕ
      → String
      → List Seen
      → List ShiftDefinition
      → Result EngineError (List ShiftInferenceCandidate)
  all_candidates policy date timezone starts [] = ok []
  all_candidates policy date timezone starts (shift ∷ shifts) =
      let rest = all_candidates policy date timezone starts shifts in
      candidates_of_shift policy date timezone starts shift >>= λ here.
      rest >>= λ others. ok (here ++ others)

  unfoldable pub infer_daily_shift :
      String
      → String
      → List ShiftDefinition
      → List AttendancePunch
      → ShiftInferencePolicy
      → Result EngineError ShiftInferenceResult
  infer_daily_shift date timezone shifts punches policy = do
    day ← or_throw (k.plain_date_from date) range_error
    starts ← start_punches punches
    found ← all_candidates policy day timezone starts shifts
    ok (conclude policy (sort candidate_le found))
