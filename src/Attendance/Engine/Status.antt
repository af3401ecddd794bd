-- ===== src/Attendance/Engine/Status.antt =====
-- The status of a day, described by the facts of the day.
use attendence_system.Prelude.{
  ℕ, ◌≡◌, refl, Bool, true, false, ◌||◌, Option, none, some, is_some, get_or,
}
use mathlib.Core.Path.{subst, sym}
use attendence_system.Prelude.Result.{ok}
use attendence_system.Prelude.Sort.{sort}
use attendence_system.Attendance.Types.{
  AttendanceStatus, present, absent, leave, holiday, rest_day, no_shift, CalculationInput,
  CalculationResult,
}
use attendence_system.Attendance.Clock.{Clock}
use attendence_system.Attendance.Adjustments.{adjustment_le, last_said, status_of}
use attendence_system.Attendance.Engine.{derive_base_status, works_on, calculate_attendance}
use attendence_system.Attendance.Engine.Day.{status-derived}

-- What each status says of a day: whether it has a time, is a working day of its shift, has a shift,
-- is a holiday and is a leave.
abbrev pub HasStatus : Bool → Bool → Bool → Bool → Bool → AttendanceStatus → Type 0
HasStatus timed working shift holiday' leave' present = timed ≡ true
HasStatus timed working shift holiday' leave' leave = (timed ≡ false) × (leave' ≡ true)
HasStatus timed working shift holiday' leave' holiday =
    (timed ≡ false) × (leave' ≡ false) × (holiday' ≡ true)
HasStatus timed working shift holiday' leave' no_shift =
    (timed ≡ false) × (leave' ≡ false) × (holiday' ≡ false) × (shift ≡ false)
HasStatus timed working shift holiday' leave' absent =
    (timed ≡ false) × (leave' ≡ false) × (holiday' ≡ false) × (shift ≡ true) × (working ≡ true)
HasStatus timed working shift holiday' leave' rest_day =
    (timed ≡ false) × (leave' ≡ false) × (holiday' ≡ false) × (shift ≡ true) × (working ≡ false)

derive_base_status-HasStatus :
    (timed working shift holiday' leave' : Bool)
    → HasStatus timed working shift holiday' leave'
        (derive_base_status timed working shift holiday' leave')
unfolding derive_base_status
derive_base_status-HasStatus true working shift holiday' leave' = refl
derive_base_status-HasStatus false working shift holiday' true = (refl, refl)
derive_base_status-HasStatus false working shift true false = (refl, refl, refl)
derive_base_status-HasStatus false working false false false = (refl, refl, refl, refl)
derive_base_status-HasStatus false true true false false = (refl, refl, refl, refl, refl)
derive_base_status-HasStatus false false true false false = (refl, refl, refl, refl, refl)

-- `said` if there is one, and else what the facts of the day make of it.
abbrev pub SaysOr :
    Option AttendanceStatus → (AttendanceStatus → Type 0) → AttendanceStatus → Type 0
SaysOr none P status = P status
SaysOr (some said) P status = status ≡ said

get_or-SaysOr :
    (said : Option AttendanceStatus) (P : AttendanceStatus → Type 0) (base : AttendanceStatus)
    → P base
    → SaysOr said P (get_or said base)
get_or-SaysOr none P base h = h
get_or-SaysOr (some said) P base h = refl

-- The reported status is what the last status correction says, in the order of approval. Where
-- there is none, the employee is present exactly if the day has a time, and else on leave, on
-- holiday, without a shift, absent or at rest, the first that applies.
pub calculate_attendance-status :
    (k : Clock) (input : CalculationInput) (r : CalculationResult)
    → calculate_attendance k input ≡ ok r
    → (day : ℕ) → k.plain_date_from input.date ≡ some day
    → SaysOr
        (last_said status_of (sort (adjustment_le k) input.approved_adjustments))
        (HasStatus
          (is_some r.first_in_at || is_some r.last_out_at)
          (works_on input.shift (k.day_of_week day))
          (is_some input.shift)
          (is_some input.holiday)
          (is_some input.leave))
        r.status
calculate_attendance-status k input r h day e =
    let said = last_said status_of (sort (adjustment_le k) input.approved_adjustments) in
    let timed = is_some r.first_in_at || is_some r.last_out_at in
    let working = works_on input.shift (k.day_of_week day) in
    let P =
      HasStatus timed working (is_some input.shift) (is_some input.holiday) (is_some input.leave) in
    subst (SaysOr said P) (sym (status-derived k input r h day e)) (
      get_or-SaysOr said P _ (
        derive_base_status-HasStatus timed working (is_some input.shift) (is_some input.holiday)
          (is_some input.leave)))
