-- ===== src/Attendance/Minutes.antt =====
-- Minutes between instants and the rounding of overtime: `minutesFloor`, `minutesCeil` and
-- `overtimeMinutes` of cloud/functions/src/attendance/engine.ts. A truncated difference of
-- milliseconds is `Math.max(0, ...)` of the signed one, since `Math.floor` and `Math.ceil` of a
-- negative quotient are at most 0. Quotients are exact, as those of the program's sizes are.
use attendence_system.Prelude.{
  ℕ, ◌+◌, ◌-◌, ◌*◌, ◌/◌, Bool, true, false, not, ◌||◌, ltb, leb, if◌then◌else◌,
}
use attendence_system.Attendance.Types.{
  Overtime, OvertimeRoundingMode, no_rounding, floor, nearest, ceil,
}
use attendence_system.Attendance.Clock.{epoch_milliseconds}
use attendence_system.Attendance.Window.{natural}

unfoldable pub minutes_floor : ℕ → ℕ → ℕ
minutes_floor start end = (epoch_milliseconds end - epoch_milliseconds start) / 60_000

unfoldable pub minutes_ceil : ℕ → ℕ → ℕ
minutes_ceil start end = (epoch_milliseconds end - epoch_milliseconds start + 59_999) / 60_000

-- Math.round(a / b): halves go up.
abbrev pub round_div : ℕ → ℕ → ℕ
round_div a b = (2 * a + b) / (2 * b)

abbrev pub ceil_div : ℕ → ℕ → ℕ
ceil_div a b = (a + (b - 1)) / b

abbrev pub rounded : OvertimeRoundingMode → ℕ → ℕ → ℕ
rounded no_rounding raw step = raw
rounded floor raw step = raw / step * step
rounded nearest raw step = round_div raw step * step
rounded ceil raw step = ceil_div raw step * step

abbrev pub is_no_rounding : OvertimeRoundingMode → Bool
is_no_rounding no_rounding = true
is_no_rounding _ = false

unfoldable pub overtime_minutes : ℕ → Overtime → ℕ
overtime_minutes raw o =
    if not o.enabled || ltb raw (natural o.minimum_minutes)
    then 0
    else if is_no_rounding o.rounding_mode || leb (natural o.rounding_minutes) 1
    then raw
    else rounded o.rounding_mode raw (natural o.rounding_minutes)
