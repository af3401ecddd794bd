-- ===== src/Attendance/Overtime.antt =====
-- What the rounding of overtime does to the raw minutes.
use mathlib.Core.Path.{subst}
use attendence_system.Prelude.{
  ℕ, ◌+◌, ◌*◌, ◌%◌, ◌≤◌, ◌<◌, ◌≡◌, refl, ◌⊎◌, inl, inr, Bool-cases, true, false, not, ◌||◌, arith,
  ltb, leb,
}
use attendence_system.Attendance.Types.{
  Overtime, OvertimeRoundingMode, no_rounding, floor, nearest, ceil,
}
use attendence_system.Attendance.Window.{natural}
use attendence_system.Attendance.Minutes.{overtime_minutes, rounded}

-- The rounded value against the raw one, by mode.
abbrev pub Rounds : OvertimeRoundingMode → ℕ → ℕ → ℕ → Type 0
Rounds no_rounding step raw v = v ≡ raw
Rounds floor step raw v = (v ≤ raw) × (raw < v + step) × (v % step ≡ 0)
Rounds nearest step raw v = (2 * v ≤ 2 * raw + step) × (2 * raw < 2 * v + step) × (v % step ≡ 0)
Rounds ceil step raw v = (raw ≤ v) × (v < raw + step) × (v % step ≡ 0)

rounded-Rounds :
    (mode : OvertimeRoundingMode) (raw step : ℕ)
    → 1 < step
    → Rounds mode step raw (rounded mode raw step)
rounded-Rounds no_rounding raw step h = refl
rounded-Rounds floor raw step h = (grind arith, grind arith, grind arith)
rounded-Rounds nearest raw step h = (grind arith, grind arith, grind arith)
rounded-Rounds ceil raw step h = (grind arith, grind arith, grind arith)

-- Overtime that is disabled or under the minimum is 0; without a rounding step it is the raw
-- minutes; else it is rounded to a multiple of the step, down, up or to the nearest, by less than
-- one step.
pub overtime_minutes-Rounds :
    (raw : ℕ) (o : Overtime)
    → (((o.enabled ≡ false) ⊎ (raw < natural o.minimum_minutes)) × (overtime_minutes raw o ≡ 0))
      ⊎ ((o.enabled ≡ true)
          × (natural o.minimum_minutes ≤ raw)
          × (natural o.rounding_minutes ≤ 1)
          × (overtime_minutes raw o ≡ raw))
      ⊎ ((o.enabled ≡ true)
          × (natural o.minimum_minutes ≤ raw)
          × (1 < natural o.rounding_minutes)
          × Rounds o.rounding_mode (natural o.rounding_minutes) raw (overtime_minutes raw o))
unfolding overtime_minutes
overtime_minutes-Rounds raw o =
    elim (Bool-cases (not o.enabled || ltb raw (natural o.minimum_minutes))) [
      | inl e ↦ inl (ground arith, rw e)
      | inr e ↦ elim (Bool-cases (leb (natural o.rounding_minutes) 1)) [
        | inl i ↦ inr (inl (ground arith, ground arith, ground arith, ground arith))
        | inr i ↦ inr (
            inr (
              ground arith,
              ground arith,
              ground arith,
              subst (Rounds o.rounding_mode (natural o.rounding_minutes) raw) (ground arith)
                  (rounded-Rounds o.rounding_mode raw (natural o.rounding_minutes) (ground arith)),
            ))
      ]
    ]
