-- ===== src/Attendance/Engine/Measures.antt =====
-- The minutes of a day: lateness, early leave and work against the shift's times.
use attendence_system.Prelude.{
  ℕ, ◌+◌, ◌-◌, ◌*◌, ◌≤◌, ◌<◌, ◌≡◌, refl, ◌⊎◌, inl, inr, ◌&&◌, Option, none, some, arith, ltb, leb,
  Bool-cases,
}
use attendence_system.Prelude.Result.{ok, or_throw, >>=-eq-ok, or_throw-eq_ok}
use attendence_system.Attendance.Types.{ShiftDefinition, after_grace}
use attendence_system.Attendance.Clock.{Clock, minute}
use attendence_system.Attendance.Window.{range_error, ShiftWindow, natural}
use attendence_system.Attendance.Minutes.{minutes_floor, minutes_ceil}
use attendence_system.Attendance.Engine.{
  Measured, worked_minutes, late_minutes, early_leave_minutes, measure_overtime, measure,
}

module _ (k : Clock) (s : ShiftDefinition) (w : ShiftWindow) (i o : Option ℕ) (m : Measured)
    (measured : measure k (some s) w i o ≡ ok m) where
  pub measure-eq_ok :
      (late_at : ℕ) × (early_at : ℕ) × (late_at ≡ w.start + natural s.grace_period_minutes * minute)
      × (w.end ≡ early_at + natural s.early_leave_grace_minutes * minute)
      × (m.late ≡ late_minutes s.late_calculation_mode w.start late_at i)
      × (m.early_leave ≡ early_leave_minutes early_at o)
      × (m.worked ≡ worked_minutes i o (natural s.break_minutes))
      × (measure_overtime k s w o ≡ ok m.overtime)
  unfolding measure
  measure-eq_ok =
      let (late_at, p, h) =
        >>=-eq-ok (or_throw (k.add_minutes w.start (natural s.grace_period_minutes)) range_error) _
          measured in
      let (early_at, q, h') =
        >>=-eq-ok
          (or_throw (k.subtract_minutes w.end (natural s.early_leave_grace_minutes)) range_error) _
          h in
      let (overtime, r, h'') = >>=-eq-ok (measure_overtime k s w o) _ h' in
      (
        late_at,
        early_at,
        k.add_minutes_lem _ _ _ (or_throw-eq_ok _ _ p),
        k.subtract_minutes_lem _ _ _ (or_throw-eq_ok _ _ q),
        ground arith,
        ground arith,
        ground arith,
        ground arith,
      )

  -- Nobody is late who comes within the grace period.
  pub late-zero :
      (t : ℕ) → i ≡ some t → t ≤ w.start + natural s.grace_period_minutes * minute → m.late ≡ 0
  unfolding late_minutes
  late-zero t e h = let run = measure-eq_ok in ground (arith, run.2, run.4)

  -- Who comes a millisecond or more after it is late, and, where lateness counts from the start of
  -- the shift, by more than the grace period.
  pub late-pos :
      (t : ℕ)
      → i ≡ some t
      → w.start + natural s.grace_period_minutes * minute + 1_000_000 ≤ t
      → (0 < m.late)
        × ((s.late_calculation_mode ≡ after_grace) ⊎ (natural s.grace_period_minutes < m.late))
  unfolding late_minutes minutes_ceil
  late-pos t e h =
      let run = measure-eq_ok in (ground (arith, run.2, run.4), ground (arith, run.2, run.4))

  -- Nobody leaves early who leaves within the grace period before the end, or later.
  pub early_leave-zero :
      (t : ℕ)
      → o ≡ some t
      → w.end ≤ t + natural s.early_leave_grace_minutes * minute
      → m.early_leave ≡ 0
  unfolding early_leave_minutes
  early_leave-zero t e h = let run = measure-eq_ok in ground (arith, run.3, run.5)

  -- Who leaves a millisecond or more before it leaves early, by the minutes up to the grace period,
  -- rounded up.
  pub early_leave-pos :
      (t : ℕ)
      → o ≡ some t
      → t + natural s.early_leave_grace_minutes * minute + 1_000_000 ≤ w.end
      → (0 < m.early_leave)
        × (w.end ≤ t + (natural s.early_leave_grace_minutes + m.early_leave) * minute + 1_000_000)
  unfolding early_leave_minutes minutes_ceil
  early_leave-pos t e h =
      let run = measure-eq_ok in (ground (arith, run.3, run.5), ground (arith, run.3, run.5))

-- A day with work has a check-in and a check-out in this order, and the work and the break
-- together do not exceed the time between them.
pub worked_minutes-le :
    (i o : Option ℕ) (b : ℕ)
    → ((a : ℕ) × (c : ℕ) × (i ≡ some a)
        × (o ≡ some c)
        × (a ≤ c)
        × ((worked_minutes i o b + b) * minute < c - a + 1_000_000))
      ⊎ (worked_minutes i o b ≡ 0)
unfolding worked_minutes minutes_floor
worked_minutes-le none o b = inr refl
worked_minutes-le (some a) none b = inr refl
worked_minutes-le (some a) (some c) b = elim (Bool-cases (leb a c && ltb b (minutes_floor a c))) [
  | inl e ↦ inl (a, c, refl, refl, ground arith, ground arith)
  | inr e ↦ inr (ground arith)
]
