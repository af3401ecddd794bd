-- ===== src/Attendance/Engine/Day.antt =====
-- What `calculate_attendance` promises of the day that it returns.
use mathlib.Core.Path.{subst}
use attendence_system.Prelude.{
  ℕ, ◌<◌, ◌≡◌, refl, Bool, true, false, not, ◌&&◌, ◌||◌, List, [], ◌∷◌, Option, none, some, String,
  arith, ltb, any, is_some, if◌then◌else◌, get_or,
}
use attendence_system.Prelude.Result.{ok, or_throw, >>=-elim, ok-injective, or_throw-eq_ok}
use attendence_system.Prelude.Sort.{sort, IsSorted}
use attendence_system.Prelude.Text.{str_le}
use attendence_system.Attendance.Types.{
  ShiftDefinition, first_last, AttendanceStatus, ManualAdjustment, CalculationInput,
  CalculationResult, AttendanceException, early_leave, invalid_punch_order, late_arrival,
  missing_check_in, missing_check_out, worked_on_holiday, worked_on_leave, worked_without_shift,
}
use attendence_system.Attendance.Clock.{Clock}
use attendence_system.Attendance.Window.{range_error, ShiftWindow}
use attendence_system.Attendance.Selection.{PunchSelection, select_punches}
use attendence_system.Attendance.Selection.Laws.{InOrder, select_punches-InOrder}
use attendence_system.Attendance.Adjustments.{
  Adjusted, is_set_status, adjustment_le, apply_adjustments, apply_adjustments-FollowsLast,
  last_said, status_of,
}
use attendence_system.Attendance.Exceptions.{has, spelling}
use attendence_system.Attendance.Engine.{
  Measured, derive_base_status, works_on, if_both, worked_minutes, measure, window_of, mode_of,
  clock_time, text_of, status_after, calculate_attendance, day_of, break_of,
}
use attendence_system.Attendance.Engine.Raised.{applies, has-raise, raise-IsSorted}
use attendence_system.Attendance.Engine.Measures.{measure-eq_ok}

-- The values that a successful calculation went through.
pub record Run (k : Clock) (input : CalculationInput) (r : CalculationResult) : Type 0 where
  pub day : ℕ
  pub window : ShiftWindow
  pub selected : PunchSelection
  pub adjusted : Adjusted
  pub measured : Measured
  pub dated : k.plain_date_from input.date ≡ some day
  pub windowed : window_of k input.shift day input.timezone ≡ ok window
  pub selects : select_punches k input.punches (mode_of input.shift) window ≡ ok selected
  pub adjusts :
      apply_adjustments k
        (record {
          first_in = selected.first_in;
          last_out = selected.last_out;
          status =
              derive_base_status
                (is_some selected.first_in || is_some selected.last_out)
                (works_on input.shift (k.day_of_week day))
                (is_some input.shift)
                (is_some input.holiday)
                (is_some input.leave);
        })
        (sort (adjustment_le k) input.approved_adjustments)
      ≡ ok adjusted
  pub measures : measure k input.shift window adjusted.first_in adjusted.last_out ≡ ok measured
  pub first_text : Option String
  pub last_text : Option String
  pub built :
      day_of k input day window selected adjusted
        (sort (adjustment_le k) input.approved_adjustments)
        measured
        first_text
        last_text
      ≡ r

is_some-text_of : (k : Clock) (t : Option ℕ) → is_some (text_of k t) ≡ is_some t
is_some-text_of k none = refl
is_some-text_of k (some t) = refl

is_some-last_said :
    (as' : List ManualAdjustment) → is_some (last_said status_of as') ≡ any is_set_status as'
is_some-last_said [] = refl
is_some-last_said (a ∷ as') = ground (arith, is_some-last_said as')

pick_status :
    (said : Option AttendanceStatus) (b : Bool) (after base other : AttendanceStatus)
    → is_some said ≡ b
    → after ≡ get_or said base
    → (if b then after else other) ≡ get_or said other
pick_status said b after base other h e = ground arith

positive_work :
    (i o : Option ℕ) (b : ℕ)
    → 0 < worked_minutes i o b
    → (is_some i ≡ true) × (is_some o ≡ true) × (if_both i o (λ a c. ltb c a) ≡ false)
unfolding worked_minutes
positive_work none o b h = absurd (omega arith)
positive_work (some a) none b h = absurd (omega arith)
positive_work (some a) (some c) b h = (refl, refl, ground arith)

module _ (k : Clock) (input : CalculationInput) (r : CalculationResult)
    (calculated : calculate_attendance k input ≡ ok r) where
  pub run : Run k input r
  unfolding calculate_attendance
  run = >>=-elim (or_throw (k.plain_date_from input.date) range_error) _ calculated λ day e1 h1.
      >>=-elim (window_of k input.shift day input.timezone) _ h1 λ w e2 h2.
        >>=-elim (select_punches k input.punches (mode_of input.shift) w) _ h2 λ selected e3 h3.
          >>=-elim (apply_adjustments k _ (sort (adjustment_le k) input.approved_adjustments)) _ h3
            λ adjusted e4 h4.
              >>=-elim (measure k input.shift w adjusted.first_in adjusted.last_out) _ h4 λ m e5 h5.
                >>=-elim (clock_time k adjusted.first_in input.timezone) _ h5 λ i e6 h6.
                  >>=-elim (clock_time k adjusted.last_out input.timezone) _ h6 λ o e7 h7. record {
                    day = day;
                    window = w;
                    selected = selected;
                    adjusted = adjusted;
                    measured = m;
                    dated = or_throw-eq_ok _ _ e1;
                    windowed = e2;
                    selects = e3;
                    adjusts = e4;
                    measures = e5;
                    first_text = i;
                    last_text = o;
                    built = ok-injective h7;
                  }

  same_day : (day : ℕ) → k.plain_date_from input.date ≡ some day → run.day ≡ day
  same_day day e = cc (run.dated)

  -- The status in terms of the fields of the result.
  pub status-derived :
      (day : ℕ)
      → k.plain_date_from input.date ≡ some day
      → r.status
        ≡ get_or (last_said status_of (sort (adjustment_le k) input.approved_adjustments)) (
            derive_base_status
              (is_some r.first_in_at || is_some r.last_out_at)
              (works_on input.shift (k.day_of_week day))
              (is_some input.shift)
              (is_some input.holiday)
              (is_some input.leave))
  unfolding day_of status_after
  status-derived day e =
      subst
        (λ (r : CalculationResult).
          r.status
          ≡ get_or (last_said status_of (sort (adjustment_le k) input.approved_adjustments)) (
              derive_base_status (is_some r.first_in_at || is_some r.last_out_at)
                (works_on input.shift (k.day_of_week day)) (is_some input.shift)
                (is_some input.holiday) (is_some input.leave)))
        run.built
        (rw
          (
            same_day day e,
            is_some-text_of k run.adjusted.first_in,
            is_some-text_of k run.adjusted.last_out,
          )
          (pick_status _ _ _ _ _
            (is_some-last_said (sort (adjustment_le k) input.approved_adjustments))
            (apply_adjustments-FollowsLast k _ run.adjusted _ run.adjusts).2))

  raised :
      (e : AttendanceException)
      → has e r.exceptions
        ≡ applies input run.window run.selected
            (works_on input.shift (k.day_of_week run.day))
            run.adjusted.first_in
            run.adjusted.last_out
            run.measured
            e
  unfolding day_of
  raised e =
      subst
        (λ (r : CalculationResult).
          has e r.exceptions
          ≡ applies input run.window run.selected (works_on input.shift (k.day_of_week run.day))
              run.adjusted.first_in run.adjusted.last_out run.measured e)
        run.built (has-raise _ _ _ _ _ _ _ e)

  shown :
      (is_some r.first_in_at ≡ is_some run.adjusted.first_in)
      × (is_some r.last_out_at ≡ is_some run.adjusted.last_out)
      × (r.late_minutes ≡ run.measured.late)
      × (r.early_leave_minutes ≡ run.measured.early_leave)
      × (r.worked_minutes ≡ run.measured.worked)
  unfolding day_of
  shown =
      subst
        (λ (r : CalculationResult).
          (is_some r.first_in_at ≡ is_some run.adjusted.first_in)
          × (is_some r.last_out_at ≡ is_some run.adjusted.last_out)
          × (r.late_minutes ≡ run.measured.late)
          × (r.early_leave_minutes ≡ run.measured.early_leave)
          × (r.worked_minutes ≡ run.measured.worked))
        run.built
        (
          is_some-text_of k run.adjusted.first_in,
          is_some-text_of k run.adjusted.last_out,
          refl,
          refl,
          refl,
        )

  -- The exceptions are in the order of their spelling.
  pub calculate_attendance-exceptions_IsSorted :
      IsSorted (λ a b. str_le (spelling a) (spelling b)) r.exceptions
  unfolding day_of
  calculate_attendance-exceptions_IsSorted =
      subst
        (λ (r : CalculationResult). IsSorted (λ a b. str_le (spelling a) (spelling b)) r.exceptions)
        run.built (raise-IsSorted _ _ _ _ _ _ _)

  -- The exceptions against the other fields of the day: a time that is missing on one side, late
  -- and early minutes, and work on a holiday, on leave or with no shift.
  pub calculate_attendance-exceptions :
      (has missing_check_in r.exceptions ≡ (not (is_some r.first_in_at) && is_some r.last_out_at))
      × (has missing_check_out r.exceptions
          ≡ (is_some r.first_in_at && not (is_some r.last_out_at)))
      × (has late_arrival r.exceptions ≡ ltb 0 r.late_minutes)
      × (has early_leave r.exceptions ≡ ltb 0 r.early_leave_minutes)
      × (has worked_on_holiday r.exceptions
          ≡ ((is_some r.first_in_at || is_some r.last_out_at) && is_some input.holiday))
      × (has worked_on_leave r.exceptions
          ≡ ((is_some r.first_in_at || is_some r.last_out_at) && is_some input.leave))
      × (has worked_without_shift r.exceptions
          ≡ ((is_some r.first_in_at || is_some r.last_out_at) && not (is_some input.shift)))
  calculate_attendance-exceptions =
      rw (shown.0, shown.1, shown.2, shown.3)
        (
          raised missing_check_in,
          raised missing_check_out,
          raised late_arrival,
          raised early_leave,
          raised worked_on_holiday,
          raised worked_on_leave,
          raised worked_without_shift,
        )

  measured_work :
      (s : Option ShiftDefinition) (w : ShiftWindow) (i o : Option ℕ) (m : Measured)
      → measure k s w i o ≡ ok m
      → m.worked ≡ worked_minutes i o (break_of s)
  unfolding measure
  measured_work none w i o m h = ground arith
  measured_work (some s) w i o m h = let full = measure-eq_ok k s w i o m h in full.6

  -- A day with worked minutes has a check-in and a check-out, and not in the wrong order.
  pub calculate_attendance-worked :
      0 < r.worked_minutes
      → (is_some r.first_in_at ≡ true)
        × (is_some r.last_out_at ≡ true)
        × (has invalid_punch_order r.exceptions ≡ false)
  calculate_attendance-worked h =
      let work =
        measured_work input.shift run.window run.adjusted.first_in run.adjusted.last_out
          run.measured run.measures in
      rw (shown.0, shown.1, raised invalid_punch_order)
        (positive_work _ _ (break_of input.shift) (omega (arith, h, shown.4, work)))

  -- With no corrections, a shift that counts the first and the last punch never reports punches in
  -- the wrong order.
  pub calculate_attendance-InOrder :
      mode_of input.shift ≡ first_last
      → input.approved_adjustments ≡ []
      → has invalid_punch_order r.exceptions ≡ false
  unfolding sort apply_adjustments
  calculate_attendance-InOrder mode none' =
      let same = no_corrections _ _ input.approved_adjustments none' run.adjusts in
      let ordered = select_punches-InOrder k input.punches run.window run.selected (
        subst (λ m. select_punches k input.punches m run.window ≡ ok run.selected) mode
          run.selects) in
      rw (raised invalid_punch_order, ← same)
        (if_both-InOrder run.selected.first_in run.selected.last_out ordered)
    where
      no_corrections :
          (s a : Adjusted) (as' : List ManualAdjustment)
          → as' ≡ []
          → apply_adjustments k s (sort (adjustment_le k) as') ≡ ok a
          → s ≡ a
      no_corrections s a as' e h =
          ok-injective (subst (λ l. apply_adjustments k s (sort (adjustment_le k) l) ≡ ok a) e h)

      if_both-InOrder : (i o : Option ℕ) → InOrder (i, o) → if_both i o (λ a b. ltb b a) ≡ false
      if_both-InOrder none o h = refl
      if_both-InOrder (some a) none h = refl
      if_both-InOrder (some a) (some b) h = ground arith
