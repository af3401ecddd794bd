-- ===== src/Web/Reporting/Laws.antt =====
-- A report loses nothing: the rows of an employee add up to the employee's days.
use attendence_system.Prelude.{
  ℕ, ◌+◌, ◌≡◌, refl, ap, ◌∙◌, Bool, List, [], ◌∷◌, String, arith, if◌then◌else◌, Bool-cases, inl,
  inr,
}
use attendence_system.Prelude.Sort.{sort, insert}
use attendence_system.Prelude.Text.{str_eq, str_eq_sound}
use attendence_system.Web.Reporting.{
  AttendanceDay, ReportSummaryRow, new_row, add_day, add_to, collect, row_le, summarize_attendance,
  one_if, is_present, is_absent, is_leave, is_working,
}

-- The total over the rows of one employee, and over the days of one.
abbrev pub row_total : (ReportSummaryRow → ℕ) → String → List ReportSummaryRow → ℕ
row_total f e [] = 0
row_total f e (r ∷ rows) = (if str_eq r.employee_id e then f r else 0) + row_total f e rows

abbrev pub day_total : (AttendanceDay → ℕ) → String → List AttendanceDay → ℕ
day_total g e [] = 0
day_total g e (d ∷ ds) = (if str_eq d.employee_id e then g d else 0) + day_total g e ds

row_total-insert :
    (le : ReportSummaryRow → ReportSummaryRow → Bool) (f : ReportSummaryRow → ℕ) (e : String)
    (r : ReportSummaryRow) (rows : List ReportSummaryRow)
    → row_total f e (insert le r rows) ≡ row_total f e (r ∷ rows)
unfolding insert
row_total-insert le f e r [] = refl
row_total-insert le f e r (q ∷ rows) = ground (arith, row_total-insert le f e r rows)

row_total-sort :
    (le : ReportSummaryRow → ReportSummaryRow → Bool) (f : ReportSummaryRow → ℕ) (e : String)
    (rows : List ReportSummaryRow)
    → row_total f e (sort le rows) ≡ row_total f e rows
unfolding sort
row_total-sort le f e [] = refl
row_total-sort le f e (r ∷ rows) =
    row_total-insert le f e r (sort le rows) ∙ ground (arith, row_total-sort le f e rows)

add_branch :
    (b c : Bool) (x y z t : ℕ)
    → b ≡ c
    → x ≡ y + z
    → (if b then x else 0) + t ≡ (if b then y else 0) + t + (if c then z else 0)
add_branch b c x y z t same e = ground arith

zero_plus : (n : ℕ) → 0 + n ≡ n
zero_plus n = omega arith

module _ (f : ReportSummaryRow → ℕ) (g : AttendanceDay → ℕ)
    (fresh : (d : AttendanceDay) → f (new_row d) ≡ 0)
    (adds : (d : AttendanceDay) (r : ReportSummaryRow) → f (add_day d r) ≡ f r + g d) where
  row_total-add_to :
      (e : String) (d : AttendanceDay) (rows : List ReportSummaryRow)
      → row_total f e (add_to d rows)
        ≡ row_total f e rows + (if str_eq d.employee_id e then g d else 0)
  unfolding add_to
  row_total-add_to e d [] = ground (arith, fresh d, adds d (new_row d))
  row_total-add_to e d (r ∷ rows) = elim (Bool-cases (str_eq r.employee_id d.employee_id)) [
    | inl same ↦ rw (same) (
        add_branch (str_eq r.employee_id e) (str_eq d.employee_id e) (f (add_day d r)) (f r) (g d)
          (row_total f e rows) (ap (λ x. str_eq x e) (str_eq_sound _ _ same)) (adds d r))
    | inr other ↦ rw (other) (ground (arith, row_total-add_to e d rows))
  ]

  row_total-collect :
      (e : String) (rows : List ReportSummaryRow) (ds : List AttendanceDay)
      → row_total f e (collect rows ds) ≡ row_total f e rows + day_total g e ds
  unfolding collect
  row_total-collect e rows [] = omega arith
  row_total-collect e rows (d ∷ ds) =
      ground (arith, row_total-collect e (add_to d rows) ds, row_total-add_to e d rows)

  row_total-summarize :
      (le : String → String → Bool) (e : String) (days : List AttendanceDay)
      → row_total f e (summarize_attendance le days) ≡ day_total g e days
  unfolding summarize_attendance
  row_total-summarize le e days =
      row_total-sort (row_le le) f e (collect [] days)
      ∙ row_total-collect e [] days
      ∙ zero_plus (day_total g e days)

-- Whatever the order of names, an employee's rows add up to the employee's days: minutes worked, late,
-- missed at the end and over time, and the days present, absent, on leave and to be worked.
pub summarize_attendance-totals :
    (le : String → String → Bool) (e : String) (days : List AttendanceDay)
    → (row_total (λ r. r.total_worked_minutes) e (summarize_attendance le days)
        ≡ day_total (λ d. d.worked_minutes) e days)
      × (row_total (λ r. r.total_late_minutes) e (summarize_attendance le days)
          ≡ day_total (λ d. d.late_minutes) e days)
      × (row_total (λ r. r.early_leave_minutes) e (summarize_attendance le days)
          ≡ day_total (λ d. d.early_leave_minutes) e days)
      × (row_total (λ r. r.overtime_minutes) e (summarize_attendance le days)
          ≡ day_total (λ d. d.overtime_minutes) e days)
      × (row_total (λ r. r.present_days) e (summarize_attendance le days)
          ≡ day_total (λ d. one_if (is_present d.status)) e days)
      × (row_total (λ r. r.absent_days) e (summarize_attendance le days)
          ≡ day_total (λ d. one_if (is_absent d.status)) e days)
      × (row_total (λ r. r.leave_days) e (summarize_attendance le days)
          ≡ day_total (λ d. one_if (is_leave d.status)) e days)
      × (row_total (λ r. r.working_days) e (summarize_attendance le days)
          ≡ day_total (λ d. one_if (is_working d.status)) e days)
summarize_attendance-totals le e days = (
  row_total-summarize _ _ (λ d. refl) (λ d r. refl) le e days,
  row_total-summarize _ _ (λ d. refl) (λ d r. refl) le e days,
  row_total-summarize _ _ (λ d. refl) (λ d r. refl) le e days,
  row_total-summarize _ _ (λ d. refl) (λ d r. refl) le e days,
  row_total-summarize _ _ (λ d. refl) (λ d r. refl) le e days,
  row_total-summarize _ _ (λ d. refl) (λ d r. refl) le e days,
  row_total-summarize _ _ (λ d. refl) (λ d r. refl) le e days,
  row_total-summarize _ _ (λ d. refl) (λ d r. refl) le e days,
)
