-- ===== src/Recalculation/Jobs/Examples.antt =====
-- A clock whose dates are tallies, and a job for three dates.
use Prim.Native.String.{String as Text}
use attendence_system.Prelude.{
  ℕ, zero, suc, ◌+◌, ◌≡◌, refl, ap, [], ◌∷◌, none, some, String, length,
}
use attendence_system.Prelude.Text.{codes}
use attendence_system.Attendance.Clock.{Clock}
use attendence_system.Documents.{text, no_fields, entry}
use attendence_system.Recalculation.Memory.{Memory}
use attendence_system.Recalculation.Examples.{text_clock, at}

abbrev tally : ℕ → String
tally zero = Text.[]
tally (suc n) = Text.◌∷◌ "x" (tally n)

length-tally : (n : ℕ) → length (codes (tally n)) ≡ n
length-tally zero = refl
length-tally (suc n) = ap suc (length-tally n)

unfoldable pub tally_clock : Clock
unfolding text_clock
tally_clock = record text_clock {
  plain_date_from = λ s. some (length (codes s));
  date_to_string = tally;
}

pub tally_clock-reads :
    (d : ℕ) → tally_clock.plain_date_from (tally_clock.date_to_string d) ≡ some d
unfolding tally_clock
tally_clock-reads d = ap (λ n. some n) (length-tally d)

pub tally_clock-next : (d : ℕ) → tally_clock.next_day d ≡ some (d + 1)
unfolding tally_clock text_clock attendence_system.Attendance.Examples.test_clock
tally_clock-next d = refl

abbrev pub three_dates : Memory
three_dates = record {
  organizations = λ o. none;
  documents =
      record {
        place = at "recalculationJobs" "j1";
        fields = entry "type" (text "employee_date_range") (
            entry "state" (text "pending") (
              entry "employeeId" (text "e1") (
                entry "startDate" (text "x")
                  (entry "cursorDate" (text "x") (entry "endDate" (text "xxx") no_fields)))));
      }
      ∷ [];
}
