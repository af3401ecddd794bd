-- ===== src/Attendance/Exceptions.antt =====
-- The set of exceptions of a day: `addException`, and the sorted spread of the set, of
-- cloud/functions/src/attendance/engine.ts.
use attendence_system.Prelude.{
  ℕ, ◌≡◌, Bool, true, not, ◌&&◌, ◌||◌, List, [], ◌∷◌, ◌++◌, String, arith, ◌==◌, any, if◌then◌else◌,
}
use attendence_system.Prelude.Sort.{sort, any-sort, IsSorted, sort-IsSorted}
use attendence_system.Prelude.Text.{str_le, str_le_total, str_le_trans}
use attendence_system.Attendance.Types.{
  AttendanceException, duplicate_punches_ignored, early_arrival, early_leave, invalid_punch_order,
  late_arrival, missing_check_in, missing_check_out, outside_shift_window_ignored,
  worked_on_holiday, worked_on_leave, worked_on_rest_day, worked_without_shift,
}

-- The text that stands for an exception in the source.
abbrev pub spelling : AttendanceException → String
spelling duplicate_punches_ignored = "duplicate_punches_ignored"
spelling early_arrival = "early_arrival"
spelling early_leave = "early_leave"
spelling invalid_punch_order = "invalid_punch_order"
spelling late_arrival = "late_arrival"
spelling missing_check_in = "missing_check_in"
spelling missing_check_out = "missing_check_out"
spelling outside_shift_window_ignored = "outside_shift_window_ignored"
spelling worked_on_holiday = "worked_on_holiday"
spelling worked_on_leave = "worked_on_leave"
spelling worked_on_rest_day = "worked_on_rest_day"
spelling worked_without_shift = "worked_without_shift"

abbrev number : AttendanceException → ℕ
number duplicate_punches_ignored = 0
number early_arrival = 1
number early_leave = 2
number invalid_punch_order = 3
number late_arrival = 4
number missing_check_in = 5
number missing_check_out = 6
number outside_shift_window_ignored = 7
number worked_on_holiday = 8
number worked_on_leave = 9
number worked_on_rest_day = 10
number worked_without_shift = 11

abbrev pub same_exception : AttendanceException → AttendanceException → Bool
same_exception a b = number a == number b

-- `set.has(e)`
abbrev pub has : AttendanceException → List AttendanceException → Bool
has e = any (same_exception e)

-- A set keeps the order in which its values were first added.
unfoldable pub add_exception :
    List AttendanceException → Bool → AttendanceException → List AttendanceException
add_exception set condition value =
    if condition && not (has value set) then set ++ value ∷ [] else set

abbrev exception_le : AttendanceException → AttendanceException → Bool
exception_le a b = str_le (spelling a) (spelling b)

unfoldable pub sorted_exceptions : List AttendanceException → List AttendanceException
sorted_exceptions = sort exception_le

any-concat :
    (p : AttendanceException → Bool) (xs : List AttendanceException) (v : AttendanceException)
    → any p (xs ++ v ∷ []) ≡ (any p xs || p v)
any-concat p [] v = ground arith
any-concat p (x ∷ xs) v = ground (arith, any-concat p xs v)

same_exception-has :
    (e v : AttendanceException) (set : List AttendanceException)
    → same_exception e v ≡ true
    → has v set ≡ true
    → has e set ≡ true
same_exception-has e v [] h k = cc
same_exception-has e v (x ∷ set) h k = ground (arith, same_exception-has e v set)

pub has-add_exception :
    (e v : AttendanceException) (c : Bool) (set : List AttendanceException)
    → has e (add_exception set c v) ≡ (if same_exception e v then c || has e set else has e set)
unfolding add_exception
has-add_exception e v c set =
    ground (arith, any-concat (same_exception e) set v, same_exception-has e v set)

pub has-sorted_exceptions :
    (e : AttendanceException) (set : List AttendanceException)
    → has e (sorted_exceptions set) ≡ has e set
unfolding sorted_exceptions
has-sorted_exceptions e set = any-sort exception_le (same_exception e) set

pub sorted_exceptions-IsSorted :
    (set : List AttendanceException)
    → IsSorted (λ a b. str_le (spelling a) (spelling b)) (sorted_exceptions set)
unfolding sorted_exceptions
sorted_exceptions-IsSorted =
    sort-IsSorted exception_le (λ a b. str_le_total (spelling a) (spelling b))
      (λ a b c. str_le_trans (spelling a) (spelling b) (spelling c))
