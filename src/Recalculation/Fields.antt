-- ===== src/Recalculation/Fields.antt =====
-- Reading documents: the field readers of cloud/functions/src/attendance/recalculation.ts.
use attendence_system.Prelude.{Bool, List, [], ◌∷◌, Option, none, some, String, if◌then◌else◌}
use attendence_system.Prelude.Result.{Result, ok, err, ◌>>=◌, or_throw}
use attendence_system.Prelude.Text.{str_eq, is_empty, append}
use attendence_system.Attendance.Types.{
  Number, whole, negative, LateCalculationMode, from_shift_start, after_grace, PunchMode,
  first_last, explicit_status, OvertimeRoundingMode, no_rounding, floor, nearest, ceil, Overtime,
  ShiftDefinition,
}
use attendence_system.Attendance.Window.{EngineError}
use attendence_system.Documents.{
  Value, text, number, boolean, timestamp, array, object, Values, no_values, value, Fields, get,
  Document,
}

-- What is thrown: with the path and the field that the message names, or by the calculation.
pub data RecalculationError : Type 0 where
  not_a_text not_an_integer not_a_boolean : String → String → RecalculationError
  no_such_shift incomplete_policy : String → RecalculationError
  invalid_field : String → String → RecalculationError
  no_such_organization : String → RecalculationError
  no_such_employee : String → String → RecalculationError
  unknown_timezone unreadable_date : RecalculationError
  punch_limit adjustment_limit : String → String → RecalculationError
  calculation : EngineError → RecalculationError

unfoldable pub required_string : Fields → String → String → Result RecalculationError String
required_string d f path = elim (get d f) [
  | text s ↦ if is_empty s then err (not_a_text path f) else ok s
  | _ ↦ err (not_a_text path f)
]

abbrev pub nonempty_text : Value → Option String
nonempty_text (text s) = if is_empty s then none else some s
nonempty_text _ = none

unfoldable pub optional_string : Fields → String → Option String
optional_string d f = nonempty_text (get d f)

abbrev pub whole_of : Value → Option Number
whole_of (number (whole n)) = some (whole n)
whole_of _ = none

unfoldable pub integer : Fields → String → String → Result RecalculationError Number
integer d f path = or_throw (whole_of (get d f)) (not_an_integer path f)

abbrev pub boolean_of : Value → Option Bool
boolean_of (boolean b) = some b
boolean_of _ = none

unfoldable pub boolean_field : Fields → String → String → Result RecalculationError Bool
boolean_field d f path = or_throw (boolean_of (get d f)) (not_a_boolean path f)

-- An object that is not null; an array is one, without the fields that the code reads, and so is a
-- timestamp.
abbrev pub object_of : Value → Option Fields
object_of (object d) = some d
object_of (array vs) = some Fields.no_fields
object_of (timestamp t) = some Fields.no_fields
object_of _ = none

abbrev pub late_mode_of : Value → Option LateCalculationMode
late_mode_of (text s) =
    if str_eq s "from_shift_start"
    then some from_shift_start
    else if str_eq s "after_grace"
    then some after_grace
    else none
late_mode_of _ = none

abbrev pub punch_mode_of : Value → Option PunchMode
punch_mode_of (text s) =
    if str_eq s "first_last"
    then some first_last
    else if str_eq s "explicit_status"
    then some explicit_status
    else none
punch_mode_of _ = none

abbrev pub rounding_mode_of : Value → Option OvertimeRoundingMode
rounding_mode_of (text s) =
    if str_eq s "none"
    then some no_rounding
    else if str_eq s "floor"
    then some floor
    else if str_eq s "nearest"
    then some nearest
    else if str_eq s "ceil"
    then some ceil
    else none
rounding_mode_of _ = none

-- `Number.isInteger(value)`
abbrev pub integer_of : Value → Option Number
integer_of (number (whole n)) = some (whole n)
integer_of (number (negative n)) = some (negative n)
integer_of _ = none

abbrev array_of : Value → Option Values
array_of (array vs) = some vs
array_of _ = none

-- `data.workingDays.map(…)`
abbrev pub working_days_of : String → Values → Result RecalculationError (List Number)
working_days_of path no_values = ok []
working_days_of path (value v vs) =
    let rest = working_days_of path vs in
    or_throw (integer_of v) (invalid_field path "workingDays") >>= λ n. rest >>= λ ns. ok (n ∷ ns)

unfoldable pub parse_overtime :
    String → OvertimeRoundingMode → Fields → Result RecalculationError Overtime
unfolding boolean_field integer
parse_overtime path mode d = do
  enabled ← boolean_field d "enabled" path
  start_delay ← integer d "startDelayMinutes" path
  minimum ← integer d "minimumMinutes" path
  rounding ← integer d "roundingMinutes" path
  ok (record {
    enabled = enabled;
    start_delay_minutes = start_delay;
    minimum_minutes = minimum;
    rounding_minutes = rounding;
    rounding_mode = mode;
  })

-- The checks in front of the object that `parseShift` returns, and what they leave.
pub record Policies : Type 0 where
  pub overtime : Fields
  pub early_leave : Fields
  pub late_mode : LateCalculationMode
  pub punch_mode : PunchMode
  pub rounding : OvertimeRoundingMode
  pub days : Values

pub record Terms : Type 0 where
  pub name : String
  pub start_time : String
  pub end_time : String
  pub working_days : List Number

pub record Minutes : Type 0 where
  pub grace : Number
  pub break_minutes : Number
  pub early_grace : Number

unfoldable pub parse_policies : String → Fields → Result RecalculationError Policies
parse_policies path d = do
  overtime ← or_throw (object_of (get d "overtime")) (incomplete_policy path)
  early_leave ← or_throw (object_of (get d "earlyLeave")) (incomplete_policy path)
  late_mode ←
      or_throw (late_mode_of (get d "lateCalculationMode"))
        (invalid_field path "lateCalculationMode")
  punch_mode ← or_throw (punch_mode_of (get d "punchMode")) (invalid_field path "punchMode")
  rounding ←
      or_throw (rounding_mode_of (get overtime "roundingMode"))
        (invalid_field path "overtime.roundingMode")
  days ← or_throw (array_of (get d "workingDays")) (invalid_field path "workingDays")
  ok (record {
    overtime = overtime;
    early_leave = early_leave;
    late_mode = late_mode;
    punch_mode = punch_mode;
    rounding = rounding;
    days = days;
  })

unfoldable pub parse_terms : String → Fields → Values → Result RecalculationError Terms
unfolding required_string
parse_terms path d days = do
  name ← required_string d "name" path
  start_time ← required_string d "startTime" path
  end_time ← required_string d "endTime" path
  working_days ← working_days_of path days
  ok (record {
    name = name;
    start_time = start_time;
    end_time = end_time;
    working_days = working_days;
  })

unfoldable pub parse_minutes : String → Fields → Fields → Result RecalculationError Minutes
unfolding integer
parse_minutes path d early_leave = do
  grace ← integer d "gracePeriodMinutes" path
  break_minutes ← integer d "breakMinutes" path
  early_grace ← integer early_leave "graceMinutes" (append path ".earlyLeave")
  ok (record { grace = grace; break_minutes = break_minutes; early_grace = early_grace })

-- A shift document; `none` is one that does not exist.
unfoldable pub parse_shift : String → Option Document → Result RecalculationError ShiftDefinition
unfolding parse_policies parse_terms parse_minutes integer boolean_field
parse_shift path none = err (no_such_shift path)
parse_shift path (some doc) = do
  let d = doc.fields
  p ← parse_policies path d
  t ← parse_terms path d p.days
  m ← parse_minutes path d p.early_leave
  overtime ← parse_overtime (append path ".overtime") p.rounding p.overtime
  ok (record {
    id = doc.id;
    name = t.name;
    start_time = t.start_time;
    end_time = t.end_time;
    working_days = t.working_days;
    grace_period_minutes = m.grace;
    late_calculation_mode = p.late_mode;
    break_minutes = m.break_minutes;
    punch_mode = p.punch_mode;
    early_arrival_window_minutes = integer_of (get d "earlyArrivalWindowMinutes");
    late_departure_window_minutes = integer_of (get d "lateDepartureWindowMinutes");
    early_leave_grace_minutes = m.early_grace;
    overtime = overtime;
  })
