-- ===== src/Attendance/Types.antt =====
-- cloud/functions/src/attendance/types.ts. A text that the program passes to the time library is a
-- `String`; a field that may be missing or null is an `Option`.
use attendence_system.Prelude.{ℕ, Bool, List, Option, String}

pub data LateCalculationMode : Type 0 where
  from_shift_start after_grace : LateCalculationMode

pub data PunchMode : Type 0 where
  first_last explicit_status : PunchMode

pub data OvertimeRoundingMode : Type 0 where
  no_rounding floor nearest ceil : OvertimeRoundingMode

-- A JavaScript number as the checks of the program see it: a non-negative integer, a negative
-- integer (`negative n` is -(n + 1)), or no integer at all.
pub data Number : Type 0 where
  whole : ℕ → Number
  negative : ℕ → Number
  fractional : Number

pub record Overtime : Type 0 where
  pub enabled : Bool
  pub start_delay_minutes : Number
  pub minimum_minutes : Number
  pub rounding_minutes : Number
  pub rounding_mode : OvertimeRoundingMode

pub record ShiftDefinition : Type 0 where
  pub id : String
  pub name : String
  pub start_time : String
  pub end_time : String
  pub working_days : List Number
  pub grace_period_minutes : Number
  pub late_calculation_mode : LateCalculationMode
  pub break_minutes : Number
  pub punch_mode : PunchMode
  pub early_arrival_window_minutes : Option Number
  pub late_departure_window_minutes : Option Number
  pub early_leave_grace_minutes : Number
  pub overtime : Overtime

pub data PunchDirection : Type 0 where
  inward outward unknown : PunchDirection

pub record AttendancePunch : Type 0 where
  pub id : String
  pub occurred_at : String
  pub direction : PunchDirection

pub data AttendanceStatus : Type 0 where
  present absent leave holiday rest_day no_shift : AttendanceStatus

pub data AdjustmentKind : Type 0 where
  set_first_in set_last_out : String → AdjustmentKind
  clear_first_in clear_last_out : AdjustmentKind
  set_status : AttendanceStatus → AdjustmentKind

pub record ManualAdjustment : Type 0 where
  pub id : String
  pub kind : AdjustmentKind
  pub approved_at : Option String

pub record Holiday : Type 0 where
  pub id : String
  pub name : String

pub record Leave : Type 0 where
  pub id : String
  pub leave_type : String

-- `approvedAdjustments` is the empty list where the source leaves it out.
pub record CalculationInput : Type 0 where
  pub organization_id : String
  pub employee_id : String
  pub date : String
  pub timezone : String
  pub shift : Option ShiftDefinition
  pub punches : List AttendancePunch
  pub holiday : Option Holiday
  pub leave : Option Leave
  pub approved_adjustments : List ManualAdjustment

pub data AttendanceException : Type 0 where
  duplicate_punches_ignored : AttendanceException
  early_arrival : AttendanceException
  early_leave : AttendanceException
  invalid_punch_order : AttendanceException
  late_arrival : AttendanceException
  missing_check_in : AttendanceException
  missing_check_out : AttendanceException
  outside_shift_window_ignored : AttendanceException
  worked_on_holiday : AttendanceException
  worked_on_leave : AttendanceException
  worked_on_rest_day : AttendanceException
  worked_without_shift : AttendanceException

pub record CalculationResult : Type 0 where
  pub organization_id : String
  pub employee_id : String
  pub date : String
  pub timezone : String
  pub shift_id : Option String
  pub shift_name : Option String
  pub scheduled_in : Option String
  pub scheduled_out : Option String
  pub scheduled_in_at : Option String
  pub scheduled_out_at : Option String
  pub first_in : Option String
  pub last_out : Option String
  pub first_in_at : Option String
  pub last_out_at : Option String
  pub late_minutes : ℕ
  pub early_leave_minutes : ℕ
  pub worked_minutes : ℕ
  pub overtime_minutes : ℕ
  pub status : AttendanceStatus
  pub holiday_id : Option String
  pub leave_id : Option String
  pub has_manual_adjustment : Bool
  pub adjustment_ids : List String
  pub source_event_ids : List String
  pub exceptions : List AttendanceException
  pub calculation_version : String
