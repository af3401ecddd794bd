-- ===== src/Recalculation/Events.antt =====
-- `direction`, `eventPunch` and `adjustment` of cloud/functions/src/attendance/recalculation.ts: events
-- and corrections as the calculation takes them.
use attendence_system.Prelude.{
  ℕ, ◌+◌, ◌*◌, ◌/◌, Bool, true, false, not, ◌&&◌, List, [], ◌∷◌, Option, none, some, String, any,
  ◌==◌, if◌then◌else◌,
}
use attendence_system.Prelude.Text.{str_eq, codes, is_lower, is_upper}
use attendence_system.Attendance.Types.{
  PunchDirection, inward, outward, unknown, AttendancePunch, AttendanceStatus, present, absent,
  leave, holiday, rest_day, no_shift, AdjustmentKind, set_first_in, set_last_out, clear_first_in,
  clear_last_out, set_status, ManualAdjustment,
}
use attendence_system.Attendance.Clock.{Clock}
use attendence_system.Documents.{Value, text, Fields, get, is_text, as_timestamp, Document}

-- The ASCII letters that are left of `status.toLowerCase().replace(/[^a-z]/g, "")`: of the other
-- characters, only the Kelvin sign and the dotted capital I have a small ASCII letter.
abbrev pub letters : List ℕ → List ℕ
letters [] = []
letters (c ∷ cs) =
    let rest = letters cs in
    if is_lower c
    then c ∷ rest
    else if is_upper c
    then (c + 32) ∷ rest
    else if c == 0x212a
    then b'k' ∷ rest
    else if c == 0x130
    then b'i' ∷ rest
    else rest

abbrev same_codes : List ℕ → List ℕ → Bool
same_codes [] [] = true
same_codes (a ∷ s) (b ∷ t) = a == b && same_codes s t
same_codes _ _ = false

abbrev pub among : List String → List ℕ → Bool
among names s = any (λ n. same_codes (codes n) s) names

unfoldable pub direction : Value → PunchDirection
direction (text status) =
    if among ("in" ∷ "checkin" ∷ "clockin" ∷ "entry" ∷ []) (letters (codes status))
    then inward
    else if among ("out" ∷ "checkout" ∷ "clockout" ∷ "exit" ∷ []) (letters (codes status))
    then outward
    else unknown
direction _ = unknown

-- `timestamp.toDate()`, which keeps milliseconds
abbrev pub to_date : ℕ → ℕ
to_date t = t / 1_000_000 * 1_000_000

abbrev pub status_of : Value → Option AttendanceStatus
status_of (text s) =
    if str_eq s "present"
    then some present
    else if str_eq s "absent"
    then some absent
    else if str_eq s "leave"
    then some leave
    else if str_eq s "holiday"
    then some holiday
    else if str_eq s "rest_day"
    then some rest_day
    else if str_eq s "no_shift"
    then some no_shift
    else none
status_of _ = none

abbrev map_option {ℓ κ} : {A : Type ℓ} {B : Type κ} → (A → B) → Option A → Option B
map_option f none = none
map_option f (some a) = some (f a)

module _ (k : Clock) where
  abbrev pub iso : ℕ → String
  iso t = k.instant_to_string (to_date t)

  abbrev punch_at : Document → Option ℕ → Option AttendancePunch
  punch_at doc none = none
  punch_at doc (some t) = some (record {
    id = doc.id;
    occurred_at = iso t;
    direction = direction (get doc.fields "attendanceStatus");
  })

  unfoldable pub event_punch : Document → Option AttendancePunch
  event_punch doc = punch_at doc (as_timestamp (get doc.fields "eventTime"))

  -- The kind of correction, with what it sets.
  abbrev kind_of : Fields → Option AdjustmentKind
  kind_of d =
      let kind = get d "kind" in
      if is_text kind "set_first_in"
      then map_option (λ t. set_first_in (iso t)) (as_timestamp (get d "occurredAt"))
      else if is_text kind "set_last_out"
      then map_option (λ t. set_last_out (iso t)) (as_timestamp (get d "occurredAt"))
      else if is_text kind "clear_first_in"
      then some clear_first_in
      else if is_text kind "clear_last_out"
      then some clear_last_out
      else if is_text kind "set_status"
      then map_option set_status (status_of (get d "status"))
      else none

  unfoldable pub adjustment : Document → Option ManualAdjustment
  adjustment doc =
      if not (is_text (get doc.fields "state") "approved")
      then none
      else map_option
          (λ kind. record {
            id = doc.id;
            kind = kind;
            approved_at = map_option iso (as_timestamp (get doc.fields "approvedAt"));
          })
          (kind_of doc.fields)
