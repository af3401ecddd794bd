-- ===== src/Recalculation/Load.antt =====
-- `loadPunchesBetween`, `loadHoliday`, `loadLeave` and `loadAdjustments` of
-- cloud/functions/src/attendance/recalculation.ts: the documents that a day is calculated from.
pub mod Laws
use attendence_system.Prelude.{
  ℕ, Bool, true, false, not, ◌&&◌, ◌||◌, List, [], ◌∷◌, ◌++◌, Option, none, some, String, ltb, any,
  find, length, is_some, get_or, if◌then◌else◌,
}
use attendence_system.Prelude.Result.{Result, ok, err, ◌>>=◌, ◌>>◌, throw_if}
use attendence_system.Prelude.Text.{str_eq, str_le}
use attendence_system.Attendance.Types.{AttendancePunch, ManualAdjustment, Holiday, Leave}
use attendence_system.Attendance.Clock.{Clock}
use attendence_system.Documents.{
  Value, boolean, Fields, get, as_text, Document, Condition, text_is, boolean_is, text_at_most,
  time_at_least, time_below, by_name, by_descending, Database,
}
use attendence_system.Recalculation.Fields.{
  RecalculationError, punch_limit, adjustment_limit, optional_string,
}
use attendence_system.Recalculation.Events.{event_punch, adjustment}
use attendence_system.Recalculation.Context.{RecalculationContext, Range, date_range}

-- `byId.set(punch.id, punch)`: a later punch of the same name takes the earlier one's place.
unfoldable pub set_by_id : List AttendancePunch → AttendancePunch → List AttendancePunch
set_by_id [] p = p ∷ []
set_by_id (q ∷ qs) p = let rest = set_by_id qs p in if str_eq q.id p.id then p ∷ qs else q ∷ rest

abbrev pub add_punch : List AttendancePunch → Option AttendancePunch → List AttendancePunch
add_punch found none = found
add_punch found (some p) = set_by_id found p

abbrev pub between : Range → List Condition → List Condition
between r conditions =
    conditions ++ (time_at_least "eventTime" r.start ∷ time_below "eventTime" r.end ∷ [])

abbrev pub is_false : Value → Bool
is_false (boolean false) = true
is_false _ = false

abbrev pub is_on_or_after : Option String → String → Bool
is_on_or_after none date = false
is_on_or_after (some s) date = str_le date s

abbrev pub none_or : Option String → (String → Bool) → Bool
none_or none p = true
none_or (some s) p = p s

abbrev pub same_branch : Option String → String → Bool
same_branch none b = false
same_branch (some a) b = str_eq b a

unfoldable pub holiday_applies : RecalculationContext → String → Document → Bool
unfolding optional_string
holiday_applies c date doc =
    not (is_false (get doc.fields "nonWorking"))
    && none_or (optional_string doc.fields "endDate") (λ e. str_le date e)
    && none_or (optional_string doc.fields "branchId") (same_branch c.branch_id)

abbrev pub leave_covers : String → Document → Bool
leave_covers date doc = is_on_or_after (as_text (get doc.fields "endDate")) date

abbrev holiday_of : Option Document → Option Holiday
holiday_of none = none
holiday_of (some doc) =
    some (record { id = doc.id; name = get_or (optional_string doc.fields "name") "Holiday" })

abbrev leave_of : Option Document → Option Leave
leave_of none = none
leave_of (some doc) =
    some
      (record { id = doc.id; leave_type = get_or (optional_string doc.fields "leaveType") "leave" })

abbrev keep_some {ℓ κ} : {A : Type ℓ} {B : Type κ} → (A → Option B) → List A → List B
keep_some f [] = []
keep_some f (x ∷ xs) = elim (f x) [ none ↦ keep_some f xs | some y ↦ y ∷ keep_some f xs ]

module _ (k : Clock) where
  -- The two loops that fill the map.
  unfoldable pub add_events : List AttendancePunch → List Document → List AttendancePunch
  add_events found [] = found
  add_events found (doc ∷ docs) = add_events (add_punch found (event_punch k doc)) docs

  unfoldable pub add_snapshots : List AttendancePunch → List (List Document) → List AttendancePunch
  add_snapshots found [] = found
  add_snapshots found (snapshot ∷ rest) = add_snapshots (add_events found snapshot) rest

  module _ {S : Type 0} (db : Database S) (s : S) (c : RecalculationContext) where
    abbrev events_where : Range → List Condition → List Document
    events_where r conditions =
        db.query s c.organization "attendanceEvents" (between r conditions) by_name 1001

    abbrev identity_of : Range → Option String → Option String → List (List Document)
    identity_of r (some device) (some number) =
        events_where r (text_is "deviceId" device ∷ text_is "employeeNo" number ∷ []) ∷ []
    identity_of r _ _ = []

    -- `mappings.docs.flatMap(…)`
    unfoldable pub identity_results : Range → List Document → List (List Document)
    identity_results r [] = []
    identity_results r (mapping ∷ mappings) =
        identity_of r (as_text (get mapping.fields "deviceId"))
          (as_text (get mapping.fields "employeeNo"))
        ++ identity_results r mappings

    -- `[direct, ...identityResults]`
    unfoldable pub snapshots_between : String → Range → List (List Document)
    snapshots_between employee r =
        events_where r (text_is "employeeId" employee ∷ [])
        ∷ identity_results r (
            db.query s c.organization "deviceIdentities"
              (text_is "employeeId" employee ∷ boolean_is "active" true ∷ []) by_name 100)

    abbrev pub is_too_large : List Document → Bool
    is_too_large docs = ltb 1000 (length docs)

    unfoldable pub load_punches_between :
        String → String → Range → Result RecalculationError (List AttendancePunch)
    load_punches_between employee date r =
        throw_if (any is_too_large (snapshots_between employee r)) (punch_limit employee date)
        >> ok (add_snapshots [] (snapshots_between employee r))

    unfoldable pub load_punches : String → String → Result RecalculationError (List AttendancePunch)
    load_punches employee date =
        date_range k date c.timezone c.shift >>= λ r. load_punches_between employee date r

    unfoldable pub load_holiday : String → Option Holiday
    unfolding optional_string
    load_holiday date = holiday_of (
        find (holiday_applies c date) (
          db.query s c.organization "holidays" (text_is "date" date ∷ []) by_name 20
          ++ db.query s c.organization "holidays" (text_at_most "startDate" date ∷ [])
              (by_descending "startDate") 50))

    unfoldable pub load_leave : String → String → Option Leave
    unfolding optional_string
    load_leave employee date = leave_of (
        find (leave_covers date) (
          db.query s c.organization "leaveRequests"
            (text_is "employeeId" employee
              ∷ text_is "status" "approved"
              ∷ text_at_most "startDate" date
              ∷ [])
            (by_descending "startDate") 50))

    unfoldable pub load_adjustments :
        String → String → Result RecalculationError (List ManualAdjustment)
    load_adjustments employee date =
        let found =
          db.query s c.organization "manualAdjustments"
            (text_is "employeeId" employee ∷ text_is "date" date ∷ []) by_name 101 in
        throw_if (ltb 100 (length found)) (adjustment_limit employee date)
        >> ok (keep_some (adjustment k) found)
