-- ===== src/Attendance/Adjustments.antt =====
-- Manual corrections: `applyAdjustments` of cloud/functions/src/attendance/engine.ts, and the
-- comparator by which `calculateAttendance` orders them.
use attendence_system.Prelude.{
  ℕ, ◌≡◌, Bool, true, false, List, [], ◌∷◌, Option, none, some, String, arith, if◌then◌else◌,
  get_or,
}
use attendence_system.Prelude.Result.{Result, ok, ◌>>=◌, or_throw, >>=-eq-ok}
use attendence_system.Attendance.Types.{
  AttendanceStatus, AdjustmentKind, set_first_in, set_last_out, clear_first_in, clear_last_out,
  set_status, ManualAdjustment,
}
use attendence_system.Attendance.Clock.{Clock}
use attendence_system.Attendance.Window.{EngineError, range_error}

pub record Adjusted : Type 0 where
  pub first_in : Option ℕ
  pub last_out : Option ℕ
  pub status : AttendanceStatus

abbrev pub is_set_status : ManualAdjustment → Bool
is_set_status a = elim a.kind [ set_status s ↦ true | _ ↦ false ]

abbrev pub status_of : AdjustmentKind → Option AttendanceStatus
status_of (set_status s) = some s
status_of _ = none

-- What the last correction of a kind says, searched from the end.
abbrev pub last_said {ℓ} :
    {B : Type ℓ} → (AdjustmentKind → Option B) → List ManualAdjustment → Option B
last_said f [] = none
last_said f (a ∷ as') = elim (last_said f as') [ some b ↦ some b | none ↦ f a.kind ]

module _ (k : Clock) where
  -- a.localeCompare(b) <= 0, with `tie` where the comparison is 0
  abbrev pub locale_then : String → String → Bool → Bool
  locale_then a b tie = if k.locale_le a b then (if k.locale_le b a then tie else true) else false

  unfoldable pub adjustment_le : ManualAdjustment → ManualAdjustment → Bool
  adjustment_le a b =
      locale_then (get_or a.approved_at "") (get_or b.approved_at "") (k.locale_le a.id b.id)

  -- One round of the loop.
  unfoldable pub apply_one : Adjusted → AdjustmentKind → Result EngineError Adjusted
  apply_one s (set_first_in text) =
      or_throw (k.instant_from text) range_error >>= λ t. ok (record s { first_in = some t })
  apply_one s (set_last_out text) =
      or_throw (k.instant_from text) range_error >>= λ t. ok (record s { last_out = some t })
  apply_one s clear_first_in = ok (record s { first_in = none })
  apply_one s clear_last_out = ok (record s { last_out = none })
  apply_one s (set_status status) = ok (record s { status = status })

  unfoldable pub apply_adjustments : Adjusted → List ManualAdjustment → Result EngineError Adjusted
  unfolding apply_one
  apply_adjustments s [] = ok s
  apply_adjustments s (a ∷ as') = apply_one s a.kind >>= λ next. apply_adjustments next as'

  abbrev pub first_in_of : AdjustmentKind → Option (Option ℕ)
  first_in_of (set_first_in text) = some (k.instant_from text)
  first_in_of clear_first_in = some none
  first_in_of _ = none

  abbrev pub last_out_of : AdjustmentKind → Option (Option ℕ)
  last_out_of (set_last_out text) = some (k.instant_from text)
  last_out_of clear_last_out = some none
  last_out_of _ = none

  apply_one-eq_ok :
      (s r : Adjusted) (a : AdjustmentKind)
      → apply_one s a ≡ ok r
      → (r.first_in ≡ get_or (first_in_of a) s.first_in)
        × (r.last_out ≡ get_or (last_out_of a) s.last_out)
        × (r.status ≡ get_or (status_of a) s.status)
  unfolding apply_one
  apply_one-eq_ok s r (set_first_in text) h = ground arith
  apply_one-eq_ok s r (set_last_out text) h = ground arith
  apply_one-eq_ok s r clear_first_in h = ground arith
  apply_one-eq_ok s r clear_last_out h = ground arith
  apply_one-eq_ok s r (set_status status) h = ground arith

  -- Each of the check-in, the check-out and the status is what the last correction of that kind
  -- says, and stays as it was where there is none.
  pub apply_adjustments-FollowsLast :
      (s r : Adjusted) (as' : List ManualAdjustment)
      → apply_adjustments s as' ≡ ok r
      → (r.first_in ≡ get_or (last_said first_in_of as') s.first_in)
        × (r.last_out ≡ get_or (last_said last_out_of as') s.last_out)
        × (r.status ≡ get_or (last_said status_of as') s.status)
  unfolding apply_adjustments
  apply_adjustments-FollowsLast s r [] h = ground arith
  apply_adjustments-FollowsLast s r (a ∷ as') h =
      let (next, e, f) = >>=-eq-ok (apply_one s a.kind) _ h in
      let one = apply_one-eq_ok s next a.kind e in
      let rest = apply_adjustments-FollowsLast next r as' f in
      (ground (arith, one.0, rest.0), ground (arith, one.1, rest.1), ground (arith, one.2, rest.2))
