-- ===== src/Management/Inferences.antt =====
-- The review of guessed shifts: `resolveShiftInferenceInFirestore` of
-- cloud/functions/src/shifts/inference-management.ts. `none` as input is one that the schema refuses;
-- `recalculate` is the operation that is called for the employee and the date.
pub mod Laws
use attendence_system.Prelude.{
  ℕ, ◌≡◌, Bool, true, false, not, ◌&&◌, ◌||◌, List, [], ◌∷◌, Option, none, some, String,
  if◌then◌else◌,
}
use attendence_system.Prelude.Result.{Result, ok, err, ◌>>=◌, ◌>>◌, throw_if, or_throw}
use attendence_system.Attendance.Types.{CalculationResult}
use attendence_system.Documents.{
  Value, missing, null, text, timestamp, Fields, no_fields, entry, get, as_text, is_text, Document,
  Place, Database,
}
use attendence_system.Recalculation.Fields.{RecalculationError}
use attendence_system.Management.Access.{
  CallError, invalid_argument, not_found, failed_precondition, recalculation_failed, AuthContext,
  require_manager, in_collection, create,
}
use attendence_system.Management.Assignments.{is_inactive}

pub data Decision : Type 0 where
  confirm reject : Decision

pub record Resolution : Type 0 where
  pub organization_id : String
  pub inference_id : String
  pub decision : Decision
  pub shift_id : Option String
  pub reason : String

abbrev pub state_of : Decision → String
state_of confirm = "confirmed"
state_of reject = "rejected"

abbrev action_of : Decision → String
action_of confirm = "shift_inference_confirmed"
action_of reject = "shift_inference_rejected"

abbrev text_or_null : Option String → Value
text_or_null none = null
text_or_null (some s) = text s

-- `input.decision === "confirm" ? input.shiftId : null`
abbrev pub selected_shift : Resolution → Value
selected_shift i = elim i.decision [ confirm ↦ text_or_null i.shift_id | reject ↦ null ]

abbrev or_null : Value → Value
or_null missing = null
or_null v = v

module _ {S : Type 0} (db : Database S) (now : ℕ) where
  abbrev pub inference_at : Resolution → Place
  inference_at i = in_collection db now i.organization_id "shiftInferences" i.inference_id

  unfoldable pub resolution_fields : Resolution → String → Fields
  resolution_fields i uid = entry "state" (text (state_of i.decision)) (
      entry "selectedShiftId" (selected_shift i) (
        entry "resolutionReason" (text i.reason) (
          entry "resolvedAt" (timestamp now)
            (entry "resolvedBy" (text uid) (entry "updatedAt" (timestamp now) no_fields)))))

  abbrev pub resolution_audit : Resolution → String → String → String → Value → Fields
  resolution_audit i uid employee date suggested = entry "action" (text (action_of i.decision)) (
      entry "inferenceId" (text i.inference_id) (
        entry "employeeId" (text employee) (
          entry "date" (text date) (
            entry "suggestedShiftId" (or_null suggested) (
              entry "selectedShiftId" (selected_shift i) (
                entry "reason" (text i.reason)
                  (entry "actorId" (text uid) (entry "createdAt" (timestamp now) no_fields))))))))

  abbrev pub shift_unusable : Resolution → S → Decision → Option String → Bool
  shift_unusable i s confirm (some shift) =
      is_inactive db now (db.document s (in_collection db now i.organization_id "shifts" shift))
  shift_unusable i s _ _ = false

  -- The transaction on the document that it reads: the employee and the date, and the store.
  unfoldable pub resolve_document :
      Resolution → String → String → S → Document → Result CallError ((String × String) × S)
  unfolding resolution_fields
  resolve_document i uid audit s doc = do
    throw_if (not (is_text (get doc.fields "state") "review_required"))
        (failed_precondition "This shift suggestion is no longer waiting for review")
    employee ←
        or_throw (as_text (get doc.fields "employeeId"))
          (failed_precondition "Shift suggestion data is incomplete")
    date ←
        or_throw (as_text (get doc.fields "date"))
          (failed_precondition "Shift suggestion data is incomplete")
    throw_if (shift_unusable i s i.decision i.shift_id)
        (not_found "The selected shift is not active")
    w ←
        create db now (in_collection db now i.organization_id "shiftInferenceAudits" audit)
          (resolution_audit i uid employee date (get doc.fields "suggestedShiftId")) s
          (db.merge (inference_at i) (resolution_fields i uid) s)
    ok ((employee, date), w)

  abbrev pub resolve_found :
      Resolution → String → String → S → Option Document → Result CallError ((String × String) × S)
  resolve_found i uid audit s none =
      err (failed_precondition "This shift suggestion is no longer waiting for review")
  resolve_found i uid audit s (some doc) = resolve_document i uid audit s doc

  -- The transaction.
  unfoldable pub resolve :
      Resolution → String → String → S → Result CallError ((String × String) × S)
  unfolding resolve_document
  resolve i uid audit s = resolve_found i uid audit s (db.document s (inference_at i))

  module _
      (recalculate : String
        → String
        → String
        → S
        → Result RecalculationError CalculationResult × S) where
    abbrev recalculated :
        Resolution
        → Result RecalculationError CalculationResult × S
        → Result CallError (String × String) × S
    recalculated i (ok r, s) = (ok (i.inference_id, state_of i.decision), s)
    recalculated i (err e, s) = (err (recalculation_failed e), s)

    abbrev then_recalculate :
        Resolution
        → S
        → Result CallError ((String × String) × S)
        → Result CallError (String × String) × S
    then_recalculate i s (err e) = (err e, s)
    then_recalculate i s (ok ((employee, date), w)) =
        recalculated i (recalculate i.organization_id employee date w)

    abbrev resolve_allowed :
        Resolution
        → AuthContext
        → String
        → S
        → Result CallError (Unit {0})
        → Result CallError (String × String) × S
    resolve_allowed i auth audit s (err e) = (err e, s)
    resolve_allowed i auth audit s (ok _) = then_recalculate i s (resolve i auth.uid audit s)

    -- The answer: the name and the new state.
    unfoldable pub resolve_shift_inference :
        AuthContext → Option Resolution → String → S → Result CallError (String × String) × S
    unfolding resolve
    resolve_shift_inference auth none audit s =
        (err (invalid_argument "Shift review fields are invalid"), s)
    resolve_shift_inference auth (some i) audit s =
        resolve_allowed i auth audit s
          (require_manager db now s auth i.organization_id >>= λ granted. ok tt)
