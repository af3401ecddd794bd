-- ===== src/Recalculation/Run/Laws.antt =====
-- What a recalculation changes in the store.
use attendence_system.Prelude.{
  ℕ, ◌≡◌, refl, sym, ap, ◌∙◌, Bool, true, false, [], ◌∷◌, String, if-elim,
}
use attendence_system.Prelude.Result.{Result, ok, err, ◌>>=◌, >>=-elim, ok-injective}
use attendence_system.Attendance.Types.{CalculationResult}
use attendence_system.Attendance.Clock.{Clock}
use attendence_system.Documents.{Fields, boolean_is, by_name, Place, same_place, Database}
use attendence_system.Recalculation.Fields.{RecalculationError}
use attendence_system.Recalculation.Context.{RecalculationContext, load_context, inference_place}
use attendence_system.Attendance.Inference.{default_shift_inference_policy, infer_daily_shift}
use attendence_system.Recalculation.Load.{load_punches_between}
use attendence_system.Recalculation.Written.{calculating}
use attendence_system.Recalculation.Run.Shift.{context-choice}
use attendence_system.Recalculation.Run.{
  Inferred, day_place, guess_range, parse_all, infer_unlocked, infer_shift, is_settled, write_day,
  after_guess, recalculate_attendance,
}

module _ (k : Clock) (known_zone : String → Bool) {S : Type 0} (db : Database S) (now : ℕ) where
  infer_unlocked-other :
      (s : S) (c : RecalculationContext) (employee date : String) (i : Inferred S) (q : Place)
      → infer_unlocked k known_zone db now s c employee date ≡ ok i
      → same_place (inference_place db c.organization employee date) q ≡ false
      → db.document i.store q ≡ db.document s q
  unfolding infer_unlocked
  infer_unlocked-other s c employee date i q h other =
      >>=-elim (guess_range k known_zone db now date c.timezone) _ h λ r _ h1.
        >>=-elim (load_punches_between k db s c employee date r) _ h1 λ punches _ h2.
          >>=-elim
            (parse_all
              (db.query s c.organization "shifts" (boolean_is "active" true ∷ []) by_name 200))
            _ h2
            λ shifts _ h3.
              >>=-elim
                (calculating (
                  infer_daily_shift k date c.timezone shifts punches
                    default_shift_inference_policy))
                _ h3
                λ guess _ h4.
                  ap (λ x. db.document x.store q) (sym (ok-injective h4))
                  ∙ db.merge_other s _ q _ other

  pub infer_shift-other :
      (s : S) (c : RecalculationContext) (employee date : String) (i : Inferred S) (q : Place)
      → infer_shift k known_zone db now s c employee date ≡ ok i
      → same_place (inference_place db c.organization employee date) q ≡ false
      → db.document i.store q ≡ db.document s q
  unfolding infer_shift
  infer_shift-other s c employee date i q h other =
      if-elim (is_settled k known_zone db now c) _ _ h
        (λ _ e. ap (λ x. db.document x.store q) (sym (ok-injective e)))
        λ _ e. infer_unlocked-other s c employee date i q e other

  pub guessed-other :
      (s : S) (organization employee date : String) (i : Inferred S) (q : Place)
      → (load_context k known_zone db s organization employee date >>= λ c.
          infer_shift k known_zone db now s c employee date)
        ≡ ok i
      → same_place (inference_place db organization employee date) q ≡ false
      → db.document i.store q ≡ db.document s q
  guessed-other s organization employee date i q h other =
      >>=-elim (load_context k known_zone db s organization employee date) _ h λ c found e.
        infer_shift-other s c employee date i q e (
          ap (λ o. same_place (inference_place db o employee date) q)
            ((context-choice k known_zone db now s organization employee date c found).4)
          ∙ other)

  write_day-other :
      (place : Place) (s : S) (r : Result RecalculationError (CalculationResult × Fields))
      (q : Place)
      → same_place place q ≡ false
      → db.document (write_day k known_zone db now place s r).1 q ≡ db.document s q
  write_day-other place s (ok (result, doc)) q other = db.write_other s place q doc other
  write_day-other place s (err e) q other = refl

  after_guess-other :
      (organization employee date : String) (s : S) (r : Result RecalculationError (Inferred S))
      (q : Place)
      → same_place (day_place organization employee date) q ≡ false
      → ((i : Inferred S) → r ≡ ok i → db.document i.store q ≡ db.document s q)
      → db.document (after_guess k known_zone db now organization employee date s r).1 q
        ≡ db.document s q
  after_guess-other organization employee date s (err e) q other kept = refl
  after_guess-other organization employee date s (ok i) q other kept =
      write_day-other (day_place organization employee date) i.store _ q other ∙ kept i refl

  -- A recalculation, whether it returns or throws, leaves every document but those of the day and of
  -- the day's guess as they were.
  pub recalculate_attendance-other :
      (organization employee date : String) (s : S) (q : Place)
      → same_place (day_place organization employee date) q ≡ false
      → same_place (inference_place db organization employee date) q ≡ false
      → db.document (recalculate_attendance k known_zone db now organization employee date s).1 q
        ≡ db.document s q
  unfolding recalculate_attendance
  recalculate_attendance-other organization employee date s q day guess =
      after_guess-other organization employee date s _ q day
        λ i e. guessed-other s organization employee date i q e guess
