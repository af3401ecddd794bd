-- ===== src/Attendance/Inference/Laws.antt =====
-- What the inference of a shift promises.
use attendence_system.Prelude.{
  ℕ, ◌+◌, ◌≤◌, ◌≡◌, sym, ap, true, false, List, [], ◌∷◌, some, String, arith, ◌∙◌, All, All-mono,
}
use attendence_system.Prelude.Result.{ok, or_throw, >>=-elim, ok-injective, or_throw-eq_ok}
use attendence_system.Prelude.Sort.{sort, sort-All, IsSorted, sort-IsSorted}
use attendence_system.Attendance.Types.{ShiftDefinition, AttendancePunch}
use attendence_system.Attendance.Clock.{Clock}
use attendence_system.Attendance.Window.{range_error}
use attendence_system.Attendance.Inference.{
  ShiftInferenceCandidate, ShiftInferencePolicy, ShiftInferenceResult, high, conclude,
  confidence_of, all_candidates, infer_daily_shift, candidate_le, start_punches, margin_of,
}
use attendence_system.Attendance.Inference.Measured.{
  IsMeasured, All-Memᴰ, start_punches-IsStart, all_candidates-IsMeasured,
}

module _ (k : Clock) where
  candidate_le_total :
      (a b : ShiftInferenceCandidate) → candidate_le k a b ≡ false → candidate_le k b a ≡ true
  unfolding candidate_le
  candidate_le_total a b h = ground (arith, k.locale_total a.shift_id b.shift_id)

  candidate_le_trans :
      (a b c : ShiftInferenceCandidate)
      → candidate_le k a b ≡ true
      → candidate_le k b c ≡ true
      → candidate_le k a c ≡ true
  unfolding candidate_le
  candidate_le_trans a b c h i = ground (arith, k.locale_trans a.shift_id b.shift_id c.shift_id)

  candidate_le-le :
      (a b : ShiftInferenceCandidate)
      → candidate_le k a b ≡ true
      → a.distance_minutes ≤ b.distance_minutes
  unfolding candidate_le
  candidate_le-le a b h = ground arith

  infer_daily_shift-eq_ok :
      (date timezone : String) (shifts : List ShiftDefinition) (punches : List AttendancePunch)
      (policy : ShiftInferencePolicy) (r : ShiftInferenceResult)
      → infer_daily_shift k date timezone shifts punches policy ≡ ok r
      → (day : ℕ) × (cs : List ShiftInferenceCandidate) × (k.plain_date_from date ≡ some day)
        × All (IsMeasured k day timezone shifts punches) cs
        × IsSorted (candidate_le k) cs
        × (conclude policy cs ≡ r)
  unfolding infer_daily_shift
  infer_daily_shift-eq_ok date timezone shifts punches policy r h =
      >>=-elim (or_throw (k.plain_date_from date) range_error) _ h λ day e h1.
        >>=-elim (start_punches k punches) _ h1 λ starts e2 h2.
          >>=-elim (all_candidates k policy day timezone starts shifts) _ h2 λ found e3 h3. (
            day,
            sort (candidate_le k) found,
            or_throw-eq_ok _ _ e,
            sort-All (candidate_le k) _ found (
                all_candidates-IsMeasured k policy day timezone shifts punches starts
                  (start_punches-IsStart k punches starts e2) shifts found (All-Memᴰ shifts) e3),
            sort-IsSorted (candidate_le k) candidate_le_total candidate_le_trans found,
            ok-injective h3,
          )

  abbrev Stands :
      ShiftInferencePolicy → ShiftInferenceCandidate → List ShiftInferenceCandidate → Type 0
  Stands policy best others =
      (best.distance_minutes ≤ policy.high_confidence_distance_minutes)
      × All
          (λ c. best.distance_minutes + policy.high_confidence_margin_minutes ≤ c.distance_minutes)
          others

  high-Stands :
      (policy : ShiftInferencePolicy) (best : ShiftInferenceCandidate)
      (others : List ShiftInferenceCandidate)
      → IsSorted (candidate_le k) (best ∷ others)
      → confidence_of policy best.distance_minutes (margin_of best others) ≡ high
      → Stands policy best others
  unfolding confidence_of
  high-Stands policy best [] s h = (ground arith, tt)
  high-Stands policy best (second ∷ others) s h =
      let le = candidate_le-le best second s.0.0 in
      let room : best.distance_minutes + policy.high_confidence_margin_minutes
          ≤ second.distance_minutes =
        ground arith in
      (
        ground arith,
        (
          room,
          All-mono _ _ others (λ c g. let next = candidate_le-le second c g in omega arith) s.1.0,
        ),
      )

  -- What a high confidence rests on: the suggested shift is that of the best candidate, whose punch is
  -- near the shift's start, and every other candidate is further from its punch by the margin.
  pub record IsClear (policy : ShiftInferencePolicy) (day : ℕ) (timezone : String)
      (shifts : List ShiftDefinition) (punches : List AttendancePunch) (r : ShiftInferenceResult)
      : Type 0 where
    pub best : ShiftInferenceCandidate
    pub others : List ShiftInferenceCandidate
    pub is_first : r.candidates ≡ best ∷ others
    pub is_suggested : r.suggested_shift_id ≡ some best.shift_id
    pub is_measured : IsMeasured k day timezone shifts punches best
    pub are_measured : All (IsMeasured k day timezone shifts punches) others
    pub is_near : best.distance_minutes ≤ policy.high_confidence_distance_minutes
    pub are_apart :
        All
          (λ c. best.distance_minutes + policy.high_confidence_margin_minutes ≤ c.distance_minutes)
          others

  -- Where a shift is inferred with high confidence, the suggestion is one of the shifts, works on the
  -- day, and its start is at most the policy's distance from one of the punches, which is not one for
  -- leaving; every other candidate is such a shift and punch that are further apart by the policy's
  -- margin or more. All distances are the milliseconds between punch and start, rounded to minutes.
  pub infer_daily_shift-high :
      (date timezone : String) (shifts : List ShiftDefinition) (punches : List AttendancePunch)
      (policy : ShiftInferencePolicy) (r : ShiftInferenceResult)
      → infer_daily_shift k date timezone shifts punches policy ≡ ok r
      → r.confidence ≡ high
      → (day : ℕ) × (k.plain_date_from date ≡ some day)
        × IsClear policy day timezone shifts punches r
  unfolding conclude
  infer_daily_shift-high date timezone shifts punches policy r h high? =
      let (day, cs, is_day', measured, sorted, e) =
        infer_daily_shift-eq_ok date timezone shifts punches policy r h in
      (day, is_day', go day cs measured sorted e)
    where
      go :
          (day : ℕ) (cs : List ShiftInferenceCandidate)
          → All (IsMeasured k day timezone shifts punches) cs
          → IsSorted (candidate_le k) cs
          → conclude policy cs ≡ r
          → IsClear policy day timezone shifts punches r
      go day [] measured sorted e = let c = ap (λ (x : ShiftInferenceResult). x.confidence) e in cc
      go day (best ∷ others) measured sorted e =
          let c = ap (λ (x : ShiftInferenceResult). x.confidence) e in
          let stands = high-Stands policy best others sorted (c ∙ high?) in
          record {
            best = best;
            others = others;
            is_first = sym (ap (λ (x : ShiftInferenceResult). x.candidates) e);
            is_suggested = sym (ap (λ (x : ShiftInferenceResult). x.suggested_shift_id) e);
            is_measured = measured.0;
            are_measured = measured.1;
            is_near = stands.0;
            are_apart = stands.1;
          }
