-- ===== src/Attendance/Inference/Measured.antt =====
-- Where the candidates of an inference come from, and what their distances are.
use mathlib.Core.Path.{subst}
use mathlib.Core.List.{Memᴰ}
use attendence_system.Prelude.{
  ℕ, ◌+◌, ◌-◌, ◌*◌, ◌/◌, ◌≤◌, ◌≡◌, refl, Bool, true, false, not, List, [], ◌∷◌, Option, none, some,
  String, arith, leb, any, find, filter, All, All-append, All-mono, find-All, if◌then◌else◌,
  Bool-cases, inl, inr, ◌⊎◌,
}
use attendence_system.Prelude.Result.{
  Result, ok, or_throw, map_ok, >>=-elim, ok-injective, or_throw-eq_ok,
}
use attendence_system.Prelude.Sort.{sort-All}
use attendence_system.Attendance.Types.{ShiftDefinition, AttendancePunch}
use attendence_system.Attendance.Clock.{Clock, epoch_milliseconds}
use attendence_system.Attendance.Window.{range_error}
use attendence_system.Attendance.Selection.{Seen}
use attendence_system.Attendance.Engine.{is_day}
use attendence_system.Attendance.Inference.{
  ShiftInferenceCandidate, ShiftInferencePolicy, minutes_between, within, candidate_for,
  candidates_of_shift, all_candidates, start_punches, read_punch, is_outward, seen_le,
}

-- A distance in minutes between two instants: of their milliseconds, rounded to the nearest minute and
-- up from a half.
abbrev pub IsApart : ℕ → ℕ → ℕ → Type 0
IsApart left right d =
    (epoch_milliseconds left ≤ epoch_milliseconds right + (60_000 * d + 29_999))
    × (epoch_milliseconds right ≤ epoch_milliseconds left + (60_000 * d + 29_999))
    × ((epoch_milliseconds right + 60_000 * d ≤ epoch_milliseconds left + 30_000)
        ⊎ (epoch_milliseconds left + 60_000 * d ≤ epoch_milliseconds right + 30_000))

rounded :
    (l r gap : ℕ)
    → (l ≡ r + gap) ⊎ (r ≡ l + gap)
    → (l ≤ r + (60_000 * ((gap + 30_000) / 60_000) + 29_999))
      × (r ≤ l + (60_000 * ((gap + 30_000) / 60_000) + 29_999))
      × ((r + 60_000 * ((gap + 30_000) / 60_000) ≤ l + 30_000)
          ⊎ (l + 60_000 * ((gap + 30_000) / 60_000) ≤ r + 30_000))
rounded l r gap (inl e) = (omega arith, omega arith, inl (omega arith))
rounded l r gap (inr e) = (omega arith, omega arith, inr (omega arith))

minutes_between-IsApart : (left right : ℕ) → IsApart left right (minutes_between left right)
unfolding minutes_between
minutes_between-IsApart left right =
    let l = epoch_milliseconds left in
    let r = epoch_milliseconds right in rounded l r (if leb l r then r - l else l - r) (split l r)
  where
    split :
        (l r : ℕ)
        → (l ≡ r + (if leb l r then r - l else l - r))
          ⊎ (r ≡ l + (if leb l r then r - l else l - r))
    split l r = elim (Bool-cases (leb l r)) [
      | inl e ↦ inr (ground arith)
      | inr e ↦ inl (ground arith)
    ]

-- A punch that can start a shift, with its time.
abbrev pub IsStart : Clock → List AttendancePunch → Seen → Type 0
IsStart k punches p =
    Memᴰ p.punch punches
    × (is_outward p.punch.direction ≡ false)
    × (k.instant_from p.punch.occurred_at ≡ some p.at)

-- A candidate that comes from one of the shifts and one of the punches: the shift works on the day, the
-- punch is not one for leaving, and the distance is that between the punch and the shift's start.
pub record IsMeasured (k : Clock) (day : ℕ) (timezone : String) (shifts : List ShiftDefinition)
    (punches : List AttendancePunch) (c : ShiftInferenceCandidate) : Type 0 where
  pub shift : ShiftDefinition
  pub is_offered : Memᴰ shift shifts
  pub is_named : c.shift_id ≡ shift.id
  pub is_working : any (is_day (k.day_of_week day)) shift.working_days ≡ true
  pub punch : AttendancePunch
  pub is_taken : Memᴰ punch punches
  pub is_start : is_outward punch.direction ≡ false
  pub is_punch_named : c.punch_id ≡ punch.id
  pub at : ℕ
  pub is_at : k.instant_from punch.occurred_at ≡ some at
  pub start_time : ℕ
  pub is_start_time : k.plain_time_from shift.start_time ≡ some start_time
  pub scheduled : ℕ
  pub is_scheduled : k.to_zoned day timezone start_time ≡ some scheduled
  pub is_apart : IsApart at scheduled c.distance_minutes

pub All-Memᴰ {ℓ} : {A : Type ℓ} (xs : List A) → All (λ x. Memᴰ x xs) xs
All-Memᴰ [] = tt
All-Memᴰ (x ∷ xs) = (Memᴰ.head refl, All-mono _ _ xs (λ y m. Memᴰ.tail m) (All-Memᴰ xs))

filter-All {ℓ κ μ} :
    {A : Type ℓ} (P : A → Type κ) (Q : A → Type μ) (p : A → Bool) (xs : List A)
    → ((x : A) → P x → p x ≡ true → Q x)
    → All P xs
    → All Q (filter p xs)
filter-All P Q p [] f h = tt
filter-All P Q p (x ∷ xs) f h =
    let rest = filter-All P Q p xs f h.1 in
    elim (Bool-cases (p x)) [ inl e ↦ rw (e) (f x h.0 e, rest) | inr e ↦ rw (e) rest ]

map_ok-All {ℓ κ μ ν ρ} :
    {E : Type ρ} {A : Type ℓ} {B : Type κ} (P : A → Type μ) (Q : B → Type ν) (f : A → Result E B)
    (xs : List A) (ys : List B)
    → ((x : A) (y : B) → P x → f x ≡ ok y → Q y)
    → All P xs
    → map_ok f xs ≡ ok ys
    → All Q ys
map_ok-All P Q f [] ys g h e = subst (All Q) (ok-injective e) tt
map_ok-All P Q f (x ∷ xs) ys g h e = >>=-elim (f x) _ e λ y e1 r1.
    >>=-elim (map_ok f xs) _ r1 λ rest e2 r2.
      subst (All Q) (ok-injective r2) (g x y h.0 e1, map_ok-All P Q f xs rest g h.1 e2)

module _ (k : Clock) (punches : List AttendancePunch) where
  pub start_punches-IsStart :
      (starts : List Seen) → start_punches k punches ≡ ok starts → All (IsStart k punches) starts
  unfolding start_punches read_punch
  start_punches-IsStart starts h =
      >>=-elim (map_ok (read_punch k) (filter (λ p. not (is_outward p.direction)) punches)) _ h
        λ seen e h1. subst (All (IsStart k punches)) (ok-injective h1) (
          sort-All seen_le (IsStart k punches) seen (
            map_ok-All (λ p. Memᴰ p punches × (is_outward p.direction ≡ false)) (IsStart k punches)
              (read_punch k) _ seen read
              (filter-All (λ p. Memᴰ p punches) _ (λ p. not (is_outward p.direction)) punches
                (λ p m out. (m, not-eq_true _ out)) (All-Memᴰ punches))
              e))
    where
      not-eq_true : (b : Bool) → not b ≡ true → b ≡ false
      not-eq_true b e = ground arith

      read :
          (p : AttendancePunch) (y : Seen)
          → Memᴰ p punches × (is_outward p.direction ≡ false)
          → read_punch k p ≡ ok y
          → IsStart k punches y
      read p y (m, out) e =
          >>=-elim (or_throw (k.instant_from p.occurred_at) range_error) _ e
            λ t f last. subst (IsStart k punches) (ok-injective last) (m, out, or_throw-eq_ok _ _ f)

module _ (k : Clock) (policy : ShiftInferencePolicy) (date : ℕ) (timezone : String)
    (shifts : List ShiftDefinition) (punches : List AttendancePunch) (starts : List Seen)
    (are_starts : All (IsStart k punches) starts) where
  candidates_of_shift-IsMeasured :
      (shift : ShiftDefinition) (cs : List ShiftInferenceCandidate)
      → Memᴰ shift shifts
      → candidates_of_shift k policy date timezone starts shift ≡ ok cs
      → All (IsMeasured k date timezone shifts punches) cs
  unfolding candidates_of_shift
  candidates_of_shift-IsMeasured shift cs offered h =
      let Measured = IsMeasured k date timezone shifts punches in
      elim (Bool-cases (any (is_day (k.day_of_week date)) shift.working_days)) [
        | inr e ↦ subst (All Measured) (ok-injective (rw e at h)) tt
        | inl e ↦
            >>=-elim (or_throw (k.plain_time_from shift.start_time) range_error) _ (rw e at h)
              λ t e0 h0.
                >>=-elim (or_throw (k.to_zoned date timezone t) range_error) _ h0 λ scheduled e1 h1.
                  >>=-elim
                    (or_throw (k.subtract_minutes scheduled policy.early_window_minutes)
                      range_error)
                    _ h1
                    λ from' _ h2.
                      >>=-elim
                        (or_throw (k.add_minutes scheduled policy.late_window_minutes) range_error)
                        _ h2
                        λ to' _ h3. subst (All Measured) (ok-injective h3) (
                          measured e t (or_throw-eq_ok _ _ e0) scheduled (or_throw-eq_ok _ _ e1)
                            (find (within from' to') starts) (find-All _ (within from' to') starts))
      ]
    where
      measured :
          any (is_day (k.day_of_week date)) shift.working_days ≡ true
          → (t : ℕ) → k.plain_time_from shift.start_time ≡ some t
          → (scheduled : ℕ) → k.to_zoned date timezone t ≡ some scheduled
          → (o : Option Seen)
          → ((p : Seen) → All (IsStart k punches) starts → o ≡ some p → IsStart k punches p)
          → All (IsMeasured k date timezone shifts punches) (candidate_for shift scheduled o)
      measured works t e0 scheduled e1 none hit = tt
      measured works t e0 scheduled e1 (some p) hit =
          let (m, out, read) = hit p are_starts refl in
          (
            record {
              shift = shift;
              is_offered = offered;
              is_named = refl;
              is_working = works;
              punch = p.punch;
              is_taken = m;
              is_start = out;
              is_punch_named = refl;
              at = p.at;
              is_at = read;
              start_time = t;
              is_start_time = e0;
              scheduled = scheduled;
              is_scheduled = e1;
              is_apart = minutes_between-IsApart p.at scheduled;
            },
            tt,
          )

  pub all_candidates-IsMeasured :
      (some_shifts : List ShiftDefinition) (cs : List ShiftInferenceCandidate)
      → All (λ x. Memᴰ x shifts) some_shifts
      → all_candidates k policy date timezone starts some_shifts ≡ ok cs
      → All (IsMeasured k date timezone shifts punches) cs
  unfolding all_candidates
  all_candidates-IsMeasured [] cs offered h =
      subst (All (IsMeasured k date timezone shifts punches)) (ok-injective h) tt
  all_candidates-IsMeasured (x ∷ xs) cs offered h =
      >>=-elim (candidates_of_shift k policy date timezone starts x) _ h λ here e h1.
        >>=-elim (all_candidates k policy date timezone starts xs) _ h1 λ others f h2.
          subst (All (IsMeasured k date timezone shifts punches)) (ok-injective h2) (
            All-append _ here others (candidates_of_shift-IsMeasured x here offered.0 e)
              (all_candidates-IsMeasured xs others offered.1 f))
