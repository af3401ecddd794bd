-- ===== src/Recalculation/Jobs/Laws.antt =====
-- The dates that a job processes.
use attendence_system.Prelude.{
  ℕ, zero, suc, ◌+◌, ◌-◌, ◌≤◌, ◌<◌, ◌≡◌, refl, ap, ◌∙◌, Bool, true, false, ◌&&◌, arith, List, [],
  ◌∷◌, Option, none, some, String, ltb, if◌then◌else◌, ◌⊎◌,
}
use attendence_system.Prelude.Result.{Result, ok, err}
use attendence_system.Prelude.Text.{str_le, str_le_total, str_le_trans}
use attendence_system.Attendance.Types.{CalculationResult}
use attendence_system.Attendance.Clock.{Clock}
use attendence_system.Documents.{Database}
use attendence_system.Recalculation.Fields.{RecalculationError}
use attendence_system.Recalculation.Jobs.{
  JobError, recalculation, then_rest, next_date, one_more, process_dates,
}
use attendence_system.Recalculation.Jobs.Pages.{child_range}

abbrev pub within : Option (String × String) → String → Bool
within none d = false
within (some (start, end)) d = str_le start d && str_le d end

abbrev pub ends_after : Option String → String → Bool
ends_after none d = true
ends_after (some e) d = str_le d e

-- The dates of the job that a shift policy job makes for an assignment are the dates of the policy
-- that the assignment covers; no job is made where there are none.
pub child_range-within :
    (from_date to_date effective_from : String) (effective_to : Option String) (d : String)
    → within (child_range from_date to_date effective_from effective_to) d ≡ (
        (str_le from_date d && str_le d to_date)
        && (str_le effective_from d && ends_after effective_to d))
unfolding child_range
child_range-within from_date to_date effective_from none d =
    grind (arith, str_le_total, str_le_trans)
child_range-within from_date to_date effective_from (some e) d =
    grind (arith, str_le_total, str_le_trans)

abbrev pub smaller : ℕ → ℕ → ℕ
smaller a b = if ltb a b then a else b

-- `m` dates from `c` on.
abbrev pub dates_from : ℕ → ℕ → List ℕ
dates_from c zero = []
dates_from c (suc m) = c ∷ dates_from (c + 1) m

-- What runs only if nothing was thrown.
abbrev pub unless_thrown :
    {S : Type 0}
    → Result RecalculationError CalculationResult × S
    → (S → Result RecalculationError (Unit {0}) × S)
    → Result RecalculationError (Unit {0}) × S
unless_thrown (ok r, s) next = next s
unless_thrown (err e, s) next = (err e, s)

-- What the loop makes of its dates: where it stands and how many there were, or what was thrown.
abbrev pub stands_at :
    {S : Type 0} → ℕ → ℕ → Result RecalculationError (Unit {0}) × S → Result JobError (ℕ × ℕ) × S
stands_at c m (ok u, s) = (ok (c, m), s)
stands_at c m (err e, s) = (err (recalculation e), s)

one_more-stands_at :
    {S : Type 0} (c c' m : ℕ) (q : Result RecalculationError (Unit {0}) × S)
    → c ≡ c'
    → one_more (stands_at c m q) ≡ stands_at c' (suc m) q
one_more-stands_at c c' m (ok u, s) e = ap (λ x. (ok (x, suc m), s)) e
one_more-stands_at c c' m (err x, s) e = refl

module _ (k : Clock) {S : Type 0}
    (recalculate : String → String → String → S → Result RecalculationError CalculationResult × S)
    (organization employee : String) where
  -- The dates one by one and in order, up to the first that throws.
  abbrev pub each_date : List ℕ → S → Result RecalculationError (Unit {0}) × S
  each_date [] s = (ok tt, s)
  each_date (d ∷ ds) s =
      unless_thrown (recalculate organization employee (k.date_to_string d) s) (each_date ds)

module _ (k : Clock) {S : Type 0} (db : Database S)
    (recalculate : String → String → String → S → Result RecalculationError CalculationResult × S)
    (now : ℕ) (organization employee : String) where
  step :
      (n m c e : ℕ)
      → k.next_day c ≡ some (c + 1)
      → ((s : S)
          → process_dates k db recalculate now organization employee n (c + 1) e s
            ≡ stands_at
                (c + 1 + m)
                m
                (each_date k recalculate organization employee (dates_from (c + 1) m) s))
      → (r : Result RecalculationError CalculationResult × S)
      → then_rest r (λ s'.
        next_date
          (k.next_day c)
          s'
          λ c'. process_dates k db recalculate now organization employee n c' e)
        ≡ stands_at
            (c + suc m)
            (suc m)
            (unless_thrown r (each_date k recalculate organization employee (dates_from (c + 1) m)))
  step n m c e next ih (err x, s) = refl
  step n m c e next ih (ok r, s) =
      ap (λ o. next_date o s λ c'. process_dates k db recalculate now organization employee n c' e)
        next
      ∙ ap one_more (ih s)
      ∙ one_more-stands_at (c + 1 + m) (c + suc m) m _ (omega arith)

  walk :
      (n m c e : ℕ) (s : S)
      → ((d : ℕ) → d ≤ e → k.next_day d ≡ some (d + 1))
      → m ≤ n
      → (m ≡ n) ⊎ (e < c + m)
      → (m ≡ 0) ⊎ (c + m ≤ e + 1)
      → process_dates k db recalculate now organization employee n c e s
        ≡ stands_at (c + m) m (each_date k recalculate organization employee (dates_from c m) s)
  unfolding process_dates
  walk zero zero c e s next h1 h2 h3 = ap (λ x. (ok (x, 0), s)) (omega arith)
  walk zero (suc m) c e s next h1 h2 h3 = absurd (omega arith)
  walk (suc n) zero c e s next h1 h2 h3 =
      let ended : ltb e c ≡ true = ground arith in
      rw (ended) (ap (λ x. (ok (x, 0), s)) (omega arith))
  walk (suc n) (suc m) c e s next h1 h2 h3 =
      let going : ltb e c ≡ false = ground arith in
      rw (going) (
        step n m c e (next c (ground arith))
          (λ s'. walk n m (c + 1) e s' next (omega arith) (ground arith) (ground arith))
          (recalculate organization employee (k.date_to_string c) s))

  -- The loop of a date range job recalculates the dates from the cursor on, in order and each once, up
  -- to the end of the range but at most `n` of them. If none throws, it leaves the cursor behind the
  -- last; otherwise it stops at the first that throws, with what that threw and the store that it
  -- left. The dates up to the end of the range have a next day.
  pub process_dates-each_date :
      (n cursor end : ℕ) (s : S)
      → ((d : ℕ) → d ≤ end → k.next_day d ≡ some (d + 1))
      → process_dates k db recalculate now organization employee n cursor end s
        ≡ stands_at (cursor + smaller n (end + 1 - cursor)) (smaller n (end + 1 - cursor)) (
            each_date k recalculate organization employee
              (dates_from cursor (smaller n (end + 1 - cursor)))
              s)
  process_dates-each_date n cursor end s next =
      walk n (smaller n (end + 1 - cursor)) cursor end s next (ground arith) (ground arith)
        (ground arith)
