-- ===== src/Recalculation/Run/Covering.antt =====
-- The assignment that the search for a day finds.
use mathlib.Core.List.{Memᴰ}
use attendence_system.Prelude.{
  ◌<◌, ◌≡◌, refl, sym, ap, ◌∙◌, ◌⊎◌, inl, inr, Bool, true, false, List, [], ◌∷◌, Option, none, some,
  String, any, find, length, find-All, find-holds, if-elim, and-eq_true, Option-cases, get_or, All,
  arith,
}
use attendence_system.Prelude.Text.{str_eq_refl, str_eq_sound, str_le}
use attendence_system.Documents.{
  Value, missing, null, number, boolean, timestamp, array, object, is_text, is_text_at_most,
  text_le, text, get, Document, Place, hold_all, by_descending, Database,
}
use attendence_system.Recalculation.Context.{
  active_assignment, still_runs, assignments_of, is_active_on,
}

abbrev pub assignment_place : String → String → Place
assignment_place organization name = record {
  organization = organization;
  collection = "shiftAssignments";
  name = name;
}

-- An assignment of the employee that begins on or before the date, and has no end or one on or after
-- the date.
abbrev pub Covers : String → String → Document → Type 0
Covers employee date a =
    (get a.fields "employeeId" ≡ text employee)
    × ((from' : String) × (get a.fields "effectiveFrom" ≡ text from') × (text_le from' date ≡ true))
    × ((get a.fields "effectiveTo" ≡ missing)
        ⊎ (get a.fields "effectiveTo" ≡ null)
        ⊎ ((to' : String) × (get a.fields "effectiveTo" ≡ text to') × (str_le date to' ≡ true)))

is_text-eq_text : (v : Value) (t : String) → is_text v t ≡ true → v ≡ text t
is_text-eq_text (text s) t h = ap (λ x. text x) (str_eq_sound s t h)
is_text-eq_text missing t h = cc
is_text-eq_text null t h = cc
is_text-eq_text (number n) t h = cc
is_text-eq_text (boolean b) t h = cc
is_text-eq_text (timestamp n) t h = cc
is_text-eq_text (array vs) t h = cc
is_text-eq_text (object f) t h = cc

is_text_at_most-text :
    (v : Value) (t : String)
    → is_text_at_most v t ≡ true
    → (s : String) × (v ≡ text s) × (text_le s t ≡ true)
is_text_at_most-text (text s) t h = (s, refl, h)
is_text_at_most-text missing t h = cc
is_text_at_most-text null t h = cc
is_text_at_most-text (number n) t h = cc
is_text_at_most-text (boolean b) t h = cc
is_text_at_most-text (timestamp n) t h = cc
is_text_at_most-text (array vs) t h = cc
is_text_at_most-text (object f) t h = cc

still_runs-true :
    (v : Value) (date : String)
    → still_runs v date ≡ true
    → (v ≡ missing) ⊎ (v ≡ null) ⊎ ((t : String) × (v ≡ text t) × (str_le date t ≡ true))
still_runs-true missing date h = inl refl
still_runs-true null date h = inr (inl refl)
still_runs-true (text t) date h = inr (inr (t, refl, h))
still_runs-true (number n) date h = cc
still_runs-true (boolean b) date h = cc
still_runs-true (timestamp n) date h = cc
still_runs-true (array vs) date h = cc
still_runs-true (object f) date h = cc

found-Covers :
    (employee date : String) (a : Document)
    → hold_all (assignments_of employee date) a ≡ true
    → is_active_on date a ≡ true
    → Covers employee date a
found-Covers employee date a h runs =
    let (first, rest) = and-eq_true (is_text (get a.fields "employeeId") employee) _ h in
    (
      is_text-eq_text _ employee first,
      is_text_at_most-text _ date
          (and-eq_true (is_text_at_most (get a.fields "effectiveFrom") date) true rest).0,
      still_runs-true _ date runs,
    )

Covers-found :
    (employee date : String) (a : Document)
    → Covers employee date a
    → (hold_all (assignments_of employee date) a ≡ true) × (is_active_on date a ≡ true)
Covers-found employee date a (own, (from', begins, early), end') =
    (rw (own, begins, early, str_eq_refl employee) refl, runs end')
  where
    runs :
        (get a.fields "effectiveTo" ≡ missing)
          ⊎ (get a.fields "effectiveTo" ≡ null)
          ⊎ ((to' : String) × (get a.fields "effectiveTo" ≡ text to') × (str_le date to' ≡ true))
        → is_active_on date a ≡ true
    runs (inl e) = rw (e) refl
    runs (inr (inl e)) = rw (e) refl
    runs (inr (inr (to', e, late))) = rw (e) late

find-any {ℓ} : {A : Type ℓ} (p : A → Bool) (xs : List A) → find p xs ≡ none → any p xs ≡ false
find-any p [] h = refl
find-any p (x ∷ xs) h = ground (arith, find-any p xs)

some-injective {ℓ} : {A : Type ℓ} {a b : A} → ◌≡◌ {A = Option A} (some a) (some b) → a ≡ b
some-injective {a} h = ap (λ o. get_or o a) h

pub find-Memᴰ {ℓ} :
    {A : Type ℓ} (p : A → Bool) (xs : List A) (a : A) → find p xs ≡ some a → Memᴰ a xs
find-Memᴰ p [] a h = cc
find-Memᴰ p (x ∷ xs) a h =
    if-elim (p x) (some x) (find p xs) h (λ _ e. Memᴰ.head (sym (some-injective e)))
      λ _ e. Memᴰ.tail (find-Memᴰ p xs a e)

module _ {S : Type 0} (db : Database S) where
  -- What an assignment that the search finds is.
  pub active_assignment-Covers :
      (organization employee date : String) (s : S) (a : Document)
      → active_assignment db s organization employee date ≡ some a
      → Covers employee date a
  active_assignment-Covers organization employee date s a active =
      let found =
        db.query s organization "shiftAssignments" (assignments_of employee date)
          (by_descending "effectiveFrom") 20 in
      found-Covers employee date a
        (find-All _ (is_active_on date) found a
          (db.query_holds s organization "shiftAssignments" (assignments_of employee date)
            (by_descending "effectiveFrom") 20)
          active)
        (find-holds (is_active_on date) found a active)

  pub active_assignment-none :
      (organization employee date : String) (s : S)
      → All
          (λ a. ¬ (Covers employee date a))
          (db.query s organization "shiftAssignments"
            (assignments_of employee date)
            (by_descending "effectiveFrom")
            20)
      → active_assignment db s organization employee date ≡ none
  active_assignment-none organization employee date s uncovered =
      let found =
        db.query s organization "shiftAssignments" (assignments_of employee date)
          (by_descending "effectiveFrom") 20 in
      elim (Option-cases (find (is_active_on date) found)) [
        | inl none' ↦ none'
        | inr (a, active) ↦ absurd (
            find-All (λ d. ¬ (Covers employee date d)) (is_active_on date) found a uncovered active
              (active_assignment-Covers organization employee date s a active))
      ]

  -- The search finds something where there is something to find.
  pub active_assignment-some :
      (organization employee date name : String) (s : S) (d : Document)
      → db.document s (assignment_place organization name) ≡ some d
      → Covers employee date d
      → length (
          db.query s organization "shiftAssignments"
            (assignments_of employee date)
            (by_descending "effectiveFrom")
            20)
        < 20
      → (a : Document) × (active_assignment db s organization employee date ≡ some a)
  active_assignment-some organization employee date name s d there covers few =
      let found =
        db.query s organization "shiftAssignments" (assignments_of employee date)
          (by_descending "effectiveFrom") 20 in
      let (is_asked, runs) = Covers-found employee date d covers in
      elim (Option-cases (find (is_active_on date) found)) [
        | inr some' ↦ some'
        | inl none' ↦
            let not_active =
              db.query_complete s organization "shiftAssignments" (assignments_of employee date)
                (by_descending "effectiveFrom") 20 name d (is_active_on date) few there is_asked
                (find-any (is_active_on date) found none') in
            let clash = sym runs ∙ not_active in absurd cc
      ]
