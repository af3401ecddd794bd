-- ===== src/Recalculation/Load/Laws.antt =====
-- The punches that a day is calculated from.
use mathlib.Core.Path.{subst}
use attendence_system.Prelude.{
  ◌≡◌, refl, Bool, true, false, arith, List, [], ◌∷◌, ◌++◌, Option, none, some, String, All,
  All-append, All-mono, all, any, and-eq_true, Bool-cases, inl, inr,
}
use attendence_system.Prelude.Result.{ok, throw_if-elim, ok-injective}
use attendence_system.Prelude.Text.{str_eq, str_eq_sound}
use attendence_system.Attendance.Types.{AttendancePunch}
use attendence_system.Attendance.Clock.{Clock}
use attendence_system.Documents.{
  Document, Condition, text_is, boolean_is, time_at_least, time_below, holds, hold_all, as_text,
  get, by_name, Database,
}
use attendence_system.Recalculation.Fields.{punch_limit}
use attendence_system.Recalculation.Events.{event_punch}
use attendence_system.Recalculation.Context.{RecalculationContext, Range}
use attendence_system.Recalculation.Load.{
  set_by_id, add_punch, between, add_events, add_snapshots, events_where, identity_of,
  identity_results, snapshots_between, is_too_large, load_punches_between,
}

-- No two punches have one name.
abbrev pub HasDistinctIds : List AttendancePunch → Type 0
HasDistinctIds [] = Unit
HasDistinctIds (p ∷ ps) = All (λ q. str_eq p.id q.id ≡ false) ps × HasDistinctIds ps

set_by_id-All {κ} :
    (P : AttendancePunch → Type κ) (ps : List AttendancePunch) (p : AttendancePunch)
    → All P ps
    → P p
    → All P (set_by_id ps p)
unfolding set_by_id
set_by_id-All P [] p h new = (new, tt)
set_by_id-All P (q ∷ qs) p h new = ground (arith, set_by_id-All P qs p h.1 new)

All-same :
    (a b : String) (qs : List AttendancePunch)
    → str_eq a b ≡ true
    → All (λ q. str_eq a q.id ≡ false) qs
    → All (λ q. str_eq b q.id ≡ false) qs
All-same a b qs e h = subst (λ x. All (λ q. str_eq x q.id ≡ false) qs) (str_eq_sound a b e) h

set_by_id-Distinct :
    (ps : List AttendancePunch) (p : AttendancePunch)
    → HasDistinctIds ps
    → HasDistinctIds (set_by_id ps p)
unfolding set_by_id
set_by_id-Distinct [] p h = (tt, tt)
set_by_id-Distinct (q ∷ qs) p h = elim (Bool-cases (str_eq q.id p.id)) [
  | inl e ↦ rw e ((All-same q.id p.id qs e h.0, h.1))
  | inr e ↦
      rw e ((set_by_id-All (λ r. str_eq q.id r.id ≡ false) qs p h.0 e, set_by_id-Distinct qs p h.1))
]

all-append {ℓ} :
    {A : Type ℓ} (p : A → Bool) (xs ys : List A) → all p (xs ++ ys) ≡ true → all p ys ≡ true
all-append p [] ys h = h
all-append p (x ∷ xs) ys h = all-append p xs ys (and-eq_true (p x) (all p (xs ++ ys)) h).1

module _ (k : Clock) where
  -- A punch that an event of the range became.
  abbrev pub IsEventIn : Range → AttendancePunch → Type 0
  IsEventIn r p =
      (doc : Document) × (event_punch k doc ≡ some p)
      × (holds doc (time_at_least "eventTime" r.start) ≡ true)
      × (holds doc (time_below "eventTime" r.end) ≡ true)

  abbrev InRange : Range → Document → Type 0
  InRange r doc =
      (holds doc (time_at_least "eventTime" r.start) ≡ true)
      × (holds doc (time_below "eventTime" r.end) ≡ true)

  between-InRange :
      (r : Range) (conditions : List Condition) (doc : Document)
      → hold_all (between r conditions) doc ≡ true
      → InRange r doc
  between-InRange r conditions doc h =
      let both = all-append (holds doc) conditions _ h in
      let (first, rest) = and-eq_true (holds doc (time_at_least "eventTime" r.start)) _ both in
      (first, (and-eq_true (holds doc (time_below "eventTime" r.end)) true rest).0)

  add_punch-lem :
      (r : Range) (found : List AttendancePunch) (doc : Document) (o : Option AttendancePunch)
      → event_punch k doc ≡ o
      → InRange r doc
      → HasDistinctIds found
      → All (IsEventIn r) found
      → HasDistinctIds (add_punch found o) × All (IsEventIn r) (add_punch found o)
  add_punch-lem r found doc none e h d a = (d, a)
  add_punch-lem r found doc (some p) e h d a =
      (set_by_id-Distinct found p d, set_by_id-All (IsEventIn r) found p a (doc, e, h.0, h.1))

  add_events-lem :
      (r : Range) (found : List AttendancePunch) (docs : List Document)
      → All (InRange r) docs
      → HasDistinctIds found
      → All (IsEventIn r) found
      → HasDistinctIds (add_events k found docs) × All (IsEventIn r) (add_events k found docs)
  unfolding add_events
  add_events-lem r found [] docs d a = (d, a)
  add_events-lem r found (doc ∷ docs) h d a =
      let (d', a') = add_punch-lem r found doc _ refl h.0 d a in
      add_events-lem r (add_punch found (event_punch k doc)) docs h.1 d' a'

  add_snapshots-lem :
      (r : Range) (found : List AttendancePunch) (snapshots : List (List Document))
      → All (All (InRange r)) snapshots
      → HasDistinctIds found
      → All (IsEventIn r) found
      → HasDistinctIds (add_snapshots k found snapshots)
        × All (IsEventIn r) (add_snapshots k found snapshots)
  unfolding add_snapshots
  add_snapshots-lem r found [] h d a = (d, a)
  add_snapshots-lem r found (docs ∷ rest) h d a =
      let (d', a') = add_events-lem r found docs h.0 d a in
      add_snapshots-lem r (add_events k found docs) rest h.1 d' a'

  module _ {S : Type 0} (db : Database S) (s : S) (c : RecalculationContext) where
    events_where-InRange :
        (r : Range) (conditions : List Condition)
        → All (InRange r) (events_where k db s c r conditions)
    events_where-InRange r conditions =
        All-mono _ _ _ (between-InRange r conditions)
          (db.query_holds s c.organization "attendanceEvents" (between r conditions) by_name 1001)

    identity_of-InRange :
        (r : Range) (device number : Option String)
        → All (All (InRange r)) (identity_of k db s c r device number)
    identity_of-InRange r (some device) (some number) =
        (events_where-InRange r (text_is "deviceId" device ∷ text_is "employeeNo" number ∷ []), tt)
    identity_of-InRange r (some device) none = tt
    identity_of-InRange r none number = tt

    identity_results-InRange :
        (r : Range) (mappings : List Document)
        → All (All (InRange r)) (identity_results k db s c r mappings)
    unfolding identity_results
    identity_results-InRange r [] = tt
    identity_results-InRange r (m ∷ ms) =
        All-append (All (InRange r))
          (identity_of k db s c r (as_text (get m.fields "deviceId"))
            (as_text (get m.fields "employeeNo")))
          _ (identity_of-InRange r _ _) (identity_results-InRange r ms)

    -- The punches that are loaded have different names, and each is an event with a time in the
    -- range, its start included and its end not.
    pub load_punches_between-IsEventIn :
        (employee date : String) (r : Range) (ps : List AttendancePunch)
        → load_punches_between k db s c employee date r ≡ ok ps
        → HasDistinctIds ps × All (IsEventIn r) ps
    unfolding load_punches_between snapshots_between
    load_punches_between-IsEventIn employee date r ps h =
        throw_if-elim (any (is_too_large k db s c) (snapshots_between k db s c employee r))
          (punch_limit employee date) _ h
          λ _ e.
            subst (λ x. HasDistinctIds x × All (IsEventIn r) x) (ok-injective e)
              (add_snapshots-lem r [] (snapshots_between k db s c employee r)
                (
                  events_where-InRange r (text_is "employeeId" employee ∷ []),
                  identity_results-InRange r (
                      db.query s c.organization "deviceIdentities"
                        (text_is "employeeId" employee ∷ boolean_is "active" true ∷ []) by_name
                        100),
                )
                tt tt)
