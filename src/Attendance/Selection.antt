-- ===== src/Attendance/Selection.antt =====
-- Which punches count: `comparePunches`, `duplicateGroup` and `selectPunches` of
-- cloud/functions/src/attendance/engine.ts. A punch is read once and kept with its instant, where
-- the source reads its time again at each use.
pub mod Duplicates
pub mod Laws
use attendence_system.Prelude.{
  ℕ, ◌+◌, ◌≡◌, Bool, true, false, not, ◌&&◌, ◌||◌, List, [], ◌∷◌, ◌++◌, map, Option, none, some,
  String, ltb, leb, ◌==◌, any, filter, head?, last?, length, is_some, if◌then◌else◌,
}
use attendence_system.Prelude.Result.{Result, ok, err, ◌>>=◌, or_throw}
use attendence_system.Prelude.Sort.{sort}
use attendence_system.Prelude.Text.{str_le}
use attendence_system.Attendance.Types.{
  AttendancePunch, PunchDirection, inward, outward, unknown, PunchMode, first_last, explicit_status,
}
use attendence_system.Attendance.Clock.{Clock, epoch_milliseconds}
use attendence_system.Attendance.Window.{EngineError, range_error, ShiftWindow}

pub record PunchSelection : Type 0 where
  pub first_in : Option ℕ
  pub last_out : Option ℕ
  pub source_event_ids : List String
  pub duplicate_count : ℕ
  pub ignored_outside_window : ℕ

-- A punch with its instant.
pub record Seen : Type 0 where
  pub punch : AttendancePunch
  pub at : ℕ

abbrev pub duplicate_punch_window_milliseconds : ℕ
duplicate_punch_window_milliseconds = 60_000

abbrev pub milliseconds : Seen → ℕ
milliseconds p = epoch_milliseconds p.at

-- The value of `duplicateGroup`: a direction, or "first_last".
pub data Group : Type 0 where
  any_punch : Group
  directed : PunchDirection → Group

abbrev pub duplicate_group : PunchMode → Seen → Group
duplicate_group explicit_status p = directed p.punch.direction
duplicate_group first_last p = any_punch

abbrev pub same_direction : PunchDirection → PunchDirection → Bool
same_direction inward inward = true
same_direction outward outward = true
same_direction unknown unknown = true
same_direction _ _ = false

abbrev pub same_group : Group → Group → Bool
same_group any_punch any_punch = true
same_group (directed a) (directed b) = same_direction a b
same_group _ _ = false

-- `lastSeenByGroup`, a map from groups to milliseconds
abbrev pub LastSeen : Type 0
LastSeen = Group → Option ℕ

unfoldable pub seen_at : LastSeen → Group → ℕ → LastSeen
seen_at last g t h = if same_group h g then some t else last h

unfoldable pub is_duplicate : Option ℕ → ℕ → Bool
is_duplicate none t = false
is_duplicate (some last) t = leb t (last + duplicate_punch_window_milliseconds)

-- The loop that keeps the first punch of each burst: what is kept, and what is dropped.
unfoldable pub drop_duplicates : PunchMode → LastSeen → List Seen → List Seen × List Seen
unfolding seen_at is_duplicate
drop_duplicates mode last [] = ([], [])
drop_duplicates mode last (p ∷ ps) =
    let g = duplicate_group mode p in
    let (kept, dropped) = drop_duplicates mode (seen_at last g (milliseconds p)) ps in
    if is_duplicate (last g) (milliseconds p) then (kept, p ∷ dropped) else (p ∷ kept, dropped)

abbrev pub is_outside : ShiftWindow → ℕ → Bool
is_outside window t = ltb t window.earliest_punch || ltb window.latest_punch t

abbrev pub goes : PunchDirection → Seen → Bool
goes d p = same_direction p.punch.direction d

abbrev pub at_of : Option Seen → Option ℕ
at_of none = none
at_of (some p) = some p.at

-- The `else if` branches, without explicit directions.
unfoldable pub pick_first_last : List Seen → Option ℕ × Option ℕ
pick_first_last [] = (none, none)
pick_first_last (p ∷ []) = if goes outward p then (none, some p.at) else (some p.at, none)
pick_first_last (p ∷ q ∷ ps) = (some p.at, at_of (last? (q ∷ ps)))

abbrev pub is_explicit : PunchMode → Bool
is_explicit explicit_status = true
is_explicit first_last = false

unfoldable pub pick : PunchMode → List Seen → Option ℕ × Option ℕ
unfolding pick_first_last
pick mode unique =
    if is_explicit mode && any (λ p. not (goes unknown p)) unique
    then (at_of (head? (filter (goes inward) unique)), at_of (last? (filter (goes outward) unique)))
    else pick_first_last unique

module _ (k : Clock) where
  -- comparePunches(left, right) <= 0
  unfoldable pub punch_le : Seen → Seen → Bool
  punch_le p q = ltb p.at q.at || (p.at == q.at && k.locale_le p.punch.id q.punch.id)

  -- The first loop: the punches in the window, and how many are outside.
  unfoldable pub split_window :
      ShiftWindow → List AttendancePunch → Result EngineError (List Seen × ℕ)
  split_window window [] = ok ([], 0)
  split_window window (p ∷ ps) = split_window window ps >>= λ (inside, ignored).
      or_throw (k.instant_from p.occurred_at) range_error >>= λ t. ok (
        if is_outside window t
        then (inside, ignored + 1)
        else (record { punch = p; at = t } ∷ inside, ignored))

  unfoldable pub select_sorted : PunchMode → List Seen → ℕ → PunchSelection
  select_sorted mode inside ignored =
      let (unique, duplicates) = drop_duplicates mode (λ g. none) (sort punch_le inside) in
      let (first, last) = pick mode unique in
      record {
        first_in = first;
        last_out = last;
        source_event_ids =
            sort str_le (map (λ p. p.punch.id) unique ++ map (λ p. p.punch.id) duplicates);
        duplicate_count = length duplicates;
        ignored_outside_window = ignored;
      }

  unfoldable pub select_punches :
      List AttendancePunch → PunchMode → ShiftWindow → Result EngineError PunchSelection
  select_punches punches mode window =
      split_window window punches >>= λ (inside, ignored). ok (select_sorted mode inside ignored)
