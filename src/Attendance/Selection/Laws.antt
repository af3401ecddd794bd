-- ===== src/Attendance/Selection/Laws.antt =====
-- What `select_punches` returns.
use mathlib.Core.List.{Perm, map-append}
use mathlib.Core.Path.{subst}
use mathlib.Core.List.Perm
use attendence_system.Prelude.{
  ℕ, ◌+◌, ◌≤◌, ◌≡◌, refl, ap, ◌∙◌, Bool, true, false, not, List, [], ◌∷◌, map, Option, none, some,
  arith, any, filter, All, All-mono, All-filter, head?, last?, length, length-map, Bool-cases,
  Option-cases, inl, inr,
}
use attendence_system.Prelude.Result.{Result, ok, err, >>=-eq-ok, Result-cases}
use attendence_system.Prelude.Sort.{sort, IsSorted, sort-perm, sort-All, sort-IsSorted}
use attendence_system.Prelude.Text.{str_le}
use attendence_system.Attendance.Types.{
  AttendancePunch, PunchMode, first_last, explicit_status, inward, outward, unknown,
}
use attendence_system.Attendance.Clock.{Clock}
use attendence_system.Attendance.Window.{EngineError, ShiftWindow}
use attendence_system.Attendance.Selection.{
  Seen, PunchSelection, is_outside, split_window, select_sorted, select_punches, drop_duplicates,
  pick, pick_first_last, punch_le, at_of, goes,
}
use attendence_system.Attendance.Selection.Duplicates.{
  kept-All, kept-IsSorted, drop_duplicates-perm, drop_duplicates-burst_heads, burst_heads,
  IsChronological,
}

abbrev pub InWindow : ShiftWindow → ℕ → Type 0
InWindow w t = (w.earliest_punch ≤ t) × (t ≤ w.latest_punch)

-- An absent time satisfies any condition.
abbrev pub IfSome : (ℕ → Type 0) → Option ℕ → Type 0
IfSome P none = Unit
IfSome P (some t) = P t

abbrev pub InOrder : Option ℕ × Option ℕ → Type 0
InOrder (some a, some b) = a ≤ b
InOrder _ = Unit

at_of-IfSome :
    (P : ℕ → Type 0) (ps : List Seen)
    → All (λ p. P p.at) ps
    → IfSome P (at_of (head? ps)) × IfSome P (at_of (last? ps))
at_of-IfSome P [] h = (tt, tt)
at_of-IfSome P (p ∷ []) h = (h.0, h.0)
at_of-IfSome P (p ∷ q ∷ []) h = (h.0, h.1.0)
at_of-IfSome P (p ∷ q ∷ r ∷ ps) h = (h.0, (at_of-IfSome P (q ∷ r ∷ ps) h.1).1)

pick_first_last-IfSome :
    (P : ℕ → Type 0) (ps : List Seen)
    → All (λ p. P p.at) ps
    → IfSome P (pick_first_last ps).0 × IfSome P (pick_first_last ps).1
unfolding pick_first_last
pick_first_last-IfSome P [] h = (tt, tt)
pick_first_last-IfSome P (p ∷ []) h = elim (Bool-cases (goes outward p)) [
  | inl e ↦ rw e (tt, h.0)
  | inr e ↦ rw e (h.0, tt)
]
pick_first_last-IfSome P (p ∷ q ∷ ps) h = (h.0, (at_of-IfSome P (q ∷ ps) h.1).1)

pub pick-IfSome :
    (P : ℕ → Type 0) (mode : PunchMode) (ps : List Seen)
    → All (λ p. P p.at) ps
    → IfSome P (pick mode ps).0 × IfSome P (pick mode ps).1
unfolding pick
pick-IfSome P first_last ps h = pick_first_last-IfSome P ps h
pick-IfSome P explicit_status ps h = elim (Bool-cases (any (λ p. not (goes unknown p)) ps)) [
  | inl e ↦ rw e (
    (at_of-IfSome P (filter (goes inward) ps) (All-filter _ (goes inward) ps h)).0,
    (at_of-IfSome P (filter (goes outward) ps) (All-filter _ (goes outward) ps h)).1,
  )
  | inr e ↦ rw e (pick_first_last-IfSome P ps h)
]

module _ (k : Clock) where
  punch_le-le : (p q : Seen) → punch_le k p q ≡ true → p.at ≤ q.at
  unfolding punch_le
  punch_le-le p q h = ground arith

  punch_le_total : (p q : Seen) → punch_le k p q ≡ false → punch_le k q p ≡ true
  unfolding punch_le
  punch_le_total p q h = ground (arith, k.locale_total p.punch.id q.punch.id)

  punch_le_trans :
      (p q r : Seen) → punch_le k p q ≡ true → punch_le k q r ≡ true → punch_le k p r ≡ true
  unfolding punch_le
  punch_le_trans p q r h i = ground (arith, k.locale_trans p.punch.id q.punch.id r.punch.id)

  pub in_order : List Seen → List Seen
  in_order = sort (punch_le k)

  in_order-IsSorted : (ps : List Seen) → IsSorted (punch_le k) (in_order ps)
  unfolding in_order
  in_order-IsSorted = sort-IsSorted (punch_le k) punch_le_total punch_le_trans

  IsSorted-IsChronological : (ps : List Seen) → IsSorted (punch_le k) ps → IsChronological ps
  IsSorted-IsChronological [] s = tt
  IsSorted-IsChronological (p ∷ ps) s = (
    All-mono _ _ ps (λ q h. let le : p.at ≤ q.at = punch_le-le p q h in omega arith) s.0,
    IsSorted-IsChronological ps s.1,
  )

  pick_first_last-InOrder :
      (ps : List Seen) → IsSorted (punch_le k) ps → InOrder (pick_first_last ps)
  unfolding pick_first_last
  pick_first_last-InOrder [] s = tt
  pick_first_last-InOrder (p ∷ []) s = elim (Bool-cases (goes outward p)) [
    | inl e ↦ rw e tt
    | inr e ↦ rw e tt
  ]
  pick_first_last-InOrder (p ∷ q ∷ ps) s =
      ordered (at_of (last? (q ∷ ps)))
        (at_of-IfSome (λ t. p.at ≤ t) (q ∷ ps)
          (All-mono _ _ (q ∷ ps) (λ r h. punch_le-le p r h) s.0)).1
    where
      ordered : (o : Option ℕ) → IfSome (λ t. p.at ≤ t) o → InOrder (some p.at, o)
      ordered none h = tt
      ordered (some t) h = h

  -- Whether an instant was read and lies in the window.
  unfoldable pub counts_in : ShiftWindow → AttendancePunch → Bool
  counts_in w p = elim (k.instant_from p.occurred_at) [
    | none ↦ false
    | some t ↦ not (is_outside w t)
  ]

  abbrev Splits : ShiftWindow → List AttendancePunch → List Seen × ℕ → Type 0
  Splits w ps r =
      (map (λ p. p.punch) r.0 ≡ filter (counts_in w) ps)
      × (length r.0 + r.1 ≡ length ps)
      × All (λ p. InWindow w p.at) r.0

  abbrev SplitsOk : ShiftWindow → List AttendancePunch → Result EngineError (List Seen × ℕ) → Type 0
  SplitsOk w ps (ok r) = Splits w ps r
  SplitsOk w ps (err e) = Unit

  split_window-SplitsOk :
      (w : ShiftWindow) (ps : List AttendancePunch) → SplitsOk w ps (split_window k w ps)
  unfolding split_window counts_in
  split_window-SplitsOk w [] = (refl, refl, tt)
  split_window-SplitsOk w (p ∷ ps) = elim (Result-cases (split_window k w ps)) [
    | inr (e, f) ↦ rw (f, split_window) tt
    | inl (s, f) ↦
        let ih : Splits w ps s = subst (SplitsOk w ps) f (split_window-SplitsOk w ps) in
        elim (Option-cases (k.instant_from p.occurred_at)) [
          | inl z ↦ rw (f, split_window, z) tt
          | inr (t, z) ↦ elim (Bool-cases (is_outside w t)) [
            | inl o ↦
                rw (f, split_window, z, counts_in, o)
                  (ground (arith, ih.0), omega (arith, ih.1), ih.2)
            | inr o ↦
                rw (f, split_window, z, counts_in, o)
                  (ground (arith, ih.0), omega (arith, ih.1), (ground arith, ih.2))
          ]
        ]
  ]

  split_window-Splits :
      (w : ShiftWindow) (ps : List AttendancePunch) (r : List Seen × ℕ)
      → split_window k w ps ≡ ok r
      → Splits w ps r
  split_window-Splits w ps r e = subst (SplitsOk w ps) e (split_window-SplitsOk w ps)

  select_punches-eq_ok :
      (ps : List AttendancePunch) (mode : PunchMode) (w : ShiftWindow) (s : PunchSelection)
      → select_punches k ps mode w ≡ ok s
      → (r : List Seen × ℕ) × Splits w ps r × (select_sorted k mode r.0 r.1 ≡ s)
  unfolding select_punches
  select_punches-eq_ok ps mode w s h =
      let (r, e, f) = >>=-eq-ok (split_window k w ps) _ h in
      (r, split_window-Splits w ps r e, ground arith)

  source_event_ids-perm :
      (mode : PunchMode) (inside : List Seen) (n : ℕ)
      → Perm (select_sorted k mode inside n).source_event_ids (map (λ p. p.punch.id) inside)
  unfolding select_sorted in_order
  source_event_ids-perm mode inside n =
      let sorted = sort (punch_le k) inside in
      let split = drop_duplicates mode (λ g. none) sorted in
      Perm.trans (sort-perm str_le _) (
        Perm.trans
          (subst (λ l. Perm l (map (λ p. p.punch.id) sorted)) (map-append _ split.0 split.1)
            (Perm.map _ (drop_duplicates-perm mode (λ g. none) sorted)))
          (Perm.map _ (sort-perm (punch_le k) inside)))

  ignored_lem :
      (mode : PunchMode) (inside : List Seen) (n : ℕ)
      → (select_sorted k mode inside n).ignored_outside_window ≡ n
  unfolding select_sorted
  ignored_lem mode inside n = refl

  map-map :
      (ps : List Seen)
      → map (λ p. p.punch.id) ps ≡ map (λ (p : AttendancePunch). p.id) (map (λ p. p.punch) ps)
  map-map [] = refl
  map-map (p ∷ ps) = ap (◌∷◌ p.punch.id) (map-map ps)

  -- No punch is lost or counted twice: the ids of the result are those of the punches in the
  -- window, kept or dropped as duplicates, and all other punches are counted as outside.
  pub select_punches-accounts :
      (ps : List AttendancePunch) (mode : PunchMode) (w : ShiftWindow) (s : PunchSelection)
      → select_punches k ps mode w ≡ ok s
      → Perm s.source_event_ids (map (λ (p : AttendancePunch). p.id) (filter (counts_in w) ps))
        × (length (filter (counts_in w) ps) + s.ignored_outside_window ≡ length ps)
  select_punches-accounts ps mode w s h =
      let (r, split, e) = select_punches-eq_ok ps mode w s h in
      let in_window = map-map r.0 ∙ ap (map (λ (p : AttendancePunch). p.id)) split.0 in
      (
        subst
            (λ (s : PunchSelection).
              Perm s.source_event_ids
                (map (λ (p : AttendancePunch). p.id) (filter (counts_in w) ps)))
            e
            (subst (λ l. Perm (select_sorted k mode r.0 r.1).source_event_ids l) in_window
              (source_event_ids-perm mode r.0 r.1)),
        omega (
          arith,
          split.1,
          ap length split.0,
          length-map r.0 (λ p. p.punch),
          ignored_lem mode r.0 r.1,
          ap (λ (s : PunchSelection). s.ignored_outside_window) e,
        ),
      )

  -- The first check-in and the last check-out lie in the window.
  pub select_punches-InWindow :
      (ps : List AttendancePunch) (mode : PunchMode) (w : ShiftWindow) (s : PunchSelection)
      → select_punches k ps mode w ≡ ok s
      → IfSome (InWindow w) s.first_in × IfSome (InWindow w) s.last_out
  unfolding select_sorted in_order
  select_punches-InWindow ps mode w s h =
      let (r, split, e) = select_punches-eq_ok ps mode w s h in
      subst
        (λ (s : PunchSelection). IfSome (InWindow w) s.first_in × IfSome (InWindow w) s.last_out) e
        (pick-IfSome (InWindow w) mode _ (
          kept-All _ mode (λ g. none) (sort (punch_le k) r.0)
            (sort-All (punch_le k) _ r.0 split.2)))

  -- Where the shift counts the first and the last punch, the check-in is never after the check-out.
  pub select_punches-InOrder :
      (ps : List AttendancePunch) (w : ShiftWindow) (s : PunchSelection)
      → select_punches k ps first_last w ≡ ok s
      → InOrder (s.first_in, s.last_out)
  unfolding select_sorted in_order pick
  select_punches-InOrder ps w s h =
      let (r, split, e) = select_punches-eq_ok ps first_last w s h in
      subst (λ (s : PunchSelection). InOrder (s.first_in, s.last_out)) e
        (pick_first_last-InOrder _
          (kept-IsSorted (punch_le k) first_last (λ g. none) _ (in_order-IsSorted r.0)))

  -- What is picked is picked from the first punches of the bursts.
  pub select_sorted-burst_heads :
      (mode : PunchMode) (inside : List Seen) (n : ℕ)
      → let s = select_sorted k mode inside n in
        ◌≡◌ {A = Option ℕ × Option ℕ}
          (s.first_in, s.last_out)
          (pick mode (burst_heads mode [] (in_order inside)))
  unfolding select_sorted in_order
  select_sorted-burst_heads mode inside n =
      ap (pick mode)
        (drop_duplicates-burst_heads mode _ (IsSorted-IsChronological _ (in_order-IsSorted inside)))
