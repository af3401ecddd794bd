-- ===== src/Attendance/Selection/Duplicates.antt =====
-- The rule of `drop_duplicates`, and its description without the running map.
use mathlib.Core.List.{Perm, perm_middle}
use mathlib.Core.List.Perm
use attendence_system.Prelude.{
  ℕ, ◌+◌, ◌≤◌, ◌≡◌, refl, Bool, true, ◌&&◌, List, [], ◌∷◌, ◌++◌, none, arith, leb, any, All,
  if◌then◌else◌, Bool-cases, inl, inr,
}
use attendence_system.Prelude.Sort.{IsSorted}
use attendence_system.Attendance.Types.{PunchMode}
use attendence_system.Attendance.Selection.{
  Seen, Group, same_group, LastSeen, seen_at, is_duplicate, milliseconds, duplicate_group,
  drop_duplicates, duplicate_punch_window_milliseconds,
}

-- Some earlier punch of the group lies at most a minute before `t`.
abbrev pub is_close : PunchMode → Group → ℕ → List Seen → Bool
is_close mode g t earlier =
    any
      (λ p.
        same_group g (duplicate_group mode p)
        && leb t (milliseconds p + duplicate_punch_window_milliseconds))
      earlier

-- The punches that have no such earlier punch, whether that one was kept or not.
unfoldable pub burst_heads : PunchMode → List Seen → List Seen → List Seen
burst_heads mode earlier [] = []
burst_heads mode earlier (p ∷ ps) =
    let rest = burst_heads mode (p ∷ earlier) ps in
    if is_close mode (duplicate_group mode p) (milliseconds p) earlier then rest else p ∷ rest

-- The map agrees with the earlier punches.
abbrev Agrees : PunchMode → LastSeen → List Seen → Type 0
Agrees mode last earlier = (g : Group) (t : ℕ) → is_duplicate (last g) t ≡ is_close mode g t earlier

close_of_later :
    (mode : PunchMode) (g : Group) (t m : ℕ) (earlier : List Seen)
    → All (λ p. milliseconds p ≤ m) earlier
    → is_close mode g t earlier ≡ true
    → leb t (m + duplicate_punch_window_milliseconds) ≡ true
close_of_later mode g t m [] h e = cc
close_of_later mode g t m (p ∷ ps) h e = ground (arith, close_of_later mode g t m ps h.1)

Agrees-step :
    (mode : PunchMode) (last : LastSeen) (p : Seen) (earlier : List Seen)
    → All (λ q. milliseconds q ≤ milliseconds p) earlier
    → Agrees mode last earlier
    → Agrees mode (seen_at last (duplicate_group mode p) (milliseconds p)) (p ∷ earlier)
unfolding seen_at is_duplicate
Agrees-step mode last p earlier h a g t =
    ground (arith, a g t, close_of_later mode g t (milliseconds p) earlier h)

-- Times rise along the list.
abbrev pub IsChronological : List Seen → Type 0
IsChronological [] = Unit
IsChronological (p ∷ ps) = All (λ q. milliseconds p ≤ milliseconds q) ps × IsChronological ps

kept-eq_burst_heads :
    (mode : PunchMode) (last : LastSeen) (earlier ps : List Seen)
    → Agrees mode last earlier
    → All (λ q. All (λ p. milliseconds p ≤ milliseconds q) earlier) ps
    → IsChronological ps
    → (drop_duplicates mode last ps).0 ≡ burst_heads mode earlier ps
unfolding drop_duplicates burst_heads
kept-eq_burst_heads mode last earlier [] a h c = refl
kept-eq_burst_heads mode last earlier (p ∷ ps) a h c =
    let rest =
      kept-eq_burst_heads mode (seen_at last (duplicate_group mode p) (milliseconds p))
        (p ∷ earlier) ps (Agrees-step mode last p earlier h.0 a) (later ps h.1 c.0) c.1 in
    ground (arith, rest, a (duplicate_group mode p) (milliseconds p))
  where
    later :
        (qs : List Seen)
        → All (λ q. All (λ r. milliseconds r ≤ milliseconds q) earlier) qs
        → All (λ q. milliseconds p ≤ milliseconds q) qs
        → All (λ q. All (λ r. milliseconds r ≤ milliseconds q) (p ∷ earlier)) qs
    later [] x y = tt
    later (q ∷ qs) x y = ((y.0, x.0), later qs x.1 y.1)

All-trivial : (ps : List Seen) → All (λ q. All (λ p. milliseconds p ≤ milliseconds q) []) ps
All-trivial [] = tt
All-trivial (p ∷ ps) = (tt, All-trivial ps)

-- On punches in the order of time, the loop with its map keeps exactly the punches that have no
-- earlier punch of their group, kept or dropped, within the minute before them.
pub drop_duplicates-burst_heads :
    (mode : PunchMode) (ps : List Seen)
    → IsChronological ps
    → (drop_duplicates mode (λ g. none) ps).0 ≡ burst_heads mode [] ps
drop_duplicates-burst_heads mode ps c =
    kept-eq_burst_heads mode (λ g. none) [] ps (λ g t. unfold is_duplicate in refl) (All-trivial ps)
      c

-- Each punch is kept or dropped, once.
pub drop_duplicates-perm :
    (mode : PunchMode) (last : LastSeen) (ps : List Seen)
    → Perm ((drop_duplicates mode last ps).0 ++ (drop_duplicates mode last ps).1) ps
unfolding drop_duplicates
drop_duplicates-perm mode last [] = Perm.refl _
drop_duplicates-perm mode last (p ∷ ps) =
    let g = duplicate_group mode p in
    let rest = drop_duplicates mode (seen_at last g (milliseconds p)) ps in
    let ih = drop_duplicates-perm mode (seen_at last g (milliseconds p)) ps in
    elim (Bool-cases (is_duplicate (last g) (milliseconds p))) [
      | inl e ↦ rw e (Perm.trans (perm_middle rest.0 rest.1) (Perm.cons p ih))
      | inr e ↦ rw e (Perm.cons p ih)
    ]

module _ {κ} (P : Seen → Type κ) where
  pub kept-All :
      (mode : PunchMode) (last : LastSeen) (ps : List Seen)
      → All P ps
      → All P (drop_duplicates mode last ps).0
  unfolding drop_duplicates
  kept-All mode last [] h = tt
  kept-All mode last (p ∷ ps) h =
      ground (arith, kept-All mode (seen_at last (duplicate_group mode p) (milliseconds p)) ps h.1)

pub kept-IsSorted :
    (le : Seen → Seen → Bool) (mode : PunchMode) (last : LastSeen) (ps : List Seen)
    → IsSorted le ps
    → IsSorted le (drop_duplicates mode last ps).0
unfolding drop_duplicates
kept-IsSorted le mode last [] s = tt
kept-IsSorted le mode last (p ∷ ps) s =
    let next = seen_at last (duplicate_group mode p) (milliseconds p) in
    ground
      (arith, kept-IsSorted le mode next ps s.1, kept-All (λ q. le p q ≡ true) mode next ps s.0)
