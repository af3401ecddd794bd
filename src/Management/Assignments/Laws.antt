-- ===== src/Management/Assignments/Laws.antt =====
-- Assignments of one employee do not overlap.
use attendence_system.Prelude.{
  ℕ, ◌<◌, ◌≡◌, refl, Bool, false, not, ◌&&◌, arith, [], ◌∷◌, Option, none, some, String, any,
  length, get_or, get_or,
}
use attendence_system.Prelude.Result.{ok, throw_if, ◌>>◌, >>=-elim, throw_if-elim, throw_if-ok}
use attendence_system.Prelude.Text.{str_eq_refl, str_le, str_le_trans}
use attendence_system.Documents.{Value, text, get, as_text, Document, text_is, by_name, Database}
use attendence_system.Management.Access.{
  AuthContext, not_found, already_exists, exists, in_collection, committing-ok,
  require_authentication, require_manager,
}
use attendence_system.Management.Shifts.{organization_today, shift_place}
use attendence_system.Management.Assignments.{
  AssignShift, overlaps, overlaps_from, existing_of, is_inactive, assignment_place,
  check_assignment, write_assignment, assign_employee_shift,
}

-- The dates from the first text to the second, or without an end.
abbrev pub in_period : Option String → Value → String → Bool
in_period none to x = false
in_period (some from') to x = str_le from' x && str_le x (get_or (as_text to) "9999-12-31")

abbrev pub covers : Document → String → Bool
covers d x = in_period (as_text (get d.fields "effectiveFrom")) (get d.fields "effectiveTo") x

abbrev pub requested : AssignShift → String → Bool
requested i x = str_le i.effective_from x && str_le x (get_or i.effective_to "9999-12-31")

module _ {S : Type 0} (db : Database S) (now : ℕ) where
  overlaps_from-apart :
      (from' : Option String) (to : Value) (start : String) (end : Option String) (x : String)
      → overlaps_from db now from' to start end ≡ false
      → ((str_le start x && str_le x (get_or end "9999-12-31")) && in_period from' to x) ≡ false
  overlaps_from-apart none to start end x h = ground arith
  overlaps_from-apart (some f) to start end x h = grind (arith, str_le_trans)

  check_assignment-apart :
      (i : AssignShift) (s : S) (name : String) (d : Document) (u : Unit {0})
      → check_assignment db now i s ≡ ok u
      → length (existing_of db now i s) < 100
      → db.document s (assignment_place db now i.organization_id name) ≡ some d
      → get d.fields "employeeId" ≡ text i.employee_id
      → overlaps db now i d ≡ false
  unfolding check_assignment
  check_assignment-apart i s name d u h few there own =
      let missing =
        not (exists db now s (in_collection db now i.organization_id "employees" i.employee_id)) in
      let inactive =
        is_inactive db now (db.document s (shift_place db now i.organization_id i.shift_id)) in
      let overlapping =
        throw_if (any (overlaps db now i) (existing_of db now i s))
          (already_exists "Employee already has a shift assignment in this date range") in
      throw_if-elim missing (not_found "Employee does not exist")
        (throw_if inactive (not_found "Active shift does not exist") >> overlapping) h
        λ _ h1.
          throw_if-elim inactive (not_found "Active shift does not exist") overlapping h1 λ _ h2.
            db.query_complete s i.organization_id "shiftAssignments"
              (text_is "employeeId" i.employee_id ∷ []) by_name 100 name d (overlaps db now i) few
              there (rw (own, str_eq_refl i.employee_id) refl) (throw_if-ok _ _ h2)

  -- An assignment that is accepted has no date in common with any other assignment of the employee,
  -- if the employee has fewer than a hundred.
  pub assign_employee_shift-apart :
      (caller : Option AuthContext) (i : AssignShift) (id job : String) (today : String → String)
      (s : S) (answer name : String) (d : Document) (x : String)
      → (assign_employee_shift db now caller (some i) id job today s).0 ≡ ok answer
      → length (existing_of db now i s) < 100
      → db.document s (assignment_place db now i.organization_id name) ≡ some d
      → get d.fields "employeeId" ≡ text i.employee_id
      → (requested i x && covers d x) ≡ false
  unfolding assign_employee_shift write_assignment overlaps
  assign_employee_shift-apart caller i id job today s answer name d x h few there own =
      let (after, run, e) = committing-ok s _ answer h in
      >>=-elim (require_authentication caller) _ run λ auth _ h1.
        >>=-elim (require_manager db now s auth i.organization_id) _ h1 λ granted _ h2.
          >>=-elim (organization_today db now s today i.organization_id) _ h2 λ date _ h3.
            >>=-elim (check_assignment db now i s) _ h3 λ u checked _.
              overlaps_from-apart (as_text (get d.fields "effectiveFrom"))
                (get d.fields "effectiveTo") i.effective_from i.effective_to x
                (check_assignment-apart i s name d u checked few there own)
