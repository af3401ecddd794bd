-- ===== src/Management/Branches/Laws.antt =====
-- What a deleted branch leaves behind.
use attendence_system.Prelude.{
  ℕ, ◌<◌, ◌≡◌, refl, ap, ◌∙◌, Bool, true, false, not, ◌&&◌, not-eq_false, arith, List, [], ◌∷◌,
  Option, none, some, String, length, ◌==◌, any, Bool-cases, inl, inr, is_some,
}
use attendence_system.Prelude.Result.{ok, throw_if, ◌>>◌, >>=-elim, throw_if-elim, throw_if-ok}
use attendence_system.Documents.{
  text_is, array_contains, contains, is_text, by_name, Document, Condition, Place, field_of,
  hold_all, Database,
}
use attendence_system.Management.Access.{
  AuthContext, not_found, failed_precondition, committing-ok, require_manager, in_collection,
}
use attendence_system.Management.Branches.{
  branch_place, has_any, is_gone, check_deletion, write_deletion, delete_branch,
}

none-few {ℓ} : {A : Type ℓ} (xs : List A) → (length xs == 0) ≡ true → length xs < 1
none-few xs h = ground arith

none-any {ℓ} :
    {A : Type ℓ} (q : A → Bool) (xs : List A) → (length xs == 0) ≡ true → any q xs ≡ false
none-any q [] h = refl
none-any q (x ∷ xs) h = ground arith

and_true : (b : Bool) → (b && true) ≡ false → b ≡ false
and_true b h = ground arith

module _ {S : Type 0} (db : Database S) (now : ℕ) where
  -- Nothing that a query with the limit of one would find.
  none_of :
      (s : S) (o c name : String) (w : List Condition) (d : Document)
      → not (length (db.query s o c w by_name 1) == 0) ≡ false
      → db.document s (record { organization = o; collection = c; name = name }) ≡ some d
      → hold_all w d ≡ false
  none_of s o c name w d h there =
      let none' = not-eq_false _ h in
      elim (Bool-cases (hold_all w d)) [
        | inl e ↦
            db.query_complete s o c w by_name 1 name d (hold_all w)
              (none-few (db.query s o c w by_name 1) none') there e
              (none-any (hold_all w) (db.query s o c w by_name 1) none')
        | inr e ↦ e
      ]

  -- A branch that was free to be deleted.
  check_deletion-free :
      (o branch : String) (s : S) (u : Unit {0})
      → check_deletion db now o branch s ≡ ok u
      → (is_gone db now (db.document s (branch_place db now o branch)) ≡ false)
        × (is_text (field_of (db.organization s o) "primaryBranchId") branch ≡ false)
        × (has_any db now s o "employees" false branch ≡ false)
        × (has_any db now s o "devices" false branch ≡ false)
        × (has_any db now s o "members" true branch ≡ false)
  unfolding check_deletion
  check_deletion-free o branch s u h =
      let t5 =
        throw_if (has_any db now s o "members" true branch)
          (failed_precondition "Remove this branch from member access before deleting it") in
      let t4 =
        throw_if (has_any db now s o "devices" false branch)
          (failed_precondition "Move or remove devices before deleting this branch")
        >> t5 in
      let t3 =
        throw_if (has_any db now s o "employees" false branch)
          (failed_precondition "Move employees to another branch before deleting this branch")
        >> t4 in
      let t2 =
        throw_if (is_text (field_of (db.organization s o) "primaryBranchId") branch)
          (failed_precondition "The primary branch cannot be deleted")
        >> t3 in
      let t1 =
        throw_if (is_gone db now (db.document s (branch_place db now o branch)))
          (not_found "Active branch does not exist")
        >> t2 in
      throw_if-elim (not (is_some (db.organization s o))) (not_found "Organization does not exist")
        t1 h
        λ _ h1. throw_if-elim _ _ t2 h1 λ gone h2. throw_if-elim _ _ t3 h2 λ primary h3.
          throw_if-elim _ _ t4 h3 λ none0 h4.
            throw_if-elim _ _ t5 h4 λ none1 h5. (gone, primary, none0, none1, throw_if-ok _ _ h5)

  no_text :
      (s : S) (o c branch : String) (p : Place) (x : Option Document)
      → has_any db now s o c false branch ≡ false
      → in_collection db now o c p.name ≡ p
      → db.document s p ≡ x
      → is_text (field_of x "branchId") branch ≡ false
  no_text s o c branch p none h e there = refl
  no_text s o c branch p (some d) h e there = and_true _ (
      none_of s o c p.name (text_is "branchId" branch ∷ []) d h
        (ap (λ y. db.document s y) e ∙ there))

  no_member :
      (s : S) (o c branch : String) (p : Place) (x : Option Document)
      → has_any db now s o c true branch ≡ false
      → in_collection db now o c p.name ≡ p
      → db.document s p ≡ x
      → contains (field_of x "branchIds") branch ≡ false
  no_member s o c branch p none h e there = refl
  no_member s o c branch p (some d) h e there = and_true _ (
      none_of s o c p.name (array_contains "branchIds" branch ∷ []) d h
        (ap (λ y. db.document s y) e ∙ there))

  -- A branch that is deleted was there and active, is not the primary branch, and no employee, no
  -- device and no member belongs to it, whatever their names.
  pub delete_branch-free :
      (auth : AuthContext) (o branch audit : String) (s : S) (answer name : String)
      → (delete_branch db now auth (some (o, branch)) audit s).0 ≡ ok answer
      → (is_gone db now (db.document s (branch_place db now o branch)) ≡ false)
        × (is_text (field_of (db.organization s o) "primaryBranchId") branch ≡ false)
        × (is_text
              (field_of (db.document s (in_collection db now o "employees" name)) "branchId")
              branch
            ≡ false)
        × (is_text
              (field_of (db.document s (in_collection db now o "devices" name)) "branchId")
              branch
            ≡ false)
        × (contains
              (field_of (db.document s (in_collection db now o "members" name)) "branchIds")
              branch
            ≡ false)
  unfolding delete_branch write_deletion
  delete_branch-free auth o branch audit s answer name h =
      let (after, run, _) = committing-ok s _ answer h in
      >>=-elim (require_manager db now s auth o) _ run λ granted _ h1.
        >>=-elim (check_deletion db now o branch s) _ h1 λ u checked _.
          let (gone, primary, none0, none1, none2) = check_deletion-free o branch s u checked in
          (
            gone,
            primary,
            no_text s o "employees" branch (in_collection db now o "employees" name) _ none0 refl
                refl,
            no_text s o "devices" branch (in_collection db now o "devices" name) _ none1 refl refl,
            no_member s o "members" branch (in_collection db now o "members" name) _ none2 refl
                refl,
          )
