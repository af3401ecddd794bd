-- ===== src/Management/Employees/Unique.antt =====
-- An employee's code is used once.
use attendence_system.Prelude.Text.{codes, is_upper}
use attendence_system.Prelude.{
  ◌+◌, ◌⊎◌, inl, inr, List, [], ◌∷◌, map, arith, if◌then◌else◌, ℕ, ◌≡◌, refl, sym, ap, ◌∙◌, true,
  Option, none, some, String,
}
use attendence_system.Prelude.Result.{ok, >>=-elim, throw_if-elim, ok-injective}
use attendence_system.Billing.Entitlements.{employees}
use attendence_system.Documents.{data_of, Place, Document, other_collection, Database}
use attendence_system.Ingest.Repository.{KeyHash}
use attendence_system.Management.Access.{
  already_exists, AuthContext, require_manager, check_creation_limit, in_collection, exists, create,
  committing-ok,
}
use attendence_system.Management.Access.Laws.{create-other, create-data, exists-data}
use attendence_system.Management.Employees.{
  employee_code_key, CreateEmployee, NewNames, CreatedEmployee, command_place,
  device_collection-apart, code_place, check_employee, code_fields, write_device, write_employee,
  create_employee,
}

-- Two characters that are the same, or a letter of ASCII in upper and in lower case.
abbrev pub IsSameLetter : ℕ → ℕ → Type 0
IsSameLetter a b =
    (a ≡ b) ⊎ ((is_upper a ≡ true) × (b ≡ a + 32)) ⊎ ((is_upper b ≡ true) × (a ≡ b + 32))

-- Texts that are the same but for the case of letters.
abbrev pub IsSameButCase : List ℕ → List ℕ → Type 0
IsSameButCase [] [] = Unit {0}
IsSameButCase [] (b ∷ t) = ⊥
IsSameButCase (a ∷ s) [] = ⊥
IsSameButCase (a ∷ s) (b ∷ t) = IsSameLetter a b × IsSameButCase s t

lower : ℕ → ℕ
lower c = if is_upper c then c + 32 else c

lower-IsSameLetter : (a b : ℕ) → IsSameLetter a b → lower a ≡ lower b
unfolding lower
lower-IsSameLetter a b (inl e) = ap (λ c. if is_upper c then c + 32 else c) e
lower-IsSameLetter a b (inr (inl (u, e))) = rw (e) (ground arith)
lower-IsSameLetter a b (inr (inr (u, e))) = rw (e) (ground arith)

lower-IsSameButCase : (s t : List ℕ) → IsSameButCase s t → map lower s ≡ map lower t
lower-IsSameButCase [] [] h = refl
lower-IsSameButCase [] (b ∷ t) h = elim h [ ]
lower-IsSameButCase (a ∷ s) [] h = elim h [ ]
lower-IsSameButCase (a ∷ s) (b ∷ t) (same, rest) =
    ap (λ x. x ∷ map lower s) (lower-IsSameLetter a b same)
    ∙ ap (λ xs. lower b ∷ xs) (lower-IsSameButCase s t rest)

employee_code_key-IsSameButCase :
    (sha256_hex : List ℕ → String) (a b : String)
    → IsSameButCase (codes a) (codes b)
    → employee_code_key sha256_hex a ≡ employee_code_key sha256_hex b
unfolding lower
employee_code_key-IsSameButCase sha256_hex a b h =
    ap sha256_hex (lower-IsSameButCase (codes a) (codes b) h)

module _ {S : Type 0} (db : Database S) (now : ℕ) (registry : S → String → Option Document)
    (key : KeyHash) (sha256_hex : List ℕ → String) where
  -- The writes for the device leave the registry of codes.
  write_device-codes :
      (i : CreateEmployee) (names : NewNames) (uid : String) (s : S) (device : Option String)
      (w w' : S) (p : Place)
      → p.collection ≡ "employeeCodeRegistry"
      → write_device db now registry key sha256_hex i names uid s device w ≡ ok w'
      → db.document w' p ≡ db.document w p
  write_device-codes i names uid s none w w' p c h =
      ap (λ x. db.document x p) (sym (ok-injective h))
  write_device-codes i names uid s (some device) w w' p c h =
      let name = key device i.employee_code in
      let identity = in_collection db now i.organization_id "deviceIdentities" name in
      let enrollment = in_collection db now i.organization_id "deviceEnrollments" name in
      let command = command_place db now i.organization_id device names.command in
      >>=-elim (create db now command _ s _) _ h λ w1 created last.
        ap (λ x. db.document x p) (sym (ok-injective last))
        ∙ db.merge_other w1 enrollment p _ (other_collection enrollment p (rw (c) refl))
        ∙ create-other db now command p _ s _ w1 created (
            other_collection command p
              (rw (c) (device_collection-apart device "commands" "employeeCodeRegistry" refl)))
        ∙ db.merge_other w identity p _ (other_collection identity p (rw (c) refl))

  write_employee-exists :
      (i : CreateEmployee) (names : NewNames) (uid : String) (s : S) (r : CreatedEmployee × S)
      → write_employee db now registry key sha256_hex i names uid s ≡ ok r
      → exists db now r.1 (code_place db now registry key sha256_hex i) ≡ true
  unfolding write_employee
  write_employee-exists i names uid s r h =
      let place = code_place db now registry key sha256_hex i in
      let audits = in_collection db now i.organization_id "employeeCreationAudits" names.audit in
      >>=-elim (check_employee db now registry key sha256_hex i s) _ h λ _ _ h1.
        >>=-elim (create db now _ _ s s) _ h1 λ w0 _ h2.
          >>=-elim (create db now place _ s w0) _ h2 λ w1 created h3.
            >>=-elim (create db now audits _ s w1) _ h3 λ w2 audited h4.
              >>=-elim (write_device db now registry key sha256_hex i names uid s i.device_id w2) _
                h4
                λ w3 written last.
                  exists-data db now r.1 place _
                    (code_fields db now registry key sha256_hex i names.employee) refl
                    (ap (λ x. data_of (db.document x.1 place)) (sym (ok-injective last))
                      ∙ ap data_of (
                          write_device-codes i names uid s i.device_id w2 w3 place refl written
                          ∙ create-other db now audits place _ s w1 w2 audited
                              (other_collection audits place refl))
                      ∙ create-data db now place _ s w0 w1 created)

  -- Where the code is taken, the tests of a transaction fail.
  taken :
      (i : CreateEmployee) (s : S) (u : Unit {0})
      → exists db now s (code_place db now registry key sha256_hex i) ≡ true
      → ¬ (check_employee db now registry key sha256_hex i s ≡ ok u)
  unfolding check_employee
  taken i s u there h =
      let place = code_place db now registry key sha256_hex i in
      >>=-elim (check_creation_limit db now s i.organization_id employees _) _ h λ _ _ h1.
        throw_if-elim (exists db now s place)
          (already_exists "That employee code is already in use") _ h1 λ free _. cc

  -- After an employee was created, nobody can create another of the organization with a code that is
  -- the same but for the case of its letters, of ASCII.
  pub create_employee_unique :
      (auth auth' : AuthContext) (i j : CreateEmployee) (names names' : NewNames) (s : S)
      (answer other : CreatedEmployee)
      → (create_employee db now registry key sha256_hex auth (some i) names s).0 ≡ ok answer
      → j.organization_id ≡ i.organization_id
      → IsSameButCase (codes j.employee_code) (codes i.employee_code)
      → ¬ (
          (create_employee db now registry key sha256_hex auth'
            (some j)
            names'
            (create_employee db now registry key sha256_hex auth (some i) names s).1).0
          ≡ ok other)
  unfolding create_employee write_employee
  create_employee_unique auth auth' i j names names' s answer other h same_o same_c again =
      let (after, run, kept) = committing-ok s _ answer h in
      let (after', run', _) =
        committing-ok (create_employee db now registry key sha256_hex auth (some i) names s).1 _
          other again in
      >>=-elim (require_manager db now s auth i.organization_id) _ run λ _ _ h1.
        >>=-elim (require_manager db now _ auth' j.organization_id) _ run' λ _ _ h2.
          >>=-elim (check_employee db now registry key sha256_hex j _) _ h2 λ u checked _.
            let same_key =
              employee_code_key-IsSameButCase sha256_hex j.employee_code i.employee_code same_c in
            taken j _ u
              (rw (same_o, same_key, kept)
                (write_employee-exists i names auth.uid s (answer, after) h1))
              checked
