-- ===== src/Management/Employees/Locked.antt =====
-- A terminal enrolls one fingerprint at a time.
use attendence_system.Prelude.{
  ℕ, ◌<◌, ◌+◌, ◌/◌, ◌≡◌, refl, sym, ap, ◌∙◌, Bool, true, false, not, arith, Option, none, some,
  String,
}
use attendence_system.Prelude.Result.{
  ok, err, Result, ◌>>=◌, ◌>>◌, >>=-elim, throw_if-elim, throw_if-ok, ok-injective,
}
use attendence_system.Documents.{
  data_of, Fields, timestamp, get, field_of, is_text, Document, other_collection, Database,
}
use attendence_system.Ingest.Repository.{KeyHash}
use attendence_system.Management.Access.{
  CallError, AuthContext, require_manager, in_collection, create, committing, committing-ok,
}
use attendence_system.Management.Employees.{other-device_collection, is_usable, later_by}
use attendence_system.Management.Employees.Department.{employee_place}
use attendence_system.Management.Employees.Enrollment.{
  RequestEnrollment, QueuedEnrollment, Enrolled, is_live, lock_place, lock_fields, enrolled,
  check_terminal, write_queued, write_enrollment, queued_answer, queue_for,
  queue_fingerprint_enrollment,
}

-- The lock runs out after five minutes.
live_lock :
    (now later : ℕ)
    → later / 1_000_000 < now / 1_000_000 + 300_000
    → is_live later (timestamp (later_by 300_000 now)) ≡ true
live_lock now later h = ground arith

field-data :
    (o : Option Document) (f : Fields) (name : String)
    → data_of o ≡ some f
    → field_of o name ≡ get f name
field-data none f name h = cc
field-data (some d) f name h = ap (λ o. elim o [ none ↦ get d.fields name | some g ↦ get g name ]) h

module _ {S : Type 0} (db : Database S) (registry : S → String → Option Document) (key : KeyHash)
    (is_code : String → Bool) where
  write_queued-lock :
      (now : ℕ) (i : RequestEnrollment) (e : Enrolled) (uid command : String) (s : S)
      (r : String × S)
      → write_queued db now registry key is_code i e uid command s ≡ ok r
      → field_of (db.document r.1 (lock_place db now registry key is_code i)) "expiresAt"
        ≡ timestamp (later_by 300_000 now)
  unfolding write_queued
  write_queued-lock now i e uid command s r h =
      let place = lock_place db now registry key is_code i in
      let enrollment =
        in_collection db now i.organization_id "deviceEnrollments"
          (key i.device_id e.employee_no) in
      let lock = lock_fields now i command in
      >>=-elim (create db now _ _ s _) _ h λ w1 created last.
        field-data (db.document r.1 place) lock "expiresAt" (
          ap (λ x. data_of (db.document x.1 place)) (sym (ok-injective last))
          ∙ ap data_of (
              db.merge_other (db.write place lock w1) enrollment place _ (
                other_collection enrollment place
                  (other-device_collection i.device_id "commandLocks" "deviceEnrollments" refl)))
          ∙ db.document_write w1 place lock)

  write_enrollment-lock :
      (now : ℕ) (i : RequestEnrollment) (uid command : String) (s : S) (r : String × S)
      → write_enrollment db now registry key is_code i uid command s ≡ ok r
      → field_of (db.document r.1 (lock_place db now registry key is_code i)) "expiresAt"
        ≡ timestamp (later_by 300_000 now)
  unfolding write_enrollment
  write_enrollment-lock now i uid command s r h =
      let employee = db.document s (employee_place db now i.organization_id i.employee_id) in
      >>=-elim (enrolled db now registry key is_code employee)
        (λ e.
          check_terminal db now registry key is_code i e s
          >> write_queued db now registry key is_code i e uid command s)
        h
        λ e _ h1.
          >>=-elim (check_terminal db now registry key is_code i e s) _ h1
            λ _ _ h2. write_queued-lock now i e uid command s r h2

  -- An enrollment that gets through found no lock that is live.
  write_enrollment-free :
      (now : ℕ) (i : RequestEnrollment) (uid command : String) (s : S) (r : String × S)
      → write_enrollment db now registry key is_code i uid command s ≡ ok r
      → is_live now
          (field_of (db.document s (lock_place db now registry key is_code i)) "expiresAt")
        ≡ false
  unfolding write_enrollment check_terminal
  write_enrollment-free now i uid command s r h =
      let employee = db.document s (employee_place db now i.organization_id i.employee_id) in
      >>=-elim (enrolled db now registry key is_code employee)
        (λ e.
          check_terminal db now registry key is_code i e s
          >> write_queued db now registry key is_code i e uid command s)
        h
        λ e _ h1.
          >>=-elim (check_terminal db now registry key is_code i e s)
            (λ _. write_queued db now registry key is_code i e uid command s) h1
            λ u checked _.
              throw_if-elim (not (is_usable i.organization_id (registry s i.device_id))) _ _ checked
                λ _ h2.
                  throw_if-elim (not (is_text _ e.branch_id)) _ _ h2 λ _ h3. throw_if-ok _ _ h3

  queued_answer-ok :
      (i : RequestEnrollment) (command : String) (x : Result CallError String)
      (a : QueuedEnrollment)
      → queued_answer db 0 registry key is_code i command x ≡ ok a
      → (name : String) × (x ≡ ok name)
  queued_answer-ok i command (err e) a h = cc
  queued_answer-ok i command (ok name) a h = (name, refl)

  -- What an enrollment that is queued went through.
  queue_for-ok :
      (now : ℕ) (auth : AuthContext) (i : RequestEnrollment) (command : String) (s : S)
      (answer : QueuedEnrollment)
      → (queue_for db now registry key is_code auth i command s).0 ≡ ok answer
      → (r : String × S) × (write_enrollment db now registry key is_code i auth.uid command s
          ≡ ok r)
        × ((queue_for db now registry key is_code auth i command s).1 ≡ r.1)
  unfolding queue_for
  queue_for-ok now auth i command s answer h =
      let checked = require_manager db now s auth i.organization_id >>= λ granted.
      write_enrollment db now registry key is_code i auth.uid command s in
      let (name, e) = queued_answer-ok i command (committing s checked).0 answer h in
      let (after, run, kept) = committing-ok s checked name e in
      >>=-elim (require_manager db now s auth i.organization_id) _ run
        λ _ _ h1. ((name, after), h1, kept)

  -- After an enrollment was queued, and for five minutes, no other is queued for that terminal by any
  -- caller, in any store in which the terminal's lock document is as the enrollment left it.
  pub queue_fingerprint_enrollment-exclusive :
      (now later : ℕ) (auth auth' : AuthContext) (i j : RequestEnrollment)
      (command command' : String) (s t : S) (answer other : QueuedEnrollment)
      → (queue_fingerprint_enrollment db now registry key is_code auth (some i) command s).0
        ≡ ok answer
      → db.document t (lock_place db now registry key is_code i)
        ≡ db.document
            (queue_fingerprint_enrollment db now registry key is_code auth (some i) command s).1
            (lock_place db now registry key is_code i)
      → j.organization_id ≡ i.organization_id
      → j.device_id ≡ i.device_id
      → later / 1_000_000 < now / 1_000_000 + 300_000
      → ¬ (
          (queue_fingerprint_enrollment db later registry key is_code auth' (some j) command' t).0
          ≡ ok other)
  unfolding queue_fingerprint_enrollment
  queue_fingerprint_enrollment-exclusive now later auth auth' i j command command' s t answer other
        h same_lock same_o same_d soon again =
      let (r, written, kept) = queue_for-ok now auth i command s answer h in
      let (r', written', _) = queue_for-ok later auth' j command' t other again in
      let free = write_enrollment-free later j auth'.uid command' t r' written' in
      let locked = write_enrollment-lock now i auth.uid command s r written in
      let busy = live_lock now later soon in
      let place : lock_place db later registry key is_code j
          ≡ lock_place db now registry key is_code i =
        rw (same_o, same_d) refl in
      let here =
        ap (λ p. field_of (db.document t p) "expiresAt") place
        ∙ ap (λ o. field_of o "expiresAt") same_lock
        ∙ ap (λ x. field_of (db.document x (lock_place db now registry key is_code i)) "expiresAt")
            kept
        ∙ locked in
      let clash = sym (ap (is_live later) here ∙ busy) ∙ free in cc
