-- ===== src/Recalculation/Jobs/Pages.antt =====
-- The jobs of cloud/functions/src/attendance/recalculation-jobs.ts that make other jobs: one for each
-- assignment of a shift, and one for each employee of the organization or of a branch.
use attendence_system.Prelude.{
  ℕ, Bool, not, List, [], ◌∷◌, Option, none, some, String, ltb, length, last?, get_or,
  if◌then◌else◌,
}
use attendence_system.Prelude.Result.{Result, err}
use attendence_system.Prelude.Text.{str_le, append}
use attendence_system.Documents.{
  Value, null, text, timestamp, Fields, no_fields, entry, get, as_text, Document, Condition,
  text_is, Place, Database,
}
use attendence_system.Recalculation.Jobs.{
  JobError, invalid_fields, increased, nonempty_of, done, current, page,
}

-- `s > t` and `s < t` on texts
abbrev pub str_lt : String → String → Bool
str_lt s t = not (str_le t s)

-- The dates of a child of a shift policy job: from the later start to the earlier end.
unfoldable pub child_range : String → String → String → Option String → Option (String × String)
child_range from_date to_date effective_from effective_to =
    let start = if str_lt from_date effective_from then effective_from else from_date in
    let assignment_end = get_or effective_to to_date in
    let end = if str_lt assignment_end to_date then assignment_end else to_date in
    if str_lt end start then none else some (start, end)

abbrev pub child_fields : ℕ → String → String → String → String → Fields
child_fields now parent employee start end = entry "type" (text "employee_date_range") (
    entry "parentJobId" (text parent) (
      entry "employeeId" (text employee) (
        entry "startDate" (text start) (
          entry "endDate" (text end) (
            entry "cursorDate" (text start) (
              entry "state" (text "pending") (
                entry "createdAt" (timestamp now)
                  (entry "createdBy" (text "system") no_fields))))))))

abbrev pub child_place : Place → String → Place
child_place job name = record {
  organization = job.organization;
  collection = "recalculationJobs";
  name = append job.name (append "_" name);
}

-- The name that the next page starts after, if the page is full.
abbrev pub next_page : ℕ → List Document → Option Document
next_page size docs = if ltb (length docs) size then none else last? docs

module _ {S : Type 0} (db : Database S) (now : ℕ) where
  -- `batch.update(job.ref, …)` of a job that goes through a collection page by page
  abbrev pub paged : String → String → ℕ → Value → Option Document → Fields
  paged cursor counter n count none =
      entry "state" (text "completed")
        (entry counter (increased count n) (entry "completedAt" (timestamp now) no_fields))
  paged cursor counter n count (some last) = entry "state" (text "pending") (
      entry cursor (text last.id)
        (entry counter (increased count n) (entry "updatedAt" (timestamp now) no_fields)))

  abbrev policy_child : Place → String → String → Document → Option String → Option String → S → S
  policy_child job from_date to_date doc (some employee) (some effective_from) s =
      write_child
        (child_range from_date to_date effective_from (as_text (get doc.fields "effectiveTo")))
    where
      write_child : Option (String × String) → S
      write_child none = s
      write_child (some (start, end)) =
          db.write (child_place job doc.id) (child_fields now job.name employee start end) s
  policy_child job from_date to_date doc _ _ s = s

  unfoldable pub policy_children : Place → String → String → List Document → S → S
  unfolding child_range
  policy_children job from_date to_date [] s = s
  policy_children job from_date to_date (doc ∷ docs) s =
      policy_children job from_date to_date docs (
        policy_child job from_date to_date doc (as_text (get doc.fields "employeeId"))
          (as_text (get doc.fields "effectiveFrom")) s)

  abbrev policy_of :
      Place
      → Fields
      → Option String
      → Option String
      → Option String
      → S
      → Result JobError (Unit {0}) × S
  policy_of job d (some shift) (some from_date) (some to_date) s =
      let docs =
        page db job "shiftAssignments" (text_is "shiftId" shift ∷ [])
          (nonempty_of (get d "cursorAssignmentId")) 100 s in
      done (
        db.merge job
          (paged "cursorAssignmentId" "processedAssignments" (length docs)
            (current db s job "processedAssignments") (next_page 100 docs))
          (policy_children job from_date to_date docs s))
  policy_of job d _ _ _ s = (err invalid_fields, s)

  unfoldable pub process_shift_policy : Place → Fields → S → Result JobError (Unit {0}) × S
  unfolding policy_children
  process_shift_policy job d s =
      policy_of job d (as_text (get d "shiftId")) (as_text (get d "fromDate"))
        (as_text (get d "toDate")) s

  -- `branchId`: a text or null
  abbrev branch_of : Value → Option (List Condition)
  branch_of null = some []
  branch_of (text b) = some (text_is "branchId" b ∷ [])
  branch_of _ = none

  unfoldable pub organization_children : Place → String → String → List Document → S → S
  organization_children job start end [] s = s
  organization_children job start end (doc ∷ docs) s =
      organization_children job start end docs
        (db.write (child_place job doc.id) (child_fields now job.name doc.id start end) s)

  abbrev organization_of :
      Place
      → Fields
      → Option String
      → Option String
      → Option (List Condition)
      → S
      → Result JobError (Unit {0}) × S
  organization_of job d (some start) (some end) (some conditions) s =
      let docs =
        page db job "employees" conditions (nonempty_of (get d "cursorEmployeeId")) 100 s in
      done (
        db.merge job
          (paged "cursorEmployeeId" "processedEmployees" (length docs)
            (current db s job "processedEmployees") (next_page 100 docs))
          (organization_children job start end docs s))
  organization_of job d _ _ _ s = (err invalid_fields, s)

  unfoldable pub process_organization_date_range :
      Place → Fields → S → Result JobError (Unit {0}) × S
  unfolding organization_children
  process_organization_date_range job d s =
      organization_of job d (as_text (get d "startDate")) (as_text (get d "endDate"))
        (branch_of (get d "branchId")) s
