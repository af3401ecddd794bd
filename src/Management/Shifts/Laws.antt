-- ===== src/Management/Shifts/Laws.antt =====
-- A shift that was saved reads as it was entered.
use attendence_system.Prelude.{
  ℕ, ◌≡◌, refl, sym, ap, ◌∙◌, false, List, [], ◌∷◌, map, Option, none, some, String, get_or,
}
use attendence_system.Prelude.Result.{ok, >>=-elim, ok-injective}
use attendence_system.Prelude.Text.{is_empty}
use attendence_system.Attendance.Types.{
  whole, ShiftDefinition, LateCalculationMode, from_shift_start, after_grace, PunchMode, first_last,
  explicit_status, OvertimeRoundingMode, no_rounding, floor, nearest, ceil,
}
use attendence_system.Documents.{
  Value, text, Fields, get, Document, other_collection, data_of, Database,
}
use attendence_system.Recalculation.Fields.{
  late_mode_of, punch_mode_of, rounding_mode_of, working_days_of, required_string, integer,
  boolean_field, parse_policies, parse_terms, parse_minutes, parse_overtime, parse_shift,
}
use attendence_system.Management.Shifts.{
  SaveShift, late_mode_text, punch_mode_text, rounding_mode_text, days_value, set_of_days,
  shift_data, shift_place, write_shift, save_shift, creation_fields, shift_audit, shift_job,
  organization_today,
}
use attendence_system.Management.Access.Laws.{create-other}
use attendence_system.Management.Access.{
  create, AuthContext, in_collection, committing-ok, require_authentication, require_manager,
}

-- The shift that the input describes.
abbrev pub shift_of : SaveShift → ShiftDefinition
shift_of i = record {
  id = i.shift_id;
  name = i.name;
  start_time = i.start_time;
  end_time = i.end_time;
  working_days = map whole (set_of_days i.working_days);
  grace_period_minutes = whole i.grace_period_minutes;
  late_calculation_mode = i.late_calculation_mode;
  break_minutes = whole i.break_minutes;
  punch_mode = i.punch_mode;
  early_arrival_window_minutes = none;
  late_departure_window_minutes = none;
  early_leave_grace_minutes = whole i.early_leave_grace_minutes;
  overtime = record {
    enabled = i.overtime_enabled;
    start_delay_minutes = whole i.overtime_start_delay_minutes;
    minimum_minutes = whole i.overtime_minimum_minutes;
    rounding_minutes = whole i.overtime_rounding_minutes;
    rounding_mode = i.overtime_rounding_mode;
  };
}

late_mode_of-text : (m : LateCalculationMode) → late_mode_of (text (late_mode_text m)) ≡ some m
late_mode_of-text from_shift_start = refl
late_mode_of-text after_grace = refl

punch_mode_of-text : (m : PunchMode) → punch_mode_of (text (punch_mode_text m)) ≡ some m
punch_mode_of-text first_last = refl
punch_mode_of-text explicit_status = refl

rounding_mode_of-text :
    (m : OvertimeRoundingMode) → rounding_mode_of (text (rounding_mode_text m)) ≡ some m
rounding_mode_of-text no_rounding = refl
rounding_mode_of-text floor = refl
rounding_mode_of-text nearest = refl
rounding_mode_of-text ceil = refl

working_days_of-days_value :
    (path : String) (ds : List ℕ) → working_days_of path (days_value ds) ≡ ok (map whole ds)
working_days_of-days_value path [] = refl
working_days_of-days_value path (d ∷ ds) = rw (working_days_of-days_value path ds) refl

-- The document of a shift, as the input left it.
parse_shift-shift_data :
    (path : String) (doc : Document) (i : SaveShift) (now : ℕ) (uid : String) (rest : Fields)
    → doc.fields ≡ shift_data i now uid rest
    → doc.id ≡ i.shift_id
    → get rest "earlyArrivalWindowMinutes" ≡ Value.missing
    → get rest "lateDepartureWindowMinutes" ≡ Value.missing
    → is_empty i.name ≡ false
    → is_empty i.start_time ≡ false
    → is_empty i.end_time ≡ false
    → parse_shift path (some doc) ≡ ok (shift_of i)
unfolding shift_data parse_shift parse_policies parse_terms parse_minutes parse_overtime
    required_string integer boolean_field
parse_shift-shift_data path doc i now uid rest e same early late n0 n1 n2 =
    rw
      (
        e,
        same,
        late_mode_of-text i.late_calculation_mode,
        punch_mode_of-text i.punch_mode,
        rounding_mode_of-text i.overtime_rounding_mode,
        n0,
        n1,
        n2,
        working_days_of-days_value path (set_of_days i.working_days),
        early,
        late,
      )
      refl

some-injective {ℓ} : {A : Type ℓ} {a b : A} → ◌≡◌ {A = Option A} (some a) (some b) → a ≡ b
some-injective {a} h = ap (λ o. get_or o a) h

module _ {S : Type 0} (db : Database S) (now : ℕ) where
  write_shift-document :
      (i : SaveShift) (uid audit job today : String) (s : S) (r : String × S)
      → write_shift db now i uid audit job today s ≡ ok r
      → db.document s (shift_place db now i.organization_id i.shift_id) ≡ none
      → data_of (db.document r.1 (shift_place db now i.organization_id i.shift_id))
        ≡ some (shift_data i now uid (creation_fields none now uid))
  unfolding write_shift
  write_shift-document i uid audit job today s r h fresh =
      let place = shift_place db now i.organization_id i.shift_id in
      let audits = in_collection db now i.organization_id "shiftChangeAudits" audit in
      let jobs = in_collection db now i.organization_id "recalculationJobs" job in
      let previous = db.document s place in
      let w0 = db.merge place (shift_data i now uid (creation_fields previous now uid)) s in
      >>=-elim (create db now audits (shift_audit db now i uid previous) s w0) _ h λ w1 h1 rest.
        >>=-elim (create db now jobs (shift_job db now i uid today) s w1) _ rest λ w2 h2 last.
          ap (λ x. data_of (db.document x.1 place)) (sym (ok-injective last))
          ∙ ap data_of
              (create-other db now jobs place _ s w1 w2 h2 (other_collection jobs place refl))
          ∙ ap data_of
              (create-other db now audits place _ s w0 w1 h1 (other_collection audits place refl))
          ∙ db.merge_new s place _ fresh
          ∙ ap (λ o. some (shift_data i now uid (creation_fields o now uid))) fresh

  parse_shift-document :
      (i : SaveShift) (uid path : String) (s : S) (o : Option Document)
      → db.document s (shift_place db now i.organization_id i.shift_id) ≡ o
      → data_of o ≡ some (shift_data i now uid (creation_fields none now uid))
      → is_empty i.name ≡ false
      → is_empty i.start_time ≡ false
      → is_empty i.end_time ≡ false
      → parse_shift path o ≡ ok (shift_of i)
  parse_shift-document i uid path s none e h n0 n1 n2 = cc
  parse_shift-document i uid path s (some d) e h n0 n1 n2 =
      parse_shift-shift_data path d i now uid (creation_fields none now uid) (some-injective h)
        (db.document_id s _ d e) refl refl n0 n1 n2

  -- A new shift that is saved reads back as the shift that was entered: its fields are those of the
  -- input, with the days as a sorted set, where the texts that the schema requires are not empty.
  pub save_shift-parse_shift :
      (caller : Option AuthContext) (i : SaveShift) (audit job : String) (today : String → String)
      (s : S) (answer path : String)
      → (save_shift db now caller (some i) audit job today s).0 ≡ ok answer
      → db.document s (shift_place db now i.organization_id i.shift_id) ≡ none
      → is_empty i.name ≡ false
      → is_empty i.start_time ≡ false
      → is_empty i.end_time ≡ false
      → parse_shift path (
          db.document
            (save_shift db now caller (some i) audit job today s).1
            (shift_place db now i.organization_id i.shift_id))
        ≡ ok (shift_of i)
  unfolding save_shift
  save_shift-parse_shift caller i audit job today s answer path h fresh n0 n1 n2 =
      let (after, run, e) = committing-ok s _ answer h in
      >>=-elim (require_authentication caller) _ run λ auth _ h1.
        >>=-elim (require_manager db now s auth i.organization_id) _ h1 λ granted _ h2.
          >>=-elim (organization_today db now s today i.organization_id) _ h2 λ date _ h3.
            let written =
              write_shift-document i auth.uid audit job date s (answer, after) h3 fresh in
            ap
              (λ x.
                parse_shift path (db.document x (shift_place db now i.organization_id i.shift_id)))
              e
            ∙ parse_shift-document i auth.uid path after _ refl written n0 n1 n2
