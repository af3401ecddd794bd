-- ===== src/Ingest/Classify/Laws.antt =====
-- What classification does to a batch.
use mathlib.Core.Path.{subst}
use mathlib.Core.List.{Perm, perm_middle}
use mathlib.Core.List.Perm
use attendence_system.Prelude.{
  ◌≤◌, ◌≡◌, refl, sym, true, false, not, ◌||◌, List, [], ◌∷◌, ◌++◌, map, Option, none, some, String,
  arith, ltb, All, get_or, Bool-cases, Option-cases, inl, inr, not-eq_false,
}
use attendence_system.Prelude.Result.{ok, >>=-elim, guard-elim, ok-injective}
use attendence_system.Prelude.Text.{str_eq, str_eq_sound, includes}
use attendence_system.Ingest.Types.{NormalizedEvent, RawEvent, RejectedEvent, max_raw_event_bytes}
use attendence_system.Ingest.Classify.{
  Accepted, Classified, accept, refuse, judge, reject, add_verdict, classify_from, classify_events,
  is_event_id,
}

abbrev pub id_of : RawEvent → String
id_of v = get_or v.candidate_id ""

abbrev pub verdicts : Classified → List String
verdicts c =
    map (λ (e : NormalizedEvent). e.id) c.valid ++ map (λ (r : RejectedEvent). r.id) c.rejected

-- `safeParse` returns the fields that it was given: a parsed event keeps its id.
abbrev pub HasId : Option NormalizedEvent → String → Type 0
HasId none id = Unit
HasId (some e) id = e.id ≡ id

abbrev pub KeepsId : RawEvent → Type 0
KeepsId v = HasId v.parsed (id_of v)

keeps_id :
    (o : Option NormalizedEvent) (id : String) (e : NormalizedEvent)
    → HasId o id
    → o ≡ some e
    → e.id ≡ id
keeps_id none id e h p = cc
keeps_id (some a) id e h p = subst (λ o. HasId o id) p h

-- What a valid event satisfies.
abbrev pub IsAcceptable : Accepted → String → NormalizedEvent → Type 0
IsAcceptable range device e =
    (e.device_id ≡ device) × (range.earliest ≤ e.event_time) × (e.event_time ≤ range.latest)

abbrev pub NoneSeen : List String → List RawEvent → Type 0
NoneSeen seen [] = Unit
NoneSeen seen (v ∷ vs) =
    (is_event_id (id_of v) ≡ true)
    × (includes seen (id_of v) ≡ false)
    × NoneSeen (id_of v ∷ seen) vs

data Judged (range : Accepted) (device id : String) (v : RawEvent) : Type 0 where
  accepted :
      (e : NormalizedEvent)
      → v.parsed ≡ some e
      → judge range device id v ≡ accept e
      → IsAcceptable range device e
      → Judged range device id v
  refused :
      (r : RejectedEvent)
      → judge range device id v ≡ refuse r
      → r.id ≡ id
      → Judged range device id v

judge-cases : (range : Accepted) (device id : String) (v : RawEvent) → Judged range device id v
unfolding judge
judge-cases range device id v = elim (Option-cases v.parsed) [
  | inl p ↦ refused (reject id "invalid_event" "Event fields are malformed") (rw (p)) refl
  | inr (e, p) ↦ elim (Bool-cases (not (str_eq e.device_id device))) [
    | inl a ↦
        refused (reject id "cross_device_event" "Event device does not match authenticated bridge")
          (rw (p, a)) refl
    | inr a ↦ elim (Bool-cases (ltb max_raw_event_bytes v.raw_bytes)) [
      | inl b ↦
          refused (reject id "raw_payload_too_large" "Raw event exceeds the size limit")
            (rw (p, a, b)) refl
      | inr b ↦
          elim (Bool-cases (ltb e.event_time range.earliest || ltb range.latest e.event_time)) [
            | inl c ↦
                refused
                  (reject id "event_time_out_of_range" "Event time is outside the accepted range")
                  (rw (p, a, b, c)) refl
            | inr c ↦
                accepted e p (rw (p, a, b, c))
                  (str_eq_sound _ _ (not-eq_false _ a), ground arith, ground arith)
          ]
    ]
  ]
]

judge-id :
    (range : Accepted) (device : String) (v : RawEvent) (c : Classified)
    → KeepsId v
    → Perm (verdicts (add_verdict (judge range device (id_of v) v) c)) (id_of v ∷ verdicts c)
judge-id range device v c keeps = elim (judge-cases range device (id_of v) v) [
  | accepted e p j h ↦
      rw (j, keeps_id v.parsed (id_of v) e keeps p) (Perm.refl (id_of v ∷ verdicts c))
  | refused r j h ↦
      rw (j, sym h)
        (perm_middle (map (λ (e : NormalizedEvent). e.id) c.valid)
          (map (λ (r : RejectedEvent). r.id) c.rejected))
]

judge-IsAcceptable :
    (range : Accepted) (device : String) (v : RawEvent) (c : Classified)
    → All (IsAcceptable range device) c.valid
    → All (IsAcceptable range device) (add_verdict (judge range device (id_of v) v) c).valid
judge-IsAcceptable range device v c h = elim (judge-cases range device (id_of v) v) [
  | accepted e p j k ↦ rw (j) (k, h)
  | refused r j k ↦ rw (j) h
]

classify_from-lem :
    (range : Accepted) (device : String) (seen : List String) (values : List RawEvent)
    (c : Classified)
    → All KeepsId values
    → classify_from range device seen values ≡ ok c
    → NoneSeen seen values
      × Perm (verdicts c) (map id_of values)
      × All (IsAcceptable range device) c.valid
unfolding classify_from
classify_from-lem range device seen [] c keeps e =
    subst (λ c. Unit × Perm (verdicts c) [] × All (IsAcceptable range device) c.valid)
      (ok-injective e) (tt, Perm.refl [], tt)
classify_from-lem range device seen (v ∷ vs) c keeps e =
    let id = id_of v in
    guard-elim (not (is_event_id id)) _ _ e λ a f. guard-elim (includes seen id) _ _ f λ b g.
      >>=-elim (classify_from range device (id ∷ seen) vs) _ g λ rest h i.
        let (none_seen, ids, good) = classify_from-lem range device (id ∷ seen) vs rest keeps.1 h in
        subst
          (λ c.
            NoneSeen seen (v ∷ vs)
            × Perm (verdicts c) (id ∷ map id_of vs)
            × All (IsAcceptable range device) c.valid)
          (ok-injective i)
          (
            (not-eq_false _ a, b, none_seen),
            Perm.trans (judge-id range device v rest keeps.0) (Perm.cons id ids),
            judge-IsAcceptable range device v rest good,
          )

-- A batch that is classified at all has good ids that are all different; each of its events is then
-- either valid or rejected, once and under its own id; and every valid event is the authenticated
-- device's, at a time inside the accepted range. An event that the schema accepts is taken to keep
-- its id.
pub classify_events-partition :
    (range : Accepted) (device : String) (values : List RawEvent) (c : Classified)
    → All KeepsId values
    → classify_events range values device ≡ ok c
    → NoneSeen [] values
      × Perm (verdicts c) (map id_of values)
      × All (IsAcceptable range device) c.valid
unfolding classify_events
classify_events-partition range device values c keeps e =
    classify_from-lem range device [] values c keeps e
