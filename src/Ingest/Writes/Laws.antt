-- ===== src/Ingest/Writes/Laws.antt =====
-- What the loop over a batch leaves: each event stored and reported, nothing overwritten.
use mathlib.Core.Path.{subst, ◌∙◌}
use mathlib.Core.List.{Perm, perm_middle, append_assoc, append-nil}
use mathlib.Core.List.Perm
use attendence_system.Prelude.{
  ◌≡◌, refl, sym, ap, true, false, List, [], ◌∷◌, ◌++◌, map, Option, none, some, String, is_some,
  get_or, All, if-elim, Bool-cases, inl, inr,
}
use attendence_system.Prelude.Result.{ok, >>=-elim, guard-elim, ok-injective}
use attendence_system.Prelude.Text.{str_eq, str_eq_sound, str_eq_refl}
use attendence_system.Ingest.Types.{DeviceRegistration, NormalizedEvent, EventWriteContext}
use attendence_system.Ingest.Repository.{Store, EventDoc, KeyHash}
use attendence_system.Ingest.Writes.{
  set_in, Progress, UnmappedAggregate, mapped_employee, event_document, create_event,
  count_unmapped, write_one, write_fresh, write_each,
}

abbrev pub event_id : NormalizedEvent → String
event_id e = e.id

abbrev Collection : Type 0
Collection = String → String → Option EventDoc

set_in-same : (f : Collection) (o n : String) (v : Option EventDoc) → set_in f o n v o n ≡ v
set_in-same f o n v = rw (str_eq_refl o, str_eq_refl n) refl

set_in-kept :
    (f : Collection) (o n p i : String) (v : Option EventDoc) (d : EventDoc)
    → is_some (f o n) ≡ false
    → f p i ≡ some d
    → set_in f o n v p i ≡ some d
set_in-kept f o n p i v d free h = elim (Bool-cases (str_eq p o)) [
  | inr a ↦ rw (a) h
  | inl a ↦ elim (Bool-cases (str_eq i n)) [
    | inr b ↦ let g = subst (λ o. f o i ≡ some d) (str_eq_sound _ _ a) h in rw (a, b) g
    | inl b ↦
        let g = subst (λ o. f o i ≡ some d) (str_eq_sound _ _ a) h in
        let k = subst (λ i. f o i ≡ some d) (str_eq_sound _ _ b) g in let j = ap is_some k in cc
  ]
]

push_left : (x : String) (xs ys : List String) → Perm ((xs ++ (x ∷ [])) ++ ys) (x ∷ (xs ++ ys))
push_left x [] ys = Perm.refl _
push_left x (z ∷ xs) ys = Perm.trans (Perm.cons z (push_left x xs ys)) (Perm.swap x z (xs ++ ys))

push_right : (x : String) (xs ys : List String) → Perm (xs ++ (ys ++ (x ∷ []))) (x ∷ (xs ++ ys))
push_right x [] [] = Perm.refl _
push_right x [] (z ∷ ys) = Perm.trans (Perm.cons z (push_right x [] ys)) (Perm.swap x z ys)
push_right x (z ∷ xs) ys = Perm.trans (Perm.cons z (push_right x xs ys)) (Perm.swap x z (xs ++ ys))

module _ (key : KeyHash) (reg : DeviceRegistration) (c : EventWriteContext) where
  abbrev pub Stored : Store → NormalizedEvent → Type 0
  Stored s e = is_some (s.attendance_events reg.organization_id e.id) ≡ true

  abbrev created : Store → NormalizedEvent → EventDoc → Store
  created w e doc = record w {
    attendance_events = set_in w.attendance_events reg.organization_id e.id (some doc);
  }

  data Written (s : Store) (e : NormalizedEvent) (p q : Progress) : Type 0 where
    repeated :
        is_some (s.attendance_events reg.organization_id e.id) ≡ true
        → record p { duplicates = p.duplicates ++ (e.id ∷ []) } ≡ q
        → Written s e p q
    fresh :
        (doc : EventDoc) (aggregates : List (String × UnmappedAggregate))
        → is_some (p.store.attendance_events reg.organization_id e.id) ≡ false
        → record {
          store = created p.store e doc;
          accepted = p.accepted ++ (e.id ∷ []);
          duplicates = p.duplicates;
          aggregates = aggregates;
        }
          ≡ q
        → Written s e p q

  write_one-Written :
      (s : Store) (e : NormalizedEvent) (p q : Progress)
      → write_one key reg c s e p ≡ ok q
      → Written s e p q
  unfolding write_one
  write_one-Written s e p q h =
      if-elim (is_some (s.attendance_events reg.organization_id e.id)) _
        (write_fresh key reg c s e p) h (λ a g. repeated a (ok-injective g))
        (λ a g.
          let employee = mapped_employee key s reg (get_or e.employee_no "") in
          let doc = event_document reg e c employee in
          let made : Store → Progress = λ w. record {
            store = w;
            accepted = p.accepted ++ (e.id ∷ []);
            duplicates = p.duplicates;
            aggregates = count_unmapped key reg e employee p.aggregates;
          } in
          >>=-elim (create_event reg e doc p.store) (λ w. ok (made w)) g
            λ w f k.
              guard-elim (is_some (p.store.attendance_events reg.organization_id e.id)) _ _ f
                λ b m. fresh doc _ b (ap made (ok-injective m) ∙ ok-injective k))

  -- What is stored stays as it is.
  write_one-kept :
      (s : Store) (e : NormalizedEvent) (p q : Progress) (o i : String) (d : EventDoc)
      → write_one key reg c s e p ≡ ok q
      → p.store.attendance_events o i ≡ some d
      → q.store.attendance_events o i ≡ some d
  write_one-kept s e p q o i d h k = elim (write_one-Written s e p q h) [
    | repeated a f ↦ subst (λ (q : Progress). q.store.attendance_events o i ≡ some d) f k
    | fresh doc aggregates b f ↦
        subst (λ (q : Progress). q.store.attendance_events o i ≡ some d) f
          (set_in-kept p.store.attendance_events reg.organization_id e.id o i (some doc) d b k)
  ]

  pub write_each-kept :
      (s : Store) (es : List NormalizedEvent) (p q : Progress) (o i : String) (d : EventDoc)
      → write_each key reg c s es p ≡ ok q
      → p.store.attendance_events o i ≡ some d
      → q.store.attendance_events o i ≡ some d
  unfolding write_each
  write_each-kept s [] p q o i d h k =
      subst (λ (q : Progress). q.store.attendance_events o i ≡ some d) (ok-injective h) k
  write_each-kept s (e ∷ es) p q o i d h k =
      >>=-elim (write_one key reg c s e p) (λ r. write_each key reg c s es r) h
        λ r f g. write_each-kept s es r q o i d g (write_one-kept s e p r o i d f k)

  -- Each event is accepted or a duplicate, once.
  abbrev pub reported : Progress → List String
  reported p = p.accepted ++ p.duplicates

  write_one-reported :
      (s : Store) (e : NormalizedEvent) (p q : Progress)
      → write_one key reg c s e p ≡ ok q
      → Perm (reported q) (e.id ∷ reported p)
  write_one-reported s e p q h = elim (write_one-Written s e p q h) [
    | repeated a f ↦
        subst (λ q. Perm (reported q) (e.id ∷ reported p)) f
          (push_right e.id p.accepted p.duplicates)
    | fresh doc aggregates b f ↦
        subst (λ q. Perm (reported q) (e.id ∷ reported p)) f
          (push_left e.id p.accepted p.duplicates)
  ]

  pub write_each-reported :
      (s : Store) (es : List NormalizedEvent) (p q : Progress)
      → write_each key reg c s es p ≡ ok q
      → Perm (reported q) (map event_id es ++ reported p)
  unfolding write_each
  write_each-reported s [] p q h =
      subst (λ q. Perm (reported q) (reported p)) (ok-injective h) (Perm.refl _)
  write_each-reported s (e ∷ es) p q h =
      >>=-elim (write_one key reg c s e p) (λ r. write_each key reg c s es r) h
        λ r f g. Perm.trans (write_each-reported s es r q g) (
          Perm.trans (Perm.append_left (map event_id es) (write_one-reported s e p r f))
            (perm_middle (map event_id es) (reported p)))

  -- What was there at the start is there all along.
  abbrev pub Grown : Store → Store → Type 0
  Grown s w =
      (i : String)
      → is_some (s.attendance_events reg.organization_id i) ≡ true
      → is_some (w.attendance_events reg.organization_id i) ≡ true

  write_one-Stored :
      (s : Store) (e : NormalizedEvent) (p q : Progress)
      → Grown s p.store
      → write_one key reg c s e p ≡ ok q
      → Stored q.store e
  write_one-Stored s e p q grown h = elim (write_one-Written s e p q h) [
    | repeated a f ↦ subst (λ (q : Progress). Stored q.store e) f (grown e.id a)
    | fresh doc aggregates b f ↦
        subst (λ (q : Progress). Stored q.store e) f
          (ap is_some (set_in-same p.store.attendance_events reg.organization_id e.id (some doc)))
  ]

  present :
      (o : Option EventDoc) (w : Option EventDoc)
      → is_some o ≡ true
      → ((d : EventDoc) → o ≡ some d → w ≡ some d)
      → is_some w ≡ true
  present none w h f = cc
  present (some d) w h f = ap is_some (f d refl)

  pub write_each-Stored :
      (s : Store) (es : List NormalizedEvent) (p q : Progress)
      → Grown s p.store
      → write_each key reg c s es p ≡ ok q
      → All (Stored q.store) es
  unfolding write_each
  write_each-Stored s [] p q grown h = tt
  write_each-Stored s (e ∷ es) p q grown h =
      >>=-elim (write_one key reg c s e p) (λ r. write_each key reg c s es r) h
        λ r f g.
          let o = reg.organization_id in
          (
            present (r.store.attendance_events o e.id) (q.store.attendance_events o e.id)
                (write_one-Stored s e p r grown f) (λ d k. write_each-kept s es r q o e.id d g k),
            write_each-Stored s es r q
                (λ i k.
                  present (p.store.attendance_events o i) (r.store.attendance_events o i)
                    (grown i k) (λ d m. write_one-kept s e p r o i d f m))
                g,
          )

  pub write_each-again :
      (s : Store) (es : List NormalizedEvent) (p : Progress)
      → All (Stored s) es
      → write_each key reg c s es p ≡ ok (record p { duplicates = p.duplicates ++ map event_id es })
  unfolding write_each write_one
  write_each-again s [] p h =
      ap (λ ds. ok (record p { duplicates = ds })) (sym (append-nil p.duplicates))
  write_each-again s (e ∷ es) p h =
      let e' = append_assoc p.duplicates (e.id ∷ []) (map event_id es) in
      rw (h.0, write_each-again s es (record p { duplicates = p.duplicates ++ (e.id ∷ []) }) h.1)
        (ap (λ ds. ok (record p { duplicates = ds })) e')
