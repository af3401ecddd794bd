-- ===== src/Ingest/Writes/Batch.antt =====
-- What a batch of writes leaves in the store, and what it reports.
use mathlib.Core.Path.{subst}
use mathlib.Core.List.{Perm, append-nil}
use mathlib.Core.List.Perm
use attendence_system.Prelude.{
  ◌≡◌, refl, sym, List, [], ◌∷◌, ◌++◌, map, some, String, All-mono, is_some, true,
}
use attendence_system.Prelude.Result.{Result, ok, err, ok-injective}
use attendence_system.Ingest.Types.{
  DeviceRegistration, NormalizedEvent, EventWriteResult, EventWriteContext,
}
use attendence_system.Ingest.Service.{Failure}
use attendence_system.Ingest.Repository.{Store, EventDoc, KeyHash}
use attendence_system.Ingest.Writes.{
  Progress, UnmappedAggregate, write_each, write_events, write_unmapped_aggregates, touch_device,
  started, finish,
}
use attendence_system.Ingest.Writes.Laws.{
  event_id, Stored, reported, write_each-kept, write_each-reported, write_each-Stored,
  write_each-again,
}

module _ (key : KeyHash) (reg : DeviceRegistration) (c : EventWriteContext) where
  write_unmapped_aggregates-events :
      (s : Store) (aggregates : List (String × UnmappedAggregate)) (w : Store)
      → (write_unmapped_aggregates key reg c s aggregates w).attendance_events ≡ w.attendance_events
  unfolding write_unmapped_aggregates
  write_unmapped_aggregates-events s [] w = refl
  write_unmapped_aggregates-events s ((name, a) ∷ rest) w =
      write_unmapped_aggregates-events s rest _

  finish-events :
      (events : List NormalizedEvent) (s : Store) (p : Progress)
      → (finish key reg c events s (ok p)).1.attendance_events ≡ p.store.attendance_events
  unfolding touch_device
  finish-events events s p = write_unmapped_aggregates-events s p.aggregates p.store

  finish-elim {ℓ} :
      (events : List NormalizedEvent) (s : Store) (m : Result Failure Progress)
      {r : EventWriteResult} {P : Type ℓ}
      → (finish key reg c events s m).0 ≡ ok r
      → ((p : Progress)
          → m ≡ ok p
          → record { accepted = p.accepted; duplicates = p.duplicates } ≡ r
          → P)
      → P
  finish-elim events s (err f) h k = cc
  finish-elim events s (ok p) h k = k p refl (ok-injective h)

  -- A batch that is written reports each of its events once, as accepted or as a duplicate.
  pub write_events-reported :
      (events : List NormalizedEvent) (s : Store) (r : EventWriteResult)
      → (write_events key reg c events s).0 ≡ ok r
      → Perm (r.accepted ++ r.duplicates) (map event_id events)
  unfolding write_events
  write_events-reported [] s r h =
      subst (λ (r : EventWriteResult). Perm (r.accepted ++ r.duplicates) []) (ok-injective h)
        (Perm.refl [])
  write_events-reported (e ∷ es) s r h =
      finish-elim (e ∷ es) s (write_each key reg c s (e ∷ es) (started key reg c s)) h λ p f g.
        subst (λ (r : EventWriteResult). Perm (r.accepted ++ r.duplicates) (map event_id (e ∷ es)))
          g
          (subst (λ ids. Perm (reported key reg c p) ids) (append-nil (map event_id (e ∷ es)))
            (write_each-reported key reg c s (e ∷ es) (started key reg c s) p f))

  -- Whatever its outcome, writing a batch changes no event that the store already holds, in this
  -- organization or another.
  pub write_events-kept :
      (events : List NormalizedEvent) (s : Store) (o i : String) (d : EventDoc)
      → s.attendance_events o i ≡ some d
      → (write_events key reg c events s).1.attendance_events o i ≡ some d
  unfolding write_events
  write_events-kept [] s o i d h = h
  write_events-kept (e ∷ es) s o i d h =
      go (write_each key reg c s (e ∷ es) (started key reg c s)) refl
    where
      go :
          (m : Result Failure Progress)
          → write_each key reg c s (e ∷ es) (started key reg c s) ≡ m
          → (finish key reg c (e ∷ es) s m).1.attendance_events o i ≡ some d
      go (err f) k = h
      go (ok p) k =
          rw (finish-events (e ∷ es) s p)
            (write_each-kept key reg c s (e ∷ es) (started key reg c s) p o i d k h)

  -- After a batch was written, writing it again, under any context, accepts nothing and reports
  -- every event as a duplicate.
  pub write_events-again :
      (events : List NormalizedEvent) (s : Store) (r : EventWriteResult) (later : EventWriteContext)
      → (write_events key reg c events s).0 ≡ ok r
      → (write_events key reg later events (write_events key reg c events s).1).0
        ≡ ok (record { accepted = []; duplicates = map event_id events })
  unfolding write_events
  write_events-again [] s r later h = refl
  write_events-again (e ∷ es) s r later h =
      finish-elim (e ∷ es) s (write_each key reg c s (e ∷ es) (started key reg c s)) h λ p f g.
        let t = (finish key reg c (e ∷ es) s (ok p)).1 in
        let kept : (v : NormalizedEvent) → Stored key reg c p.store v → Stored key reg later t v =
          λ v m.
            subst (λ f. is_some (f reg.organization_id v.id) ≡ true)
              (sym (finish-events (e ∷ es) s p)) m in
        let stored =
          All-mono (Stored key reg c p.store) (Stored key reg later t) (e ∷ es) kept
            (write_each-Stored key reg c s (e ∷ es) (started key reg c s) p (λ i k. k) f) in
        let again = write_each-again key reg later t (e ∷ es) (started key reg later t) stored in
        rw f (rw again refl)
