-- ===== src/Ingest/Commands/Laws.antt =====
-- What a step of the first loop, and the loop, make of the commands.
use mathlib.Core.Path.{subst, ◌∙◌}
use attendence_system.Prelude.{
  ◌≡◌, refl, sym, ap, Bool, true, ◌&&◌, ◌||◌, List, [], ◌∷◌, Option, none, some, String, is_some,
  get_or, if◌then◌else◌, if-elim, Bool-cases, Option-cases, ◌⊎◌, inl, inr,
}
use attendence_system.Prelude.Text.{str_eq, str_eq_sound}
use attendence_system.Ingest.Types.{
  DeviceRegistration, EventWriteContext, CommandResult, ResultState, succeeded, failed,
}
use attendence_system.Ingest.Repository.{Store, CommandDoc, KeyHash, put, is_text}
use attendence_system.Ingest.Repository.Laws.{put-same}
use attendence_system.Ingest.Commands.{
  state_name, is_settled, set_command, of_device, own_command, settled_command, release_if_held,
  write_enrollment, preserves_fingerprint, enrolled, settle, settle_if_open, acknowledge,
}

pub settled_command-is_settled :
    (key : KeyHash) (reg : DeviceRegistration) (c : EventWriteContext) (doc : CommandDoc)
    (r : CommandResult)
    → is_settled (settled_command key reg c doc r) ≡ true
settled_command-is_settled key reg c doc r = go r.state
  where
    go :
        (x : ResultState)
        → (is_text (some (state_name x)) "succeeded" || is_text (some (state_name x)) "failed")
          ≡ true
    go succeeded = refl
    go failed = refl

module _ (key : KeyHash) (reg : DeviceRegistration) (c : EventWriteContext) where
  abbrev pub own : Store → String → Option CommandDoc
  own w i = own_command key reg c w i

  enrolled-commands :
      (s : Store) (doc : CommandDoc) (r : CommandResult) (employee number : String) (w : Store)
      → (enrolled key reg c s doc r employee number w).commands ≡ w.commands
  unfolding enrolled
  enrolled-commands s doc r employee number w =
      let current = s.device_enrollments reg.organization_id (key reg.device_id number) in
      elim (Bool-cases (preserves_fingerprint key reg c doc r.command_id current)) [
        | inr a ↦ rw (a) refl
        | inl a ↦ elim (Bool-cases (is_text doc.type' "upsert_user")) [
          | inl b ↦ rw (a, b) refl
          | inr b ↦ rw (a, b) refl
        ]
      ]

  write_enrollment-commands :
      (s : Store) (doc : CommandDoc) (r : CommandResult) (w : Store)
      → (write_enrollment key reg c s doc r w).commands ≡ w.commands
  unfolding write_enrollment enrolled preserves_fingerprint
  write_enrollment-commands s doc r w = elim (Option-cases doc.employee_id) [
    | inl a ↦ rw (a) refl
    | inr (e, a) ↦ elim (Option-cases doc.employee_no) [
      | inl b ↦ rw (a, b) refl
      | inr (n, b) ↦ rw (a, b) (enrolled-commands s doc r e n w)
    ]
  ]

  release_if_held-commands :
      (asked : Bool) (s : Store) (id : String) (w : Store)
      → (release_if_held key reg c asked s id w).commands ≡ w.commands
  release_if_held-commands asked s id w =
      elim (Bool-cases
        (asked && is_text (s.fingerprint_lock reg.organization_id reg.device_id) id)) [
          | inl a ↦ rw (a) refl
          | inr a ↦ rw (a) refl
        ]

  settle-commands :
      (s : Store) (doc : CommandDoc) (r : CommandResult) (w : Store)
      → (settle key reg c s doc r w).commands
        ≡ (set_command reg r.command_id (settled_command key reg c doc r) w).commands
  unfolding settle
  settle-commands s doc r w =
      let set = set_command reg r.command_id (settled_command key reg c doc r) w in
      let enrolls = is_text doc.type' "enroll_fingerprint" in
      write_enrollment-commands s doc r (release_if_held key reg c enrolls s r.command_id set)
      ∙ release_if_held-commands enrolls s r.command_id set

  own-commands : (w v : Store) (i : String) → w.commands ≡ v.commands → own w i ≡ own v i
  own-commands w v i e = rw (e) refl

  set_command-at :
      (doc : CommandDoc) (id i : String) (w : Store)
      → (set_command reg id doc w).commands reg.organization_id reg.device_id i
        ≡ put (w.commands reg.organization_id reg.device_id) id (some doc) i
  set_command-at doc id i w =
      let all = w.commands reg.organization_id in
      let here = put (all reg.device_id) id (some doc) in
      ap (λ f. f reg.device_id i)
        (put-same w.commands reg.organization_id (put all reg.device_id here))
      ∙ ap (λ f. f i) (put-same all reg.device_id here)

  own-put :
      (f : String → Option CommandDoc) (doc : CommandDoc) (id i : String)
      → is_text doc.device_id reg.device_id ≡ true
      → of_device reg (put f id (some doc) i)
        ≡ (if str_eq i id then some doc else of_device reg (f i))
  own-put f doc id i h = elim (Bool-cases (str_eq i id)) [
    | inl a ↦ rw (a, h) refl
    | inr a ↦ rw (a) refl
  ]

  pub own-settle :
      (s : Store) (doc : CommandDoc) (r : CommandResult) (w : Store) (i : String)
      → is_text doc.device_id reg.device_id ≡ true
      → own (settle key reg c s doc r w) i
        ≡ (if str_eq i r.command_id then some (settled_command key reg c doc r) else own w i)
  own-settle s doc r w i h =
      let done = settled_command key reg c doc r in
      own-commands (settle key reg c s doc r w) (set_command reg r.command_id done w) i
        (settle-commands s doc r w)
      ∙ ap (of_device reg) (set_command-at done r.command_id i w)
      ∙ own-put (w.commands reg.organization_id reg.device_id) done r.command_id i h

  -- A command of this device that has its final state.
  abbrev pub Closed : Option CommandDoc → Type 0
  Closed none = Unit
  Closed (some doc) = is_settled doc ≡ true

  abbrev pub IsFinal : Option CommandDoc → Type 0
  IsFinal o = Closed o × is_some o ≡ true

  -- What `w` holds is what `s` holds, or a command of `s` that was closed on the way.
  abbrev pub Follows : Option CommandDoc → Option CommandDoc → Type 0
  Follows before after = (after ≡ before) ⊎ ((is_some before ≡ true) × IsFinal after)

  pub of_device-is :
      (o : Option CommandDoc) (doc : CommandDoc)
      → of_device reg o ≡ some doc
      → is_text doc.device_id reg.device_id ≡ true
  of_device-is none doc h = cc
  of_device-is (some d) doc h =
      if-elim (is_text d.device_id reg.device_id) (some d) none h
        (λ a e.
          subst (λ (x : CommandDoc). is_text x.device_id reg.device_id ≡ true)
            (ap (λ o. get_or o d) e) a)
        (λ a e. cc)

  -- A step leaves a document as it is, or closes it.
  settle_if_open-own :
      (s w : Store) (r : CommandResult) (i : String) (o : Option CommandDoc)
      → own s r.command_id ≡ o
      → (own (settle_if_open key reg c s o r w) i ≡ own w i)
        ⊎ ((str_eq i r.command_id ≡ true)
            × (is_some o ≡ true)
            × IsFinal (own (settle_if_open key reg c s o r w) i))
  settle_if_open-own s w r i none e = inl refl
  settle_if_open-own s w r i (some doc) e = elim (Bool-cases (is_settled doc)) [
    | inl a ↦ rw (a) (inl refl)
    | inr a ↦ rw (a) (
        let step = own-settle s doc r w i (of_device-is _ doc e) in
        elim (Bool-cases (str_eq i r.command_id)) [
          | inl b ↦
              let done : own (settle key reg c s doc r w) i
                  ≡ some (settled_command key reg c doc r) =
                step ∙ ap (λ b. if b then some (settled_command key reg c doc r) else own w i) b in
              inr (
                b,
                refl,
                subst IsFinal (sym done) (settled_command-is_settled key reg c doc r, refl),
              )
          | inr b ↦
              inl (step ∙ ap (λ b. if b then some (settled_command key reg c doc r) else own w i) b)
        ])
  ]

  pub settle_if_open-Follows :
      (s w : Store) (r : CommandResult) (i : String)
      → Follows (own s i) (own w i)
      → Follows (own s i) (own (settle_if_open key reg c s (own s r.command_id) r w) i)
  settle_if_open-Follows s w r i h = elim (settle_if_open-own s w r i (own s r.command_id) refl) [
    | inl e ↦ subst (Follows (own s i)) (sym e) h
    | inr (b, p, f) ↦ inr (subst (λ i. is_some (own s i) ≡ true) (sym (str_eq_sound _ _ b)) p, f)
  ]

  settle_if_open-IsFinal :
      (s w : Store) (r : CommandResult) (i : String)
      → IsFinal (own w i)
      → IsFinal (own (settle_if_open key reg c s (own s r.command_id) r w) i)
  settle_if_open-IsFinal s w r i h = elim (settle_if_open-own s w r i (own s r.command_id) refl) [
    | inl e ↦ subst IsFinal (sym e) h
    | inr (b, p, f) ↦ f
  ]

  pub acknowledge-Follows :
      (s : Store) (rs : List CommandResult) (w : Store) (i : String)
      → Follows (own s i) (own w i)
      → Follows (own s i) (own (acknowledge key reg c s rs w).1 i)
  unfolding acknowledge
  acknowledge-Follows s [] w i h = h
  acknowledge-Follows s (r ∷ rs) w i h =
      acknowledge-Follows s rs _ i (settle_if_open-Follows s w r i h)

  pub acknowledge-IsFinal :
      (s : Store) (rs : List CommandResult) (w : Store) (i : String)
      → IsFinal (own w i)
      → IsFinal (own (acknowledge key reg c s rs w).1 i)
  unfolding acknowledge
  acknowledge-IsFinal s [] w i h = h
  acknowledge-IsFinal s (r ∷ rs) w i h =
      acknowledge-IsFinal s rs _ i (settle_if_open-IsFinal s w r i h)
