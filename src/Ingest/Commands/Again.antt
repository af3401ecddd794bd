-- ===== src/Ingest/Commands/Again.antt =====
-- A device that sends its results again, because it did not hear the answer.
use mathlib.Core.Path.{subst, ◌∙◌}
use attendence_system.Prelude.{
  ◌≡◌, refl, sym, ap, List, [], ◌∷◌, Option, none, some, String, is_some, All, if◌then◌else◌,
  Bool-cases, ◌⊎◌, inl, inr,
}
use attendence_system.Prelude.Text.{str_eq_refl}
use attendence_system.Ingest.Types.{DeviceRegistration, EventWriteContext, CommandResult}
use attendence_system.Ingest.Repository.{Store, CommandDoc, KeyHash}
use attendence_system.Ingest.Commands.{is_settled, settled_command, settle_if_open, acknowledge}
use attendence_system.Ingest.Commands.Laws.{
  own, IsFinal, Follows, own-settle, of_device-is, settle_if_open-Follows, acknowledge-Follows,
  acknowledge-IsFinal, settled_command-is_settled,
}

module _ (key : KeyHash) (reg : DeviceRegistration) (c : EventWriteContext) where
  -- Nothing is left to do for a command: it is not the device's, or it is closed.
  abbrev IsDone : Option CommandDoc → Type 0
  IsDone o = (o ≡ none) ⊎ IsFinal key reg c o

  settle_if_open-IsFinal_self :
      (s w : Store) (r : CommandResult) (o : Option CommandDoc)
      → own key reg c s r.command_id ≡ o
      → Follows key reg c o (own key reg c w r.command_id)
      → (o ≡ none)
        ⊎ IsFinal key reg c (own key reg c (settle_if_open key reg c s o r w) r.command_id)
  settle_if_open-IsFinal_self s w r none e h = inl refl
  settle_if_open-IsFinal_self s w r (some doc) e h = elim (Bool-cases (is_settled doc)) [
    | inl a ↦ inr (
        rw (a) (elim h [
          | inl same ↦ subst (IsFinal key reg c) (sym same) (a, refl)
          | inr (p, final) ↦ final
        ]))
    | inr a ↦
        let step = own-settle key reg c s doc r w r.command_id (of_device-is key reg c _ doc e) in
        let done = settled_command key reg c doc r in
        let b =
          ap (λ b. if b then some done else own key reg c w r.command_id)
            (str_eq_refl r.command_id) in
        inr (
          rw (a) (
            subst (IsFinal key reg c) (sym (step ∙ b))
              (settled_command-is_settled key reg c doc r, refl)))
  ]

  IsDone-after :
      (before after : Option CommandDoc)
      → Follows key reg c before after
      → (before ≡ none) ⊎ IsFinal key reg c after
      → IsDone after
  IsDone-after before after (inl same) (inl e) = inl (same ∙ e)
  IsDone-after before after (inr f) (inl e) = inr f.1
  IsDone-after before after f (inr g) = inr g

  abbrev AllFollow : Store → Store → Type 0
  AllFollow s w = (i : String) → Follows key reg c (own key reg c s i) (own key reg c w i)

  acknowledge-IsDone :
      (s : Store) (rs : List CommandResult) (w : Store)
      → AllFollow s w
      → All
          (λ (r : CommandResult).
            IsDone (own key reg c (acknowledge key reg c s rs w).1 r.command_id))
          rs
  unfolding acknowledge
  acknowledge-IsDone s [] w f = tt
  acknowledge-IsDone s (r ∷ rs) w f =
      let id = r.command_id in
      let v = settle_if_open key reg c s (own key reg c s id) r w in
      let g : AllFollow s v = λ i. settle_if_open-Follows key reg c s w r i (f i) in
      let self = settle_if_open-IsFinal_self s w r (own key reg c s id) refl (f id) in
      let last : (own key reg c s id ≡ none)
          ⊎ IsFinal key reg c (own key reg c (acknowledge key reg c s rs v).1 id) =
        elim self [ inl e ↦ inl e | inr k ↦ inr (acknowledge-IsFinal key reg c s rs v id k) ] in
      (
        IsDone-after _ _ (acknowledge-Follows key reg c s rs v id (g id)) last,
        acknowledge-IsDone s rs v g,
      )

  settle_if_open-done :
      (later : EventWriteContext) (t w : Store) (r : CommandResult) (o : Option CommandDoc)
      → IsDone o
      → settle_if_open key reg later t o r w ≡ w
  settle_if_open-done later t w r none h = refl
  settle_if_open-done later t w r (some doc) (inl e) = cc
  settle_if_open-done later t w r (some doc) (inr f) = rw (f.0) refl

  is_some-Follows :
      (before after : Option CommandDoc)
      → Follows key reg c before after
      → is_some after ≡ is_some before
  is_some-Follows before after (inl e) = ap is_some e
  is_some-Follows before after (inr (p, f)) = f.1 ∙ sym p

  acknowledge-done :
      (later : EventWriteContext) (s t : Store) (rs : List CommandResult) (v w : Store)
      → AllFollow s t
      → All (λ (r : CommandResult). IsDone (own key reg c t r.command_id)) rs
      → acknowledge key reg later t rs w ≡ ((acknowledge key reg c s rs v).0, w)
  unfolding acknowledge
  acknowledge-done later s t [] v w f h = refl
  acknowledge-done later s t (r ∷ rs) v w f h =
      let id = r.command_id in
      let same = settle_if_open-done later t w r (own key reg c t id) h.0 in
      let next = settle_if_open key reg c s (own key reg c s id) r v in
      let rest = acknowledge-done later s t rs next w f h.1 in
      rw (same, rest, is_some-Follows _ _ (f id)) refl

  -- Sending the same results again, under any context, acknowledges the same commands and changes nothing in the store.
  pub acknowledge-again :
      (results : List CommandResult) (s : Store) (later : EventWriteContext)
      → acknowledge key reg later
          (acknowledge key reg c s results s).1
          results
          (acknowledge key reg c s results s).1
        ≡ acknowledge key reg c s results s
  acknowledge-again results s later =
      let t = (acknowledge key reg c s results s).1 in
      acknowledge-done later s t results s t
        (λ i. acknowledge-Follows key reg c s results s i (inl refl))
        (acknowledge-IsDone s results s (λ i. inl refl))
