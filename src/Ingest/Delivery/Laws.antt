-- ===== src/Ingest/Delivery/Laws.antt =====
-- What a device is given.
use attendence_system.Prelude.{
  ◌≤◌, ◌≡◌, refl, Bool, true, false, ◌&&◌, List, [], ◌∷◌, Option, none, some, String, arith, leb,
  length, length-append, All, All-append, if◌then◌else◌, Bool-cases, Option-cases, ◌⊎◌, inl, inr,
}
use attendence_system.Prelude.Result.{ok}
use attendence_system.Ingest.Types.{
  DeviceRegistration, EventWriteContext, CommandResult, CommandExchangeResult, DeviceCommand,
}
use attendence_system.Ingest.Repository.{Store, CommandDoc, KeyHash, is_text}
use attendence_system.Ingest.Commands.{own_command, acknowledge}
use attendence_system.Ingest.Delivery.{
  CommandQuery, Outcome, left_alone, discarded, delivered, outcome_of, outcome, chosen,
  deliver_each, is_expired, has_lease, well_formed, exchange_commands,
}

module _ (key : KeyHash) (reg : DeviceRegistration) (c : EventWriteContext) where
  -- A command that may be given out: a document of the device says it, is not expired, and is not
  -- dispatched under a lease that still runs.
  abbrev pub IsDeliverable : Store → DeviceCommand → Type 0
  IsDeliverable s command =
      (id : String) × (doc : CommandDoc) × (own_command key reg c s id ≡ some doc)
      × (is_expired doc c.received_at ≡ false)
      × ((is_text doc.state "dispatched" && has_lease doc c.received_at) ≡ false)
      × (well_formed id doc ≡ some command)

  abbrev Allowed : Store → Bool → Outcome → Type 0
  Allowed s full left_alone = Unit
  Allowed s full (discarded doc code message) = Unit
  Allowed s full (delivered doc command) = (full ≡ false) × IsDeliverable s command

  offered :
      (s : Store) (full : Bool) (doc : CommandDoc) (command : DeviceCommand)
      → IsDeliverable s command
      → Allowed s full (if full then left_alone else delivered doc command)
  offered s true doc command h = tt
  offered s false doc command h = (refl, h)

  outcome_of-Allowed :
      (s : Store) (id : String) (full : Bool) (o : Option CommandDoc)
      → own_command key reg c s id ≡ o
      → Allowed s full (outcome_of key reg c o id full)
  outcome_of-Allowed s id full none a = tt
  outcome_of-Allowed s id full (some doc) a = elim (Bool-cases (is_expired doc c.received_at)) [
    | inl b ↦ rw (b) tt
    | inr b ↦ elim (Bool-cases (is_text doc.state "dispatched" && has_lease doc c.received_at)) [
      | inl d ↦ rw (b, d) tt
      | inr d ↦ elim (Option-cases (well_formed id doc)) [
        | inl e ↦ rw (b, d, e) tt
        | inr (command, e) ↦
            let seen : IsDeliverable s command = (id, doc, a, b, d, e) in
            rw (b, d, e) (offered s full doc command seen)
      ]
    ]
  ]

  -- The values of the loop: at most one, and allowed.
  abbrev IsChosen : Store → List DeviceCommand → Type 0
  IsChosen s values = (length values ≤ 1) × All (IsDeliverable s) values

  chosen-IsChosen :
      (s : Store) (values : List DeviceCommand) (what : Outcome)
      → Allowed s (leb 1 (length values)) what
      → IsChosen s values
      → IsChosen s (chosen what values)
  chosen-IsChosen s values left_alone h k = k
  chosen-IsChosen s values (discarded doc code message) h k = k
  chosen-IsChosen s values (delivered doc command) h k = (
    let l = length-append values (command ∷ []) in let e = h.0 in ground arith,
    All-append (IsDeliverable s) values (command ∷ []) k.1 (h.1, tt),
  )

  deliver_each-IsChosen :
      (s : Store) (ids : List String) (values : List DeviceCommand) (w : Store)
      → IsChosen s values
      → IsChosen s (deliver_each key reg c s ids values w).0
  unfolding deliver_each outcome
  deliver_each-IsChosen s [] values w k = k
  deliver_each-IsChosen s (id ∷ ids) values w k = deliver_each-IsChosen s ids _ _ (
      chosen-IsChosen s values _
        (outcome_of-Allowed s id (leb 1 (length values)) (own_command key reg c s id) refl) k)

-- An exchange never fails; it acknowledges what the first transaction acknowledges, and gives out
-- at most one command, which the store after that transaction holds for this device as well formed,
-- not expired, and not dispatched under a lease that still runs; and none unless commands are
-- asked for.
pub exchange_commands-IsDeliverable :
    (key : KeyHash) (query : CommandQuery) (reg : DeviceRegistration) (results : List CommandResult)
    (c : EventWriteContext) (deliver : Bool) (s : Store)
    → (r : CommandExchangeResult) × ((exchange_commands key query reg results c deliver s).0 ≡ ok r)
      × (r.acknowledged_command_ids ≡ (acknowledge key reg c s results s).0)
      × (length r.commands ≤ 1)
      × All (IsDeliverable key reg c (acknowledge key reg c s results s).1) r.commands
      × ((deliver ≡ true) ⊎ (r.commands ≡ []))
unfolding exchange_commands
exchange_commands-IsDeliverable key query reg results c false s =
    (_, refl, refl, omega arith, tt, inr refl)
exchange_commands-IsDeliverable key query reg results c true s =
    let t = (acknowledge key reg c s results s).1 in
    let k =
      deliver_each-IsChosen key reg c t (query t reg.organization_id reg.device_id) [] t
        (omega arith, tt) in
    (_, refl, refl, k.0, k.1, inl refl)
