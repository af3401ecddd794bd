-- ===== src/Ingest/Service/Laws.antt =====
-- What a request must have passed before it changes anything, and what an answer says.
use mathlib.Core.Path.{subst, ◌∙◌}
use attendence_system.Prelude.{
  ◌≤◌, ◌<◌, ◌≡◌, refl, sym, ap, Bool, true, false, not, ◌&&◌, ◌||◌, [], some, arith, ltb, length,
  ◌==◌, is_some, if◌then◌else◌, Bool-cases, ◌⊎◌, inl, inr, not-eq_false, or-eq_false,
}
use attendence_system.Prelude.Result.{
  Result, ok, err, throw_if, or_throw, >>=-elim, throw_if-elim, or_throw-eq_ok, ok-injective,
  Result-cases,
}
use attendence_system.Prelude.Text.{str_eq, str_eq_sound}
use attendence_system.Ingest.Types.{
  IngestError, BridgeHeaders, IngestEnvelope, IngestResponse, ReplayClaim, new, repeat, conflict,
  max_body_bytes,
}
use attendence_system.Ingest.Protocol.{parse_bridge_headers, has_valid_signature}
use attendence_system.Ingest.Classify.{accepted_at, classify_events, parse_envelope}
use attendence_system.Ingest.Service.{
  Failure, refusing, IngestRepository, Host, IngestInput, Prepared, check_envelope, no_events,
  prepare, commit, ingest, answer, answer_probe, answer_events, after_claim, context_of, response,
  nothing_written, nothing_exchanged, nothing_classified,
}

pub refusing-eq_ok {ℓ} :
    {A : Type ℓ} (r : Result IngestError A) {a : A} → refusing r ≡ ok a → r ≡ ok a
refusing-eq_ok (ok a) h = ap ok (ok-injective h)
refusing-eq_ok (err e) h = cc

-- A probe has no events. Any other request has events, and nothing that belongs to a probe.
abbrev pub IsShaped : IngestEnvelope → Type 0
IsShaped e =
    ((e.probe ≡ true) × (length e.events ≡ 0))
    ⊎ ((e.probe ≡ false)
        × (0 < length e.events)
        × (length e.command_results ≡ 0)
        × (e.accept_commands ≡ false)
        × (is_some e.status ≡ false))

shape :
    (e : IngestEnvelope)
    → (e.probe && not (no_events e)) ≡ false
    → (not e.probe && is_some e.status) ≡ false
    → (not e.probe && not (length e.command_results == 0)) ≡ false
    → (not e.probe && e.accept_commands) ≡ false
    → (not e.probe && no_events e) ≡ false
    → IsShaped e
shape e a b c d f = elim (Bool-cases e.probe) [
  | inl p ↦ inl (p, ground arith)
  | inr p ↦ inr (p, ground arith, ground arith, ground arith, ground arith)
]

check_envelope-ok :
    (h : BridgeHeaders) (e : IngestEnvelope)
    → check_envelope h e ≡ ok tt
    → (e.device_id ≡ h.device_id) × (e.request_id ≡ h.nonce) × IsShaped e
unfolding check_envelope
check_envelope-ok h e r =
    throw_if-elim (not (str_eq e.device_id h.device_id) || not (str_eq e.request_id h.nonce)) _ _ r
      λ a r1. throw_if-elim (e.probe && not (no_events e)) _ _ r1 λ b r2.
        throw_if-elim (not e.probe && is_some e.status) _ _ r2 λ c r3.
          throw_if-elim (not e.probe && not (length e.command_results == 0)) _ _ r3 λ d r4.
            throw_if-elim (not e.probe && e.accept_commands) _ _ r4 λ f r5.
              let (a1, a2) = or-eq_false (not (str_eq e.device_id h.device_id)) _ a in
              (
                str_eq_sound _ _ (not-eq_false _ a1),
                str_eq_sound _ _ (not-eq_false _ a2),
                shape e b c d f (last _ _ r5),
              )
  where
    last : (bad : Bool) (x : Failure) → throw_if bad x ≡ ok tt → bad ≡ false
    last true x h = cc
    last false x h = refl

module _ {S : Type 0} (host : Host) (repository : IngestRepository S) where
  -- What a request has shown before the service writes: its size is allowed, its headers are
  -- accepted, the device is registered and enabled, the signature is good under one of the device's
  -- secrets, the body speaks of the same device and request, and its shape fits its kind.
  abbrev pub IsVetted : IngestInput → S → Prepared → Type 0
  IsVetted input s p =
      (length input.raw_body ≤ max_body_bytes)
      × (parse_bridge_headers input.headers input.now ≡ ok p.parsed_headers)
      × (repository.get_device s p.parsed_headers.device_id ≡ ok (some p.registration))
      × (p.registration.enabled ≡ true)
      × (host.get_secrets p.registration ≡ ok p.secrets)
      × (has_valid_signature host.crypto p.secrets p.parsed_headers input.raw_body ≡ true)
      × (parse_envelope (host.decode input.raw_body) ≡ ok p.envelope)
      × (p.envelope.device_id ≡ p.parsed_headers.device_id)
      × (p.envelope.request_id ≡ p.parsed_headers.nonce)
      × IsShaped p.envelope
      × (classify_events (accepted_at host.five_years_before input.now) p.envelope.events
            p.parsed_headers.device_id
          ≡ ok p.classified)

  prepare-IsVetted :
      (input : IngestInput) (s : S) (p : Prepared)
      → prepare host repository input s ≡ ok p
      → IsVetted input s p
  unfolding prepare
  prepare-IsVetted input s p r =
      throw_if-elim (ltb max_body_bytes (length input.raw_body)) _ _ r λ size r1.
        >>=-elim (refusing (parse_bridge_headers input.headers input.now)) _ r1 λ headers h r2.
          >>=-elim (repository.get_device s headers.device_id) _ r2 λ found g r3.
            >>=-elim (or_throw found _) _ r3 λ registration f r4.
              throw_if-elim (not registration.enabled) _ _ r4 λ on r5.
                >>=-elim (host.get_secrets registration) _ r5 λ secrets k r6.
                  throw_if-elim
                    (length secrets == 0
                      || not (has_valid_signature host.crypto secrets headers input.raw_body))
                    _ _ r6
                    λ signed r7.
                      >>=-elim (refusing (parse_envelope (host.decode input.raw_body))) _ r7
                        λ envelope e r8. >>=-elim (check_envelope headers envelope) _ r8 λ u c r9.
                          >>=-elim
                            (refusing (
                              classify_events (accepted_at host.five_years_before input.now)
                                envelope.events headers.device_id))
                            _ r9
                            λ classified d r10.
                              let (same_device, same_request, shaped) =
                                check_envelope-ok headers envelope c in
                              let signature =
                                not-eq_false _ (or-eq_false (length secrets == 0) _ signed).1 in
                              let registered = g ∙ ap ok (or_throw-eq_ok found _ f) in
                              subst (IsVetted input s) (ok-injective r10) (
                                ground arith,
                                refusing-eq_ok _ h,
                                registered,
                                not-eq_false _ on,
                                k,
                                signature,
                                refusing-eq_ok _ e,
                                same_device,
                                same_request,
                                shaped,
                                refusing-eq_ok _ d,
                              )

  ingest-prepare :
      (input : IngestInput) (s : S) (r : Result Failure Prepared)
      → prepare host repository input s ≡ r
      → ingest host repository input s
        ≡ elim r [ err f ↦ (err f, s) | ok p ↦ commit host repository input p s ]
  unfolding ingest
  ingest-prepare input s r e =
      ap
        (λ (r : Result Failure Prepared). elim r as (λ _. Result Failure IngestResponse × S) [
          | err f ↦ (err f, s)
          | ok p ↦ commit host repository input p s
        ])
        e

  -- Whatever the request, either the state stays as it was, or the request was vetted and the state
  -- is the one that committing it leaves.
  pub ingest-IsVetted :
      (input : IngestInput) (s : S)
      → ((ingest host repository input s).1 ≡ s)
        ⊎ ((p : Prepared) × IsVetted input s p
            × (ingest host repository input s ≡ commit host repository input p s))
  ingest-IsVetted input s = elim (Result-cases (prepare host repository input s)) [
    | inl (p, e) ↦ inr (p, prepare-IsVetted input s p e, ingest-prepare input s (ok p) e)
    | inr (f, e) ↦ inl (ap (λ x. x.1) (ingest-prepare input s (err f) e))
  ]

  -- What an answer to a vetted request says: the device and the request that the signed headers
  -- name, and the tenant that the registration names.
  abbrev pub IsAddressed : Prepared → IngestResponse → Type 0
  IsAddressed p r =
      (r.device_id ≡ p.parsed_headers.device_id)
      × (r.request_id ≡ p.parsed_headers.nonce)
      × (r.organization_id ≡ p.registration.organization_id)
      × (r.branch_id ≡ p.registration.branch_id)

  -- An answer reports events or exchanges commands, never both.
  abbrev pub IsOneSided : IngestResponse → Type 0
  IsOneSided r =
      ((r.accepted ≡ []) × (r.duplicates ≡ []) × (r.rejected ≡ []))
      ⊎ ((r.commands ≡ []) × (r.acknowledged_command_ids ≡ []))

  probe-lem :
      (input : IngestInput) (s t : S) (p : Prepared) (r : IngestResponse)
      → IsVetted input s p
      → (answer_probe host repository input p t).0 ≡ ok r
      → IsAddressed p r × IsOneSided r
  unfolding answer_probe
  probe-lem input s t p r v h =
      >>=-elim
        (repository.exchange_commands p.registration p.envelope.command_results
          (context_of host repository input p) p.envelope.accept_commands
          (repository.record_contact p.registration p.envelope.status
            (context_of host repository input p) t)).0
        (λ x. ok (response p.envelope p.registration nothing_written x nothing_classified)) h
        λ x f g.
          subst (λ (r : IngestResponse). IsAddressed p r × IsOneSided r) (ok-injective g)
            ((v.7, v.8, refl, refl), inl (refl, refl, refl))

  events-lem :
      (input : IngestInput) (s t : S) (p : Prepared) (r : IngestResponse)
      → IsVetted input s p
      → (answer_events host repository input p t).0 ≡ ok r
      → IsAddressed p r × IsOneSided r
  unfolding answer_events
  events-lem input s t p r v h =
      >>=-elim
        (repository.write_events p.registration p.classified.valid
          (context_of host repository input p) t).0
        (λ w. ok (response p.envelope p.registration w nothing_exchanged p.classified)) h
        λ x f g.
          subst (λ (r : IngestResponse). IsAddressed p r × IsOneSided r) (ok-injective g)
            ((v.7, v.8, refl, refl), inr (refl, refl))

  abbrev kind : Bool → IngestInput → Prepared → S → Result Failure IngestResponse × S
  kind probe input p t =
      if probe
      then answer_probe host repository input p t
      else answer_events host repository input p t

  answer-lem :
      (input : IngestInput) (s t : S) (p : Prepared) (r : IngestResponse)
      → IsVetted input s p
      → (answer host repository input p t).0 ≡ ok r
      → IsAddressed p r × IsOneSided r
  answer-lem input s t p r v h = elim (Bool-cases p.envelope.probe) [
    | inl e ↦ probe-lem input s t p r v (sym (ap (λ b. (kind b input p t).0) e) ∙ h)
    | inr e ↦ events-lem input s t p r v (sym (ap (λ b. (kind b input p t).0) e) ∙ h)
  ]

  after_claim-ok :
      (claim : ReplayClaim) (input : IngestInput) (s t : S) (p : Prepared) (r : IngestResponse)
      → IsVetted input s p
      → (after_claim host repository claim input p t).0 ≡ ok r
      → IsAddressed p r × IsOneSided r
  after_claim-ok conflict input s t p r v h = cc
  after_claim-ok new input s t p r v h = answer-lem input s t p r v h
  after_claim-ok repeat input s t p r v h = answer-lem input s t p r v h

  commit-ok :
      (input : IngestInput) (s : S) (p : Prepared) (r : IngestResponse)
      → IsVetted input s p
      → (commit host repository input p s).0 ≡ ok r
      → IsAddressed p r × IsOneSided r
  unfolding commit
  commit-ok input s p r v h = after_claim-ok _ input s _ p r v h

  -- A request that is answered was vetted; the answer names the device and the request of the signed
  -- headers and the tenant of the registration; and it either reports events or exchanges commands.
  pub ingest-answer :
      (input : IngestInput) (s : S) (r : IngestResponse)
      → (ingest host repository input s).0 ≡ ok r
      → (p : Prepared) × IsVetted input s p × IsAddressed p r × IsOneSided r
  ingest-answer input s r h = elim (Result-cases (prepare host repository input s)) [
    | inl (p, e) ↦
        let v = prepare-IsVetted input s p e in
        let h' = subst (λ x. x.0 ≡ ok r) (ingest-prepare input s (ok p) e) h in
        let (addressed, sided) = commit-ok input s p r v h' in (p, v, addressed, sided)
    | inr (f, e) ↦ let h' = subst (λ x. x.0 ≡ ok r) (ingest-prepare input s (err f) e) h in cc
  ]
