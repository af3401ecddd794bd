-- ===== src/Ingest/Sessions/Laws.antt =====
-- Whom a session is given to.
use mathlib.Core.Path.{subst, ◌∙◌}
use attendence_system.Prelude.{
  ◌≡◌, refl, sym, ap, true, not, ◌||◌, some, ltb, length, ◌==◌, not-eq_false, or-eq_false,
}
use attendence_system.Prelude.Result.{
  Result, ok, err, or_throw, >>=-elim, throw_if-elim, or_throw-eq_ok, ok-injective,
}
use attendence_system.Prelude.Text.{str_eq, str_eq_sound, append}
use attendence_system.Ingest.Types.{ReplayClaim, new, repeat, conflict}
use attendence_system.Ingest.Protocol.{parse_bridge_headers, has_valid_signature}
use attendence_system.Ingest.Service.{Failure, refusing, IngestRepository}
use attendence_system.Ingest.Service.Laws.{refusing-eq_ok}
use attendence_system.Ingest.Sessions.{
  SessionHost, RealtimeSessionInput, RealtimeSessionResponse, Authenticated, authenticate, issue,
  unless_conflict, after_tests, create_session, required_environment,
}

module _ {S : Type 0} (host : SessionHost) (repository : IngestRepository S) where
  -- Of a registered and enabled device, whose headers are accepted and whose signature is good.
  abbrev pub IsAuthentic : RealtimeSessionInput → S → Authenticated → Type 0
  IsAuthentic input s a =
      (parse_bridge_headers input.headers input.now ≡ ok a.parsed_headers)
      × (repository.get_device s a.parsed_headers.device_id ≡ ok (some a.registration))
      × (a.registration.enabled ≡ true)
      × (host.get_secrets a.registration ≡ ok a.secrets)
      × (has_valid_signature host.crypto a.secrets a.parsed_headers input.raw_body ≡ true)
      × (a.envelope.device_id ≡ a.parsed_headers.device_id)
      × (a.envelope.request_id ≡ a.parsed_headers.nonce)

  -- A session for the device: its token is the device's own.
  abbrev pub IsGivenTo : Authenticated → RealtimeSessionResponse → Type 0
  IsGivenTo a r =
      (host.create_custom_token (append "bridge-" a.registration.device_id) a.registration.device_id
          a.registration.organization_id
        ≡ ok r.custom_token)
      × (r.organization_id ≡ a.registration.organization_id)
      × (r.request_id ≡ a.parsed_headers.nonce)

  authenticate-IsAuthentic :
      (input : RealtimeSessionInput) (s : S) (a : Authenticated)
      → authenticate host repository input s ≡ ok a
      → IsAuthentic input s a
  unfolding authenticate
  authenticate-IsAuthentic input s a r =
      throw_if-elim (ltb 4096 (length input.raw_body)) _ _ r λ _ r1.
        >>=-elim (refusing (parse_bridge_headers input.headers input.now)) _ r1 λ headers h r2.
          >>=-elim (or_throw (host.decode input.raw_body) _) _ r2 λ envelope _ r3.
            throw_if-elim
              (not (str_eq envelope.device_id headers.device_id)
                || not (str_eq envelope.request_id headers.nonce))
              _ _ r3
              λ same r4. >>=-elim (repository.get_device s headers.device_id) _ r4 λ found g r5.
                >>=-elim (or_throw found _) _ r5 λ registration f r6.
                  throw_if-elim (not registration.enabled) _ _ r6 λ on r7.
                    >>=-elim (host.get_secrets registration) _ r7 λ secrets k r8.
                      throw_if-elim
                        (length secrets == 0
                          || not (has_valid_signature host.crypto secrets headers input.raw_body))
                        _ _ r8
                        λ signed r9.
                          let (device, request) =
                            or-eq_false (not (str_eq envelope.device_id headers.device_id)) _
                              same in
                          let signature = (or-eq_false (length secrets == 0) _ signed).1 in
                          subst (IsAuthentic input s) (ok-injective r9) (
                            refusing-eq_ok _ h,
                            g ∙ ap ok (or_throw-eq_ok found _ f),
                            not-eq_false _ on,
                            k,
                            not-eq_false _ signature,
                            str_eq_sound _ _ (not-eq_false _ device),
                            str_eq_sound _ _ (not-eq_false _ request),
                          )

  issue-IsGivenTo :
      (a : Authenticated) (r : RealtimeSessionResponse)
      → a.envelope.request_id ≡ a.parsed_headers.nonce
      → issue host repository a ≡ ok r
      → IsGivenTo a r
  unfolding issue
  issue-IsGivenTo a r same h = >>=-elim (host.create_custom_token _ _ _) _ h λ token t h1.
      >>=-elim (required_environment host "BRIDGE_REALTIME_DATABASE_URL") _ h1 λ url _ h2.
        >>=-elim (required_environment host "BRIDGE_FIREBASE_WEB_API_KEY") _ h2 λ api_key _ last. (
          t ∙ ap (λ x. ok x.custom_token) (ok-injective last),
          sym (ap (λ x. x.organization_id) (ok-injective last)),
          sym (ap (λ x. x.request_id) (ok-injective last)) ∙ same,
        )

  unless_conflict-issue :
      (claim : ReplayClaim) (a : Authenticated) (r : RealtimeSessionResponse)
      → unless_conflict host repository claim a ≡ ok r
      → issue host repository a ≡ ok r
  unless_conflict-issue new a r h = h
  unless_conflict-issue repeat a r h = h
  unless_conflict-issue conflict a r h = cc

  given :
      (input : RealtimeSessionInput) (s : S) (r : RealtimeSessionResponse)
      (x : Result Failure Authenticated)
      → authenticate host repository input s ≡ x
      → (after_tests host repository input s x).0 ≡ ok r
      → (a : Authenticated) × IsAuthentic input s a × IsGivenTo a r
  given input s r (err f) e h = cc
  given input s r (ok a) e h =
      let authentic = authenticate-IsAuthentic input s a e in
      let (_, _, _, _, _, _, same) = authentic in
      (a, authentic, issue-IsGivenTo a r same (unless_conflict-issue _ a r h))

  -- A realtime session is given only to a registered and enabled device whose signature is good for the
  -- request, and its token and its organization are those of that device.
  pub create_session-IsAuthentic :
      (input : RealtimeSessionInput) (s : S) (r : RealtimeSessionResponse)
      → (create_session host repository input s).0 ≡ ok r
      → (a : Authenticated) × IsAuthentic input s a × IsGivenTo a r
  unfolding create_session
  create_session-IsAuthentic input s r h =
      given input s r (authenticate host repository input s) refl h
