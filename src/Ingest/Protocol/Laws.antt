-- ===== src/Ingest/Protocol/Laws.antt =====
-- What accepted headers satisfy, and what the signature check decides.
use mathlib.Core.Path.{subst}
use attendence_system.Prelude.{
  ℕ, ◌+◌, ◌-◌, ◌*◌, ◌/◌, ◌≤◌, ◌<◌, ◌≡◌, refl, Bool, true, false, not, ◌&&◌, ◌||◌, List, [], ◌∷◌,
  String, arith, ltb, leb, ◌==◌, all, any, length, Bool-cases, inl, inr, not-eq_false, or-eq_false,
}
use attendence_system.Prelude.Result.{ok, >>=-elim, throw_if-elim, ok-injective}
use attendence_system.Prelude.Text.{str_eq, str_eq_sound, codes, is_hex}
use attendence_system.Ingest.Types.{BridgeHeaders, protocol_version, request_skew_seconds}
use attendence_system.Ingest.Protocol.{
  HeaderSource, Crypto, decimal, one_header, parse_bridge_headers, is_device_id, is_timestamp,
  is_nonce, is_signature, distance, nibble, from_hex, same_bytes, compute_signature, check_secrets,
  has_valid_signature,
}

nibble_lt : (a : ℕ) → is_hex a ≡ true → nibble a < 16
unfolding nibble
nibble_lt a h = ground arith

nibble_injective : (a b : ℕ) → is_hex a ≡ true → is_hex b ≡ true → nibble a ≡ nibble b → a ≡ b
unfolding nibble
nibble_injective a b h i e = ground arith

same_pair :
    (a b c d : ℕ)
    → is_hex a ≡ true
    → is_hex b ≡ true
    → is_hex c ≡ true
    → is_hex d ≡ true
    → (nibble a * 16 + nibble b == nibble c * 16 + nibble d) ≡ (a == c && b == d)
same_pair a b c d ha hb hc hd = elim (Bool-cases (a == c && b == d)) [
  | inl e ↦ let p : a ≡ c = ground arith in let q : b ≡ d = ground arith in rw (p, q) (ground arith)
  | inr e ↦ elim (Bool-cases (nibble a * 16 + nibble b == nibble c * 16 + nibble d)) [
    | inr f ↦ rw (e, f)
    | inl f ↦
        let p : nibble a * 16 + nibble b ≡ nibble c * 16 + nibble d = ground arith in
        let la = nibble_lt a ha in
        let lb = nibble_lt b hb in
        let lc = nibble_lt c hc in
        let ld = nibble_lt d hd in
        let q = nibble_injective a c ha hc (omega arith) in
        let r = nibble_injective b d hb hd (omega arith) in absurd (ground arith)
  ]
]

-- Two texts of as many hexadecimal digits, an even number, stand for the same bytes only if they
-- are the same.
same_bytes-from_hex :
    (n : ℕ) (s t : List ℕ)
    → length s ≡ n + n
    → length t ≡ n + n
    → all is_hex s ≡ true
    → all is_hex t ≡ true
    → same_bytes (from_hex s) (from_hex t) ≡ same_bytes s t
unfolding from_hex
same_bytes-from_hex n [] [] ls lt hs ht = refl
same_bytes-from_hex n [] (c ∷ t) ls lt hs ht = absurd (omega arith)
same_bytes-from_hex n (a ∷ s) [] ls lt hs ht = absurd (omega arith)
same_bytes-from_hex n (a ∷ []) (c ∷ t) ls lt hs ht = absurd (omega arith)
same_bytes-from_hex n (a ∷ b ∷ s) (c ∷ []) ls lt hs ht = absurd (omega arith)
same_bytes-from_hex n (a ∷ b ∷ s) (c ∷ d ∷ t) ls lt hs ht =
    let rest =
      same_bytes-from_hex (n - 1) s t (omega arith) (omega arith) (ground arith) (ground arith) in
    let pair = same_pair a b c d (ground arith) (ground arith) (ground arith) (ground arith) in
    rw (pair, rest) (ground arith)

module _ (c : Crypto) (h : BridgeHeaders) (body : List ℕ)
    (signed : is_signature h.signature ≡ true) where
  abbrev matches : List ℕ → Bool
  matches secret =
      same_bytes (codes h.signature)
        (codes (compute_signature c secret h.device_id h.timestamp h.nonce body))

  compare-matches :
      (secret : List ℕ)
      → same_bytes
          (from_hex (codes h.signature))
          (from_hex (codes (compute_signature c secret h.device_id h.timestamp h.nonce body)))
        ≡ matches secret
  compare-matches secret =
      let made = compute_signature c secret h.device_id h.timestamp h.nonce body in
      let hex : is_signature made ≡ true = unfold compute_signature in c.hmac_is_hex secret _ in
      same_bytes-from_hex 32 (codes h.signature) (codes made) (ground arith) (ground arith)
        (ground arith) (ground arith)

  check_secrets-any :
      (secrets : List (List ℕ)) (valid : Bool)
      → check_secrets c secrets h body valid ≡ (any matches secrets || valid)
  unfolding check_secrets
  check_secrets-any [] valid = refl
  check_secrets-any (s ∷ secrets) valid =
      rw (check_secrets-any secrets _, compare-matches s) (ground arith)

  -- On a signature of 64 hexadecimal digits the loop over all secrets accepts exactly if the
  -- signature is the one that some secret makes of the device, the timestamp, the nonce and the
  -- body.
  pub has_valid_signature-any :
      (secrets : List (List ℕ))
      → has_valid_signature c secrets h body
        ≡ any
            (λ secret.
              same_bytes
                (codes h.signature)
                (codes (compute_signature c secret h.device_id h.timestamp h.nonce body)))
            secrets
  unfolding has_valid_signature
  has_valid_signature-any secrets = rw (check_secrets-any secrets false) (ground arith)

accepted_fields :
    (version device timestamp nonce signature : String) (seconds now : ℕ)
    → not (str_eq version protocol_version) ≡ false
    → (not (is_device_id device)
        || not (is_timestamp timestamp)
        || not (is_nonce nonce)
        || not (is_signature signature))
      ≡ false
    → (not (leb seconds 9007199254740991) || ltb request_skew_seconds (distance now seconds))
      ≡ false
    → (version ≡ protocol_version)
      × (is_device_id device ≡ true)
      × (is_timestamp timestamp ≡ true)
      × (is_nonce nonce ≡ true)
      × (is_signature signature ≡ true)
      × (now ≤ seconds + request_skew_seconds)
      × (seconds ≤ now + request_skew_seconds)
accepted_fields version device timestamp nonce signature seconds now a b c =
    let (b3, b4) =
      or-eq_false
        (not (is_device_id device) || not (is_timestamp timestamp) || not (is_nonce nonce)) _ b in
    let (b2, b5) = or-eq_false (not (is_device_id device) || not (is_timestamp timestamp)) _ b3 in
    let (b1, b6) = or-eq_false (not (is_device_id device)) _ b2 in
    let near = (or-eq_false (not (leb seconds 9007199254740991)) _ c).1 in
    (
      str_eq_sound _ _ (not-eq_false _ a),
      not-eq_false _ b1,
      not-eq_false _ b6,
      not-eq_false _ b5,
      not-eq_false _ b4,
      after near,
      before near,
    )
  where
    after :
        ltb request_skew_seconds (distance now seconds) ≡ false
        → now ≤ seconds + request_skew_seconds
    after h = ground arith

    before :
        ltb request_skew_seconds (distance now seconds) ≡ false
        → seconds ≤ now + request_skew_seconds
    before h = ground arith

-- Headers that are accepted have this protocol's version, well-formed fields, and a time at most
-- 300 seconds from the server's, either way.
pub parse_bridge_headers-ok :
    (headers : HeaderSource) (now : ℕ) (h : BridgeHeaders)
    → parse_bridge_headers headers now ≡ ok h
    → (h.version ≡ protocol_version)
      × (is_device_id h.device_id ≡ true)
      × (is_timestamp h.timestamp ≡ true)
      × (is_nonce h.nonce ≡ true)
      × (is_signature h.signature ≡ true)
      × (now / 1000 ≤ h.timestamp_seconds + request_skew_seconds)
      × (h.timestamp_seconds ≤ now / 1000 + request_skew_seconds)
unfolding parse_bridge_headers
parse_bridge_headers-ok headers now h e =
    >>=-elim (one_header headers "X-HikBridge-Version") _ e λ version e1 h1.
      >>=-elim (one_header headers "X-HikBridge-Device") _ h1 λ device e2 h2.
        >>=-elim (one_header headers "X-HikBridge-Timestamp") _ h2 λ timestamp e3 h3.
          >>=-elim (one_header headers "X-HikBridge-Nonce") _ h3 λ nonce e4 h4.
            >>=-elim (one_header headers "X-HikBridge-Signature") _ h4 λ signature e5 h5.
              let seconds = decimal 0 (codes timestamp) in
              throw_if-elim (not (str_eq version protocol_version)) _ _ h5 λ b6 h6.
                throw_if-elim
                  (not (is_device_id device)
                    || not (is_timestamp timestamp)
                    || not (is_nonce nonce)
                    || not (is_signature signature))
                  _ _ h6
                  λ b7 h7.
                    throw_if-elim
                      (not (leb seconds 9007199254740991)
                        || ltb request_skew_seconds (distance (now / 1000) seconds))
                      _ _ h7
                      λ b8 h8.
                        subst
                          (λ (h : BridgeHeaders).
                            (h.version ≡ protocol_version)
                            × (is_device_id h.device_id ≡ true)
                            × (is_timestamp h.timestamp ≡ true)
                            × (is_nonce h.nonce ≡ true)
                            × (is_signature h.signature ≡ true)
                            × (now / 1000 ≤ h.timestamp_seconds + request_skew_seconds)
                            × (h.timestamp_seconds ≤ now / 1000 + request_skew_seconds))
                          (ok-injective h8)
                          (accepted_fields version device timestamp nonce signature seconds
                            (now / 1000) b6 b7 b8)
