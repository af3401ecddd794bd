-- ===== src/Ingest/Protocol.antt =====
-- Headers and signatures of a bridge request: cloud/functions/src/ingest/protocol.ts.
pub mod Laws
use Prim.Native.String
use attendence_system.Prelude.{
  ℕ, ◌+◌, ◌-◌, ◌*◌, ◌/◌, ◌≤◌, ◌≡◌, refl, Bool, true, false, not, ◌&&◌, ◌||◌, List, [], ◌∷◌, map,
  Option, none, some, String, arith, ltb, leb, ◌==◌, all, any, length, if◌then◌else◌, Bool-cases,
  inl, inr,
}
use attendence_system.Prelude.Result.{
  Result, ok, err, ◌>>=◌, ◌>>◌, throw_if, >>=-elim, ok-injective,
}
use attendence_system.Prelude.Text.{
  str_eq, codes, is_empty, is_digit, is_upper, is_alnum, is_hex, exactly, head_then,
}
use attendence_system.Ingest.Types.{
  IngestError, BridgeHeaders, protocol_version, request_skew_seconds,
}

-- `string | string[] | undefined`
pub data HeaderValue : Type 0 where
  one : String → HeaderValue
  repeated : List String → HeaderValue
  missing : HeaderValue

-- Headers by the code points of their names.
abbrev pub HeaderSource : Type 0
HeaderSource = List ℕ → HeaderValue

abbrev pub to_lower_case : String → List ℕ
to_lower_case s = map (λ c. if is_upper c then c + 32 else c) (codes s)

-- /^[A-Za-z0-9][A-Za-z0-9._-]{0,63}$/
abbrev pub is_device_id : String → Bool
is_device_id s =
    head_then is_alnum (λ c. is_alnum c || c == b'.' || c == b'_' || c == b'-') 0 63 (codes s)

-- /^[a-f0-9]{32}$/
abbrev pub is_nonce : String → Bool
is_nonce s = exactly is_hex 32 (codes s)

-- /^[a-f0-9]{64}$/
abbrev pub is_signature : String → Bool
is_signature s = exactly is_hex 64 (codes s)

-- /^[0-9]{10,11}$/
abbrev pub is_timestamp : String → Bool
is_timestamp s = all is_digit (codes s) && leb 10 (length (codes s)) && leb (length (codes s)) 11

abbrev pub decimal : ℕ → List ℕ → ℕ
decimal n [] = n
decimal n (c ∷ s) = decimal (n * 10 + (c - b'0')) s

abbrev invalid_headers : String → IngestError
invalid_headers m = record { status = 400; code = "invalid_headers"; message = m }

abbrev unsupported_version : IngestError
unsupported_version = record {
  status = 400;
  code = "unsupported_version";
  message = "Unsupported HikBridge protocol version";
}

abbrev stale_request : IngestError
stale_request = record {
  status = 401;
  code = "stale_request";
  message = "Request timestamp is outside the accepted window";
}

abbrev missing_or_repeated : String → IngestError
missing_or_repeated name =
    invalid_headers (String.◌++◌ "Missing or repeated " (String.◌++◌ name " header"))

unfoldable pub one_header : HeaderSource → String → Result IngestError String
one_header headers name = elim (headers (to_lower_case name)) [
  | one value ↦ if is_empty value then err (missing_or_repeated name) else ok value
  | repeated values ↦ err (missing_or_repeated name)
  | missing ↦ err (missing_or_repeated name)
]

-- Math.abs(a - b)
abbrev pub distance : ℕ → ℕ → ℕ
distance a b = if leb a b then b - a else a - b

unfoldable pub parse_bridge_headers : HeaderSource → ℕ → Result IngestError BridgeHeaders
parse_bridge_headers headers now = do
  version ← one_header headers "X-HikBridge-Version"
  device_id ← one_header headers "X-HikBridge-Device"
  timestamp ← one_header headers "X-HikBridge-Timestamp"
  nonce ← one_header headers "X-HikBridge-Nonce"
  signature ← one_header headers "X-HikBridge-Signature"
  throw_if (not (str_eq version protocol_version)) unsupported_version
  throw_if
      (not (is_device_id device_id)
        || not (is_timestamp timestamp)
        || not (is_nonce nonce)
        || not (is_signature signature))
      (invalid_headers "One or more HikBridge headers are malformed")
  let seconds = decimal 0 (codes timestamp)
  throw_if
      (not (leb seconds 9007199254740991)
        || ltb request_skew_seconds (distance (now / 1000) seconds))
      stale_request
  ok (record {
    version = version;
    device_id = device_id;
    timestamp = timestamp;
    timestamp_seconds = seconds;
    nonce = nonce;
    signature = signature;
  })

-- `node:crypto`: hex digests of the body, and of a text under a key.
pub record Crypto : Type 0 where
  pub sha256_hex : List ℕ → String
  pub hmac_sha256_hex : List ℕ → String → String
  -- a digest of 32 bytes in lower-case hexadecimal
  pub hmac_is_hex : (key : List ℕ) (text : String) → is_signature (hmac_sha256_hex key text) ≡ true

abbrev join_lines : String → String → String
join_lines a b = String.◌++◌ a (String.◌++◌ "\n" b)

module _ (c : Crypto) where
  unfoldable pub compute_signature : List ℕ → String → String → String → List ℕ → String
  compute_signature secret device_id timestamp nonce body = c.hmac_sha256_hex secret (
      join_lines "hikbridge-hmac-sha256" (
        join_lines protocol_version
          (join_lines device_id (join_lines timestamp (join_lines nonce (c.sha256_hex body))))))

unfoldable pub nibble : ℕ → ℕ
nibble d = if is_digit d then d - b'0' else d - b'a' + 10

-- Buffer.from(text, "hex"), on an even number of hexadecimal digits
unfoldable pub from_hex : List ℕ → List ℕ
unfolding nibble
from_hex [] = []
from_hex (a ∷ []) = []
from_hex (a ∷ b ∷ s) = (nibble a * 16 + nibble b) ∷ from_hex s

-- timingSafeEqual on buffers of one length
abbrev pub same_bytes : List ℕ → List ℕ → Bool
same_bytes [] [] = true
same_bytes (a ∷ s) (b ∷ t) = a == b && same_bytes s t
same_bytes _ _ = false

module _ (c : Crypto) where
  -- The loop of `hasValidSignature`, which compares under every secret.
  unfoldable pub check_secrets : List (List ℕ) → BridgeHeaders → List ℕ → Bool → Bool
  check_secrets [] h body valid = valid
  check_secrets (secret ∷ secrets) h body valid = check_secrets secrets h body (
      same_bytes (from_hex (codes h.signature))
        (from_hex (codes (compute_signature c secret h.device_id h.timestamp h.nonce body)))
      || valid)

  unfoldable pub has_valid_signature : List (List ℕ) → BridgeHeaders → List ℕ → Bool
  has_valid_signature secrets h body = check_secrets secrets h body false
