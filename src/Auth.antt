-- ===== src/Auth.antt =====
-- auth/service-auth.util.ts and auth/service-key.guard.ts: signed calls between services. The digests
-- are node's, and come from outside, and so do the clock, the nonce and what `Number` reads in a text
-- that is not a decimal number. Texts are UTF-16 code units.
pub mod Hex
pub mod Decimal
pub mod Headers
pub mod Json
pub mod Payload
mod Tests
use shado_cloud.Common.{
  ltb, ◌==◌, if◌then◌else◌, length, all, All, lookup, Text, codes, text_eq, is_digit, parse_int, ℕ,
  ◌+◌, ◌-◌, ◌<◌, String, ◌≡◌, Bool, true, false, not, ◌&&◌, ◌||◌, Option, none, some, List, [], ◌∷◌,
  ◌++◌,
}
use shado_cloud.Auth.Hex.{to_hex, from_hex}
use shado_cloud.Auth.Decimal.{print_nat}

pub record Crypto : Type 0 where
  -- `createHash("sha256")` and `createHmac("sha256", secret)`, to their bytes
  pub sha256 : Text → List ℕ
  pub hmac : Text → Text → List ℕ
  -- `Math.abs(now - Number(s))`, rounded up, where `Number(s)` is finite
  pub age : Text → ℕ → Option ℕ

pub data HeaderValue : Type 0 where
  single : Text → HeaderValue
  several : List Text → HeaderValue

abbrev pub Headers : Type 0
Headers = List (String × HeaderValue)

-- Five minutes.
abbrev pub service_auth_window_ms : ℕ
service_auth_window_ms = 300000

abbrev pub timestamp_header : String
timestamp_header = "x-service-timestamp"

abbrev pub nonce_header : String
nonce_header = "x-service-nonce"

abbrev pub signature_header : String
signature_header = "x-service-signature"

-- The age of a time stamp that is a number is at most the window.
unfoldable pub is_recent : Option ℕ → Bool
is_recent none = false
is_recent (some age) = not (ltb service_auth_window_ms age)

module _ (c : Crypto) where
  -- A missing body is hashed as the empty text.
  unfoldable pub sha256_hex : Option Text → Text
  sha256_hex none = to_hex (c.sha256 [])
  sha256_hex (some body) = to_hex (c.sha256 body)

  unfoldable pub canonical : Text → Text → Option Text → Text
  canonical timestamp nonce body =
      codes "v1." ++ timestamp ++ codes "." ++ nonce ++ codes "." ++ sha256_hex body

  unfoldable pub compute_signature : Text → Text → Text → Option Text → Text
  compute_signature secret timestamp nonce body =
      to_hex (c.hmac secret (canonical timestamp nonce body))

  -- The headers of a call at a time, with a nonce of random bytes.
  unfoldable pub sign_service_headers : Text → ℕ → List ℕ → Option Text → Headers
  sign_service_headers secret now random body =
      ("x-service-key", single secret)
      ∷ (timestamp_header, single (print_nat now))
      ∷ (nonce_header, single (to_hex random))
      ∷ (signature_header, single (compute_signature secret (print_nat now) (to_hex random) body))
      ∷ []

  unfoldable pub is_fresh : Text → ℕ → Bool
  unfolding is_recent
  is_fresh timestamp now = is_recent (c.age timestamp now)

-- The comparison of the decoded signatures, which refuses an empty one first.
unfoldable pub same_signature : Text → Text → Bool
same_signature signature expected =
    let provided = from_hex signature in
    let expected_buf = from_hex expected in
    if length provided == 0 || not (length provided == length expected_buf)
    then false
    else text_eq provided expected_buf

-- `typeof headers[name] === "string"`
unfoldable pub is_string : Option HeaderValue → Bool
is_string (some (single s)) = true
is_string _ = false

unfoldable pub string_of : Option HeaderValue → Text
string_of (some (single s)) = s
string_of _ = []

unfoldable pub has_service_hmac : Headers → Bool
has_service_hmac headers =
    is_string (lookup timestamp_header headers)
    && is_string (lookup nonce_header headers)
    && is_string (lookup signature_header headers)

abbrev pub is_empty : Text → Bool
is_empty [] = true
is_empty (x ∷ s) = false

module _ (c : Crypto) where
  unfoldable pub verify_service_hmac : Text → Headers → Option Text → ℕ → Bool
  verify_service_hmac secret headers body now =
      let timestamp = string_of (lookup timestamp_header headers) in
      let nonce = string_of (lookup nonce_header headers) in
      let signature = string_of (lookup signature_header headers) in
      if is_empty secret || not (has_service_hmac headers)
      then false
      else if not (is_fresh c timestamp now)
      then false
      else same_signature signature (compute_signature c secret timestamp nonce body)

  -- `ServiceKeyGuard.canActivate`, for the secret of the configuration.
  unfoldable pub can_activate : Text → Headers → Option Text → ℕ → Bool
  can_activate secret headers raw_body now = verify_service_hmac secret headers raw_body now

  -- What node documents: digests of 32 bytes, and numbers read in base ten.
  pub record Lawful : Type 0 where
    pub hmac_length : (secret s : Text) → length (c.hmac secret s) ≡ 32
    pub hmac_bytes : (secret s : Text) → All (λ b. b < 256) (c.hmac secret s)
    pub age_digits :
        (s : Text) (now : ℕ)
        → all is_digit s ≡ true
        → c.age s now ≡ some ((now - parse_int s) + (parse_int s - now))
