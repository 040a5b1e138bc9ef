-- ===== src/Auth/Headers.antt =====
-- What the signature in the headers of a call is worth.
use shado_cloud.Auth.Decimal.{print_nat, parse_int-print_nat, all-print_nat}
use shado_cloud.Common.{
  leb, if◌then◌else◌, length, lookup, Text, text_eq→eq, text_eq_refl, ℕ, ◌+◌, ◌-◌, ◌≤◌, ◌≡◌, refl,
  sym, ap, ◌∙◌, subst, ◌↔◌, Bool, true, false, not, ◌&&◌, ◌||◌, Option, none, some, List, arith,
}
use shado_cloud.Auth.{
  Crypto, HeaderValue, single, several, Headers, service_auth_window_ms, timestamp_header,
  nonce_header, signature_header, is_recent, canonical, compute_signature, sign_service_headers,
  is_fresh, same_signature, is_string, string_of, has_service_hmac, is_empty, verify_service_hmac,
  can_activate, Lawful,
}
use shado_cloud.Auth.Hex.{to_hex, from_hex, from_hex-to_hex}

abbrev pub distance : ℕ → ℕ → ℕ
distance now sent = (now - sent) + (sent - now)

-- The comparison of decoded signatures, where the expected one has 32 bytes.
same_signature_iff :
    (signature expected : Text)
    → length (from_hex expected) ≡ 32
    → (same_signature signature expected ≡ true) ↔ (from_hex signature ≡ from_hex expected)
unfolding same_signature
same_signature_iff signature expected long = (
  λ h. ground (arith, text_eq→eq (from_hex signature) (from_hex expected)),
  λ e. rw (e, long) (text_eq_refl (from_hex expected)),
)

module _ (c : Crypto) (laws : Lawful c) where
  pub from_hex-compute_signature :
      (secret timestamp nonce : Text) (body : Option Text)
      → from_hex (compute_signature c secret timestamp nonce body)
        ≡ c.hmac secret (canonical c timestamp nonce body)
  unfolding compute_signature
  from_hex-compute_signature secret timestamp nonce body =
      let s = canonical c timestamp nonce body in
      from_hex-to_hex (c.hmac secret s) (laws.hmac_bytes secret s)

  -- A signature is accepted exactly when it decodes to the HMAC of what was signed.
  pub same_signature-compute_signature :
      (signature secret timestamp nonce : Text) (body : Option Text)
      → (same_signature signature (compute_signature c secret timestamp nonce body) ≡ true)
        ↔ (from_hex signature ≡ c.hmac secret (canonical c timestamp nonce body))
  same_signature-compute_signature signature secret timestamp nonce body =
      let expected = compute_signature c secret timestamp nonce body in
      let e = from_hex-compute_signature secret timestamp nonce body in
      subst (λ b. (same_signature signature expected ≡ true) ↔ (from_hex signature ≡ b)) e
        (same_signature_iff signature expected (ap length e ∙ laws.hmac_length secret _))

  pub is_fresh-print_nat :
      (sent now : ℕ)
      → is_fresh c (print_nat sent) now ≡ leb (distance now sent) service_auth_window_ms
  unfolding is_fresh is_recent distance
  is_fresh-print_nat sent now =
      ap is_recent (laws.age_digits (print_nat sent) now (all-print_nat sent))
      ∙ rw (parse_int-print_nat sent) (ground arith)

is_string-cases : (v : Option HeaderValue) → is_string v ≡ true → v ≡ some (single (string_of v))
unfolding is_string string_of
is_string-cases (some (single s)) h = refl
is_string-cases (some (several ss)) h = cc
is_string-cases none h = cc

-- The headers with these texts, of which the signature is right and the time stamp fresh.
unfoldable pub IsSigned : Crypto → Text → Headers → Option Text → ℕ → Type 0
IsSigned c secret headers body now =
    (timestamp : Text) × (nonce : Text) × (signature : Text) × (age : ℕ) × (lookup timestamp_header
        headers
      ≡ some (single timestamp))
    × (lookup nonce_header headers ≡ some (single nonce))
    × (lookup signature_header headers ≡ some (single signature))
    × (c.age timestamp now ≡ some age)
    × (age ≤ service_auth_window_ms)
    × (from_hex signature ≡ c.hmac secret (canonical c timestamp nonce body))

is_recent_iff :
    (a : Option ℕ)
    → (is_recent a ≡ true) ↔ ((age : ℕ) × (a ≡ some age) × (age ≤ service_auth_window_ms))
unfolding is_recent
is_recent_iff none = (λ h. cc, λ (age, e, small). cc)
is_recent_iff (some age) = (λ h. (age, refl, ground arith), λ (age', e, small). ground arith)

-- What passes the guards of the check.
guards_iff :
    (empty first second third fresh same : Bool)
    → ((if empty || not (first && second && third)
          then false
          else if not fresh
          then false
          else same)
        ≡ true)
      ↔ ((empty ≡ false)
          × (first ≡ true)
          × (second ≡ true)
          × (third ≡ true)
          × (fresh ≡ true)
          × (same ≡ true))
guards_iff empty first second third fresh same = ground arith

-- A request is let in exactly when the secret is configured, its three headers are texts, its time
-- stamp is at most five minutes off, and its signature decodes to the HMAC of its body.
pub can_activate_iff :
    (c : Crypto) (secret : Text) (headers : Headers) (raw_body : Option Text) (now : ℕ)
    → Lawful c
    → (can_activate c secret headers raw_body now ≡ true)
      ↔ ((is_empty secret ≡ false) × IsSigned c secret headers raw_body now)
unfolding can_activate verify_service_hmac has_service_hmac IsSigned is_fresh is_string string_of
can_activate_iff c secret headers raw_body now laws =
    let at_t = lookup timestamp_header headers in
    let at_n = lookup nonce_header headers in
    let at_s = lookup signature_header headers in
    let t = string_of at_t in
    let n = string_of at_n in
    let s = string_of at_s in
    let expected = compute_signature c secret t n raw_body in
    let (passed, pass) =
      guards_iff (is_empty secret) (is_string at_t) (is_string at_n) (is_string at_s)
        (is_fresh c t now) (same_signature s expected) in
    let (decoded, encoded) = same_signature-compute_signature c laws s secret t n raw_body in
    let (recent, is_recent) = is_recent_iff (c.age t now) in
    (
      λ h.
          let (nonempty, first, second, third, fresh, same) = passed h in
          let (age, e, small) = recent fresh in
          (
            nonempty,
            (
              t,
              n,
              s,
              age,
              is_string-cases at_t first,
              is_string-cases at_n second,
              is_string-cases at_s third,
              e,
              small,
              decoded same,
            ),
          ),
      λ (nonempty, (t', n', s', age, e1, e2, e3, ea, small, same)).
          let et : t ≡ t' = ap string_of e1 in
          let en : n ≡ n' = ap string_of e2 in
          let es : s ≡ s' = ap string_of e3 in
          pass (
            nonempty,
            ap is_string e1,
            ap is_string e2,
            ap is_string e3,
            is_recent (age, ap (λ x. c.age x now) et ∙ ea, small),
            encoded (
                ap from_hex es
                ∙ same
                ∙ sym (ap (λ x. c.hmac secret (canonical c x n' raw_body)) et)
                ∙ sym (ap (λ x. c.hmac secret (canonical c t x raw_body)) en)),
          ),
    )

-- A call signed with a secret that is not empty is let in exactly while the receiver's clock is
-- within five minutes of the sender's.
pub can_activate-sign_service_headers :
    (c : Crypto) (secret : Text) (sent now : ℕ) (random : List ℕ) (body : Text)
    → Lawful c
    → is_empty secret ≡ false
    → can_activate c secret (sign_service_headers c secret sent random (some body)) (some body) now
      ≡ leb (distance now sent) service_auth_window_ms
unfolding can_activate verify_service_hmac has_service_hmac sign_service_headers is_string string_of
    lookup
can_activate-sign_service_headers c secret sent now random body laws nonempty =
    let t = print_nat sent in
    let n = to_hex random in
    let expected = compute_signature c secret t n (some body) in
    let same =
      (same_signature-compute_signature c laws expected secret t n (some body)).1
        (from_hex-compute_signature c laws secret t n (some body)) in
    rw (can_activate, verify_service_hmac, nonempty, is_fresh-print_nat c laws sent now, same)
      (ground arith)
