-- ===== src/Auth/Tests.antt =====
-- Calls and messages that are signed and verified, with digests that only count.
use shado_cloud.Common.{
  if◌then◌else◌, length, all, All, lookup, Text, codes, is_digit, parse_int, ℕ, zero, suc, ◌+◌, ◌-◌,
  ◌*◌, ◌%◌, ◌<◌, ◌≡◌, refl, ◌↔◌, true, false, none, some, List, [], ◌∷◌, arith,
}
use shado_cloud.Auth.{
  Crypto, single, Headers, is_recent, sha256_hex, canonical, compute_signature,
  sign_service_headers, is_fresh, same_signature, is_string, string_of, has_service_hmac, is_empty,
  verify_service_hmac, can_activate, Lawful,
}
use shado_cloud.Auth.Hex.{to_hex, from_hex}
use shado_cloud.Auth.Decimal.{print_nat}
use shado_cloud.Auth.Headers.{IsSigned, can_activate_iff, can_activate-sign_service_headers}
use shado_cloud.Auth.Json.{number, string, object, Fields, no_fields, field, stable_stringify}
use shado_cloud.Auth.Payload.{
  get_field, set_field, envelope_key, sign_service_payload, verify_service_payload,
}
use shado_cloud.Auth.Payload.Verified.{
  Reordered, swap, Lacks, verify_service_payload-sign_service_payload,
}

abbrev total_of : Text → ℕ
total_of [] = 1
total_of (x ∷ s) = (x + total_of s * 31) % 65521

abbrev copies : ℕ → ℕ → List ℕ
copies zero b = []
copies (suc n) b = b ∷ copies n b

abbrev counting : Crypto
counting = record {
  sha256 = λ s. copies 32 (total_of s % 256);
  hmac = λ secret s. copies 32 ((total_of secret + total_of s) % 256);
  age = λ s now. if all is_digit s then some ((now - parse_int s) + (parse_int s - now)) else none;
}

length-copies : (n b : ℕ) → length (copies n b) ≡ n
length-copies zero b = refl
length-copies (suc n) b = omega (arith, length-copies n b)

All-copies : (n b : ℕ) → b < 256 → All (λ x. x < 256) (copies n b)
All-copies zero b h = tt
All-copies (suc n) b h = (h, All-copies n b h)

counting-Lawful : Lawful counting
counting-Lawful = record {
  hmac_length = λ secret s. length-copies 32 ((total_of secret + total_of s) % 256);
  hmac_bytes = λ secret s. All-copies 32 ((total_of secret + total_of s) % 256) (omega arith);
  age_digits = λ s now h. rw h refl;
}

abbrev secret : Text
secret = codes "shared"

abbrev signed : Headers
signed = sign_service_headers counting secret 1700000000000 (7 ∷ 255 ∷ []) (some (codes "{}"))

print_nat_test : print_nat 1700000000000 ≡ codes "1700000000000"
unfolding print_nat
print_nat_test = refl

can_activate-sign_service_headers_example :
    can_activate counting secret signed (some (codes "{}")) 1700000300000 ≡ true
can_activate-sign_service_headers_example =
    can_activate-sign_service_headers counting secret 1700000000000 1700000300000 (7 ∷ 255 ∷ [])
      (codes "{}") counting-Lawful refl

can_activate_iff_example :
    (can_activate counting secret (("x-service-key", single secret) ∷ []) none 1700000000000 ≡ true)
    ↔ ((is_empty secret ≡ false)
        × IsSigned counting secret (("x-service-key", single secret) ∷ []) none 1700000000000)
can_activate_iff_example =
    can_activate_iff counting secret (("x-service-key", single secret) ∷ []) none 1700000000000
      counting-Lawful

-- The shared key alone opens nothing.
legacy_key :
    can_activate counting secret (("x-service-key", single secret) ∷ []) none 1700000000000 ≡ false
unfolding can_activate verify_service_hmac has_service_hmac is_string lookup
legacy_key = refl

-- A body that was changed on the way is refused.
changed_body : can_activate counting secret signed (some (codes "{ }")) 1700000000000 ≡ false
unfolding can_activate verify_service_hmac has_service_hmac is_string lookup sign_service_headers
    is_fresh string_of print_nat parse_int same_signature from_hex compute_signature to_hex
    canonical sha256_hex is_recent
changed_body = refl

abbrev job : Fields
job = field (codes "id") (number (codes "3")) (field (codes "a") (string (codes "x\"y")) no_fields)

abbrev sent_job : Fields
sent_job = sign_service_payload counting secret 1700000000000 (7 ∷ []) (some job)

stable_stringify_test : stable_stringify (object job) ≡ codes "{\"a\":\"x\\\"y\",\"id\":3}"
unfolding stable_stringify
stable_stringify_test = refl

-- The message, with its first two fields in the other order.
abbrev received_job : Fields
received_job = field (codes "a") (string (codes "x\"y")) (
    field (codes "id") (number (codes "3"))
      (field envelope_key (get_field envelope_key sent_job) no_fields))

received_job-Reordered : Reordered received_job sent_job
unfolding sign_service_payload set_field get_field
received_job-Reordered = swap refl

job-Lacks : Lacks envelope_key job
unfolding Lacks
job-Lacks = (refl, (refl, tt))

verify_service_payload-sign_service_payload_example :
    verify_service_payload counting secret (object received_job) 1700000000001 ≡ true
verify_service_payload-sign_service_payload_example =
    verify_service_payload-sign_service_payload counting secret 1700000000000 1700000000001 (7 ∷ [])
      job received_job counting-Lawful refl job-Lacks received_job-Reordered
