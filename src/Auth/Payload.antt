-- ===== src/Auth/Payload.antt =====
-- The envelope of a message between services: `signServicePayload`, `verifyServicePayload` and
-- `SignedServiceSerializer` of auth/service-auth.util.ts.
pub mod Verified
use shado_cloud.Common.{
  if◌then◌else◌, Text, codes, text_eq, ℕ, Bool, false, not, Option, none, some, List,
}
use shado_cloud.Auth.{Crypto, compute_signature, is_fresh, same_signature, is_empty}
use shado_cloud.Auth.Hex.{to_hex}
use shado_cloud.Auth.Decimal.{print_nat}
use shado_cloud.Auth.Json.{
  Json, undefined, string, object, Fields, no_fields, field, stable_stringify,
}

-- `value[key]`, with `undefined` where there is none.
unfoldable pub get_field : Text → Fields → Json
get_field key no_fields = undefined
get_field key (field k v fields) = if text_eq k key then v else get_field key fields

-- `value[key] = v`
unfoldable pub set_field : Text → Json → Fields → Fields
set_field key v no_fields = field key v no_fields
set_field key v (field k w fields) =
    if text_eq k key then field key v fields else field k w (set_field key v fields)

-- `delete value[key]`
unfoldable pub delete_field : Text → Fields → Fields
delete_field key no_fields = no_fields
delete_field key (field k v fields) =
    let rest = delete_field key fields in if text_eq k key then rest else field k v rest

abbrev pub envelope_key : Text
envelope_key = codes "__svcAuth"

-- `{ t, n, s }`
abbrev pub envelope : Text → Text → Text → Fields
envelope t n s =
    field (codes "t") (string t)
      (field (codes "n") (string n) (field (codes "s") (string s) no_fields))

module _ (c : Crypto) where
  unfoldable pub payload_signature : Text → Text → Text → Fields → Text
  unfolding compute_signature stable_stringify
  payload_signature secret t n body =
      compute_signature c secret t n (some (stable_stringify (object body)))

  -- A missing payload is signed as an empty object.
  unfoldable pub sign_service_payload : Text → ℕ → List ℕ → Option Fields → Fields
  unfolding payload_signature set_field
  sign_service_payload secret now random none =
      let t = print_nat now in
      let n = to_hex random in
      set_field envelope_key (object (envelope t n (payload_signature secret t n no_fields)))
        no_fields
  sign_service_payload secret now random (some body) =
      let t = print_nat now in
      let n = to_hex random in
      set_field envelope_key (object (envelope t n (payload_signature secret t n body))) body

-- `auth.t` and so on, where they are texts.
unfoldable pub text_field : Text → Json → Option Text
unfolding get_field
text_field key (object fields) = elim (get_field key fields) [ string s ↦ some s | _ ↦ none ]
text_field key _ = none

module _ (c : Crypto) where
  -- With the three texts of the envelope, if they are there.
  unfoldable pub check_envelope : Text → Fields → ℕ → Option Text → Option Text → Option Text → Bool
  unfolding is_fresh payload_signature delete_field
  check_envelope secret message now (some t) (some n) (some s) =
      if not (is_fresh c t now)
      then false
      else same_signature s (payload_signature c secret t n (delete_field envelope_key message))
  check_envelope secret message now _ _ _ = false

  unfoldable pub verify_service_payload : Text → Json → ℕ → Bool
  unfolding check_envelope text_field get_field
  verify_service_payload secret (object message) now =
      let auth = get_field envelope_key message in
      if is_empty secret
      then false
      else check_envelope secret message now (text_field (codes "t") auth)
          (text_field (codes "n") auth) (text_field (codes "s") auth)
  verify_service_payload secret _ now = false

-- `ReadPacket`
pub record Packet : Type 0 where
  pub pattern : Json
  pub payload : Option Fields

unfoldable pub serialize : Crypto → Text → ℕ → List ℕ → Packet → Packet
unfolding sign_service_payload
serialize c secret now random value = record value {
  payload = some (sign_service_payload c secret now random value.payload);
}
