-- ===== src/Auth/Payload/Verified.antt =====
-- That a message whose fields change their order on the way is still verified.
use shado_cloud.Auth.Hex.{to_hex}
use shado_cloud.Auth.Decimal.{print_nat}
use shado_cloud.Auth.{
  Crypto, service_auth_window_ms, compute_signature, is_fresh, same_signature, is_empty, Lawful,
}
use shado_cloud.Auth.Headers.{
  distance, from_hex-compute_signature, same_signature-compute_signature, is_fresh-print_nat,
}
use shado_cloud.Common.{
  leb, if◌then◌else◌, Bool-cases, Text, codes, text_eq, text_eq→eq, text_eq_refl, ℕ, ◌≡◌, refl, ap,
  ◌∙◌, inl, inr, true, false, not, some, List, ◌++◌, map, arith,
}
use shado_cloud.Auth.Json.{
  Json, object, Fields, no_fields, field, join_commas, print_field, print_fields, stable_stringify,
  stringify_fields,
}
use shado_cloud.Auth.Json.Order.{sort_keys, sort_keys-swap, sort_keys-cons}
use shado_cloud.Auth.Payload.{
  get_field, set_field, delete_field, envelope_key, envelope, payload_signature,
  sign_service_payload, text_field, check_envelope, verify_service_payload,
}

-- The same fields, in another order.
pub data Reordered : Fields → Fields → Type 0 where
  as_it_is : {fields : Fields} → Reordered fields fields
  swap :
      {k l : Text} {v w : Json} {more : Fields}
      → text_eq k l ≡ false
      → Reordered (field k v (field l w more)) (field l w (field k v more))
  below :
      {k : Text} {v : Json} {these those : Fields}
      → Reordered these those
      → Reordered (field k v these) (field k v those)
  after :
      {these those others : Fields}
      → Reordered these those
      → Reordered those others
      → Reordered these others

sort-Reordered :
    {these those : Fields}
    → Reordered these those
    → sort_keys (stringify_fields these) ≡ sort_keys (stringify_fields those)
unfolding stringify_fields
sort-Reordered as_it_is = refl
sort-Reordered (swap {k} {l} {v} {w} {more} h) =
    sort_keys-swap k l (stable_stringify v) (stable_stringify w) (stringify_fields more) h
sort-Reordered (below {k} {v} {these} {those} r) =
    sort_keys-cons (k, stable_stringify v) (stringify_fields these) (stringify_fields those)
      (sort-Reordered r)
sort-Reordered (after r s) = sort-Reordered r ∙ sort-Reordered s

-- The text that is signed does not depend on the order of the fields.
pub stable_stringify-Reordered :
    {these those : Fields}
    → Reordered these those
    → stable_stringify (object these) ≡ stable_stringify (object those)
unfolding stable_stringify print_fields
stable_stringify-Reordered r =
    ap (λ sorted. codes "{" ++ join_commas (map print_field sorted) ++ codes "}") (sort-Reordered r)

get_field-Reordered :
    {these those : Fields} (key : Text)
    → Reordered these those
    → get_field key these ≡ get_field key those
unfolding get_field
get_field-Reordered key as_it_is = refl
get_field-Reordered key (swap {k} {l} h) =
    ground (arith, text_eq→eq k key, text_eq→eq l key, text_eq_refl key, h)
get_field-Reordered key (below r) = ground (arith, get_field-Reordered key r)
get_field-Reordered key (after r s) = get_field-Reordered key r ∙ get_field-Reordered key s

delete_field-swap :
    (key k l : Text) (v w : Json) (more : Fields)
    → text_eq k l ≡ false
    → Reordered
        (delete_field key (field k v (field l w more)))
        (delete_field key (field l w (field k v more)))
unfolding delete_field
delete_field-swap key k l v w more h = elim (Bool-cases (text_eq k key)) [
  | inl e ↦ rw (delete_field, e) as_it_is
  | inr e ↦ elim (Bool-cases (text_eq l key)) [
    | inl f ↦ rw (delete_field, e, f) as_it_is
    | inr f ↦ rw (delete_field, e, f) (swap h)
  ]
]

delete_field-below :
    (key k : Text) (v : Json) (these those : Fields)
    → Reordered (delete_field key these) (delete_field key those)
    → Reordered (delete_field key (field k v these)) (delete_field key (field k v those))
unfolding delete_field
delete_field-below key k v these those r = elim (Bool-cases (text_eq k key)) [
  | inl e ↦ rw (delete_field, e) r
  | inr e ↦ rw (delete_field, e) (below r)
]

delete_field-Reordered :
    {these those : Fields} (key : Text)
    → Reordered these those
    → Reordered (delete_field key these) (delete_field key those)
delete_field-Reordered key as_it_is = as_it_is
delete_field-Reordered key (swap {k} {l} {v} {w} {more} h) = delete_field-swap key k l v w more h
delete_field-Reordered key (below {k} {v} {these} {those} r) =
    delete_field-below key k v these those (delete_field-Reordered key r)
delete_field-Reordered key (after r s) =
    after (delete_field-Reordered key r) (delete_field-Reordered key s)

get_field-set_field :
    (key : Text) (v : Json) (fields : Fields) → get_field key (set_field key v fields) ≡ v
unfolding get_field set_field
get_field-set_field key v no_fields = rw (text_eq_refl key) refl
get_field-set_field key v (field k w fields) =
    ground (arith, text_eq_refl key, get_field-set_field key v fields)

-- The object has no such field.
unfoldable pub Lacks : Text → Fields → Type 0
Lacks key no_fields = Unit
Lacks key (field k v fields) = (text_eq k key ≡ false) × Lacks key fields

delete_field-Lacks :
    (key : Text) (fields : Fields) → Lacks key fields → delete_field key fields ≡ fields
unfolding delete_field Lacks
delete_field-Lacks key no_fields h = refl
delete_field-Lacks key (field k v fields) (other, h) =
    rw other (ap (field k v) (delete_field-Lacks key fields h))

delete_field-set_field :
    (key : Text) (v : Json) (fields : Fields)
    → Lacks key fields
    → delete_field key (set_field key v fields) ≡ fields
unfolding delete_field set_field Lacks
delete_field-set_field key v no_fields h = rw (text_eq_refl key) refl
delete_field-set_field key v (field k w fields) (other, h) =
    rw (other, delete_field, other) (ap (field k w) (delete_field-set_field key v fields h))

-- What the check comes to, once the envelope is found.
verify_service_payload_lem :
    (c : Crypto) (secret t n s : Text) (now : ℕ) (message : Fields)
    → is_empty secret ≡ false
    → get_field envelope_key message ≡ object (envelope t n s)
    → verify_service_payload c secret (object message) now ≡ (
        if not (is_fresh c t now)
        then false
        else same_signature s (payload_signature c secret t n (delete_field envelope_key message)))
unfolding verify_service_payload check_envelope text_field get_field
verify_service_payload_lem c secret t n s now message nonempty e =
    rw (verify_service_payload, nonempty, e) refl

payload_signature-Reordered :
    (c : Crypto) (secret t n : Text) {these those : Fields}
    → Reordered these those
    → payload_signature c secret t n these ≡ payload_signature c secret t n those
unfolding payload_signature
payload_signature-Reordered c secret t n r =
    ap (λ text. compute_signature c secret t n (some text)) (stable_stringify-Reordered r)

same_payload_signature :
    (c : Crypto) (laws : Lawful c) (secret t n : Text) (body : Fields)
    → same_signature (payload_signature c secret t n body) (payload_signature c secret t n body)
      ≡ true
unfolding payload_signature
same_payload_signature c laws secret t n body =
    let text = some (stable_stringify (object body)) in
    (same_signature-compute_signature c laws (compute_signature c secret t n text) secret t n
        text).1
      (from_hex-compute_signature c laws secret t n text)

-- A message that was signed with a secret that is not empty, and had no envelope before, is
-- verified, whatever the order of its fields when it arrives, exactly while the receiver's clock
-- is within five minutes of the sender's.
pub verify_service_payload-sign_service_payload :
    (c : Crypto) (secret : Text) (sent now : ℕ) (random : List ℕ) (body received : Fields)
    → Lawful c
    → is_empty secret ≡ false
    → Lacks envelope_key body
    → Reordered received (sign_service_payload c secret sent random (some body))
    → verify_service_payload c secret (object received) now
      ≡ leb (distance now sent) service_auth_window_ms
unfolding sign_service_payload
verify_service_payload-sign_service_payload c secret sent now random body received laws nonempty
      bare r =
    let t = print_nat sent in
    let n = to_hex random in
    let s = payload_signature c secret t n body in
    let auth : Json = object (envelope t n s) in
    let found : get_field envelope_key received ≡ auth =
      get_field-Reordered envelope_key r ∙ get_field-set_field envelope_key auth body in
    let signed : payload_signature c secret t n (delete_field envelope_key received) ≡ s =
      payload_signature-Reordered c secret t n (delete_field-Reordered envelope_key r)
      ∙ ap (payload_signature c secret t n) (delete_field-set_field envelope_key auth body bare) in
    verify_service_payload_lem c secret t n s now received nonempty found
    ∙ rw (is_fresh-print_nat c laws sent now, signed, same_payload_signature c laws secret t n body)
        (ground arith)
