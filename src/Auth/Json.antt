-- ===== src/Auth/Json.antt =====
-- `stableStringify` of auth/service-auth.util.ts: JSON with the keys of each object in order. A number
-- stands as the text that `JSON.stringify` prints for it.
pub mod Order
use shado_cloud.Common.{
  ltb, leb, ◌==◌, if◌then◌else◌, Text, codes, ℕ, ◌+◌, ◌/◌, ◌%◌, Bool, true, false, not, ◌&&◌, ◌||◌,
  List, [], ◌∷◌, ◌++◌, map,
}
use shado_cloud.Auth.Json.Order.{sort_keys}

mutual
  pub data Json : Type 0 where
    undefined null : Json
    boolean : Bool → Json
    number : Text → Json
    string : Text → Json
    array : Items → Json
    object : Fields → Json

  pub data Items : Type 0 where
    no_items : Items
    item : Json → Items → Items

  -- The properties of an object, in the order in which they were set.
  pub data Fields : Type 0 where
    no_fields : Fields
    field : Text → Json → Fields → Fields

is_high : ℕ → Bool
is_high c = leb 55296 c && leb c 56319

is_low : ℕ → Bool
is_low c = leb 56320 c && leb c 57343

starts_low : Text → Bool
unfolding is_low
starts_low [] = false
starts_low (c ∷ s) = is_low c

hex_digit : ℕ → ℕ
hex_digit n = if ltb n 10 then 48 + n else 87 + n

unicode_escape : ℕ → Text
unfolding hex_digit
unicode_escape c =
    codes "\\u"
    ++ hex_digit (c / 4096)
      ∷ hex_digit (c / 256 % 16)
      ∷ hex_digit (c / 16 % 16)
      ∷ hex_digit (c % 16)
      ∷ []

-- One code unit of a string in JSON, before a low surrogate or not.
escape_unit : ℕ → Bool → Text
unfolding unicode_escape is_high is_low
escape_unit c before_low =
    if c == 34
    then codes "\\\""
    else if c == 92
    then codes "\\\\"
    else if c == 8
    then codes "\\b"
    else if c == 12
    then codes "\\f"
    else if c == 10
    then codes "\\n"
    else if c == 13
    then codes "\\r"
    else if c == 9
    then codes "\\t"
    else if ltb c 32
    then unicode_escape c
    else if is_low c || is_high c && not before_low
    then unicode_escape c
    else c ∷ []

-- `paired` is whether the unit before is a high surrogate, so that a low one is no lone one.
escape_units : Bool → Text → Text
unfolding escape_unit is_high starts_low
escape_units paired [] = []
escape_units paired (c ∷ s) =
    (if paired then c ∷ [] else escape_unit c (starts_low s))
    ++ escape_units (not paired && is_high c && starts_low s) s

-- `JSON.stringify` of a string.
unfoldable pub quote : Text → Text
unfolding escape_units
quote s = codes "\"" ++ escape_units false s ++ codes "\""

-- `parts.join(",")`
unfoldable pub join_commas : List Text → Text
join_commas [] = []
join_commas (s ∷ []) = s
join_commas (s ∷ t ∷ ts) = s ++ codes "," ++ join_commas (t ∷ ts)

unfoldable pub print_field : Text × Text → Text
unfolding quote
print_field (key, value) = quote key ++ codes ":" ++ value

unfoldable pub print_fields : List (Text × Text) → Text
unfolding join_commas print_field sort_keys
print_fields printed = codes "{" ++ join_commas (map print_field (sort_keys printed)) ++ codes "}"

unfoldable mutual
  unfolding quote join_commas print_fields

  pub stable_stringify : Json → Text
  stable_stringify undefined = codes "null"
  stable_stringify null = codes "null"
  stable_stringify (boolean true) = codes "true"
  stable_stringify (boolean false) = codes "false"
  stable_stringify (number s) = s
  stable_stringify (string s) = quote s
  stable_stringify (array items) = codes "[" ++ join_commas (stringify_items items) ++ codes "]"
  stable_stringify (object fields) = print_fields (stringify_fields fields)

  pub stringify_items : Items → List Text
  stringify_items no_items = []
  stringify_items (item v items) = stable_stringify v ∷ stringify_items items

  pub stringify_fields : Fields → List (Text × Text)
  stringify_fields no_fields = []
  stringify_fields (field key v fields) = (key, stable_stringify v) ∷ stringify_fields fields
