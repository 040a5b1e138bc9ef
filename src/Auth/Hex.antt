-- ===== src/Auth/Hex.antt =====
-- `buffer.toString("hex")` and `Buffer.from(s, "hex")`, of node.
use shado_cloud.Common.{
  ltb, leb, if◌then◌else◌, All, Text, ℕ, ◌+◌, ◌-◌, ◌*◌, ◌/◌, ◌%◌, ◌<◌, ◌≡◌, refl, ◌∙◌, ◌&&◌, Option,
  none, some, List, [], ◌∷◌, arith,
}

hex_digit : ℕ → ℕ
hex_digit n = if ltb n 10 then 48 + n else 87 + n

unfoldable pub to_hex : List ℕ → Text
unfolding hex_digit
to_hex [] = []
to_hex (b ∷ bs) = hex_digit (b / 16) ∷ hex_digit (b % 16) ∷ to_hex bs

digit_value : ℕ → Option ℕ
digit_value d =
    if leb 48 d && leb d 57
    then some (d - 48)
    else if leb 65 d && leb d 70
    then some (d - 55)
    else if leb 97 d && leb d 102
    then some (d - 87)
    else none

pair_value : Option ℕ → Option ℕ → Option ℕ
pair_value (some h) (some l) = some (h * 16 + l)
pair_value _ _ = none

-- The pairs of digits up to the first that is none; an odd digit at the end is left out.
unfoldable pub from_hex : Text → List ℕ
unfolding digit_value pair_value
from_hex [] = []
from_hex (d ∷ []) = []
from_hex (d ∷ e ∷ s) = elim (pair_value (digit_value d) (digit_value e)) [
  | none ↦ []
  | some b ↦ b ∷ from_hex s
]

digit_value-hex_digit : (n : ℕ) → n < 16 → digit_value (hex_digit n) ≡ some n
unfolding digit_value hex_digit
digit_value-hex_digit n h = ground arith

from_hex_nil : from_hex [] ≡ []
unfolding from_hex
from_hex_nil = refl

div_mod : (b : ℕ) → b / 16 * 16 + b % 16 ≡ b
div_mod b = omega arith

from_hex-pair :
    (d e : ℕ) (s : Text) {h l : ℕ}
    → digit_value d ≡ some h
    → digit_value e ≡ some l
    → from_hex (d ∷ e ∷ s) ≡ (h * 16 + l) ∷ from_hex s
unfolding from_hex pair_value
from_hex-pair d e s p q = rw (from_hex, p, q) refl

pub from_hex-to_hex : (bs : List ℕ) → All (λ b. b < 256) bs → from_hex (to_hex bs) ≡ bs
unfolding to_hex
from_hex-to_hex [] h = from_hex_nil
from_hex-to_hex (b ∷ bs) (small, later) =
    let high = digit_value-hex_digit (b / 16) (omega arith) in
    let low = digit_value-hex_digit (b % 16) (omega arith) in
    from_hex-pair (hex_digit (b / 16)) (hex_digit (b % 16)) (to_hex bs) high low
    ∙ cc (from_hex-to_hex bs later, div_mod b)
