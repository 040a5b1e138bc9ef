-- ===== src/Common/Results.antt =====
-- A value or an error: what a method that may throw returns.
use mathlib.Core.Path.{◌≡◌, refl}
use mathlib.Core.Bool.{Bool, true, false}

pub data Result (E A : Type 0) : Type 0 where
  err : E → Result E A
  ok : A → Result E A

module _ {E : Type 0} where
  infixl 5 ◌>>=◌
  abbrev pub ◌>>=◌ : {A B : Type 0} → Result E A → (A → Result E B) → Result E B
  err e >>= next = err e
  ok value >>= next = next value

  -- `if (!allowed) throw e`, before the rest of the method.
  abbrev pub require : {B : Type 0} → Bool → E → Result E B → Result E B
  require false e rest = err e
  require true e rest = rest

  -- What succeeded came through the check.
  pub require_passed :
      {B : Type 0} (allowed : Bool) (e : E) (rest : Result E B) {b : B}
      → require allowed e rest ≡ ok b
      → (allowed ≡ true) × (rest ≡ ok b)
  require_passed false e rest h = cc
  require_passed true e rest h = (refl, h)

  pub bind_passed :
      {A B : Type 0} (first : Result E A) (next : A → Result E B) {b : B}
      → (first >>= next) ≡ ok b
      → (a : A) × (first ≡ ok a) × (next a ≡ ok b)
  bind_passed (err e) next h = cc
  bind_passed (ok a) next h = (a, refl, h)
