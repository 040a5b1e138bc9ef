-- ===== src/Common/Texts.antt =====
-- Texts that the program walks, as lists of UTF-16 code units.
use Prim.Native.Nat.{ℕ, ◌+◌, ◌-◌, ◌*◌}
use Prim.Native.Char.{code}
use Prim.Native.String.{String}
use mathlib.Core.Path.{◌≡◌, refl}
use mathlib.Core.Bool.{Bool, true, false, not, ◌&&◌, ◌||◌}
use mathlib.Core.Option.{Option, none, some}
use mathlib.Core.List.{List, [], ◌∷◌, ◌++◌, reverse, reverse-cons, reverse-reverse}
use mathlib.Core.Logic.{inl, inr}
use native.Mathlib.Omega.{arith}
use shado_cloud.Common.Lists.{all}
use shado_cloud.Common.Tests.{leb, ◌==◌, if◌then◌else◌, Bool-cases, and-eq-true}

abbrev pub Text : Type 0
Text = List ℕ

-- The code units of a literal in the basic plane.
abbrev pub codes : String → Text
codes String.[] = []
codes (String.◌∷◌ c s) = code c ∷ codes s

abbrev pub text_eq : Text → Text → Bool
text_eq [] [] = true
text_eq (x ∷ xs) (y ∷ ys) = x == y && text_eq xs ys
text_eq _ _ = false

pub text_eq→eq : (s t : Text) → text_eq s t ≡ true → s ≡ t
text_eq→eq [] [] h = refl
text_eq→eq (x ∷ xs) (y ∷ ys) h = ground (arith, text_eq→eq xs ys)
text_eq→eq [] (y ∷ ys) h = cc
text_eq→eq (x ∷ xs) [] h = cc

pub text_eq_refl : (s : Text) → text_eq s s ≡ true
text_eq_refl [] = refl
text_eq_refl (x ∷ xs) = ground (arith, text_eq_refl xs)

-- Paths in normal form, as the lists of their names.
unfoldable pub path_eq : List Text → List Text → Bool
path_eq [] [] = true
path_eq (a ∷ p) (b ∷ q) = text_eq a b && path_eq p q
path_eq _ _ = false

pub path_eq_refl : (p : List Text) → path_eq p p ≡ true
unfolding path_eq
path_eq_refl [] = refl
path_eq_refl (a ∷ p) = rw (text_eq_refl a) (path_eq_refl p)

pub path_eq→eq : (p q : List Text) → path_eq p q ≡ true → p ≡ q
unfolding path_eq
path_eq→eq [] [] h = refl
path_eq→eq (a ∷ p) (b ∷ q) h = ground (arith, text_eq→eq a b, path_eq→eq p q)
path_eq→eq [] (b ∷ q) h = cc
path_eq→eq (a ∷ p) [] h = cc

-- `s.startsWith(p)` with what follows the prefix.
abbrev pub strip_prefix : Text → Text → Option Text
strip_prefix [] s = some s
strip_prefix (c ∷ p) [] = none
strip_prefix (c ∷ p) (x ∷ s) = if x == c then strip_prefix p s else none

pub strip_prefix-append : (p s : Text) → strip_prefix p (p ++ s) ≡ some s
strip_prefix-append [] s = refl
strip_prefix-append (c ∷ p) s = ground (arith, strip_prefix-append p s)

pub strip_prefix-eq-some : (p s r : Text) → strip_prefix p s ≡ some r → s ≡ p ++ r
strip_prefix-eq-some [] s r h = cc
strip_prefix-eq-some (c ∷ p) [] r h = cc
strip_prefix-eq-some (c ∷ p) (x ∷ s) r h = ground (arith, strip_prefix-eq-some p s r)

-- The white space that `String.prototype.trim` removes.
abbrev pub is_space : ℕ → Bool
is_space c =
    leb 9 c && leb c 13
    || c == 32
    || c == 160
    || c == 5760
    || leb 8192 c && leb c 8202
    || c == 8232
    || c == 8233
    || c == 8239
    || c == 8287
    || c == 12288
    || c == 65279

pub trim_start : Text → Text
trim_start [] = []
trim_start (c ∷ s) = if is_space c then trim_start s else c ∷ s

unfoldable pub trim : Text → Text
unfolding trim_start
trim s = reverse (trim_start (reverse (trim_start s)))

abbrev pub is_digit : ℕ → Bool
is_digit c = leb b'0' c && leb c b'9'

-- `parseInt(s, 10)` on a text of decimal digits; `""` has no use in the program.
unfoldable pub parse_int_from : ℕ → Text → ℕ
parse_int_from acc [] = acc
parse_int_from acc (c ∷ s) = parse_int_from (acc * 10 + (c - 48)) s

unfoldable pub parse_int : Text → ℕ
unfolding parse_int_from
parse_int s = parse_int_from 0 s

pub all-append :
    (p : ℕ → Bool) (s t : Text) → all p s ≡ true → all p t ≡ true → all p (s ++ t) ≡ true
all-append p [] t h k = k
all-append p (c ∷ s) t h k = ground (arith, all-append p s t)

all-reverse : (p : ℕ → Bool) (s : Text) → all p s ≡ true → all p (reverse s) ≡ true
all-reverse p [] h = refl
all-reverse p (c ∷ s) h =
    let (here, later) = and-eq-true (p c) (all p s) h in
    rw reverse-cons (all-append p (reverse s) (c ∷ []) (all-reverse p s later) (rw here))

abbrev pub not_space : ℕ → Bool
not_space c = not (is_space c)

trim_start_plain : (s : Text) → all not_space s ≡ true → trim_start s ≡ s
unfolding trim_start
trim_start_plain [] h = refl
trim_start_plain (c ∷ s) h = elim (Bool-cases (is_space c)) [
  | inl e ↦ ground (arith, e)
  | inr e ↦ rw e
]

-- A text with no white space is its own trim.
pub trim_plain : (s : Text) → all not_space s ≡ true → trim s ≡ s
unfolding trim
trim_plain s h =
    rw (trim_start_plain s h, trim_start_plain (reverse s) (all-reverse not_space s h))
      (reverse-reverse s)
