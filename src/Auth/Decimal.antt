-- ===== src/Auth/Decimal.antt =====
-- `n.toString()` of a natural number, and that its digits are read back.
use shado_cloud.Common.{
  ltb, ltb→lt, Bool-cases, all, Text, is_digit, parse_int_from, parse_int, all-append, ℕ, zero, suc,
  ◌+◌, ◌-◌, ◌*◌, ◌/◌, ◌%◌, ◌≤◌, ◌<◌, ◌≡◌, refl, sym, subst, inl, inr, true, false, [], ◌∷◌, ◌++◌,
  arith,
}

-- The digits above the last come first; the fuel n is enough, since n / 10 is below n.
digits : ℕ → ℕ → Text
digits zero n = (48 + n) ∷ []
digits (suc fuel) n = elim (ltb n 10) [
  | true ↦ (48 + n) ∷ []
  | false ↦ digits fuel (n / 10) ++ (48 + n % 10) ∷ []
]

unfoldable pub print_nat : ℕ → Text
unfolding digits
print_nat n = digits n n

parse_int_from-append :
    (acc : ℕ) (s : Text) (d : ℕ)
    → parse_int_from acc (s ++ d ∷ []) ≡ parse_int_from acc s * 10 + (d - 48)
unfolding parse_int_from
parse_int_from-append acc [] d = refl
parse_int_from-append acc (e ∷ s) d = parse_int_from-append (acc * 10 + (e - 48)) s d

abbrev Reads : ℕ → Text → Type 0
Reads n s = (parse_int_from 0 s ≡ n) × (all is_digit s ≡ true)

one_digit : (n : ℕ) → n < 10 → Reads n ((48 + n) ∷ [])
unfolding parse_int_from
one_digit n h = (omega arith, ground arith)

one_more : (n : ℕ) (s : Text) → Reads (n / 10) s → Reads n (s ++ (48 + n % 10) ∷ [])
one_more n s (value, digital) = (
  rw (parse_int_from-append 0 s (48 + n % 10), value) (omega arith),
  all-append is_digit s ((48 + n % 10) ∷ []) digital (ground arith),
)

digits-small : (fuel n : ℕ) → ltb n 10 ≡ true → digits (suc fuel) n ≡ (48 + n) ∷ []
unfolding digits
digits-small fuel n e = rw (digits, e) refl

digits-large :
    (fuel n : ℕ)
    → ltb n 10 ≡ false
    → digits (suc fuel) n ≡ digits fuel (n / 10) ++ (48 + n % 10) ∷ []
unfolding digits
digits-large fuel n e = rw (digits, e) refl

digits_zero : digits 0 0 ≡ 48 ∷ []
unfolding digits
digits_zero = refl

digits-Reads : (fuel n : ℕ) → n ≤ fuel → Reads n (digits fuel n)
digits-Reads zero zero h = subst (Reads 0) (sym digits_zero) (one_digit 0 (omega arith))
digits-Reads zero (suc n) h = ground arith
digits-Reads (suc fuel) n h = elim (Bool-cases (ltb n 10)) [
  | inl e ↦ subst (Reads n) (sym (digits-small fuel n e)) (one_digit n (ltb→lt n 10 e))
  | inr e ↦
      subst (Reads n) (sym (digits-large fuel n e))
        (one_more n (digits fuel (n / 10)) (digits-Reads fuel (n / 10) (omega arith)))
]

pub parse_int-print_nat : (n : ℕ) → parse_int (print_nat n) ≡ n
unfolding parse_int print_nat
parse_int-print_nat n = let (value, _) = digits-Reads n n (omega arith) in value

pub all-print_nat : (n : ℕ) → all is_digit (print_nat n) ≡ true
unfolding print_nat
all-print_nat n = let (_, digital) = digits-Reads n n (omega arith) in digital
