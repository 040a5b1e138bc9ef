-- ===== src/Files/Sets.antt =====
-- `Set<number>` in insertion order, and `Array.from(set).sort((a, b) => a - b)`.
use shado_cloud.Common.{
  ltb, ◌==◌, if◌then◌else◌, choose, any, ℕ, zero, suc, ◌+◌, ◌≤◌, ◌<◌, ◌≡◌, refl, ap, ◌∙◌, subst,
  Bool, false, ◌||◌, List, [], ◌∷◌, arith,
}

unfoldable pub add_to_set : ℕ → List ℕ → List ℕ
add_to_set n [] = n ∷ []
add_to_set n (m ∷ ms) = let rest = add_to_set n ms in if m == n then m ∷ ms else m ∷ rest

unfoldable pub insert_number : ℕ → List ℕ → List ℕ
insert_number n [] = n ∷ []
insert_number n (m ∷ ms) = let rest = insert_number n ms in if ltb m n then m ∷ rest else n ∷ m ∷ ms

unfoldable pub sort_numbers : List ℕ → List ℕ
unfolding insert_number
sort_numbers [] = []
sort_numbers (n ∷ ns) = insert_number n (sort_numbers ns)

abbrev pub has : ℕ → List ℕ → Bool
has n ns = any (λ m. m == n) ns

-- No number twice.
unfoldable pub IsDistinct : List ℕ → Type 0
IsDistinct [] = Unit
IsDistinct (n ∷ ns) = (has n ns ≡ false) × IsDistinct ns

-- Strictly increasing, from `low` on.
unfoldable pub RisesFrom : ℕ → List ℕ → Type 0
RisesFrom low [] = Unit
RisesFrom low (n ∷ ns) = (low ≤ n) × RisesFrom (suc n) ns

-- The `count` numbers from `low` on.
unfoldable pub numbers_from : ℕ → ℕ → List ℕ
numbers_from low zero = []
numbers_from low (suc count) = low ∷ numbers_from (suc low) count

pub has-add_to_set : (i n : ℕ) (ns : List ℕ) → has i (add_to_set n ns) ≡ (n == i || has i ns)
unfolding add_to_set
has-add_to_set i n [] = ground arith
has-add_to_set i n (m ∷ ms) = ground (arith, has-add_to_set i n ms)

pub IsDistinct-add_to_set : (n : ℕ) (ns : List ℕ) → IsDistinct ns → IsDistinct (add_to_set n ns)
unfolding add_to_set IsDistinct
IsDistinct-add_to_set n [] h = (refl, tt)
IsDistinct-add_to_set n (m ∷ ms) (here, h) =
    choose IsDistinct (m == n) (m ∷ ms) (m ∷ add_to_set n ms) (λ e. (here, h))
      (λ e. (rw (has-add_to_set m n ms) (ground arith), IsDistinct-add_to_set n ms h))

has-insert_number : (i n : ℕ) (ns : List ℕ) → has i (insert_number n ns) ≡ (n == i || has i ns)
unfolding insert_number
has-insert_number i n [] = refl
has-insert_number i n (m ∷ ms) = ground (arith, has-insert_number i n ms)

pub has-sort_numbers : (i : ℕ) (ns : List ℕ) → has i (sort_numbers ns) ≡ has i ns
unfolding sort_numbers
has-sort_numbers i [] = refl
has-sort_numbers i (n ∷ ns) =
    has-insert_number i n (sort_numbers ns) ∙ ap (λ b. n == i || b) (has-sort_numbers i ns)

RisesFrom-insert_number :
    (low n : ℕ) (ns : List ℕ)
    → low ≤ n
    → has n ns ≡ false
    → RisesFrom low ns
    → RisesFrom low (insert_number n ns)
unfolding insert_number RisesFrom
RisesFrom-insert_number low n [] few new h = (few, tt)
RisesFrom-insert_number low n (m ∷ ms) few new (here, h) =
    choose (RisesFrom low) (ltb m n) (m ∷ insert_number n ms) (n ∷ m ∷ ms)
      (λ e. (here, RisesFrom-insert_number (suc m) n ms (ground arith) (ground arith) h))
      (λ e. (few, (ground arith, h)))

pub RisesFrom-sort_numbers : (ns : List ℕ) → IsDistinct ns → RisesFrom 0 (sort_numbers ns)
unfolding sort_numbers RisesFrom IsDistinct
RisesFrom-sort_numbers [] h = tt
RisesFrom-sort_numbers (n ∷ ns) (new, h) =
    RisesFrom-insert_number 0 n (sort_numbers ns) (omega arith) (has-sort_numbers n ns ∙ new)
      (RisesFrom-sort_numbers ns h)

pub has-low : (low i : ℕ) (ns : List ℕ) → RisesFrom low ns → i < low → has i ns ≡ false
unfolding RisesFrom
has-low low i [] h less = refl
has-low low i (n ∷ ns) (here, h) less = ground (arith, has-low (suc n) i ns h (omega arith))

-- A rising list that has exactly the numbers from `low` to below `low + count` is the list of these.
pub numbers_from-RisesFrom :
    (low count : ℕ) (ns : List ℕ)
    → RisesFrom low ns
    → ((i : ℕ) → low ≤ i → has i ns ≡ ltb i (low + count))
    → ns ≡ numbers_from low count
unfolding RisesFrom numbers_from
numbers_from-RisesFrom low zero [] h all_there = refl
numbers_from-RisesFrom low (suc count) [] h all_there = ground (arith, all_there low (omega arith))
numbers_from-RisesFrom low zero (n ∷ ns) (here, h) all_there = ground (arith, all_there n here)
numbers_from-RisesFrom low (suc count) (n ∷ ns) (here, h) all_there =
    let is_low : n ≡ low =
      ground (arith, all_there low (omega arith), has-low (suc n) low ns h (omega arith)) in
    rw is_low (
      ap (λ ms. low ∷ ms)
        (numbers_from-RisesFrom (suc low) count ns (subst (λ x. RisesFrom (suc x) ns) is_low h)
          (λ i k. ground (arith, all_there i (omega arith), is_low))))
