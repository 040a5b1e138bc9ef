-- ===== src/Directories/Pages.antt =====
-- That the pages of a listing are the listing.
use shado_cloud.Common.{
  leb, if◌then◌else◌, leb→le, Option-cases, choose, length, take, drop, length-drop, ℕ, zero, suc,
  ◌+◌, ◌-◌, ◌*◌, ◌≤◌, ◌<◌, max, ◌≡◌, refl, sym, ap, ◌∙◌, inl, inr, false, Option, List, [], ◌∷◌,
  ◌++◌, arith,
}
use shado_cloud.Directories.{or_default, ceil_div, page_info, readable, list_page, list_pages}

module _ {A : Type 0} where
  take-all : (n : ℕ) (xs : List A) → length xs ≤ n → take n xs ≡ xs
  take-all zero [] h = refl
  take-all zero (x ∷ xs) h = ground arith
  take-all (suc n) [] h = refl
  take-all (suc n) (x ∷ xs) h = ap (λ ys. x ∷ ys) (take-all n xs (omega arith))

  take-drop : (n : ℕ) (xs : List A) → take n xs ++ drop n xs ≡ xs
  take-drop zero xs = refl
  take-drop (suc n) [] = refl
  take-drop (suc n) (x ∷ xs) = ap (λ ys. x ∷ ys) (take-drop n xs)

  drop-nil : (n : ℕ) → drop {A = A} n [] ≡ []
  drop-nil zero = refl
  drop-nil (suc n) = refl

  drop-drop : (s n : ℕ) (xs : List A) → drop n (drop s xs) ≡ drop (s + n) xs
  drop-drop zero n xs = let same : n ≡ 0 + n = omega arith in ap (λ k. drop k xs) same
  drop-drop (suc s) n [] = drop-nil n ∙ sym (drop-nil (suc s + n))
  drop-drop (suc s) n (x ∷ xs) =
      let same : suc (s + n) ≡ suc s + n = omega arith in
      drop-drop s n xs ∙ ap (λ k. drop k (x ∷ xs)) same

suc_eq : (n : ℕ) → n + 1 ≡ suc n
suc_eq n = omega arith

next_start : (page : ℕ) → suc page * 200 ≡ page * 200 + 200
next_start page = omega arith

not_leb : (a b : ℕ) → leb a b ≡ false → b < a
not_leb a b h = ground arith

module _ {A B : Type 0} (info : A → Option B) where
  readable-append :
      (xs ys : List A) → readable info (xs ++ ys) ≡ readable info xs ++ readable info ys
  unfolding readable
  readable-append [] ys = refl
  readable-append (x ∷ xs) ys = elim (Option-cases (info x)) [
    | inl e ↦ rw (readable, e) (readable-append xs ys)
    | inr (b, e) ↦ rw (readable, e) (ap (λ r. b ∷ r) (readable-append xs ys))
  ]

  -- One turn of the loop.
  list_pages-step :
      (fuel page : ℕ) (entries : List A)
      → list_pages info (suc fuel) (suc page) entries ≡ (
          if leb (suc page + 1) (ceil_div (length entries) 200)
          then readable info (take 200 (drop (page * 200) entries))
            ++ list_pages info fuel (suc page + 1) entries
          else readable info (take 200 (drop (page * 200) entries)))
  unfolding list_pages list_page page_info or_default
  list_pages-step fuel page entries =
      let before : max 1 (suc page) - 1 ≡ page = omega arith in rw (list_pages, before) refl

  -- A page and what comes after it.
  page-rest :
      (start : ℕ) (entries : List A)
      → readable info (take 200 (drop start entries)) ++ readable info (drop (start + 200) entries)
        ≡ readable info (drop start entries)
  page-rest start entries =
      ap (λ r. readable info (take 200 (drop start entries)) ++ readable info r)
        (sym (drop-drop start 200 entries))
      ∙ sym (readable-append (take 200 (drop start entries)) (drop 200 (drop start entries)))
      ∙ ap (readable info) (take-drop 200 (drop start entries))

  -- Page after page from one of them on: what is left of the listing.
  list_pages-from :
      (fuel page : ℕ) (entries : List A)
      → length entries ≤ (page + fuel) * 200
      → 1 ≤ fuel
      → list_pages info fuel (suc page) entries ≡ readable info (drop (page * 200) entries)
  unfolding ceil_div
  list_pages-from zero page entries k one = ground arith
  list_pages-from (suc fuel) page entries k one =
      list_pages-step fuel page entries
      ∙ choose (λ r. r ≡ readable info (drop (page * 200) entries))
          (leb (suc page + 1) (ceil_div (length entries) 200)) _ _
          (λ more.
            let some_left : suc page * 200 < length entries =
              omega (arith, leb→le (suc page + 1) (ceil_div (length entries) 200) more) in
            let next : list_pages info fuel (suc page + 1) entries
                ≡ readable info (drop (page * 200 + 200) entries) =
              ap (λ p. list_pages info fuel p entries) (suc_eq (suc page))
              ∙ list_pages-from fuel (suc page) entries (omega arith) (omega arith)
              ∙ ap (λ n. readable info (drop n entries)) (next_start page) in
            ap (λ r. readable info (take 200 (drop (page * 200) entries)) ++ r) next
            ∙ page-rest (page * 200) entries)
          (λ last. ap (readable info) (
            take-all 200 (drop (page * 200) entries) (
              omega (
                arith,
                length-drop (page * 200) entries,
                not_leb (suc page + 1) (ceil_div (length entries) 200) last,
              ))))

-- However many pages a folder has, the loop over its pages collects all its entries that can be read,
-- in their order, each once, and one more turn than there are entries is bound enough for it.
pub list_pages-all :
    {A B : Type 0} (info : A → Option B) (entries : List A)
    → list_pages info (suc (length entries)) 1 entries ≡ readable info entries
list_pages-all info entries =
    list_pages-from info (suc (length entries)) 0 entries (omega arith) (omega arith)
