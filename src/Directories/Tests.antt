-- ===== src/Directories/Tests.antt =====
-- A folder whose second entry cannot be read, and one with two pages.
use shado_cloud.Common.{
  ◌==◌, if◌then◌else◌, ℕ, zero, suc, ◌%◌, ◌≡◌, refl, Option, none, some, List, [], ◌∷◌,
}
use shado_cloud.Directories.{page_info, readable, list_page, list_pages}
use shado_cloud.Directories.Pages.{list_pages-all}

even_only : ℕ → Option ℕ
even_only n = if n % 2 == 0 then some n else none

list_pages-all_example :
    list_pages even_only 4 1 (2 ∷ 3 ∷ 4 ∷ []) ≡ readable even_only (2 ∷ 3 ∷ 4 ∷ [])
list_pages-all_example = list_pages-all even_only (2 ∷ 3 ∷ 4 ∷ [])

abbrev count_up : ℕ → ℕ → List ℕ
count_up zero from = []
count_up (suc n) from = from ∷ count_up n (suc from)

second_page :
    list_page even_only (some 2) (some 200) (count_up 202 0)
    ≡ (200 ∷ [], page_info (some 2) (some 200) 202)
unfolding list_page even_only
second_page = refl

no_limit : (page_info none none 101).total_pages ≡ 3
unfolding page_info
no_limit = refl
