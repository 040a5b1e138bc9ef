-- ===== src/Directories.antt =====
-- The pages of a listing: `list` of directories/directories.service.ts after it has read and sorted
-- the folder, and the loop of `listDir` in temp-url/tempUrl.service.ts that collects all pages.
pub mod Pages
mod Tests
use shado_cloud.Common.{
  leb, if◌then◌else◌, length, take, drop, ℕ, zero, suc, ◌+◌, ◌-◌, ◌*◌, ◌/◌, min, max, Option, none,
  some, List, [], ◌∷◌, ◌++◌,
}

-- `paginationMetadata`
pub record PageInfo : Type 0 where
  pub page : ℕ
  pub limit : ℕ
  pub total : ℕ
  pub total_pages : ℕ
  pub start : ℕ

-- `value || fallback`, for a number that may be missing.
unfoldable pub or_default : Option ℕ → ℕ → ℕ
or_default none fallback = fallback
or_default (some zero) fallback = fallback
or_default (some (suc n)) fallback = suc n

-- `Math.ceil(total / limit)`, for a limit that is not 0.
unfoldable pub ceil_div : ℕ → ℕ → ℕ
ceil_div total limit = (total + (limit - 1)) / limit

unfoldable pub page_info : (page limit : Option ℕ) → ℕ → PageInfo
unfolding or_default ceil_div
page_info page limit total =
    let p = max 1 (or_default page 1) in
    let l = min 200 (max 1 (or_default limit 50)) in
    record {
      page = p;
      limit = l;
      total = total;
      total_pages = ceil_div total l;
      start = (p - 1) * l;
    }

module _ {A B : Type 0} (info : A → Option B) where
  -- The entries that can be read; another is skipped.
  unfoldable pub readable : List A → List B
  readable [] = []
  readable (x ∷ xs) = let rest = readable xs in elim (info x) [ none ↦ rest | some b ↦ b ∷ rest ]

  -- `list`, where the folder has these entries, in order.
  unfoldable pub list_page : (page limit : Option ℕ) → List A → List B × PageInfo
  unfolding page_info readable
  list_page page limit entries =
      let i = page_info page limit (length entries) in
      (readable (take i.limit (drop i.start entries)), i)

  -- The loop of `listDir`: pages of 200 up to the last one.
  unfoldable pub list_pages : ℕ → ℕ → List A → List B
  unfolding list_page
  list_pages zero page entries = []
  list_pages (suc fuel) page entries =
      let (items, i) = list_page (some page) (some 200) entries in
      let later = list_pages fuel (page + 1) entries in
      if leb (page + 1) i.total_pages then items ++ later else items
