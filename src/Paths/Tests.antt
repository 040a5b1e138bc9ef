-- ===== src/Paths/Tests.antt =====
-- Runs of the path functions.
use shado_cloud.Paths.Ownership.{is_owner_iff}
use shado_cloud.Common.{Text, codes, ◌≡◌, refl, ◌↔◌, true, false, List, [], ◌∷◌, ◌++◌}
use shado_cloud.Paths.{absolute_path, relative_path, is_owner}

abbrev home : List Text
home = codes "srv" ∷ codes "a@b.c" ∷ []

inside : is_owner home (absolute_path home (codes "x/../y//./z")) ≡ true
unfolding is_owner absolute_path
inside = refl

outside : is_owner home (absolute_path home (codes "../other@b.c/file")) ≡ false
unfolding is_owner absolute_path
outside = refl

there_and_back :
    relative_path (absolute_path home (codes "x/y")) (absolute_path home (codes "x/z"))
    ≡ codes "../z"
unfolding relative_path absolute_path
there_and_back = refl

is_owner_iff_example :
    (is_owner home (codes "srv" ∷ codes "a@b.c" ∷ codes "x" ∷ []) ≡ true)
    ↔ ((rest : List Text) × (codes "srv" ∷ codes "a@b.c" ∷ codes "x" ∷ [] ≡ home ++ rest))
is_owner_iff_example = is_owner_iff home (codes "srv" ∷ codes "a@b.c" ∷ codes "x" ∷ []) refl
