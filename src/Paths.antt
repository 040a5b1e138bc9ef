-- ===== src/Paths.antt =====
-- Node's `path` on POSIX, as the services use it, and `isOwner` and `absolutePath` of
-- files/files.service.ts. An absolute path in normal form is the list of its names, from the root;
-- a relative path is a text. A slash that `path.join` keeps at the end is not kept here: the two
-- spellings name one entry.
pub mod Ownership
pub mod Relative
pub mod Normal
mod Tests
use shado_cloud.Common.{
  ◌==◌, if◌then◌else◌, keep, Text, text_eq, ℕ, Bool, not, ◌||◌, List, [], ◌∷◌, ◌++◌,
}

add_unit : ℕ → List Text → List Text
add_unit c [] = (c ∷ []) ∷ []
add_unit c (w ∷ ws) = (c ∷ w) ∷ ws

-- `s.split("/")`
unfoldable pub split_names : Text → List Text
unfolding add_unit
split_names [] = [] ∷ []
split_names (c ∷ s) = let rest = split_names s in if c == b'/' then [] ∷ rest else add_unit c rest

-- `names.join("/")`
unfoldable pub join_slash : List Text → Text
join_slash [] = []
join_slash (w ∷ []) = w
join_slash (w ∷ v ∷ ws) = w ++ b'/' ∷ join_slash (v ∷ ws)

unfoldable pub drop_last : List Text → List Text
drop_last [] = []
drop_last (w ∷ []) = []
drop_last (w ∷ v ∷ ws) = w ∷ drop_last (v ∷ ws)

abbrev pub dot_dot : Text
dot_dot = b'.' ∷ b'.' ∷ []

-- One name of a path: the empty one and "." stay, ".." leaves, and the root has no parent.
unfoldable pub enter_name : List Text → Text → List Text
unfolding drop_last
enter_name dir name =
    if text_eq name []
    then dir
    else if text_eq name (b'.' ∷ [])
    then dir
    else if text_eq name dot_dot
    then drop_last dir
    else dir ++ name ∷ []

unfoldable pub enter_names : List Text → List Text → List Text
unfolding enter_name
enter_names dir [] = dir
enter_names dir (w ∷ ws) = enter_names (enter_name dir w) ws

-- `path.join(dir, rel)`; also `absolutePath`, where `dir` is the root of the user.
unfoldable pub absolute_path : List Text → Text → List Text
unfolding enter_names split_names
absolute_path dir rel = enter_names dir (split_names rel)

-- `path.resolve(dir, p)`
unfoldable pub resolve_path : List Text → Text → List Text
unfolding absolute_path
resolve_path dir p = elim p [
  | [] ↦ dir
  | c ∷ s ↦ if c == b'/' then absolute_path [] (c ∷ s) else absolute_path dir (c ∷ s)
]

unfoldable pub parents : List Text → List Text
parents [] = []
parents (w ∷ ws) = dot_dot ∷ parents ws

-- The names of `path.relative(from, to)`.
unfoldable pub relative_names : (from to : List Text) → List Text
unfolding parents
relative_names [] to = to
relative_names (a ∷ from) [] = parents (a ∷ from)
relative_names (a ∷ from) (b ∷ to) =
    let same = relative_names from to in if text_eq a b then same else parents (a ∷ from) ++ b ∷ to

unfoldable pub relative_path : (from to : List Text) → Text
unfolding relative_names join_slash
relative_path from to = join_slash (relative_names from to)

-- What `s.replace(/\.\./g, "")` makes of a text after an unmatched dot, and of the text itself.
unfoldable pub strip_both : Text → Text × Text
strip_both [] = (b'.' ∷ [], [])
strip_both (c ∷ s) =
    let (after_dot, plain) = strip_both s in
    if c == b'.' then (plain, after_dot) else (b'.' ∷ c ∷ plain, c ∷ plain)

unfoldable pub strip_dots : Text → Text
unfolding strip_both
strip_dots s = (strip_both s).1

abbrev pub is_slash : ℕ → Bool
is_slash c = c == b'/' || c == b'\\'

unfoldable pub strip_slashes : Text → Text
strip_slashes s = keep (λ c. not (is_slash c)) s

-- `isOwner`, where `root` is the root of the user.
unfoldable pub is_owner : (root p : List Text) → Bool
unfolding relative_path strip_dots strip_slashes
is_owner root p = text_eq (strip_slashes (strip_dots (relative_path p root))) []
