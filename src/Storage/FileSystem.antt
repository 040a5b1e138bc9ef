-- ===== src/Storage/FileSystem.antt =====
-- The part of file-system/file-system.service.ts (node's `fs`) that tiered storage calls: entries under
-- absolute paths, of which a symbolic link holds the path that it points to. A call that returns no
-- disk has thrown and has changed nothing. Where node refuses a call because a folder above the path
-- is missing or is a file, or because the entry at the target is of another kind, the call here goes
-- through: the model has these executions in addition.
pub mod Calls
use shado_cloud.Common.{if◌then◌else◌, Text, path_eq, ℕ, Option, none, some, List, [], ◌∷◌, ◌++◌}

pub data Node : Type 0 where
  -- with its content and the time of its last access
  file : Text → ℕ → Node
  link : List Text → Node
  folder : Node

abbrev pub Disk : Type 0
Disk = List (List Text × Node)

-- `lstatSync`
unfoldable pub at : List Text → Disk → Option Node
at p [] = none
at p ((q, n) ∷ d) = if path_eq q p then some n else at p d

unfoldable pub put : List Text → Node → Disk → Disk
put p n [] = (p, n) ∷ []
put p n ((q, m) ∷ d) = if path_eq q p then (p, n) ∷ d else (q, m) ∷ put p n d

unfoldable pub remove : List Text → Disk → Disk
remove p [] = []
remove p ((q, m) ∷ d) = let rest = remove p d in if path_eq q p then rest else (q, m) ∷ rest

unfoldable pub content_of : Option Node → Option Text
content_of (some (file content time)) = some content
content_of _ = none

-- What is read under a path: a link is followed.
unfoldable pub read_node : Option Node → Disk → Option Text
unfolding content_of at
read_node (some (link target)) d = content_of (at target d)
read_node n d = content_of n

unfoldable pub read : List Text → Disk → Option Text
unfolding read_node at
read p d = read_node (at p d) d

-- Where a write goes.
unfoldable pub place_of : List Text → Option Node → List Text
place_of p (some (link target)) = target
place_of p _ = p

copy_found : Option Text → List Text → ℕ → Disk → Option Disk
unfolding put
copy_found none place now d = none
copy_found (some content) place now d = some (put place (file content now) d)

unfoldable pub copy_file : List Text → List Text → ℕ → Disk → Option Disk
unfolding read place_of at copy_found
copy_file from to now d = copy_found (read from d) (place_of to (at to d)) now d

link_if_free : Option Node → List Text → List Text → Disk → Option Disk
unfolding put
link_if_free none target p d = some (put p (link target) d)
link_if_free (some n) target p d = none

unfoldable pub symlink : List Text → List Text → Disk → Option Disk
unfolding at link_if_free
symlink target p d = link_if_free (at p d) target p d

rename_found : Option Node → List Text → List Text → Disk → Option Disk
unfolding put remove
rename_found none from to d = none
rename_found (some n) from to d = some (put to n (remove from d))

unfoldable pub rename : List Text → List Text → Disk → Option Disk
unfolding at rename_found
rename from to d = rename_found (at from d) from to d

remove_found : Option Node → List Text → Disk → Option Disk
unfolding remove
remove_found (some folder) p d = none
remove_found n p d = some (remove p d)

-- `rmSync(p, { force: true })`: a missing file is no error, a folder is.
unfoldable pub rm_file : List Text → Disk → Option Disk
unfolding at remove_found
rm_file p d = remove_found (at p d) p d

-- `mkdirSync(p, { recursive: true })`, from the root on; `done` is the part of the path that is there.
unfoldable pub make_folder : List Text → Disk → Disk
unfolding at put
make_folder p d = elim (at p d) [ none ↦ put p folder d | some n ↦ d ]

unfoldable pub make_folders : (done names : List Text) → Disk → Disk
unfolding make_folder
make_folders done [] d = d
make_folders done (w ∷ names) d =
    make_folders (done ++ w ∷ []) names (make_folder (done ++ w ∷ []) d)
