-- ===== src/Storage/Walk.antt =====
-- `walkRealFiles` and `walkSymlinks` of file-system/tiered-storage.service.ts, as the list of what the
-- generator yields from a disk; and `isColdFile` and `coldStats`, which follow the same entries.
use shado_cloud.Common.{
  ◌==◌, if◌then◌else◌, choose, length, All, All-append, Text, text_eq, text_eq_refl, ℕ, zero, suc,
  ◌≡◌, refl, Bool, true, false, ◌||◌, Option, none, some, List, [], ◌∷◌, ◌++◌,
}
use shado_cloud.Storage.Drives.{is_below}
use shado_cloud.Storage.FileSystem.{Node, file, link, folder, Disk}

-- The name under a folder that an entry stands under.
child_name : (dir p : List Text) → Option Text
child_name [] [] = none
child_name [] (w ∷ []) = some w
child_name [] (w ∷ v ∷ p) = none
child_name (a ∷ dir) [] = none
child_name (a ∷ dir) (b ∷ p) = let deeper = child_name dir p in if text_eq a b then deeper else none

with_name : Option Text → Node → List (Text × Node) → List (Text × Node)
with_name none n more = more
with_name (some name) n more = (name, n) ∷ more

-- `readdirSync` with the types of the entries.
unfoldable pub read_dir : List Text → Disk → List (Text × Node)
unfolding child_name with_name
read_dir dir [] = []
read_dir dir ((p, n) ∷ d) = with_name (child_name dir p) n (read_dir dir d)

unfoldable pub is_hidden : Text → Bool
is_hidden [] = false
is_hidden (c ∷ name) = c == b'.' || c == b'_'

unfoldable pub is_real : Node → Bool
is_real (file content time) = true
is_real _ = false

unfoldable pub is_symlink : Node → Bool
is_symlink (link target) = true
is_symlink _ = false

-- One entry: a folder is walked, and what is wanted is yielded.
visit : (Node → Bool) → Node → List (List Text) → List Text → List (List Text)
visit wanted folder inside path = inside
visit wanted n inside path = if wanted n then path ∷ [] else []

gather :
    (Node → Bool)
    → (Text → List (List Text))
    → (Text → List Text)
    → List (Text × Node)
    → List (List Text)
unfolding visit is_hidden
gather wanted inside path [] = []
gather wanted inside path ((name, n) ∷ entries) =
    let more = gather wanted inside path entries in
    if is_hidden name then more else visit wanted n (inside name) (path name) ++ more

-- The walk of `root ++ rel`; no folder is deeper than there are entries.
walk : (Node → Bool) → ℕ → (root rel : List Text) → Disk → List (List Text)
unfolding gather read_dir
walk wanted zero root rel d = []
walk wanted (suc fuel) root rel d =
    gather wanted (λ name. walk wanted fuel root (rel ++ name ∷ []) d)
      (λ name. root ++ rel ++ name ∷ []) (read_dir (root ++ rel) d)

unfoldable pub walk_real_files : List Text → Disk → List (List Text)
unfolding walk is_real
walk_real_files root d = walk is_real (suc (length d)) root [] d

unfoldable pub walk_symlinks : List Text → Disk → List (List Text)
unfolding walk is_symlink
walk_symlinks root d = walk is_symlink (suc (length d)) root [] d

is_below-append :
    (root rel : List Text) (name : Text) → is_below root (root ++ rel ++ name ∷ []) ≡ true
unfolding is_below
is_below-append [] [] name = refl
is_below-append [] (w ∷ rel) name = refl
is_below-append (a ∷ root) rel name = rw (text_eq_refl a) (is_below-append root rel name)

module _ (wanted : Node → Bool) (P : List Text → Type 0) where
  visit-All :
      (n : Node) (inside : List (List Text)) (path : List Text)
      → All P inside
      → P path
      → All P (visit wanted n inside path)
  unfolding visit
  visit-All folder inside path h k = h
  visit-All (file content time) inside path h k =
      choose (All P) (wanted (file content time)) _ _ (λ e. (k, tt)) (λ e. tt)
  visit-All (link target) inside path h k =
      choose (All P) (wanted (link target)) _ _ (λ e. (k, tt)) (λ e. tt)

  gather-All :
      (inside : Text → List (List Text)) (path : Text → List Text) (entries : List (Text × Node))
      → ((name : Text) → All P (inside name) × P (path name))
      → All P (gather wanted inside path entries)
  unfolding gather
  gather-All inside path [] h = tt
  gather-All inside path ((name, n) ∷ entries) h =
      let more = gather-All inside path entries h in
      choose (All P) (is_hidden name) _ _ (λ e. more)
        (λ e.
          All-append P (visit wanted n (inside name) (path name))
            (gather wanted inside path entries)
            (visit-All n (inside name) (path name) (h name).0 (h name).1) more)

walk-below :
    (wanted : Node → Bool) (fuel : ℕ) (root rel : List Text) (d : Disk)
    → All (λ p. is_below root p ≡ true) (walk wanted fuel root rel d)
unfolding walk
walk-below wanted zero root rel d = tt
walk-below wanted (suc fuel) root rel d =
    gather-All wanted (λ p. is_below root p ≡ true) _ _ (read_dir (root ++ rel) d)
      (λ name. (walk-below wanted fuel root (rel ++ name ∷ []) d, is_below-append root rel name))

-- A walk stays under its folder.
pub walk_real_files-below :
    (root : List Text) (d : Disk) → All (λ p. is_below root p ≡ true) (walk_real_files root d)
unfolding walk_real_files
walk_real_files-below root d = walk-below is_real (suc (length d)) root [] d
