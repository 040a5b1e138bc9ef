-- ===== src/Storage.antt =====
-- file-system/tiered-storage.service.ts: stale files move to a cold drive and leave a link behind, and
-- come back when they are read. Each call on the file system can fail for a reason from outside; an
-- operation gives its result with the states that the disk goes through, so that a crash between two
-- calls is seen as well.
pub mod FileSystem
pub mod Traces
pub mod Drives
pub mod Held
pub mod Demoted
pub mod Promoted
pub mod Walk
pub mod Evacuate
pub mod Returns
pub mod RoundTrip
pub mod Sweep
mod Tests
use shado_cloud.Storage.Drives.{is_under_cold_mount}
use shado_cloud.Common.{
  if◌then◌else◌, length, Text, ℕ, Bool, true, false, not, Option, none, some, List, [], ◌∷◌,
}
use shado_cloud.Paths.{drop_last, enter_names, relative_names}
use shado_cloud.Storage.FileSystem.{
  Node, file, link, Disk, at, put, place_of, copy_file, symlink, rename, rm_file, make_folders,
}
use shado_cloud.Storage.Traces.{Trace, now_at, call}

-- Which of the calls of `demote` and `promote` succeed, and what a copy that fails leaves behind.
pub record Answers : Type 0 where
  pub mkdir : Bool
  pub copy : Bool
  pub partial : Option Text
  pub symlink_made : Bool
  pub renamed : Bool
  pub link_removed : Bool
  pub blob_removed : Bool

-- `path.join(coldRoot, path.relative(cloudDir, absPath))`
unfoldable pub cold_path : (cloud_dir cold_root path : List Text) → List Text
unfolding enter_names relative_names
cold_path cloud_dir cold_root path = enter_names cold_root (relative_names cloud_dir path)

-- The destination after a failed copy.
unfoldable pub copy_remains : Option Text → List Text → ℕ → Disk → Disk
copy_remains none to now d = d
copy_remains (some content) to now d = put (place_of to (at to d)) (file content now) d

module _ (a : Answers) where
  -- The error path of `demote`.
  unfoldable pub undo_demote : (cold tmp_link : List Text) → Disk → Trace Bool
  unfolding call rm_file
  undo_demote cold tmp_link d =
      call a.link_removed (rm_file tmp_link d)
        (λ d1. call a.blob_removed (rm_file cold d1) (λ d2. (false, [])) (false, [])) (false, [])

  unfoldable pub swap_for_link : (cold tmp_link path : List Text) → Disk → Trace Bool
  unfolding call symlink rename undo_demote
  swap_for_link cold tmp_link path d =
      call a.symlink_made (symlink cold tmp_link d)
        (λ d1.
          call a.renamed (rename tmp_link path d1) (λ d2. (true, []))
            (undo_demote cold tmp_link d1))
        (undo_demote cold tmp_link d)

  -- `true` is a return, `false` a throw.
  unfoldable pub copy_to_cold : (cold tmp_link : List Text) → ℕ → List Text → Disk → Trace Bool
  unfolding call copy_file swap_for_link copy_remains
  copy_to_cold cold tmp_link now path d =
      call a.copy (copy_file path cold now d) (swap_for_link cold tmp_link path)
        (false, copy_remains a.partial cold now d ∷ [])

  -- `cold` is `coldPath`; the folder of the blob is made first.
  unfoldable pub move_to_cold : (cold tmp_link : List Text) → ℕ → List Text → Disk → Trace Bool
  unfolding call make_folders copy_to_cold
  move_to_cold cold tmp_link now path d =
      call a.mkdir (some (make_folders [] (drop_last cold) d)) (copy_to_cold cold tmp_link now path)
        (false, [])

  -- By what `lstat` finds.
  unfoldable pub demote_found :
      Option Node → (cold tmp_link : List Text) → ℕ → List Text → Disk → Trace Bool
  unfolding move_to_cold
  demote_found none cold tmp_link now path d = (false, [])
  demote_found (some (link target)) cold tmp_link now path d = (true, [])
  demote_found (some n) cold tmp_link now path d = move_to_cold cold tmp_link now path d

  unfoldable pub demote :
      (cloud_dir cold_root tmp_link : List Text) → ℕ → List Text → Disk → Trace Bool
  unfolding at cold_path demote_found
  demote cloud_dir cold_root tmp_link now path d =
      demote_found (at path d) (cold_path cloud_dir cold_root path) tmp_link now path d

-- The end of `promote`: the size of what came back, `null`, or a throw.
pub data Promotion : Type 0 where
  promoted : ℕ → Promotion
  not_cold threw : Promotion

module _ (a : Answers) where
  unfoldable pub undo_promote : List Text → Disk → Trace Promotion
  unfolding call rm_file
  undo_promote tmp d = call a.link_removed (rm_file tmp d) (λ d1. (threw, [])) (threw, [])

  -- With the size of the blob.
  unfoldable pub copy_back : ℕ → (target tmp : List Text) → ℕ → List Text → Disk → Trace Promotion
  unfolding call copy_file rename rm_file undo_promote copy_remains now_at
  copy_back size target tmp now path d =
      call a.copy (copy_file target tmp now d)
        (λ d1.
          call a.renamed (rename tmp path d1)
            (λ d2. call a.blob_removed (rm_file target d2) (λ d3. (promoted size, [])) (threw, []))
            (undo_promote tmp d1))
        (now_at (copy_remains a.partial tmp now d)
          (undo_promote tmp (copy_remains a.partial tmp now d)))

  -- `stat` of the blob throws where there is none; a folder under that name cannot be copied.
  unfoldable pub promote_blob :
      Option Node → (target tmp : List Text) → ℕ → List Text → Disk → Trace Promotion
  unfolding copy_back
  promote_blob none target tmp now path d = (threw, [])
  promote_blob (some (file content time)) target tmp now path d =
      copy_back (length content) target tmp now path d
  promote_blob (some other) target tmp now path d = copy_back 0 target tmp now path d

  unfoldable pub promote_found :
      Option Node → List Text → (tmp : List Text) → ℕ → List Text → Disk → Trace Promotion
  unfolding at is_under_cold_mount promote_blob
  promote_found none drives tmp now path d = (threw, [])
  promote_found (some (link target)) drives tmp now path d =
      if not (is_under_cold_mount drives target)
      then (not_cold, [])
      else promote_blob (at target d) target tmp now path d
  promote_found (some n) drives tmp now path d = (not_cold, [])

  unfoldable pub promote : List Text → (tmp : List Text) → ℕ → List Text → Disk → Trace Promotion
  unfolding at promote_found
  promote drives tmp now path d = promote_found (at path d) drives tmp now path d
