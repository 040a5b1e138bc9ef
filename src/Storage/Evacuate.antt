-- ===== src/Storage/Evacuate.antt =====
-- `evacuateDrive` of file-system/tiered-storage.service.ts: the links to a drive are promoted, and what
-- is then left on the drive is deleted. The links are those that the walk finds at the start, since a
-- promotion changes no name.
mod Links
pub mod Migrated
pub mod Kept
use shado_cloud.Common.{
  if◌then◌else◌, any, Text, text_eq, ℕ, ◌+◌, Bool, not, Option, none, some, List, [], ◌∷◌,
}
use shado_cloud.Storage.FileSystem.{Node, link, Disk, at, remove}
use shado_cloud.Storage.Traces.{final}
use shado_cloud.Storage.Drives.{cold_root_for, is_below}
use shado_cloud.Storage.Walk.{walk_real_files, walk_symlinks}
use shado_cloud.Storage.{Answers, Promotion, promoted, not_cold, threw, promote}

pub record Evacuation : Type 0 where
  pub migrated : ℕ
  pub bytes : ℕ
  pub errors : ℕ
  pub orphans_removed : ℕ

abbrev pub nothing_done : Evacuation
nothing_done = record { migrated = 0; bytes = 0; errors = 0; orphans_removed = 0 }

-- What comes from outside: how the calls for each path go, the temporary names, the time, and whether
-- a blob can be deleted.
pub record World : Type 0 where
  pub answers : List Text → Answers
  pub tmp_of : List Text → List Text
  pub now : ℕ
  pub can_delete : List Text → Bool

unfoldable pub count_promotion : Promotion → Evacuation → Evacuation
count_promotion (promoted size) r = record r { migrated = r.migrated + 1; bytes = r.bytes + size }
count_promotion not_cold r = r
count_promotion threw r = record r { errors = r.errors + 1 }

module _ (drives : List Text) (cold_root : List Text) (w : World) where
  -- By what `readlink` finds under a path of the walk.
  migrate_found : Option Node → List Text → Evacuation × Disk → Evacuation × Disk
  unfolding count_promotion final promote
  migrate_found (some (link target)) path (r, d) =
      if not (is_below cold_root target)
      then (r, d)
      else let trace = promote (w.answers path) drives (w.tmp_of path) w.now path d in
        (count_promotion trace.0 r, final d trace)
  migrate_found _ path (r, d) = (count_promotion threw r, d)

  unfoldable pub migrate : List (List Text) → Evacuation × Disk → Evacuation × Disk
  unfolding migrate_found at
  migrate [] (r, d) = (r, d)
  migrate (path ∷ links) (r, d) = migrate links (migrate_found (at path d) path (r, d))

  unfoldable pub remove_orphans : List (List Text) → Evacuation × Disk → Evacuation × Disk
  unfolding remove
  remove_orphans [] (r, d) = (r, d)
  remove_orphans (blob ∷ blobs) (r, d) = remove_orphans blobs (
      if w.can_delete blob
      then (record r { orphans_removed = r.orphans_removed + 1 }, remove blob d)
      else (record r { errors = r.errors + 1 }, d))

-- An unknown drive is left alone, and so is every drive where no cloud directory is configured.
unfoldable pub evacuate_drive :
    Option (List Text) → (drives : List Text) → World → Text → Disk → Evacuation × Disk
unfolding migrate remove_orphans walk_real_files walk_symlinks cold_root_for
evacuate_drive none drives w name d = (nothing_done, d)
evacuate_drive (some cloud_dir) drives w name d =
    let cold_root = cold_root_for name in
    if not (any (text_eq name) drives)
    then (nothing_done, d)
    else let (r, migrated) =
        migrate drives cold_root w (walk_symlinks cloud_dir d) (nothing_done, d) in
      remove_orphans drives cold_root w (walk_real_files cold_root migrated) (r, migrated)
