-- ===== src/Files/Operations.antt =====
-- `new`, `upload`, `delete` and `rename` of files/files.service.ts, on the disk of tiered storage and the
-- table of files. The thumbnails, the statistics of accesses and the cache of the used space are left
-- out; `able` is whether the call that writes, unlinks or renames goes through.
pub mod Confined
mod Tests
use shado_cloud.Common.{
  ltb, ◌==◌, if◌then◌else◌, length, Text, codes, text_eq, ℕ, ◌+◌, Bool, true, false, not, ◌&&◌,
  Option, none, some, List, [], ◌∷◌, ◌++◌,
}
use shado_cloud.Paths.{absolute_path, relative_path, is_owner}
use shado_cloud.Storage.FileSystem.{Node, file, link, folder, Disk, at, put, remove, rename}
use shado_cloud.Storage.Sweep.{remove_cold_data}
use shado_cloud.Files.{FileRow, replace_illegal_chars, verify_file_name, save_upload_row}

pub record FileStore : Type 0 where
  pub disk : Disk
  pub rows : List FileRow

-- What an operation throws or returns as its message.
pub data FileError : Type 0 where
  no_room not_allowed bad_name call_failed : FileError

-- `none` is a return with no error.
abbrev pub Outcome : Type 0
Outcome = Option FileError × FileStore

-- `writeFileSync`, which follows a link and cannot write a folder.
write_found : Option Node → List Text → Text → ℕ → Disk → Option Disk
unfolding put
write_found (some folder) p content now d = none
write_found (some (link target)) p content now d = some (put target (file content now) d)
write_found _ p content now d = some (put p (file content now) d)

write_file_sync : Bool → List Text → Text → ℕ → Disk → Option Disk
unfolding write_found at
write_file_sync false p content now d = none
write_file_sync true p content now d = write_found (at p d) p content now d

-- The rest of the operation, with the disk, unless the call threw.
on_disk : Option Disk → FileStore → (FileStore → FileStore) → Outcome
on_disk none c next = (some call_failed, c)
on_disk (some d) c next = (none, next (record c { disk = d }))

add_row : ℕ → Text → Text → FileStore → FileStore
add_row user path mime c = record c {
  rows = c.rows ++ record { user = user; stored_path = path; mime = mime } ∷ [];
}

module _ (able : Bool) (now : ℕ) (root : List Text) (user : ℕ) where
  -- A row is added each time.
  unfoldable pub new_file : Text → FileStore → Outcome
  unfolding absolute_path is_owner verify_file_name relative_path on_disk write_file_sync add_row
  new_file name c =
      let dir = absolute_path root name in
      if not (is_owner root dir)
      then (some not_allowed, c)
      else if not (verify_file_name dir)
      then (some bad_name, c)
      else on_disk (write_file_sync able dir [] now c.disk) c
          (add_row user (relative_path root dir) (codes "text/plain"))

  unfoldable pub upload :
      (today : Text) (used max_data : ℕ) (original_name content mime dest : Text)
      → FileStore
      → Outcome
  unfolding absolute_path is_owner replace_illegal_chars relative_path on_disk write_file_sync
      save_upload_row
  upload today used max_data original_name content mime dest c =
      let dir = absolute_path root (dest ++ b'/' ∷ replace_illegal_chars today original_name) in
      if ltb max_data (used + length content)
      then (some no_room, c)
      else if not (is_owner root dir)
      then (some not_allowed, c)
      else on_disk (write_file_sync able dir content now c.disk) c
          (λ e. record e { rows = save_upload_row mime user (relative_path root dir) e.rows })

-- The first row of the file, where there is one.
unfoldable pub drop_upload_row : ℕ → Text → List FileRow → List FileRow
drop_upload_row user path [] = []
drop_upload_row user path (r ∷ rs) =
    let rest = drop_upload_row user path rs in
    if r.user == user && text_eq r.stored_path path then rs else r ∷ rest

unlink_found : Bool → Option Node → List Text → Disk → Option Disk
unfolding remove
unlink_found true (some (file content time)) p d = some (remove p d)
unlink_found true (some (link target)) p d = some (remove p d)
unlink_found _ _ p d = none

move_row : ℕ → (path new_path mime : Text) → List FileRow → List FileRow
move_row user path new_path mime [] =
    record { user = user; stored_path = new_path; mime = mime } ∷ []
move_row user path new_path mime (r ∷ rs) =
    let rest = move_row user path new_path mime rs in
    if r.user == user && text_eq r.stored_path path
    then record r { stored_path = new_path } ∷ rs
    else r ∷ rest

rename_if : Bool → List Text → List Text → Disk → Option Disk
unfolding rename
rename_if false from to d = none
rename_if true from to d = rename from to d

module _ (able : Bool) (root : List Text) (user : ℕ) where
  -- The blob of a cold file goes first, also when the unlinking then fails.
  unfoldable pub delete_file :
      (drives : List Text) → (List Text → Bool) → Text → FileStore → Outcome
  unfolding absolute_path is_owner relative_path remove_cold_data unlink_found on_disk
      drop_upload_row at
  delete_file drives can_delete path c =
      let dir = absolute_path root path in
      if not (is_owner root dir)
      then (some not_allowed, c)
      else let freed = record c { disk = remove_cold_data drives can_delete dir c.disk } in
        on_disk (unlink_found able (at dir freed.disk) dir freed.disk) freed
          (λ e. record e { rows = drop_upload_row user (relative_path root dir) e.rows })

  -- `mime` is what the new name makes of it. Only the owner of the old path is checked.
  unfoldable pub rename_file : (mime name new_name : Text) → FileStore → Outcome
  unfolding absolute_path is_owner verify_file_name relative_path rename_if on_disk move_row
  rename_file mime name new_name c =
      let dir = absolute_path root name in
      let new_dir = absolute_path root new_name in
      if not (is_owner root dir)
      then (some not_allowed, c)
      else if not (verify_file_name new_dir)
      then (some bad_name, c)
      else on_disk (rename_if able dir new_dir c.disk) c (λ e. record e {
        rows = move_row user (relative_path root dir) (relative_path root new_dir) mime e.rows;
      })
