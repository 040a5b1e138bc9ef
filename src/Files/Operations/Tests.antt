-- ===== src/Files/Operations/Tests.antt =====
-- One file of one user.
use shado_cloud.Common.{Text, codes, path_eq, ◌≡◌, refl, true, none, some, List, [], ◌∷◌}
use shado_cloud.Paths.{absolute_path, relative_path, is_owner}
use shado_cloud.Storage.FileSystem.{file, at}
use shado_cloud.Files.{replace_illegal_chars, verify_file_name}
use shado_cloud.Files.Operations.{
  FileStore, not_allowed, bad_name, new_file, upload, delete_file, rename_file,
}

abbrev ann : List Text
ann = codes "cloud" ∷ codes "ann" ∷ []

abbrev note_path : List Text
note_path = codes "cloud" ∷ codes "ann" ∷ codes "n.txt" ∷ []

abbrev store : FileStore
store = record {
  disk = (note_path, file (1 ∷ []) 1) ∷ [];
  rows = record { user = 1; stored_path = codes "n.txt"; mime = codes "text/plain" } ∷ [];
}

-- A file can be moved into the folder of another user.
moved_away :
    at
      (codes "cloud" ∷ codes "bob" ∷ codes "n.txt" ∷ [])
      (rename_file true ann 1
        (codes "text/plain")
        (codes "n.txt")
        (codes "../bob/n.txt")
        store).1.disk
    ≡ some (file (1 ∷ []) 1)
unfolding rename_file at path_eq absolute_path is_owner verify_file_name
moved_away = refl

not_uploaded :
    (upload true 2 ann 1
      (codes "d")
      0
      9
      (codes "n.txt")
      (5 ∷ [])
      (codes "t")
      (codes "../bob")
      store).0
    ≡ some not_allowed
unfolding upload absolute_path is_owner replace_illegal_chars
not_uploaded = refl

gone : (delete_file true ann 1 [] (λ p. true) (codes "n.txt") store).1.rows ≡ []
unfolding delete_file at path_eq absolute_path is_owner relative_path
gone = refl

created : (new_file true 3 ann 1 (codes "m.txt") store).0 ≡ none
unfolding new_file absolute_path is_owner verify_file_name at path_eq
created = refl

hidden_refused : (new_file true 3 ann 1 (codes ".m") store).0 ≡ some bad_name
unfolding new_file absolute_path is_owner verify_file_name
hidden_refused = refl

abbrev of_bob : List Text
of_bob = codes "cloud" ∷ codes "bob" ∷ codes "b.txt" ∷ []
