-- ===== src/Files.antt =====
-- Uploads of files/files.service.ts: the names that it makes of a client's names, and the upload of a
-- large file in parts. The state has the sessions, the part files of each temporary folder, the
-- contents of the destinations and the table of files. The identifiers of sessions, the quota, the
-- user's root and the mime type of a name come from outside.
pub mod Sets
pub mod Sending
pub mod Assembled
pub mod Operations
mod Tests
use shado_cloud.Common.{
  leb, ◌==◌, if◌then◌else◌, all, keep, Result, err, ok, ◌>>=◌, require, Text, text_eq, path_eq, ℕ,
  ◌+◌, Bool, true, false, not, ◌&&◌, ◌||◌, Option, none, some, List, [], ◌∷◌, ◌++◌,
}
use shado_cloud.Paths.{split_names, absolute_path, relative_path, is_owner}
use shado_cloud.Files.Sets.{add_to_set, sort_numbers}

pub record Session : Type 0 where
  pub user : ℕ
  pub dest : Text
  pub filename : Text
  pub total_size : ℕ
  pub dir : List Text
  -- a set, in insertion order
  pub received : List ℕ

pub record FileRow : Type 0 where
  pub user : ℕ
  -- `absolute_path`, which is relative to the user's root
  pub stored_path : Text
  pub mime : Text

-- The file `part_i` of the temporary folder of a destination.
abbrev pub Parts : Type 0
Parts = List Text → ℕ → Option Text

pub record Uploads : Type 0 where
  pub sessions : List (Text × Session)
  pub parts : Parts
  pub content : List Text → Option Text
  pub rows : List FileRow

pub data UploadError : Type 0 where
  no_space no_permission invalid_session part_missing : UploadError

-- The characters that names cannot have.
unfoldable pub is_illegal : ℕ → Bool
is_illegal c =
    c == b'?'
    || c == b'!'
    || c == b'['
    || c == b']'
    || c == b'{'
    || c == b'}'
    || c == b'/'
    || c == b'\\'
    || c == b'*'
    || c == b'<'
    || c == b'>'
    || c == b'|'
    || c == b'"'
    || c == b'\''
    || c == b'@'
    || c == b':'

unfoldable pub drop_dots : Text → Text
drop_dots [] = []
drop_dots (c ∷ s) = if c == b'.' then drop_dots s else c ∷ s

-- `path.basename`: the last name that is not empty.
basename_of : List Text → Text
basename_of [] = []
basename_of (w ∷ ws) = let later = basename_of ws in if text_eq later [] then w else later

unfoldable pub basename : Text → Text
unfolding basename_of split_names
basename p = basename_of (split_names p)

-- `today` is what stands for a name of which nothing is left.
unfoldable pub replace_illegal_chars : Text → Text → Text
unfolding is_illegal drop_dots basename
replace_illegal_chars today filename =
    let name = keep (λ c. not (is_illegal c)) (drop_dots (basename filename)) in
    if text_eq name [] then today else name

-- `verifyFileName` of a path in normal form: whether it does not throw.
unfoldable pub verify_file_name : List Text → Bool
unfolding is_illegal basename_of
verify_file_name path =
    let name = basename_of path in
    elim name [ [] ↦ true | c ∷ s ↦ not (c == b'.') && all (λ d. not (is_illegal d)) (c ∷ s) ]

unfoldable pub get_session : Text → List (Text × Session) → Option Session
get_session id [] = none
get_session id ((key, s) ∷ more) = if text_eq key id then some s else get_session id more

unfoldable pub set_session : Text → Session → List (Text × Session) → List (Text × Session)
set_session id s [] = (id, s) ∷ []
set_session id s ((key, t) ∷ more) =
    if text_eq key id then (id, s) ∷ more else (key, t) ∷ set_session id s more

unfoldable pub delete_session : Text → List (Text × Session) → List (Text × Session)
delete_session id [] = []
delete_session id ((key, s) ∷ more) =
    let rest = delete_session id more in if text_eq key id then rest else (key, s) ∷ rest

-- `used` and `max_data` are those of the user; `id` is the new identifier.
unfoldable pub chunked_upload_init :
    (root : List Text) (today : Text) (used max_data : ℕ) (id : Text) (user : ℕ)
    (dest filename : Text) (total_size : ℕ)
    → Uploads
    → Result UploadError Uploads
unfolding absolute_path is_owner replace_illegal_chars set_session
chunked_upload_init root today used max_data id user dest filename total_size c =
    let dir = absolute_path root (dest ++ b'/' ∷ replace_illegal_chars today filename) in
    require (leb (used + total_size) max_data) no_space (
      require (is_owner root dir) no_permission (
        ok (record c {
          sessions =
              set_session id
                (record {
                  user = user;
                  dest = dest;
                  filename = filename;
                  total_size = total_size;
                  dir = dir;
                  received = [];
                })
                c.sessions;
        })))

-- `if (!upload || upload.userId !== userId) throw`
unfoldable pub find_session : ℕ → Text → Uploads → Result UploadError Session
unfolding get_session
find_session user id c = elim (get_session id c.sessions) [
  | none ↦ err invalid_session
  | some s ↦ require (s.user == user) invalid_session (ok s)
]

-- The part files of one folder, with one of them changed.
unfoldable pub with_part : List Text → ℕ → Option Text → Parts → Parts
with_part dir index bytes parts d i = if path_eq d dir && i == index then bytes else parts d i

unfoldable pub store_part : Text → Session → ℕ → Text → Uploads → Uploads
unfolding with_part set_session add_to_set
store_part id s index bytes c = record c {
  parts = with_part s.dir index (some bytes) c.parts;
  sessions = set_session id (record s { received = add_to_set index s.received }) c.sessions;
}

unfoldable pub chunked_upload_part : ℕ → Text → ℕ → Text → Uploads → Result UploadError Uploads
unfolding find_session store_part
chunked_upload_part user id index bytes c =
    find_session user id c >>= λ s. ok (store_part id s index bytes c)

-- Each part is read to the end of the destination and deleted; a part that is missing stops the
-- copy. With the text so far, whether all were there, and the parts that are left.
unfoldable pub append_parts : List Text → List ℕ → Parts → Text → Text × Bool × Parts
unfolding with_part
append_parts dir [] parts so_far = (so_far, true, parts)
append_parts dir (i ∷ indices) parts so_far = elim (parts dir i) [
  | none ↦ (so_far, false, parts)
  | some bytes ↦ append_parts dir indices (with_part dir i none parts) (so_far ++ bytes)
]

has_upload_row : ℕ → Text → List FileRow → Bool
has_upload_row user path [] = false
has_upload_row user path (r ∷ rs) =
    r.user == user && text_eq r.stored_path path || has_upload_row user path rs

-- A row for the file, where there is none.
unfoldable pub save_upload_row : Text → ℕ → Text → List FileRow → List FileRow
unfolding has_upload_row
save_upload_row mime user path rs =
    if has_upload_row user path rs
    then rs
    else rs ++ record { user = user; stored_path = path; mime = mime } ∷ []

unfoldable pub write_content :
    List Text → Text → (List Text → Option Text) → List Text → Option Text
write_content dir bytes content p = if path_eq p dir then some bytes else content p

-- The temporary folder is deleted.
unfoldable pub drop_parts : List Text → Parts → Parts
drop_parts dir parts d i = if path_eq d dir then none else parts d i

-- The end of the copy: whether it was complete, and what is left of an incomplete one on the disk.
unfoldable pub finish_upload :
    (root : List Text) (mime interrupted : Text) → Session → Text × Bool × Parts → Uploads → Uploads
unfolding write_content drop_parts save_upload_row relative_path
finish_upload root mime interrupted s (bytes, true, parts) c = record c {
  content = write_content s.dir bytes c.content;
  parts = drop_parts s.dir parts;
  rows = save_upload_row mime s.user (relative_path root s.dir) c.rows;
}
finish_upload root mime interrupted s (bytes, false, parts) c = record c {
  content = write_content s.dir interrupted c.content;
  parts = parts;
}

-- Whether the call returns, with the state after it: the session goes in either case.
unfoldable pub complete_session :
    (root : List Text) (mime interrupted : Text) → Text → Session → Uploads → Bool × Uploads
unfolding append_parts finish_upload delete_session sort_numbers
complete_session root mime interrupted id s c =
    let copied = append_parts s.dir (sort_numbers s.received) c.parts [] in
    let after = finish_upload root mime interrupted s copied c in
    (copied.1, record after { sessions = delete_session id after.sessions })

unfoldable pub chunked_upload_complete :
    (root : List Text) (mime interrupted : Text)
    → ℕ
    → Text
    → Uploads
    → Result UploadError Uploads × Uploads
unfolding find_session complete_session
chunked_upload_complete root mime interrupted user id c = elim (find_session user id c) [
  | err e ↦ (err e, c)
  | ok s ↦
      let (returned, after) = complete_session root mime interrupted id s c in
      (if returned then ok after else err part_missing, after)
]
