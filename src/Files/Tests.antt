-- ===== src/Files/Tests.antt =====
-- An upload in parts, from its start to its end.
use shado_cloud.Common.{
  ltb, err, ok, Text, codes, path_eq, ℕ, ◌+◌, ◌≡◌, refl, none, some, List, [], ◌∷◌, arith,
}
use shado_cloud.Paths.{absolute_path, is_owner}
use shado_cloud.Files.{
  Session, Uploads, no_permission, invalid_session, replace_illegal_chars, get_session, set_session,
  chunked_upload_init, chunked_upload_complete,
}
use shado_cloud.Files.Sending.{join_parts, send_parts}
use shado_cloud.Files.Sets.{has, numbers_from}
use shado_cloud.Files.Assembled.{complete-send_parts}

abbrev home : List Text
home = codes "cloud" ∷ codes "ann" ∷ []

abbrev upload_id : Text
upload_id = codes "u1"

abbrev session : Session
session = record {
  user = 1;
  dest = [];
  filename = codes ".a?.bin";
  total_size = 3;
  dir = codes "cloud" ∷ codes "ann" ∷ codes "a.bin" ∷ [];
  received = [];
}

abbrev before : Uploads
before = record { sessions = []; parts = λ d i. none; content = λ p. none; rows = [] }

abbrev opened : Uploads
opened = record before { sessions = (upload_id, session) ∷ [] }

started :
    chunked_upload_init home (codes "today") 10 20 upload_id 1 [] (codes ".a?.bin") 3 before
    ≡ ok opened
unfolding chunked_upload_init absolute_path is_owner replace_illegal_chars set_session
started = refl

outside_home :
    chunked_upload_init home (codes "today") 10 20 upload_id 1 (codes "../bob") (codes "a") 3 before
    ≡ err no_permission
unfolding chunked_upload_init absolute_path is_owner replace_illegal_chars
outside_home = refl

part_bytes : ℕ → Text
part_bytes i = (i + 65) ∷ []

abbrev arrived : List ℕ
arrived = 2 ∷ 0 ∷ 1 ∷ 0 ∷ []

all_parts : (i : ℕ) → has i arrived ≡ ltb i 3
all_parts i = ground arith

complete-send_parts_example :
    (d e : Uploads) × (send_parts 1 upload_id part_bytes arrived opened ≡ ok d)
    × (chunked_upload_complete home (codes "m") [] 1 upload_id d ≡ (ok e, e))
    × (e.content session.dir ≡ some (join_parts part_bytes (numbers_from 0 3)))
    × (get_session upload_id e.sessions ≡ none)
unfolding get_session
complete-send_parts_example =
    complete-send_parts home (codes "m") [] 1 upload_id part_bytes 3 arrived opened session refl
      refl refl all_parts

-- Another user is refused, and nothing changes.
other_user : chunked_upload_complete home [] [] 2 upload_id opened ≡ (err invalid_session, opened)
unfolding chunked_upload_complete
other_user = refl

-- A part that is missing on the disk stops the copy, and the session goes all the same.
part_lost :
    get_session upload_id
      (chunked_upload_complete home [] [] 1 upload_id (record opened {
        sessions = (upload_id, record session { received = 0 ∷ [] }) ∷ [];
      })).1.sessions
    ≡ none
unfolding chunked_upload_complete get_session
part_lost = refl

-- Parts 0 and 2 of three: the gap is not noticed.
abbrev with_gap : Uploads
with_gap = record opened {
  sessions = (upload_id, record session { received = 2 ∷ 0 ∷ [] }) ∷ [];
  parts = λ d i. some (part_bytes i);
}

gap_unnoticed :
    (chunked_upload_complete home [] [] 1 upload_id with_gap).1.content session.dir
    ≡ some (65 ∷ 67 ∷ [])
unfolding chunked_upload_complete part_bytes path_eq
gap_unnoticed = refl
