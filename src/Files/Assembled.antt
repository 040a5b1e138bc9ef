-- ===== src/Files/Assembled.antt =====
-- That an upload in parts puts the file together, in whatever order the parts arrive.
use shado_cloud.Common.{
  ltb, ok, Text, path_eq_refl, ℕ, ◌≡◌, refl, sym, ap, ◌∙◌, subst, Bool, true, false, none, some,
  List, [], arith,
}
use shado_cloud.Files.{
  Session, Parts, Uploads, get_session, delete_session, find_session, append_parts, write_content,
  finish_upload, complete_session, chunked_upload_complete,
}
use shado_cloud.Files.Sets.{
  sort_numbers, has, IsDistinct, numbers_from, has-sort_numbers, RisesFrom-sort_numbers,
  numbers_from-RisesFrom,
}
use shado_cloud.Files.Sending.{
  get_session-delete_session, join_parts, send_parts, Stored, after_arrivals, send_parts-Stored,
  has-after_arrivals, dir-after_arrivals, append_parts-all,
}

finish_upload-content :
    (root : List Text) (mime interrupted : Text) (s : Session) (copied : Text × Bool × Parts)
    (c : Uploads)
    → copied.1 ≡ true
    → (finish_upload root mime interrupted s copied c).content s.dir ≡ some copied.0
unfolding finish_upload write_content
finish_upload-content root mime interrupted s (bytes, true, parts) c h =
    rw (path_eq_refl s.dir) refl
finish_upload-content root mime interrupted s (bytes, false, parts) c h = cc

complete-Stored :
    (root : List Text) (mime interrupted : Text) (user : ℕ) (id : Text) (bytes : ℕ → Text)
    (count : ℕ) (c : Uploads) (s : Session)
    → Stored user id bytes c s
    → ((i : ℕ) → has i s.received ≡ ltb i count)
    → (e : Uploads) × (chunked_upload_complete root mime interrupted user id c ≡ (ok e, e))
      × (e.content s.dir ≡ some (join_parts bytes (numbers_from 0 count)))
      × (get_session id e.sessions ≡ none)
unfolding Stored chunked_upload_complete find_session complete_session
complete-Stored root mime interrupted user id bytes count c s (found, own, distinct, there)
      complete =
    let sorted = sort_numbers s.received in
    let rising = RisesFrom-sort_numbers s.received distinct in
    let is_all : sorted ≡ numbers_from 0 count =
      numbers_from-RisesFrom 0 count sorted rising
        (λ i k. ground (arith, has-sort_numbers i s.received, complete i)) in
    let copied = append_parts s.dir sorted c.parts [] in
    let (text, good) =
      append_parts-all s.dir bytes 0 sorted c.parts [] rising
        (λ i h. there i (sym (has-sort_numbers i s.received) ∙ h)) in
    let after = finish_upload root mime interrupted s copied c in
    (
      record after { sessions = delete_session id after.sessions },
      rw (chunked_upload_complete, find_session, found, own, good) refl,
      finish_upload-content root mime interrupted s copied c good
          ∙ ap some (text ∙ ap (join_parts bytes) is_all),
      get_session-delete_session id after.sessions,
    )

-- When the parts of an open upload of the user, of which nothing has arrived yet, come in any order
-- and any number of times, each number below the count at least once and no other, and a part
-- has the same bytes each time, and nothing else happens meanwhile, then completing the upload returns,
-- writes the parts one after another in the order of their numbers to the destination, and closes
-- the session.
pub complete-send_parts :
    (root : List Text) (mime interrupted : Text) (user : ℕ) (id : Text) (bytes : ℕ → Text)
    (count : ℕ) (arrivals : List ℕ) (c : Uploads) (s : Session)
    → get_session id c.sessions ≡ some s
    → s.user ≡ user
    → s.received ≡ []
    → ((i : ℕ) → has i arrivals ≡ ltb i count)
    → (d e : Uploads) × (send_parts user id bytes arrivals c ≡ ok d)
      × (chunked_upload_complete root mime interrupted user id d ≡ (ok e, e))
      × (e.content s.dir ≡ some (join_parts bytes (numbers_from 0 count)))
      × (get_session id e.sessions ≡ none)
unfolding Stored IsDistinct
complete-send_parts root mime interrupted user id bytes count arrivals c s found own fresh
      complete =
    let stored : Stored user id bytes c s = (
      found,
      ground (arith, own),
      subst IsDistinct (sym fresh) tt,
      λ i h. cc (subst (λ r. has i r ≡ true) fresh h),
    ) in
    let (d, sent, later) = send_parts-Stored user id bytes arrivals c s stored in
    let s' = after_arrivals user id bytes arrivals s in
    let counted : (i : ℕ) → has i s'.received ≡ ltb i count = λ i.
      has-after_arrivals user id bytes i arrivals s
      ∙ ground (arith, complete i, ap (has i) fresh) in
    let (e, done, written, closed) =
      complete-Stored root mime interrupted user id bytes count d s' later counted in
    (
      d,
      e,
      sent,
      done,
      subst (λ dir. e.content dir ≡ some (join_parts bytes (numbers_from 0 count)))
          (dir-after_arrivals user id bytes arrivals s) written,
      closed,
    )
