-- ===== src/Files/Sending.antt =====
-- The sessions and the part files while the parts of an upload arrive.
use shado_cloud.Common.{
  ◌==◌, Bool-cases, Result, ok, ◌>>=◌, Text, text_eq_refl, path_eq_refl, ℕ, suc, ◌≡◌, refl, sym, ap,
  ◌∙◌, subst, inl, inr, true, false, ◌||◌, none, some, List, [], ◌∷◌, ◌++◌, arith,
}
use shado_cloud.Files.{
  Session, Parts, Uploads, UploadError, get_session, set_session, delete_session, find_session,
  with_part, store_part, chunked_upload_part, append_parts,
}
use shado_cloud.Files.Sets.{
  add_to_set, has, IsDistinct, RisesFrom, has-add_to_set, IsDistinct-add_to_set, has-low,
}
use mathlib.Core.List.{append_assoc, append-nil}

get_session-set_session :
    (id : Text) (s : Session) (entries : List (Text × Session))
    → get_session id (set_session id s entries) ≡ some s
unfolding get_session set_session
get_session-set_session id s [] = rw (text_eq_refl id) refl
get_session-set_session id s ((key, t) ∷ more) =
    ground (arith, text_eq_refl id, get_session-set_session id s more)

pub get_session-delete_session :
    (id : Text) (entries : List (Text × Session))
    → get_session id (delete_session id entries) ≡ none
unfolding get_session delete_session
get_session-delete_session id [] = refl
get_session-delete_session id ((key, t) ∷ more) = ground (arith, get_session-delete_session id more)

-- The contents of the parts, in order.
unfoldable pub join_parts : (ℕ → Text) → List ℕ → Text
join_parts bytes [] = []
join_parts bytes (i ∷ indices) = bytes i ++ join_parts bytes indices

-- The parts with these numbers arrive one after another.
unfoldable pub send_parts : ℕ → Text → (ℕ → Text) → List ℕ → Uploads → Result UploadError Uploads
unfolding chunked_upload_part
send_parts user id bytes [] c = ok c
send_parts user id bytes (i ∷ indices) c =
    chunked_upload_part user id i (bytes i) c >>= send_parts user id bytes indices

module _ (user : ℕ) (id : Text) (bytes : ℕ → Text) where
  unfoldable pub Stored : Uploads → Session → Type 0
  Stored c s =
      (get_session id c.sessions ≡ some s)
      × ((s.user == user) ≡ true)
      × IsDistinct s.received
      × ((i : ℕ) → has i s.received ≡ true → c.parts s.dir i ≡ some (bytes i))

  chunked_upload_part-eq :
      (i : ℕ) (c : Uploads) (s : Session)
      → Stored c s
      → chunked_upload_part user id i (bytes i) c ≡ ok (store_part id s i (bytes i) c)
  unfolding Stored chunked_upload_part find_session
  chunked_upload_part-eq i c s (found, own, distinct, there) =
      rw (chunked_upload_part, find_session, found, own) refl

  store_part-Stored :
      (i : ℕ) (c : Uploads) (s : Session)
      → Stored c s
      → Stored (store_part id s i (bytes i) c) (record s { received = add_to_set i s.received })
  unfolding Stored store_part with_part
  store_part-Stored i c s (found, own, distinct, there) = (
    get_session-set_session id (record s { received = add_to_set i s.received }) c.sessions,
    own,
    IsDistinct-add_to_set i s.received distinct,
    λ j h. elim (Bool-cases (j == i)) [
      | inl e ↦
          let same : j ≡ i = ground (arith, e) in
          rw (with_part, path_eq_refl s.dir, e) (ap (λ k. some (bytes k)) (sym same))
      | inr e ↦
          let older : has j s.received ≡ true =
            ground (arith, e, h, has-add_to_set j i s.received) in
          rw (with_part, path_eq_refl s.dir, e) (there j older)
    ],
  )

  -- The session after the arrivals.
  unfoldable pub after_arrivals : List ℕ → Session → Session
  after_arrivals [] s = s
  after_arrivals (i ∷ indices) s =
      after_arrivals indices (record s { received = add_to_set i s.received })

  pub send_parts-Stored :
      (indices : List ℕ) (c : Uploads) (s : Session)
      → Stored c s
      → (d : Uploads) × (send_parts user id bytes indices c ≡ ok d)
        × Stored d (after_arrivals indices s)
  unfolding send_parts after_arrivals
  send_parts-Stored [] c s stored = (c, refl, stored)
  send_parts-Stored (i ∷ indices) c s stored =
      let c1 = store_part id s i (bytes i) c in
      let (d, sent, later) =
        send_parts-Stored indices c1 (record s { received = add_to_set i s.received })
          (store_part-Stored i c s stored) in
      (
        d,
        ap (λ r. r >>= send_parts user id bytes indices) (chunked_upload_part-eq i c s stored)
            ∙ sent,
        later,
      )

  pub has-after_arrivals :
      (j : ℕ) (indices : List ℕ) (s : Session)
      → has j (after_arrivals indices s).received ≡ (has j indices || has j s.received)
  unfolding after_arrivals
  has-after_arrivals j [] s = refl
  has-after_arrivals j (i ∷ indices) s =
      has-after_arrivals j indices (record s { received = add_to_set i s.received })
      ∙ ground (arith, has-add_to_set j i s.received)

  pub dir-after_arrivals : (indices : List ℕ) (s : Session) → (after_arrivals indices s).dir ≡ s.dir
  unfolding after_arrivals
  dir-after_arrivals [] s = refl
  dir-after_arrivals (i ∷ indices) s =
      dir-after_arrivals indices (record s { received = add_to_set i s.received })

-- With all parts there, the copy goes through to the end.
pub append_parts-all :
    (dir : List Text) (bytes : ℕ → Text) (low : ℕ) (indices : List ℕ) (parts : Parts)
    (so_far : Text)
    → RisesFrom low indices
    → ((i : ℕ) → has i indices ≡ true → parts dir i ≡ some (bytes i))
    → ((append_parts dir indices parts so_far).0 ≡ so_far ++ join_parts bytes indices)
      × ((append_parts dir indices parts so_far).1 ≡ true)
unfolding append_parts join_parts RisesFrom with_part
append_parts-all dir bytes low [] parts so_far rising there = (sym (append-nil so_far), refl)
append_parts-all dir bytes low (i ∷ indices) parts so_far (here, rising) there =
    let found : parts dir i ≡ some (bytes i) = there i (ground arith) in
    let (text, complete) =
      append_parts-all dir bytes (suc i) indices (with_part dir i none parts) (so_far ++ bytes i)
        rising
        (λ j h.
          let other : (j == i) ≡ false = elim (Bool-cases (j == i)) [
            | inl e ↦
                let same : j ≡ i = ground (arith, e) in
                cc (
                  sym (subst (λ k. has k indices ≡ true) same h)
                  ∙ has-low (suc i) i indices rising (omega arith))
            | inr e ↦ e
          ] in
          rw (with_part, path_eq_refl dir, other) (there j (ground (arith, h)))) in
    rw (append_parts, found)
      (text ∙ append_assoc so_far (bytes i) (join_parts bytes indices), complete)
