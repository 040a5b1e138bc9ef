-- ===== src/Storage/Returns.antt =====
-- Demotion and promotion where every call succeeds.
use shado_cloud.Storage.Held.{read-Held, Held-read, Held-make_folders, is_link-make_folders}
use shado_cloud.Paths.{drop_last}
use shado_cloud.Storage.Drives.{is_under_cold_mount}
use shado_cloud.Storage.Demoted.{Separate}
use shado_cloud.Storage.Promoted.{Ready, read-at}
use shado_cloud.Common.{
  length, Text, path_eq, ℕ, ◌≡◌, refl, ap, ◌∙◌, true, false, Option, none, some, List, [], ◌∷◌,
}
use shado_cloud.Storage.{
  Answers, cold_path, swap_for_link, copy_to_cold, move_to_cold, demote_found, demote, promoted,
  copy_back, promote_blob, promote_found, promote,
}
use shado_cloud.Storage.FileSystem.{
  file, link, Disk, at, put, remove, read, copy_file, symlink, rename, rm_file, make_folders,
}
use shado_cloud.Storage.FileSystem.Calls.{
  at-put_same, at-put_other, at-remove_other, path_neq_sym, is_link, copy_file-some, symlink-some,
  rename-some, rm_file-some,
}
use shado_cloud.Storage.Traces.{Trace, last_of, now_at, call, final}

abbrev pub all_well : Answers
all_well = record {
  mkdir = true;
  copy = true;
  partial = none;
  symlink_made = true;
  renamed = true;
  link_removed = true;
  blob_removed = true;
}

call-some :
    {R : Type 0} (result : Option Disk) (d : Disk) (next : Disk → Trace R) (caught : Trace R)
    → result ≡ some d
    → call true result next caught ≡ now_at d (next d)
unfolding call
call-some result d next caught e = rw (call, e) refl

-- The disk after a demotion that nothing disturbs: `made` is the disk with the folders of the blob.
unfoldable pub swapped_disk : (cold tmp path : List Text) → ℕ → Text → Disk → Disk
swapped_disk cold tmp path now c made =
    put path (link cold) (remove tmp (put tmp (link cold) (put cold (file c now) made)))

module _ (cold tmp path : List Text) (now : ℕ) (c : Text) where
  copied-end :
      (made : Disk)
      → read path made ≡ some c
      → is_link (at cold made) ≡ false
      → at tmp made ≡ none
      → path_eq cold tmp ≡ false
      → (x : List Disk) × (copy_to_cold all_well cold tmp now path made ≡ (true, x))
        × (last_of made x ≡ swapped_disk cold tmp path now c made)
  unfolding copy_to_cold swap_for_link now_at last_of swapped_disk
  copied-end made h plain free other =
      let d1 = put cold (file c now) made in
      let d2 = put tmp (link cold) d1 in
      let d3 = put path (link cold) (remove tmp d2) in
      (
        d1 ∷ d2 ∷ d3 ∷ [],
        call-some (copy_file path cold now made) d1 _ _
              (copy_file-some path cold now c made h plain)
            ∙ ap (now_at d1) (
                call-some (symlink cold tmp d1) d2 _ _
                  (symlink-some cold tmp d1 (at-put_other cold tmp (file c now) made other ∙ free))
                ∙ ap (now_at d2) (
                    call-some (rename tmp path d2) d3 _ _
                      (rename-some tmp path (link cold) d2 (at-put_same tmp (link cold) d1)))),
        refl,
      )

unfoldable pub came_back_disk : (cold tmp path : List Text) → ℕ → Text → Disk → Disk
came_back_disk cold tmp path now c d =
    remove cold (put path (file c now) (remove tmp (put tmp (file c now) d)))

module _ (cold tmp path : List Text) (now : ℕ) (c : Text) where
  copied_back-end :
      (size time : ℕ) (d : Disk)
      → at cold d ≡ some (file c time)
      → Ready cold tmp path d
      → (x : List Disk) × (copy_back all_well size cold tmp now path d ≡ (promoted size, x))
        × (last_of d x ≡ came_back_disk cold tmp path now c d)
  unfolding copy_back now_at last_of came_back_disk
  copied_back-end size time d here ready =
      let d1 = put tmp (file c now) d in
      let d2 = put path (file c now) (remove tmp d1) in
      let d3 = remove cold d2 in
      let blob : at cold d2 ≡ some (file c time) =
        at-put_other path cold (file c now) (remove tmp d1) ready.path_not_blob
        ∙ at-remove_other tmp cold d1 ready.tmp_not_blob
        ∙ at-put_other tmp cold (file c now) d ready.tmp_not_blob
        ∙ here in
      (
        d1 ∷ d2 ∷ d3 ∷ [],
        call-some (copy_file cold tmp now d) d1 _ _
              (copy_file-some cold tmp now c d (read-at cold c time d here) ready.no_link_at_tmp)
            ∙ ap (now_at d1) (
                call-some (rename tmp path d1) d2 _ _
                  (rename-some tmp path (file c now) d1 (at-put_same tmp (file c now) d))
                ∙ ap (now_at d2)
                    (call-some (rm_file cold d2) d3 _ _ (rm_file-some cold c time d2 blob))),
        refl,
      )

pub demote-end :
    (cloud_dir cold_root tmp : List Text) (now : ℕ) (path : List Text) (c : Text) (time : ℕ)
    (d : Disk)
    → at path d ≡ some (file c time)
    → Separate (cold_path cloud_dir cold_root path) tmp path d
    → at tmp (make_folders [] (drop_last (cold_path cloud_dir cold_root path)) d) ≡ none
    → ((demote all_well cloud_dir cold_root tmp now path d).0 ≡ true)
      × (final d (demote all_well cloud_dir cold_root tmp now path d)
          ≡ swapped_disk
              (cold_path cloud_dir cold_root path)
              tmp
              path
              now
              c
              (make_folders [] (drop_last (cold_path cloud_dir cold_root path)) d))
unfolding demote demote_found move_to_cold call now_at final last_of
demote-end cloud_dir cold_root tmp now path c time d here apart free =
    let cold = cold_path cloud_dir cold_root path in
    let made = make_folders [] (drop_last cold) d in
    let (n, held) = Held-read path c d (read-at path c time d here) in
    let source = read-Held path n c made (Held-make_folders [] (drop_last cold) path n c d held) in
    let plain = is_link-make_folders [] (drop_last cold) cold d apart.no_link_at_blob in
    let other = path_neq_sym tmp cold apart.tmp_not_blob in
    let (x, done, last) = copied-end cold tmp path now c made source plain free other in
    let all_done : demote all_well cloud_dir cold_root tmp now path d ≡ (true, made ∷ x) =
      rw (demote, here) (ap (now_at made) done) in
    (ap (λ t. t.0) all_done, ap (final d) all_done ∙ last)

pub promote-end :
    (drives tmp : List Text) (now : ℕ) (cold path : List Text) (c : Text) (time : ℕ) (d : Disk)
    → at path d ≡ some (link cold)
    → at cold d ≡ some (file c time)
    → is_under_cold_mount drives cold ≡ true
    → Ready cold tmp path d
    → ((promote all_well drives tmp now path d).0 ≡ promoted (length c))
      × (final d (promote all_well drives tmp now path d) ≡ came_back_disk cold tmp path now c d)
unfolding promote promote_found promote_blob final
promote-end drives tmp now cold path c time d linked blob under ready =
    let (x, done, last) = copied_back-end cold tmp path now c (length c) time d blob ready in
    let all_done : promote all_well drives tmp now path d ≡ (promoted (length c), x) =
      rw (promote, linked, under, blob) done in
    (ap (λ t. t.0) all_done, ap (final d) all_done ∙ last)
