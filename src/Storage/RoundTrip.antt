-- ===== src/Storage/RoundTrip.antt =====
-- A demotion and the promotion after it.
use shado_cloud.Common.{
  length, Text, path_eq, path_eq_refl, ℕ, ◌≡◌, refl, ap, ◌∙◌, true, false, none, some, List, [],
}
use shado_cloud.Paths.{drop_last}
use shado_cloud.Storage.{cold_path, demote, promoted, promote}
use shado_cloud.Storage.Drives.{is_under_cold_mount}
use shado_cloud.Storage.FileSystem.{file, link, Disk, at, put, make_folders}
use shado_cloud.Storage.FileSystem.Calls.{
  at-remove, at-put_same, at-put_other, at-remove_other, path_neq_sym, is_link,
}
use shado_cloud.Storage.Traces.{final}
use shado_cloud.Storage.Demoted.{Separate}
use shado_cloud.Storage.Promoted.{Ready}
use shado_cloud.Storage.Returns.{all_well, swapped_disk, came_back_disk, demote-end, promote-end}

module _ (cold tmp path : List Text) (now : ℕ) (c : Text) (d : Disk) where
  at_path-swapped : at path (swapped_disk cold tmp path now c d) ≡ some (link cold)
  unfolding swapped_disk
  at_path-swapped = at-put_same path (link cold) _

  at-swapped_disk :
      (q : List Text)
      → path_eq path q ≡ false
      → path_eq tmp q ≡ false
      → at q (swapped_disk cold tmp path now c d) ≡ at q (put cold (file c now) d)
  unfolding swapped_disk
  at-swapped_disk q other second =
      at-put_other path q (link cold) _ other
      ∙ at-remove_other tmp q _ second
      ∙ at-put_other tmp q (link cold) _ second

  at_path-came_back :
      path_eq cold path ≡ false → at path (came_back_disk cold tmp path now c d) ≡ some (file c now)
  unfolding came_back_disk
  at_path-came_back other = at-remove_other cold path _ other ∙ at-put_same path (file c now) _

  at_blob-came_back : at cold (came_back_disk cold tmp path now c d) ≡ none
  unfolding came_back_disk
  at_blob-came_back = at-remove cold cold _ ∙ rw (path_eq_refl cold) refl

-- The second temporary name is none of the other names.
pub record IsFourth (cold tmp tmp' path : List Text) : Type 0 where
  pub second_not_path : path_eq tmp' path ≡ false
  pub second_not_blob : path_eq tmp' cold ≡ false
  pub second_not_first : path_eq tmp' tmp ≡ false

-- Where all calls succeed, a file that is demoted and then promoted comes back: the first call leaves
-- a link to a blob with the content of the file, and the second one the file with its content, and no
-- blob; provided that the names involved are different ones, that the place of the blob is under a
-- cold drive, that no link stands there, and that the temporary names are free.
pub promote-demote :
    (drives cloud_dir cold_root tmp tmp' : List Text) (now now' : ℕ) (path : List Text) (c : Text)
    (time : ℕ) (d : Disk)
    → at path d ≡ some (file c time)
    → Separate (cold_path cloud_dir cold_root path) tmp path d
    → at tmp (make_folders [] (drop_last (cold_path cloud_dir cold_root path)) d) ≡ none
    → is_under_cold_mount drives (cold_path cloud_dir cold_root path) ≡ true
    → IsFourth (cold_path cloud_dir cold_root path) tmp tmp' path
    → at tmp' (make_folders [] (drop_last (cold_path cloud_dir cold_root path)) d) ≡ none
    → (e f : Disk) × ((demote all_well cloud_dir cold_root tmp now path d).0 ≡ true)
      × (final d (demote all_well cloud_dir cold_root tmp now path d) ≡ e)
      × (at path e ≡ some (link (cold_path cloud_dir cold_root path)))
      × (at (cold_path cloud_dir cold_root path) e ≡ some (file c now))
      × ((promote all_well drives tmp' now' path e).0 ≡ promoted (length c))
      × (final e (promote all_well drives tmp' now' path e) ≡ f)
      × (at path f ≡ some (file c now'))
      × (at (cold_path cloud_dir cold_root path) f ≡ none)
unfolding is_link
promote-demote drives cloud_dir cold_root tmp tmp' now now' path c time d here apart free under
      differ free' =
    let cold = cold_path cloud_dir cold_root path in
    let made = make_folders [] (drop_last cold) d in
    let e = swapped_disk cold tmp path now c made in
    let (returned, last) = demote-end cloud_dir cold_root tmp now path c time d here apart free in
    let linked = at_path-swapped cold tmp path now c made in
    let path_not_blob = path_neq_sym cold path apart.blob_not_path in
    let blob =
      at-swapped_disk cold tmp path now c made cold path_not_blob apart.tmp_not_blob
      ∙ at-put_same cold (file c now) made in
    let second_free : at tmp' e ≡ none =
      at-swapped_disk cold tmp path now c made tmp' (path_neq_sym tmp' path differ.second_not_path)
        (path_neq_sym tmp' tmp differ.second_not_first)
      ∙ at-put_other cold tmp' (file c now) made (path_neq_sym tmp' cold differ.second_not_blob)
      ∙ free' in
    let ready : Ready cold tmp' path e = record {
      tmp_not_path = differ.second_not_path;
      tmp_not_blob = differ.second_not_blob;
      path_not_blob = path_not_blob;
      no_link_at_tmp = ap is_link second_free;
    } in
    let (size, restored) = promote-end drives tmp' now' cold path c now e linked blob under ready in
    (
      e,
      came_back_disk cold tmp' path now' c e,
      returned,
      last,
      linked,
      blob,
      size,
      restored,
      at_path-came_back cold tmp' path now' c e apart.blob_not_path,
      at_blob-came_back cold tmp' path now' c e,
    )
