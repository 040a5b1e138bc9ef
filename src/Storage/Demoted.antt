-- ===== src/Storage/Demoted.antt =====
-- That `demote` loses no content: whichever call fails, and whenever the process dies.
mod Moves
use shado_cloud.Common.{
  Text, path_eq, path_eq→eq, ℕ, ◌≡◌, refl, sym, ap, ◌∙◌, subst, ◌⊎◌, inl, inr, true, false, Option,
  none, some, List,
}
use shado_cloud.Storage.{Answers, cold_path, move_to_cold, demote_found, demote}
use shado_cloud.Storage.FileSystem.{
  Node, file, link, folder, Disk, at, remove, content_of, read_node, read, copy_file, symlink,
  rename,
}
use shado_cloud.Storage.FileSystem.Calls.{
  at-put_same, at-put_other, at-remove_other, path_neq_sym, is_link, copy_file-eq, rename-eq,
  symlink-eq, some_inj,
}
use shado_cloud.Storage.Traces.{Throughout}
use shado_cloud.Storage.Held.{
  Held, Clear, read-Held, Held-read, read_file, read_folder, Held-rename,
}
use shado_cloud.Storage.Demoted.Moves.{move_to_cold-Held}

-- The places of a demotion are different ones, and no link stands where the blob goes.
pub record Separate (cold tmp path : List Text) (d : Disk) : Type 0 where
  pub blob_not_path : path_eq cold path ≡ false
  pub tmp_not_path : path_eq tmp path ≡ false
  pub tmp_not_blob : path_eq tmp cold ≡ false
  pub no_link_at_blob : is_link (at cold d) ≡ false

-- The path has nothing to do with the blob and the temporary link, nor with the file that is moved,
-- unless it is that file.
unfoldable pub Aside : (cold tmp path p : List Text) → Disk → Type 0
Aside cold tmp path p d =
    (n : Node)
    → at p d ≡ some n
    → Clear cold p n × Clear tmp p n × ((path_eq path p ≡ true) ⊎ Clear path p n)

-- The link is read as the file was.
swapped-read :
    (cold tmp path : List Text) (now : ℕ) (c : Text) (time : ℕ) (d0 d1 d2 d3 : Disk)
    → Separate cold tmp path d0
    → Held path (file c time) c d0
    → copy_file path cold now d0 ≡ some d1
    → symlink cold tmp d1 ≡ some d2
    → rename tmp path d2 ≡ some d3
    → (at path d3 ≡ some (link cold)) × (read path d3 ≡ some c)
unfolding read read_node content_of
swapped-read cold tmp path now c time d0 d1 d2 d3 apart held f g h =
    let (content, source, e1) = copy_file-eq path cold now d0 apart.no_link_at_blob f in
    let e2 = symlink-eq cold tmp d1 g in
    let (m, there, e3) = rename-eq tmp path d2 h in
    let same : content ≡ c = some_inj (sym source ∙ read-Held path (file c time) c d0 held) in
    let is_m : m ≡ link cold =
      some_inj (sym there ∙ ap (at tmp) (sym e2) ∙ at-put_same tmp (link cold) d1) in
    let at_path : at path d3 ≡ some (link cold) =
      ap (at path) (sym e3) ∙ at-put_same path m (remove tmp d2) ∙ ap some is_m in
    let at_cold : at cold d3 ≡ some (file c now) =
      ap (at cold) (sym e3)
      ∙ at-put_other path cold m (remove tmp d2) (path_neq_sym cold path apart.blob_not_path)
      ∙ at-remove_other tmp cold d2 apart.tmp_not_blob
      ∙ ap (at cold) (sym e2)
      ∙ at-put_other tmp cold (link cold) d1 apart.tmp_not_blob
      ∙ ap (at cold) (sym e1)
      ∙ at-put_same cold (file content now) d0
      ∙ ap (λ x. some (file x now)) same in
    (at_path, rw (read, at_path) (ap content_of at_cold))

module _ (a : Answers) (cold tmp : List Text) (now : ℕ) (path p : List Text) (c : Text) where
  -- The file that moves: what is read under its path.
  moved_file-Throughout :
      (time : ℕ) (d : Disk)
      → Separate cold tmp path d
      → at path d ≡ some (file c time)
      → Throughout (λ e. read path e ≡ some c) (move_to_cold a cold tmp now path d)
  unfolding Clear Held read_node content_of
  moved_file-Throughout time d apart here =
      move_to_cold-Held a cold tmp now path (file c time) c (λ e. read path e ≡ some c) path d
        apart.blob_not_path apart.tmp_not_path apart.no_link_at_blob
        (λ e held. read-Held path (file c time) c e held)
        (λ d0 d1 d2 d3 held f plain g held2 h.
          let apart0 : Separate cold tmp path d0 = record {
            blob_not_path = apart.blob_not_path;
            tmp_not_path = apart.tmp_not_path;
            tmp_not_blob = apart.tmp_not_blob;
            no_link_at_blob = plain;
          } in
          (swapped-read cold tmp path now c time d0 d1 d2 d3 apart0 held f g h).1)
        (here, refl)

  other_file-Throughout :
      (n : Node) (d : Disk)
      → Separate cold tmp path d
      → Clear cold p n
      → Clear tmp p n
      → Clear path p n
      → Held p n c d
      → Throughout (λ e. read p e ≡ some c) (move_to_cold a cold tmp now path d)
  other_file-Throughout n d apart at_cold at_tmp at_path held =
      move_to_cold-Held a cold tmp now p n c (λ e. read p e ≡ some c) path d at_cold at_tmp
        apart.no_link_at_blob (λ e h. read-Held p n c e h)
        (λ d0 d1 d2 d3 h f plain g held2 k.
          read-Held p n c d3 (Held-rename p n c tmp path d2 d3 at_tmp at_path held2 k))
        held

  -- A path that nothing is found under, and a link, are left alone.
  demote_found-Throughout :
      (P : Disk → Type 0) (o : Option Node) (d : Disk)
      → ((time : ℕ) (content : Text)
          → o ≡ some (file content time)
          → Throughout P (move_to_cold a cold tmp now path d))
      → (o ≡ some folder → Throughout P (move_to_cold a cold tmp now path d))
      → Throughout P (demote_found a o cold tmp now path d)
  unfolding demote_found Throughout
  demote_found-Throughout P none d h k = tt
  demote_found-Throughout P (some (link target)) d h k = tt
  demote_found-Throughout P (some (file content time)) d h k = h time content refl
  demote_found-Throughout P (some folder) d h k = k refl

-- Whichever of its calls fail, and whatever a failed copy leaves behind: in every state that the disk
-- goes through while a file is demoted, each path outside the blob and the temporary link reads as it
-- did before, provided that no link points to the place of the blob, to the temporary link or to the
-- file, that these are different places, and that no link stands at the place of the blob.
pub demote-Throughout :
    (a : Answers) (cloud_dir cold_root tmp : List Text) (now : ℕ) (path p : List Text) (c : Text)
    (d : Disk)
    → Separate (cold_path cloud_dir cold_root path) tmp path d
    → Aside (cold_path cloud_dir cold_root path) tmp path p d
    → read p d ≡ some c
    → Throughout (λ e. read p e ≡ some c) (demote a cloud_dir cold_root tmp now path d)
unfolding demote Aside Held
demote-Throughout a cloud_dir cold_root tmp now path p c d apart aside h =
    let cold = cold_path cloud_dir cold_root path in
    let (n, held) = Held-read p c d h in
    let (at_cold, at_tmp, or_path) = aside n held.0 in
    elim or_path [
      | inr at_path ↦
          let moved =
            other_file-Throughout a cold tmp now path p c n d apart at_cold at_tmp at_path held in
          demote_found-Throughout a cold tmp now path p c (λ e. read p e ≡ some c) (at path d) d
            (λ time content e. moved) (λ e. moved)
      | inl same ↦
          let e_path = path_eq→eq path p same in
          let h_path = subst (λ q. read q d ≡ some c) (sym e_path) h in
          demote_found-Throughout a cold tmp now path p c (λ e. read p e ≡ some c) (at path d) d
            (λ time content e.
              let same_content = read_file path content time c d e h_path in
              subst (λ q. Throughout (λ x. read q x ≡ some c) (move_to_cold a cold tmp now path d))
                e_path
                (moved_file-Throughout a cold tmp now path p c time d apart
                  (e ∙ ap (λ x. some (file x time)) same_content)))
            (λ e. cc (read_folder path c d e h_path))
    ]
