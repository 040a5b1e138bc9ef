-- ===== src/Storage/Promoted.antt =====
-- That `promote` loses no content: whichever call fails, and whenever the process dies.
mod Moves
use shado_cloud.Common.{
  choose, length, Text, path_eq, path_eq→eq, ℕ, ◌≡◌, refl, sym, ap, ◌∙◌, subst, ◌⊎◌, inl, inr, true,
  false, not, Option, none, some, List, [],
}
use shado_cloud.Storage.Drives.{is_under_cold_mount}
use shado_cloud.Storage.{Answers, copy_back, promote_blob, promote_found, promote}
use shado_cloud.Storage.FileSystem.{
  Node, file, link, folder, Disk, at, remove, content_of, read_node, read, copy_file, rename,
}
use shado_cloud.Storage.FileSystem.Calls.{
  at-put_same, at-remove_other, path_neq_sym, is_link, copy_file-eq, rename-eq, rm_file-eq,
  some_inj,
}
use shado_cloud.Storage.Traces.{Throughout}
use shado_cloud.Storage.Held.{
  Held, Clear, read-Held, Held-read, read_link, Held-rm_file, Held-rename,
}
use shado_cloud.Storage.Promoted.Moves.{copy_back-Held}

-- The places of a promotion are different ones, and no link stands under the temporary name.
pub record Ready (target tmp path : List Text) (d : Disk) : Type 0 where
  pub tmp_not_path : path_eq tmp path ≡ false
  pub tmp_not_blob : path_eq tmp target ≡ false
  pub path_not_blob : path_eq path target ≡ false
  pub no_link_at_tmp : is_link (at tmp d) ≡ false

read_content :
    (o : Option Node) (c : Text) (d : Disk) → content_of o ≡ some c → read_node o d ≡ some c
unfolding content_of read_node
read_content none c d h = h
read_content (some (file content time)) c d h = h
read_content (some (link target)) c d h = cc
read_content (some folder) c d h = h

-- What the link read is what the file has.
came_back :
    (target tmp path : List Text) (now : ℕ) (c : Text) (d d1 d2 : Disk)
    → Ready target tmp path d
    → Held path (link target) c d
    → copy_file target tmp now d ≡ some d1
    → rename tmp path d1 ≡ some d2
    → at path d2 ≡ some (file c now)
unfolding Held read_node read
came_back target tmp path now c d d1 d2 ready (here, content_here) f g =
    let (content, source, e1) = copy_file-eq target tmp now d ready.no_link_at_tmp f in
    let (m, there, e2) = rename-eq tmp path d1 g in
    let same : content ≡ c = some_inj (sym source ∙ read_content (at target d) c d content_here) in
    let is_m : m ≡ file c now = some_inj (
      sym there
      ∙ ap (at tmp) (sym e1)
      ∙ at-put_same tmp (file content now) d
      ∙ ap (λ x. some (file x now)) same) in
    ap (at path) (sym e2) ∙ at-put_same path m (remove tmp d1) ∙ ap some is_m

pub read-at :
    (p : List Text) (c : Text) (now : ℕ) (d : Disk) → at p d ≡ some (file c now) → read p d ≡ some c
unfolding read read_node content_of
read-at p c now d h = rw (read, h) refl

module _ (a : Answers) (target tmp : List Text) (now : ℕ) (path p : List Text) (c : Text) where
  came_back-Throughout :
      (size : ℕ) (d : Disk)
      → Ready target tmp path d
      → Held path (link target) c d
      → Throughout (λ e. read path e ≡ some c) (copy_back a size target tmp now path d)
  unfolding Clear
  came_back-Throughout size d ready held =
      copy_back-Held a target tmp now path path (link target) c (λ e. read path e ≡ some c) size d
        (ready.tmp_not_path, ready.tmp_not_blob) ready.no_link_at_tmp
        (λ e h. read-Held path (link target) c e h)
        (λ d1 d2 f held1 g.
          let here = came_back target tmp path now c d d1 d2 ready held f g in
          (
            read-at path c now d2 here,
            λ d3 h. read-at path c now d3 (
                ap (at path) (sym (rm_file-eq target d2 h))
                ∙ at-remove_other target path d2 (path_neq_sym path target ready.path_not_blob)
                ∙ here),
          ))
        held

  other_path-Throughout :
      (n : Node) (size : ℕ) (d : Disk)
      → is_link (at tmp d) ≡ false
      → Clear tmp p n
      → Clear path p n
      → Clear target p n
      → Held p n c d
      → Throughout (λ e. read p e ≡ some c) (copy_back a size target tmp now path d)
  other_path-Throughout n size d plain at_tmp at_path at_blob held =
      copy_back-Held a target tmp now path p n c (λ e. read p e ≡ some c) size d at_tmp plain
        (λ e h. read-Held p n c e h)
        (λ d1 d2 f held1 g.
          let held2 = Held-rename p n c tmp path d1 d2 at_tmp at_path held1 g in
          (
            read-Held p n c d2 held2,
            λ d3 h. read-Held p n c d3 (Held-rm_file p n c target d2 d3 at_blob held2 h),
          ))
        held

  promote_blob-Throughout :
      (P : Disk → Type 0) (o : Option Node) (d : Disk)
      → ((size : ℕ) → Throughout P (copy_back a size target tmp now path d))
      → Throughout P (promote_blob a o target tmp now path d)
  unfolding promote_blob Throughout
  promote_blob-Throughout P none d h = tt
  promote_blob-Throughout P (some (file content time)) d h = h (length content)
  promote_blob-Throughout P (some (link t)) d h = h 0
  promote_blob-Throughout P (some folder) d h = h 0

-- The path has nothing to do with the blob and the temporary name, nor with the link that is
-- replaced, unless it is that link.
unfoldable pub Beside : (target tmp path p : List Text) → Disk → Type 0
Beside target tmp path p d =
    (n : Node)
    → at p d ≡ some n
    → (path_eq path p ≡ true) ⊎ (Clear tmp p n × Clear path p n × Clear target p n)

-- A path that is no link is left alone.
pub promote_found-Throughout :
    (a : Answers) (P : Disk → Type 0) (o : Option Node) (drives tmp : List Text) (now : ℕ)
    (path : List Text) (d : Disk)
    → ((target : List Text)
        → o ≡ some (link target)
        → (size : ℕ) → Throughout P (copy_back a size target tmp now path d))
    → Throughout P (promote_found a o drives tmp now path d)
unfolding promote_found Throughout
promote_found-Throughout a P none drives tmp now path d h = tt
promote_found-Throughout a P (some (file content time)) drives tmp now path d h = tt
promote_found-Throughout a P (some folder) drives tmp now path d h = tt
promote_found-Throughout a P (some (link target)) drives tmp now path d h =
    choose (Throughout P) (not (is_under_cold_mount drives target)) _ _ (λ e. tt)
      (λ e. promote_blob-Throughout a target tmp now path path [] P (at target d) d (h target refl))

link-Throughout :
    (a : Answers) (target tmp : List Text) (now : ℕ) (path p : List Text) (c : Text) (size : ℕ)
    (d : Disk)
    → at path d ≡ some (link target)
    → Ready target tmp path d
    → Beside target tmp path p d
    → read p d ≡ some c
    → Throughout (λ e. read p e ≡ some c) (copy_back a size target tmp now path d)
unfolding Beside Held
link-Throughout a target tmp now path p c size d here ready beside h =
    let (n, held) = Held-read p c d h in
    elim (beside n held.0) [
      | inr (at_tmp, at_path, at_blob) ↦
          other_path-Throughout a target tmp now path p c n size d ready.no_link_at_tmp at_tmp
            at_path at_blob held
      | inl same ↦
          let e_path = path_eq→eq path p same in
          let h_path = subst (λ q. read q d ≡ some c) (sym e_path) h in
          subst (λ q. Throughout (λ e. read q e ≡ some c) (copy_back a size target tmp now path d))
            e_path
            (came_back-Throughout a target tmp now path p c size d ready
              (read_link path target c d here h_path))
    ]

-- Whichever of its calls fail, and whatever a failed copy leaves behind: in every state that the disk
-- goes through while a path is promoted, each path reads as it did before, provided that it is the
-- promoted one, or else is not the blob or the temporary name and does not point to any of the
-- three, that the three are different places, and that no link stands under the temporary name.
pub promote-Throughout :
    (a : Answers) (drives : List Text) (tmp : List Text) (now : ℕ) (path p : List Text) (c : Text)
    (d : Disk)
    → ((target : List Text)
        → at path d ≡ some (link target)
        → Ready target tmp path d × Beside target tmp path p d)
    → read p d ≡ some c
    → Throughout (λ e. read p e ≡ some c) (promote a drives tmp now path d)
unfolding promote
promote-Throughout a drives tmp now path p c d ready h =
    promote_found-Throughout a (λ e. read p e ≡ some c) (at path d) drives tmp now path d
      (λ target e size.
        let (apart, beside) = ready target e in
        link-Throughout a target tmp now path p c size d e apart beside h)
