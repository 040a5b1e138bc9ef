-- ===== src/Storage/Demoted/Moves.antt =====
-- The calls of `demote` one after another, for a path that they have nothing to do with.
use shado_cloud.Common.{Text, ℕ, ◌≡◌, sym, subst, false, Option, none, some, List, []}
use shado_cloud.Paths.{drop_last}
use shado_cloud.Storage.{
  Answers, copy_remains, undo_demote, swap_for_link, copy_to_cold, move_to_cold,
}
use shado_cloud.Storage.FileSystem.{Node, file, Disk, at, put, copy_file, symlink, rename, rm_file}
use shado_cloud.Storage.FileSystem.Calls.{is_link, place_of_plain, some_inj}
use shado_cloud.Storage.Traces.{Throughout, call-Throughout, Throughout-map}
use shado_cloud.Storage.Held.{
  Held, Clear, Held-put, Held-make_folders, is_link-make_folders, Held-rm_file, Held-symlink,
  Held-copy_file,
}

-- A path that holds a file or a link, apart from the places that are written before the swap.
module _ (a : Answers) (cold tmp : List Text) (now : ℕ) (p : List Text) (n : Node) (c : Text) where
  undo_demote-Held :
      (d : Disk)
      → Clear cold p n
      → Clear tmp p n
      → Held p n c d
      → Throughout (Held p n c) (undo_demote a cold tmp d)
  unfolding undo_demote Throughout
  undo_demote-Held d at_cold at_tmp held =
      call-Throughout (Held p n c) a.link_removed (rm_file tmp d) _ _
        (λ d1 e.
          let held1 = Held-rm_file p n c tmp d d1 at_tmp held e in
          (
            held1,
            call-Throughout (Held p n c) a.blob_removed (rm_file cold d1) _ _
                (λ d2 f. (Held-rm_file p n c cold d1 d2 at_cold held1 f, tt)) tt,
          ))
        tt

  -- Where the swap itself is as it should be.
  swap_for_link-Held :
      (P : Disk → Type 0) (path : List Text) (d : Disk)
      → Clear cold p n
      → Clear tmp p n
      → ((e : Disk) → Held p n c e → P e)
      → ((d1 d2 : Disk)
          → symlink cold tmp d ≡ some d1
          → Held p n c d1
          → rename tmp path d1 ≡ some d2
          → P d2)
      → Held p n c d
      → Throughout P (swap_for_link a cold tmp path d)
  unfolding swap_for_link Throughout
  swap_for_link-Held P path d at_cold at_tmp fine swapped held =
      call-Throughout P a.symlink_made (symlink cold tmp d) _ _
        (λ d1 e.
          let held1 = Held-symlink p n c cold tmp d d1 at_tmp held e in
          (
            fine d1 held1,
            call-Throughout P a.renamed (rename tmp path d1) _ _
                (λ d2 f. (swapped d1 d2 e held1 f, tt))
                (Throughout-map fine (undo_demote a cold tmp d1)
                  (undo_demote-Held d1 at_cold at_tmp held1)),
          ))
        (Throughout-map fine (undo_demote a cold tmp d) (undo_demote-Held d at_cold at_tmp held))

  copy_remains-Held :
      (partial : Option Text) (d : Disk)
      → Clear cold p n
      → is_link (at cold d) ≡ false
      → Held p n c d
      → Held p n c (copy_remains partial cold now d)
  unfolding copy_remains
  copy_remains-Held none d at_cold plain held = held
  copy_remains-Held (some content) d at_cold plain held =
      subst (λ x. Held p n c (put x (file content now) d))
        (sym (place_of_plain cold (at cold d) plain))
        (Held-put cold (file content now) p n c d at_cold held)

  pub move_to_cold-Held :
      (P : Disk → Type 0) (path : List Text) (d : Disk)
      → Clear cold p n
      → Clear tmp p n
      → is_link (at cold d) ≡ false
      → ((e : Disk) → Held p n c e → P e)
      → ((d0 d1 d2 d3 : Disk)
          → Held p n c d0
          → copy_file path cold now d0 ≡ some d1
          → is_link (at cold d0) ≡ false
          → symlink cold tmp d1 ≡ some d2
          → Held p n c d2
          → rename tmp path d2 ≡ some d3
          → P d3)
      → Held p n c d
      → Throughout P (move_to_cold a cold tmp now path d)
  unfolding move_to_cold copy_to_cold Throughout
  move_to_cold-Held P path d at_cold at_tmp plain fine swapped held =
      call-Throughout P a.mkdir _ _ _
        (λ d0 e.
          let held0 : Held p n c d0 =
            subst (Held p n c) (some_inj e) (Held-make_folders [] (drop_last cold) p n c d held) in
          let plain0 : is_link (at cold d0) ≡ false =
            subst (λ x. is_link (at cold x) ≡ false) (some_inj e)
              (is_link-make_folders [] (drop_last cold) cold d plain) in
          (
            fine d0 held0,
            call-Throughout P a.copy (copy_file path cold now d0) _ _
                (λ d1 f.
                  let held1 = Held-copy_file p n c path cold now d0 d1 at_cold plain0 held0 f in
                  (
                    fine d1 held1,
                    swap_for_link-Held P path d1 at_cold at_tmp fine
                        (λ d2 d3 g held2 h. swapped d0 d1 d2 d3 held0 f plain0 g held2 h) held1,
                  ))
                (fine _ (copy_remains-Held a.partial d0 at_cold plain0 held0), tt),
          ))
        tt
