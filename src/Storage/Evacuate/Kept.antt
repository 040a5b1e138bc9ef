-- ===== src/Storage/Evacuate/Kept.antt =====
-- What an evacuation does to the content of a file: it keeps it, but for a link that could not be
-- promoted, of which the blob is deleted all the same.
use shado_cloud.Storage.Walk.{walk_real_files, walk_symlinks, walk_real_files-below}
use shado_cloud.Storage.Evacuate.Migrated.{Sound, Names, apart_by_drive, Good, migrate-Good}
use shado_cloud.Common.{
  Bool-cases, choose, any, All, Text, text_eq, text_eq→eq, path_eq, path_eq_refl, path_eq→eq, ◌+◌,
  ◌≡◌, refl, sym, ap, ◌∙◌, subst, ◌⊎◌, inl, inr, true, false, Option, none, some, List, [], ◌∷◌,
  arith,
}
use shado_cloud.Storage.FileSystem.{
  Node, file, link, folder, Disk, at, remove, content_of, read_node, read,
}
use shado_cloud.Storage.FileSystem.Calls.{at-remove, at-remove_other, path_neq_sym}
use shado_cloud.Storage.Held.{Held, Clear, read-Held, Held-read, Held-remove}
use shado_cloud.Storage.Drives.{cold_root_for, is_below, is_under_cold_mount}
use shado_cloud.Storage.Evacuate.{
  Evacuation, nothing_done, World, migrate, remove_orphans, evacuate_drive,
}

any-under :
    (drives : List Text) (name : Text) (b : List Text)
    → any (text_eq name) drives ≡ true
    → is_below (cold_root_for name) b ≡ true
    → is_under_cold_mount drives b ≡ true
unfolding is_under_cold_mount
any-under [] name b h k = cc
any-under (drive ∷ drives) name b h k = elim (Bool-cases (text_eq name drive)) [
  | inl e ↦ rw (sym (text_eq→eq name drive e), k) refl
  | inr e ↦ ground (arith, any-under drives name b)
]

module _ (drives cold_root : List Text) (w : World) (p : List Text) where
  remove_orphans-Held :
      (n : Node) (c : Text) (blobs : List (List Text)) (r : Evacuation) (d : Disk)
      → All (λ b. Clear b p n) blobs
      → Held p n c d
      → Held p n c (remove_orphans drives cold_root w blobs (r, d)).1
  unfolding remove_orphans
  remove_orphans-Held n c [] r d clear held = held
  remove_orphans-Held n c (b ∷ blobs) r d (here, clear) held = elim (Bool-cases (w.can_delete b)) [
    | inl e ↦
        rw (remove_orphans, e)
          (remove_orphans-Held n c blobs (record r { orphans_removed = r.orphans_removed + 1 })
            (remove b d) clear (Held-remove b p n c d here held))
    | inr e ↦
        rw (remove_orphans, e)
          (remove_orphans-Held n c blobs (record r { errors = r.errors + 1 }) d clear held)
  ]

  -- Nothing comes back.
  remove_orphans_missing :
      (t : List Text) (blobs : List (List Text)) (r : Evacuation) (d : Disk)
      → at t d ≡ none
      → at t (remove_orphans drives cold_root w blobs (r, d)).1 ≡ none
  unfolding remove_orphans
  remove_orphans_missing t [] r d h = h
  remove_orphans_missing t (b ∷ blobs) r d h = elim (Bool-cases (w.can_delete b)) [
    | inl e ↦
        rw (remove_orphans, e)
          (remove_orphans_missing t blobs (record r { orphans_removed = r.orphans_removed + 1 })
            (remove b d) (at-remove t b d ∙ rw h (ground arith)))
    | inr e ↦
        rw (remove_orphans, e)
          (remove_orphans_missing t blobs (record r { errors = r.errors + 1 }) d h)
  ]

  -- An entry stays as it is, or goes.
  remove_orphans_same :
      (o : Option Node) (blobs : List (List Text)) (r : Evacuation) (d : Disk)
      → at p d ≡ o
      → (at p (remove_orphans drives cold_root w blobs (r, d)).1 ≡ o)
        ⊎ (at p (remove_orphans drives cold_root w blobs (r, d)).1 ≡ none)
  unfolding remove_orphans
  remove_orphans_same o [] r d h = inl h
  remove_orphans_same o (b ∷ blobs) r d h = elim (Bool-cases (w.can_delete b)) [
    | inl e ↦ elim (Bool-cases (path_eq b p)) [
      | inl f ↦ inr (
          rw (remove_orphans, e)
            (remove_orphans_missing p blobs (record r { orphans_removed = r.orphans_removed + 1 })
              (remove b d) (at-remove p b d ∙ rw f refl)))
      | inr f ↦
          rw (remove_orphans, e)
            (remove_orphans_same o blobs (record r { orphans_removed = r.orphans_removed + 1 })
              (remove b d) (at-remove_other b p d f ∙ h))
    ]
    | inr e ↦
        rw (remove_orphans, e)
          (remove_orphans_same o blobs (record r { errors = r.errors + 1 }) d h)
  ]

  remove_orphans_gone :
      (t : List Text) (blobs : List (List Text)) (r : Evacuation) (d : Disk)
      → w.can_delete t ≡ true
      → any (path_eq t) blobs ≡ true
      → at t (remove_orphans drives cold_root w blobs (r, d)).1 ≡ none
  unfolding remove_orphans
  remove_orphans_gone t [] r d able h = cc
  remove_orphans_gone t (b ∷ blobs) r d able h = elim (Bool-cases (path_eq t b)) [
    | inl e ↦
        let same = path_eq→eq t b e in
        let able_b = subst (λ x. w.can_delete x ≡ true) same able in
        rw (remove_orphans, able_b)
          (remove_orphans_missing t blobs (record r { orphans_removed = r.orphans_removed + 1 })
            (remove b d) (at-remove t b d ∙ rw (sym same, path_eq_refl t) refl))
    | inr e ↦
        let later : any (path_eq t) blobs ≡ true = ground (arith, e, h) in
        choose {A = Evacuation × Disk}
          (λ x. at t (remove_orphans drives cold_root w blobs x).1 ≡ none) (w.can_delete b) _ _
          (λ f.
            remove_orphans_gone t blobs (record r { orphans_removed = r.orphans_removed + 1 })
              (remove b d) able later)
          (λ f. remove_orphans_gone t blobs (record r { errors = r.errors + 1 }) d able later)
  ]

not_below :
    (root b t : List Text) → is_below root b ≡ true → is_below root t ≡ false → path_eq b t ≡ false
not_below root b t h k = elim (Bool-cases (path_eq b t)) [
  | inl e ↦ cc (ap (is_below root) (path_eq→eq b t e))
  | inr e ↦ e
]

Clear-one :
    (root b p : List Text) (n : Node)
    → path_eq b p ≡ false
    → is_below root b ≡ true
    → ((t : List Text) → n ≡ link t → is_below root t ≡ false)
    → Clear b p n
unfolding Clear
Clear-one root b p (file content time) h here left = h
Clear-one root b p folder h here left = h
Clear-one root b p (link t) h here left = (h, not_below root b t here (left t refl))

-- What is no blob of the drive, and points to none, keeps clear of every blob.
Clear-below :
    (drives : List Text) (name : Text) (p : List Text) (n : Node) (blobs : List (List Text))
    → any (text_eq name) drives ≡ true
    → is_under_cold_mount drives p ≡ false
    → ((t : List Text) → n ≡ link t → is_below (cold_root_for name) t ≡ false)
    → All (λ b. is_below (cold_root_for name) b ≡ true) blobs
    → All (λ b. Clear b p n) blobs
Clear-below drives name p n [] known outside left h = tt
Clear-below drives name p n (b ∷ blobs) known outside left (here, h) =
    let not_p =
      path_neq_sym p b (apart_by_drive drives p b outside (any-under drives name b known here)) in
    (
      Clear-one (cold_root_for name) b p n not_p here left,
      Clear-below drives name p n blobs known outside left h,
    )

-- The state after the promotions.
unfoldable pub migrated_disk :
    (cloud_dir : List Text) → List Text → World → Text → Disk → Evacuation × Disk
unfolding migrate walk_symlinks cold_root_for
migrated_disk cloud_dir drives w name d =
    migrate drives (cold_root_for name) w (walk_symlinks cloud_dir d) (nothing_done, d)

evacuate_drive-known :
    (cloud_dir drives : List Text) (w : World) (name : Text) (d : Disk)
    → any (text_eq name) drives ≡ true
    → evacuate_drive (some cloud_dir) drives w name d
      ≡ remove_orphans drives
          (cold_root_for name)
          w
          (walk_real_files (cold_root_for name) (migrated_disk cloud_dir drives w name d).1)
          (migrated_disk cloud_dir drives w name d)
unfolding evacuate_drive migrated_disk
evacuate_drive-known cloud_dir drives w name d known = rw (evacuate_drive, known) refl

-- A path outside the cold drives that is no temporary name still reads what it read before the
-- evacuation of a configured drive, where a cloud directory is configured, whichever calls failed,
-- unless the promotions have left it a
-- link into that drive; provided that every link points from outside the cold drives into one,
-- that no two share a blob, and that the temporary names are on no cold drive, are no links and
-- differ from the files that they are for.
pub evacuate_drive_keeps :
    (cloud_dir drives : List Text) (w : World) (name : Text) (p : List Text) (c : Text) (d : Disk)
    → Names drives w.tmp_of
    → Sound drives w.tmp_of d
    → any (text_eq name) drives ≡ true
    → is_under_cold_mount drives p ≡ false
    → ((q : List Text) → path_eq (w.tmp_of q) p ≡ false)
    → ((t : List Text)
        → at p (migrated_disk cloud_dir drives w name d).1 ≡ some (link t)
        → is_below (cold_root_for name) t ≡ false)
    → read p d ≡ some c
    → read p (evacuate_drive (some cloud_dir) drives w name d).1 ≡ some c
unfolding migrated_disk Good Held
evacuate_drive_keeps cloud_dir drives w name p c d names sound known outside no_tmp left h =
    let root = cold_root_for name in
    let m = migrated_disk cloud_dir drives w name d in
    let good =
      migrate-Good drives w names p c outside no_tmp root (walk_symlinks cloud_dir d)
        (nothing_done, d) (h, sound) in
    let (n, held) = Held-read p c m.1 good.0 in
    let clear =
      Clear-below drives name p n (walk_real_files root m.1) known outside
        (λ t e. left t (held.0 ∙ ap some e)) (walk_real_files-below root m.1) in
    subst (λ x. read p x.1 ≡ some c) (sym (evacuate_drive-known cloud_dir drives w name d known))
      (read-Held p n c _
        (remove_orphans-Held drives root w p n c (walk_real_files root m.1) m.0 m.1 clear held))

-- A link that the promotions have left pointing to a blob of the drive which the walk of the drive
-- finds and which can be deleted reads nothing after the evacuation of a configured drive, where a
-- cloud directory is configured.
pub evacuate_drive_loses :
    (cloud_dir drives : List Text) (w : World) (name : Text) (p t : List Text) (d : Disk)
    → any (text_eq name) drives ≡ true
    → at p (migrated_disk cloud_dir drives w name d).1 ≡ some (link t)
    → any
        (path_eq t)
        (walk_real_files (cold_root_for name) (migrated_disk cloud_dir drives w name d).1)
      ≡ true
    → w.can_delete t ≡ true
    → read p (evacuate_drive (some cloud_dir) drives w name d).1 ≡ none
unfolding read read_node content_of
evacuate_drive_loses cloud_dir drives w name p t d known here found able =
    let root = cold_root_for name in
    let m = migrated_disk cloud_dir drives w name d in
    let blobs = walk_real_files root m.1 in
    let gone = remove_orphans_gone drives root w p t blobs m.0 m.1 able found in
    subst (λ x. read p x.1 ≡ none) (sym (evacuate_drive-known cloud_dir drives w name d known))
      (elim (remove_orphans_same drives root w p (some (link t)) blobs m.0 m.1 here) [
        | inl same ↦ rw (read, same) (ap content_of gone)
        | inr missing ↦ rw (read, missing) refl
      ])
