-- ===== src/Storage/Tests.antt =====
-- Small disks: one file on the main drive, and one on the cold drive "a" with its link.
use shado_cloud.Paths.{drop_last, absolute_path}
use shado_cloud.Storage.Walk.{read_dir, is_hidden, is_real, walk_real_files}
use shado_cloud.Storage.RoundTrip.{IsFourth, promote-demote}
use shado_cloud.Storage.Returns.{all_well}
use shado_cloud.Storage.Promoted.{Ready, Beside, promote-Throughout}
use shado_cloud.Storage.Evacuate.Kept.{migrated_disk, evacuate_drive_keeps, evacuate_drive_loses}
use shado_cloud.Storage.Evacuate.{World, evacuate_drive}
use shado_cloud.Storage.Evacuate.Migrated.{Sound, Names}
use shado_cloud.Common.{
  if◌then◌else◌, choose, length, Text, codes, text_eq, path_eq, path_eq_refl, path_eq→eq, ℕ, ◌≡◌,
  refl, sym, ◌∙◌, subst, inl, true, false, Option, none, some, List, [], ◌∷◌, arith,
}
use shado_cloud.Storage.FileSystem.{file, link, folder, Disk, at, read, make_folders}
use shado_cloud.Storage.FileSystem.Calls.{path_neq_sym, is_link}
use shado_cloud.Storage.Traces.{final, Throughout}
use shado_cloud.Storage.Held.{Clear}
use shado_cloud.Storage.Drives.{cold_root_for, is_below, is_under_cold_mount, pick_cold_drive}
use shado_cloud.Storage.Demoted.{Separate, Aside, demote-Throughout}
use shado_cloud.Storage.{Answers, cold_path, demote, promoted, promote}

-- The second of three drives has the most room, and the third does not answer.
room : Text → Option ℕ
room name =
    if text_eq name (codes "a") then some 10 else if text_eq name (codes "b") then some 20 else none

abbrev three : List Text
three = codes "a" ∷ codes "b" ∷ codes "c" ∷ []

picked : pick_cold_drive room three ≡ some (codes "b")
unfolding pick_cold_drive room
picked = refl

abbrev cloud : List Text
cloud = codes "cloud" ∷ []

abbrev path_x : List Text
path_x = codes "cloud" ∷ codes "x" ∷ []

abbrev path_y : List Text
path_y = codes "cloud" ∷ codes "y" ∷ []

abbrev tmp_x : List Text
tmp_x = codes "cloud" ∷ codes "x.tiering" ∷ []

abbrev cold_a : List Text
cold_a = codes "mnt" ∷ codes "a" ∷ codes "cloud-dir" ∷ []

abbrev blob_x : List Text
blob_x = codes "mnt" ∷ codes "a" ∷ codes "cloud-dir" ∷ codes "x" ∷ []

-- The swap fails after the link was made.
abbrev swap_fails : Answers
swap_fails = record all_well { renamed = false }

abbrev hot : Disk
hot = (cloud, folder) ∷ (path_x, file (7 ∷ 8 ∷ []) 1) ∷ []

cold_path_x : cold_path cloud cold_a path_x ≡ blob_x
unfolding cold_path
cold_path_x = refl

hot-Separate : Separate (cold_path cloud cold_a path_x) tmp_x path_x hot
unfolding cold_path path_eq at is_link
hot-Separate = record {
  blob_not_path = refl;
  tmp_not_path = refl;
  tmp_not_blob = refl;
  no_link_at_blob = refl;
}

hot-Aside : Aside (cold_path cloud cold_a path_x) tmp_x path_x path_x hot
unfolding Aside Clear cold_path path_eq at
hot-Aside (file content time) h = (refl, refl, inl refl)
hot-Aside (link target) h = cc
hot-Aside folder h = cc

demote-Throughout_example :
    Throughout
      (λ e. read path_x e ≡ some (7 ∷ 8 ∷ []))
      (demote swap_fails cloud cold_a tmp_x 5 path_x hot)
unfolding read at path_eq
demote-Throughout_example =
    demote-Throughout swap_fails cloud cold_a tmp_x 5 path_x path_x (7 ∷ 8 ∷ []) hot hot-Separate
      hot-Aside refl

-- After a demotion that goes well, the link is read as the file was.
demoted_link :
    at path_x (final hot (demote all_well cloud cold_a tmp_x 5 path_x hot)) ≡ some (link blob_x)
unfolding demote final path_eq
demoted_link = refl

abbrev content_x : Text
content_x = 7 ∷ 8 ∷ []

abbrev tmp_back : List Text
tmp_back = codes "cloud" ∷ codes "x.promoting" ∷ []

hot-IsFourth : IsFourth (cold_path cloud cold_a path_x) tmp_x tmp_back path_x
unfolding cold_path path_eq
hot-IsFourth = record { second_not_path = refl; second_not_blob = refl; second_not_first = refl }

promote-demote_example :
    (e f : Disk) × ((demote all_well cloud cold_a tmp_x 5 path_x hot).0 ≡ true)
    × (final hot (demote all_well cloud cold_a tmp_x 5 path_x hot) ≡ e)
    × (at path_x e ≡ some (link (cold_path cloud cold_a path_x)))
    × (at (cold_path cloud cold_a path_x) e ≡ some (file (7 ∷ 8 ∷ []) 5))
    × ((promote all_well (codes "a" ∷ []) tmp_back 6 path_x e).0 ≡ promoted (length content_x))
    × (final e (promote all_well (codes "a" ∷ []) tmp_back 6 path_x e) ≡ f)
    × (at path_x f ≡ some (file (7 ∷ 8 ∷ []) 6))
    × (at (cold_path cloud cold_a path_x) f ≡ none)
unfolding at path_eq cold_path is_under_cold_mount cold_root_for absolute_path make_folders
    drop_last
promote-demote_example =
    promote-demote (codes "a" ∷ []) cloud cold_a tmp_x tmp_back 5 6 path_x (7 ∷ 8 ∷ []) 1 hot refl
      hot-Separate refl refl hot-IsFourth refl

-- A file that was demoted, renamed to "y", and whose old name is taken by a new file: demoting that
-- one writes over the blob of "y".
abbrev renamed_link : Disk
renamed_link =
    (cloud, folder)
    ∷ (path_y, link blob_x)
    ∷ (blob_x, file (1 ∷ []) 1)
    ∷ (path_x, file (2 ∷ []) 1)
    ∷ []

before_overwrite : read path_y renamed_link ≡ some (1 ∷ [])
unfolding read path_eq
before_overwrite = refl

overwritten :
    read path_y (final renamed_link (demote all_well cloud cold_a tmp_x 5 path_x renamed_link))
    ≡ some (2 ∷ [])
unfolding read demote final path_eq
overwritten = refl

-- One cold file, with its link.
abbrev cold_disk : Disk
cold_disk =
    (cloud, folder) ∷ (path_x, link blob_x) ∷ (cold_a, folder) ∷ (blob_x, file (1 ∷ []) 1) ∷ []

abbrev drive_a : List Text
drive_a = codes "a" ∷ []

tmp_other : List Text → List Text
tmp_other q = if path_eq q tmp_x then path_y else tmp_x

abbrev world_with : Answers → World
world_with a = record { answers = λ q. a; tmp_of = tmp_other; now = 9; can_delete = λ q. true }

-- The main drive is full.
abbrev disk_full : Answers
disk_full = record all_well { copy = false }

cold_disk-link : (q t : List Text) → at q cold_disk ≡ some (link t) → (path_x ≡ q) × (blob_x ≡ t)
unfolding at
cold_disk-link q t h = ground (arith, path_eq→eq path_x q)

tmp_other-case : (P : List Text → Type 0) (q : List Text) → P path_y → P tmp_x → P (tmp_other q)
unfolding tmp_other
tmp_other-case P q h k = choose P (path_eq q tmp_x) path_y tmp_x (λ e. h) (λ e. k)

cold_disk-Sound : Sound drive_a tmp_other cold_disk
unfolding is_under_cold_mount cold_root_for absolute_path at path_eq is_link
cold_disk-Sound = record {
  target_is_cold = λ q t h.
      let (e, f) = cold_disk-link q t h in subst (λ x. is_under_cold_mount drive_a x ≡ true) f refl;
  link_is_not_cold = λ q t h.
      let (e, f) = cold_disk-link q t h in
      subst (λ x. is_under_cold_mount drive_a x ≡ false) e refl;
  unshared = λ q r t h k.
      let (e, f) = cold_disk-link q t h in
      let (e', f') = cold_disk-link r t k in
      subst (λ x. path_eq q x ≡ true) (sym e ∙ e') (path_eq_refl q);
  no_link_at_tmp = λ q. tmp_other-case (λ x. is_link (at x cold_disk) ≡ false) q refl refl;
}

other-Names : Names drive_a tmp_other
unfolding is_under_cold_mount cold_root_for absolute_path tmp_other path_eq
other-Names = record {
  tmp_is_not_cold = λ q h. tmp_other-case (λ x. is_under_cold_mount drive_a x ≡ false) q refl refl;
  tmp_is_other = λ q.
      choose (λ x. path_eq x q ≡ false) (path_eq q tmp_x) path_y tmp_x
        (λ e. subst (λ x. path_eq path_y x ≡ false) (sym (path_eq→eq q tmp_x e)) refl)
        (λ e. path_neq_sym q tmp_x e);
}

other_than_x : (q : List Text) → path_eq (tmp_other q) path_x ≡ false
unfolding path_eq
other_than_x q = tmp_other-case (λ x. path_eq x path_x ≡ false) q refl refl

promote-Throughout_example :
    Throughout
      (λ e. read path_x e ≡ some (1 ∷ []))
      (promote all_well drive_a tmp_x 9 path_x cold_disk)
unfolding read path_eq at is_link Beside
promote-Throughout_example =
    promote-Throughout all_well drive_a tmp_x 9 path_x path_x (1 ∷ []) cold_disk
      (λ target e.
        let (p, f) = cold_disk-link path_x target e in
        subst (λ t. Ready t tmp_x path_x cold_disk × Beside t tmp_x path_x path_x cold_disk) f
          (
            record {
              tmp_not_path = refl;
              tmp_not_blob = refl;
              path_not_blob = refl;
              no_link_at_tmp = refl;
            },
            λ n h. inl refl,
          ))
      refl

x_is_hot : is_under_cold_mount drive_a path_x ≡ false
unfolding is_under_cold_mount cold_root_for absolute_path
x_is_hot = refl

x_came_back :
    at path_x (migrated_disk cloud drive_a (world_with all_well) (codes "a") cold_disk).1
    ≡ some (file (1 ∷ []) 9)
unfolding migrated_disk at path_eq absolute_path tmp_other
x_came_back = refl

all_migrated :
    (t : List Text)
    → at path_x (migrated_disk cloud drive_a (world_with all_well) (codes "a") cold_disk).1
      ≡ some (link t)
    → is_below (cold_root_for (codes "a")) t ≡ false
all_migrated t h = cc (x_came_back)

evacuate_drive_keeps_example :
    read path_x (evacuate_drive (some cloud) drive_a (world_with all_well) (codes "a") cold_disk).1
    ≡ some (1 ∷ [])
unfolding read path_eq
evacuate_drive_keeps_example =
    evacuate_drive_keeps cloud drive_a (world_with all_well) (codes "a") path_x (1 ∷ []) cold_disk
      other-Names cold_disk-Sound refl x_is_hot other_than_x all_migrated refl

-- The copy back fails, and the only copy of the file is deleted.
evacuate_drive_loses_example :
    read path_x (evacuate_drive (some cloud) drive_a (world_with disk_full) (codes "a") cold_disk).1
    ≡ none
unfolding migrated_disk path_eq at walk_real_files read_dir is_hidden is_real cold_root_for
    absolute_path tmp_other
evacuate_drive_loses_example =
    evacuate_drive_loses cloud drive_a (world_with disk_full) (codes "a") path_x blob_x cold_disk
      refl refl refl refl
