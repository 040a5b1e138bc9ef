-- ===== src/Storage/Sweep/Tests.antt =====
-- One file on the main drive and one on a cold drive.
use shado_cloud.Common.{Text, codes, path_eq, ◌≡◌, refl, true, none, List, [], ◌∷◌}
use shado_cloud.Paths.{absolute_path}
use shado_cloud.Storage.FileSystem.{file, link, folder, Disk, at}
use shado_cloud.Storage.Drives.{cold_root_for, is_below}
use shado_cloud.Storage.Returns.{all_well}
use shado_cloud.Storage.Sweep.{Accesses, promote_on_access, remove_cold_data, cold_stats}

abbrev cloud : List Text
cloud = codes "cloud" ∷ []

abbrev cold_file : List Text
cold_file = codes "cloud" ∷ codes "x" ∷ []

abbrev blob : List Text
blob = codes "mnt" ∷ codes "a" ∷ codes "cloud-dir" ∷ codes "x" ∷ []

abbrev both : Disk
both =
    (cloud, folder)
    ∷ (cold_file, link blob)
    ∷ (codes "cloud" ∷ codes "y" ∷ [], file (5 ∷ []) 1)
    ∷ (codes "cloud" ∷ codes ".z" ∷ [], file (6 ∷ []) 1)
    ∷ (blob, file (1 ∷ 2 ∷ []) 1)
    ∷ []

abbrev drive_a : List Text
drive_a = codes "a" ∷ []

counted : cold_stats drive_a cloud both ≡ (2, 1)
unfolding cold_stats at path_eq cold_root_for absolute_path is_below
counted = refl

freed : at blob (remove_cold_data drive_a (λ q. true) cloud both) ≡ none
unfolding remove_cold_data at path_eq cold_root_for absolute_path is_below
freed = refl

abbrev no_access : Accesses
no_access = record { promotions = 0; bytes_promoted = 0; promotion_errors = 0 }

tmp_name : List Text
tmp_name = codes "cloud" ∷ codes "t" ∷ []

read_again :
    (promote_on_access [] true drive_a all_well tmp_name 3 cold_file (no_access, both)).0
    ≡ record { promotions = 1; bytes_promoted = 2; promotion_errors = 0 }
unfolding promote_on_access at path_eq cold_root_for absolute_path is_below tmp_name
read_again = refl

-- A promotion of the same path is running.
running_already :
    (promote_on_access
      (cold_file ∷ [])
      true
      drive_a
      all_well
      tmp_name
      3
      cold_file
      (no_access, both)).0
    ≡ no_access
unfolding promote_on_access path_eq
running_already = refl
