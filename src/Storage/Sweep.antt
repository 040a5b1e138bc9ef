-- ===== src/Storage/Sweep.antt =====
-- The rest of file-system/tiered-storage.service.ts that changes or counts files: the sweep over stale
-- files, the promotion of a file that is read, the removal of blobs, and the statistics.
mod Tests
use shado_cloud.Common.{
  ltb, if◌then◌else◌, length, any, Text, path_eq, ℕ, zero, suc, ◌+◌, ◌-◌, Bool, true, false, not,
  ◌&&◌, Option, none, some, List, [], ◌∷◌, ◌++◌,
}
use shado_cloud.Storage.{Answers, demote, Promotion, promoted, not_cold, threw, promote}
use shado_cloud.Storage.FileSystem.{Node, file, link, folder, Disk, at, rm_file}
use shado_cloud.Storage.Traces.{final}
use shado_cloud.Storage.Drives.{cold_root_for, is_under_cold_mount, pick_cold_drive}
use shado_cloud.Storage.Walk.{read_dir, is_hidden, is_symlink, walk_real_files}
use shado_cloud.Storage.Evacuate.{World}

abbrev pub stale_after_ms : ℕ
stale_after_ms = 2592000000

abbrev pub min_demote_size_bytes : ℕ
min_demote_size_bytes = 1048576

pub record Sweep : Type 0 where
  pub demoted : ℕ
  pub bytes_moved : ℕ
  pub errors : ℕ

count_demotion : Bool → ℕ → Sweep → Sweep
count_demotion true size r = record r {
  demoted = r.demoted + 1;
  bytes_moved = r.bytes_moved + size;
}
count_demotion false size r = record r { errors = r.errors + 1 }

-- `statSync`, which follows a link.
stat_node : Option Node → Disk → Option Node
unfolding at
stat_node (some (link target)) d = at target d
stat_node n d = n

module _ (cloud_dir cold_root : List Text) (w : World) (min_size : ℕ) where
  -- By what `stat` finds; a path that vanished is an error.
  sweep_found : Option Node → List Text → Sweep × Disk → Sweep × Disk
  unfolding count_demotion demote final
  sweep_found (some (file content time)) path (r, d) =
      if ltb (w.now - stale_after_ms) time
      then (r, d)
      else if ltb (length content) min_size
      then (r, d)
      else let trace = demote (w.answers path) cloud_dir cold_root (w.tmp_of path) w.now path d in
        (count_demotion trace.0 (length content) r, final d trace)
  sweep_found _ path (r, d) = (count_demotion false 0 r, d)

  unfoldable pub sweep_files : List (List Text) → Sweep × Disk → Sweep × Disk
  unfolding sweep_found stat_node at
  sweep_files [] (r, d) = (r, d)
  sweep_files (path ∷ files) (r, d) =
      sweep_files files (sweep_found (stat_node (at path d) d) path (r, d))

-- `demoteStaleFiles`, with `none` where it returns at once: a sweep is running, the flag is off, there
-- is no cloud folder, or no drive answers.
unfoldable pub demote_stale_files :
    (demoting enabled : Bool)
    → Option (List Text)
    → (Text → Option ℕ)
    → List Text
    → World
    → Disk
    → Option (Sweep × Disk)
unfolding sweep_files walk_real_files cold_root_for pick_cold_drive
demote_stale_files true enabled cloud_dir free drives w d = none
demote_stale_files false false cloud_dir free drives w d = none
demote_stale_files false true none free drives w d = none
demote_stale_files false true (some cloud_dir) free drives w d =
    elim (pick_cold_drive free drives) [
      | none ↦ none
      | some drive ↦ some (
          sweep_files cloud_dir (cold_root_for drive) w min_demote_size_bytes
            (walk_real_files cloud_dir d) (record { demoted = 0; bytes_moved = 0; errors = 0 }, d))
    ]

-- The counts of `promoteOnAccess`.
pub record Accesses : Type 0 where
  pub promotions : ℕ
  pub bytes_promoted : ℕ
  pub promotion_errors : ℕ

count_access : Promotion → Accesses → Accesses
count_access (promoted size) r = record r {
  promotions = r.promotions + 1;
  bytes_promoted = r.bytes_promoted + size;
}
count_access not_cold r = r
count_access threw r = record r { promotion_errors = r.promotion_errors + 1 }

-- `promoteOnAccess`; `promoting` has the paths of which a promotion is running.
unfoldable pub promote_on_access :
    (promoting : List (List Text)) (enabled : Bool) (drives : List Text)
    → Answers
    → (tmp : List Text) → ℕ
    → List Text
    → Accesses × Disk
    → Accesses × Disk
unfolding at count_access promote final is_symlink
promote_on_access promoting enabled drives a tmp now path (r, d) =
    if any (path_eq path) promoting then (r, d) else elim (at path d) [
      | none ↦ (r, d)
      | some n ↦
          if not (is_symlink n)
          then (r, d)
          else if not enabled
          then (r, d)
          else let trace = promote a drives tmp now path d in
            (count_access trace.0 r, final d trace)
    ]

-- `isColdFile`
unfoldable pub is_cold_file : List Text → List Text → Disk → Bool
unfolding at is_under_cold_mount
is_cold_file drives path d = elim (at path d) [
  | some n ↦ elim n [
    | link target ↦ is_under_cold_mount drives target
    | file content time ↦ false
    | folder ↦ false
  ]
  | none ↦ false
]

-- A failure is only logged.
or_unchanged : Disk → Option Disk → Disk
or_unchanged d none = d
or_unchanged d (some e) = e

each_entry : (Text → Disk → Disk) → List (Text × Node) → Disk → Disk
each_entry f [] d = d
each_entry f ((name, n) ∷ entries) d = each_entry f entries (f name d)

-- `removeColdData`; no path is deeper than there are entries, so that this number is fuel enough.
remove_cold_found :
    (Text → Disk → Disk) → List Text → (List Text → Bool) → List Text → Option Node → Disk → Disk
unfolding each_entry or_unchanged rm_file is_under_cold_mount read_dir
remove_cold_found inside drives can_delete path (some (link target)) d =
    if is_under_cold_mount drives target && can_delete target
    then or_unchanged d (rm_file target d)
    else d
remove_cold_found inside drives can_delete path (some folder) d =
    each_entry inside (read_dir path d) d
remove_cold_found inside drives can_delete path _ d = d

remove_cold : ℕ → List Text → (List Text → Bool) → List Text → Disk → Disk
unfolding remove_cold_found at
remove_cold zero drives can_delete path d = d
remove_cold (suc fuel) drives can_delete path d =
    remove_cold_found (λ name e. remove_cold fuel drives can_delete (path ++ name ∷ []) e) drives
      can_delete path (at path d) d

unfoldable pub remove_cold_data : List Text → (List Text → Bool) → List Text → Disk → Disk
unfolding remove_cold
remove_cold_data drives can_delete path d = remove_cold (suc (length d)) drives can_delete path d

-- One entry of `coldStats`: the total and the cold files.
count_entry : Node → ℕ × ℕ → Bool → ℕ × ℕ → ℕ × ℕ
count_entry folder (sub_total, sub_cold) is_cold (total, cold) =
    (total + sub_total, cold + sub_cold)
count_entry (link target) sub is_cold (total, cold) =
    (total + 1, if is_cold then cold + 1 else cold)
count_entry (file content time) sub is_cold (total, cold) = (total + 1, cold)

count_entries : (Text → ℕ × ℕ) → (Text → Bool) → List (Text × Node) → ℕ × ℕ → ℕ × ℕ
unfolding count_entry is_hidden
count_entries inside is_cold [] counts = counts
count_entries inside is_cold ((name, n) ∷ entries) counts =
    count_entries inside is_cold entries
      (if is_hidden name then counts else count_entry n (inside name) (is_cold name) counts)

cold_counts : ℕ → List Text → List Text → Disk → ℕ × ℕ
unfolding count_entries read_dir is_cold_file
cold_counts zero drives dir d = (0, 0)
cold_counts (suc fuel) drives dir d =
    count_entries (λ name. cold_counts fuel drives (dir ++ name ∷ []) d)
      (λ name. is_cold_file drives (dir ++ name ∷ []) d) (read_dir dir d) (0, 0)

unfoldable pub cold_stats : List Text → List Text → Disk → ℕ × ℕ
unfolding cold_counts
cold_stats drives dir d = cold_counts (suc (length d)) drives dir d
