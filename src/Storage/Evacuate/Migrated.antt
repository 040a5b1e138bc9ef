-- ===== src/Storage/Evacuate/Migrated.antt =====
-- That the promotions of an evacuation keep the content of every file.
use shado_cloud.Storage.Traces.{final, final-Throughout}
use shado_cloud.Storage.{promote}
use shado_cloud.Common.{
  Bool-cases, choose, Text, path_eq, path_eq→eq, ◌≡◌, refl, sym, ap, ◌∙◌, inl, inr, true, false,
  not, Option, none, some, List, [], ◌∷◌,
}
use shado_cloud.Storage.FileSystem.{Node, file, link, folder, Disk, at, read}
use shado_cloud.Storage.FileSystem.Calls.{path_neq_sym, is_link}
use shado_cloud.Storage.Held.{Clear}
use shado_cloud.Storage.Drives.{is_below, is_under_cold_mount}
use shado_cloud.Storage.Promoted.{Ready, Beside, promote-Throughout}
use shado_cloud.Storage.Evacuate.{Evacuation, World, migrate, migrate_found}
use shado_cloud.Storage.Evacuate.Links.{NoNewLink, NoNewLink-promote}

-- Every link of the disk stands outside the cold drives and points into one, no two of them point to
-- the same blob, and none stands under a temporary name.
pub record Sound (drives : List Text) (tmp_of : List Text → List Text) (d : Disk) : Type 0 where
  pub target_is_cold :
      (q t : List Text) → at q d ≡ some (link t) → is_under_cold_mount drives t ≡ true
  pub link_is_not_cold :
      (q t : List Text) → at q d ≡ some (link t) → is_under_cold_mount drives q ≡ false
  pub unshared :
      (q r t : List Text) → at q d ≡ some (link t) → at r d ≡ some (link t) → path_eq q r ≡ true
  pub no_link_at_tmp : (q : List Text) → is_link (at (tmp_of q) d) ≡ false

-- The temporary name of a file outside the cold drives is outside too, and is not that of the file.
pub record Names (drives : List Text) (tmp_of : List Text → List Text) : Type 0 where
  pub tmp_is_not_cold :
      (q : List Text)
      → is_under_cold_mount drives q ≡ false
      → is_under_cold_mount drives (tmp_of q) ≡ false
  pub tmp_is_other : (q : List Text) → path_eq (tmp_of q) q ≡ false

is_link-link : (o : Option Node) → is_link o ≡ true → (t : List Text) × (o ≡ some (link t))
unfolding is_link
is_link-link none h = cc
is_link-link (some (file content time)) h = cc
is_link-link (some folder) h = cc
is_link-link (some (link t)) h = (t, refl)

link_is_link :
    (o : Option Node) (t : List Text) → o ≡ some (link t) → is_link o ≡ false → true ≡ false
unfolding is_link
link_is_link o t e h = ap is_link (sym e) ∙ h

Sound-NoNewLink :
    (drives : List Text) (tmp_of : List Text → List Text) (d e : Disk)
    → Sound drives tmp_of d
    → NoNewLink d e
    → Sound drives tmp_of e
unfolding NoNewLink
Sound-NoNewLink drives tmp_of d e sound old = record {
  target_is_cold = λ q t h. sound.target_is_cold q t (old q t h);
  link_is_not_cold = λ q t h. sound.link_is_not_cold q t (old q t h);
  unshared = λ q r t h k. sound.unshared q r t (old q t h) (old r t k);
  no_link_at_tmp = λ q. elim (Bool-cases (is_link (at (tmp_of q) e))) [
    | inl linked ↦
        let (t, h) = is_link-link (at (tmp_of q) e) linked in
        cc (link_is_link (at (tmp_of q) d) t (old (tmp_of q) t h) (sound.no_link_at_tmp q))
    | inr none_there ↦ none_there
  ];
}

pub apart_by_drive :
    (drives : List Text) (p q : List Text)
    → is_under_cold_mount drives p ≡ false
    → is_under_cold_mount drives q ≡ true
    → path_eq p q ≡ false
apart_by_drive drives p q h k = elim (Bool-cases (path_eq p q)) [
  | inl e ↦ cc (ap (is_under_cold_mount drives) (path_eq→eq p q e))
  | inr e ↦ e
]

module _ (drives : List Text) (w : World) (names : Names drives w.tmp_of) (p : List Text) (c : Text)
    (not_cold_p : is_under_cold_mount drives p ≡ false)
    (no_tmp_p : (q : List Text) → path_eq (w.tmp_of q) p ≡ false) where
  Ready-Sound :
      (d : Disk) (path target : List Text)
      → Sound drives w.tmp_of d
      → at path d ≡ some (link target)
      → Ready target (w.tmp_of path) path d
  Ready-Sound d path target sound e = record {
    tmp_not_path = names.tmp_is_other path;
    tmp_not_blob =
        apart_by_drive drives (w.tmp_of path) target
          (names.tmp_is_not_cold path (sound.link_is_not_cold path target e))
          (sound.target_is_cold path target e);
    path_not_blob =
        apart_by_drive drives path target (sound.link_is_not_cold path target e)
          (sound.target_is_cold path target e);
    no_link_at_tmp = sound.no_link_at_tmp path;
  }

  unrelated :
      (d : Disk) (path target : List Text) (n : Node)
      → Sound drives w.tmp_of d
      → at path d ≡ some (link target)
      → at p d ≡ some n
      → path_eq path p ≡ false
      → Clear (w.tmp_of path) p n × Clear path p n × Clear target p n
  unfolding Clear
  unrelated d path target (file content time) sound e here other = (
    no_tmp_p path,
    other,
    path_neq_sym p target
        (apart_by_drive drives p target not_cold_p (sound.target_is_cold path target e)),
  )
  unrelated d path target folder sound e here other = (
    no_tmp_p path,
    other,
    path_neq_sym p target
        (apart_by_drive drives p target not_cold_p (sound.target_is_cold path target e)),
  )
  unrelated d path target (link t) sound e here other =
      let cold_t = sound.target_is_cold p t here in
      let cold_target = sound.target_is_cold path target e in
      (
        (
          no_tmp_p path,
          apart_by_drive drives (w.tmp_of path) t
              (names.tmp_is_not_cold path (sound.link_is_not_cold path target e)) cold_t,
        ),
        (other, apart_by_drive drives path t (sound.link_is_not_cold path target e) cold_t),
        (
          path_neq_sym p target (apart_by_drive drives p target not_cold_p cold_target),
          elim (Bool-cases (path_eq target t)) [
            | inl same ↦
                let e_t = path_eq→eq target t same in
                cc (sound.unshared path p t (e ∙ ap (λ x. some (link x)) e_t) here)
            | inr apart ↦ apart
          ],
        ),
      )

  Beside-Sound :
      (d : Disk) (path target : List Text)
      → Sound drives w.tmp_of d
      → at path d ≡ some (link target)
      → Beside target (w.tmp_of path) path p d
  unfolding Beside
  Beside-Sound d path target sound e n here = elim (Bool-cases (path_eq path p)) [
    | inl same ↦ inl same
    | inr other ↦ inr (unrelated d path target n sound e here other)
  ]

  unfoldable pub Good : Disk → Type 0
  Good d = (read p d ≡ some c) × Sound drives w.tmp_of d

  final-Good :
      (d : Disk) (path : List Text)
      → Good d
      → Good (final d (promote (w.answers path) drives (w.tmp_of path) w.now path d))
  unfolding Good NoNewLink
  final-Good d path (h, sound) =
      let trace = promote (w.answers path) drives (w.tmp_of path) w.now path d in
      (
        final-Throughout (λ e. read p e ≡ some c) d trace h
            (promote-Throughout (w.answers path) drives (w.tmp_of path) w.now path p c d
              (λ target e. (Ready-Sound d path target sound e, Beside-Sound d path target sound e))
              h),
        Sound-NoNewLink drives w.tmp_of d (final d trace) sound (
            final-Throughout (NoNewLink d) d trace (λ q t k. k)
              (NoNewLink-promote (w.answers path) (w.tmp_of path) w.now path d drives
                (sound.no_link_at_tmp path))),
      )

  migrate_found-Good :
      (cold_root : List Text) (o : Option Node) (path : List Text) (r : Evacuation) (d : Disk)
      → Good d
      → Good (migrate_found drives cold_root w o path (r, d)).1
  unfolding migrate_found
  migrate_found-Good cold_root none path r d good = good
  migrate_found-Good cold_root (some (file content time)) path r d good = good
  migrate_found-Good cold_root (some folder) path r d good = good
  migrate_found-Good cold_root (some (link target)) path r d good =
      choose {A = Evacuation × Disk} (λ x. Good x.1) (not (is_below cold_root target)) (r, d) _
        (λ e. good) (λ e. final-Good d path good)

  pub migrate-Good :
      (cold_root : List Text) (links : List (List Text)) (rd : Evacuation × Disk)
      → Good rd.1
      → Good (migrate drives cold_root w links rd).1
  unfolding migrate
  migrate-Good cold_root [] (r, d) good = good
  migrate-Good cold_root (path ∷ links) (r, d) good =
      migrate-Good cold_root links (migrate_found drives cold_root w (at path d) path (r, d))
        (migrate_found-Good cold_root (at path d) path r d good)
