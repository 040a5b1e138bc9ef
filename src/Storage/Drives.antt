-- ===== src/Storage/Drives.antt =====
-- The cold drives of the configuration, and which one a sweep takes.
use shado_cloud.Common.{
  ltb, if◌then◌else◌, Bool-cases, any, All, Text, codes, text_eq, text_eq_refl, ℕ, ◌≤◌, ◌≡◌, refl,
  subst, ◌⊎◌, inl, inr, Bool, true, false, ◌&&◌, Option, none, some, List, [], ◌∷◌, arith,
}
use shado_cloud.Paths.{absolute_path}

-- `mountFor` and `coldRootFor`, for a name with no "$".
unfoldable pub mount_for : Text → List Text
mount_for name = absolute_path (codes "mnt" ∷ []) name

unfoldable pub cold_root_for : Text → List Text
unfolding mount_for
cold_root_for name = absolute_path (mount_for name) (codes "cloud-dir")

-- `p.startsWith(root + path.sep)`, for normal forms.
unfoldable pub is_below : (root p : List Text) → Bool
is_below [] [] = false
is_below [] (w ∷ p) = true
is_below (a ∷ root) [] = false
is_below (a ∷ root) (b ∷ p) = text_eq a b && is_below root p

unfoldable pub is_under_cold_mount : List Text → List Text → Bool
unfolding is_below cold_root_for
is_under_cold_mount drives target = any (λ name. is_below (cold_root_for name) target) drives

-- `!best || free > best.free`
better : Text → ℕ → Option (Text × ℕ) → Option (Text × ℕ)
better name free none = some (name, free)
better name free (some (best, most)) =
    if ltb most free then some (name, free) else some (best, most)

-- `free` is the free space of a drive, where `statfs` of its mount does not throw.
consider : Text → Option ℕ → Option (Text × ℕ) → Option (Text × ℕ)
unfolding better
consider name none best = best
consider name (some free) best = better name free best

pick_from : (Text → Option ℕ) → List Text → Option (Text × ℕ) → Option (Text × ℕ)
unfolding consider
pick_from free [] best = best
pick_from free (name ∷ names) best = pick_from free names (consider name (free name) best)

name_of : Option (Text × ℕ) → Option Text
name_of none = none
name_of (some (name, free)) = some name

unfoldable pub pick_cold_drive : (Text → Option ℕ) → List Text → Option Text
unfolding pick_from name_of
pick_cold_drive free drives = name_of (pick_from free drives none)

module _ (free : Text → Option ℕ) where
  -- No drive of the list that answers has more.
  unfoldable pub AtMost : ℕ → List Text → Type 0
  AtMost most drives = All (λ name. (f : ℕ) → free name ≡ some f → f ≤ most) drives

  IsBest : Option (Text × ℕ) → Option (Text × ℕ) → List Text → Type 0
  unfolding AtMost
  IsBest before none names = (before ≡ none) × All (λ name. free name ≡ none) names
  IsBest before (some (best, most)) names =
      ((before ≡ some (best, most)) ⊎ ((any (text_eq best) names ≡ true) × (free best ≡ some most)))
      × AtMost most names
      × ((b : Text) (m : ℕ) → before ≡ some (b, m) → m ≤ most)

  -- The first drive becomes the best one.
  taken :
      (name : Text) (f : ℕ) (before after : Option (Text × ℕ)) (names : List Text)
      → free name ≡ some f
      → ((b : Text) (m : ℕ) → before ≡ some (b, m) → m ≤ f)
      → IsBest (some (name, f)) after names
      → IsBest before after (name ∷ names)
  unfolding IsBest AtMost
  taken name f before none names e below (h, k) = cc
  taken name f before (some (best, most)) names e below (origin, bound, m) =
      let more : f ≤ most = m name f refl in
      (
        inr (elim origin [
          | inl h ↦ (ground (arith, text_eq_refl best), cc)
          | inr (h, k) ↦ (rw h (ground arith), k)
        ]),
        ((λ g h. ground arith), bound),
        λ b n h. let few = below b n h in omega arith,
      )

  -- What was the best before stays so.
  kept :
      (name : Text) (before after : Option (Text × ℕ)) (names : List Text)
      → ((f : ℕ) → free name ≡ some f → (b : Text) × (m : ℕ) × (before ≡ some (b, m)) × (f ≤ m))
      → (before ≡ none → free name ≡ none)
      → IsBest before after names
      → IsBest before after (name ∷ names)
  unfolding IsBest AtMost
  kept name before none names less silent (h, k) = (h, (silent h, k))
  kept name before (some (best, most)) names less silent (origin, bound, m) = (
    elim origin [ inl h ↦ inl h | inr (h, k) ↦ inr (rw h (ground arith), k) ],
    ((λ f h. let (b, n, e, few) = less f h in let few' = m b n e in omega arith), bound),
    m,
  )

  consider-IsBest :
      (name : Text) (f : Option ℕ) (before after : Option (Text × ℕ)) (names : List Text)
      → free name ≡ f
      → IsBest (consider name f before) after names
      → IsBest before after (name ∷ names)
  unfolding consider better
  consider-IsBest name none before after names e h =
      kept name before after names (λ g k. cc) (λ k. e) h
  consider-IsBest name (some f) none after names e h =
      taken name f none after names e (λ b m k. cc) h
  consider-IsBest name (some f) (some (b, g)) after names e h = elim (Bool-cases (ltb g f)) [
    | inl less ↦
        taken name f (some (b, g)) after names e (λ c m k. ground arith)
          (subst (λ x. IsBest x after names) (rw (better, less) refl) h)
    | inr more ↦
        kept name (some (b, g)) after names (λ x k. (b, g, refl, ground arith)) (λ k. cc)
          (subst (λ x. IsBest x after names) (rw (better, more) refl) h)
  ]

  pick_from-IsBest :
      (names : List Text) (before : Option (Text × ℕ))
      → IsBest before (pick_from free names before) names
  unfolding pick_from IsBest AtMost
  pick_from-IsBest [] none = (refl, tt)
  pick_from-IsBest [] (some (b, m)) = (inl refl, tt, λ c n h. ground arith)
  pick_from-IsBest (name ∷ names) before =
      consider-IsBest name (free name) before
        (pick_from free names (consider name (free name) before)) names refl
        (pick_from-IsBest names (consider name (free name) before))

  -- Which drive is the right one: no other that answers has more room, and none answers if none is.
  unfoldable pub IsRoomiest : List Text → Option Text → Type 0
  unfolding AtMost
  IsRoomiest drives none = All (λ name. free name ≡ none) drives
  IsRoomiest drives (some best) =
      (any (text_eq best) drives ≡ true)
      × ((most : ℕ) × (free best ≡ some most) × AtMost most drives)

  name_of-IsRoomiest :
      (drives : List Text) (after : Option (Text × ℕ))
      → IsBest none after drives
      → IsRoomiest drives (name_of after)
  unfolding IsBest IsRoomiest name_of
  name_of-IsRoomiest drives none (e, silent) = silent
  name_of-IsRoomiest drives (some (best, most)) (origin, bound, m) = elim origin [
    | inl h ↦ cc
    | inr (h, k) ↦ (h, (most, k, bound))
  ]

-- The drive that a sweep takes is a configured one that answers and has as much room as any other
-- that answers, and there is none only where no drive answers.
pick_cold_drive-IsRoomiest :
    (free : Text → Option ℕ) (drives : List Text)
    → IsRoomiest free drives (pick_cold_drive free drives)
unfolding pick_cold_drive
pick_cold_drive-IsRoomiest free drives =
    name_of-IsRoomiest free drives (pick_from free drives none) (pick_from-IsBest free drives none)
