-- ===== src/Paths/Ownership.antt =====
-- What `isOwner` decides: a path is the user's exactly when it lies under the user's root.
use shado_cloud.Common.{
  ◌==◌, Bool-cases, any, Text, text_eq, text_eq→eq, text_eq_refl, ℕ, ◌≡◌, refl, sym, ap, ◌∙◌, ◌↔◌,
  ◌⊎◌, inl, inr, Bool, true, false, not, ◌||◌, List, [], ◌∷◌, ◌++◌, arith,
}
use shado_cloud.Paths.{
  join_slash, parents, relative_names, relative_path, strip_both, strip_dots, is_slash,
  strip_slashes, is_owner,
}

-- A unit that `isOwner` does not remove.
abbrev pub lasts : ℕ → Bool
lasts c = not (c == b'.' || is_slash c)

-- The last name of the root has such a unit (an email address has its `@`).
abbrev pub is_anchored : List Text → Bool
is_anchored [] = false
is_anchored (w ∷ []) = any lasts w
is_anchored (w ∷ v ∷ ws) = is_anchored (v ∷ ws)

any-append_right :
    {A : Type 0} (p : A → Bool) (xs ys : List A) → any p ys ≡ true → any p (xs ++ ys) ≡ true
any-append_right p [] ys h = h
any-append_right p (x ∷ xs) ys h = ground (arith, any-append_right p xs ys h)

any-append_left :
    {A : Type 0} (p : A → Bool) (xs ys : List A) → any p xs ≡ true → any p (xs ++ ys) ≡ true
any-append_left p [] ys h = cc
any-append_left p (x ∷ xs) ys h = ground (arith, any-append_left p xs ys)

any-join_slash : (ws : List Text) → any (any lasts) ws ≡ true → any lasts (join_slash ws) ≡ true
unfolding join_slash
any-join_slash [] h = cc
any-join_slash (w ∷ []) h = ground arith
any-join_slash (w ∷ v ∷ ws) h = ground (
  arith,
  any-append_left lasts w (b'/' ∷ join_slash (v ∷ ws)),
  any-append_right lasts w (b'/' ∷ join_slash (v ∷ ws)),
  any-join_slash (v ∷ ws),
)

any-strip_both :
    (s : Text)
    → any lasts s ≡ true
    → (any lasts (strip_both s).0 ≡ true) × (any lasts (strip_both s).1 ≡ true)
unfolding strip_both
any-strip_both [] h = cc
any-strip_both (c ∷ s) h = ground (arith, any-strip_both s)

any-strip_slashes : (s : Text) → any lasts s ≡ true → text_eq (strip_slashes s) [] ≡ false
unfolding strip_slashes
any-strip_slashes [] h = cc
any-strip_slashes (c ∷ s) h = ground (arith, any-strip_slashes s)

-- A relative path that leads up only is removed whole.
parents_vanish :
    (ws : List Text) (w : Text) → strip_slashes (strip_dots (join_slash (parents (w ∷ ws)))) ≡ []
unfolding strip_slashes strip_dots join_slash parents
parents_vanish [] w = refl
parents_vanish (v ∷ ws) w = parents_vanish ws v

relative_names_inside : (root rest : List Text) → relative_names (root ++ rest) root ≡ parents rest
unfolding relative_names
relative_names_inside [] [] = refl
relative_names_inside [] (w ∷ ws) = refl
relative_names_inside (a ∷ root) rest = rw (text_eq_refl a) (relative_names_inside root rest)

any-is_anchored : (root : List Text) → is_anchored root ≡ true → any (any lasts) root ≡ true
any-is_anchored [] h = cc
any-is_anchored (w ∷ []) h = ground arith
any-is_anchored (w ∷ v ∷ ws) h = ground (arith, any-is_anchored (v ∷ ws))

-- Either the path lies under the root, or the last name of the root is left over.
abbrev InsideOrLasting : (p root : List Text) → Type 0
InsideOrLasting p root =
    ((rest : List Text) × (p ≡ root ++ rest)) ⊎ (any (any lasts) (relative_names p root) ≡ true)

same_name :
    (a b : Text) (p root : List Text)
    → text_eq a b ≡ true
    → InsideOrLasting p root
    → InsideOrLasting (a ∷ p) (b ∷ root)
unfolding relative_names
same_name a b p root e (inl (rest, h)) =
    inl (rest, ap (λ x. x ∷ p) (text_eq→eq a b e) ∙ ap (λ x. b ∷ x) h)
same_name a b p root e (inr h) = inr (rw e h)

inside_or_lasting : (p root : List Text) → is_anchored root ≡ true → InsideOrLasting p root
unfolding relative_names
inside_or_lasting p [] h = cc
inside_or_lasting [] (b ∷ root) h = inr (any-is_anchored (b ∷ root) h)
inside_or_lasting (a ∷ p) (b ∷ []) h = elim (Bool-cases (text_eq a b)) [
  | inl e ↦ same_name a b p [] e (inl (p, refl))
  | inr e ↦
      inr (
        rw e (any-append_right (any lasts) (parents (a ∷ p)) (b ∷ []) (any-is_anchored (b ∷ []) h)))
]
inside_or_lasting (a ∷ p) (b ∷ v ∷ root) h = elim (Bool-cases (text_eq a b)) [
  | inl e ↦ same_name a b p (v ∷ root) e (inside_or_lasting p (v ∷ root) h)
  | inr e ↦ inr (
      rw e (
        any-append_right (any lasts) (parents (a ∷ p)) (b ∷ v ∷ root)
          (any-is_anchored (b ∷ v ∷ root) h)))
]

owned_inside : (root rest : List Text) → is_owner root (root ++ rest) ≡ true
unfolding is_owner
owned_inside root [] = rw (relative_names_inside root []) refl
owned_inside root (w ∷ ws) = rw (relative_names_inside root (w ∷ ws), parents_vanish ws w) refl

not_owned :
    (root p : List Text) → any (any lasts) (relative_names p root) ≡ true → is_owner root p ≡ false
unfolding is_owner
not_owned root p h =
    let s = relative_path p root in
    any-strip_slashes (strip_dots s) (any-strip_both s (any-join_slash (relative_names p root) h)).1

-- Where the last name of the user's root has a character other than a dot and the slashes,
-- `isOwner` holds exactly for the root and the paths under it.
pub is_owner_iff :
    (root p : List Text)
    → is_anchored root ≡ true
    → (is_owner root p ≡ true) ↔ ((rest : List Text) × (p ≡ root ++ rest))
is_owner_iff root p h = (
  λ owned. elim (inside_or_lasting p root h) [
    | inl under ↦ under
    | inr over ↦ absurd (true_not_false (sym owned ∙ not_owned root p over))
  ],
  λ under. rw (under.1) (owned_inside root under.0),
)
  where
    true_not_false : true ≡ false → ⊥
    true_not_false e = cc
