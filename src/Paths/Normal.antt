-- ===== src/Paths/Normal.antt =====
-- Texts of paths: a relative path that is split again, and what keeps a path in normal form.
use shado_cloud.Common.{
  ◌==◌, and-eq-true, choose, all, Text, text_eq, ℕ, ◌≡◌, refl, ap, ◌∙◌, Bool, true, List, [], ◌∷◌,
  ◌++◌, arith,
}
use shado_cloud.Paths.{
  split_names, join_slash, drop_last, dot_dot, enter_name, enter_names, absolute_path, resolve_path,
  parents, relative_names, relative_path, add_unit,
}
use shado_cloud.Paths.Relative.{no_slash, is_plain, relative_returns}

split_names-append :
    (w s : Text) → all no_slash w ≡ true → split_names (w ++ b'/' ∷ s) ≡ w ∷ split_names s
unfolding split_names
split_names-append [] s h = refl
split_names-append (c ∷ w) s h =
    let (here, later) = and-eq-true (no_slash c) (all no_slash w) h in
    rw (split_names-append w s later) (ground arith)

split_names_single : (w : Text) → all no_slash w ≡ true → split_names w ≡ w ∷ []
unfolding split_names
split_names_single [] h = refl
split_names_single (c ∷ w) h =
    let (here, later) = and-eq-true (no_slash c) (all no_slash w) h in
    rw (split_names_single w later) (ground arith)

split_names-join_slash :
    (w : Text) (ws : List Text)
    → all (all no_slash) (w ∷ ws) ≡ true
    → split_names (join_slash (w ∷ ws)) ≡ w ∷ ws
unfolding join_slash
split_names-join_slash w [] h = split_names_single w (and-eq-true _ _ h).0
split_names-join_slash w (v ∷ ws) h =
    let (here, later) = and-eq-true (all no_slash w) (all (all no_slash) (v ∷ ws)) h in
    split_names-append w (join_slash (v ∷ ws)) here
    ∙ ap (λ x. w ∷ x) (split_names-join_slash v ws later)

enter_names-join_slash :
    (dir ws : List Text)
    → all (all no_slash) ws ≡ true
    → enter_names dir (split_names (join_slash ws)) ≡ enter_names dir ws
unfolding enter_names split_names join_slash
enter_names-join_slash dir [] h = refl
enter_names-join_slash dir (w ∷ ws) h = ap (enter_names dir) (split_names-join_slash w ws h)

plain_no_slash : (ws : List Text) → all is_plain ws ≡ true → all (all no_slash) ws ≡ true
plain_no_slash [] h = refl
plain_no_slash (w ∷ ws) h = ground (arith, plain_no_slash ws)

all-append_both :
    (p : Text → Bool) (xs ys : List Text)
    → all p xs ≡ true
    → all p ys ≡ true
    → all p (xs ++ ys) ≡ true
all-append_both p [] ys h k = k
all-append_both p (x ∷ xs) ys h k = ground (arith, all-append_both p xs ys)

parents_slashless : (ws : List Text) → all (all no_slash) (parents ws) ≡ true
unfolding parents
parents_slashless [] = refl
parents_slashless (w ∷ ws) = parents_slashless ws

relative_no_slash :
    (from to : List Text)
    → all is_plain to ≡ true
    → all (all no_slash) (relative_names from to) ≡ true
unfolding relative_names
relative_no_slash [] to h = plain_no_slash to h
relative_no_slash (a ∷ from) [] h = parents_slashless (a ∷ from)
relative_no_slash (a ∷ from) (b ∷ to) h =
    choose (λ ws. all (all no_slash) ws ≡ true) (text_eq a b) _ _
      (λ _. relative_no_slash from to (and-eq-true (is_plain b) (all is_plain to) h).1)
      (λ _.
        all-append_both (all no_slash) (parents (a ∷ from)) (b ∷ to) (parents_slashless (a ∷ from))
          (plain_no_slash (b ∷ to) h))

-- Joining a directory with the relative path to a path in normal form gives that path.
pub absolute_returns :
    (dir to : List Text) → all is_plain to ≡ true → absolute_path dir (relative_path dir to) ≡ to
unfolding absolute_path relative_path
absolute_returns dir to h =
    enter_names-join_slash dir (relative_names dir to) (relative_no_slash dir to h)
    ∙ relative_returns [] dir to h

add_unit_keeps :
    (c : ℕ) (ws : List Text)
    → no_slash c ≡ true
    → all (all no_slash) ws ≡ true
    → all (all no_slash) (add_unit c ws) ≡ true
unfolding add_unit
add_unit_keeps c [] h k = ground arith
add_unit_keeps c (w ∷ ws) h k = ground arith

split_no_slash : (s : Text) → all (all no_slash) (split_names s) ≡ true
unfolding split_names
split_no_slash [] = refl
split_no_slash (c ∷ s) =
    choose (λ ws. all (all no_slash) ws ≡ true) (c == b'/') _ _ (λ _. split_no_slash s)
      (λ e. add_unit_keeps c (split_names s) (rw e refl) (split_no_slash s))

drop_last_plain : (ws : List Text) → all is_plain ws ≡ true → all is_plain (drop_last ws) ≡ true
unfolding drop_last
drop_last_plain [] h = refl
drop_last_plain (w ∷ []) h = refl
drop_last_plain (w ∷ v ∷ ws) h =
    let (here, later) = and-eq-true (is_plain w) (all is_plain (v ∷ ws)) h in
    rw here (drop_last_plain (v ∷ ws) later)

enter_name_keeps :
    (dir : List Text) (w : Text)
    → all is_plain dir ≡ true
    → all no_slash w ≡ true
    → all is_plain (enter_name dir w) ≡ true
unfolding enter_name
enter_name_keeps dir w h k =
    let P : List Text → Type 0 = λ x. all is_plain x ≡ true in
    choose P (text_eq w []) _ _ (λ _. h)
      (λ e.
        choose P (text_eq w (b'.' ∷ [])) _ _ (λ _. h)
          (λ f.
            choose P (text_eq w dot_dot) _ _ (λ _. drop_last_plain dir h)
              (λ g. all-append_both is_plain dir (w ∷ []) h (rw (e, f, g, k) refl))))

enter_names_keeps :
    (dir ws : List Text)
    → all is_plain dir ≡ true
    → all (all no_slash) ws ≡ true
    → all is_plain (enter_names dir ws) ≡ true
unfolding enter_names
enter_names_keeps dir [] h k = h
enter_names_keeps dir (w ∷ ws) h k =
    let (here, later) = and-eq-true (all no_slash w) (all (all no_slash) ws) k in
    enter_names_keeps (enter_name dir w) ws (enter_name_keeps dir w h here) later

-- A path that is joined to one in normal form is in normal form.
pub absolute_path_keeps :
    (dir : List Text) (rel : Text)
    → all is_plain dir ≡ true
    → all is_plain (absolute_path dir rel) ≡ true
unfolding absolute_path
absolute_path_keeps dir rel h = enter_names_keeps dir (split_names rel) h (split_no_slash rel)

pub resolve_path_keeps :
    (dir : List Text) (p : Text)
    → all is_plain dir ≡ true
    → all is_plain (resolve_path dir p) ≡ true
unfolding resolve_path
resolve_path_keeps dir [] h = h
resolve_path_keeps dir (c ∷ s) h =
    choose (λ x. all is_plain x ≡ true) (c == b'/') _ _ (λ _. absolute_path_keeps [] (c ∷ s) refl)
      (λ _. absolute_path_keeps dir (c ∷ s) h)
