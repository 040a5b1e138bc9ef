-- ===== src/Paths/Relative.antt =====
-- Paths in normal form, and going back along a relative path.
use mathlib.Core.List.{append_assoc, append-nil}
use shado_cloud.Common.{
  ◌==◌, and-eq-true, choose, all, Text, text_eq, text_eq→eq, ℕ, ◌≡◌, refl, sym, ap, ◌∙◌, Bool, true,
  not, ◌&&◌, List, [], ◌∷◌, ◌++◌, arith,
}
use shado_cloud.Paths.{drop_last, dot_dot, enter_name, enter_names, parents, relative_names}

abbrev pub no_slash : ℕ → Bool
no_slash c = not (c == b'/')

-- A name that stands for an entry of a directory.
abbrev pub is_plain : Text → Bool
is_plain w =
    not (text_eq w []) && not (text_eq w (b'.' ∷ [])) && not (text_eq w dot_dot) && all no_slash w

drop_last-append : (xs : List Text) (w : Text) → drop_last (xs ++ w ∷ []) ≡ xs
unfolding drop_last
drop_last-append [] w = refl
drop_last-append (x ∷ []) w = refl
drop_last-append (x ∷ y ∷ xs) w = ap (λ z. x ∷ z) (drop_last-append (y ∷ xs) w)

enter_names-append :
    (xs us ws : List Text) → enter_names xs (us ++ ws) ≡ enter_names (enter_names xs us) ws
unfolding enter_names
enter_names-append xs [] ws = refl
enter_names-append xs (u ∷ us) ws = enter_names-append (enter_name xs u) us ws

enter_name_plain : (xs : List Text) (w : Text) → is_plain w ≡ true → enter_name xs w ≡ xs ++ w ∷ []
unfolding enter_name
enter_name_plain xs w h = ground arith

enter_names_plain : (xs ws : List Text) → all is_plain ws ≡ true → enter_names xs ws ≡ xs ++ ws
unfolding enter_names
enter_names_plain xs [] h = sym (append-nil xs)
enter_names_plain xs (w ∷ ws) h =
    let (here, later) = and-eq-true (is_plain w) (all is_plain ws) h in
    rw (enter_name_plain xs w here)
      (enter_names_plain (xs ++ w ∷ []) ws later ∙ append_assoc xs (w ∷ []) ws)

pop_commutes :
    (xs from : List Text)
    → enter_names (drop_last xs) (parents from) ≡ drop_last (enter_names xs (parents from))
unfolding enter_names parents
pop_commutes xs [] = refl
pop_commutes xs (a ∷ from) = pop_commutes (drop_last xs) from

parents_return : (dir from : List Text) → enter_names (dir ++ from) (parents from) ≡ dir
unfolding enter_names parents
parents_return dir [] = append-nil dir
parents_return dir (a ∷ from) =
    pop_commutes (dir ++ a ∷ from) from
    ∙ ap (λ x. drop_last (enter_names x (parents from))) (sym (append_assoc dir (a ∷ []) from))
    ∙ ap drop_last (parents_return (dir ++ a ∷ []) from)
    ∙ drop_last-append dir a

-- Going from a directory along the relative path to another one leads there.
pub relative_returns :
    (dir from to : List Text)
    → all is_plain to ≡ true
    → enter_names (dir ++ from) (relative_names from to) ≡ dir ++ to
unfolding relative_names
relative_returns dir [] to h =
    ap (λ x. enter_names x to) (append-nil dir) ∙ enter_names_plain dir to h
relative_returns dir (a ∷ from) [] h = parents_return dir (a ∷ from) ∙ sym (append-nil dir)
relative_returns dir (a ∷ from) (b ∷ to) h =
    let (here, later) = and-eq-true (is_plain b) (all is_plain to) h in
    let P : List Text → Type 0 = λ ws. enter_names (dir ++ a ∷ from) ws ≡ dir ++ b ∷ to in
    choose P (text_eq a b) (relative_names from to) (parents (a ∷ from) ++ b ∷ to)
      (λ e.
        ap (λ x. enter_names x (relative_names from to)) (sym (append_assoc dir (a ∷ []) from))
        ∙ relative_returns (dir ++ a ∷ []) from to later
        ∙ append_assoc dir (a ∷ []) to
        ∙ ap (λ x. dir ++ x ∷ to) (text_eq→eq a b e))
      (λ _.
        enter_names-append (dir ++ a ∷ from) (parents (a ∷ from)) (b ∷ to)
        ∙ ap (λ x. enter_names x (b ∷ to)) (parents_return dir (a ∷ from))
        ∙ enter_names_plain dir (b ∷ to) h)
