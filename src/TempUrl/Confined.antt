-- ===== src/TempUrl/Confined.antt =====
-- `resolveTarget` never leaves the shared directory, nor the storage of the share's owner.
use shado_cloud.Paths.Ownership.{is_anchored, is_owner_iff}
use shado_cloud.Paths.Relative.{is_plain}
use shado_cloud.Paths.Normal.{absolute_returns, absolute_path_keeps, resolve_path_keeps}
use shado_cloud.Common.{
  choose, all, Result, ok, require_passed, bind_passed, Text, text_eq, text_eq→eq, ◌≡◌, refl, sym,
  ap, ◌∙◌, subst, Bool, true, false, not, List, [], ◌∷◌, ◌++◌, arith,
}
use shado_cloud.Paths.{
  join_slash, dot_dot, absolute_path, resolve_path, parents, relative_names, relative_path,
  is_owner,
}
use shado_cloud.TempUrl.{
  TempUrl, Refusal, invalid_path, single_file, outside_storage, leads_out, relative_target,
  resolve_target,
}

leads_out_up : (ws : List Text) → leads_out (join_slash (dot_dot ∷ ws)) ≡ true
unfolding leads_out join_slash
leads_out_up [] = refl
leads_out_up (v ∷ ws) = refl

not_up : {X : Type 0} (ws : List Text) → leads_out (join_slash (dot_dot ∷ ws)) ≡ false → X
not_up ws h = absurd (differ (sym (leads_out_up ws) ∙ h))
  where
    differ : true ≡ false → ⊥
    differ e = cc

-- A relative path that does not lead out leads to a place under its start.
stays_inside :
    (base target : List Text)
    → leads_out (join_slash (relative_names base target)) ≡ false
    → (rest : List Text) × (target ≡ base ++ rest)
unfolding relative_names parents
stays_inside [] target h = (target, refl)
stays_inside (a ∷ base) [] h = not_up (parents base) h
stays_inside (a ∷ base) (b ∷ target) h =
    choose
      (λ ws.
        leads_out (join_slash ws) ≡ false → (rest : List Text) × (b ∷ target ≡ a ∷ base ++ rest))
      (text_eq a b) _ _
      (λ e k.
        let (rest, under) = stays_inside base target k in
        (rest, ap (λ x. x ∷ target) (sym (text_eq→eq a b e)) ∙ ap (λ x. a ∷ x) under))
      (λ _ k. not_up _ k) h

-- What a granted path is: under the owner's root, and for a directory share under that directory.
abbrev pub IsConfined : List Text → TempUrl → List Text → Type 0
IsConfined root t path =
    ((rest : List Text) × (path ≡ root ++ rest))
    × (t.is_dir ≡ true → (rest : List Text) × (path ≡ absolute_path root t.filepath ++ rest))
    × (t.is_dir ≡ false → path ≡ absolute_path root t.filepath)

true_false : {X : Type 0} {b : Bool} → b ≡ true → b ≡ false → X
true_false t f = absurd (cc)

pub false_if_not : (b : Bool) → not b ≡ true → b ≡ false
false_if_not b h = ground arith

pub ok_eq : {A : Type 0} {a b : A} → ◌≡◌ {A = Result Refusal A} (ok a) (ok b) → a ≡ b
ok_eq h = cc

relative_target_shared :
    (root : List Text) (t : TempUrl) (sub_path rel : Text)
    → all is_plain root ≡ true
    → relative_target root t sub_path ≡ ok rel
    → (t.is_dir ≡ true
        → (rest : List Text) × (absolute_path root rel ≡ absolute_path root t.filepath ++ rest))
      × (t.is_dir ≡ false → absolute_path root rel ≡ absolute_path root t.filepath)
unfolding relative_target relative_path
relative_target_shared root t sub_path rel plain =
    let base = absolute_path root t.filepath in
    let target = resolve_path base sub_path in
    let G : Type 0 =
      (t.is_dir ≡ true → (rest : List Text) × (absolute_path root rel ≡ base ++ rest))
      × (t.is_dir ≡ false → absolute_path root rel ≡ base) in
    choose (λ x. x ≡ ok rel → G) t.is_dir _ _
      (λ e h.
        let (inside, same) =
          require_passed (not (leads_out (relative_path base target))) invalid_path _ h in
        let (rest, under) = stays_inside base target (false_if_not _ inside) in
        let plain' = resolve_path_keeps base sub_path (absolute_path_keeps root t.filepath plain) in
        let there = absolute_returns root target plain' in
        (
          λ _. (rest, ap (absolute_path root) (sym (ok_eq same)) ∙ there ∙ under),
          λ f. true_false e f,
        ))
      (λ e h.
        let (none_given, same) = require_passed (text_eq sub_path []) single_file _ h in
        (λ k. true_false k e, λ _. ap (absolute_path root) (sym (ok_eq same))))

-- When `resolveTarget` succeeds, the path that it returns lies under the root of the share's owner;
-- for a directory share it is the shared directory or lies under it, and for a file share it is the
-- shared file. The owner's root is in normal form and its last name has a character other than a dot
-- and the slashes.
pub resolve_target-IsConfined :
    (root : List Text) (t : TempUrl) (sub_path : Text) {path : List Text} {rel : Text}
    → all is_plain root ≡ true
    → is_anchored root ≡ true
    → resolve_target root t sub_path ≡ ok (path, rel)
    → IsConfined root t path
unfolding resolve_target
resolve_target-IsConfined root t sub_path {path} {rel} plain anchored h =
    let (r, first, second) = bind_passed (relative_target root t sub_path) _ h in
    let (owned, same) =
      require_passed (is_owner root (absolute_path root r)) outside_storage _ second in
    let here : absolute_path root r ≡ path = ap (λ x. x.0) (ok_eq same) in
    let (shared, single) = relative_target_shared root t sub_path r plain first in
    subst (IsConfined root t) here
      ((is_owner_iff root (absolute_path root r) anchored).0 owned, shared, single)
