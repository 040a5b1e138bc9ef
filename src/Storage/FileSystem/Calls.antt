-- ===== src/Storage/FileSystem/Calls.antt =====
-- What the calls on the file system do, entry by entry.
use shado_cloud.Common.{
  if◌then◌else◌, Bool-cases, Text, path_eq, path_eq_refl, path_eq→eq, ℕ, ◌≡◌, refl, sym, ap, ◌∙◌,
  inl, inr, Bool, true, false, Option, none, some, List, [], ◌∷◌, arith,
}
use shado_cloud.Storage.FileSystem.{
  Node, file, link, folder, Disk, at, put, remove, read, place_of, copy_file, symlink, rename,
  rm_file, copy_found, link_if_free, rename_found, remove_found,
}

pub at-put :
    (q p : List Text) (n : Node) (d : Disk)
    → at q (put p n d) ≡ (if path_eq p q then some n else at q d)
unfolding at put
at-put q p n [] = refl
at-put q p n ((r, m) ∷ d) =
    ground (arith, at-put q p n d, path_eq→eq r p, path_eq→eq r q, path_eq→eq p q, path_eq_refl q)

pub at-remove :
    (q p : List Text) (d : Disk) → at q (remove p d) ≡ (if path_eq p q then none else at q d)
unfolding at remove
at-remove q p [] = ground arith
at-remove q p ((r, m) ∷ d) =
    ground (arith, at-remove q p d, path_eq→eq r p, path_eq→eq r q, path_eq→eq p q, path_eq_refl q)

pub at-put_same : (p : List Text) (n : Node) (d : Disk) → at p (put p n d) ≡ some n
at-put_same p n d = at-put p p n d ∙ rw (path_eq_refl p) refl

pub at-put_other :
    (p q : List Text) (n : Node) (d : Disk) → path_eq p q ≡ false → at q (put p n d) ≡ at q d
at-put_other p q n d h = at-put q p n d ∙ rw h refl

pub at-remove_other :
    (p q : List Text) (d : Disk) → path_eq p q ≡ false → at q (remove p d) ≡ at q d
at-remove_other p q d h = at-remove q p d ∙ rw h refl

pub path_neq_sym : (p q : List Text) → path_eq p q ≡ false → path_eq q p ≡ false
path_neq_sym p q h = elim (Bool-cases (path_eq q p)) [
  | inl e ↦ cc (path_eq→eq q p e, path_eq_refl q)
  | inr e ↦ e
]

unfoldable pub is_link : Option Node → Bool
is_link (some (link target)) = true
is_link _ = false

pub place_of_plain : (p : List Text) (o : Option Node) → is_link o ≡ false → place_of p o ≡ p
unfolding place_of is_link
place_of_plain p none h = refl
place_of_plain p (some (link target)) h = cc
place_of_plain p (some (file content time)) h = refl
place_of_plain p (some folder) h = refl

copy_found-eq :
    (source : Option Text) (place : List Text) (now : ℕ) (d : Disk) {e : Disk}
    → copy_found source place now d ≡ some e
    → (content : Text) × (source ≡ some content) × (put place (file content now) d ≡ e)
unfolding copy_found
copy_found-eq none place now d h = cc
copy_found-eq (some content) place now d h = (content, refl, cc)

pub copy_file-eq :
    (from to : List Text) (now : ℕ) (d : Disk) {e : Disk}
    → is_link (at to d) ≡ false
    → copy_file from to now d ≡ some e
    → (content : Text) × (read from d ≡ some content) × (put to (file content now) d ≡ e)
unfolding copy_file
copy_file-eq from to now d plain h =
    let (content, source, same) = copy_found-eq (read from d) (place_of to (at to d)) now d h in
    (
      content,
      source,
      ap (λ x. put x (file content now) d) (sym (place_of_plain to (at to d) plain)) ∙ same,
    )

rename_found-eq :
    (o : Option Node) (from to : List Text) (d : Disk) {e : Disk}
    → rename_found o from to d ≡ some e
    → (m : Node) × (o ≡ some m) × (put to m (remove from d) ≡ e)
unfolding rename_found
rename_found-eq none from to d h = cc
rename_found-eq (some m) from to d h = (m, refl, cc)

pub rename-eq :
    (from to : List Text) (d : Disk) {e : Disk}
    → rename from to d ≡ some e
    → (m : Node) × (at from d ≡ some m) × (put to m (remove from d) ≡ e)
unfolding rename
rename-eq from to d h = rename_found-eq (at from d) from to d h

link_if_free-eq :
    (o : Option Node) (target p : List Text) (d : Disk) {e : Disk}
    → link_if_free o target p d ≡ some e
    → put p (link target) d ≡ e
unfolding link_if_free
link_if_free-eq none target p d h = cc
link_if_free-eq (some n) target p d h = cc

pub symlink-eq :
    (target p : List Text) (d : Disk) {e : Disk}
    → symlink target p d ≡ some e
    → put p (link target) d ≡ e
unfolding symlink
symlink-eq target p d h = link_if_free-eq (at p d) target p d h

remove_found-eq :
    (o : Option Node) (p : List Text) (d : Disk) {e : Disk}
    → remove_found o p d ≡ some e
    → remove p d ≡ e
unfolding remove_found
remove_found-eq none p d h = cc
remove_found-eq (some folder) p d h = cc
remove_found-eq (some (file content time)) p d h = cc
remove_found-eq (some (link target)) p d h = cc

pub rm_file-eq : (p : List Text) (d : Disk) {e : Disk} → rm_file p d ≡ some e → remove p d ≡ e
unfolding rm_file
rm_file-eq p d h = remove_found-eq (at p d) p d h

pub some_inj : {A : Type 0} {x y : A} → some x ≡ some y → x ≡ y
some_inj h = cc

-- The calls that succeed.
pub copy_file-some :
    (from to : List Text) (now : ℕ) (content : Text) (d : Disk)
    → read from d ≡ some content
    → is_link (at to d) ≡ false
    → copy_file from to now d ≡ some (put to (file content now) d)
unfolding copy_file copy_found
copy_file-some from to now content d e plain =
    rw (copy_file, e, place_of_plain to (at to d) plain) refl

pub symlink-some :
    (target p : List Text) (d : Disk)
    → at p d ≡ none
    → symlink target p d ≡ some (put p (link target) d)
unfolding symlink link_if_free
symlink-some target p d e = rw (symlink, e) refl

pub rename-some :
    (from to : List Text) (n : Node) (d : Disk)
    → at from d ≡ some n
    → rename from to d ≡ some (put to n (remove from d))
unfolding rename rename_found
rename-some from to n d e = rw (rename, e) refl

pub rm_file-some :
    (p : List Text) (content : Text) (time : ℕ) (d : Disk)
    → at p d ≡ some (file content time)
    → rm_file p d ≡ some (remove p d)
unfolding rm_file remove_found
rm_file-some p content time d e = rw (rm_file, e) refl
