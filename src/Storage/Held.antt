-- ===== src/Storage/Held.antt =====
-- What a change of one entry leaves as it is.
use shado_cloud.Common.{
  Option-cases, choose, Text, path_eq, path_eq→eq, ℕ, ◌≡◌, refl, sym, ap, ◌∙◌, subst, inl, inr,
  false, Option, none, some, List, [], ◌∷◌, ◌++◌, arith,
}
use shado_cloud.Storage.FileSystem.Calls.{
  at-put, at-remove, is_link, copy_file-eq, rename-eq, symlink-eq, rm_file-eq, some_inj,
}
use shado_cloud.Storage.FileSystem.{
  Node, file, link, folder, Disk, at, put, remove, content_of, read_node, read, copy_file, symlink,
  rename, rm_file, make_folder, make_folders,
}

-- The path holds the node, and reads the content.
unfoldable pub Held : List Text → Node → Text → Disk → Type 0
Held p n c d = (at p d ≡ some n) × (read_node (some n) d ≡ some c)

-- A place that is neither the path nor what the path points to.
unfoldable pub Clear : List Text → List Text → Node → Type 0
Clear x p (link target) = (path_eq x p ≡ false) × (path_eq x target ≡ false)
Clear x p n = path_eq x p ≡ false

pub read-Held : (p : List Text) (n : Node) (c : Text) (d : Disk) → Held p n c d → read p d ≡ some c
unfolding Held read
read-Held p n c d (here, content) = rw (read, here) content

pub Held-read :
    (p : List Text) (c : Text) (d : Disk) → read p d ≡ some c → (n : Node) × Held p n c d
unfolding Held read
Held-read p c d h = elim (Option-cases (at p d)) [
  | inl e ↦ cc (nothing d)
  | inr (n, e) ↦ (n, (e, subst (λ x. read_node x d ≡ some c) e h))
]
  where
    nothing : (e : Disk) → read_node none e ≡ none
    nothing e = refl

pub read_file :
    (p : List Text) (content : Text) (time : ℕ) (c : Text) (d : Disk)
    → at p d ≡ some (file content time)
    → read p d ≡ some c
    → content ≡ c
unfolding read read_node content_of
read_file p content time c d e h = some_inj (subst (λ o. read_node o d ≡ some c) e h)

pub read_link :
    (p target : List Text) (c : Text) (d : Disk)
    → at p d ≡ some (link target)
    → read p d ≡ some c
    → Held p (link target) c d
unfolding read Held
read_link p target c d e h = (e, subst (λ o. read_node o d ≡ some c) e h)

pub read_folder :
    (p : List Text) (c : Text) (d : Disk) → at p d ≡ some folder → read p d ≡ some c → none ≡ some c
unfolding read read_node content_of
read_folder p c d e h = subst (λ o. read_node o d ≡ some c) e h

Clear-path : (x p : List Text) (n : Node) → Clear x p n → path_eq x p ≡ false
unfolding Clear
Clear-path x p (link target) (h, k) = h
Clear-path x p (file content time) h = h
Clear-path x p folder h = h

read_node-changed :
    (x p : List Text) (n : Node) (d e : Disk)
    → Clear x p n
    → ((q : List Text) → path_eq x q ≡ false → at q e ≡ at q d)
    → read_node (some n) e ≡ read_node (some n) d
unfolding read_node Clear
read_node-changed x p (link target) d e (h, k) same = ap content_of (same target k)
read_node-changed x p (file content time) d e h same = refl
read_node-changed x p folder d e h same = refl

Held-changed :
    (x p : List Text) (n : Node) (c : Text) (d e : Disk)
    → Clear x p n
    → ((q : List Text) → path_eq x q ≡ false → at q e ≡ at q d)
    → Held p n c d
    → Held p n c e
unfolding Held
Held-changed x p n c d e clear same (here, content) =
    (same p (Clear-path x p n clear) ∙ here, read_node-changed x p n d e clear same ∙ content)

pub Held-put :
    (x : List Text) (m : Node) (p : List Text) (n : Node) (c : Text) (d : Disk)
    → Clear x p n
    → Held p n c d
    → Held p n c (put x m d)
Held-put x m p n c d clear =
    Held-changed x p n c d (put x m d) clear (λ q h. at-put q x m d ∙ rw h refl)

pub Held-remove :
    (x p : List Text) (n : Node) (c : Text) (d : Disk)
    → Clear x p n
    → Held p n c d
    → Held p n c (remove x d)
Held-remove x p n c d clear =
    Held-changed x p n c d (remove x d) clear (λ q h. at-remove q x d ∙ rw h refl)

-- A folder is only made where there is nothing.
at-make_folder :
    (q p : List Text) (d : Disk) (n : Node) → at q d ≡ some n → at q (make_folder p d) ≡ some n
unfolding make_folder
at-make_folder q p d n h = elim (Option-cases (at p d)) [
  | inl e ↦ rw (make_folder, e, at-put q p folder d) (ground (arith, path_eq→eq p q, h, e))
  | inr (m, e) ↦ rw (make_folder, e) h
]

at-make_folders :
    (made names q : List Text) (d : Disk) (n : Node)
    → at q d ≡ some n
    → at q (make_folders made names d) ≡ some n
unfolding make_folders
at-make_folders made [] q d n h = h
at-make_folders made (w ∷ names) q d n h =
    at-make_folders (made ++ w ∷ []) names q (make_folder (made ++ w ∷ []) d) n
      (at-make_folder q (made ++ w ∷ []) d n h)

content_of-some : (o : Option Node) (c : Text) → content_of o ≡ some c → (n : Node) × (o ≡ some n)
unfolding content_of
content_of-some none c h = cc
content_of-some (some n) c h = (n, refl)

pub Held-make_folders :
    (made names p : List Text) (n : Node) (c : Text) (d : Disk)
    → Held p n c d
    → Held p n c (make_folders made names d)
unfolding Held read_node
Held-make_folders made names p (link target) c d (here, content) =
    let (n, there) = content_of-some (at target d) c content in
    (
      at-make_folders made names p d (link target) here,
      ap content_of (at-make_folders made names target d n there ∙ sym there) ∙ content,
    )
Held-make_folders made names p (file content time) c d (here, e) =
    (at-make_folders made names p d (file content time) here, e)
Held-make_folders made names p folder c d (here, e) =
    (at-make_folders made names p d folder here, e)

is_link_folder : is_link (some folder) ≡ false
unfolding is_link
is_link_folder = refl

is_link-make_folder :
    (q p : List Text) (d : Disk)
    → is_link (at q d) ≡ false
    → is_link (at q (make_folder p d)) ≡ false
unfolding make_folder
is_link-make_folder q p d h = elim (Option-cases (at p d)) [
  | inl e ↦
      rw (make_folder, e, at-put q p folder d)
        (choose (λ o. is_link o ≡ false) (path_eq p q) (some folder) (at q d) (λ e. is_link_folder)
          (λ e. h))
  | inr (m, e) ↦ rw (make_folder, e) h
]

pub is_link-make_folders :
    (made names q : List Text) (d : Disk)
    → is_link (at q d) ≡ false
    → is_link (at q (make_folders made names d)) ≡ false
unfolding make_folders
is_link-make_folders made [] q d h = h
is_link-make_folders made (w ∷ names) q d h =
    is_link-make_folders (made ++ w ∷ []) names q (make_folder (made ++ w ∷ []) d)
      (is_link-make_folder q (made ++ w ∷ []) d h)

-- What the calls do to a path that they have nothing to do with.
module _ (p : List Text) (n : Node) (c : Text) where
  pub Held-rm_file :
      (x : List Text) (d e : Disk)
      → Clear x p n
      → Held p n c d
      → rm_file x d ≡ some e
      → Held p n c e
  Held-rm_file x d e clear held h =
      subst (Held p n c) (rm_file-eq x d h) (Held-remove x p n c d clear held)

  pub Held-symlink :
      (target x : List Text) (d e : Disk)
      → Clear x p n
      → Held p n c d
      → symlink target x d ≡ some e
      → Held p n c e
  Held-symlink target x d e clear held h =
      subst (Held p n c) (symlink-eq target x d h) (Held-put x (link target) p n c d clear held)

  pub Held-rename :
      (from to : List Text) (d e : Disk)
      → Clear from p n
      → Clear to p n
      → Held p n c d
      → rename from to d ≡ some e
      → Held p n c e
  Held-rename from to d e clear clear' held h =
      let (m, here, same) = rename-eq from to d h in
      subst (Held p n c) same
        (Held-put to m p n c (remove from d) clear' (Held-remove from p n c d clear held))

  pub Held-copy_file :
      (from to : List Text) (now : ℕ) (d e : Disk)
      → Clear to p n
      → is_link (at to d) ≡ false
      → Held p n c d
      → copy_file from to now d ≡ some e
      → Held p n c e
  Held-copy_file from to now d e clear plain held h =
      let (content, source, same) = copy_file-eq from to now d plain h in
      subst (Held p n c) same (Held-put to (file content now) p n c d clear held)
