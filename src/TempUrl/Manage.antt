-- ===== src/TempUrl/Manage.antt =====
-- `generate` and `delete`: how a share comes to be and goes, by its owner only.
use shado_cloud.Paths.Ownership.{is_anchored, is_owner_iff}
use shado_cloud.Common.{
  ◌==◌, ==_iff, choose, find?, keep, All, Result, err, ok, ◌>>=◌, require, require_passed,
  bind_passed, Text, ℕ, ◌≡◌, refl, sym, ap, ◌∙◌, subst, ◌≢◌, ◌↔◌, Bool, true, false, not, ◌||◌,
  Option, none, some, List, [], ◌∷◌, ◌++◌, arith,
}
use shado_cloud.Paths.{absolute_path, is_owner}
use shado_cloud.TempUrl.Confined.{ok_eq}
use shado_cloud.TempUrl.Requests.{find_or_throw-eq-ok}
use shado_cloud.TempUrl.{
  AccessLevel, public, authenticated, restricted, TempUrl, Entry, directory, file, Cloud, Refusal,
  not_permitted, nothing_to_share, restricted_unsupported, not_yours, type_error, has_url,
  find_or_throw,
}

-- What `generate` is asked for; a level that is none of the three counts as absent.
pub record Wish : Type 0 where
  pub filepath : Text
  pub max_requests : ℕ
  pub expires_at : ℕ
  pub is_readonly : Bool
  pub access_level : Option AccessLevel

level_of : Option AccessLevel → AccessLevel
level_of none = public
level_of (some level) = level

is_restricted : AccessLevel → Bool
is_restricted restricted = true
is_restricted level = false

is_directory : Entry → Bool
is_directory directory = true
is_directory (file content) = false

-- The entry at the path, if there is one.
existing : Option Entry → Result Refusal Entry
existing none = err nothing_to_share
existing (some e) = ok e

-- `tempUrl` as lines 75 to 83 fill it in; `id` is the row's new key and `url` the random token.
new_share : (id user : ℕ) (url : Text) (is_dir : Bool) → Wish → TempUrl
unfolding level_of
new_share id user url is_dir w = record {
  id = id;
  user = user;
  url = url;
  filepath = w.filepath;
  requests = 0;
  max_requests = w.max_requests;
  is_readonly = is_dir || w.is_readonly;
  is_dir = is_dir;
  access_level = some (level_of w.access_level);
  expires_at = w.expires_at;
}

unfoldable pub generate :
    (id user : ℕ) (url : Text) → Wish → Cloud → Result Refusal (Cloud × TempUrl)
unfolding is_restricted is_directory existing new_share absolute_path is_owner level_of
generate id user url w c =
    let path = absolute_path (c.root_of user) w.filepath in
    require (is_owner (c.root_of user) path) not_permitted (
      existing (c.entry path) >>= λ e.
      require (not (is_restricted (level_of w.access_level))) restricted_unsupported (
        ok (
          record c { urls = c.urls ++ new_share id user url (is_directory e) w ∷ [] },
          new_share id user url (is_directory e) w,
        )))

drop_row : ℕ → List TempUrl → List TempUrl
drop_row id rs = keep (λ r. not (r.id == id)) rs

-- Where there is no such share, the message of the exception reads a field of null.
delete_found : (user : ℕ) → Option TempUrl → Cloud → Result Refusal Cloud
unfolding drop_row
delete_found user none c = err type_error
delete_found user (some t) c =
    require (user == t.user) not_yours (ok (record c { urls = drop_row t.id c.urls }))

unfoldable pub delete : (user : ℕ) (url : Text) → Cloud → Result Refusal Cloud
unfolding delete_found has_url
delete user url c = delete_found user (find? (has_url url) c.urls) c

is_dir_readonly : (b r : Bool) → b ≡ true → (b || r) ≡ true
is_dir_readonly b r h = ground arith

existing-eq-ok : (o : Option Entry) {e : Entry} → existing o ≡ ok e → o ≡ some e
unfolding existing
existing-eq-ok none h = cc
existing-eq-ok (some x) h = cc

is_directory_iff : (e : Entry) → (is_directory e ≡ true) ↔ (e ≡ directory)
unfolding is_directory
is_directory_iff directory = (λ _. refl, λ _. refl)
is_directory_iff (file x) = (λ h. cc, λ h. cc)

-- Where the user's root ends in a name with a character that `isOwner` keeps, a share that `generate`
-- makes is new at the end of the table, unused, and its user's; its path lies
-- under the user's root and exists; it is a directory share exactly when a directory is there, and
-- then it is read-only; and its level is not the restricted one.
pub generate-eq-ok :
    (id user : ℕ) (url : Text) (w : Wish) (c : Cloud) {c' : Cloud} {t : TempUrl}
    → is_anchored (c.root_of user) ≡ true
    → generate id user url w c ≡ ok (c', t)
    → (c'.urls ≡ c.urls ++ t ∷ [])
      × (t.requests ≡ 0)
      × (t.user ≡ user)
      × ((rest : List Text) × (absolute_path (c.root_of user) t.filepath ≡ c.root_of user ++ rest))
      × ((e : Entry) × (c.entry (absolute_path (c.root_of user) t.filepath) ≡ some e)
          × ((t.is_dir ≡ true) ↔ (e ≡ directory)))
      × (t.is_dir ≡ true → t.is_readonly ≡ true)
      × (t.access_level ≢ some restricted)
unfolding generate new_share level_of is_restricted
generate-eq-ok id user url w c {c'} {t} anchored h =
    let path = absolute_path (c.root_of user) w.filepath in
    let (owned, h1) = require_passed (is_owner (c.root_of user) path) not_permitted _ h in
    let (e, there, h2) = bind_passed (existing (c.entry path)) _ h1 in
    let (free, h3) =
      require_passed (not (is_restricted (level_of w.access_level))) restricted_unsupported _ h2 in
    let made = new_share id user url (is_directory e) w in
    let same : (record c { urls = c.urls ++ made ∷ [] }, made) ≡ (c', t) = ok_eq h3 in
    subst
      (λ q.
        (q.0.urls ≡ c.urls ++ q.1 ∷ [])
        × (q.1.requests ≡ 0)
        × (q.1.user ≡ user)
        × ((rest : List Text) × (absolute_path (c.root_of user) q.1.filepath
              ≡ c.root_of user ++ rest))
        × ((e : Entry) × (c.entry (absolute_path (c.root_of user) q.1.filepath) ≡ some e)
            × ((q.1.is_dir ≡ true) ↔ (e ≡ directory)))
        × (q.1.is_dir ≡ true → q.1.is_readonly ≡ true)
        × (q.1.access_level ≢ some restricted))
      same
      (
        refl,
        refl,
        refl,
        (is_owner_iff (c.root_of user) path anchored).0 owned,
        (e, existing-eq-ok (c.entry path) there, is_directory_iff e),
        is_dir_readonly (is_directory e) w.is_readonly,
        not_restricted (level_of w.access_level) free,
      )
  where
    not_restricted : (l : AccessLevel) → not (is_restricted l) ≡ true → some l ≢ some restricted
    not_restricted public h e = cc
    not_restricted authenticated h e = cc
    not_restricted restricted h e = cc

dropped : (id : ℕ) (rs : List TempUrl) → All (λ r. r.id ≢ id) (drop_row id rs)
unfolding drop_row
dropped id [] = tt
dropped id (r ∷ rs) =
    choose (All (λ x. x.id ≢ id)) (not (r.id == id)) _ _
      (λ e. (λ same. differ r.id id e same, dropped id rs)) (λ _. dropped id rs)
  where
    differ : (a b : ℕ) → not (a == b) ≡ true → a ≡ b → ⊥
    differ a b e same = ground (arith, e, same)

find-drop_row :
    (url : Text) (id : ℕ) (rs : List TempUrl) (r : TempUrl)
    → r.id ≢ id
    → find? (has_url url) rs ≡ some r
    → find? (has_url url) (drop_row id rs) ≡ some r
unfolding drop_row has_url
find-drop_row url id [] r d h = cc
find-drop_row url id (x ∷ rs) r d h =
    let P : List TempUrl → Type 0 = λ ws. find? (has_url url) ws ≡ some r in
    let later_found = λ (g : find? (has_url url) rs ≡ some r). find-drop_row url id rs r d g in
    choose (λ o. o ≡ some r → P (drop_row id (x ∷ rs))) (has_url url x) _ _
      (λ m same.
        choose P (not (x.id == id)) _ _ (λ _. rw m same)
          (λ k. absurd (d (sym (ap (λ y. y.id) (some_eq same)) ∙ is_same x.id id k))))
      (λ m later.
        choose P (not (x.id == id)) _ _ (λ _. rw m (later_found later)) (λ _. later_found later))
      h
  where
    some_eq : {a b : TempUrl} → some a ≡ some b → a ≡ b
    some_eq same = cc

    is_same : (a b : ℕ) → not (a == b) ≡ false → a ≡ b
    is_same a b k = ground arith

-- What is left of the table, and what is found in it, when the rows of one share are gone.
abbrev pub IsDeleted : TempUrl → Cloud → Cloud → Type 0
IsDeleted t c c' =
    All (λ r. r.id ≢ t.id) c'.urls
    × ((other : Text) (r : TempUrl)
        → r.id ≢ t.id
        → find_or_throw other c ≡ ok r
        → find_or_throw other c' ≡ ok r)

dropped-IsDeleted :
    (t : TempUrl) (c : Cloud) → IsDeleted t c (record c { urls = drop_row t.id c.urls })
unfolding find_or_throw
dropped-IsDeleted t c = (
  dropped t.id c.urls,
  λ other r d h.
      rw (find_or_throw, find-drop_row other t.id c.urls r d (find_or_throw-eq-ok other c r h))
        refl,
)

delete_found-IsDeleted :
    (user : ℕ) (o : Option TempUrl) (c : Cloud) {c' : Cloud}
    → delete_found user o c ≡ ok c'
    → (t : TempUrl) × (o ≡ some t) × (t.user ≡ user) × IsDeleted t c c'
unfolding delete_found
delete_found-IsDeleted user none c h = cc
delete_found-IsDeleted user (some t) c {c'} h =
    let (mine, done) = require_passed (user == t.user) not_yours _ h in
    let left = subst (IsDeleted t c) (ok_eq done) (dropped-IsDeleted t c) in
    (t, refl, sym ((==_iff user t.user).0 mine), left)

-- When a share is deleted, it is the caller's; no row with its id is left, and every other share is
-- found as before.
pub delete-IsDeleted :
    (user : ℕ) (url : Text) (c : Cloud) {c' : Cloud}
    → delete user url c ≡ ok c'
    → (t : TempUrl) × (find_or_throw url c ≡ ok t) × (t.user ≡ user) × IsDeleted t c c'
unfolding delete find_or_throw
delete-IsDeleted user url c h =
    let (t, found, mine, left) = delete_found-IsDeleted user (find? (has_url url) c.urls) c h in
    (t, rw (find_or_throw, found) refl, mine, left)
