-- ===== src/TempUrl/Requests.antt =====
-- What a request through a share is allowed to do, and what it changes.
use shado_cloud.Paths.Ownership.{is_anchored}
use shado_cloud.Paths.Relative.{is_plain}
use shado_cloud.TempUrl.Confined.{IsConfined, ok_eq, resolve_target-IsConfined}
use shado_cloud.Common.{
  ◌==◌, Bool-cases, choose, find?, all, err, ok, require_passed, bind_passed, Text, text_eq, ℕ, ◌+◌,
  ◌<◌, ◌≡◌, refl, sym, ap, ◌∙◌, subst, inl, inr, Bool, true, false, Option, none, some, List, [],
  ◌∷◌, arith,
}
use shado_cloud.TempUrl.{
  TempUrl, Entry, directory, file, Cloud, invalid_url, login_required, exhausted, has_url,
  find_or_throw, save_row, is_authorized, verify_url_conditions, resolve_target, read_entry,
  open_stream, count_request, as_stream, replace_row, has_row,
}

find-replace_row :
    (url : Text) (t t' : TempUrl) (rs : List TempUrl)
    → find? (has_url url) rs ≡ some t
    → t'.id ≡ t.id
    → text_eq t'.url url ≡ true
    → (has_row t'.id rs ≡ true) × (find? (has_url url) (replace_row t' rs) ≡ some t')
unfolding has_row replace_row has_url
find-replace_row url t t' [] h e k = cc
find-replace_row url t t' (r ∷ rs) h e k =
    let G : Type 0 =
      (has_row t'.id (r ∷ rs) ≡ true) × (find? (has_url url) (replace_row t' (r ∷ rs)) ≡ some t') in
    elim (Bool-cases (r.id == t'.id)) [
      | inl i ↦ rw i (rw k (refl, refl))
      | inr i ↦
          choose (λ x. x ≡ some t → G) (has_url url r) _ _
            (λ m same. absurd (apart r t t' i e (some_eq same)))
            (λ m later. rw i (rw m (find-replace_row url t t' rs later e k))) h
    ]
  where
    some_eq : {a b : TempUrl} → some a ≡ some b → a ≡ b
    some_eq same = cc

    apart : (r t t' : TempUrl) → (r.id == t'.id) ≡ false → t'.id ≡ t.id → r ≡ t → ⊥
    apart r t t' i e same =
        let one : r.id ≡ t'.id = ap (λ x. x.id) same ∙ sym e in ground (arith, one, i)

pub find_or_throw-eq-ok :
    (url : Text) (c : Cloud) (t : TempUrl)
    → find_or_throw url c ≡ ok t
    → find? (has_url url) c.urls ≡ some t
unfolding find_or_throw
find_or_throw-eq-ok url c t h = from_found (find? (has_url url) c.urls) h
  where
    from_found :
        (o : Option TempUrl)
        → (elim o [ none ↦ err invalid_url | some t ↦ ok t ]) ≡ ok t
        → o ≡ some t
    from_found none h = cc
    from_found (some x) h = cc

found_url :
    (url : Text) (rs : List TempUrl) (t : TempUrl)
    → find? (has_url url) rs ≡ some t
    → text_eq t.url url ≡ true
unfolding has_url
found_url url [] t h = cc
found_url url (r ∷ rs) t h =
    choose (λ x. x ≡ some t → text_eq t.url url ≡ true) (has_url url r) _ _
      (λ m same. subst (λ x. text_eq x.url url ≡ true) (some_eq same) m)
      (λ _ later. found_url url rs t later) h
  where
    some_eq : {a b : TempUrl} → some a ≡ some b → a ≡ b
    some_eq same = cc

-- Counting a request from a row that was read earlier.
pub count_request_stale :
    (url : Text) (now_there t : TempUrl) (c : Cloud)
    → find_or_throw url c ≡ ok now_there
    → t.id ≡ now_there.id
    → text_eq t.url url ≡ true
    → find_or_throw url (count_request t c) ≡ ok (record t { requests = t.requests + 1 })
unfolding find_or_throw count_request save_row
count_request_stale url now_there t c h same_id same_url =
    let found = find_or_throw-eq-ok url c now_there h in
    let (row, replaced) =
      find-replace_row url now_there (record t { requests = t.requests + 1 }) c.urls found same_id
        same_url in
    rw row (rw (find_or_throw, replaced) refl)

pub found_has_url :
    (url : Text) (t : TempUrl) (c : Cloud) → find_or_throw url c ≡ ok t → text_eq t.url url ≡ true
found_has_url url t c h = found_url url c.urls t (find_or_throw-eq-ok url c t h)

count_request-found :
    (url : Text) (t : TempUrl) (c : Cloud)
    → find_or_throw url c ≡ ok t
    → find_or_throw url (count_request t c) ≡ ok (record t { requests = t.requests + 1 })
count_request-found url t c h = count_request_stale url t t c h refl (found_has_url url t c h)

-- The owners' roots are in normal form, and end in a name with a character that `isOwner` keeps.
pub record HasRoots (c : Cloud) : Type 0 where
  pub plain : (u : ℕ) → all is_plain (c.root_of u) ≡ true
  pub anchored : (u : ℕ) → is_anchored (c.root_of u) ≡ true

-- A request through the share `t` that went through and is counted.
abbrev pub IsCounted : Text → Option Text → Cloud → Cloud → TempUrl → List Text → Type 0
IsCounted url cookies c c' t path =
    (find_or_throw url c ≡ ok t)
    × (t.requests < t.max_requests)
    × (c.now < t.expires_at)
    × (is_authorized t cookies c ≡ true)
    × IsConfined (c.root_of t.user) t path
    × (find_or_throw url c' ≡ ok (record t { requests = t.requests + 1 }))

conditions :
    (t : TempUrl) (write : Bool) (now : ℕ)
    → verify_url_conditions t write now ≡ true
    → (t.requests < t.max_requests) × (now < t.expires_at) × (write ≡ true → t.is_readonly ≡ false)
unfolding verify_url_conditions
conditions t write now h = ground arith

read_entry-eq-ok :
    (o : Option Entry) {content : Text} → read_entry o ≡ ok content → o ≡ some (file content)
unfolding read_entry
read_entry-eq-ok none h = cc
read_entry-eq-ok (some directory) h = cc
read_entry-eq-ok (some (file x)) h = cc

-- What `asStream` and the check of its request agree on.
open_stream-eq-ok :
    (url sub_path : Text) (cookies : Option Text) (c : Cloud) {t : TempUrl} {path : List Text}
    {content : Text}
    → HasRoots c
    → open_stream url sub_path cookies c ≡ ok (t, path, content)
    → IsCounted url cookies c (count_request t c) t path × (c.entry path ≡ some (file content))
unfolding open_stream
open_stream-eq-ok url sub_path cookies c {t} {path} {content} roots h =
    let (t', found, h1) = bind_passed (find_or_throw url c) _ h in
    let (allowed, h2) = require_passed (is_authorized t' cookies c) login_required _ h1 in
    let (good, h3) = require_passed (verify_url_conditions t' false c.now) exhausted _ h2 in
    let (target, resolved, h4) =
      bind_passed (resolve_target (c.root_of t'.user) t' sub_path) _ h3 in
    let (content', here, h5) = bind_passed (read_entry (c.entry target.0)) _ h4 in
    let (room, fresh, _) = conditions t' false c.now good in
    let confined =
      resolve_target-IsConfined (c.root_of t'.user) t' sub_path (roots.plain t'.user)
        (roots.anchored t'.user) resolved in
    let same : (t', target.0, content') ≡ (t, path, content) = ok_eq h5 in
    subst
      (λ g. IsCounted url cookies c (count_request g.0 c) g.0 g.1 × (c.entry g.1 ≡ some (file g.2)))
      same
      (
        (found, room, fresh, allowed, confined, count_request-found url t' c found),
        read_entry-eq-ok (c.entry target.0) here,
      )

-- Where the owners' roots are in normal form and end in a name with a character that `isOwner` keeps,
-- a share that streams a file had requests left, had not expired and let the caller in; the file lies
-- under the shared directory, or is the shared file, and under the owner's root; its content on the
-- disk is what is sent; and the share's count goes up by one, the disk staying as it is.
pub as_stream-IsCounted :
    (url sub_path : Text) (cookies : Option Text) (c : Cloud) {c' : Cloud} {path : List Text}
    {content : Text}
    → HasRoots c
    → as_stream url sub_path cookies c ≡ ok (c', path, content)
    → (t : TempUrl) × IsCounted url cookies c c' t path
      × (c.entry path ≡ some (file content))
      × (c'.entry ≡ c.entry)
unfolding as_stream count_request save_row
as_stream-IsCounted url sub_path cookies c {c'} {path} {content} roots h =
    let (g, opened, done) = bind_passed (open_stream url sub_path cookies c) _ h in
    let (counted, here) = open_stream-eq-ok url sub_path cookies c roots opened in
    let same : (count_request g.0 c, g.1, g.2) ≡ (c', path, content) = ok_eq done in
    let (used, read, still) =
      subst
        (λ q.
          IsCounted url cookies c q.0 g.0 q.1
          × (c.entry q.1 ≡ some (file q.2))
          × (q.0.entry ≡ c.entry))
        same (counted, here, refl) in
    (g.0, used, read, still)
