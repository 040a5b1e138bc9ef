-- ===== src/TempUrl.antt =====
-- temp-url/tempUrl.service.ts and models/tempUrl.ts: shares by an unguessable link. `random_url` of
-- `generate`, the session check of the auth service and the clock come from outside; the state is the
-- table of shares and the disk. Counts and times are natural numbers.
pub mod Confined
pub mod Requests
pub mod Manage
mod Tests
pub mod Overlaps
use shado_cloud.Common.{
  ltb, ◌==◌, if◌then◌else◌, find?, any, Result, err, ok, ◌>>=◌, require, Text, text_eq, path_eq, ℕ,
  ◌+◌, Bool, true, false, not, ◌&&◌, ◌||◌, Option, none, some, List, [], ◌∷◌, ◌++◌,
}
use shado_cloud.Paths.{absolute_path, resolve_path, relative_path, is_owner}

pub data AccessLevel : Type 0 where
  public authenticated restricted : AccessLevel

pub record TempUrl : Type 0 where
  pub id : ℕ
  pub user : ℕ
  pub url : Text
  pub filepath : Text
  pub requests : ℕ
  pub max_requests : ℕ
  pub is_readonly : Bool
  pub is_dir : Bool
  -- An old row may have none.
  pub access_level : Option AccessLevel
  pub expires_at : ℕ

pub data Entry : Type 0 where
  directory : Entry
  file : Text → Entry

pub record Cloud : Type 0 where
  pub urls : List TempUrl
  -- What is found at a path, through links.
  pub entry : List Text → Option Entry
  -- Where the links of a path lead, as `fs.realpathSync` tells: the path itself where none is a link.
  -- A file that tiered storage has demoted is a link to a cold drive.
  pub real_path : List Text → List Text
  -- `getUserRootPath`
  pub root_of : ℕ → List Text
  -- `AuthService.validateCookies` finds a user
  pub session_is_valid : Text → Bool
  pub now : ℕ

-- The exceptions, by their messages.
pub data Refusal : Type 0 where
  invalid_url login_required exhausted invalid_path single_file outside_storage : Refusal
  gone is_a_directory directory_share not_permitted nothing_to_share : Refusal
  restricted_unsupported not_yours type_error : Refusal

pub has_url : Text → TempUrl → Bool
has_url url t = text_eq t.url url

unfoldable pub find_or_throw : Text → Cloud → Result Refusal TempUrl
unfolding has_url
find_or_throw url c = elim (find? (has_url url) c.urls) [ none ↦ err invalid_url | some t ↦ ok t ]

-- `tempUrlRepo.save(t)`: the rows with its id are updated, and it is inserted where there is none.
replace_row : TempUrl → List TempUrl → List TempUrl
replace_row t [] = []
replace_row t (r ∷ rs) = (if r.id == t.id then t else r) ∷ replace_row t rs

has_row : ℕ → List TempUrl → Bool
has_row id rs = any (λ r. r.id == id) rs

unfoldable pub save_row : TempUrl → Cloud → Cloud
unfolding replace_row has_row
save_row t c = record c {
  urls = if has_row t.id c.urls then replace_row t c.urls else c.urls ++ t ∷ [];
}

-- Whether the level asks for a session.
needs_session : Option AccessLevel → Bool
needs_session none = false
needs_session (some public) = false
needs_session (some level) = true

has_session : Option Text → Cloud → Bool
has_session none c = false
has_session (some []) c = false
has_session (some (x ∷ cookies)) c = c.session_is_valid (x ∷ cookies)

unfoldable pub is_authorized : TempUrl → Option Text → Cloud → Bool
unfolding needs_session has_session
is_authorized t cookies c = not (needs_session t.access_level) || has_session cookies c

unfoldable pub verify_url_conditions : TempUrl → (read_and_write : Bool) → (now : ℕ) → Bool
verify_url_conditions t read_and_write now =
    ltb t.requests t.max_requests
    && (not read_and_write || not t.is_readonly)
    && ltb now t.expires_at

-- `s.startsWith("..") || path.isAbsolute(s)`
unfoldable pub leads_out : Text → Bool
leads_out (c ∷ d ∷ s) = c == b'.' && d == b'.' || c == b'/'
leads_out (c ∷ []) = c == b'/'
leads_out [] = false

-- The path relative to the user's root.
unfoldable pub relative_target : List Text → TempUrl → Text → Result Refusal Text
unfolding leads_out absolute_path resolve_path relative_path
relative_target root t sub_path =
    let base = absolute_path root t.filepath in
    let target = resolve_path base sub_path in
    if t.is_dir
    then require (not (leads_out (relative_path base target))) invalid_path
        (ok (relative_path root target))
    else require (text_eq sub_path []) single_file (ok t.filepath)

unfoldable pub resolve_target : List Text → TempUrl → Text → Result Refusal (List Text × Text)
unfolding relative_target absolute_path is_owner
resolve_target root t sub_path = relative_target root t sub_path >>= λ rel.
    require (is_owner root (absolute_path root rel)) outside_storage
      (ok (absolute_path root rel, rel))

-- The text of a file; a directory and a missing entry are refused.
unfoldable pub read_entry : Option Entry → Result Refusal Text
read_entry none = err gone
read_entry (some directory) = err is_a_directory
read_entry (some (file content)) = ok content

-- The share and the path that a request may use, all its checks passed.
abbrev pub Grant : Type 0
Grant = TempUrl × List Text × Text

-- Lines 100 to 117: what `asStream` does before it counts the request.
unfoldable pub open_stream : Text → Text → Option Text → Cloud → Result Refusal Grant
unfolding find_or_throw is_authorized verify_url_conditions resolve_target read_entry
open_stream url sub_path cookies c = find_or_throw url c >>= λ t.
    require (is_authorized t cookies c) login_required (
      require (verify_url_conditions t false c.now) exhausted (
        resolve_target (c.root_of t.user) t sub_path >>= λ target.
        read_entry (c.entry target.0) >>= λ content. ok (t, target.0, content)))

-- Lines 119 to 120, on the row that the request has read.
unfoldable pub count_request : TempUrl → Cloud → Cloud
unfolding save_row
count_request t c = save_row (record t { requests = t.requests + 1 }) c

-- `asStream`: the file's path and content.
unfoldable pub as_stream :
    Text → Text → Option Text → Cloud → Result Refusal (Cloud × List Text × Text)
unfolding open_stream count_request
as_stream url sub_path cookies c = open_stream url sub_path cookies c >>= λ (t, path, content).
    ok (count_request t c, path, content)

-- The file that the path leads to is written, and so seen under every path that leads there.
unfoldable pub write_file : List Text → Text → Cloud → Cloud
unfolding path_eq
write_file path content c = record c {
  entry =
      λ p. if path_eq (c.real_path p) (c.real_path path) then some (file content) else c.entry p;
}

-- `save`: lines 130 to 159.
unfoldable pub save : Text → Text → Bool → Text → Option Text → Cloud → Result Refusal Cloud
unfolding find_or_throw is_authorized verify_url_conditions resolve_target read_entry count_request
    write_file
save url content append sub_path cookies c = find_or_throw url c >>= λ t.
    require (is_authorized t cookies c) login_required (
      require (not t.is_dir) directory_share (
        require (verify_url_conditions t true c.now) exhausted (
          resolve_target (c.root_of t.user) t sub_path >>= λ target.
          read_entry (c.entry target.0) >>= λ old.
          ok (
            write_file target.0 (if append then old ++ content else content) (count_request t c)))))
