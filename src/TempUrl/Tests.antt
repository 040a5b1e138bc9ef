-- ===== src/TempUrl/Tests.antt =====
-- A user's folder that is shared, and what the theorems say of requests for it.
use shado_cloud.Common.{
  if◌then◌else◌, err, ok, Text, codes, path_eq, ◌≡◌, refl, ◌≢◌, ◌↔◌, true, false, Option, none,
  some, List, [], ◌∷◌, ◌++◌,
}
use shado_cloud.Paths.{absolute_path}
use shado_cloud.TempUrl.{
  public, authenticated, restricted, TempUrl, Entry, directory, file, Cloud, invalid_path,
  find_or_throw, resolve_target, open_stream, count_request, as_stream, write_file,
}
use shado_cloud.TempUrl.Confined.{IsConfined, resolve_target-IsConfined}
use shado_cloud.TempUrl.Requests.{HasRoots, IsCounted, as_stream-IsCounted}
use shado_cloud.TempUrl.Overlaps.{traffic, Steps, overlapping_requests}
use shado_cloud.TempUrl.Manage.{Wish, generate, delete, generate-eq-ok, IsDeleted, delete-IsDeleted}

abbrev home : List Text
home = codes "srv" ∷ codes "a@b.c" ∷ []

abbrev blob : List Text
blob = codes "mnt" ∷ codes "cold" ∷ codes "1" ∷ []

abbrev entries : List Text → Option Entry
entries p =
    if path_eq p (absolute_path home (codes "pics"))
    then some directory
    else if path_eq p (absolute_path home (codes "pics/cat.png"))
    then some (file (codes "meow"))
    else if path_eq p blob
    then some (file (codes "meow"))
    else none

-- The picture has been demoted.
abbrev leads_to : List Text → List Text
leads_to p = if path_eq p (absolute_path home (codes "pics/cat.png")) then blob else p

abbrev pictures : TempUrl
pictures = record {
  id = 1;
  user = 7;
  url = codes "tok";
  filepath = codes "pics";
  requests = 1;
  max_requests = 2;
  is_readonly = true;
  is_dir = true;
  access_level = some authenticated;
  expires_at = 100;
}

abbrev note : TempUrl
note = record {
  id = 2;
  user = 7;
  url = codes "one";
  filepath = codes "pics/cat.png";
  requests = 0;
  max_requests = 5;
  is_readonly = false;
  is_dir = false;
  access_level = none;
  expires_at = 100;
}

abbrev cloud : Cloud
cloud = record {
  urls = pictures ∷ note ∷ [];
  entry = entries;
  real_path = leads_to;
  root_of = λ u. home;
  session_is_valid = λ s. true;
  now = 50;
}

cloud-HasRoots : HasRoots cloud
cloud-HasRoots = record { plain = λ u. refl; anchored = λ u. refl }

resolve_target-IsConfined_example :
    IsConfined home pictures (codes "srv" ∷ codes "a@b.c" ∷ codes "pics" ∷ codes "cat.png" ∷ [])
unfolding resolve_target
resolve_target-IsConfined_example =
    resolve_target-IsConfined home pictures (codes "x/../cat.png") refl refl refl

climbing : resolve_target home pictures (codes "../../x@y.z/cat.png") ≡ err invalid_path
unfolding resolve_target
climbing = refl

abbrev cat : List Text
cat = codes "srv" ∷ codes "a@b.c" ∷ codes "pics" ∷ codes "cat.png" ∷ []

as_stream-IsCounted_example :
    (t : TempUrl) × IsCounted
      (codes "tok")
      (some (codes "sid"))
      cloud
      (count_request pictures cloud)
      t
      cat
    × (entries cat ≡ some (file (codes "meow")))
    × ((count_request pictures cloud).entry ≡ entries)
unfolding as_stream path_eq absolute_path
as_stream-IsCounted_example =
    as_stream-IsCounted (codes "tok") (codes "cat.png") (some (codes "sid")) cloud cloud-HasRoots
      refl

overlapping_requests_example :
    (c' : Cloud) × Steps (traffic cloud [] 0) (traffic c' [] 3)
    × (find_or_throw (codes "tok") c' ≡ ok (record pictures { requests = 2 }))
unfolding open_stream path_eq absolute_path
overlapping_requests_example =
    overlapping_requests 2 (codes "tok") (codes "cat.png") (some (codes "sid")) cloud pictures cat
      (codes "meow") refl refl

abbrev wish : Wish
wish = record {
  filepath = codes "pics";
  max_requests = 3;
  expires_at = 90;
  is_readonly = false;
  access_level = none;
}

abbrev shared : TempUrl
shared = record pictures {
  id = 3;
  url = codes "new";
  requests = 0;
  max_requests = 3;
  access_level = some public;
  expires_at = 90;
}

generate-eq-ok_example :
    ((record cloud { urls = cloud.urls ++ shared ∷ [] }).urls ≡ cloud.urls ++ shared ∷ [])
    × (shared.requests ≡ 0)
    × (shared.user ≡ 7)
    × ((rest : List Text) × (absolute_path (cloud.root_of 7) shared.filepath
          ≡ cloud.root_of 7 ++ rest))
    × ((e : Entry) × (cloud.entry (absolute_path (cloud.root_of 7) shared.filepath) ≡ some e)
        × ((shared.is_dir ≡ true) ↔ (e ≡ directory)))
    × (shared.is_dir ≡ true → shared.is_readonly ≡ true)
    × (shared.access_level ≢ some restricted)
unfolding generate path_eq absolute_path
generate-eq-ok_example = generate-eq-ok 3 7 (codes "new") wish cloud refl refl

delete-IsDeleted_example :
    (t : TempUrl) × (find_or_throw (codes "tok") cloud ≡ ok t)
    × (t.user ≡ 7)
    × IsDeleted t cloud (record cloud { urls = note ∷ [] })
unfolding delete
delete-IsDeleted_example = delete-IsDeleted 7 (codes "tok") cloud refl

-- The write goes to the blob.
blob_written : (write_file cat (codes "meow!") cloud).entry blob ≡ some (file (codes "meow!"))
unfolding write_file path_eq absolute_path
blob_written = refl
