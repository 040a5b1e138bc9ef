-- ===== src/Filters/Csrf.antt =====
-- What the origin check of csrf.middleware.ts comes to for a page on the web.
use shado_cloud.Common.{any, Text, codes, text_eq, ◌≡◌, false, Option, some, List, ◌++◌}
use shado_cloud.Auth.{single}
use shado_cloud.Filters.{
  Request, is_safe_method, filled, resolve_origin, has_key, trusted_or_missing, csrf_use,
}
use shado_cloud.Filters.Origins.{has_slash, is_host}
use shado_cloud.Filters.Origins.Sites.{is_origin_allowed-is_host}

-- A request that may change state, does not carry the service key, and comes from an https origin,
-- with no path, that is none of the configured front ends, goes on exactly when the origin is the
-- site or one of its subdomains, whatever its Referer.
pub csrf_use-https :
    (url_origin : Text → Option Text) (configured : List Text) (key host : Text) (r : Request)
    → is_safe_method r.method ≡ false
    → has_key key r.service_key ≡ false
    → r.origin ≡ some (single (codes "https://" ++ host))
    → has_slash host ≡ false
    → any (λ entry. text_eq entry (codes "https://" ++ host)) configured ≡ false
    → csrf_use url_origin configured key r ≡ is_host host
unfolding csrf_use resolve_origin filled trusted_or_missing
csrf_use-https url_origin configured key host r unsafe no_key from plain other =
    rw (csrf_use, unsafe, no_key, resolve_origin, from)
      (is_origin_allowed-is_host configured host plain other)
