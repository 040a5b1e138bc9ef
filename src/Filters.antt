-- ===== src/Filters.antt =====
-- The checks of a request before it reaches a controller: allowed-origins.ts, csrf.middleware.ts,
-- replication/client-ip.util.ts, replication/trusted-ip.middleware.ts and the tracker of the
-- throttler. The parser of URLs, the feature flag and the addresses of the socket come from outside.
pub mod Origins
pub mod Addresses
pub mod Csrf
mod Tests
use shado_cloud.Common.{
  leb, if◌then◌else◌, Text, codes, text_eq, ℕ, ◌-◌, Bool, true, false, ◌&&◌, ◌||◌, Option, none,
  some, List, [], ◌∷◌, map,
}
use shado_cloud.Auth.{HeaderValue, single}
use shado_cloud.Filters.Origins.{is_origin_allowed}

pub record Request : Type 0 where
  pub method : Text
  pub service_key : Option HeaderValue
  pub origin : Option HeaderValue
  pub referer : Option HeaderValue

upper : ℕ → ℕ
upper c = if leb 97 c && leb c 122 then c - 32 else c

unfoldable pub is_safe_method : Text → Bool
unfolding upper
is_safe_method method =
    let m = map upper method in
    text_eq m (codes "GET") || text_eq m (codes "HEAD") || text_eq m (codes "OPTIONS")

-- A header that is a text and not empty.
unfoldable pub filled : Option HeaderValue → Option Text
filled (some (single (c ∷ s))) = some (c ∷ s)
filled _ = none

-- `url_origin` is `new URL(referer).origin`, with `none` where the constructor throws.
unfoldable pub resolve_origin : (Text → Option Text) → Request → Option Text
unfolding filled
resolve_origin url_origin r = elim (filled r.origin) [
  | some origin ↦ some origin
  | none ↦ elim (filled r.referer) [ none ↦ none | some referer ↦ url_origin referer ]
]

-- The service key of the configuration, where there is one.
unfoldable pub has_key : Text → Option HeaderValue → Bool
has_key [] header = false
has_key (c ∷ key) (some (single s)) = text_eq s (c ∷ key)
has_key (c ∷ key) _ = false

unfoldable pub trusted_or_missing : List Text → Option Text → Bool
unfolding is_origin_allowed
trusted_or_missing configured none = true
trusted_or_missing configured (some []) = true
trusted_or_missing configured (some (c ∷ s)) = is_origin_allowed configured (c ∷ s)

-- `CsrfMiddleware.use`: whether the request goes on, or is answered with 403.
unfoldable pub csrf_use :
    (Text → Option Text) → (configured : List Text) → (key : Text) → Request → Bool
unfolding is_safe_method has_key resolve_origin trusted_or_missing
csrf_use url_origin configured key r =
    if is_safe_method r.method
    then true
    else if has_key key r.service_key
    then true
    else trusted_or_missing configured (resolve_origin url_origin r)
