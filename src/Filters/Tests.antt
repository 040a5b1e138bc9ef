-- ===== src/Filters/Tests.antt =====
-- Requests from pages of other sites, and connections from outside.
use shado_cloud.Common.{
  Text, codes, trim, ◌≡◌, refl, true, false, ◌&&◌, Option, none, some, [], ◌∷◌,
}
use shado_cloud.Auth.{single}
use shado_cloud.Filters.{
  Request, is_safe_method, filled, resolve_origin, has_key, trusted_or_missing, csrf_use,
}
use shado_cloud.Filters.Origins.{ends_with, is_site, is_origin_allowed, is_host}
use shado_cloud.Filters.Csrf.{csrf_use-https}
use shado_cloud.Filters.Addresses.{
  normalize_ip, Connection, is_loopback, resolve_client_ip, Replication, is_listed, trusted_ip_use,
  get_tracker, trusted_ip_use_direct,
}

no_url : Text → Option Text
no_url s = none

abbrev from_evil : Request
from_evil = record {
  method = codes "post";
  service_key = none;
  origin = some (single (codes "https://evil.com"));
  referer = none;
}

csrf_use-https_example : csrf_use no_url [] (codes "key") from_evil ≡ is_host (codes "evil.com")
unfolding is_safe_method has_key
csrf_use-https_example =
    csrf_use-https no_url [] (codes "key") (codes "evil.com") from_evil refl refl refl refl refl

evil_refused : csrf_use no_url [] (codes "key") from_evil ≡ false
unfolding csrf_use is_safe_method has_key resolve_origin filled trusted_or_missing is_origin_allowed
    ends_with is_site
evil_refused = refl

-- A Referer that is no URL counts as none.
bad_referer :
    csrf_use no_url []
      (codes "key")
      (record from_evil { origin = none; referer = some (single (codes "x")) })
    ≡ true
unfolding csrf_use is_safe_method has_key resolve_origin filled trusted_or_missing no_url
bad_referer = refl

-- The expression for the site has no anchor at its start.
unanchored : is_origin_allowed [] (codes "evil:http://shadijiha.com") ≡ true
unfolding is_origin_allowed ends_with is_site
unanchored = refl

abbrev outside : Connection
outside = record {
  remote_address = some (codes "::ffff:203.0.113.9");
  ip = some (codes "::ffff:203.0.113.9");
  cf_connecting_ip = some (single (codes "10.0.0.1"));
}

abbrev one_listed : Replication
one_listed = record { is_disabled = false; allowed_ips = codes "10.0.0.1" ∷ [] }

trusted_ip_use_direct_example :
    trusted_ip_use (some one_listed) outside
    ≡ (true && is_listed (codes "10.0.0.1" ∷ []) (normalize_ip (some (codes "::ffff:203.0.113.9"))))
unfolding normalize_ip trim is_loopback
trusted_ip_use_direct_example = trusted_ip_use_direct one_listed outside refl refl

spoof_refused : trusted_ip_use (some one_listed) outside ≡ false
unfolding trusted_ip_use resolve_client_ip is_loopback normalize_ip trim is_listed
spoof_refused = refl

-- The throttler takes the header from any connection.
tracker_spoofed : get_tracker outside ≡ some (codes "10.0.0.1")
unfolding get_tracker trim
tracker_spoofed = refl
