-- ===== src/Filters/Addresses.antt =====
-- The address of a client: replication/client-ip.util.ts, replication/trusted-ip.middleware.ts, and
-- `getTracker` of real-ip-throttler.guard.ts.
use shado_cloud.Common.{
  ◌==◌, if◌then◌else◌, any, Text, codes, text_eq, strip_prefix, trim, ◌≡◌, refl, ap, ◌∙◌, Bool,
  true, false, not, ◌&&◌, ◌||◌, Option, none, some, List, [], ◌∷◌,
}
use shado_cloud.Auth.{HeaderValue, single, several}

-- `s.replace(p, "")`: the first occurrence.
remove_first : Text → Text → Text
remove_first p [] = []
remove_first p (c ∷ s) =
    let later = remove_first p s in
    elim (strip_prefix p (c ∷ s)) [ none ↦ c ∷ later | some rest ↦ rest ]

-- `ip ?? ""`
given : Option Text → Text
given none = []
given (some ip) = ip

unfoldable pub normalize_ip : Option Text → Text
unfolding remove_first trim given
normalize_ip ip = trim (remove_first (codes "::ffff:") (given ip))

pub record Connection : Type 0 where
  -- `req.socket.remoteAddress`, `req.ip` and the header cf-connecting-ip
  pub remote_address : Option Text
  pub ip : Option Text
  pub cf_connecting_ip : Option HeaderValue

unfoldable pub is_loopback : Text → Bool
is_loopback ip = text_eq ip (codes "127.0.0.1") || text_eq ip (codes "::1")

-- The header, where it is a text with more than white space.
cf_text : Option HeaderValue → Option Text
unfolding trim
cf_text (some (single s)) = elim (trim s) [ [] ↦ none | c ∷ t ↦ some s ]
cf_text _ = none

-- `req.ip || req.socket.remoteAddress`
or_socket : Option Text → Option Text → Option Text
or_socket none socket = socket
or_socket (some []) socket = socket
or_socket (some (c ∷ t)) socket = some (c ∷ t)

unfoldable pub resolve_client_ip : Connection → Text
unfolding is_loopback cf_text or_socket normalize_ip
resolve_client_ip r =
    let direct = normalize_ip (or_socket r.ip r.remote_address) in
    if is_loopback (normalize_ip r.remote_address)
    then elim (cf_text r.cf_connecting_ip) [ none ↦ direct | some cf ↦ normalize_ip (some cf) ]
    else direct

-- The feature-flag service, where there is one: whether the flag is off, and the listed addresses.
pub record Replication : Type 0 where
  pub is_disabled : Bool
  pub allowed_ips : List Text

unfoldable pub is_listed : List Text → Text → Bool
unfolding normalize_ip
is_listed allowed ip = any (λ a. text_eq (normalize_ip (some a)) ip) allowed

-- `TrustedIpMiddleware.use`: whether the request goes on, or is refused by an exception.
unfoldable pub trusted_ip_use : Option Replication → Connection → Bool
unfolding is_listed resolve_client_ip
trusted_ip_use none r = is_listed [] (resolve_client_ip r)
trusted_ip_use (some flag) r =
    if flag.is_disabled then false else is_listed flag.allowed_ips (resolve_client_ip r)

before_comma_of : Text → Text
before_comma_of [] = []
before_comma_of (c ∷ s) = let rest = before_comma_of s in if c == b',' then [] else c ∷ rest

unfoldable pub get_tracker : Connection → Option Text
unfolding before_comma_of trim
get_tracker r = elim r.cf_connecting_ip [
  | some header ↦ elim header [
    | single s ↦ elim s [ [] ↦ r.ip | c ∷ t ↦ some (trim (before_comma_of (c ∷ t))) ]
    | several ss ↦ r.ip
  ]
  | none ↦ r.ip
]

or_socket-same : (o : Option Text) → or_socket o o ≡ o
unfolding or_socket
or_socket-same none = refl
or_socket-same (some []) = refl
or_socket-same (some (c ∷ t)) = refl

resolve_client_ip-direct :
    (r : Connection)
    → is_loopback (normalize_ip r.remote_address) ≡ false
    → r.ip ≡ r.remote_address
    → resolve_client_ip r ≡ normalize_ip r.remote_address
unfolding resolve_client_ip
resolve_client_ip-direct r remote same =
    rw (resolve_client_ip, remote)
      (ap normalize_ip
        (ap (λ o. or_socket o r.remote_address) same ∙ or_socket-same r.remote_address))

guarded : (off listed : Bool) → (if off then false else listed) ≡ (not off && listed)
guarded true listed = refl
guarded false listed = refl

-- A request over a connection that is not from the host itself, where `req.ip` is the address of the
-- socket, is let in exactly when replication is not switched off and the address of the socket is
-- listed: its headers have no say.
pub trusted_ip_use_direct :
    (flag : Replication) (r : Connection)
    → is_loopback (normalize_ip r.remote_address) ≡ false
    → r.ip ≡ r.remote_address
    → trusted_ip_use (some flag) r
      ≡ (not flag.is_disabled && is_listed flag.allowed_ips (normalize_ip r.remote_address))
unfolding trusted_ip_use
trusted_ip_use_direct flag r remote same =
    guarded flag.is_disabled (is_listed flag.allowed_ips (resolve_client_ip r))
    ∙ ap (λ ip. not flag.is_disabled && is_listed flag.allowed_ips ip)
        (resolve_client_ip-direct r remote same)
