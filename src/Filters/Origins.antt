-- ===== src/Filters/Origins.antt =====
-- allowed-origins.ts: the list of trusted origins, its regular expressions as tests on texts.
pub mod Sites
use shado_cloud.Common.{
  ◌==◌, if◌then◌else◌, any, Text, codes, text_eq, strip_prefix, is_digit, ℕ, Bool, true, false, not,
  ◌&&◌, ◌||◌, Option, none, some, List, [], ◌∷◌,
}

unfoldable pub any_suffix : (Text → Bool) → Text → Bool
any_suffix p [] = p []
any_suffix p (c ∷ s) = p (c ∷ s) || any_suffix p s

-- `/…$/`
unfoldable pub ends_with : Text → Text → Bool
unfolding any_suffix
ends_with p s = any_suffix (λ t. text_eq t p) s

is_line_end : ℕ → Bool
is_line_end c = c == 10 || c == 13 || c == 8232 || c == 8233

-- What `.+` and then the rest of the expression match.
unfoldable pub some_then : Text → Text → Bool
unfolding is_line_end
some_then p [] = false
some_then p (c ∷ s) = not (is_line_end c) && (text_eq s p || some_then p s)

-- `https?:\/\/`
unfoldable pub optional_s : Text → Option Text → Option Text
optional_s r none = strip_prefix (codes "://") r
optional_s r (some more) = strip_prefix (codes "://") more

unfoldable pub after_http : Option Text → Option Text
unfolding optional_s
after_http none = none
after_http (some r) = optional_s r (strip_prefix (codes "s") r)

unfoldable pub site : Option Text → Bool
unfolding some_then
site none = false
site (some r) = text_eq r (codes "shadijiha.com") || some_then (codes ".shadijiha.com") r

-- `/https?:\/\/(.+\.)?shadijiha\.com$/`
unfoldable pub is_site : Text → Bool
unfolding any_suffix after_http site
is_site s = any_suffix (λ t. site (after_http (strip_prefix (codes "http") t))) s

skip_digits : Text → Text
skip_digits [] = []
skip_digits (c ∷ s) = if is_digit c then skip_digits s else c ∷ s

-- `\d+` and then a text that is tested.
digits_then : (Text → Bool) → Text → Bool
unfolding skip_digits
digits_then p [] = false
digits_then p (c ∷ s) = is_digit c && p (skip_digits s)

is_end : Text → Bool
is_end [] = true
is_end (c ∷ s) = false

unfoldable pub literal_then : Text → (Text → Bool) → Text → Bool
literal_then p test s = elim (strip_prefix p s) [ none ↦ false | some r ↦ test r ]

-- `/^http:\/\/192\.168\.\d+\.\d+:\d+$/`
unfoldable pub is_local_network : Text → Bool
unfolding literal_then digits_then is_end
is_local_network = literal_then (codes "http://192.168.") (
    digits_then
      (literal_then (codes ".") (digits_then (literal_then (codes ":") (digits_then is_end)))))

unfoldable pub is_localhost : Text → Bool
unfolding literal_then digits_then is_end
is_localhost = literal_then (codes "http://localhost:") (digits_then is_end)

unfoldable pub is_capacitor : Text → Bool
unfolding literal_then
is_capacitor = literal_then (codes "capacitor://") (λ r. true)

-- `isOriginAllowed` with the list of `buildAllowedOrigins`, for the configured front ends.
unfoldable pub is_origin_allowed : List Text → Text → Bool
unfolding ends_with is_site is_local_network is_localhost is_capacitor
is_origin_allowed configured origin =
    any (λ entry. text_eq entry origin) configured
    || ends_with (codes ".shadijiha.com") origin
    || text_eq (codes "http://shadijiha.com") origin
    || text_eq (codes "https://shadijiha.com") origin
    || is_site origin
    || is_local_network origin
    || is_localhost origin
    || is_capacitor origin

abbrev pub has_slash : Text → Bool
has_slash s = any (λ c. c == b'/') s

-- A host of the site.
unfoldable pub is_host : Text → Bool
unfolding ends_with
is_host host = text_eq host (codes "shadijiha.com") || ends_with (codes ".shadijiha.com") host
