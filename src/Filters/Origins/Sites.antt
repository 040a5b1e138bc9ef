-- ===== src/Filters/Origins/Sites.antt =====
-- Which https origins the list trusts.
use shado_cloud.Common.{
  Option-cases, any, Text, codes, text_eq, strip_prefix, strip_prefix-eq-some, ◌≡◌, refl, ap, ◌∙◌,
  inl, inr, Bool, true, false, ◌||◌, none, some, List, [], ◌∷◌, ◌++◌, arith,
}
use shado_cloud.Filters.Origins.{
  any_suffix, ends_with, some_then, optional_s, after_http, site, is_site, literal_then,
  is_local_network, is_localhost, is_capacitor, is_origin_allowed, has_slash, is_host,
}

text_eq-slash : (s t p : Text) → text_eq (s ++ b'/' ∷ t) p ≡ true → has_slash p ≡ true
text_eq-slash [] t [] h = cc
text_eq-slash [] t (c ∷ p) h = ground (arith, h)
text_eq-slash (x ∷ s) t [] h = cc
text_eq-slash (x ∷ s) t (c ∷ p) h = ground (arith, h, text_eq-slash s t p)

ends_with-slash : (p s t : Text) → has_slash p ≡ false → ends_with p (s ++ b'/' ∷ t) ≡ ends_with p t
unfolding ends_with any_suffix
ends_with-slash p [] t plain = ground (arith, text_eq-slash [] t p)
ends_with-slash p (x ∷ s) t plain =
    ground (arith, text_eq-slash (x ∷ s) t p, ends_with-slash p s t plain)

text_eq_sym : (s t : Text) → text_eq s t ≡ text_eq t s
text_eq_sym [] [] = refl
text_eq_sym [] (y ∷ t) = refl
text_eq_sym (x ∷ s) [] = refl
text_eq_sym (x ∷ s) (y ∷ t) = ground (arith, text_eq_sym s t)

any_suffix-here : (p : Text → Bool) (s : Text) → p s ≡ true → any_suffix p s ≡ true
unfolding any_suffix
any_suffix-here p [] h = h
any_suffix-here p (c ∷ s) h = ground (arith, h)

some_then-ends_with : (p s : Text) → some_then p s ≡ true → ends_with p s ≡ true
unfolding some_then ends_with any_suffix
some_then-ends_with p [] h = cc
some_then-ends_with p (c ∷ s) h =
    ground (arith, h, any_suffix-here (λ t. text_eq t p) s, some_then-ends_with p s)

-- Nothing without a slash has a scheme.
has_slash-append : (p r : Text) → has_slash p ≡ true → has_slash (p ++ r) ≡ true
has_slash-append [] r h = cc
has_slash-append (c ∷ p) r h = ground (arith, h, has_slash-append p r)

no_scheme : (t : Text) → has_slash t ≡ false → strip_prefix (codes "://") t ≡ none
no_scheme t h = elim (Option-cases (strip_prefix (codes "://") t)) [
  | inl e ↦ e
  | inr (r, e) ↦
      let same = strip_prefix-eq-some (codes "://") t r e in
      cc (ap has_slash same, has_slash-append (codes "://") r refl)
]

has_slash-rest :
    (p t r : Text) → has_slash t ≡ false → strip_prefix p t ≡ some r → has_slash r ≡ false
has_slash-rest [] t r h e = cc
has_slash-rest (c ∷ p) [] r h e = cc
has_slash-rest (c ∷ p) (x ∷ t) r h e = ground (arith, h, e, has_slash-rest p t r)

no_site :
    (t : Text) → has_slash t ≡ false → site (after_http (strip_prefix (codes "http") t)) ≡ false
unfolding site after_http optional_s
no_site t h = elim (Option-cases (strip_prefix (codes "http") t)) [
  | inl e ↦ rw e refl
  | inr (r, e) ↦
      let plain = has_slash-rest (codes "http") t r h e in
      elim (Option-cases (strip_prefix (codes "s") r)) [
        | inl f ↦ rw (e, f, no_scheme r plain) refl
        | inr (more, f) ↦ rw (e, f, no_scheme more (has_slash-rest (codes "s") r more plain f)) refl
      ]
]

no_site_inside :
    (t : Text)
    → has_slash t ≡ false
    → any_suffix (λ t. site (after_http (strip_prefix (codes "http") t))) t ≡ false
unfolding any_suffix
no_site_inside [] h = no_site [] refl
no_site_inside (c ∷ t) h = rw (no_site (c ∷ t) h) (no_site_inside t (ground (arith, h)))

-- What is left of the expressions for an https origin.
is_site-https :
    (host : Text) → has_slash host ≡ false → is_site (codes "https://" ++ host) ≡ site (some host)
unfolding is_site any_suffix after_http optional_s site
is_site-https host plain = rw (no_site_inside host plain) (ground arith)

no_local_network : (host : Text) → is_local_network (codes "https://" ++ host) ≡ false
unfolding is_local_network literal_then
no_local_network host = refl

no_localhost : (host : Text) → is_localhost (codes "https://" ++ host) ≡ false
unfolding is_localhost literal_then
no_localhost host = refl

no_capacitor : (host : Text) → is_capacitor (codes "https://" ++ host) ≡ false
unfolding is_capacitor literal_then
no_capacitor host = refl

either_test : (e q r m : Bool) → q ≡ r → (m ≡ true → e ≡ true) → (e || q || (r || m)) ≡ (r || e)
either_test e q r m same more = ground arith

without_false : (e q m : Bool) → (e || false || q || m || false || false || false) ≡ (e || q || m)
without_false e q m = ground arith

same_host :
    (host : Text)
    → (ends_with (codes ".shadijiha.com") host
        || text_eq (codes "shadijiha.com") host
        || site (some host))
      ≡ is_host host
unfolding is_host site
same_host host =
    either_test (ends_with (codes ".shadijiha.com") host) (text_eq (codes "shadijiha.com") host)
      (text_eq host (codes "shadijiha.com")) (some_then (codes ".shadijiha.com") host)
      (text_eq_sym (codes "shadijiha.com") host) (some_then-ends_with (codes ".shadijiha.com") host)

-- An https origin with no path that is none of the configured front ends is trusted exactly when it
-- is the site or one of its subdomains.
pub is_origin_allowed-is_host :
    (configured : List Text) (host : Text)
    → has_slash host ≡ false
    → any (λ entry. text_eq entry (codes "https://" ++ host)) configured ≡ false
    → is_origin_allowed configured (codes "https://" ++ host) ≡ is_host host
unfolding is_origin_allowed
is_origin_allowed-is_host configured host plain other =
    rw
      (
        other,
        ends_with-slash (codes ".shadijiha.com") (codes "https:/") host refl,
        is_site-https host plain,
        no_local_network host,
        no_localhost host,
        no_capacitor host,
      )
      (without_false (ends_with (codes ".shadijiha.com") host)
          (text_eq (codes "shadijiha.com") host) (site (some host))
        ∙ same_host host)
