-- ===== src/Http/ByteRange/Exact.antt =====
-- What the byte ranges promise: bounds, the exact range for each form, the sizes of a response.
use shado_cloud.Common.{
  ◌==◌, Bool-cases, and-eq-true, length, take, drop, all, length-take, length-drop, ok, Text, codes,
  is_digit, parse_int, all-append, not_space, trim_plain, ℕ, ◌+◌, ◌-◌, ◌≤◌, ◌<◌, ◌≡◌, refl, sym, ap,
  ◌↔◌, ◌⊎◌, inl, inr, Bool, true, false, not, ◌||◌, Option, none, some, List, [], ◌∷◌, ◌++◌, arith,
}
use shado_cloud.Http.ByteRange.{
  Wanted, whole, unsatisfiable, range, before_comma, span_digits, match_bytes, resolve,
  resolve_match, parse_byte_range, StreamInfo, Response, read_stream, get_file, send_media,
}

resolve_bounds :
    (s e : Text) (total : ℕ) {i j : ℕ} → resolve s e total ≡ range i j → (i ≤ j) × (j < total)
unfolding resolve
resolve_bounds [] [] total h = ground arith
resolve_bounds [] (c ∷ e) total h = ground arith
resolve_bounds (d ∷ s) [] total h = ground arith
resolve_bounds (d ∷ s) (c ∷ e) total h = ground arith

resolve_match_bounds :
    (m : Option (Text × Text)) (total : ℕ) {i j : ℕ}
    → resolve_match m total ≡ range i j
    → (i ≤ j) × (j < total)
unfolding resolve_match
resolve_match_bounds none total h = cc
resolve_match_bounds (some (s, e)) total h = resolve_bounds s e total h

-- A range that is served lies inside the file, whatever the header: its first offset is at most its
-- last, and its last is below the file's size.
pub parse_byte_range_bounds :
    (header : Option Text) (total : ℕ) {i j : ℕ}
    → parse_byte_range header total ≡ range i j
    → (i ≤ j) × (j < total)
unfolding parse_byte_range
parse_byte_range_bounds none total h = cc
parse_byte_range_bounds (some []) total h = cc
parse_byte_range_bounds (some (c ∷ s)) total h = resolve_match_bounds _ total h

abbrev not_comma : ℕ → Bool
not_comma c = not (c == b',')

digits_plain :
    (p : ℕ → Bool)
    → ((c : ℕ) → is_digit c ≡ true → p c ≡ true)
    → (s : Text) → all is_digit s ≡ true
    → all p s ≡ true
digits_plain p h [] k = refl
digits_plain p h (c ∷ s) k =
    let (here, later) = and-eq-true (is_digit c) (all is_digit s) k in
    rw (h c here) (digits_plain p h s later)

digit-not_space : (c : ℕ) → is_digit c ≡ true → not_space c ≡ true
digit-not_space c h = ground arith

before_comma_plain : (s : Text) → all not_comma s ≡ true → before_comma s ≡ s
unfolding before_comma
before_comma_plain [] h = refl
before_comma_plain (c ∷ s) h = ground (arith, before_comma_plain s)

span_digits-append :
    (s e : Text) → all is_digit s ≡ true → span_digits (s ++ b'-' ∷ e) ≡ (s, b'-' ∷ e)
unfolding span_digits
span_digits-append [] e h = refl
span_digits-append (c ∷ s) e h =
    let (here, later) = and-eq-true (is_digit c) (all is_digit s) h in
    rw (span_digits-append s e later, here)

match_bytes_plain :
    (s e : Text)
    → all is_digit s ≡ true
    → all is_digit e ≡ true
    → match_bytes (codes "bytes=" ++ (s ++ b'-' ∷ e)) ≡ some (s, e)
unfolding match_bytes
match_bytes_plain s e h k = rw (span_digits-append s e h) (rw k)

digit-not_comma : (c : ℕ) → is_digit c ≡ true → not_comma c ≡ true
digit-not_comma c h = ground arith

-- `bytes=s-e`
abbrev pub byte_header : Text → Text → Text
byte_header s e = codes "bytes=" ++ (s ++ b'-' ∷ e)

byte_header_plain :
    (p : ℕ → Bool) (s e : Text)
    → all p (codes "bytes=-") ≡ true
    → all p s ≡ true
    → all p e ≡ true
    → all p (byte_header s e) ≡ true
byte_header_plain p s e fixed h k =
    all-append p (codes "bytes=") (s ++ b'-' ∷ e) (ground arith)
      (all-append p s (b'-' ∷ e) h (ground arith))

parse_byte_range_form :
    (s e : Text) (total : ℕ)
    → all is_digit s ≡ true
    → all is_digit e ≡ true
    → parse_byte_range (some (byte_header s e)) total ≡ resolve s e total
unfolding parse_byte_range
parse_byte_range_form s e total h k =
    let spaceless =
      byte_header_plain not_space s e refl (digits_plain not_space digit-not_space s h)
        (digits_plain not_space digit-not_space e k) in
    let single =
      byte_header_plain not_comma s e refl (digits_plain not_comma digit-not_comma s h)
        (digits_plain not_comma digit-not_comma e k) in
    rw (trim_plain (byte_header s e) spaceless) (
      rw (before_comma_plain (byte_header s e) single)
        (rw (trim_plain (byte_header s e) spaceless) (rw (match_bytes_plain s e h k))))

-- Byte k of the file is sent as part of a range.
abbrev pub Serves : Wanted → ℕ → Type 0
Serves (range i j) k = (i ≤ k) × (k ≤ j)
Serves unsatisfiable k = ⊥
Serves whole k = ⊥

resolve_from :
    (c : ℕ) (s e : Text) (total k : ℕ)
    → Serves (resolve (c ∷ s) e total) k
      ↔ ((parse_int (c ∷ s) ≤ k) × (k < total) × ((e ≡ []) ⊎ (k ≤ parse_int e)))
unfolding resolve
resolve_from c s [] total k = ground arith
resolve_from c s (d ∷ e) total k = ground arith

resolve_suffix :
    (c : ℕ) (e : Text) (total k : ℕ)
    → Serves (resolve [] (c ∷ e) total) k ↔ ((total ≤ k + parse_int (c ∷ e)) × (k < total))
unfolding resolve
resolve_suffix c e total k = ground arith

-- For a header `bytes=a-` or `bytes=a-b`, the bytes sent as a range are exactly those of the file at
-- offsets from a on and, where b is given, not above b.
pub parse_byte_range_from :
    (c : ℕ) (s e : Text) (total k : ℕ)
    → all is_digit (c ∷ s) ≡ true
    → all is_digit e ≡ true
    → Serves (parse_byte_range (some (byte_header (c ∷ s) e)) total) k
      ↔ ((parse_int (c ∷ s) ≤ k) × (k < total) × ((e ≡ []) ⊎ (k ≤ parse_int e)))
parse_byte_range_from c s e total k hs he =
    rw (parse_byte_range_form (c ∷ s) e total hs he) (resolve_from c s e total k)

-- For a header `bytes=-n`, the bytes sent as a range are exactly the last n bytes of the file.
pub parse_byte_range_suffix :
    (c : ℕ) (e : Text) (total k : ℕ)
    → all is_digit (c ∷ e) ≡ true
    → Serves (parse_byte_range (some (byte_header [] (c ∷ e))) total) k
      ↔ ((total ≤ k + parse_int (c ∷ e)) × (k < total))
parse_byte_range_suffix c e total k he =
    rw (parse_byte_range_form [] (c ∷ e) total refl he) (resolve_suffix c e total k)

length-read_stream :
    (bytes : List ℕ) (i j : ℕ)
    → i ≤ j
    → j < length bytes
    → length (read_stream bytes (some (i, j))) ≡ j - i + 1
unfolding read_stream
length-read_stream bytes i j h k =
    omega (arith, length-take (j + 1 - i) (drop i bytes), length-drop i bytes)

-- The parts of a response that `getFile` may send for a file of these bytes.
abbrev IsWhole : List ℕ → Response → Type 0
IsWhole bytes r =
    (r.status ≡ 200)
    × (r.content_range ≡ none)
    × (r.content_length ≡ some (length r.body))
    × (r.body ≡ bytes)

abbrev IsPart : List ℕ → (i j : ℕ) → Response → Type 0
IsPart bytes i j r =
    (r.status ≡ 206)
    × (r.content_range ≡ some (some (i, j), length bytes))
    × (r.content_length ≡ some (length r.body))
    × (r.body ≡ take (j + 1 - i) (drop i bytes))

abbrev IsRefused : List ℕ → Response → Type 0
IsRefused bytes r = (r.status ≡ 416) × (r.content_range ≡ some (none, length bytes)) × (r.body ≡ [])

-- The answer to what is wanted of a media file.
abbrev Answers : List ℕ → Wanted → Response → Type 0
Answers bytes whole r = IsWhole bytes r
Answers bytes unsatisfiable r = IsRefused bytes r
Answers bytes (range i j) r = (i ≤ j) × (j < length bytes) × IsPart bytes i j r

-- The answer for a media file, and for any other file.
abbrev ByKind : (is_media : Bool) → List ℕ → Wanted → Response → Type 0
ByKind true bytes w r = Answers bytes w r
ByKind false bytes w r = IsWhole bytes r

-- The answer to a request for a file, by its kind and by the header.
abbrev pub IsExact : StreamInfo → List ℕ → Option Text → Response → Type 0
IsExact info bytes header r =
    (r.accept_ranges ≡ (info.is_video || info.is_audio))
    × ByKind (info.is_video || info.is_audio) bytes (parse_byte_range header (length bytes)) r

send_media-Answers :
    (bytes : List ℕ) (w : Wanted)
    → ((i j : ℕ) → w ≡ range i j → (i ≤ j) × (j < length bytes))
    → Answers bytes w (send_media (length bytes) (λ r. ok (read_stream bytes r)) w)
unfolding send_media read_stream
send_media-Answers bytes whole h = (refl, refl, refl, refl)
send_media-Answers bytes unsatisfiable h = (refl, refl, refl)
send_media-Answers bytes (range i j) h =
    let (le, lt) = h i j refl in
    (le, lt, (refl, refl, ap some (sym (length-read_stream bytes i j le lt)), refl))

send_media_accepts :
    (total : ℕ) (bytes : List ℕ) (w : Wanted)
    → (send_media total (λ r. ok (read_stream bytes r)) w).accept_ranges ≡ true
unfolding send_media
send_media_accepts total bytes whole = refl
send_media_accepts total bytes unsatisfiable = refl
send_media_accepts total bytes (range i j) = refl

-- For a file that can be opened, and whose size was read right: one that is neither audio nor video is
-- sent whole with 200 and its length, whatever the header. For audio and video the header decides:
-- where it asks for the whole file, that is sent in the same way; where it asks for a range, the
-- answer is 206 with that range announced, which lies inside the file, exactly its bytes, and their
-- number as the length; where it asks for what cannot be satisfied, 416 with the file's size and no
-- byte. Ranges are advertised for audio and video only.
pub get_file-IsExact :
    (info : StreamInfo) (bytes : List ℕ) (header : Option Text)
    → info.size ≡ length bytes
    → IsExact info bytes header (get_file (ok info) (λ r. ok (read_stream bytes r)) header)
unfolding get_file read_stream
get_file-IsExact info bytes header h =
    let w = parse_byte_range header (length bytes) in
    let inside = λ (i j : ℕ) (e : w ≡ range i j). parse_byte_range_bounds header (length bytes) e in
    elim (Bool-cases (info.is_video || info.is_audio)) [
      | inl media ↦
          rw media
            (rw h (send_media_accepts (length bytes) bytes w, send_media-Answers bytes w inside))
      | inr other ↦ rw other (refl, (refl, refl, ap some h, refl))
    ]
