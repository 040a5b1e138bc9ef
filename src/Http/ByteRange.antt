-- ===== src/Http/ByteRange.antt =====
-- files/files.controller.ts: `parseByteRange` and the response of `getFile`.
-- Numbers are exact here; in the source they are doubles. The two agree for files of at most
-- 2 ^ 53 bytes, since a longer run of digits is rounded to something above every offset.
pub mod Exact
mod Tests
use shado_cloud.Common.{
  ltb, leb, ◌==◌, if◌then◌else◌, take, drop, all, Result, err, ok, Text, codes, strip_prefix, trim,
  is_digit, parse_int, ℕ, ◌+◌, ◌-◌, min, Bool, true, false, ◌&&◌, ◌||◌, Option, none, some, List,
  [], ◌∷◌,
}

pub data Wanted : Type 0 where
  whole unsatisfiable : Wanted
  range : (first last : ℕ) → Wanted

-- `header.split(",")[0]`
pub before_comma : Text → Text
before_comma [] = []
before_comma (c ∷ s) = if c == b',' then [] else c ∷ before_comma s

-- `(\d*)`, greedy, with what follows.
pub span_digits : Text → Text × Text
span_digits [] = ([], [])
span_digits (c ∷ s) =
    let (ds, rest) = span_digits s in if is_digit c then (c ∷ ds, rest) else ([], c ∷ s)

-- `-(\d*)$`
match_tail : Text → Text → Option (Text × Text)
match_tail raw_start [] = none
match_tail raw_start (c ∷ s) = if c == b'-' && all is_digit s then some (raw_start, s) else none

-- `/^bytes=(\d*)-(\d*)$/.exec(first)`
pub match_bytes : Text → Option (Text × Text)
unfolding match_tail span_digits
match_bytes first = elim (strip_prefix (codes "bytes=") first) [
  | none ↦ none
  | some rest ↦ match_tail (span_digits rest).0 (span_digits rest).1
]

-- `rawEnd === "" ? total - 1 : Math.min(parseInt(rawEnd, 10), total - 1)`
last_offset : Text → ℕ → ℕ
last_offset [] total = total - 1
last_offset (e ∷ es) total = min (parse_int (e ∷ es)) (total - 1)

-- From line 310 on: the two texts of digits, not both empty, and a file that is not empty.
clamp : Text → Text → ℕ → Wanted
unfolding last_offset
clamp [] raw_end total =
    let last_n = parse_int raw_end in
    if last_n == 0 then unsatisfiable else range (total - last_n) (total - 1)
clamp (d ∷ ds) raw_end total =
    let first = parse_int (d ∷ ds) in
    let last = last_offset raw_end total in
    if leb total first
    then unsatisfiable
    else if ltb last first
    then unsatisfiable
    else range first last

pub resolve : Text → Text → ℕ → Wanted
unfolding clamp
resolve [] [] total = whole
resolve [] (e ∷ es) total = if total == 0 then unsatisfiable else clamp [] (e ∷ es) total
resolve (d ∷ ds) raw_end total = if total == 0 then unsatisfiable else clamp (d ∷ ds) raw_end total

pub resolve_match : Option (Text × Text) → ℕ → Wanted
resolve_match none total = whole
resolve_match (some (raw_start, raw_end)) total = resolve raw_start raw_end total

-- `none` is an absent header; an empty one counts as absent.
unfoldable pub parse_byte_range : Option Text → ℕ → Wanted
unfolding resolve resolve_match match_bytes before_comma
parse_byte_range none total = whole
parse_byte_range (some []) total = whole
parse_byte_range (some (c ∷ s)) total =
    resolve_match (match_bytes (trim (before_comma (trim (c ∷ s))))) total

pub record StreamInfo : Type 0 where
  pub mime : Text
  pub size : ℕ
  pub is_video : Bool
  pub is_audio : Bool

pub record Response : Type 0 where
  pub status : ℕ
  -- The parts of `Content-Range: bytes s-e/t`; `none` for s and e is `bytes */t`.
  pub content_range : Option (Option (ℕ × ℕ) × ℕ)
  pub content_length : Option ℕ
  pub accept_ranges : Bool
  pub body : List ℕ

-- The stream that `FilesService.asStream` opens: all of the file, or the inclusive range.
pub read_stream : List ℕ → Option (ℕ × ℕ) → List ℕ
read_stream bytes none = bytes
read_stream bytes (some (first, last)) = take (last + 1 - first) (drop first bytes)

-- The answer of the `catch` block, whose body is a JSON message and not the file's bytes.
failed : Response
failed = record {
  status = 400;
  content_range = none;
  content_length = none;
  accept_ranges = false;
  body = [];
}

-- A whole media file that cannot be opened: the header is already written, so the `catch` block
-- cannot answer any more, and the response ends with no byte of the announced length.
cut_off : ℕ → Response
cut_off total = record {
  status = 200;
  content_range = none;
  content_length = some total;
  accept_ranges = true;
  body = [];
}

-- What `getFile` sends for a media file, given the opened stream or the error of `asStream`.
send_media : ℕ → (Option (ℕ × ℕ) → Result Text (List ℕ)) → Wanted → Response
unfolding failed cut_off
send_media total as_stream unsatisfiable = record {
  status = 416;
  content_range = some (none, total);
  content_length = none;
  accept_ranges = true;
  body = [];
}
send_media total as_stream (range first last) = elim (as_stream (some (first, last))) [
  | err e ↦ failed
  | ok bytes ↦ record {
    status = 206;
    content_range = some (some (first, last), total);
    content_length = some (last - first + 1);
    accept_ranges = true;
    body = bytes;
  }
]
send_media total as_stream whole = elim (as_stream none) [
  | err e ↦ cut_off total
  | ok bytes ↦ record {
    status = 200;
    content_range = none;
    content_length = some total;
    accept_ranges = true;
    body = bytes;
  }
]

send_plain : ℕ → Result Text (List ℕ) → Response
unfolding failed
send_plain size (err e) = failed
send_plain size (ok bytes) = record {
  status = 200;
  content_range = none;
  content_length = some size;
  accept_ranges = false;
  body = bytes;
}

unfoldable pub get_file :
    Result Text StreamInfo → (Option (ℕ × ℕ) → Result Text (List ℕ)) → Option Text → Response
unfolding send_media send_plain parse_byte_range
get_file (err e) as_stream header = failed
get_file (ok info) as_stream header =
    if info.is_video || info.is_audio
    then send_media info.size as_stream (parse_byte_range header info.size)
    else send_plain info.size (as_stream none)
