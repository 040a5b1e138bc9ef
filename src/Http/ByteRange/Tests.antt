-- ===== src/Http/ByteRange/Tests.antt =====
-- Runs of `parseByteRange` and `getFile`.
use shado_cloud.Common.{
  ok, Text, codes, trim, parse_int, ◌+◌, ◌≤◌, ◌<◌, ◌≡◌, refl, ◌↔◌, ◌⊎◌, true, false, some, [], ◌∷◌,
}
use shado_cloud.Http.ByteRange.Exact.{
  parse_byte_range_bounds, byte_header, Serves, parse_byte_range_from, parse_byte_range_suffix,
  IsExact, get_file-IsExact,
}
use shado_cloud.Http.ByteRange.{
  whole, unsatisfiable, range, parse_byte_range, StreamInfo, read_stream, get_file,
}

closed_range : parse_byte_range (some (codes " bytes=2-999999 , 7-8")) 100 ≡ range 2 99
unfolding parse_byte_range trim parse_int
closed_range = refl

suffix_range : parse_byte_range (some (codes "bytes=-30")) 100 ≡ range 70 99
unfolding parse_byte_range trim parse_int
suffix_range = refl

reversed_range : parse_byte_range (some (codes "bytes=9-3")) 100 ≡ unsatisfiable
unfolding parse_byte_range trim parse_int
reversed_range = refl

other_unit : parse_byte_range (some (codes "items=0-1")) 100 ≡ whole
unfolding parse_byte_range trim parse_int
other_unit = refl

parse_byte_range_bounds_example : (2 ≤ 99) × (99 < 100)
parse_byte_range_bounds_example =
    parse_byte_range_bounds (some (codes " bytes=2-999999 , 7-8")) 100 closed_range

abbrev nine : Text
nine = b'9' ∷ []

parse_byte_range_from_example :
    Serves (parse_byte_range (some (byte_header (b'2' ∷ []) nine)) 100) 9
    ↔ ((parse_int (b'2' ∷ []) ≤ 9) × (9 < 100) × ((nine ≡ []) ⊎ (9 ≤ parse_int nine)))
parse_byte_range_from_example = parse_byte_range_from b'2' [] nine 100 9 refl refl

parse_byte_range_suffix_example :
    Serves (parse_byte_range (some (byte_header [] (b'5' ∷ []))) 100) 97
    ↔ ((100 ≤ 97 + parse_int (b'5' ∷ [])) × (97 < 100))
parse_byte_range_suffix_example = parse_byte_range_suffix b'5' [] 100 97 refl

abbrev clip : StreamInfo
clip = record { mime = codes "video/mp4"; size = 3; is_video = true; is_audio = false }

get_file-IsExact_example :
    IsExact clip
      (7 ∷ 8 ∷ 9 ∷ [])
      (some (codes "bytes=1-"))
      (get_file (ok clip) (λ r. ok (read_stream (7 ∷ 8 ∷ 9 ∷ []) r)) (some (codes "bytes=1-")))
get_file-IsExact_example = get_file-IsExact clip (7 ∷ 8 ∷ 9 ∷ []) (some (codes "bytes=1-")) refl
