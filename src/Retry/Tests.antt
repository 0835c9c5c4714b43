-- ===== src/Retry/Tests.antt =====
-- Runs and witnesses for src/retry_after.cpp.
use tombstack_native.Prelude.{◌≡◌, refl, arith, Bytes, codes}
use tombstack_native.Prelude.Int.{pos, negsuc}
use tombstack_native.Retry.{parse_retry_after_seconds, is_ows}
use tombstack_native.Retry.Header.{Reads, parse_sound, parse_complete}

abbrev header : Bytes
header = codes " \t120\r\n"

reads_header : parse_retry_after_seconds header ≡ pos 120
unfolding parse_retry_after_seconds
reads_header = refl

rejects_date : parse_retry_after_seconds (codes "Wed, 21 Oct") ≡ negsuc 0
unfolding parse_retry_after_seconds
rejects_date = refl

rejects_long : parse_retry_after_seconds (codes "1234567890") ≡ negsuc 0
unfolding parse_retry_after_seconds
rejects_long = refl

abbrev reading : Reads header 120
reading = record {
  left = codes " \t";
  digits = codes "120";
  right = codes "\r\n";
  splits = refl;
  left_ows = unfold is_ows in (refl, (refl, tt));
  right_ows = unfold is_ows in (refl, (refl, tt));
  all_digits = omega arith;
  some_digit = omega arith;
  few_digits = omega arith;
  is_value = refl;
}

parse_complete_example : parse_retry_after_seconds header ≡ pos 120
parse_complete_example = parse_complete reading

parse_sound_example : Reads header 120
parse_sound_example = parse_sound header 120 reads_header
