-- ===== src/Json/Tests.antt =====
-- Runs and witnesses for src/json_writer.cpp and src/json_scan.cpp.
use tombstack_native.Prelude.{
  ◌+◌, ◌≤◌, ◌<◌, min, ◌≡◌, refl, ◌⊎◌, true, none, some, List, [], ◌∷◌, ◌++◌, arith, length, drop,
  All, Bytes, codes, str_eq,
}
use tombstack_native.Prelude.Int.{pos, negsuc}
use tombstack_native.Json.Scan.Ints.{find_int_field}
use tombstack_native.Json.Scan.{find_value_start}
use tombstack_native.Json.Writer.{number_text}
use tombstack_native.Json.Pending.{find_pending_requests, request_of}
use tombstack_native.Json.Escape.{json_escape}
use tombstack_native.Json.Utf8.{utf8_safe_truncate}
use tombstack_native.Json.Utf8.Valid.{IsUtf8, nil, one, two, truncate-IsUtf8}
use tombstack_native.Json.Scan.{read_string, find_string_field}
use tombstack_native.Json.Scan.Strings.{read-escape}
use tombstack_native.Json.Scan.Skip.{IsKey}
use tombstack_native.Json.Scan.Documents.{
  Member, Value, number, flag, written, find_string_field-written, find_int_field-written,
}

-- an accented letter of two bytes behind an ASCII one
abbrev text : Bytes
text = b'a' ∷ 0xC3 ∷ 0xA9 ∷ []

truncate-IsUtf8_example :
    IsUtf8 (utf8_safe_truncate text 2)
    × (length (utf8_safe_truncate text 2) ≤ 2)
    × (utf8_safe_truncate text 2 ++ drop (length (utf8_safe_truncate text 2)) text ≡ text)
    × ((2 < length text) ⊎ (utf8_safe_truncate text 2 ≡ text))
    × (min (length text) 2 ≤ length (utf8_safe_truncate text 2) + 3)
truncate-IsUtf8_example =
    truncate-IsUtf8 2
      (one (omega arith) (two (omega arith) (omega arith) (omega arith, omega arith) nil))

cuts : utf8_safe_truncate text 2 ≡ b'a' ∷ []
unfolding utf8_safe_truncate
cuts = refl

read-escape_example :
    read_string (b'"' ∷ (json_escape (b'"' ∷ 10 ∷ 1 ∷ 0xC3 ∷ []) ++ (b'"' ∷ codes ",")))
    ≡ some (b'"' ∷ 10 ∷ 1 ∷ 0xC3 ∷ [], codes ",")
read-escape_example = read-escape (b'"' ∷ 10 ∷ 1 ∷ 0xC3 ∷ []) (codes ",")

-- The value in front holds what looks like the key.
abbrev members : List Member
members =
    (codes "a", Value.text (codes "\"b\":"))
    ∷ (codes "n", number (negsuc 41))
    ∷ (codes "b", Value.text (codes "x"))
    ∷ (codes "b", flag true)
    ∷ []

members-IsKey : All (λ (m : Member). IsKey m.0) members
members-IsKey = (omega arith, (omega arith, (omega arith, (omega arith, tt))))

find_string_field-written_example :
    find_string_field (written members) (codes "b") ≡ some (codes "x")
unfolding str_eq
find_string_field-written_example =
    find_string_field-written (codes "b") (codes "x") members (omega arith) members-IsKey refl

find_int_field-written_example : find_int_field (written members) (codes "n") ≡ some (negsuc 41)
unfolding str_eq
find_int_field-written_example =
    find_int_field-written (codes "n") (negsuc 41) members (omega arith) members-IsKey refl
      (omega arith) (omega arith)

-- A number with a fraction, and one of nineteen digits, are refused.
refuses_fraction : find_int_field (codes "{\"n\": 1.5}") (codes "n") ≡ none
unfolding find_int_field
refuses_fraction = refl

refuses_long : find_int_field (codes "{\"n\":1234567890123456789}") (codes "n") ≡ none
unfolding find_int_field
refuses_long = refl

-- The decimal comma of a locale gives way to a point.
comma_text : number_text (codes ",") (codes "0,5") ≡ codes "0.5"
unfolding number_text str_eq
comma_text = refl

pending :
    find_pending_requests (
      codes
        "{\"pendingRequests\": [{\"requestId\":\"r}\",\"targetType\":\"userId\",\"nonceExpiry\":9}]}")
    ≡ record {
      request_id = codes "r}";
      target_type = codes "userId";
      target_value = [];
      fulfill_nonce = [];
      nonce_expiry = pos 9;
    }
      ∷ []
unfolding find_pending_requests find_value_start request_of find_string_field find_int_field
pending = refl
