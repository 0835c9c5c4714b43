-- ===== src/Json/Upload.antt =====
-- `find_object_field` and `find_log_upload` of src/json_scan.cpp: the slot for a log upload that
-- the server may grant.
pub mod Fuel
use tombstack_native.Prelude.{
  ℕ, zero, suc, ◌+◌, ◌-◌, ◌*◌, Bool, true, false, not, ◌&&◌, ◌||◌, Option, none, some, List, [],
  ◌∷◌, ◌++◌, ltb, leb, ◌==◌, if◌then◌else◌, value_or, length, is_empty, drop, Bytes, codes, str_eq,
}
use tombstack_native.Json.Scan.{find_value_start, find_string_field, read_string, skip_space}

-- The loop of `find_object_field`, from the opening brace on: where it stands, and the text up to
-- the brace that closes the object.
pub data Inside : Type 0 where
  plain quoted escaped : Inside

abbrev push_byte : ℕ → Option Bytes → Option Bytes
push_byte c none = none
push_byte c (some text) = some (c ∷ text)

-- how the loop goes on behind one byte: the state and the depth, or the end of the object
pub data Brace : Type 0 where
  ends : Brace
  goes : Inside → ℕ → Brace

brace : Inside → ℕ → ℕ → Brace
brace escaped depth c = goes quoted depth
brace quoted depth c =
    if c == b'\\'
    then goes escaped depth
    else if c == b'"'
    then goes plain depth
    else goes quoted depth
brace plain depth c =
    if c == b'"'
    then goes quoted depth
    else if c == b'{'
    then goes plain (depth + 1)
    else if c == b'}'
    then (if depth == 1 then ends else goes plain (depth - 1))
    else goes plain depth

take_object : Inside → ℕ → Bytes → Option Bytes
take_object at depth [] = none
take_object at depth (c ∷ cs) = elim (brace at depth c) [
  | ends ↦ some (c ∷ [])
  | goes next depth' ↦ push_byte c (take_object next depth' cs)
]

object_at : Option Bytes → Option Bytes
object_at none = none
object_at (some []) = none
object_at (some (c ∷ cs)) = if c == b'{' then take_object plain 0 (c ∷ cs) else none

unfoldable pub find_object_field : Bytes → Bytes → Option Bytes
unfolding brace take_object object_at
find_object_field response_body key = object_at (find_value_start response_body key)

pub record LogUpload : Type 0 where
  pub url : Bytes
  pub method : Bytes
  pub fields : List (Bytes × Bytes)

-- `name->find_first_not_of(…) == npos`
pub is_field_name : Bytes → Bool
is_field_name [] = true
is_field_name (c ∷ cs) =
    ((leb b'a' c && leb c b'z')
      || (leb b'A' c && leb c b'Z')
      || (leb b'0' c && leb c b'9')
      || c == b'_'
      || c == b'.'
      || c == b'-')
    && is_field_name cs

has_name : Bytes → List (Bytes × Bytes) → Bool
has_name name [] = false
has_name name ((n, v) ∷ fields) = str_eq n name || has_name name fields

good_name : Bytes → Bool
unfolding is_field_name
good_name name =
    not (is_empty name)
    && leb (length name) 128
    && not (str_eq name (codes "file"))
    && is_field_name name

-- the text behind a colon and the white space before it
behind_colon : Bytes → Option Bytes
behind_colon [] = none
behind_colon (c ∷ cs) = if c == b':' then some (skip_space cs) else none

-- one `"name": "value"`, with the text behind it; `so_far` are the fields read before
read_field : List (Bytes × Bytes) → Bytes → Option (Bytes × Bytes × Bytes)
unfolding good_name has_name behind_colon
read_field so_far text = elim (read_string (skip_space text)) [
  | none ↦ none
  | some (name, rest) ↦
      if not (good_name name) then none else elim (behind_colon (skip_space rest)) [
        | none ↦ none
        | some at ↦ elim (read_string at) [
          | none ↦ none
          | some (value, after) ↦
              if ltb 16384 (length value) || leb 32 (length so_far) || has_name name so_far
              then none
              else some (name, value, skip_space after)
        ]
      ]
]

-- The `for (;;)` loop. The fuel bounds the fields: the 33rd is refused.
pub read_fields : ℕ → List (Bytes × Bytes) → Bytes → Option (List (Bytes × Bytes))
unfolding read_field
read_fields zero so_far text = none
read_fields (suc fuel) so_far text = elim (read_field so_far text) [
  | none ↦ none
  | some (name, value, []) ↦ none
  | some (name, value, c ∷ cs) ↦
      let rest = read_fields fuel (so_far ++ (name, value) ∷ []) cs in
      if c == b'}' then some (so_far ++ (name, value) ∷ []) else if c == b',' then rest else none
]

abbrev pub field_fuel : ℕ
field_fuel = 33

with_fields : LogUpload → Option (List (Bytes × Bytes)) → Option LogUpload
with_fields upload none = none
with_fields upload (some fields) = some (record upload { fields = fields })

post_fields : LogUpload → Option Bytes → Option LogUpload
unfolding with_fields read_fields
post_fields upload none = none
post_fields upload (some text) = with_fields upload (read_fields field_fuel [] (drop 1 text))

upload_of : Option Bytes → Option LogUpload
unfolding post_fields
upload_of none = none
upload_of (some object) =
    let url = value_or (find_string_field object (codes "url")) [] in
    let method = value_or (find_string_field object (codes "method")) [] in
    let upload : LogUpload = record { url = url; method = method; fields = [] } in
    if is_empty url
    then none
    else if str_eq method (codes "PUT")
    then some upload
    else if not (str_eq method (codes "POST"))
    then none
    else post_fields upload (find_object_field object (codes "fields"))

unfoldable pub find_log_upload : Bytes → Option LogUpload
unfolding upload_of find_object_field
find_log_upload response_body =
    if ltb (128 * 1024) (length response_body)
    then none
    else upload_of (find_object_field response_body (codes "logUpload"))
