-- ===== src/Payloads/Metadata.antt =====
-- Per-user metadata: `clamp_user_metadata` and `build_user_metadata_json` of src/payloads.cpp. A C
-- array of strings is the list of its items; `none` is a null pointer.
pub mod Text
pub mod Clamp
pub mod Kept
use tombstack_native.Prelude.{
  Option, none, some, List, [], ◌∷◌, ◌++◌, map, leb, if◌then◌else◌, length, Bytes, str_eq,
}
use tombstack_native.Json.Utf8.{utf8_safe_truncate}
use tombstack_native.Json.Writer.{JsonWriter, string_field, document}
use tombstack_native.Payloads.Limits

abbrev pub UserMetadataEntries : Type 0
UserMetadataEntries = List (Bytes × Bytes)

-- The inner loop: the entries with the first entry of that key updated, or `none`.
pub update : Bytes → Bytes → UserMetadataEntries → Option UserMetadataEntries
update key value [] = none
update key value ((k, v) ∷ out) =
    if str_eq k key
    then some ((k, value) ∷ out)
    else elim (update key value out) [ none ↦ none | some out' ↦ some ((k, v) ∷ out') ]

-- One round, on a key and a value that are neither null nor empty; `none` is the `break`.
pub clamp_entry : Bytes → Bytes → UserMetadataEntries → Option UserMetadataEntries
unfolding update
clamp_entry key value out = elim (update key value out) [
  | some out' ↦ some out'
  | none ↦
      if leb Limits.user_metadata_keys (length out) then none else some (out ++ (key, value) ∷ [])
]

-- a C string that is null or empty is passed over
pub usable : Option Bytes → Option Bytes → Option (Bytes × Bytes)
usable none value = none
usable (some []) value = none
usable (some key) none = none
usable (some key) (some []) = none
usable (some key) (some value) = some (
  utf8_safe_truncate key Limits.user_metadata_key,
  utf8_safe_truncate value Limits.user_metadata_value,
)

pub clamp_loop :
    List (Option Bytes) → List (Option Bytes) → UserMetadataEntries → UserMetadataEntries
unfolding usable clamp_entry
clamp_loop [] values out = out
clamp_loop (key ∷ keys) [] out = out
clamp_loop (key ∷ keys) (value ∷ values) out = elim (usable key value) [
  | none ↦ clamp_loop keys values out
  | some (k, v) ↦ elim (clamp_entry k v out) [
    | none ↦ out
    | some out' ↦ clamp_loop keys values out'
  ]
]

unfoldable pub clamp_user_metadata :
    Option (List (Option Bytes)) → Option (List (Option Bytes)) → UserMetadataEntries
unfolding clamp_loop
clamp_user_metadata none values = []
clamp_user_metadata (some keys) none = []
clamp_user_metadata (some keys) (some values) = clamp_loop keys values []

abbrev pub entry_field : Bytes × Bytes → JsonWriter → JsonWriter
entry_field (key, value) w =
    string_field (utf8_safe_truncate key Limits.user_metadata_key)
      (utf8_safe_truncate value Limits.user_metadata_value) w

unfoldable pub build_user_metadata_json : UserMetadataEntries → Bytes
build_user_metadata_json entries = document (map entry_field entries)
