-- ===== src/Payloads/Metadata/Text.antt =====
-- The JSON of a metadata map: an object with the entries as members, in order.
use tombstack_native.Prelude.{
  ◌≤◌, ◌≡◌, refl, false, some, [], ◌∷◌, map, length, is_empty, All, Bytes,
}
use tombstack_native.Json.Utf8.{utf8_safe_truncate}
use tombstack_native.Json.Utf8.Bounds.{truncate_stays}
use tombstack_native.Json.Writer.{statements}
use tombstack_native.Json.Writer.Emits.{Emits, Emits-nothing, Emits-then, object_text}
use tombstack_native.Json.Writer.Fields.{string_field-Emits, document-text}
use tombstack_native.Json.Scan.{find_string_field}
use tombstack_native.Json.Scan.Skip.{IsKey}
use tombstack_native.Json.Scan.Members.{strings, first, Finds-strings, find_string_field-Finds}
use tombstack_native.Payloads.Limits
use tombstack_native.Payloads.Metadata.{UserMetadataEntries, entry_field, build_user_metadata_json}

abbrev truncated : UserMetadataEntries → UserMetadataEntries
truncated [] = []
truncated ((key, value) ∷ entries) =
    (
      utf8_safe_truncate key Limits.user_metadata_key,
      utf8_safe_truncate value Limits.user_metadata_value,
    )
    ∷ truncated entries

entries-Emits :
    (entries : UserMetadataEntries)
    → Emits (statements (map entry_field entries)) (strings (truncated entries))
unfolding statements
entries-Emits [] = Emits-nothing
entries-Emits ((key, value) ∷ entries) =
    Emits-then (entry_field (key, value)) (statements (map entry_field entries))
      (strings (truncated ((key, value) ∷ []))) (strings (truncated entries))
      (string_field-Emits (utf8_safe_truncate key Limits.user_metadata_key)
        (utf8_safe_truncate value Limits.user_metadata_value))
      (entries-Emits entries)

pub metadata_text :
    (entries : UserMetadataEntries)
    → build_user_metadata_json entries ≡ object_text (strings (truncated entries))
unfolding build_user_metadata_json
metadata_text entries = document-text (map entry_field entries) _ (entries-Emits entries)

pub metadata_nonempty :
    (entries : UserMetadataEntries) → is_empty (build_user_metadata_json entries) ≡ false
metadata_nonempty entries = rw (metadata_text entries) refl

-- The entries are within the limits of the wire already.
abbrev pub Fits : UserMetadataEntries → Type 0
Fits =
    All (λ e. (length e.0 ≤ Limits.user_metadata_key) × (length e.1 ≤ Limits.user_metadata_value))

fitting-stays : (entries : UserMetadataEntries) → Fits entries → truncated entries ≡ entries
fitting-stays [] h = refl
fitting-stays ((key, value) ∷ entries) h =
    rw
      (
        truncate_stays key Limits.user_metadata_key h.0.0,
        truncate_stays value Limits.user_metadata_value h.0.1,
        fitting-stays entries h.1,
      )
      refl

-- Where every key is made of letters, the JSON of a map within the limits gives back the value of the
-- first entry of a key.
pub find-metadata :
    (key value : Bytes) (entries : UserMetadataEntries)
    → Fits entries
    → IsKey key
    → All (λ e. IsKey e.0) entries
    → first key entries ≡ some value
    → find_string_field (build_user_metadata_json entries) key ≡ some value
find-metadata key value entries fits k ks h =
    rw (metadata_text entries, fitting-stays entries fits)
      (find_string_field-Finds (Finds-strings key value entries k ks h) k)
