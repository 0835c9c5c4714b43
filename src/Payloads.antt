-- ===== src/Payloads.antt =====
-- src/payloads.h and src/payloads.cpp: the bodies that the SDK sends. A builder is the document of
-- its statements on the writer of src/json_writer.cpp; a helper is a statement. Here stand the
-- helpers that the builders share.
pub mod Limits
pub mod Device
pub mod Crash
pub mod Items
pub mod Heartbeat
pub mod Metadata
pub mod Pull
pub mod Emitting
pub mod Log
pub mod Whole
mod Tests
use tombstack_native.Prelude.{
  ℕ, ◌≡◌, ◌≢◌, Bool, true, not, List, map, if◌then◌else◌, is_empty, All, Bytes, codes,
}
use tombstack_native.Prelude.Int.{ℤ, pos, ltb_ℤ}
use tombstack_native.Json.Utf8.{utf8_safe_truncate}
use tombstack_native.Json.Writer.{
  JsonWriter, string_field, int_field, number_field, begin_array, begin_element, end_array,
  end_object, statements,
}
use tombstack_native.BreadcrumbRing.{Breadcrumb, max_level_bytes, max_message_bytes}
use tombstack_native.Payloads.Limits

-- The C++ library's `double`: which values are finite and above 0, and what `snprintf` prints for
-- `%.17g` where the locale has this decimal point; `unset` is 0. A finite number is printed without a quote.
pub record Doubles : Type 1 where
  pub double : Type 0
  pub unset : double
  pub is_positive : double → Bool
  pub printed : double → Bytes
  pub decimal_point : Bytes
  pub no_quote : (x : double) → is_positive x ≡ true → All (λ d. d ≢ b'"') (printed x)

abbrev pub clamped_field : Bytes → Bytes → ℕ → JsonWriter → JsonWriter
clamped_field name value max_bytes w = string_field name (utf8_safe_truncate value max_bytes) w

abbrev pub optional_field : Bytes → Bytes → ℕ → JsonWriter → JsonWriter
optional_field name value max_bytes w =
    if not (is_empty value) then clamped_field name value max_bytes w else w

-- the statements of the loop for one crumb
abbrev pub crumb_fields : Breadcrumb → JsonWriter → JsonWriter
crumb_fields crumb w = clamped_field (codes "message") crumb.message max_message_bytes (
    clamped_field (codes "level") crumb.level max_level_bytes
      (if not (is_empty crumb.ts_iso) then string_field (codes "tsIso") crumb.ts_iso w else w))

abbrev pub crumb_element : Breadcrumb → JsonWriter → JsonWriter
crumb_element crumb w = end_object (crumb_fields crumb (begin_element w))

abbrev pub breadcrumbs_field : List Breadcrumb → JsonWriter → JsonWriter
breadcrumbs_field breadcrumbs w =
    if is_empty breadcrumbs
    then w
    else end_array
        (statements (map crumb_element breadcrumbs) (begin_array (codes "breadcrumbs") w))

abbrev pub common_context : Bytes → Bytes → Bytes → Bytes → JsonWriter → JsonWriter
common_context occurred_at_iso build_version os arch w = string_field (codes "arch") arch (
    string_field (codes "os") os (
      clamped_field (codes "buildVersion") build_version Limits.build_version
        (string_field (codes "occurredAtIso") occurred_at_iso w)))

abbrev pub correlation_fields : Bytes → Bytes → Bytes → Bytes → JsonWriter → JsonWriter
correlation_fields role server_id match_id session_id w =
    optional_field (codes "sessionId") session_id Limits.session_id (
      optional_field (codes "matchId") match_id Limits.match_id (
        optional_field (codes "serverId") server_id Limits.server_id
          (optional_field (codes "role") role Limits.role w)))

abbrev pub optional_int_field : Bytes → ℤ → JsonWriter → JsonWriter
optional_int_field name value w = if ltb_ℤ (pos 0) value then int_field name value w else w

abbrev pub optional_number_field : (d : Doubles) → Bytes → d.double → JsonWriter → JsonWriter
optional_number_field d name value w =
    if d.is_positive value then number_field d.decimal_point name (d.printed value) w else w
