-- ===== src/Payloads/Items.antt =====
-- The bodies of events and metrics: `build_event_json` and `build_metric_json` of src/payloads.cpp.
pub mod Attributes
use tombstack_native.Prelude.{
  ℕ, ◌+◌, not, List, [], ◌∷◌, leb, if◌then◌else◌, is_empty, Bytes, codes,
}
use tombstack_native.Json.Utf8.{utf8_safe_truncate}
use tombstack_native.Json.Writer.{
  JsonWriter, string_field, number_field, begin_object, end_object, document,
}
use tombstack_native.Payloads.{
  Doubles, clamped_field, optional_field, common_context, correlation_fields,
}
use tombstack_native.Payloads.Limits

pub record EventPayload : Type 0 where
  pub occurred_at_iso : Bytes
  pub build_version : Bytes
  pub os : Bytes
  pub arch : Bytes
  pub name : Bytes
  pub user_id : Bytes
  pub attributes : List (Bytes × Bytes)
  pub role : Bytes
  pub server_id : Bytes
  pub match_id : Bytes
  pub session_id : Bytes
  pub environment : Bytes

-- the loop over the attributes, with the number written so far
unfoldable pub attribute_loop : ℕ → List (Bytes × Bytes) → JsonWriter → JsonWriter
attribute_loop written [] w = w
attribute_loop written ((key, value) ∷ attributes) w =
    let skipped = attribute_loop written attributes w in
    let rest = attribute_loop (written + 1) attributes (
      string_field (utf8_safe_truncate key Limits.event_attribute_key)
        (utf8_safe_truncate value Limits.event_attribute_value) w) in
    if leb Limits.event_attributes written then w else if is_empty key then skipped else rest

abbrev pub attributes_object : List (Bytes × Bytes) → JsonWriter → JsonWriter
attributes_object attributes w =
    if not (is_empty attributes)
    then end_object (attribute_loop 0 attributes (begin_object (codes "attributes") w))
    else w

unfoldable pub build_event_json : EventPayload → Bytes
unfolding attribute_loop
build_event_json p = document (
    common_context p.occurred_at_iso p.build_version p.os p.arch
    ∷ clamped_field (codes "name") p.name Limits.event_name
    ∷ optional_field (codes "userId") p.user_id Limits.user_id
    ∷ attributes_object p.attributes
    ∷ correlation_fields p.role p.server_id p.match_id p.session_id
    ∷ optional_field (codes "environment") p.environment Limits.environment
    ∷ [])

pub record MetricPayload (d : Doubles) : Type 0 where
  pub name : Bytes
  pub value : d.double
  pub unit : Bytes
  pub occurred_at_iso : Bytes
  pub build_version : Bytes
  pub os : Bytes
  pub arch : Bytes
  pub user_id : Bytes
  pub role : Bytes
  pub server_id : Bytes
  pub match_id : Bytes
  pub session_id : Bytes
  pub environment : Bytes

unfoldable pub build_metric_json : (d : Doubles) → MetricPayload d → Bytes
build_metric_json d p = document (
    clamped_field (codes "name") p.name Limits.metric_name
    ∷ number_field d.decimal_point (codes "value") (d.printed p.value)
    ∷ optional_field (codes "unit") p.unit Limits.metric_unit
    ∷ string_field (codes "occurredAtIso") p.occurred_at_iso
    ∷ clamped_field (codes "buildVersion") p.build_version Limits.build_version
    ∷ string_field (codes "os") p.os
    ∷ string_field (codes "arch") p.arch
    ∷ optional_field (codes "userId") p.user_id Limits.user_id
    ∷ correlation_fields p.role p.server_id p.match_id p.session_id
    ∷ optional_field (codes "environment") p.environment Limits.environment
    ∷ [])
