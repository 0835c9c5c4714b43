-- ===== src/Payloads/Heartbeat.antt =====
-- The body of a heartbeat: `build_heartbeat_json` of src/payloads.cpp.
use tombstack_native.Prelude.{Bool, not, List, [], ◌∷◌, ◌++◌, if◌then◌else◌, is_empty, Bytes, codes}
use tombstack_native.Prelude.Int.{ℤ}
use tombstack_native.Json.Writer.{
  JsonWriter, string_field, raw_field, number_field, int_field, statements, document,
}
use tombstack_native.Payloads.{Doubles, clamped_field, optional_field}
use tombstack_native.Payloads.Device.{DevicePayload, device_object}
use tombstack_native.Payloads.Limits

pub record HeartbeatPayload (d : Doubles) : Type 0 where
  pub session_id : Bytes
  pub occurred_at_iso : Bytes
  pub build_version : Bytes
  pub os : Bytes
  pub arch : Bytes
  pub user_id : Bytes
  pub prior_user_id : Bytes
  pub metadata_json : Bytes
  pub has_frame_stats : Bool
  pub fps_avg : d.double
  pub slow_frame_pct : d.double
  pub hitch_count : ℤ
  pub worst_frame_ms : ℤ
  pub role : Bytes
  pub server_id : Bytes
  pub match_id : Bytes
  pub region : Bytes
  pub hostname : Bytes
  pub environment : Bytes
  pub device : DevicePayload d

abbrev pub frame_fields : (d : Doubles) → HeartbeatPayload d → List (JsonWriter → JsonWriter)
frame_fields d p =
    number_field d.decimal_point (codes "fpsAvg") (d.printed p.fps_avg)
    ∷ number_field d.decimal_point (codes "slowFramePct") (d.printed p.slow_frame_pct)
    ∷ int_field (codes "hitchCount") p.hitch_count
    ∷ int_field (codes "worstFrameMs") p.worst_frame_ms
    ∷ []

abbrev pub before_metadata : (d : Doubles) → HeartbeatPayload d → List (JsonWriter → JsonWriter)
before_metadata d p =
    clamped_field (codes "sessionId") p.session_id Limits.session_id
    ∷ string_field (codes "occurredAtIso") p.occurred_at_iso
    ∷ clamped_field (codes "buildVersion") p.build_version Limits.build_version
    ∷ string_field (codes "os") p.os
    ∷ string_field (codes "arch") p.arch
    ∷ optional_field (codes "userId") p.user_id Limits.user_id
    ∷ optional_field (codes "priorUserId") p.prior_user_id Limits.user_id
    ∷ []

abbrev pub from_metadata : (d : Doubles) → HeartbeatPayload d → List (JsonWriter → JsonWriter)
from_metadata d p =
    (λ w.
      if not (is_empty p.metadata_json) then raw_field (codes "metadata") p.metadata_json w else w)
    ∷ (λ w. if p.has_frame_stats then statements (frame_fields d p) w else w)
    ∷ optional_field (codes "role") p.role Limits.role
    ∷ optional_field (codes "serverId") p.server_id Limits.server_id
    ∷ optional_field (codes "matchId") p.match_id Limits.match_id
    ∷ optional_field (codes "region") p.region Limits.region
    ∷ optional_field (codes "hostname") p.hostname Limits.hostname
    ∷ optional_field (codes "environment") p.environment Limits.environment
    ∷ device_object d p.device
    ∷ []

unfoldable pub build_heartbeat_json : (d : Doubles) → HeartbeatPayload d → Bytes
build_heartbeat_json d p = document (before_metadata d p ++ from_metadata d p)
