-- ===== src/Payloads/Crash.antt =====
-- The bodies of crashes and bug reports: `build_crash_json` and `build_bug_report_json` of
-- src/payloads.cpp.
use tombstack_native.Prelude.{Bool, List, [], ◌∷◌, ◌++◌, Bytes, codes}
use tombstack_native.Prelude.Int.{ℤ}
use tombstack_native.Json.Writer.{JsonWriter, bool_field, document}
use tombstack_native.BreadcrumbRing.{Breadcrumb}
use tombstack_native.Payloads.{
  Doubles, clamped_field, optional_field, breadcrumbs_field, common_context, correlation_fields,
  optional_int_field,
}
use tombstack_native.Payloads.Device.{DevicePayload, device_object}
use tombstack_native.Payloads.Limits

pub record CrashPayload (d : Doubles) : Type 0 where
  pub occurred_at_iso : Bytes
  pub build_version : Bytes
  pub os : Bytes
  pub arch : Bytes
  pub signature : Bytes
  pub stack_hint : Bytes
  pub stack_trace : Bytes
  pub breadcrumbs : List Breadcrumb
  pub user_id : Bytes
  pub prior_user_id : Bytes
  pub steam_id : Bytes
  pub log : Bool
  pub role : Bytes
  pub server_id : Bytes
  pub match_id : Bytes
  pub session_id : Bytes
  pub environment : Bytes
  pub device : DevicePayload d
  pub crash_type : Bytes
  pub os_signal : ℤ

abbrev pub before_log : (d : Doubles) → CrashPayload d → List (JsonWriter → JsonWriter)
before_log d p =
    common_context p.occurred_at_iso p.build_version p.os p.arch
    ∷ clamped_field (codes "signature") p.signature Limits.signature
    ∷ clamped_field (codes "stackHint") p.stack_hint Limits.stack_hint
    ∷ optional_field (codes "stackTrace") p.stack_trace Limits.stack_trace
    ∷ breadcrumbs_field p.breadcrumbs
    ∷ optional_field (codes "userId") p.user_id Limits.user_id
    ∷ optional_field (codes "priorUserId") p.prior_user_id Limits.user_id
    ∷ optional_field (codes "steamId") p.steam_id Limits.steam_id
    ∷ []

abbrev pub behind_log : (d : Doubles) → CrashPayload d → List (JsonWriter → JsonWriter)
behind_log d p =
    correlation_fields p.role p.server_id p.match_id p.session_id
    ∷ optional_field (codes "environment") p.environment Limits.environment
    ∷ device_object d p.device
    ∷ optional_field (codes "crashType") p.crash_type Limits.signature
    ∷ optional_int_field (codes "osSignal") p.os_signal
    ∷ []

unfoldable pub build_crash_json : (d : Doubles) → CrashPayload d → Bytes
build_crash_json d p =
    document (before_log d p ++ (bool_field (codes "log") p.log ∷ behind_log d p))

pub record BugReportPayload (d : Doubles) : Type 0 where
  pub occurred_at_iso : Bytes
  pub build_version : Bytes
  pub os : Bytes
  pub arch : Bytes
  pub category : Bytes
  pub message : Bytes
  pub user_id : Bytes
  pub prior_user_id : Bytes
  pub steam_id : Bytes
  pub breadcrumbs : List Breadcrumb
  pub log : Bool
  pub role : Bytes
  pub server_id : Bytes
  pub match_id : Bytes
  pub session_id : Bytes
  pub environment : Bytes
  pub device : DevicePayload d

abbrev pub report_before_log : (d : Doubles) → BugReportPayload d → List (JsonWriter → JsonWriter)
report_before_log d p =
    common_context p.occurred_at_iso p.build_version p.os p.arch
    ∷ optional_field (codes "category") p.category Limits.bug_category
    ∷ clamped_field (codes "message") p.message Limits.bug_message
    ∷ optional_field (codes "userId") p.user_id Limits.user_id
    ∷ optional_field (codes "priorUserId") p.prior_user_id Limits.user_id
    ∷ optional_field (codes "steamId") p.steam_id Limits.steam_id
    ∷ breadcrumbs_field p.breadcrumbs
    ∷ []

abbrev pub report_behind_log : (d : Doubles) → BugReportPayload d → List (JsonWriter → JsonWriter)
report_behind_log d p =
    correlation_fields p.role p.server_id p.match_id p.session_id
    ∷ optional_field (codes "environment") p.environment Limits.environment
    ∷ device_object d p.device
    ∷ []

unfoldable pub build_bug_report_json : (d : Doubles) → BugReportPayload d → Bytes
build_bug_report_json d p =
    document (report_before_log d p ++ (bool_field (codes "log") p.log ∷ report_behind_log d p))
