-- ===== src/Payloads/Log.antt =====
-- What the SDK reads back from the bodies that it built itself.
use tombstack_native.Json.Scan.Named.{all_others-Others}
use tombstack_native.Prelude.{◌≡◌, refl, some, ◌∷◌, ◌++◌, arith, All, Bytes, codes, str_eq, ◌&◌}
use tombstack_native.Json.Writer.{bool_field}
use tombstack_native.Json.Writer.Emits.{bool_text}
use tombstack_native.Json.Writer.Fields.{bool_field-Emits}
use tombstack_native.Json.Scan.{find_bool_field}
use tombstack_native.Json.Scan.Skip.{IsKey}
use tombstack_native.Json.Scan.Named.{
  Emitting, Holds-around, find_bool_field-Holds, statements-Emitting, is_other,
}
use tombstack_native.Payloads.{Doubles}
use tombstack_native.Payloads.Device.{DevicePayload, device_object}
use tombstack_native.Payloads.Device.Emitting.{device_object-Emitting, device_names}
use tombstack_native.Payloads.Crash.{
  CrashPayload, BugReportPayload, before_log, behind_log, report_before_log, report_behind_log,
  build_crash_json, build_bug_report_json,
}
use tombstack_native.Payloads.Emitting.{
  clamped_field-Emitting, optional_field-Emitting, breadcrumbs_field-Emitting,
  common_context-Emitting, correlation_fields-Emitting, optional_int_field-Emitting, crumb_names,
  context_names, correlation_names,
}

abbrev pub log_key : Bytes
log_key = codes "log"

log-IsKey : IsKey log_key
log-IsKey = omega arith

crash_before-Emitting : (d : Doubles) (p : CrashPayload d) → All (Emitting log_key) (before_log d p)
unfolding is_other str_eq
crash_before-Emitting d p =
    common_context-Emitting log_key log-IsKey _ p.build_version _ _
      (all_others-Others log_key context_names refl)
    & clamped_field-Emitting log_key log-IsKey _ p.signature _ refl
    & clamped_field-Emitting log_key log-IsKey _ p.stack_hint _ refl
    & optional_field-Emitting log_key log-IsKey _ p.stack_trace _ refl
    & breadcrumbs_field-Emitting log_key log-IsKey p.breadcrumbs refl
        (all_others-Others log_key crumb_names refl)
    & optional_field-Emitting log_key log-IsKey _ p.user_id _ refl
    & optional_field-Emitting log_key log-IsKey _ p.prior_user_id _ refl
    & optional_field-Emitting log_key log-IsKey _ p.steam_id _ refl
    & tt

device-Emitting : (d : Doubles) (p : DevicePayload d) → Emitting log_key (device_object d p)
unfolding is_other str_eq
device-Emitting d p =
    device_object-Emitting log_key log-IsKey d p refl (all_others-Others log_key device_names refl)

crash_behind-Emitting : (d : Doubles) (p : CrashPayload d) → All (Emitting log_key) (behind_log d p)
unfolding is_other str_eq
crash_behind-Emitting d p =
    correlation_fields-Emitting log_key log-IsKey p.role p.server_id p.match_id p.session_id
      (all_others-Others log_key correlation_names refl)
    & optional_field-Emitting log_key log-IsKey _ p.environment _ refl
    & device-Emitting d p.device
    & optional_field-Emitting log_key log-IsKey _ p.crash_type _ refl
    & optional_int_field-Emitting log_key log-IsKey _ p.os_signal refl
    & tt

report_before-Emitting :
    (d : Doubles) (p : BugReportPayload d) → All (Emitting log_key) (report_before_log d p)
unfolding is_other str_eq
report_before-Emitting d p =
    common_context-Emitting log_key log-IsKey _ p.build_version _ _
      (all_others-Others log_key context_names refl)
    & optional_field-Emitting log_key log-IsKey _ p.category _ refl
    & clamped_field-Emitting log_key log-IsKey _ p.message _ refl
    & optional_field-Emitting log_key log-IsKey _ p.user_id _ refl
    & optional_field-Emitting log_key log-IsKey _ p.prior_user_id _ refl
    & optional_field-Emitting log_key log-IsKey _ p.steam_id _ refl
    & breadcrumbs_field-Emitting log_key log-IsKey p.breadcrumbs refl
        (all_others-Others log_key crumb_names refl)
    & tt

report_behind-Emitting :
    (d : Doubles) (p : BugReportPayload d) → All (Emitting log_key) (report_behind_log d p)
unfolding is_other str_eq
report_behind-Emitting d p =
    correlation_fields-Emitting log_key log-IsKey p.role p.server_id p.match_id p.session_id
      (all_others-Others log_key correlation_names refl)
    & optional_field-Emitting log_key log-IsKey _ p.environment _ refl
    & device-Emitting d p.device
    & tt

module _ (d : Doubles) where
  -- Whatever a crash's strings hold, keys that look like JSON included, the scan of its body for
  -- `log` finds the flag that the body was built with: so a crash that was kept on disk asks for
  -- its log again if and only if it did at first.
  pub log-build_crash_json :
      (p : CrashPayload d) → find_bool_field (build_crash_json d p) log_key ≡ some p.log
  unfolding build_crash_json
  log-build_crash_json p =
      find_bool_field-Holds p.log (before_log d p ++ (bool_field log_key p.log ∷ behind_log d p))
        (Holds-around log_key (bool_text p.log) (before_log d p) (behind_log d p) _
          (statements-Emitting log_key log-IsKey _ (crash_before-Emitting d p))
          (bool_field-Emits log_key p.log)
          (statements-Emitting log_key log-IsKey _ (crash_behind-Emitting d p)))
        log-IsKey

  -- So it is for a bug report.
  pub log-build_bug_report_json :
      (p : BugReportPayload d) → find_bool_field (build_bug_report_json d p) log_key ≡ some p.log
  unfolding build_bug_report_json
  log-build_bug_report_json p =
      find_bool_field-Holds p.log
        (report_before_log d p ++ (bool_field log_key p.log ∷ report_behind_log d p))
        (Holds-around log_key (bool_text p.log) (report_before_log d p) (report_behind_log d p) _
          (statements-Emitting log_key log-IsKey _ (report_before-Emitting d p))
          (bool_field-Emits log_key p.log)
          (statements-Emitting log_key log-IsKey _ (report_behind-Emitting d p)))
        log-IsKey
