-- ===== src/Payloads/Tests.antt =====
-- Runs and witnesses for src/payloads.cpp.
use tombstack_native.Prelude.{
  ◌≡◌, refl, true, false, Option, none, some, List, [], ◌∷◌, arith, Bytes, codes, str_eq,
}
use tombstack_native.Prelude.Int.{pos}
use tombstack_native.Json.Utf8.{utf8_safe_truncate}
use tombstack_native.Json.Writer.{new_writer, statements}
use tombstack_native.Json.Scan.{find_bool_field, find_string_field}
use tombstack_native.Payloads.Crash.{
  CrashPayload, BugReportPayload, build_crash_json, build_bug_report_json,
}
use tombstack_native.Payloads.Device.{DevicePayload, device_has_content, device_fields}
use tombstack_native.Payloads.Device.Content.{device_fields-silent}
use tombstack_native.Payloads.Log.{log_key, log-build_crash_json, log-build_bug_report_json}
use tombstack_native.Payloads.Metadata.{
  UserMetadataEntries, clamp_user_metadata, build_user_metadata_json,
}
use tombstack_native.Payloads.Metadata.Clamp.{IsClamped, clamp_user_metadata-IsClamped}
use tombstack_native.Payloads.Metadata.Kept.{keys_of, values_of, IsWithin, find-clamp_user_metadata}
use tombstack_native.Payloads.Pull.{pull_request_targets_client}
use tombstack_native.Payloads.Whole.{whole, laptop}

-- The hint looks like the member that the scan is after.
abbrev sample_crash : CrashPayload whole
sample_crash = record {
  occurred_at_iso = codes "2026";
  build_version = codes "1";
  os = codes "linux";
  arch = codes "x64";
  signature = codes "s";
  stack_hint = codes "\"log\":false";
  stack_trace = [];
  breadcrumbs = record { ts_iso = []; level = codes "Info"; message = codes "log" } ∷ [];
  user_id = codes "log";
  prior_user_id = [];
  steam_id = [];
  log = true;
  role = [];
  server_id = [];
  match_id = [];
  session_id = codes "a";
  environment = [];
  device = laptop;
  crash_type = [];
  os_signal = pos 0;
}

reads_log : find_bool_field (build_crash_json whole sample_crash) log_key ≡ some true
reads_log = log-build_crash_json whole sample_crash

abbrev sample_report : BugReportPayload whole
sample_report = record {
  occurred_at_iso = codes "2026";
  build_version = codes "1";
  os = codes "linux";
  arch = codes "x64";
  category = codes "log";
  message = codes "\"log\":true,";
  user_id = [];
  prior_user_id = [];
  steam_id = [];
  breadcrumbs = [];
  log = false;
  role = [];
  server_id = [];
  match_id = [];
  session_id = [];
  environment = [];
  device = laptop;
}

reads_no_log : find_bool_field (build_bug_report_json whole sample_report) log_key ≡ some false
reads_no_log = log-build_bug_report_json whole sample_report

abbrev blank_device : DevicePayload whole
blank_device = record laptop { model = []; cpu_count = pos 0; screen_dpi = 0; fullscreen = false }

blank : device_has_content whole blank_device ≡ false
unfolding device_has_content
blank = refl

device_fields-silent_example : statements (device_fields whole blank_device) new_writer ≡ new_writer
device_fields-silent_example = device_fields-silent whole blank_device new_writer blank

abbrev sample_keys : List (Option Bytes)
sample_keys = some (codes "rank") ∷ none ∷ some (codes "rank") ∷ []

abbrev sample_values : List (Option Bytes)
sample_values = some (codes "1") ∷ some (codes "x") ∷ some (codes "2") ∷ []

clamp_user_metadata-IsClamped_example :
    IsClamped (clamp_user_metadata (some sample_keys) (some sample_values))
clamp_user_metadata-IsClamped_example =
    clamp_user_metadata-IsClamped (some sample_keys) (some sample_values)

-- The last value of a key counts.
clamps :
    clamp_user_metadata (some sample_keys) (some sample_values) ≡ (codes "rank", codes "2") ∷ []
unfolding clamp_user_metadata utf8_safe_truncate str_eq
clamps = refl

abbrev ranked : UserMetadataEntries
ranked = (codes "team", codes "a\"b") ∷ (codes "rank", codes "2") ∷ []

ranked-IsWithin : IsWithin ranked
ranked-IsWithin = record {
  few = omega arith;
  filled = ((omega arith, omega arith), ((omega arith, omega arith), tt));
  short = ((omega arith, omega arith), ((omega arith, omega arith), tt));
  distinct = (((λ e. absurd (ground arith)), tt), (tt, tt));
}

find-clamp_user_metadata_example :
    find_string_field
      (build_user_metadata_json
        (clamp_user_metadata (some (keys_of ranked)) (some (values_of ranked))))
      (codes "rank")
    ≡ some (codes "2")
unfolding str_eq
find-clamp_user_metadata_example =
    find-clamp_user_metadata (codes "rank") (codes "2") ranked ranked-IsWithin (omega arith)
      (omega arith, (omega arith, tt)) refl

targets :
    pull_request_targets_client (codes "matchId") (codes "m") (codes "u") [] (codes "m") [] ≡ true
unfolding pull_request_targets_client str_eq
targets = refl
