-- ===== src/SessionMarker/Tests.antt =====
-- Witnesses for src/session_marker.cpp.
use tombstack_native.Prelude.{◌≡◌, refl, true, none, some, codes}
use tombstack_native.SessionMarker.{SessionMarkerData, SessionMarker, Disk, take_previous, write}
use tombstack_native.Json.Writer.{document, string_field}
use tombstack_native.Json.Escape.{json_escape}
use tombstack_native.Json.Scan.{find_string_field}
use tombstack_native.SessionMarker.RoundTrip.{take_previous-write}

-- The build version ends in what looks like the next name, with its quote.
abbrev session : SessionMarkerData
session = record {
  session_id = codes "s-1";
  started_at_iso = codes "2026-01-01T00:00:00.000Z";
  build_version = codes "1.2\\\"os";
  os = codes "linux";
  arch = codes "x64";
}

abbrev marker : SessionMarker
marker = record { configured = true; file = none }

abbrev works : Disk
works = record { opens = true; removes = true }

restores : (take_previous works (write works session marker)).1 ≡ some session
unfolding take_previous write document string_field json_escape find_string_field
restores = refl

take_previous-write_example : (take_previous works (write works session marker)).1 ≡ some session
take_previous-write_example = take_previous-write works works session marker refl refl refl
