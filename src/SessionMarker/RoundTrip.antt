-- ===== src/SessionMarker/RoundTrip.antt =====
-- What one run writes, the next one reads.
use tombstack_native.SessionMarker.{configure}
use tombstack_native.Prelude.{
  ◌≡◌, refl, true, false, Option, none, some, List, [], ◌∷◌, arith, if◌then◌else◌, is_empty, Bytes,
  codes, str_eq,
}
use tombstack_native.Json.Writer.Emits.{Fields, string_text, object_text, flatten}
use tombstack_native.Json.Writer.Fields.{string_field-Emits, document-Emits}
use tombstack_native.Json.Scan.Skip.{IsKey}
use tombstack_native.Json.Scan.Members.{Finds-strings, first, find_string_field-Finds}
use tombstack_native.SessionMarker.{
  SessionMarkerData, SessionMarker, Disk, marker_json, parse_marker, field_or_empty, take_previous,
  write, remove,
}

abbrev member : Bytes → Bytes → Fields
member name value = (name, string_text value) ∷ []

abbrev marker_strings : SessionMarkerData → List (Bytes × Bytes)
marker_strings d =
    (codes "sessionId", d.session_id)
    ∷ (codes "startedAtIso", d.started_at_iso)
    ∷ (codes "buildVersion", d.build_version)
    ∷ (codes "os", d.os)
    ∷ (codes "arch", d.arch)
    ∷ []

abbrev marker_members : SessionMarkerData → List Fields
marker_members d =
    member (codes "sessionId") d.session_id
    ∷ member (codes "startedAtIso") d.started_at_iso
    ∷ member (codes "buildVersion") d.build_version
    ∷ member (codes "os") d.os
    ∷ member (codes "arch") d.arch
    ∷ []

marker_json-object_text :
    (d : SessionMarkerData) → marker_json d ≡ object_text (flatten (marker_members d))
unfolding marker_json
marker_json-object_text d = document-Emits _ (marker_members d) (
  string_field-Emits (codes "sessionId") d.session_id,
  (
    string_field-Emits (codes "startedAtIso") d.started_at_iso,
    (
      string_field-Emits (codes "buildVersion") d.build_version,
      (string_field-Emits (codes "os") d.os, (string_field-Emits (codes "arch") d.arch, tt)),
    ),
  ),
)

module _ (d : SessionMarkerData) where
  reads :
      (key v : Bytes)
      → IsKey key
      → first key (marker_strings d) ≡ some v
      → field_or_empty (marker_json d) key ≡ v
  unfolding field_or_empty
  reads key v k h =
      rw (marker_json-object_text d)
        (rw (find_string_field-Finds (Finds-strings key v (marker_strings d) k (omega arith) h) k))

  reads_session_id : field_or_empty (marker_json d) (codes "sessionId") ≡ d.session_id
  unfolding str_eq
  reads_session_id = reads _ _ (omega arith) refl

  reads_started : field_or_empty (marker_json d) (codes "startedAtIso") ≡ d.started_at_iso
  unfolding str_eq
  reads_started = reads _ _ (omega arith) refl

  reads_build : field_or_empty (marker_json d) (codes "buildVersion") ≡ d.build_version
  unfolding str_eq
  reads_build = reads _ _ (omega arith) refl

  reads_os : field_or_empty (marker_json d) (codes "os") ≡ d.os
  unfolding str_eq
  reads_os = reads _ _ (omega arith) refl

  reads_arch : field_or_empty (marker_json d) (codes "arch") ≡ d.arch
  unfolding str_eq
  reads_arch = reads _ _ (omega arith) refl

  -- the text of a marker is read back, unless its session id is empty
  parse_marker-marker_json :
      parse_marker (marker_json d) ≡ (if is_empty d.session_id then none else some d)
  unfolding parse_marker
  parse_marker-marker_json = rw (reads_session_id, reads_started, reads_build, reads_os, reads_arch)

-- A marker that one run could write is what the next run takes, byte for byte, whatever quotes,
-- backslashes or key names its five texts hold (nothing, if the session id is empty).
pub take_previous-write :
    (out back : Disk) (d : SessionMarkerData) (m : SessionMarker)
    → m.configured ≡ true
    → out.opens ≡ true
    → back.opens ≡ true
    → (take_previous back (write out d m)).1 ≡ (if is_empty d.session_id then none else some d)
unfolding take_previous write
take_previous-write out back d m c o b = ground (arith, parse_marker-marker_json d)

-- After a clean shutdown that removed the file, the next run sees no marker, and nor does a run
-- that takes the marker a second time.
pub take_previous-none :
    (first second : Disk) (m : SessionMarker)
    → first.removes ≡ true
    → first.opens ≡ true
    → ((take_previous second (remove first m)).1 ≡ none)
      × ((take_previous second (take_previous first m).0).1 ≡ none)
unfolding take_previous remove
take_previous-none first second m r o = ground arith

-- the same for the next run, which has the file only
pub take_previous-file :
    (out back : Disk) (d : SessionMarkerData) (m : SessionMarker) (file : Option Bytes)
    → m.configured ≡ true
    → out.opens ≡ true
    → back.opens ≡ true
    → file ≡ (write out d m).file
    → (take_previous back (configure (record { configured = false; file = file }))).1
      ≡ (if is_empty d.session_id then none else some d)
unfolding configure take_previous write
take_previous-file out back d m file c o b e = ground (arith, parse_marker-marker_json d)

pub take_previous-removed :
    (out back : Disk) (m : SessionMarker) (file : Option Bytes)
    → m.configured ≡ true
    → out.removes ≡ true
    → file ≡ (remove out m).file
    → (take_previous back (configure (record { configured = false; file = file }))).1 ≡ none
unfolding configure take_previous remove
take_previous-removed out back m file c r e = ground arith
