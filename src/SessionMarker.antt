-- ===== src/SessionMarker.antt =====
-- src/session_marker.h and src/session_marker.cpp: the file `session.lock` that a session which
-- dies leaves behind. The state is the flag and the content of the one file that the class touches;
-- what the file system answers is an argument of each operation.
pub mod RoundTrip
mod Tests
use tombstack_native.Prelude.{
  Bool, true, not, Option, none, some, [], ◌∷◌, if◌then◌else◌, value_or, is_empty, Bytes, codes,
}
use tombstack_native.Json.Writer.{string_field, document}
use tombstack_native.Json.Scan.{find_string_field}

pub record SessionMarkerData : Type 0 where
  pub session_id : Bytes
  pub started_at_iso : Bytes
  pub build_version : Bytes
  pub os : Bytes
  pub arch : Bytes

pub record SessionMarker : Type 0 where
  pub configured : Bool
  pub file : Option Bytes

-- Whether the stream opens, and whether `fs::remove` removes the file.
pub record Disk : Type 0 where
  pub opens : Bool
  pub removes : Bool

-- `configure`; a file of an earlier run may be there
unfoldable pub configure : SessionMarker → SessionMarker
configure m = record m { configured = true }

unlink : Disk → SessionMarker → SessionMarker
unlink d m = record m { file = if d.removes then none else m.file }

pub marker_json : SessionMarkerData → Bytes
marker_json data' = document (
    string_field (codes "sessionId") data'.session_id
    ∷ string_field (codes "startedAtIso") data'.started_at_iso
    ∷ string_field (codes "buildVersion") data'.build_version
    ∷ string_field (codes "os") data'.os
    ∷ string_field (codes "arch") data'.arch
    ∷ [])

field_or_empty : Bytes → Bytes → Bytes
field_or_empty text key = value_or (find_string_field text key) []

-- what `take_previous` makes of the text of the file
pub parse_marker : Bytes → Option SessionMarkerData
unfolding field_or_empty
parse_marker text =
    let id = field_or_empty text (codes "sessionId") in
    if is_empty id
    then none
    else some (record {
      session_id = id;
      started_at_iso = field_or_empty text (codes "startedAtIso");
      build_version = field_or_empty text (codes "buildVersion");
      os = field_or_empty text (codes "os");
      arch = field_or_empty text (codes "arch");
    })

-- the branch where the file exists
read_and_remove : Disk → Bytes → SessionMarker → SessionMarker × Option SessionMarkerData
unfolding parse_marker unlink
read_and_remove d text m = if not d.opens then (m, none) else (unlink d m, parse_marker text)

take_file : Disk → Option Bytes → SessionMarker → SessionMarker × Option SessionMarkerData
unfolding read_and_remove
take_file d none m = (m, none)
take_file d (some text) m = read_and_remove d text m

unfoldable pub take_previous : Disk → SessionMarker → SessionMarker × Option SessionMarkerData
unfolding take_file
take_previous d m = if not m.configured then (m, none) else take_file d m.file m

unfoldable pub write : Disk → SessionMarkerData → SessionMarker → SessionMarker
unfolding marker_json
write d data' m =
    if not m.configured
    then m
    else if not d.opens
    then m
    else record m { file = some (marker_json data') }

unfoldable pub remove : Disk → SessionMarker → SessionMarker
unfolding unlink
remove d m = if not m.configured then m else unlink d m
