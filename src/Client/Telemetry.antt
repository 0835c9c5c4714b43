-- ===== src/Client/Telemetry.antt =====
-- `track_event` and `track_metric` of src/client_reports.cpp.
use tombstack_native.Prelude.{
  ℕ, Bool, true, false, not, ◌&&◌, ◌||◌, Option, List, [], ◌∷◌, ltb, if◌then◌else◌, value_or, Bytes,
}
use tombstack_native.Client.Identity.{is_null}
use tombstack_native.Payloads.{Doubles}
use tombstack_native.Payloads.Items.{EventPayload, build_event_json, build_metric_json}
use tombstack_native.Batch
use tombstack_native.Worker.{Worker}
use tombstack_native.Client.Identity.{Result, ok, current_user_id}
use tombstack_native.Client.State.{Client, Moment}
use tombstack_native.Client.Capture.{is_unset, guarded}

-- the attributes of `track_event`: keys that are null or empty are passed over
abbrev pub attributes_of : List (Option Bytes) → List (Option Bytes) → List (Bytes × Bytes)
attributes_of [] values = []
attributes_of (key ∷ keys) [] = []
attributes_of (key ∷ keys) (value ∷ values) =
    let rest = attributes_of keys values in
    if is_unset key then rest else (value_or key [], value_or value []) ∷ rest

module _ (d : Doubles) where
  abbrev pub event_payload : Moment → Bytes → List (Bytes × Bytes) → Client d → EventPayload
  event_payload moment name attributes c = record {
    occurred_at_iso = moment.iso 0;
    build_version = c.settings.build_version;
    os = c.settings.os;
    arch = c.settings.arch;
    name = name;
    user_id = current_user_id c.carry.identity;
    attributes = attributes;
    role = c.context.role;
    server_id = c.context.server_id;
    match_id = c.context.match_id;
    session_id = c.settings.session_id;
    environment = c.context.environment;
  }

  abbrev wake_if : Bool → Worker → Worker
  wake_if true w = record w { wake_requested = true }
  wake_if false w = w

  -- `count` is the length of both arrays, where they are given.
  unfoldable pub track_event :
      Moment
      → Bool
      → Option Bytes
      → ℕ
      → Option (List (Option Bytes))
      → Option (List (Option Bytes))
      → Client d
      → Client d × Result
  track_event moment keep name count keys values c =
      let item = build_event_json (
        event_payload moment (value_or name [])
          (attributes_of (value_or keys []) (value_or values [])) c) in
      let added = Batch.add (moment.now 0) item c.event_batch in
      guarded d (is_unset name || (ltb 0 count && (is_null keys || is_null values))) c (
        if not keep
        then (c, ok)
        else (record c { event_batch = added.0; worker = wake_if added.1 c.worker }, ok))

  -- The flag says that the value is finite.
  unfoldable pub track_metric :
      Moment → Bool → Option Bytes → Bool → d.double → Option Bytes → Client d → Client d × Result
  track_metric moment keep name is_finite value unit c =
      let item = build_metric_json d (record {
        name = value_or name [];
        value = value;
        unit = value_or unit [];
        occurred_at_iso = moment.iso 0;
        build_version = c.settings.build_version;
        os = c.settings.os;
        arch = c.settings.arch;
        user_id = current_user_id c.carry.identity;
        role = c.context.role;
        server_id = c.context.server_id;
        match_id = c.context.match_id;
        session_id = c.settings.session_id;
        environment = c.context.environment;
      }) in
      let added = Batch.add (moment.now 0) item c.metric_batch in
      guarded d (is_unset name || not is_finite) c (
        if not keep
        then (c, ok)
        else (record c { metric_batch = added.0; worker = wake_if added.1 c.worker }, ok))
