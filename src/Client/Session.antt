-- ===== src/Client/Session.antt =====
-- Dirty-session tracking in src/client.cpp: the marker of this session, and the one report of the
-- death of the last.
pub mod Frame
use tombstack_native.Prelude.{
  take_else, take_then, ℕ, zero, suc, ◌+◌, ◌-◌, ◌*◌, ◌/◌, ◌%◌, ◌^◌, ◌≤◌, ◌<◌, min, max, ◌≡◌, refl,
  sym, ap, ◌∙◌, subst, ◌≢◌, ◌↔◌, ◌⊎◌, inl, inr, Bool, true, false, not, ◌&&◌, ◌||◌, Option, none,
  some, List, [], ◌∷◌, ◌++◌, map, append-nil, append_assoc, arith, ltb, leb, ◌==◌, if◌then◌else◌,
  ltb→lt, lt→ltb, leb→le, ltb_refuted, leb_refuted, ==_iff, tests, Bool-cases, Option-cases,
  value_or, &&-eq-true, length, is_empty, get_elem?, set, get_or, take, drop, replicate, pop_front,
  All, length-append, length-set, length-replicate, length-take, length-drop, length-map,
  take-append-drop, take-length-append, drop-length-append, All-append, All-append_left,
  All-append_right, Bytes, codes, str_eq, str_eq_iff, str_eq_refl, starts_with, ◌&◌, if-ap_else,
  if-holds, if-cases,
}
use tombstack_native.Prelude.Int.{ℤ, pos}
use tombstack_native.Payloads.{Doubles}
use tombstack_native.Payloads.Crash.{CrashPayload, build_crash_json}
use tombstack_native.Signature.{compute_crash_signature}
use tombstack_native.NativeCrash.{NativeCrashFrame, NativeCrashDump, hex_to, signal_name}
use tombstack_native.SessionMarker
use tombstack_native.SessionMarker.{SessionMarker, SessionMarkerData}
use tombstack_native.SidecarQueue.{crash}
use tombstack_native.Worker.{write_ahead}
use tombstack_native.Client.Identity.{current_user_id}
use tombstack_native.Client.State.{Client, Moment, enqueue_ingest}
use tombstack_native.Client.Capture.{crashes_path}

-- The client with what it knows of the last session.
pub record Session (d : Doubles) : Type 0 where
  pub client : Client d
  pub unclean_detection_enabled : Bool
  pub session_tracking_started : Bool
  pub marker : SessionMarker
  pub previous_marker : Option SessionMarkerData
  pub previous_native_dump : Option NativeCrashDump
  pub had_previous_log : Bool
  pub has_restored_crash : Bool

abbrev unclean_signature : Bytes
unclean_signature = codes "unclean-shutdown"

abbrev unclean_stack_hint : Bytes
unclean_stack_hint =
    codes "Previous session ended without a clean shutdown (hard crash, OOM kill, or force quit)"

-- one line for each frame
pub frames_text : List NativeCrashFrame → Bytes
frames_text [] = []
frames_text (f ∷ fs) =
    (f.module_name
      ++ (b'+' ∷ (hex_to f.offset ++ (if is_empty f.build_id then [] else b' ' ∷ f.build_id))))
    ++ (10 ∷ frames_text fs)

abbrev pub is_abort : ℤ → Bool
is_abort (pos n) = n == 6
is_abort _ = false

module _ (d : Doubles) where
  -- what the last session says of itself, or this one of the same machine
  abbrev of_last : Bytes → Bytes → Bytes
  of_last previous own = if is_empty previous then own else previous

  -- The fields that both reports share, with the others at their defaults; the flag is
  -- `had_previous_log_`.
  abbrev death_payload : Bytes → SessionMarkerData → Bool → Client d → CrashPayload d
  death_payload now_iso previous had_log c = record {
    occurred_at_iso = now_iso;
    build_version = of_last previous.build_version c.settings.build_version;
    os = of_last previous.os c.settings.os;
    arch = of_last previous.arch c.settings.arch;
    signature = [];
    stack_hint = [];
    stack_trace = [];
    breadcrumbs = [];
    user_id = current_user_id c.carry.identity;
    prior_user_id = [];
    steam_id = c.carry.identity.steam_id;
    log = c.settings.session_log_enabled && had_log;
    role = [];
    server_id = [];
    match_id = [];
    session_id = [];
    environment = c.context.environment;
    device = c.carry.device;
    crash_type = [];
    os_signal = pos 0;
  }

  unfoldable pub unclean_payload : Bytes → SessionMarkerData → Bool → Client d → CrashPayload d
  unclean_payload now_iso previous had_log c = record (death_payload now_iso previous had_log c) {
    signature = unclean_signature;
    stack_hint = unclean_stack_hint;
  }

  unfoldable pub native_payload :
      Bytes → SessionMarkerData → NativeCrashDump → Bool → Client d → CrashPayload d
  unfolding frames_text
  native_payload now_iso previous dump had_log c =
      let name = signal_name dump.signal_no in
      record (death_payload now_iso previous had_log c) {
        signature = compute_crash_signature name (frames_text dump.frames);
        stack_hint = codes "Native crash: " ++ (name ++ (codes " at " ++ hex_to dump.fault_addr));
        stack_trace = frames_text dump.frames;
        crash_type = if is_abort dump.signal_no then codes "signal" else codes "native_crash";
        os_signal = dump.signal_no;
      }

  -- the last statement of both
  abbrev pub reported : Moment → CrashPayload d → Client d → Client d
  reported moment payload c =
      enqueue_ingest d crashes_path (build_crash_json d payload) write_ahead crash payload.log true
        moment.draw c

  unfoldable pub report_dump :
      Moment → SessionMarkerData → Option NativeCrashDump → Session d → Session d
  report_dump moment previous none s = record s {
    client =
        reported moment (unclean_payload (moment.iso 1) previous s.had_previous_log s.client)
          s.client;
  }
  report_dump moment previous (some dump) s = record s {
    previous_native_dump = none;
    client =
        reported moment (native_payload (moment.iso 1) previous dump s.had_previous_log s.client)
          s.client;
  }

  unfoldable pub report_unclean_shutdown : Moment → SessionMarkerData → Session d → Session d
  unfolding report_dump
  report_unclean_shutdown moment previous s =
      if s.has_restored_crash
      then record s { previous_native_dump = none }
      else report_dump moment previous s.previous_native_dump s

  unfoldable pub report_previous : Moment → Option SessionMarkerData → Session d → Session d
  report_previous moment none s = s
  report_previous moment (some previous) s =
      report_unclean_shutdown moment previous (record s { previous_marker = none })

  -- the marker that this session leaves
  abbrev pub own_marker : Bytes → Session d → SessionMarkerData
  own_marker now_iso s = record {
    session_id = s.client.settings.session_id;
    started_at_iso = now_iso;
    build_version = s.client.settings.build_version;
    os = s.client.settings.os;
    arch = s.client.settings.arch;
  }

  abbrev pub tracks : Session d → Bool
  tracks s = s.unclean_detection_enabled && s.client.settings.storage_available

  -- the state behind the write of the marker
  abbrev pub marked : SessionMarker.Disk → Moment → Session d → Session d
  marked files moment s = record s {
    session_tracking_started = true;
    marker = SessionMarker.write files (own_marker (moment.iso 0) s) s.marker;
  }

  unfoldable pub start_session_tracking : SessionMarker.Disk → Moment → Session d → Session d
  unfolding report_previous
  start_session_tracking files moment s =
      if s.session_tracking_started || not (tracks s)
      then s
      else report_previous moment s.previous_marker (marked files moment s)
