-- ===== src/Client/Capture.antt =====
-- The capture calls of src/client_reports.cpp. A C string that is null is `none`; what the sampler
-- answers is an argument.
pub mod Consent
pub mod Crash
use tombstack_native.Prelude.{
  ℕ, Bool, true, false, not, ◌&&◌, Option, none, some, [], ◌∷◌, ◌++◌, if◌then◌else◌, value_or,
  is_empty, Bytes, codes,
}
use tombstack_native.Prelude.Int.{pos}
use tombstack_native.Prelude.Decimal.{to_string}
use tombstack_native.Payloads.{Doubles}
use tombstack_native.Payloads.Crash.{CrashPayload, build_crash_json, build_bug_report_json}
use tombstack_native.Signature.{compute_crash_signature}
use tombstack_native.BreadcrumbRing
use tombstack_native.Dedupe
use tombstack_native.SessionLog
use tombstack_native.SidecarQueue.{crash, bug_report}
use tombstack_native.Batch
use tombstack_native.Worker.{write_ahead}
use tombstack_native.Client.Identity.{
  Result, ok, invalid_argument, disabled, suppressed, current_user_id, clamped,
}
use tombstack_native.Client.State.{
  Client, Moment, capture_allowed, enqueue_ingest, flush_all_batches,
}

pub data Level : Type 0 where
  debug info warn error : Level

abbrev pub level_label : Level → Bytes
level_label debug = codes "Debug"
level_label info = codes "Info"
level_label warn = codes "Warning"
level_label error = codes "Error"

abbrev pub crashes_path : Bytes
crashes_path = codes "/api/v1/ingest/crashes"

abbrev pub bug_reports_path : Bytes
bug_reports_path = codes "/api/v1/ingest/bug-reports"

-- `text == nullptr || text[0] == '\0'`
abbrev pub is_unset : Option Bytes → Bool
is_unset none = true
is_unset (some text) = is_empty text

abbrev pub text_or : Option Bytes → Bytes → Bytes
text_or text default' = if is_unset text then default' else value_or text default'

module _ (d : Doubles) where
  abbrev pub record_breadcrumb : Bytes → Bytes → Bytes → Client d → Client d
  record_breadcrumb ts_iso level message c = record c {
    breadcrumbs = BreadcrumbRing.add level message ts_iso c.breadcrumbs;
  }

  -- What every capture call does first: refuse bad arguments, and everything without consent.
  abbrev pub guarded : Bool → Client d → Client d × Result → Client d × Result
  guarded refused c done =
      if refused
      then (c, invalid_argument)
      else if not (capture_allowed d c)
      then (c, disabled)
      else done

  unfoldable pub add_breadcrumb : Moment → Level → Option Bytes → Client d → Client d × Result
  add_breadcrumb moment level message c =
      guarded (is_unset message) c
        (record_breadcrumb (moment.iso 0) (level_label level) (value_or message []) c, ok)

  abbrev keeps_log : Client d → Bool
  keeps_log c = c.settings.session_log_enabled && c.settings.storage_available

  unfoldable pub log_line : Moment → Level → Option Bytes → Client d → Client d × Result
  log_line moment level line c = guarded (is_unset line) c (
    record_breadcrumb (moment.iso 1) (level_label level) (value_or line []) (record c {
      session_log =
          if keeps_log c
          then SessionLog.append (moment.iso 0) (level_label level) (value_or line []) c.session_log
          else c.session_log;
    }),
    ok,
  )

  abbrev pub crash_hint : Option Bytes → Bytes
  crash_hint stack_hint = text_or stack_hint (codes "Crash")

  abbrev pub effective_signature : Option Bytes → Option Bytes → Option Bytes → Bytes
  effective_signature signature stack_hint stack_trace =
      text_or signature (compute_crash_signature (crash_hint stack_hint) (value_or stack_trace []))

  abbrev pub crash_payload :
      Moment → Option Bytes → Option Bytes → Option Bytes → Bool → Client d → CrashPayload d
  crash_payload moment signature stack_hint stack_trace want_log c = record {
    occurred_at_iso = moment.iso 1;
    build_version = c.settings.build_version;
    os = c.settings.os;
    arch = c.settings.arch;
    signature = effective_signature signature stack_hint stack_trace;
    stack_hint = crash_hint stack_hint;
    stack_trace = value_or stack_trace [];
    breadcrumbs = BreadcrumbRing.snapshot c.breadcrumbs;
    user_id = current_user_id c.carry.identity;
    prior_user_id = c.carry.identity.pending_prior_user_id;
    steam_id = c.carry.identity.steam_id;
    log = want_log;
    role = c.context.role;
    server_id = c.context.server_id;
    match_id = c.context.match_id;
    session_id = c.settings.session_id;
    environment = c.context.environment;
    device = c.carry.device;
    crash_type = [];
    os_signal = pos 0;
  }

  abbrev pub wants_log : Bool → Client d → Bool
  wants_log attach_log c =
      attach_log && c.settings.session_log_enabled && c.settings.storage_available

  -- a repeat within the window
  suppress : Moment → Bytes → ℕ → Client d → Client d
  suppress moment hint count c =
      record_breadcrumb (moment.iso 0) (codes "Error")
        (codes "crash suppressed (duplicate x"
          ++ (to_string count ++ (codes " within 60s): " ++ hint)))
        c

  -- the rest of `report_crash`, for a crash that is let through
  unfoldable pub send_crash :
      Moment → Option Bytes → Option Bytes → Option Bytes → Bool → Client d → Client d
  send_crash moment signature stack_hint stack_trace want_log c =
      let logged = record c {
        session_log =
            if want_log
            then SessionLog.append (moment.iso 0) (codes "Crash")
                (crash_hint stack_hint ++ (10 ∷ value_or stack_trace [])) c.session_log
            else c.session_log;
      } in
      let body =
        build_crash_json d (crash_payload moment signature stack_hint stack_trace want_log c) in
      let queued =
        enqueue_ingest d crashes_path body write_ahead crash want_log false moment.draw
          (flush_all_batches d moment logged) in
      record queued {
        session_log =
            if want_log
            then SessionLog.flush_now moment.disk queued.session_log
            else queued.session_log;
      }

  unfoldable pub report_crash :
      Moment → Option Bytes → Option Bytes → Option Bytes → Bool → Client d → Client d × Result
  unfolding suppress
  report_crash moment signature stack_hint stack_trace attach_log c =
      let checked =
        Dedupe.check (effective_signature signature stack_hint stack_trace) (moment.now 0)
          c.dedupe in
      let noted = record c { dedupe = checked.0 } in
      guarded false c (
        if not checked.1.allowed
        then (suppress moment (crash_hint stack_hint) checked.1.suppressed_count noted, suppressed)
        else (
          send_crash moment signature stack_hint stack_trace (wants_log attach_log c) noted,
          ok,
        ))

  unfoldable pub report_bug :
      Moment → Option Bytes → Option Bytes → Bool → Client d → Client d × Result
  report_bug moment category message attach_log c =
      let body = build_bug_report_json d (record {
        occurred_at_iso = moment.iso 0;
        build_version = c.settings.build_version;
        os = c.settings.os;
        arch = c.settings.arch;
        category = value_or category [];
        message = value_or message [];
        user_id = current_user_id c.carry.identity;
        prior_user_id = c.carry.identity.pending_prior_user_id;
        steam_id = c.carry.identity.steam_id;
        breadcrumbs = BreadcrumbRing.snapshot c.breadcrumbs;
        log = wants_log attach_log c;
        role = c.context.role;
        server_id = c.context.server_id;
        match_id = c.context.match_id;
        session_id = c.settings.session_id;
        environment = c.context.environment;
        device = c.carry.device;
      }) in
      guarded (is_unset message) c (
        enqueue_ingest d bug_reports_path body write_ahead bug_report (wants_log attach_log c) false
            moment.draw c,
        ok,
      )

  unfoldable pub set_level : Moment → Option Bytes → Client d → Client d × Result
  set_level moment level_name c =
      let level = clamped level_name BreadcrumbRing.max_message_bytes in
      guarded (is_unset level_name) c (
        record_breadcrumb (moment.iso 0) (codes "Info") (codes "[scene] level: " ++ level)
            (record c { context = record c.context { current_level = level } }),
        ok,
      )
